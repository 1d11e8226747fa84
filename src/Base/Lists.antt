-- ===== src/Base/Lists.antt =====
-- Lists measured by native numbers, a predicate on every entry, and the SQL idioms over lists of
-- rows: the first match of a SELECT, an UPDATE with its WHERE, a unique column.
use Prim.Native.Nat.{ℕ, zero, suc, ◌+◌, ◌-◌}
use mathlib.Core.Path.{◌≡◌, refl, ap}
use mathlib.Core.Logic.{◌⊎◌, inl, inr}
use mathlib.Core.Bool.{Bool, true, false, ◌||◌}
use mathlib.Core.Option.{Option, none, some}
use mathlib.Core.List.{List, [], ◌∷◌, ◌++◌}
use native.Mathlib.Omega.{arith}
use waterx_predict_agent.Base.Tests.{if◌then◌else◌, Bool-cases}

module _ {ℓ} {A : Type ℓ} where
  abbrev pub length : List A → ℕ
  length [] = 0
  length (x ∷ xs) = suc (length xs)

  abbrev pub replicate : ℕ → A → List A
  replicate zero a = []
  replicate (suc n) a = a ∷ replicate n a

  pub length-append : (xs ys : List A) → length (xs ++ ys) ≡ length xs + length ys
  length-append [] ys = omega arith
  length-append (x ∷ xs) ys = omega (arith, length-append xs ys)

  pub length-replicate : (n : ℕ) (a : A) → length (replicate n a) ≡ n
  length-replicate zero a = refl
  length-replicate (suc n) a = ap suc (length-replicate n a)

  abbrev pub take : ℕ → List A → List A
  take zero xs = []
  take (suc n) [] = []
  take (suc n) (x ∷ xs) = x ∷ take n xs

  abbrev pub drop : ℕ → List A → List A
  drop zero xs = xs
  drop (suc n) [] = []
  drop (suc n) (x ∷ xs) = drop n xs

  pub take-append-drop : (n : ℕ) (xs : List A) → take n xs ++ drop n xs ≡ xs
  take-append-drop zero xs = refl
  take-append-drop (suc n) [] = refl
  take-append-drop (suc n) (x ∷ xs) = ap (◌∷◌ x) (take-append-drop n xs)

  pub length-drop : (n : ℕ) (xs : List A) → length (drop n xs) ≡ length xs - n
  length-drop zero xs = omega arith
  length-drop (suc n) [] = omega arith
  length-drop (suc n) (x ∷ xs) = omega (arith, length-drop n xs)

  -- `rows.filter(p)`: the rows that a WHERE clause selects.
  abbrev pub select : (A → Bool) → List A → List A
  select p [] = []
  select p (x ∷ xs) = let rest = select p xs in if p x then x ∷ rest else rest

  -- `rows.find(p)`: the first row that a WHERE clause selects.
  abbrev pub find : (A → Bool) → List A → Option A
  find p [] = none
  find p (x ∷ xs) = let rest = find p xs in if p x then some x else rest

  -- `rows.some(p)`.
  abbrev pub any : (A → Bool) → List A → Bool
  any p [] = false
  any p (x ∷ xs) = p x || any p xs

  -- UPDATE … WHERE p.
  abbrev pub update : (A → Bool) → (A → A) → List A → List A
  update p f [] = []
  update p f (x ∷ xs) = (if p x then f x else x) ∷ update p f xs

  abbrev pub insert_by : (A → A → Bool) → A → List A → List A
  insert_by before x [] = x ∷ []
  insert_by before x (y ∷ ys) =
      let rest = insert_by before x ys in if before x y then x ∷ y ∷ ys else y ∷ rest

  -- ORDER BY: of rows that are level, a strict `before` reverses the places and a weak one keeps them.
  abbrev pub sort_by : (A → A → Bool) → List A → List A
  sort_by before [] = []
  sort_by before (x ∷ xs) = insert_by before x (sort_by before xs)

module _ {ℓ κ} {A : Type ℓ} where
  abbrev pub All : (A → Type κ) → List A → Type κ
  All P [] = Unit
  All P (x ∷ xs) = P x × All P xs

module _ {ℓ} {A : Type ℓ} where
  -- A predicate on one entry at least.
  abbrev pub Any : (A → Type 0) → List A → Type 0
  Any P [] = ⊥
  Any P (x ∷ xs) = P x ⊎ Any P xs

  pub Any-map : {P Q : A → Type 0} → ((a : A) → P a → Q a) → (xs : List A) → Any P xs → Any Q xs
  Any-map f [] h = absurd h
  Any-map f (x ∷ xs) (inl p) = inl (f x p)
  Any-map f (x ∷ xs) (inr h) = inr (Any-map f xs h)

  pub Any-find :
      (P : A → Type 0) (p : A → Bool) (xs : List A) {a : A} → find p xs ≡ some a → P a → Any P xs
  Any-find P p [] h q = cc
  Any-find P p (x ∷ xs) {a} h q = elim (Bool-cases (p x)) [
    | inl e ↦ let same : x ≡ a = ground arith in inl (rw same q)
    | inr e ↦ inr (Any-find P p xs (rw e at h) q)
  ]

  pub Any-select :
      (P : A → Type 0) (p : A → Bool) (xs : List A)
      → Any P (select p xs)
      → Any (λ x. P x × (p x ≡ true)) xs
  Any-select P p [] h = absurd h
  Any-select P p (x ∷ xs) h = elim (Bool-cases (p x)) [
    | inl e ↦ elim (rw e at h) [ inl q ↦ inl (q, e) | inr t ↦ inr (Any-select P p xs t) ]
    | inr e ↦ inr (Any-select P p xs (rw e at h))
  ]

  pub All-not_found : (p : A → Bool) (xs : List A) → find p xs ≡ none → All (λ x. p x ≡ false) xs
  All-not_found p [] h = tt
  All-not_found p (x ∷ xs) h = elim (Bool-cases (p x)) [
    | inl e ↦ let bad : some x ≡ none = rw e at h in cc
    | inr e ↦ (e, All-not_found p xs (rw e at h))
  ]

  pub All-unselect :
      (P : A → Type 0) (p : A → Bool) (xs : List A)
      → All P (select p xs)
      → All (λ x. p x ≡ true → P x) xs
  All-unselect P p [] h = tt
  All-unselect P p (x ∷ xs) h = elim (Bool-cases (p x)) [
    | inl e ↦
        let (q, rest) : P x × All P (select p xs) = rw e at h in (λ u. q, All-unselect P p xs rest)
    | inr e ↦ (λ u. absurd (cc (e, u)), All-unselect P p xs (rw e at h))
  ]

module _ {ℓ} {A : Type ℓ} where
  pub All-map {κ μ} :
      {P : A → Type κ} {Q : A → Type μ} (f : (a : A) → P a → Q a) (xs : List A)
      → All P xs
      → All Q xs
  All-map f [] h = tt
  All-map f (x ∷ xs) h = (f x h.0, All-map f xs h.1)

  pub All-update {κ μ} :
      {P : A → Type κ} {Q : A → Type μ} (p : A → Bool) (f : A → A) (xs : List A)
      → ((a : A) → p a ≡ true → P a → Q (f a))
      → ((a : A) → p a ≡ false → P a → Q a)
      → All P xs
      → All Q (update p f xs)
  All-update p f [] hit miss h = tt
  All-update {Q = Q} p f (x ∷ xs) hit miss h = (
    elim (Bool-cases (p x)) [ inl e ↦ rw e (hit x e h.0) | inr e ↦ rw e (miss x e h.0) ],
    All-update p f xs hit miss h.1,
  )

  pub All-find {κ} :
      (P : A → Type κ) (p : A → Bool) (xs : List A) {a : A}
      → All P xs
      → find p xs ≡ some a
      → P a × (p a ≡ true)
  All-find P p [] h e = cc
  All-find P p (x ∷ xs) {a} h e = elim (Bool-cases (p x)) [
    | inl t ↦ let q : x ≡ a = ground arith in (rw (← q) h.0, rw (← q) t)
    | inr t ↦ All-find P p xs h.1 (ground arith)
  ]
