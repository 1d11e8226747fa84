-- ===== src/Base/Rows.antt =====
-- Tables as lists of rows: what an UPDATE does to a SELECT, and unique columns.
use waterx_predict_agent.Base.Tests.{if◌then◌else◌, Bool-cases}
use waterx_predict_agent.Base.Lists.{
  sort_by, insert_by, length, select, find, any, update, All, All-map, All-update,
}
use Prim.Native.Nat.{suc}
use mathlib.Core.Path.{◌≡◌, refl, sym, ap, ◌∙◌}
use mathlib.Core.Logic.{inl, inr}
use mathlib.Core.Bool.{Bool, true, false}
use mathlib.Core.Option.{Option, none, some}
use mathlib.Core.Option
use mathlib.Core.List.{List, [], ◌∷◌}
use native.Mathlib.Omega.{arith}

module _ {ℓ} {A : Type ℓ} where
  -- The row that UPDATE … WHERE p leaves in place of `a`.
  abbrev pub edited : (A → Bool) → (A → A) → A → A
  edited p f a = if p a then f a else a

  edited_test :
      (p q : A → Bool) (f : A → A) (x : A)
      → ((a : A) → p a ≡ true → q (f a) ≡ q a)
      → q (edited p f x) ≡ q x
  edited_test p q f x h = elim (Bool-cases (p x)) [ inl e ↦ rw e (h x e) | inr e ↦ rw e ]

  pub find-update :
      (p q : A → Bool) (f : A → A) (xs : List A)
      → ((a : A) → p a ≡ true → q (f a) ≡ q a)
      → find q (update p f xs) ≡ Option.map (edited p f) (find q xs)
  find-update p q f [] h = refl
  find-update p q f (x ∷ xs) h =
      rw (edited_test p q f x h)
        (elim (Bool-cases (q x)) [ inl e ↦ rw e | inr e ↦ rw e (find-update p q f xs h) ])

  pub length-select-update :
      (p q : A → Bool) (f : A → A) (xs : List A)
      → ((a : A) → p a ≡ true → q (f a) ≡ q a)
      → length (select q (update p f xs)) ≡ length (select q xs)
  length-select-update p q f [] h = refl
  length-select-update p q f (x ∷ xs) h = rw (edited_test p q f x h) (elim (Bool-cases (q x)) [
    | inl e ↦ rw e (ap suc (length-select-update p q f xs h))
    | inr e ↦ rw e (length-select-update p q f xs h)
  ])

  pub find-none : (p : A → Bool) (xs : List A) → find p xs ≡ none → All (λ x. p x ≡ false) xs
  find-none p [] h = tt
  find-none p (x ∷ xs) h = elim (Bool-cases (p x)) [
    | inl e ↦ let absurd_eq : some x ≡ none = rw e at h in cc
    | inr e ↦ (e, find-none p xs (rw e at h))
  ]

  pub any-false : (p : A → Bool) (xs : List A) → any p xs ≡ false → All (λ x. p x ≡ false) xs
  any-false p [] h = tt
  any-false p (x ∷ xs) h = (ground arith, any-false p xs (ground arith))

  pub All-both {κ μ ν} :
      {P : A → Type κ} {Q : A → Type μ} {R : A → Type ν} (f : (a : A) → P a → Q a → R a)
      (xs : List A)
      → All P xs
      → All Q xs
      → All R xs
  All-both f [] p q = tt
  All-both f (x ∷ xs) p q = (f x p.0 q.0, All-both f xs p.1 q.1)

  -- No two rows of the table are the same in the sense of a unique index.
  abbrev pub Distinct : (A → A → Bool) → List A → Type 0
  Distinct same [] = Unit
  Distinct same (x ∷ xs) = All (λ y. same x y ≡ false) xs × Distinct same xs

  All-same-update :
      (same : A → A → Bool) (p : A → Bool) (f : A → A) (x x' : A) (xs : List A)
      → ((b : A) → same x b ≡ false → same x' b ≡ false)
      → ((a b : A) → p a ≡ true → same b a ≡ false → same b (f a) ≡ false)
      → All (λ y. same x y ≡ false) xs
      → All (λ y. same x' y ≡ false) (update p f xs)
  All-same-update same p f x x' [] l r h = tt
  All-same-update same p f x x' (y ∷ ys) l r h = (
    l (edited p f y) (elim (Bool-cases (p y)) [ inl e ↦ rw e (r y x e h.0) | inr e ↦ rw e h.0 ]),
    All-same-update same p f x x' ys l r h.1,
  )

  -- An UPDATE that makes no two rows the same keeps the index unique.
  pub Distinct-update :
      (same : A → A → Bool) (p : A → Bool) (f : A → A) (xs : List A)
      → ((a b : A) → p a ≡ true → same a b ≡ false → same (f a) b ≡ false)
      → ((a b : A) → p a ≡ true → same b a ≡ false → same b (f a) ≡ false)
      → Distinct same xs
      → Distinct same (update p f xs)
  Distinct-update same p f [] l r h = tt
  Distinct-update same p f (x ∷ xs) l r h = (
    All-same-update same p f x (edited p f x) xs
        (λ b q. elim (Bool-cases (p x)) [ inl e ↦ rw e (l x b e q) | inr e ↦ rw e q ]) r h.0,
    Distinct-update same p f xs l r h.1,
  )

  All-update_missed {κ μ} :
      (P : A → Type κ) (Q : A → Type μ) (p : A → Bool) (f : A → A) (xs : List A)
      → ((x : A) → p x ≡ false → P x → Q x)
      → All (λ x. p x ≡ false) xs
      → All P xs
      → All Q (update p f xs)
  All-update_missed P Q p f [] miss none_hit h = tt
  All-update_missed P Q p f (x ∷ xs) miss none_hit h =
      (rw none_hit.0 (miss x none_hit.0 h.0), All-update_missed P Q p f xs miss none_hit.1 h.1)

  -- Under a unique index an UPDATE by key writes the one row that a SELECT by the key finds.
  pub All-update_found {κ μ} :
      (P : A → Type κ) (Q : A → Type μ) (same : A → A → Bool) (p q : A → Bool) (f : A → A) (a : A)
      (xs : List A)
      → ((x y : A) → q x ≡ true → q y ≡ true → same x y ≡ true)
      → ((x : A) → p x ≡ true → q x ≡ true)
      → Distinct same xs
      → find q xs ≡ some a
      → (p a ≡ true → P a → Q (f a))
      → ((x : A) → p x ≡ false → P x → Q x)
      → All P xs
      → All Q (update p f xs)
  All-update_found P Q same p q f a [] one sub d e hit miss h = tt
  All-update_found P Q same p q f a (x ∷ xs) one sub d e hit miss h = elim (Bool-cases (q x)) [
    | inl t ↦
        let is_a : x ≡ a = ground arith in
        (
          elim (Bool-cases (p x)) [
            | inl u ↦ rw u (rw is_a (hit (rw (← is_a) u) (rw (← is_a) h.0)))
            | inr u ↦ rw u (miss x u h.0)
          ],
          All-update_missed P Q p f xs miss (All-map (λ y s. not_hit x y t s) xs d.0) h.1,
        )
    | inr t ↦ (
      elim (Bool-cases (p x)) [
        | inl u ↦ let bad : true ≡ false = sym (sub x u) ∙ t in cc
        | inr u ↦ rw u (miss x u h.0)
      ],
      All-update_found P Q same p q f a xs one sub d.1 (rw t at e) hit miss h.1,
    )
  ]
    where
      not_hit : (x y : A) → q x ≡ true → same x y ≡ false → p y ≡ false
      not_hit x y t s = elim (Bool-cases (p y)) [
        | inl u ↦ let bad : true ≡ false = sym (one x y t (sub y u)) ∙ s in cc
        | inr u ↦ u
      ]

  -- An UPDATE of one row keeps another index unique where no other row is the same as the new one.
  pub Distinct-update_one {κ} :
      (R : A → Type κ) (same same' : A → A → Bool) (p : A → Bool) (f : A → A) (xs : List A)
      → ((x y : A) → p x ≡ true → p y ≡ true → same x y ≡ true)
      → ((x y : A) → p x ≡ true → p y ≡ false → R y → same' (f x) y ≡ false)
      → ((x y : A) → p x ≡ true → p y ≡ false → R y → same' y (f x) ≡ false)
      → All R xs
      → Distinct same xs
      → Distinct same' xs
      → Distinct same' (update p f xs)
  Distinct-update_one R same same' p f [] one l r h d d' = tt
  Distinct-update_one R same same' p f (x ∷ xs) one l r h d d' = elim (Bool-cases (p x)) [
    | inl e ↦ (
      rw e (
          All-update_missed R (λ y. same' (f x) y ≡ false) p f xs (λ y q s. l x y e q s)
            (All-map (λ y s. not_hit y e s) xs d.0) h.1),
      Distinct-update_one R same same' p f xs one l r h.1 d.1 d'.1,
    )
    | inr e ↦ (
      rw e (All-update p f xs (λ y q s. r y x q e h.0) (λ y q s. s) d'.0),
      Distinct-update_one R same same' p f xs one l r h.1 d.1 d'.1,
    )
  ]
    where
      not_hit : (y : A) → p x ≡ true → same x y ≡ false → p y ≡ false
      not_hit y t s = elim (Bool-cases (p y)) [
        | inl u ↦ let bad : true ≡ false = sym (one x y t u) ∙ s in cc
        | inr u ↦ u
      ]

  pub All-every {κ} : {P : A → Type κ} → ((a : A) → P a) → (xs : List A) → All P xs
  All-every f [] = tt
  All-every f (x ∷ xs) = (f x, All-every f xs)

  -- What a SELECT finds passes its test.
  pub find_test : (p : A → Bool) (xs : List A) {a : A} → find p xs ≡ some a → p a ≡ true
  find_test p [] h = cc
  find_test p (x ∷ xs) {a} h = elim (Bool-cases (p x)) [
    | inl e ↦ let q : x ≡ a = ground arith in rw (← q) e
    | inr e ↦ find_test p xs (rw e at h)
  ]

  pub All-select {κ} :
      (P : A → Type κ) (p : A → Bool) (xs : List A)
      → All P xs
      → All (λ x. P x × (p x ≡ true)) (select p xs)
  All-select P p [] h = tt
  All-select P p (x ∷ xs) h = elim (Bool-cases (p x)) [
    | inl e ↦ rw e ((h.0, e), All-select P p xs h.1)
    | inr e ↦ rw e (All-select P p xs h.1)
  ]

  All-insert_by {κ} :
      (P : A → Type κ) (before : A → A → Bool) (x : A) (xs : List A)
      → P x
      → All P xs
      → All P (insert_by before x xs)
  All-insert_by P before x [] p h = (p, tt)
  All-insert_by P before x (y ∷ ys) p h = elim (Bool-cases (before x y)) [
    | inl e ↦ rw e (p, h)
    | inr e ↦ rw e (h.0, All-insert_by P before x ys p h.1)
  ]

  pub All-sort_by {κ} :
      (P : A → Type κ) (before : A → A → Bool) (xs : List A) → All P xs → All P (sort_by before xs)
  All-sort_by P before [] h = tt
  All-sort_by P before (x ∷ xs) h = All-insert_by P before x _ h.0 (All-sort_by P before xs h.1)
