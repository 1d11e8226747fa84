-- ===== src/Sdk/Intents/Canonical/Same.antt =====
-- The canonical form of packages/sdk/src/intent-store.ts forgets the order of fields, at every
-- depth, and an intent's identity forgets the excluded ones.
use waterx_predict_agent.Base.{
  ltb, Bool, true, false, ◌||◌, Bool-cases, inl, inr, Option, none, some, List, [], ◌∷◌, insert_by,
  sort_by, some_injective, Text, text_eq, ◌≡◌, ◌⊎◌, refl, sym, ap, ◌∙◌, arith,
}
use waterx_predict_agent.Sdk.Intents.Canonical.{
  in_brackets, sorted, normalize_intent, in_braces, is_excluded, intent_digest, canonical_members,
  with_member, canonical_items, ◌>>=◌, canonical_json, Value, Values, Members, undefined, array,
  object, nil, cons, member, text_lt, before, is_undefined,
}

-- The order on keys.
text_lt_irrefl : (s : Text) → text_lt s s ≡ false
text_lt_irrefl [] = refl
text_lt_irrefl (x ∷ xs) = ground (arith, text_lt_irrefl xs)

text_lt_trans : (s t u : Text) → text_lt s t ≡ true → text_lt t u ≡ true → text_lt s u ≡ true
text_lt_trans [] [] u h k = cc
text_lt_trans [] (y ∷ ys) [] h k = cc
text_lt_trans [] (y ∷ ys) (z ∷ zs) h k = refl
text_lt_trans (x ∷ xs) [] u h k = cc
text_lt_trans (x ∷ xs) (y ∷ ys) [] h k = cc
text_lt_trans (x ∷ xs) (y ∷ ys) (z ∷ zs) h k = ground (arith, text_lt_trans xs ys zs)

text_lt_total : (s t : Text) → text_eq s t ≡ false → (text_lt s t ≡ true) ⊎ (text_lt t s ≡ true)
text_lt_total [] [] d = cc
text_lt_total [] (y ∷ ys) d = inl refl
text_lt_total (x ∷ xs) [] d = inr refl
text_lt_total (x ∷ xs) (y ∷ ys) d = elim (Bool-cases (ltb x y)) [
  | inl below ↦ inl (ground (arith, below))
  | inr h ↦ elim (Bool-cases (ltb y x)) [
    | inl above ↦ inr (ground (arith, above))
    | inr k ↦
        let rest : text_eq xs ys ≡ false = ground (arith, h, k, d) in
        elim (text_lt_total xs ys rest) [
          | inl below ↦ inl (ground (arith, h, k, below))
          | inr above ↦ inr (ground (arith, h, k, above))
        ]
  ]
]

text_lt_asym : (s t : Text) → text_lt s t ≡ true → text_lt t s ≡ false
text_lt_asym s t h = elim (Bool-cases (text_lt t s)) [
  | inl k ↦ let bad = text_lt_trans s t s h k in let no_way = text_lt_irrefl s in cc
  | inr k ↦ k
]

-- Two entries whose keys differ go in in either order.
insert_lt :
    (a b : Text × Text) (l : List (Text × Text))
    → before a b ≡ true
    → insert_by before a (insert_by before b l) ≡ insert_by before b (insert_by before a l)
insert_lt a b [] h = let asym = text_lt_asym a.0 b.0 h in rw (h, asym) refl
insert_lt a b (z ∷ zs) h =
    let asym = text_lt_asym a.0 b.0 h in
    let ih = insert_lt a b zs h in
    elim (Bool-cases (before b z)) [
      | inl bz ↦ let az = text_lt_trans a.0 b.0 z.0 h bz in rw (bz, az) (rw (h, asym) (rw bz refl))
      | inr bz ↦ elim (Bool-cases (before a z)) [
        | inl az ↦ rw (bz, az) (rw (asym, bz) refl)
        | inr az ↦ rw (bz, az) (rw bz (ap (◌∷◌ z) ih))
      ]
    ]

insert_comm :
    (a b : Text × Text) (l : List (Text × Text))
    → text_eq a.0 b.0 ≡ false
    → insert_by before a (insert_by before b l) ≡ insert_by before b (insert_by before a l)
insert_comm a b l d = elim (text_lt_total a.0 b.0 d) [
  | inl h ↦ insert_lt a b l h
  | inr h ↦ sym (insert_lt b a l h)
]

-- Values that differ in the order of fields, or in fields that are undefined, at any depth.
mutual
  pub data Same : Value → Value → Type 0 where
    same : (v : Value) → Same v v
    objects : {ms ns : Members} → SameMembers ms ns → Same (object ms) (object ns)
    arrays : {vs ws : Values} → SameItems vs ws → Same (array vs) (array ws)
    along : {u v w : Value} → Same u v → Same v w → Same u w

  pub data SameItems : Values → Values → Type 0 where
    none_left : SameItems nil nil
    items :
        {v w : Value} {vs ws : Values}
        → Same v w
        → SameItems vs ws
        → SameItems (cons v vs) (cons w ws)

  pub data SameMembers : Members → Members → Type 0 where
    kept : (ms : Members) → SameMembers ms ms
    under :
        (k : Text) {v w : Value} {ms ns : Members}
        → Same v w
        → SameMembers ms ns
        → SameMembers (member k v ms) (member k w ns)
    swapped :
        (k l : Text) (v w : Value) (ms : Members)
        → text_eq k l ≡ false
        → SameMembers (member k v (member l w ms)) (member l w (member k v ms))
    absent : (k : Text) (ms : Members) → SameMembers (member k undefined ms) ms
    after : {ms ns os : Members} → SameMembers ms ns → SameMembers ns os → SameMembers ms os
    reversed : {ms ns : Members} → SameMembers ms ns → SameMembers ns ms

Same-is_undefined : {v w : Value} → Same v w → is_undefined v ≡ is_undefined w
Same-is_undefined (same v) = refl
Same-is_undefined (objects m) = refl
Same-is_undefined (arrays m) = refl
Same-is_undefined (along p q) = Same-is_undefined p ∙ Same-is_undefined q

sorted-under :
    (b : Bool) (k : Text) (t : Option Text) (x y : Option (List (Text × Text)))
    → sorted x ≡ sorted y
    → sorted (with_member b k t x) ≡ sorted (with_member b k t y)
sorted-under true k t x y e = e
sorted-under false k none x y e = refl
sorted-under false k (some t) none none e = refl
sorted-under false k (some t) none (some y) e = cc
sorted-under false k (some t) (some x) none e = cc
sorted-under false k (some t) (some x) (some y) e =
    ap (λ l. some (insert_by before (k, t) l)) (some_injective e)

sorted-swapped :
    (b c : Bool) (k l : Text) (s t : Option Text) (x : Option (List (Text × Text)))
    → text_eq k l ≡ false
    → sorted (with_member b k s (with_member c l t x))
      ≡ sorted (with_member c l t (with_member b k s x))
sorted-swapped true c k l s t x d = refl
sorted-swapped false true k l s t x d = refl
sorted-swapped false false k l none none x d = refl
sorted-swapped false false k l none (some t) x d = refl
sorted-swapped false false k l (some s) none x d = refl
sorted-swapped false false k l (some s) (some t) none d = refl
sorted-swapped false false k l (some s) (some t) (some x) d =
    ap some (insert_comm (k, s) (l, t) (sort_by before x) d)

mutual
  unfolding canonical_json

  canonical_json-Same : {v w : Value} → Same v w → canonical_json v ≡ canonical_json w
  canonical_json-Same (same v) = refl
  canonical_json-Same (objects m) =
      ap (λ (o : Option (List (Text × Text))). o >>= λ ts. some (in_braces ts))
        (canonical_members-Same m)
  canonical_json-Same (arrays m) =
      ap (λ (o : Option (List Text)). o >>= λ ts. some (in_brackets ts)) (canonical_items-Same m)
  canonical_json-Same (along p q) = canonical_json-Same p ∙ canonical_json-Same q

  canonical_items-Same :
      {vs ws : Values} → SameItems vs ws → canonical_items vs ≡ canonical_items ws
  canonical_items-Same none_left = refl
  canonical_items-Same (items p q) =
      let first = canonical_json-Same p in
      let rest = canonical_items-Same q in rw (first, rest) refl

  canonical_members-Same :
      {ms ns : Members}
      → SameMembers ms ns
      → sorted (canonical_members ms) ≡ sorted (canonical_members ns)
  canonical_members-Same (kept ms) = refl
  canonical_members-Same (under k {v} {w} {ms} {ns} p q) =
      rw (Same-is_undefined p, canonical_json-Same p)
        (sorted-under (is_undefined w) k (canonical_json w) (canonical_members ms)
          (canonical_members ns) (canonical_members-Same q))
  canonical_members-Same (swapped k l v w ms d) =
      sorted-swapped (is_undefined v) (is_undefined w) k l (canonical_json v) (canonical_json w)
        (canonical_members ms) d
  canonical_members-Same (absent k ms) = refl
  canonical_members-Same (after p q) = canonical_members-Same p ∙ canonical_members-Same q
  canonical_members-Same (reversed p) = sym (canonical_members-Same p)

-- Intents that differ in no more than that and in the excluded fields.
pub data SameIntent : Members → Members → Type 0 where
  alike : {ms ns : Members} → SameMembers ms ns → SameIntent ms ns
  excluded :
      (k : Text) (v : Value) (ms : Members) → is_excluded k ≡ true → SameIntent (member k v ms) ms
  beneath :
      (k : Text) (v : Value) {ms ns : Members}
      → SameIntent ms ns
      → SameIntent (member k v ms) (member k v ns)
  then_too : {ms ns os : Members} → SameIntent ms ns → SameIntent ns os → SameIntent ms os
  back : {ms ns : Members} → SameIntent ms ns → SameIntent ns ms

normalize_intent-Same :
    {ms ns : Members} → SameMembers ms ns → SameMembers (normalize_intent ms) (normalize_intent ns)
unfolding normalize_intent
normalize_intent-Same (kept ms) = kept _
normalize_intent-Same (under k {v} {w} {ms} {ns} p q) =
    let rest = normalize_intent-Same q in
    rw (Same-is_undefined p) (elim (Bool-cases (is_excluded k || is_undefined w)) [
      | inl e ↦ rw e rest
      | inr e ↦ rw e (under k p rest)
    ])
normalize_intent-Same (swapped k l v w ms d) = elim (Bool-cases (is_excluded k || is_undefined v)) [
  | inl e ↦ rw e (kept _)
  | inr e ↦ elim (Bool-cases (is_excluded l || is_undefined w)) [
    | inl f ↦ rw (e, f) (kept _)
    | inr f ↦ rw (e, f) (swapped k l v w _ d)
  ]
]
normalize_intent-Same (absent k ms) = elim (Bool-cases (is_excluded k)) [
  | inl e ↦ rw e (kept _)
  | inr e ↦ rw e (kept _)
]
normalize_intent-Same (after p q) = after (normalize_intent-Same p) (normalize_intent-Same q)
normalize_intent-Same (reversed p) = reversed (normalize_intent-Same p)

normalize_intent-SameIntent :
    {ms ns : Members} → SameIntent ms ns → SameMembers (normalize_intent ms) (normalize_intent ns)
unfolding normalize_intent
normalize_intent-SameIntent (alike p) = normalize_intent-Same p
normalize_intent-SameIntent (excluded k v ms e) = rw e (kept _)
normalize_intent-SameIntent (beneath k v {ms} {ns} p) =
    let rest = normalize_intent-SameIntent p in
    elim (Bool-cases (is_excluded k || is_undefined v)) [
      | inl e ↦ rw e rest
      | inr e ↦ rw e (under k (same v) rest)
    ]
normalize_intent-SameIntent (then_too p q) =
    after (normalize_intent-SameIntent p) (normalize_intent-SameIntent q)
normalize_intent-SameIntent (back p) = reversed (normalize_intent-SameIntent p)

-- Intents that differ only in the order of fields, at any depth, in fields that are undefined and
-- in the quote and the key that they carry have one digest, or are both refused.
pub intent_digest-SameIntent :
    (sha256 : Text → Text) {ms ns : Members}
    → SameIntent ms ns
    → intent_digest sha256 ms ≡ intent_digest sha256 ns
unfolding intent_digest
intent_digest-SameIntent sha256 p =
    ap (λ (o : Option Text). o >>= λ t. some (sha256 t))
      (canonical_json-Same (objects (normalize_intent-SameIntent p)))
