-- ===== src/Runner/Secrets/Refusal.antt =====
-- What packages/runner/src/secrets.ts promises of a value about to be persisted.
use waterx_predict_agent.Base.{
  ℕ, ◌+◌, is_none, any, Bool, not, ◌||◌, List, [], ◌∷◌, ◌++◌, Text, ◌≡◌, refl, arith,
}
use waterx_predict_agent.Runner.Secrets.{
  Json, Items, Fields, primitive, array, object, nil, cons, end, field, PathStep, at_key, at_index,
  is_forbidden, assert_no_secrets, assert_items, assert_fields,
}

-- Every property name of a value, at every depth.
mutual
  pub keys : Json → List Text
  keys (primitive t) = []
  keys (array xs) = keys_items xs
  keys (object fs) = keys_fields fs

  pub keys_items : Items → List Text
  keys_items nil = []
  keys_items (cons x xs) = keys x ++ keys_items xs

  pub keys_fields : Fields → List Text
  keys_fields end = []
  keys_fields (field k v fs) = k ∷ (keys v ++ keys_fields fs)

any-append : (p : Text → Bool) (xs ys : List Text) → any p (xs ++ ys) ≡ (any p xs || any p ys)
any-append p [] ys = refl
any-append p (x ∷ xs) ys = ground (arith, any-append p xs ys)

mutual
  unfolding assert_no_secrets keys

  json_refused :
      (j : Json) (path : List PathStep)
      → is_none (assert_no_secrets j path) ≡ not (any is_forbidden (keys j))
  json_refused (primitive t) path = refl
  json_refused (array xs) path = items_refused xs 0 path
  json_refused (object fs) path = fields_refused fs path

  items_refused :
      (xs : Items) (i : ℕ) (path : List PathStep)
      → is_none (assert_items xs i path) ≡ not (any is_forbidden (keys_items xs))
  items_refused nil i path = refl
  items_refused (cons x xs) i path = ground (
    arith,
    json_refused x (at_index i ∷ path),
    items_refused xs (i + 1) path,
    any-append is_forbidden (keys x) (keys_items xs),
  )

  fields_refused :
      (fs : Fields) (path : List PathStep)
      → is_none (assert_fields fs path) ≡ not (any is_forbidden (keys_fields fs))
  fields_refused end path = refl
  fields_refused (field k v fs) path = ground (
    arith,
    json_refused v (at_key k ∷ path),
    fields_refused fs path,
    any-append is_forbidden (keys v) (keys_fields fs),
  )

-- A value is let through exactly when no property name, at any depth, is a forbidden one.
pub assert_no_secrets_lem :
    (j : Json) (path : List PathStep)
    → is_none (assert_no_secrets j path) ≡ not (any is_forbidden (keys j))
assert_no_secrets_lem j path = json_refused j path
