-- ===== src/Runner/Secrets.antt =====
-- packages/runner/src/secrets.ts: a property name that carries key material is refused before it
-- reaches the store. Names are ASCII here: `toLowerCase` on the rest of Unicode is left out.
pub mod Refusal
use waterx_predict_agent.Base.{
  ℕ, suc, ◌+◌, leb, ◌==◌, if◌then◌else◌, or_else, Bool, true, false, ◌&&◌, ◌||◌, Option, none, some,
  List, [], ◌∷◌, Text, codes, text_eq,
}

-- A value as `JSON.stringify` and `Object.entries` see it; `primitive` holds everything whose
-- `typeof` is not 'object', and null.
mutual
  pub data Json : Type 0 where
    primitive : Text → Json
    array : Items → Json
    object : Fields → Json

  pub data Items : Type 0 where
    nil : Items
    cons : Json → Items → Items

  pub data Fields : Type 0 where
    end : Fields
    field : Text → Json → Fields → Fields

abbrev pub forbidden_keys : List Text
forbidden_keys =
    codes "privatekey"
    ∷ codes "secretkey"
    ∷ codes "seedphrase"
    ∷ codes "mnemonic"
    ∷ codes "keypair"
    ∷ codes "signature"
    ∷ codes "signedbytes"
    ∷ codes "sponsoredtransactionbytes"
    ∷ codes "transactionbytes"
    ∷ codes "accesstoken"
    ∷ codes "authtoken"
    ∷ codes "bearertoken"
    ∷ codes "sessiontoken"
    ∷ codes "refreshtoken"
    ∷ codes "authorization"
    ∷ codes "password"
    ∷ []

to_lower : ℕ → ℕ
to_lower c = if leb b'A' c && leb c b'Z' then c + 32 else c

is_plain : ℕ → Bool
is_plain c = (leb b'a' c && leb c b'z') || (leb b'0' c && leb c b'9')

unfoldable pub normalize : Text → Text
unfolding to_lower is_plain
normalize [] = []
normalize (c ∷ cs) =
    let rest = normalize cs in if is_plain (to_lower c) then to_lower c ∷ rest else rest

includes : List Text → Text → Bool
includes [] t = false
includes (x ∷ xs) t = text_eq x t || includes xs t

unfoldable pub is_forbidden : Text → Bool
unfolding normalize includes
is_forbidden key = includes forbidden_keys (normalize key)

-- A step of the path that the refusal names.
pub data PathStep : Type 0 where
  at_key : Text → PathStep
  at_index : ℕ → PathStep

-- The path of the first forbidden property, innermost step first; `none` where nothing is thrown.
unfoldable mutual
  pub assert_no_secrets : Json → List PathStep → Option (List PathStep)
  assert_no_secrets (primitive t) path = none
  assert_no_secrets (array xs) path = assert_items xs 0 path
  assert_no_secrets (object fs) path = assert_fields fs path

  pub assert_items : Items → ℕ → List PathStep → Option (List PathStep)
  assert_items nil i path = none
  assert_items (cons x xs) i path =
      or_else (assert_no_secrets x (at_index i ∷ path)) (assert_items xs (i + 1) path)

  pub assert_fields : Fields → List PathStep → Option (List PathStep)
  assert_fields end path = none
  assert_fields (field k v fs) path =
      if is_forbidden k
      then some (at_key k ∷ path)
      else or_else (assert_no_secrets v (at_key k ∷ path)) (assert_fields fs path)
