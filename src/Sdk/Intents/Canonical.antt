-- ===== src/Sdk/Intents/Canonical.antt =====
-- `canonicalJson` and `normalizeIntent` of packages/sdk/src/intent-store.ts. A text is the list of its
-- UTF-16 code units, in whose order keys are sorted, and holds no lone surrogate. A key of an
-- object stands once in it, and none is `__proto__`.
pub mod Same
use waterx_predict_agent.Base.{
  ℕ, ◌+◌, ◌-◌, ◌/◌, ◌%◌, ◌==◌, ltb, leb, if◌then◌else◌, Bool, true, false, ◌&&◌, ◌||◌, Option, none,
  some, List, [], ◌∷◌, ◌++◌, sort_by, Text, codes, text_eq,
}
use waterx_predict_agent.Sdk.Decimal.{print_digits}

-- A value of JavaScript. `integer` is a whole number from zero up to 10 ^ 21, `primitive` any other
-- finite number or a truth value, by its text, and `unrepresentable` is NaN, an infinity or a
-- bigint.
mutual
  pub data Value : Type 0 where
    null undefined unrepresentable : Value
    text primitive : Text → Value
    integer : ℕ → Value
    array : Values → Value
    object : Members → Value

  pub data Values : Type 0 where
    nil : Values
    cons : Value → Values → Values

  pub data Members : Type 0 where
    end : Members
    member : Text → Value → Members → Members

-- The letters behind a backslash: b, t, n, f and r.
abbrev pub short_escape : ℕ → Option ℕ
short_escape c =
    if c == 8
    then some b'b'
    else if c == 9
    then some b't'
    else if c == 10
    then some b'n'
    else if c == 12
    then some b'f'
    else if c == 13
    then some b'r'
    else none

abbrev pub hex_digit : ℕ → ℕ
hex_digit d = if ltb d 10 then b'0' + d else b'a' + (d - 10)

abbrev pub escape_control : ℕ → Option ℕ → Text
escape_control c (some letter) = 92 ∷ letter ∷ []
escape_control c none = 92 ∷ b'u' ∷ b'0' ∷ b'0' ∷ hex_digit (c / 16) ∷ hex_digit (c % 16) ∷ []

abbrev pub escape : ℕ → Text
escape c =
    if (c == 34) || (c == 92)
    then 92 ∷ c ∷ []
    else if ltb c 32
    then escape_control c (short_escape c)
    else c ∷ []

abbrev pub escaped : Text → Text
escaped [] = []
escaped (c ∷ cs) = escape c ++ escaped cs

-- `JSON.stringify` of a text.
unfoldable pub quote : Text → Text
quote t = 34 ∷ (escaped t ++ (34 ∷ []))

abbrev pub text_lt : Text → Text → Bool
text_lt [] [] = false
text_lt [] (y ∷ ys) = true
text_lt (x ∷ xs) [] = false
text_lt (x ∷ xs) (y ∷ ys) = let rest = text_lt xs ys in ltb x y || ((x == y) && rest)

abbrev pub before : Text × Text → Text × Text → Bool
before a b = text_lt a.0 b.0

-- `join(',')`.
abbrev pub join : List Text → Text
join [] = []
join (t ∷ []) = t
join (t ∷ u ∷ ts) = t ++ (b',' ∷ join (u ∷ ts))

abbrev pub colon : List (Text × Text) → List Text
colon [] = []
colon ((k, v) ∷ rest) = (quote k ++ (b':' ∷ v)) ∷ colon rest

infixl 5 ◌>>=◌
abbrev pub ◌>>=◌ {ℓ κ} : {A : Type ℓ} {B : Type κ} → Option A → (A → Option B) → Option B
none >>= k = none
some a >>= k = k a

abbrev pub is_undefined : Value → Bool
is_undefined undefined = true
is_undefined _ = false

-- A member that is undefined is dropped.
abbrev pub with_member :
    Bool → Text → Option Text → Option (List (Text × Text)) → Option (List (Text × Text))
with_member true k v rest = rest
with_member false k v rest = v >>= λ t. rest >>= λ ts. some ((k, t) ∷ ts)

abbrev pub sorted : Option (List (Text × Text)) → Option (List (Text × Text))
sorted o = o >>= λ ts. some (sort_by before ts)

abbrev pub in_braces : List (Text × Text) → Text
in_braces ts = b'{' ∷ (join (colon ts) ++ (b'}' ∷ []))

abbrev pub in_brackets : List Text → Text
in_brackets ts = b'[' ∷ (join ts ++ (b']' ∷ []))

-- `none` where something is not representable. The members are printed first and then sorted.
unfoldable mutual
  unfolding quote

  pub canonical_json : Value → Option Text
  canonical_json null = some (codes "null")
  canonical_json undefined = some (codes "null")
  canonical_json unrepresentable = none
  canonical_json (text t) = some (quote t)
  canonical_json (primitive t) = some t
  canonical_json (integer n) = some (print_digits n)
  canonical_json (array vs) = canonical_items vs >>= λ ts. some (in_brackets ts)
  canonical_json (object ms) = sorted (canonical_members ms) >>= λ ts. some (in_braces ts)

  pub canonical_items : Values → Option (List Text)
  canonical_items nil = some []
  canonical_items (cons v vs) = canonical_json v >>= λ t. canonical_items vs >>= λ ts. some (t ∷ ts)

  pub canonical_members : Members → Option (List (Text × Text))
  canonical_members end = some []
  canonical_members (member k v ms) =
      with_member (is_undefined v) k (canonical_json v) (canonical_members ms)

-- `INTENT_DIGEST_EXCLUDED_FIELDS`.
abbrev pub is_excluded : Text → Bool
is_excluded k = text_eq k (codes "idempotencyKey") || text_eq k (codes "referenceQuoteId")

unfoldable pub normalize_intent : Members → Members
normalize_intent end = end
normalize_intent (member k v ms) =
    let rest = normalize_intent ms in
    if is_excluded k || is_undefined v then rest else member k v rest

-- `intentDigest`, with the hash as a parameter.
unfoldable pub intent_digest : (Text → Text) → Members → Option Text
intent_digest sha256 intent =
    canonical_json (object (normalize_intent intent)) >>= λ t. some (sha256 t)
