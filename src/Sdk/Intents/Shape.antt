-- ===== src/Sdk/Intents/Shape.antt =====
-- packages/sdk/src/intent-shape.ts: what an intent has to look like before a key is reserved for
-- it. A length counts UTF-16 code units.
pub mod Sizes
use waterx_predict_agent.Base.{
  suc, ℕ, ◌==◌, leb, if◌then◌else◌, Bool, true, false, not, ◌&&◌, ◌||◌, Option, none, some, or_else,
  List, [], ◌∷◌, length, Text, codes, text_eq, is_digit, all_digits,
}
use waterx_predict_agent.Sdk.Decimal.{Side, split_point, is_decimal_parts, fraction_of, is_empty}
use waterx_predict_agent.Sdk.Intents.Canonical.{
  Value, Values, Members, undefined, text, integer, array, object, nil, cons, end, member,
  is_undefined,
}

-- `intent[key]`.
abbrev pub get : Text → Members → Value
get key end = undefined
get key (member k v ms) = let rest = get key ms in if text_eq k key then v else rest

-- `String(value)`, as far as it may be an address.
abbrev pub string_of : Value → Text
string_of (text t) = t
string_of (array (cons v nil)) = string_of v
string_of _ = []

abbrev pub all_zeros : Text → Bool
all_zeros [] = true
all_zeros (c ∷ cs) = (c == b'0') && all_zeros cs

-- `POSITIVE_DECIMAL_AMOUNT_PATTERN`.
unfoldable pub is_positive_decimal : Text → Bool
is_positive_decimal t =
    let parts = split_point t in
    is_decimal_parts parts
    && (leb (length (fraction_of parts)) 6
        && not (all_zeros parts.0 && all_zeros (fraction_of parts)))

-- `0*1`.
abbrev pub is_one : Text → Bool
is_one [] = false
is_one (c ∷ []) = c == b'1'
is_one (c ∷ d ∷ cs) = (c == b'0') && is_one (d ∷ cs)

-- `PROBABILITY_PRICE_PATTERN`.
unfoldable pub is_probability_price : Text → Bool
is_probability_price t =
    let parts = split_point t in
    is_decimal_parts parts
    && (leb (length (fraction_of parts)) 6
        && (all_zeros parts.0 || (is_one parts.0 && all_zeros (fraction_of parts))))

abbrev pub is_hex : ℕ → Bool
is_hex c = is_digit c || ((leb b'a' c && leb c b'f') || (leb b'A' c && leb c b'F'))

abbrev pub all_hex : Text → Bool
all_hex [] = true
all_hex (c ∷ cs) = is_hex c && all_hex cs

-- `SUI_ADDRESS_PATTERN`.
abbrev pub is_sui_address : Text → Bool
is_sui_address (o ∷ x ∷ rest) =
    (o == b'0') && ((x == b'x') && ((length rest == 64) && all_hex rest))
is_sui_address _ = false

abbrev pub is_identifier_text : Text → Bool
is_identifier_text t = leb 1 (length t) && leb (length t) 128

abbrev pub is_identifier : Value → Bool
is_identifier (text t) = is_identifier_text t
is_identifier _ = false

abbrev pub is_text : Text → Value → Bool
is_text expected (text t) = text_eq t expected
is_text expected _ = false

pub data UnrecoverableReason : Type 0 where
  account_id market_id outcome_id unknown_side size_no_object other_unit unit_missing :
      UnrecoverableReason
  unit_not_decimal position_required position_on_buy slippage worst_price : UnrecoverableReason
  optional_identifier : Text → UnrecoverableReason

abbrev pub unit_of : Side → Text
unit_of Side.buy = codes "buyAmount"
unit_of Side.sell = codes "sellShares"

abbrev pub other_of : Side → Text
other_of Side.buy = codes "sellShares"
other_of Side.sell = codes "buyAmount"

abbrev pub side_of : Value → Option Side
side_of v =
    if is_text (codes "BUY") v
    then some Side.buy
    else if is_text (codes "SELL") v
    then some Side.sell
    else none

-- `Object.keys(size).length`.
abbrev pub count_members : Members → ℕ
count_members end = 0
count_members (member k v ms) = suc (count_members ms)

abbrev pub is_positive_decimal_value : Value → Bool
is_positive_decimal_value (text t) = is_positive_decimal t
is_positive_decimal_value _ = false

-- The reason, if a condition fails.
abbrev pub unless : Bool → UnrecoverableReason → Option UnrecoverableReason
unless true reason = none
unless false reason = some reason

unfoldable pub size_reason : Side → Value → Option UnrecoverableReason
size_reason side (object size) =
    or_else (unless (is_undefined (get (other_of side) size)) UnrecoverableReason.other_unit) (
      or_else
        (unless ((count_members size == 1) && not (is_undefined (get (unit_of side) size)))
          UnrecoverableReason.unit_missing)
        (unless (is_positive_decimal_value (get (unit_of side) size))
          UnrecoverableReason.unit_not_decimal))
size_reason side _ = some UnrecoverableReason.size_no_object

abbrev pub position_reason : Side → Value → Option UnrecoverableReason
position_reason Side.sell v = unless (is_identifier v) UnrecoverableReason.position_required
position_reason Side.buy v = unless (is_undefined v) UnrecoverableReason.position_on_buy

abbrev pub is_slippage : Value → Bool
is_slippage (integer n) = leb n 9999
is_slippage _ = false

abbrev pub is_worst_price : Value → Bool
is_worst_price undefined = true
is_worst_price (text t) = is_probability_price t
is_worst_price _ = false

abbrev pub optional_reason : Text → Members → Option UnrecoverableReason
optional_reason key intent =
    unless (is_undefined (get key intent) || is_identifier (get key intent))
      (UnrecoverableReason.optional_identifier key)

-- What is asked behind the side.
unfoldable pub sided_reason : Option Side → Members → Option UnrecoverableReason
sided_reason none intent = some UnrecoverableReason.unknown_side
sided_reason (some side) intent = or_else (size_reason side (get (codes "size") intent)) (
    or_else (position_reason side (get (codes "positionId") intent)) (
      or_else
        (unless (is_slippage (get (codes "maxSlippageBps") intent)) UnrecoverableReason.slippage)
        (or_else
          (unless (is_worst_price (get (codes "worstAcceptablePrice") intent))
            UnrecoverableReason.worst_price)
          (or_else (optional_reason (codes "clientOrderId") intent)
            (optional_reason (codes "strategyId") intent)))))

unfoldable pub unrecoverable_intent_reason : Members → Option UnrecoverableReason
unrecoverable_intent_reason intent =
    or_else
      (unless (is_sui_address (string_of (get (codes "accountId") intent)))
        UnrecoverableReason.account_id)
      (or_else
        (unless (is_identifier (get (codes "marketId") intent)) UnrecoverableReason.market_id)
        (or_else
          (unless
            (is_text (codes "YES") (get (codes "outcomeId") intent)
              || is_text (codes "NO") (get (codes "outcomeId") intent))
            UnrecoverableReason.outcome_id)
          (sided_reason (side_of (get (codes "side") intent)) intent)))
