-- ===== src/Runner/Detail.antt =====
-- The `detail` objects that packages/runner/src hands to the transition log and the ledger.
use waterx_predict_agent.Base.{ℕ, Bool, true, false, Option, some, List, [], ◌∷◌, Text, codes}
use waterx_predict_agent.Sdk.Decimal.{print_digits}
use waterx_predict_agent.Runner.Secrets.{Json, Items, Fields}

abbrev pub fields : List (Text × Json) → Fields
fields [] = Fields.end
fields ((k, v) ∷ rest) = Fields.field k v (fields rest)

abbrev pub items : List Json → Items
items [] = Items.nil
items (j ∷ js) = Items.cons j (items js)

abbrev pub detail_of : List (Text × Json) → Option Json
detail_of entries = some (Json.object (fields entries))

abbrev pub word : Text → Json
word t = Json.primitive t

abbrev pub number : ℕ → Json
number n = Json.primitive (print_digits n)

abbrev pub truth : Bool → Json
truth true = Json.primitive (codes "true")
truth false = Json.primitive (codes "false")
