-- ===== src/Runner/Store/Streams.antt =====
-- The stream cursors of packages/runner/src/sqlite/store.ts.
use waterx_predict_agent.Base.{
  ℕ, ◌==◌, ltb, if◌then◌else◌, Bool, false, Option, none, some, [], ◌∷◌, find, update, Text,
  all_digits, digits_value,
}
use waterx_predict_agent.Runner.Store.Db.{Db, CursorRow, Result, ok, err, StoreError, ◌>>◌, guard}

abbrev pub is_scope : ℕ → CursorRow → Bool
is_scope scope r = r.scope == scope

-- `/^\d+$/`.
abbrev pub is_cursor : Text → Bool
is_cursor [] = false
is_cursor (c ∷ cs) = all_digits (c ∷ cs)

-- `BigInt(cursor)`.
abbrev pub position : Text → ℕ
position t = digits_value 0 t

unfoldable pub advance : ℕ → Text → ℕ → Text → Db → Result (Text × Db)
advance scope cursor at held db =
    if ltb (position cursor) (position held)
    then err StoreError.cursor_rewind
    else if position cursor == position held
    then ok (held, db)
    else ok (
      cursor,
      record db {
        cursors =
            update (is_scope scope) (λ r. record r { cursor = cursor; updated_at = at }) db.cursors;
      },
    )

unfoldable pub save_cursor : ℕ → Text → ℕ → Db → Result (Text × Db)
save_cursor scope cursor at db = do
  guard (is_cursor cursor) StoreError.invalid_input
  elim (find (is_scope scope) db.cursors) [
    | some row ↦ advance scope cursor at row.cursor db
    | none ↦ ok (
      cursor,
      record db {
        cursors = record { scope = scope; cursor = cursor; updated_at = at } ∷ db.cursors;
      },
    )
  ]

unfoldable pub read_cursor : ℕ → Db → Option Text
read_cursor scope db = elim (find (is_scope scope) db.cursors) [
  | none ↦ none
  | some row ↦ some row.cursor
]
