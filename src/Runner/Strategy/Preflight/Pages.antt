-- ===== src/Runner/Strategy/Preflight/Pages.antt =====
-- `findPosition` of packages/runner/src/strategy/positions.ts.
use waterx_predict_agent.Base.{
  ℕ, zero, suc, ◌+◌, ◌≤◌, ◌==◌, true, false, Option, none, some, List, [], ◌∷◌, find, find_test,
  any, All, All-map, Any, Any-find, All-not_found, Bool-cases, inl, inr, ◌≡◌, ◌≢◌, refl, ==_iff,
  arith,
}
use waterx_predict_agent.Runner.Strategy.Gateway.{Outside, Position, PositionPage}
use waterx_predict_agent.Runner.Strategy.World.{Act, World, ask, next, pure, ◌>>=◌}
use waterx_predict_agent.Runner.Store.Db.{Result, StoreError, ok, err}
use waterx_predict_agent.Runner.Strategy.Preflight.Checks.{
  PositionLookup, found, absent, read_page, or_next, follow, walk_pages, find_position,
}

-- What a lookup says, without its count.
pub data Ending : Type 0 where
  present : Position → Ending
  proven unproven : Ending

abbrev pub ending : PositionLookup → Ending
ending (found p read) = present p
ending (absent true read) = proven
ending (absent false read) = unproven

abbrev pub pages : PositionLookup → ℕ
pages (found p read) = read
pages (absent b read) = read

-- The pages that the server hands out from a moment and a cursor on, how many of them are read, and
-- what they say in the end.
pub data Walk (o : Outside) (account id : ℕ) : ℕ → Option ℕ → ℕ → Ending → Type 0 where
  out_of_pages : {m : ℕ} {cursor : Option ℕ} → Walk o account id m cursor 0 unproven
  has_it :
      {m : ℕ} {cursor : Option ℕ} (page : PositionPage) (p : Position)
      → o.get_positions m account cursor ≡ ok page
      → Any (λ x. x ≡ p) page.positions
      → p.position_id ≡ id
      → Walk o account id m cursor 1 (present p)
  is_last :
      {m : ℕ} {cursor : Option ℕ} (page : PositionPage)
      → o.get_positions m account cursor ≡ ok page
      → All (λ (x : Position). x.position_id ≢ id) page.positions
      → page.next_cursor ≡ some none
      → Walk o account id m cursor 1 proven
  is_cut :
      {m : ℕ} {cursor : Option ℕ} (page : PositionPage)
      → o.get_positions m account cursor ≡ ok page
      → All (λ (x : Position). x.position_id ≢ id) page.positions
      → page.next_cursor ≢ some none
      → Walk o account id m cursor 1 unproven
  goes_on :
      {m n : ℕ} {cursor : Option ℕ} {e : Ending} (page : PositionPage) (c : ℕ)
      → o.get_positions m account cursor ≡ ok page
      → All (λ (x : Position). x.position_id ≢ id) page.positions
      → page.next_cursor ≡ some (some c)
      → Walk o account id (suc m) (some c) n e
      → Walk o account id m cursor (suc n) e

-- A lookup behind so many pages, which may ask for so many more: each page that it counts is one
-- that it asked for, and its answer is what they say. One that throws has asked for no more.
pub data IsWithin (o : Outside) (account id most read : ℕ) (cursor : Option ℕ) (w : World)
    : Result PositionLookup × World → Type 0 where
  done :
      {v : World} {lookup : PositionLookup} (n : ℕ)
      → Walk o account id w.moment cursor n (ending lookup)
      → pages lookup ≡ read + n
      → v.moment ≡ w.moment + n
      → n ≤ most
      → IsWithin o account id most read cursor w (ok lookup, v)
  failed :
      {v : World} {x : StoreError}
      → v.moment ≤ w.moment + most
      → IsWithin o account id most read cursor w (err x, v)

module _ (o : Outside) (account id : ℕ) where
  later :
      {most read c : ℕ} {cursor : Option ℕ} {w v : World} {r : Result PositionLookup × World}
      (page : PositionPage)
      → o.get_positions w.moment account cursor ≡ ok page
      → All (λ (x : Position). x.position_id ≢ id) page.positions
      → page.next_cursor ≡ some (some c)
      → v.moment ≡ suc w.moment
      → IsWithin o account id most (suc read) (some c) v r
      → IsWithin o account id (suc most) read cursor w r
  later {w = w} page answered away more on (done n walk counted passed within) =
      done (suc n) (goes_on page _ answered away more (rw (← on) walk)) (omega (arith, counted))
        (omega (arith, passed, on)) (omega (arith, within))
  later page answered away more on (failed h) = failed (omega (arith, h, on))

  absent_here :
      (page : PositionPage)
      → find (λ (p : Position). p.position_id == id) page.positions ≡ none
      → All (λ (x : Position). x.position_id ≢ id) page.positions
  absent_here page e =
      All-map (λ x off q. let same = (==_iff x.position_id id).1 q in cc) page.positions
        (All-not_found (λ (p : Position). p.position_id == id) page.positions e)

  followed :
      (most read : ℕ) (seen : List ℕ) (cursor : Option ℕ) (w v : World) (page : PositionPage)
      (k : ℕ → Act PositionLookup) (p : Option Position) (more : Option (Option ℕ))
      → o.get_positions w.moment account cursor ≡ ok page
      → v.moment ≡ suc w.moment
      → find (λ (p : Position). p.position_id == id) page.positions ≡ p
      → page.next_cursor ≡ more
      → ((c : ℕ) → IsWithin o account id most (suc read) (some c) v (k c v))
      → IsWithin o account id (suc most) read cursor w (follow (or_next p (suc read) seen more) k v)
  unfolding pure
  followed most read seen cursor w v page k (some p) more answered on e f rest =
      done 1
        (has_it page p answered
          (Any-find (λ x. x ≡ p) (λ (p : Position). p.position_id == id) page.positions e refl)
          ((==_iff _ _).0 (find_test (λ (p : Position). p.position_id == id) page.positions e)))
        (omega arith) (omega (arith, on)) (omega arith)
  followed most read seen cursor w v page k none none answered on e f rest =
      done 1 (is_cut page answered (absent_here page e) (λ bad. cc (f, bad))) (omega arith)
        (omega (arith, on)) (omega arith)
  followed most read seen cursor w v page k none (some none) answered on e f rest =
      done 1 (is_last page answered (absent_here page e) f) (omega arith) (omega (arith, on))
        (omega arith)
  followed most read seen cursor w v page k none (some (some c)) answered on e f rest =
      elim (Bool-cases (any (λ s. s == c) seen)) [
        | inl again ↦ rw again (
            done 1 (is_cut page answered (absent_here page e) (λ bad. cc (f, bad))) (omega arith)
              (omega (arith, on)) (omega arith))
        | inr fresh ↦ rw fresh (later page answered (absent_here page e) f on (rest c))
      ]

  walk_pages-IsWithin :
      (left read : ℕ) (seen : List ℕ) (cursor : Option ℕ) (w : World)
      → IsWithin o account id left read cursor w (walk_pages o left account id read seen cursor w)
  unfolding walk_pages read_page ask pure ◌>>=◌
  walk_pages-IsWithin zero read seen cursor w =
      done 0 out_of_pages (omega arith) (omega arith) (omega arith)
  walk_pages-IsWithin (suc left) read seen cursor w =
      answered (o.get_positions w.moment account cursor) refl (λ c.
        walk_pages-IsWithin left (suc read) (c ∷ seen) (some c)
          (record w { moment = suc w.moment }))
    where
      answered :
          (r : Result PositionPage)
          → o.get_positions w.moment account cursor ≡ r
          → ((c : ℕ)
              → IsWithin o account id left
                  (suc read)
                  (some c)
                  (record w { moment = suc w.moment })
                  (walk_pages o left account id
                    (suc read)
                    (c ∷ seen)
                    (some c)
                    (record w { moment = suc w.moment })))
          → IsWithin o account id (suc left) read cursor w (
              next
                (r, record w { moment = suc w.moment })
                (λ page.
                  follow
                    (read_page id (suc read) seen page)
                    (λ c. walk_pages o left account id (suc read) (c ∷ seen) (some c))))
      answered (err x) e rest = failed (omega arith)
      answered (ok page) e rest =
          followed left read seen cursor w (record w { moment = suc w.moment }) page _ _ _ e refl
            refl refl rest

-- A lookup asks for at most twenty pages, whatever cursors the server hands out, and counts exactly
-- those; the position that it finds has the id that was asked for and is on the last of them, and
-- none of the others has one; an absence is proven only where none has it and the last says that
-- nothing follows. One that throws has asked for twenty at most.
pub find_position-IsWithin :
    (o : Outside) (account id : ℕ) (w : World)
    → IsWithin o account id 20 0 none w (find_position o account id w)
unfolding find_position
find_position-IsWithin o account id w = walk_pages-IsWithin o account id 20 0 [] none w
