-- ===== src/Sdk/Intents/Files.antt =====
-- `FileIntentStore` of packages/sdk/src/intent-store.ts: sections of several processes on one
-- ledger and one lock file, interleaved. A section is named by the token of its lock. Nobody
-- removes a lock file by hand; a wait, and a refusal at its end, change nothing.
pub mod Serial
use waterx_predict_agent.Base.{
  ℕ, ◌==◌, if◌then◌else◌, Bool, true, false, Option, none, some, List, [], Text, ◌≡◌, ◌≢◌,
}
use waterx_predict_agent.Sdk.Intents.Ledger.{ok, Records, assert_usable}
use waterx_predict_agent.Sdk.Intents.Ledger.Run.{Call, step}

-- Where a section is: not begun or over, with its lock, with what it has read, or past the fence
-- with what it is about to rename into place.
pub data Phase : Type 0 where
  away opened : Phase
  loaded fenced : Records → Phase

pub record Files : Type 0 where
  pub lock : Option ℕ
  pub ledger : Records
  pub phase : ℕ → Phase

abbrev pub set_phase : (ℕ → Phase) → ℕ → Phase → ℕ → Phase
set_phase phase token p other = if other == token then p else phase other

abbrev pub is_token : ℕ → Option ℕ → Bool
is_token token none = false
is_token token (some holder) = holder == token

-- The lock file, without the token's own.
abbrev pub unlocked : ℕ → Option ℕ → Option ℕ
unlocked token lock = if is_token token lock then none else lock

pub data FileStep (sha256 : Text → Text) : Files → Files → Type 0 where
  -- `acquire`: `O_EXCL` succeeds where there is no lock.
  acquire :
      (f : Files) (token : ℕ)
      → f.lock ≡ none
      → f.phase token ≡ away
      → FileStep sha256 f (record f { lock = some token; phase = set_phase f.phase token opened })
  -- `load`.
  load :
      (f : Files) (token : ℕ)
      → f.phase token ≡ opened
      → assert_usable sha256 [] f.ledger ≡ ok tt
      → FileStep sha256 f (record f { phase = set_phase f.phase token (loaded f.ledger) })
  -- The operation, and the first half of `persist`: the lock has to be its own.
  fence :
      (f : Files) (token : ℕ) (c : Call) (records after : Records)
      → f.phase token ≡ loaded records
      → step sha256 c records ≡ ok after
      → is_token token f.lock ≡ true
      → FileStep sha256 f (record f { phase = set_phase f.phase token (fenced after) })
  -- The second half of `persist`: the rename.
  commit :
      (f : Files) (token : ℕ) (after : Records)
      → f.phase token ≡ fenced after
      → FileStep sha256 f (record f { ledger = after; phase = set_phase f.phase token opened })
  -- `release`, behind a section that returns or throws.
  release :
      (f : Files) (token : ℕ)
      → f.phase token ≢ away
      → FileStep sha256 f
          (record f { lock = unlocked token f.lock; phase = set_phase f.phase token away })

abbrev pub no_files : Files
no_files = record { lock = none; ledger = []; phase = λ token. away }

pub data Reach (sha256 : Text → Text) : Files → Type 0 where
  start : Reach sha256 no_files
  next : {f g : Files} → Reach sha256 f → FileStep sha256 f g → Reach sha256 g
