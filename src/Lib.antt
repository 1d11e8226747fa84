-- ===== src/Lib.antt =====
-- The Runner of WaterX Predict Agent: the part that keeps jobs on disk, moves them through their
-- state machine, takes them over after a crash and finds out from the server how an order ended.
-- With it, the parts of the SDK that it trades by: the ledger of intents, which gives one order
-- one idempotency key, and the stream of quotes.
--
-- packages/runner keeps one SQLite file. A job is a row with a state; the states and the edges
-- between them are a table. Several processes may run on the file: each claims a job under a lease
-- with a fence, and the writes of a holder assert its lease. A leg is a row with the idempotency
-- key of one order, and before a request leaves the process an attempt is written to a side-effect
-- ledger. On a start, recovery reads that ledger and decides what each unfinished job has become;
-- the reconciler then reads the server.
--
-- Runner/StateMachine: packages/runner/src/state-machine.ts. Runner/Job: job.ts, its records.
-- Runner/Secrets: secrets.ts. Runner/Store: the interface of store.ts as sqlite/store.ts
-- implements it on the tables of sqlite/migrations.ts. Store/Db has the tables, errors.ts and the
-- private readers; Store/Instances, Jobs, Leases, Legs, Effects and Streams have the methods, one
-- function each (`claimJob` is claim_job). Store/Change is an abstract relation of what may happen
-- to the tables, Store/Run a history of calls in the order in which their transactions commit,
-- Store/Prog code that makes several calls. Store/Gives and Store/Prog/After say what holds when a
-- call or a program does not fail, Store/Invariant holds the invariants of histories, Store/Replay
-- and Store/Mandate what a call that is made again does, Store/Ownership what the lease of a
-- completion covers. Runner/Recovery: recovery.ts. Runner/Reconciler: reconciler.ts, with the
-- decisions in Reconciler and the pass in Reconciler/Pass. Runner/Strategy/Cancel:
-- `cancelStrategy` of strategy/service.ts. Runner/Strategy/Driver: strategy/driver.ts, one pass
-- over a job (`driveJob` is drive_job), with Driver/Endings, Create, Submit, Execute, Resume and
-- Pass for its parts, Driver/Report for the words it logs, and Driver/Told, Keys, Asked, Sent,
-- Executed, Drives, Accounts, Quotes, Silent, Idle and Left for the proofs.
-- Runner/Strategy/Preflight: strategy/preflight.ts and positions.ts, with Authority, Markets and
-- Sizes for the verdicts and Checks for the order in which they are asked.
-- Runner/Strategy/Gateway: strategy/gateway.ts, lifecycle.ts and `sharesForFraction` of intent.ts.
-- Runner/Strategy/Intent: the expiry, the policy and the trigger of intent.ts; what it reads of a
-- text that is an instant is read before. Runner/Scheduler: `runTick` of scheduler.ts, with the
-- keeper as the list of the leases that it holds. Runner/Drain: drain.ts, with the same list.
-- Runner/Strategy/World is what a pass of the driver acts on: the database, the requests that have
-- left and a moment that every call outside passes; World/Ran, Backed and Reads say what a run may
-- do to it. Runner/Supervisor: `tick` of supervisor.ts. Runner/Prices: prices.ts, the observer
-- that listens to the stream and the one that polls, with Prices/Heard, Polled and Sourced for
-- their proofs. Sdk/Decimal: packages/sdk/src/decimal.ts. Sdk/Intents: packages/sdk/src/intent-
-- store.ts and intent-shape.ts, with Intents/Canonical for the normalization and the digest of an
-- intent, Shape for what makes an intent unrecoverable, Ledger for `BaseIntentStore` and Files for
-- the sections of `FileIntentStore`, interleaved by a step relation; Ledger/Run has histories of
-- calls, Ledger/Usable, Digests, Found and Keys the invariants. Sdk/QuoteStream:
-- `SocketQuoteStream` of packages/sdk/src/quote-stream.ts, with Handlers for what it does on an
-- event of its socket, its clock or its caller, and Run for the states that they reach, with
-- Run/Contiguous, Kept, Silence, Awaited and GivesUp for the proofs. Runner/Detail builds the
-- objects that are logged. Base has the shared helpers. Witnesses has concrete runs.
--
-- Conventions. A method is a function from the database to a result; an error carries no database,
-- which is the ROLLBACK of `tx`. A program of several calls keeps what was committed before an
-- error. Each table is a list, newest row first; a unique index is a test before the insertion.
-- Ids, keys, digests, fingerprints and scopes are only compared, and are numbers; so the text of
-- an id in a logged detail is its digits. Instants are milliseconds. Amounts and cursors are
-- texts, as lists of characters. Numbers do not overflow: amounts are BigInt in the code, and
-- sequence numbers and fences count calls. A `number` of the code that is subtracted, in the
-- silence of an instance, is at or above zero or its test comes out the same. The draws of
-- `randomUUID` are a list, and the hash of the intent store is a parameter. In the intent store a
-- text is the list of its UTF-16 code units. Nobody removes a lock file by hand. Timers are armed
-- or not, and fire as events; a listener of the stream does not call it back.
--
-- Fuel: print_from takes fuel for the digits of a number, one more than the number; the round trip
-- shows that it is enough. walk_pages takes the pages that a lookup may still read, `maxPages` of
-- them. The rounds of a drain are fuel: one for each millisecond of its deadline and one more are
-- enough under a clock that each poll moves, as the result on it shows. All else is structural.
--
-- The gateway of the reconciler is a parameter: a function from an execution's id to what the
-- server answers, or an error, which stands for a read that throws. The driver has a record of
-- such parameters: the gateway, the signer, the price feed, the fresh ids, the digest of a mandate
-- and the two fingerprints of requests; what each answers may depend on the moment and is
-- otherwise not restricted. The answer to a write is an answer, a refusal that settles what
-- happened, or an error that settles nothing.
--
-- Not modelled: opening the file, its pragmas, its row decoders and running the migrations; names
-- outside ASCII in the secrets check; the texts of errors; reads that fail; the keys of an intent,
-- a trigger and a policy, which are fixed and never forbidden, so that their check passes. A read
-- between two calls of one program sees the state that the program left: the interleaving of other
-- instances is in the histories of Store/Run and not inside a recovery or a pass. The keeper's
-- timer and its abort signals are not modelled, and no renewal happens inside a tick of the
-- scheduler; nor are its own timer, the join of a tick in flight and its events. Two calls of a
-- polling observer do not overlap: the read of a market and the stamp of its instant are one step.
-- The abort signal of a pass is not modelled, nor the text of the errors that it throws. The join
-- of a second drain is not modelled. The readers of the payloads of quotes, the handshake and the
-- backoff of the quote stream, the watcher of one order's price, the execution stream, the rest of
-- the SDK client, the normalization of legs, the command line, the signers and the tooling are
-- outside this development.
pub mod Base
pub mod Sdk
pub mod Runner
pub mod Witnesses
