-- ===== src/Lib.antt =====
-- Verification library of Sonari's TypeScript: the hashing and proof library packages/proof-core
-- and the state of the earthquake watcher, nautilus/verifiers/earthquake/watcher.
--
-- The watcher polls the USGS feeds, keeps one row per earthquake, starts one run of the verifier
-- enclave at a time for a due row, and records what the enclave, the archive, the relayer, the
-- registration of proofs and the census answer. proof-core hashes the affected cells of an event
-- into a Merkle tree, whose root the enclave signs, and finds the proofs that are replayed on chain.
--
-- Prelude holds the shared names: lists on the native numbers, results of code that throws, and the
-- stable sort.
--
-- ProofCore models packages/proof-core/src: Bytes is bytes.ts, constants.ts and
-- `expectPrefixedHex32` of schema.ts; Merkle is merkle.ts and leaf-hash.ts; Leaf is
-- affected-cell-leaf.ts; Decimal and AffectedCells are affected-cells.ts, without the parser of its
-- file; Shard is shard.ts; Manifest is manifest.ts, with the JSON that it hashes. A text is its list of code units, and a function that throws returns a
-- `Result` with the fixed part of the message. `sha256` is a parameter, of which some theorems ask
-- that it returns 32 bytes. The loop over the levels of a tree runs on fuel, as much as there are
-- leaves, which is enough since each level is shorter than the one below.
--
-- Watcher models `InMemoryStateRepository` of nautilus/verifiers/earthquake/watcher/src/state.ts and
-- the helpers it calls. Types has the row and the inputs; Row, Row/Fresh and Row/Updates have the
-- functions on a row, with the thresholds of screening.ts and constants.ts; TeeResult is
-- `applyResultToRow`; Repository has the table of rows and the upserts, Repository/Workflow the starts and the lock, Repository/Outcomes
-- the reports on an attempt, Repository/Queue the job queue and the recovery, Repository/Queries the
-- lists. A method that mutates returns the new repository; one that answers returns the answer with
-- it. Times and counts are natural numbers, magnitudes are in thousandths, and `null` is `none`. The
-- event uid of a candidate, the JSON text of a result and the check of a finalized result are
-- parameters. Steps is the relation of all operations that change the repository, and runs of it:
-- Steps/Keep and Steps/Lock follow the attempts and the lock through a run. Attempts, Leases, Due,
-- Recovery and Upserts are about single operations and pairs of them. Examples has tests and the
-- theorems at concrete inputs.
--
-- Watcher/DynamoDb models `DynamoDbStateRepository` of the same file: a method is a `Session`, which
-- takes the table and returns it with an answer or an error, and sends a `Command` to a client that
-- is a parameter. A command carries its condition and its update expression as functions of the
-- stored item. Operations has the starts, the stop and the progress, Reports the reports on an
-- attempt and the job queue, Upserts the feed and the manual requests, Recovery the scans, whose
-- fuel is the number of pages. Documented states what the code relies on of DynamoDB: a conditional
-- write is done in one step where its condition holds and refused where not; a fresh read is a
-- hypothesis of its own, since the code asks for no consistent read of a row. Starting (with its
-- Conditions), Stopping, Refinement, Sightings, Manual and Scans compare the operations with those in memory; Safety takes reads that
-- may be stale, Errors a table that is out of reach.
--
-- Watcher/RunnerControl models six actions of `createRunnerControlHandler` of
-- nautilus/verifiers/earthquake/watcher/src/runner_workflow.ts over the repository in memory, with
-- `parseTeeResult` after `JSON.parse`. The clock, the replies of AWS and the parsed text of an object
-- are parameters; the requests of a capacity are kept in a list.
-- Watcher/Registration is a further action, the registration of the affected cells: the outcome by the
-- class of the registrar's error, and what is recorded of it. Registrars and the validation of a
-- result are parameters.
--
-- Not modelled: the other actions of the runner workflow, the feeds, the relayer and the other
-- packages, and the contracts and enclave programs in Move and Rust.
pub mod Examples
pub mod Prelude
pub mod ProofCore
pub mod Watcher
