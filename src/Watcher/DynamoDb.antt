-- ===== src/Watcher/DynamoDb.antt =====
-- `DynamoDbStateRepository` of nautilus/verifiers/earthquake/watcher/src/state.ts: the same
-- operations, by commands that are sent to a table. The client is a parameter. A command carries its
-- condition and its update expression as functions of the stored item, and the table is told apart
-- into event rows and the item of the lock, which has a key that is no event's.
pub mod Operations
pub mod Reports
pub mod Upserts
pub mod Recovery
pub mod Documented
pub mod Refinement
pub mod Conditions
pub mod Starting
pub mod Stopping
pub mod Safety
pub mod Sightings
pub mod Manual
pub mod Scans
pub mod Errors
use sonari.Prelude.{
  ℕ, zero, suc, Bool, true, false, ◌&&◌, Option, none, some, String, List, [], ◌∷◌, ◌++◌, Result,
  ok, throw, if◌then◌else◌,
}
use sonari.Watcher.Types.{EarthquakeEventRow, RunnerWorkflowLockRow}
use sonari.Watcher.Row.{is_processing, is_number}
use sonari.Watcher.Repository.{Repository}

-- The commands that write. The condition of an `update` compares attributes with values, so it
-- fails where there is no item; an `overwrite` is the update that sets every attribute of the row.
pub data Command : Type 0 where
  update :
      String → (EarthquakeEventRow → Bool) → (EarthquakeEventRow → EarthquakeEventRow) → Command
  overwrite : (Option EarthquakeEventRow → Bool) → EarthquakeEventRow → Command
  put : (Option EarthquakeEventRow → Bool) → EarthquakeEventRow → Command
  delete_lock : (RunnerWorkflowLockRow → Bool) → Command
  transact_start :
      String
      → (EarthquakeEventRow → Bool)
      → (EarthquakeEventRow → EarthquakeEventRow)
      → (Option RunnerWorkflowLockRow → Bool)
      → RunnerWorkflowLockRow
      → Command

-- How `send` ends: it returns, or it throws one of the two errors that the code knows, or another.
pub data Reply : Type 0 where
  done conditional_check_failed transaction_canceled : Reply
  other_error : String → Reply

-- An item of a scan.
pub data Item : Type 0 where
  event_row : EarthquakeEventRow → Item
  lock_row : RunnerWorkflowLockRow → Item

-- `DynamoDbDocumentClientLike`, one field per kind of command. A page of a scan comes with the key
-- to go on from.
pub record Client : Type 0 where
  pub send : Command → Repository → Reply × Repository
  pub get_item : Repository → String → Result (Option EarthquakeEventRow)
  pub scan_page : Repository → Option String → Result (List Item × Option String)

-- Code that talks to the table: an asynchronous method that returns or throws.
abbrev pub Session {ℓ} : Type ℓ → Type ℓ
Session A = Repository → Repository × Result A

module _ {ℓ κ} {A : Type ℓ} {B : Type κ} where
  infixl 5 ◌>>=◌
  abbrev pub ◌>>=◌ : Session A → (A → Session B) → Session B
  (session >>= next) repo = elim (session repo).1 [
    | ok value ↦ next value (session repo).0
    | throw message ↦ ((session repo).0, throw message)
  ]

abbrev pub return {ℓ} : {A : Type ℓ} → A → Session A
return value repo = (repo, ok value)

abbrev pub lift {ℓ} : {A : Type ℓ} → Result A → Session A
lift result repo = (repo, result)

-- `catch (error) { if (isConditionalCheckFailed(error)) return false; throw error; }`
unfoldable pub caught : Reply → Result Bool
caught Reply.done = ok true
caught Reply.conditional_check_failed = ok false
caught Reply.transaction_canceled = throw "TransactionCanceledException"
caught (Reply.other_error message) = throw message

-- The same, where the code takes a canceled transaction like a failed check.
unfoldable pub caught_transaction : Reply → Result Bool
caught_transaction Reply.transaction_canceled = ok false
caught_transaction reply = caught reply

module _ (client : Client) where
  unfoldable pub try_send : Command → Session Bool
  try_send command repo = let sent = client.send command repo in (sent.1, caught sent.0)

  unfoldable pub try_transact : Command → Session Bool
  try_transact command repo =
      let sent = client.send command repo in (sent.1, caught_transaction sent.0)

  unfoldable pub get : String → Session (Option EarthquakeEventRow)
  get id repo = (repo, client.get_item repo id)

  unfoldable pub event_rows : List Item → List EarthquakeEventRow
  event_rows [] = []
  event_rows (event_row row ∷ items) = row ∷ event_rows items
  event_rows (lock_row lock ∷ items) = event_rows items

  -- The loop of `scanRows` over the pages, on fuel.
  unfoldable pub scan_from :
      ℕ → Repository → Option String → List EarthquakeEventRow → Result (List EarthquakeEventRow)
  scan_from zero repo start rows = throw "out of fuel"
  scan_from (suc fuel) repo start rows = elim (client.scan_page repo start) [
    | throw message ↦ throw message
    | ok (items, last) ↦
        let rest = scan_from fuel repo last (rows ++ event_rows items) in
        elim last [ none ↦ ok (rows ++ event_rows items) | some _ ↦ rest ]
  ]

-- The condition of a `put` of a report on an attempt.
unfoldable pub put_condition : Option ℕ → Bool → Option EarthquakeEventRow → Bool
put_condition none allow_non_processing stored = true
put_condition (some attempt) allow_non_processing none = false
put_condition (some attempt) true (some row) = is_number row.runner_attempt attempt
put_condition (some attempt) false (some row) =
    is_processing row.status && is_number row.runner_attempt attempt

module _ (client : Client) where
  unfoldable pub put_row : EarthquakeEventRow → Option ℕ → Bool → Session Bool
  put_row row expected_attempt allow_non_processing =
      try_send client (Command.put (put_condition expected_attempt allow_non_processing) row)

  -- What a method does with the row that it has read.
  unfoldable pub modify_row :
      (EarthquakeEventRow → Bool)
      → (EarthquakeEventRow → Result EarthquakeEventRow)
      → Option ℕ
      → Bool
      → Option EarthquakeEventRow
      → Session Bool
  modify_row guard change expected_attempt allow_non_processing none = return false
  modify_row guard change expected_attempt allow_non_processing (some row) =
      if guard row
      then (lift (change row) >>= λ changed. put_row changed expected_attempt allow_non_processing)
      else return false

  -- `const row = await this.get(id); if (row === null || !guard(row)) return false;`, then the
  -- assignments, then `return this.put(row, expectedAttempt, allowNonProcessing);`.
  unfoldable pub modify :
      String
      → (EarthquakeEventRow → Bool)
      → (EarthquakeEventRow → Result EarthquakeEventRow)
      → Option ℕ
      → Bool
      → Session Bool
  modify id guard change expected_attempt allow_non_processing = do
    stored ← get client id
    modify_row guard change expected_attempt allow_non_processing stored
