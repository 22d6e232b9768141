-- ===== src/Watcher/DynamoDb/Errors.antt =====
-- `DynamoDbStateRepository` of nautilus/verifiers/earthquake/watcher/src/state.ts where a command
-- throws an error that is no failed check and no canceled transaction.
use sonari.Prelude.{
  ℕ, ◌≡◌, refl, ◌∙◌, ap, Bool, true, false, Option, none, some, String, Result, ok, throw, ◌+◌,
  if◌then◌else◌,
}
use sonari.Watcher.Types.{
  OffchainStatus, OracleErrorCode, EarthquakeEventRow, UsgsEarthquakeCandidate,
  RunnerWorkflowProgressUpdate,
}
use sonari.Watcher.Row.{is_number, screen_usgs_candidate}
use sonari.Watcher.Repository.{Repository, manual_candidate, is_expected_processing}
use sonari.Watcher.Repository.Workflow.{stopped_row}
use sonari.Watcher.DynamoDb.{
  Client, Command, Reply, Session, ◌>>=◌, return, get, modify, modify_row, put_row, put_condition,
  try_send, try_transact, caught, caught_transaction,
}
use sonari.Watcher.DynamoDb.Documented.{>>=-answered}
use sonari.Watcher.DynamoDb.Operations
use sonari.Watcher.DynamoDb.Reports
use sonari.Watcher.DynamoDb.Upserts
use sonari.Watcher.DynamoDb.Upserts.{or_else, screenable_condition, screened_row}
use sonari.Watcher.DynamoDb.Recovery
use sonari.Watcher.DynamoDb.Recovery.{is_stale_processing}

module _ (client : Client) (message : String) (repo repo' : Repository)
    (down : (command : Command)
      → client.send command repo ≡ (Reply.other_error message, repo')) where
  abbrev IsThrown {ℓ} : {A : Type ℓ} → Session A → Type ℓ
  IsThrown session = session repo ≡ (repo', throw message)

  try_send-IsThrown : (command : Command) → IsThrown (try_send client command)
  unfolding try_send caught
  try_send-IsThrown command = rw (down command) refl

  try_transact-IsThrown : (command : Command) → IsThrown (try_transact client command)
  unfolding try_transact caught_transaction caught
  try_transact-IsThrown command = rw (down command) refl

  modify-IsThrown :
      (id : String) (guard : EarthquakeEventRow → Bool)
      (change : EarthquakeEventRow → Result EarthquakeEventRow) (expected : Option ℕ) (allow : Bool)
      (read row : EarthquakeEventRow)
      → client.get_item repo id ≡ ok (some read)
      → guard read ≡ true
      → change read ≡ ok row
      → IsThrown (modify client id guard change expected allow)
  unfolding modify modify_row get put_row
  modify-IsThrown id guard change expected allow read row got passes changed =
      >>=-answered (get client id) (modify_row client guard change expected allow) repo
        (ap (λ result. (repo, result)) got)
      ∙ rw passes (rw changed (try_send-IsThrown (Command.put (put_condition expected allow) row)))

  -- A part that threw ends the whole.
  >>=-IsThrown {ℓ κ} :
      {A : Type ℓ} {B : Type κ} (session : Session A) (next : A → Session B)
      → IsThrown session
      → IsThrown (session >>= next)
  >>=-IsThrown session next e =
      ap
        (λ outcome. elim outcome.1 [
          | ok value ↦ next value outcome.0
          | throw message ↦ (outcome.0, throw message)
        ])
        e

  or_else-IsThrown :
      (first fallback : Session Bool) → IsThrown first → IsThrown (or_else first fallback)
  unfolding or_else
  or_else-IsThrown first fallback e =
      >>=-IsThrown first (λ written. if written then return true else fallback) e

  start_with-IsThrown :
      (id name : String) (now count : ℕ) (revision : Option ℕ)
      → IsThrown (Operations.start_with client id name now revision (some count))
  unfolding Operations.start_with
  start_with-IsThrown id name now count revision =
      >>=-IsThrown
        (try_send client (
          Command.update id (Operations.workflow_start_condition count now)
            (Operations.workflow_start_update name (count + 1) revision now)))
        (λ started.
          return (
            if started then some (Operations.started_input id name (count + 1) revision) else none))
        (try_send-IsThrown _)

  transact_start-IsThrown :
      (id name : String) (now count : ℕ) (revision : Option ℕ)
      → IsThrown (Operations.transact_start client id name now revision (some count))
  unfolding Operations.transact_start
  transact_start-IsThrown id name now count revision =
      >>=-IsThrown
        (try_transact client (
          Command.transact_start id (Operations.workflow_start_condition count now)
            (Operations.workflow_start_update name (count + 1) revision now)
            (Operations.lock_is_free now) (Operations.lock_item id name (count + 1) now)))
        (λ started.
          return (
            if started then some (Operations.started_input id name (count + 1) revision) else none))
        (try_transact-IsThrown _)

  upsert_candidate-IsThrown :
      (uid : UsgsEarthquakeCandidate → String) (c : UsgsEarthquakeCandidate) (now : ℕ)
      (bypass : Bool)
      → IsThrown (Upserts.upsert_candidate client uid c now bypass)
  unfolding Upserts.upsert_candidate Upserts.update_screenable_candidate
  upsert_candidate-IsThrown uid c now bypass =
      let screening : OffchainStatus =
        if bypass then OffchainStatus.new else screen_usgs_candidate c in
      or_else-IsThrown (Upserts.update_screenable_candidate client uid c now screening)
        (Upserts.update_watcher_metadata client c now)
        (try_send-IsThrown
          (Command.overwrite (screenable_condition screening) (screened_row uid c screening now)))

  -- Where every command throws another error, no method that has sent one takes it for an answer: a
  -- start with a given retry count, plain or exclusive, a stop, a progress report, a deferral, a
  -- release of the lock, an upsert, a manual request and a recovery of a stale row throw that error,
  -- and so does a report of a failure whose read row passes its test.
  pub errors_surface :
      (uid : UsgsEarthquakeCandidate → String) (c : UsgsEarthquakeCandidate) (id name : String)
      (now count attempt stale next : ℕ) (revision expected : Option ℕ) (row : EarthquakeEventRow)
      (input : RunnerWorkflowProgressUpdate) (bypass : Bool) (requested : Option String)
      (code : OracleErrorCode) (error : Option String)
      → client.get_item repo id ≡ ok (some row)
      → is_expected_processing expected row ≡ true
      → IsThrown (Operations.mark_workflow_started client id name now (some count) revision)
        × IsThrown (
            Operations.try_start_runner_workflow_exclusively client id name now
              (some count)
              revision)
        × IsThrown (Operations.mark_workflow_stopped client id attempt now)
        × IsThrown (Operations.update_runner_workflow_progress client input)
        × IsThrown (Reports.defer_until client id next now)
        × IsThrown (Operations.release_runner_workflow_lock client id attempt)
        × IsThrown (Upserts.upsert_candidate client uid c now bypass)
        × IsThrown (Upserts.upsert_manual_event client uid id now requested)
        × IsThrown (Recovery.recover_stale_processing_row client row stale now next)
        × IsThrown (Reports.mark_failed client id code now next error expected)
  unfolding Operations.mark_workflow_started Operations.retry_count_of
      Operations.try_start_runner_workflow_exclusively Operations.mark_workflow_stopped
      Operations.update_runner_workflow_progress Reports.defer_until
      Operations.release_runner_workflow_lock Upserts.upsert_manual_event
      Recovery.recover_stale_processing_row Reports.mark_failed
  errors_surface uid c id name now count attempt stale next revision expected row input bypass
        requested code error got passes =
      (
        start_with-IsThrown id name now count revision,
        transact_start-IsThrown id name now count revision,
        >>=-IsThrown
            (try_send client (
              Command.update id (λ r. is_number r.runner_attempt attempt) (λ r. stopped_row r now)))
            (Operations.release_after client id attempt) (try_send-IsThrown _),
        try_send-IsThrown _,
        try_send-IsThrown _,
        try_send-IsThrown _,
        upsert_candidate-IsThrown uid c now bypass,
        >>=-IsThrown
            (Upserts.upsert_candidate client uid (manual_candidate uid id requested now) now true)
            (λ upserted. Upserts.clear_manual_retry_backoff client id now >>= λ cleared.
              Upserts.reset_manual_terminal_result client id now)
            (upsert_candidate-IsThrown uid _ now true),
        try_send-IsThrown _,
        modify-IsThrown id _ _ expected false row _ got passes refl,
      )
