-- ===== src/Watcher/DynamoDb/Reports.antt =====
-- The methods of `DynamoDbStateRepository` that report on attempts, and those of the job queue
-- (nautilus/verifiers/earthquake/watcher/src/state.ts): each reads the row, changes it, and puts it
-- back.
use sonari.Prelude.{
  ℕ, ◌+◌, Bool, true, false, ◌&&◌, not, Option, none, some, String, ok, if◌then◌else◌, ◌==◌,
  coalesce,
}
use text.Mathlib.Text.{◌==◌ as str_eq}
use sonari.Watcher.Types.{
  OffchainStatus, OracleErrorCode, RelayerMode, RelayerErrorCode, EarthquakeEventRow,
  RunnerQueueJob, SourceArchiveStateUpdate, AffectedCellsProofRegistrationStateUpdate,
  FloorCensusStateUpdate, RelayerSuccess, FloorCensusStatus,
}
use sonari.Watcher.Row.{
  is_due, is_queued, is_new, is_number, is_archive_success, is_registration_retryable,
}
use sonari.Watcher.Row.Updates.{
  apply_source_archive_result_to_row, apply_affected_cells_proof_registration_result_to_row,
  apply_floor_census_result_to_row,
}
use sonari.Watcher.TeeResult.{TeeCoreResult, FinalizedResult, apply_result_to_row}
use sonari.Watcher.Repository.{is_expected_attempt, is_expected_processing}
use sonari.Watcher.Repository.Workflow.{planned_revision}
use sonari.Watcher.Repository.Outcomes.{
  failed_row, relayed_row, relayer_failed_row, is_census_succeeded, can_claim_registration,
  registration_claimed_row, claimed,
}
use sonari.Watcher.Repository.Queue.{is_job, queued_row}
use sonari.Watcher.DynamoDb.{
  Client, Command, Session, ◌>>=◌, return, try_send, get, modify, put_row,
}

module _ (client : Client) where
  unfoldable pub mark_failed :
      String → OracleErrorCode → ℕ → ℕ → Option String → Option ℕ → Session Bool
  mark_failed id error_code now_ms next_retry_at_ms runner_error_message expected_attempt =
      modify client id (is_expected_processing expected_attempt)
        (λ row. ok (failed_row row error_code now_ms next_retry_at_ms runner_error_message))
        expected_attempt false

  module _ (stringify : TeeCoreResult → String)
      (validate_relayer_submit_input : FinalizedResult → Option String) where
    unfoldable pub apply_runner_result :
        String → TeeCoreResult → ℕ → Option ℕ → Option ℕ → Session Bool
    apply_runner_result id result now_ms pending_next_retry_at_ms expected_attempt =
        modify client id (is_expected_processing expected_attempt)
          (λ row.
            apply_result_to_row stringify validate_relayer_submit_input row result now_ms
              pending_next_retry_at_ms)
          expected_attempt false

  unfoldable pub mark_relayer_succeeded : String → RelayerSuccess → ℕ → Option ℕ → Session Bool
  mark_relayer_succeeded id success now_ms expected_attempt =
      modify client id (is_expected_attempt expected_attempt)
        (λ row. ok (relayed_row row success now_ms)) expected_attempt true

  unfoldable pub mark_relayer_failed :
      String → RelayerMode → RelayerErrorCode → String → ℕ → Option ℕ → Session Bool
  mark_relayer_failed id mode error_code message now_ms expected_attempt =
      modify client id (is_expected_attempt expected_attempt)
        (λ row. ok (relayer_failed_row row mode error_code message now_ms)) expected_attempt true

  unfoldable pub mark_source_archive_result :
      String → SourceArchiveStateUpdate → ℕ → Option ℕ → Session Bool
  mark_source_archive_result id input now_ms expected_attempt =
      modify client id (is_expected_attempt expected_attempt)
        (λ row. ok (apply_source_archive_result_to_row row input now_ms expected_attempt))
        expected_attempt true

  unfoldable pub mark_affected_cells_proof_registration_result :
      String → AffectedCellsProofRegistrationStateUpdate → ℕ → Option ℕ → Session Bool
  mark_affected_cells_proof_registration_result id input now_ms expected_attempt =
      modify client id (is_expected_attempt expected_attempt)
        (λ row.
          ok (
            apply_affected_cells_proof_registration_result_to_row row input now_ms
              expected_attempt))
        expected_attempt true

  unfoldable pub mark_floor_census_processing : String → ℕ → Option ℕ → Session Bool
  mark_floor_census_processing id now_ms expected_attempt =
      modify client id
        (λ row.
          not (is_census_succeeded row.floor_census_status)
          && is_expected_attempt expected_attempt row)
        (λ row. ok (record row {
          floor_census_status = some FloorCensusStatus.processing;
          floor_census_attempt = coalesce expected_attempt row.runner_attempt;
          floor_census_updated_at_ms = some now_ms;
          updated_at_ms = now_ms;
        }))
        expected_attempt true

  unfoldable pub mark_floor_census_result :
      String → FloorCensusStateUpdate → ℕ → Option ℕ → Session Bool
  mark_floor_census_result id input now_ms expected_attempt =
      modify client id (is_expected_attempt expected_attempt)
        (λ row. ok (apply_floor_census_result_to_row row input now_ms expected_attempt))
        expected_attempt true

  -- The conditions and the update of `claimAffectedCellsProofRegistrationRetry`, for the row read.
  unfoldable pub claim_condition : EarthquakeEventRow → ℕ → EarthquakeEventRow → Bool
  claim_condition read expected_next_retry_at_ms row =
      is_registration_retryable row.affected_cells_proof_registration_status
      && is_number row.affected_cells_proof_registration_next_retry_at_ms expected_next_retry_at_ms
      && is_archive_success row.source_archive_status
      && elim read.runner_attempt [
        | none ↦ false
        | some attempt ↦ is_number row.runner_attempt attempt
      ]
      && elim read.runner_result_s3_key [
        | none ↦ false
        | some key ↦ elim row.runner_result_s3_key [
          | none ↦ false
          | some stored ↦ str_eq stored key
        ]
      ]

  unfoldable pub claim_row :
      String → ℕ → ℕ → Option EarthquakeEventRow → Session (Option (ℕ × String))
  claim_row id expected_next_retry_at_ms now_ms none = return none
  claim_row id expected_next_retry_at_ms now_ms (some row) =
      if can_claim_registration row expected_next_retry_at_ms now_ms
      then (try_send client (
            Command.update id (claim_condition row expected_next_retry_at_ms)
              (λ stored. registration_claimed_row stored now_ms))
          >>= λ updated. return (if updated then claimed row else none))
      else return none

  unfoldable pub claim_affected_cells_proof_registration_retry :
      String → ℕ → ℕ → Session (Option (ℕ × String))
  claim_affected_cells_proof_registration_retry id expected_next_retry_at_ms now_ms = do
    stored ← get client id
    claim_row id expected_next_retry_at_ms now_ms stored

  unfoldable pub enqueue_row :
      String
      → ℕ
      → String
      → ℕ
      → Option ℕ
      → Option EarthquakeEventRow
      → Session (Option RunnerQueueJob)
  enqueue_row id attempt runner_job_id now_ms event_revision none = return none
  enqueue_row id attempt runner_job_id now_ms event_revision (some row) =
      if is_due row.status && row.retry_count + 1 == attempt
      then (put_row client (queued_row row attempt runner_job_id now_ms event_revision) none false
          >>= λ _. return (
              some (record {
                runner_job_id = runner_job_id;
                source_event_id = id;
                attempt = attempt;
                event_revision = planned_revision event_revision row;
                enqueued_at_ms = now_ms;
              })))
      else return none

  unfoldable pub enqueue_runner_job :
      String → ℕ → String → ℕ → Option ℕ → Session (Option RunnerQueueJob)
  enqueue_runner_job id attempt runner_job_id now_ms event_revision = do
    stored ← get client id
    enqueue_row id attempt runner_job_id now_ms event_revision stored

  unfoldable pub mark_queue_enqueue_failed : String → String → ℕ → ℕ → String → Session Bool
  mark_queue_enqueue_failed id runner_job_id now_ms next_retry_at_ms message =
      modify client id (λ row. is_job row runner_job_id)
        (λ row. ok (record row {
          status = OffchainStatus.new;
          next_retry_at_ms = some next_retry_at_ms;
          runner_error_message = some message;
          updated_at_ms = now_ms;
        }))
        none false

  -- What a claim of a job does with the row that it has read: the answer of the put is not looked at.
  unfoldable pub claim_queued_row :
      RunnerQueueJob → ℕ → ℕ → Option EarthquakeEventRow → Session Bool
  claim_queued_row job now_ms timeout_at_ms none = return false
  claim_queued_row job now_ms timeout_at_ms (some row) =
      if is_queued row.status
        && is_job row job.runner_job_id
        && is_number row.runner_attempt job.attempt
      then (put_row client
            (record row {
              status = OffchainStatus.processing;
              runner_timeout_at_ms = some timeout_at_ms;
              updated_at_ms = now_ms;
            })
            none false
          >>= λ _. return true)
      else return false

  unfoldable pub claim_queued_for_processing : RunnerQueueJob → ℕ → ℕ → Session Bool
  claim_queued_for_processing job now_ms timeout_at_ms = do
    stored ← get client job.source_event_id
    claim_queued_row job now_ms timeout_at_ms stored

  unfoldable pub record_runner_started : String → String → String → ℕ → ℕ → Session Bool
  record_runner_started id runner_job_id runner_id now_ms timeout_at_ms =
      modify client id (λ row. is_job row runner_job_id)
        (λ row. ok (record row {
          runner_id = some runner_id;
          runner_started_at_ms = some now_ms;
          runner_timeout_at_ms = some timeout_at_ms;
          updated_at_ms = now_ms;
        }))
        none false

  unfoldable pub record_runner_stopped : String → String → ℕ → Session Bool
  record_runner_stopped id runner_job_id now_ms =
      modify client id (λ row. is_job row runner_job_id)
        (λ row. ok (record row {
          runner_stopped_at_ms = some now_ms;
          runner_stop_error = none;
          updated_at_ms = now_ms;
        }))
        none false

  unfoldable pub record_runner_stop_failed : String → String → String → ℕ → Session Bool
  record_runner_stop_failed id runner_job_id message now_ms =
      modify client id (λ row. is_job row runner_job_id)
        (λ row. ok (record row { runner_stop_error = some message; updated_at_ms = now_ms })) none
        false

  unfoldable pub mark_rejected : String → OracleErrorCode → ℕ → Session Bool
  mark_rejected id error_code now_ms =
      modify client id (λ _. true)
        (λ row. ok (record row {
          status = OffchainStatus.rejected;
          error_code = some error_code;
          next_retry_at_ms = none;
          updated_at_ms = now_ms;
        }))
        none false

  -- Only a new row is deferred.
  unfoldable pub defer_until : String → ℕ → ℕ → Session Bool
  defer_until id next_retry_at_ms now_ms = try_send client (
      Command.update id (λ row. is_new row.status)
        (λ row. record row { next_retry_at_ms = some next_retry_at_ms; updated_at_ms = now_ms }))
