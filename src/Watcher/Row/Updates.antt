-- ===== src/Watcher/Row/Updates.antt =====
-- What a report of the archive, the registration, the census or the runner does to a row
-- (nautilus/verifiers/earthquake/watcher/src/state.ts).
use sonari.Prelude.{ℕ, ◌+◌, Bool, true, false, Option, none, some, if◌then◌else◌, coalesce}
use sonari.Watcher.Types.{
  OffchainStatus, OracleErrorCode, SourceArchiveStatus, AffectedCellsProofRegistrationStatus,
  FloorCensusStatus, EarthquakeEventRow, RunnerWorkflowProgressUpdate, SourceArchiveStateUpdate,
  AffectedCellsProofRegistrationStateUpdate, FloorCensusStateUpdate,
}
use sonari.Watcher.Row.{failed_retry_backoff_ms}

-- The three tests of `applySourceArchiveResultToRow` on the input's status.
unfoldable pub archive_status_effect :
    SourceArchiveStatus → EarthquakeEventRow → SourceArchiveStateUpdate → ℕ → EarthquakeEventRow
archive_status_effect SourceArchiveStatus.retryable_failed row input now_ms = record row {
  status = OffchainStatus.failed;
  retry_count = row.retry_count + 1;
  error_code = some OracleErrorCode.source_archive_retryable_failed;
  runner_error_message = input.message;
  next_retry_at_ms =
      coalesce input.retryable_next_retry_at_ms (some (now_ms + failed_retry_backoff_ms));
}
archive_status_effect SourceArchiveStatus.configuration_failed row input now_ms = record row {
  status = OffchainStatus.rejected;
  error_code = some OracleErrorCode.source_archive_configuration_failed;
  runner_error_message = input.message;
  next_retry_at_ms = none;
}
archive_status_effect SourceArchiveStatus.integrity_failed row input now_ms = record row {
  status = OffchainStatus.rejected;
  error_code = some OracleErrorCode.source_archive_integrity_failed;
  runner_error_message = input.message;
  next_retry_at_ms = none;
}
archive_status_effect _ row input now_ms = row

unfoldable pub apply_source_archive_result_to_row :
    EarthquakeEventRow → SourceArchiveStateUpdate → ℕ → Option ℕ → EarthquakeEventRow
unfolding archive_status_effect
apply_source_archive_result_to_row row input now_ms expected_attempt =
    let archived : EarthquakeEventRow = record row {
      source_archive_status = some input.status;
      source_archive_error_code = input.error_code;
      source_archive_attempt = coalesce expected_attempt row.runner_attempt;
      source_artifact_s3_keys_json = some input.artifact_s3_keys_json;
      walrus_archive_updated_at_ms = some now_ms;
      updated_at_ms = now_ms;
    } in
    archive_status_effect input.status archived input now_ms

abbrev pub retry_time_of : AffectedCellsProofRegistrationStatus → Option ℕ → ℕ → Option ℕ
retry_time_of AffectedCellsProofRegistrationStatus.retryable_failed next_retry_at_ms now_ms =
    coalesce next_retry_at_ms (some (now_ms + failed_retry_backoff_ms))
retry_time_of _ next_retry_at_ms now_ms = none

unfoldable pub apply_affected_cells_proof_registration_result_to_row :
    EarthquakeEventRow
    → AffectedCellsProofRegistrationStateUpdate
    → ℕ
    → Option ℕ
    → EarthquakeEventRow
apply_affected_cells_proof_registration_result_to_row row input now_ms expected_attempt =
    record row {
      affected_cells_proof_registration_status = some input.status;
      affected_cells_proof_registration_error_code = input.error_code;
      affected_cells_proof_registration_attempt = coalesce expected_attempt row.runner_attempt;
      affected_cells_proof_registration_updated_at_ms = some now_ms;
      updated_at_ms = now_ms;
      affected_cells_proof_registration_next_retry_at_ms =
          retry_time_of input.status input.retryable_next_retry_at_ms now_ms;
      affected_cells_proof_registration_error_message = input.message;
    }

abbrev pub is_census_failed : FloorCensusStatus → Bool
is_census_failed FloorCensusStatus.failed = true
is_census_failed _ = false

unfoldable pub apply_floor_census_result_to_row :
    EarthquakeEventRow → FloorCensusStateUpdate → ℕ → Option ℕ → EarthquakeEventRow
apply_floor_census_result_to_row row input now_ms expected_attempt = record row {
  floor_census_status = some input.status;
  floor_census_attempt = coalesce expected_attempt row.runner_attempt;
  floor_census_digest = input.digest;
  floor_census_counts_json = input.counts_json;
  floor_census_error_message = input.message;
  floor_census_updated_at_ms = some now_ms;
  floor_census_retry_count =
      if is_census_failed input.status
      then row.floor_census_retry_count + 1
      else row.floor_census_retry_count;
  updated_at_ms = now_ms;
}

unfoldable pub apply_runner_workflow_progress :
    EarthquakeEventRow → RunnerWorkflowProgressUpdate → EarthquakeEventRow
apply_runner_workflow_progress row input = record row {
  runner_phase = some input.phase;
  updated_at_ms = input.now_ms;
  runner_instance_id = coalesce input.instance_id row.runner_instance_id;
  runner_command_id = coalesce input.command_id row.runner_command_id;
  runner_result_s3_key = coalesce input.result_s3_key row.runner_result_s3_key;
  runner_last_poll_at_ms = coalesce input.last_poll_at_ms row.runner_last_poll_at_ms;
}
