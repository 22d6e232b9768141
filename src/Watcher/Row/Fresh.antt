-- ===== src/Watcher/Row/Fresh.antt =====
-- `baseRow`, `mergePreservingResult` and `resetTerminalResultForManualRerun` of
-- nautilus/verifiers/earthquake/watcher/src/state.ts.
use sonari.Prelude.{ℕ, ◌+◌, ◌&&◌, Option, none, some, String, if◌then◌else◌, coalesce}
use sonari.Watcher.Types.{OffchainStatus, EarthquakeEventRow}
use sonari.Watcher.Row.{
  finalization_window_ms, is_result_terminal, is_new, is_ignored_small, is_active_runner_workflow,
}

-- The row before the caller's patch.
unfoldable pub base_row : String → ℕ → EarthquakeEventRow
base_row source_event_id now_ms = record {
  source_event_id = source_event_id;
  requested_source_event_id = none;
  event_uid = none;
  planned_event_revision = none;
  status = OffchainStatus.new;
  retry_count = 0;
  next_retry_at_ms = none;
  finalization_deadline_at_ms = now_ms + finalization_window_ms;
  latest_revision = 0;
  last_seen_at_ms = now_ms;
  source_updated_at_ms = none;
  error_code = none;
  relayer_mode = none;
  relayer_status = none;
  relayer_request_json = none;
  relayer_digest = none;
  relayer_object_id = none;
  relayer_error_code = none;
  relayer_error_message = none;
  relayer_updated_at_ms = none;
  relayer_submitted_at_ms = none;
  source_archive_status = none;
  source_archive_error_code = none;
  source_archive_attempt = none;
  source_artifact_s3_keys_json = none;
  walrus_archive_updated_at_ms = none;
  affected_cells_proof_registration_status = none;
  affected_cells_proof_registration_error_code = none;
  affected_cells_proof_registration_attempt = none;
  affected_cells_proof_registration_next_retry_at_ms = none;
  affected_cells_proof_registration_error_message = none;
  affected_cells_proof_registration_updated_at_ms = none;
  floor_census_status = none;
  floor_census_attempt = none;
  floor_census_retry_count = 0;
  floor_census_digest = none;
  floor_census_counts_json = none;
  floor_census_error_message = none;
  floor_census_updated_at_ms = none;
  runner_job_id = none;
  runner_queued_at_ms = none;
  runner_attempt = none;
  runner_id = none;
  runner_started_at_ms = none;
  runner_stopped_at_ms = none;
  runner_timeout_at_ms = none;
  runner_error_message = none;
  runner_stop_error = none;
  runner_phase = none;
  runner_instance_id = none;
  runner_command_id = none;
  runner_result_s3_key = none;
  runner_last_poll_at_ms = none;
  tee_result_json = none;
  payload_bcs_hex = none;
  signature = none;
  public_key = none;
  finalized_at_ms = none;
  created_at_ms = now_ms;
  updated_at_ms = now_ms;
}

unfoldable pub merge_preserving_result :
    Option EarthquakeEventRow → EarthquakeEventRow → ℕ → EarthquakeEventRow
unfolding is_active_runner_workflow
merge_preserving_result none next now_ms = next
merge_preserving_result (some existing) next now_ms = record existing {
  requested_source_event_id =
      coalesce next.requested_source_event_id existing.requested_source_event_id;
  event_uid = next.event_uid;
  status = next.status;
  next_retry_at_ms = next.next_retry_at_ms;
  finalization_deadline_at_ms = next.finalization_deadline_at_ms;
  latest_revision = next.latest_revision;
  last_seen_at_ms = next.last_seen_at_ms;
  source_updated_at_ms =
      if is_result_terminal existing.status
      then existing.source_updated_at_ms
      else next.source_updated_at_ms;
  error_code =
      if is_ignored_small existing.status && is_new next.status
      then none
      else if is_ignored_small next.status
      then next.error_code
      else existing.error_code;
  updated_at_ms =
      if is_active_runner_workflow existing none then existing.updated_at_ms else now_ms;
}

unfoldable pub reset_terminal_result_for_manual_rerun : EarthquakeEventRow → ℕ → EarthquakeEventRow
reset_terminal_result_for_manual_rerun row now_ms = record row {
  status = OffchainStatus.new;
  retry_count = 0;
  next_retry_at_ms = none;
  planned_event_revision = none;
  error_code = none;
  relayer_mode = none;
  relayer_status = none;
  relayer_request_json = none;
  relayer_digest = none;
  relayer_object_id = none;
  relayer_error_code = none;
  relayer_error_message = none;
  relayer_updated_at_ms = none;
  relayer_submitted_at_ms = none;
  source_archive_status = none;
  source_archive_error_code = none;
  source_archive_attempt = none;
  source_artifact_s3_keys_json = none;
  walrus_archive_updated_at_ms = none;
  affected_cells_proof_registration_status = none;
  affected_cells_proof_registration_error_code = none;
  affected_cells_proof_registration_attempt = none;
  affected_cells_proof_registration_next_retry_at_ms = none;
  affected_cells_proof_registration_error_message = none;
  affected_cells_proof_registration_updated_at_ms = none;
  floor_census_status = none;
  floor_census_attempt = none;
  floor_census_retry_count = 0;
  floor_census_digest = none;
  floor_census_counts_json = none;
  floor_census_error_message = none;
  floor_census_updated_at_ms = none;
  runner_job_id = none;
  runner_queued_at_ms = none;
  runner_attempt = none;
  runner_id = none;
  runner_started_at_ms = none;
  runner_stopped_at_ms = none;
  runner_timeout_at_ms = none;
  runner_error_message = none;
  runner_stop_error = none;
  runner_phase = none;
  runner_instance_id = none;
  runner_command_id = none;
  runner_result_s3_key = none;
  runner_last_poll_at_ms = none;
  tee_result_json = none;
  payload_bcs_hex = none;
  signature = none;
  public_key = none;
  finalized_at_ms = none;
  updated_at_ms = now_ms;
}
