-- ===== src/Watcher/DynamoDb/Upserts.antt =====
-- `upsertCandidate` and `upsertManualEvent` of `DynamoDbStateRepository`
-- (nautilus/verifiers/earthquake/watcher/src/state.ts). A method that returns nothing tells here
-- whether its last command has written.
use sonari.Prelude.{
  ℕ, ◌+◌, Bool, true, false, ◌&&◌, ◌||◌, not, Option, none, some, String, if◌then◌else◌, ok,
}
use sonari.Watcher.Types.{
  OffchainStatus, OracleErrorCode, EarthquakeEventRow, UsgsEarthquakeCandidate,
}
use sonari.Watcher.Row.{
  finalization_window_ms, is_due, is_result_terminal, is_processing, is_new, is_ignored_small,
  is_none, is_ending_phase, screen_usgs_candidate,
}
use sonari.Watcher.Row.Fresh.{base_row, reset_terminal_result_for_manual_rerun}
use sonari.Watcher.Repository.{manual_candidate}
use sonari.Watcher.DynamoDb.{Client, Command, Session, ◌>>=◌, return, try_send, modify}

-- `try { first } catch (error) { if (!isConditionalCheckFailed(error)) throw error; fallback }`
unfoldable pub or_else : Session Bool → Session Bool → Session Bool
or_else first fallback = first >>= λ written. if written then return true else fallback

-- The condition of `updateScreenableCandidate`.
unfoldable pub screenable_condition : OffchainStatus → Option EarthquakeEventRow → Bool
screenable_condition screening none = true
screenable_condition screening (some row) =
    if is_ignored_small screening
    then is_ignored_small row.status
    else is_new row.status || is_ignored_small row.status

-- `#runner_phase IN (:complete_phase, :stopping_instance_phase) AND #runner_stopped_at_ms = :null_value`
abbrev pub is_stop_pending : EarthquakeEventRow → Bool
is_stop_pending row = is_ending_phase row.runner_phase && is_none row.runner_stopped_at_ms

unfoldable pub non_terminal_condition : EarthquakeEventRow → Bool
non_terminal_condition row =
    not (is_processing row.status || is_result_terminal row.status) && not (is_stop_pending row)

unfoldable pub terminal_condition : EarthquakeEventRow → Bool
terminal_condition row = is_result_terminal row.status && not (is_stop_pending row)

unfoldable pub non_terminal_update :
    UsgsEarthquakeCandidate → ℕ → EarthquakeEventRow → EarthquakeEventRow
non_terminal_update candidate now_ms row = record row {
  last_seen_at_ms = now_ms;
  source_updated_at_ms = some candidate.source_updated_at_ms;
  updated_at_ms = now_ms;
}

unfoldable pub terminal_update : ℕ → EarthquakeEventRow → EarthquakeEventRow
terminal_update now_ms row = record row { last_seen_at_ms = now_ms; updated_at_ms = now_ms }

unfoldable pub active_update : UsgsEarthquakeCandidate → ℕ → EarthquakeEventRow → EarthquakeEventRow
active_update candidate now_ms row = record row {
  last_seen_at_ms = now_ms;
  source_updated_at_ms = some candidate.source_updated_at_ms;
}

unfoldable pub rerun_update : ℕ → EarthquakeEventRow → EarthquakeEventRow
rerun_update now_ms row = record row { next_retry_at_ms = none; updated_at_ms = now_ms }

module _ (candidate_event_uid : UsgsEarthquakeCandidate → String) where
  -- The row of `updateScreenableCandidate`.
  unfoldable pub screened_row : UsgsEarthquakeCandidate → OffchainStatus → ℕ → EarthquakeEventRow
  screened_row candidate screening now_ms = record (base_row candidate.source_event_id now_ms) {
    requested_source_event_id = candidate.requested_source_event_id;
    event_uid = some (candidate_event_uid candidate);
    status = screening;
    retry_count = 0;
    next_retry_at_ms = none;
    finalization_deadline_at_ms = candidate.occurred_at_ms + finalization_window_ms;
    latest_revision = 0;
    last_seen_at_ms = now_ms;
    source_updated_at_ms = some candidate.source_updated_at_ms;
    error_code =
        if is_ignored_small screening
        then some OracleErrorCode.watcher_below_auto_threshold
        else none;
    created_at_ms = now_ms;
  }

module _ (client : Client) where
  unfoldable pub update_non_terminal_watcher_metadata_fields :
      UsgsEarthquakeCandidate → ℕ → Session Bool
  update_non_terminal_watcher_metadata_fields candidate now_ms = try_send client (
      Command.update candidate.source_event_id non_terminal_condition
        (non_terminal_update candidate now_ms))

  unfoldable pub update_terminal_watcher_metadata_fields :
      UsgsEarthquakeCandidate → ℕ → Session Bool
  update_terminal_watcher_metadata_fields candidate now_ms =
      try_send client
        (Command.update candidate.source_event_id terminal_condition (terminal_update now_ms))

  unfoldable pub update_active_watcher_metadata_fields : UsgsEarthquakeCandidate → ℕ → Session Bool
  update_active_watcher_metadata_fields candidate now_ms = try_send client (
      Command.update candidate.source_event_id (λ row. is_processing row.status)
        (active_update candidate now_ms))

  unfoldable pub update_watcher_metadata : UsgsEarthquakeCandidate → ℕ → Session Bool
  update_watcher_metadata candidate now_ms =
      or_else (update_non_terminal_watcher_metadata_fields candidate now_ms) (
        or_else (update_terminal_watcher_metadata_fields candidate now_ms)
          (update_active_watcher_metadata_fields candidate now_ms))

  unfoldable pub clear_manual_retry_backoff : String → ℕ → Session Bool
  clear_manual_retry_backoff id now_ms =
      try_send client (Command.update id (λ row. is_due row.status) (rerun_update now_ms))

  unfoldable pub reset_manual_terminal_result : String → ℕ → Session Bool
  reset_manual_terminal_result id now_ms =
      modify client id (λ row. is_result_terminal row.status)
        (λ row. ok (reset_terminal_result_for_manual_rerun row now_ms)) none false

  module _ (candidate_event_uid : UsgsEarthquakeCandidate → String) where
    unfoldable pub update_screenable_candidate :
        UsgsEarthquakeCandidate → ℕ → OffchainStatus → Session Bool
    update_screenable_candidate candidate now_ms screening = try_send client (
        Command.overwrite (screenable_condition screening)
          (screened_row candidate_event_uid candidate screening now_ms))

    unfoldable pub upsert_candidate : UsgsEarthquakeCandidate → ℕ → Bool → Session Bool
    upsert_candidate candidate now_ms bypass_screening =
        let screening : OffchainStatus =
          if bypass_screening then OffchainStatus.new else screen_usgs_candidate candidate in
        or_else (update_screenable_candidate candidate now_ms screening)
          (update_watcher_metadata candidate now_ms)

    unfoldable pub upsert_manual_event : String → ℕ → Option String → Session Bool
    upsert_manual_event id now_ms requested_source_event_id = do
      upserted ←
          upsert_candidate
            (manual_candidate candidate_event_uid id requested_source_event_id now_ms) now_ms true
      cleared ← clear_manual_retry_backoff id now_ms
      reset_manual_terminal_result id now_ms
