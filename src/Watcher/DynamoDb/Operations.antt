-- ===== src/Watcher/DynamoDb/Operations.antt =====
-- The methods of `DynamoDbStateRepository` that start, follow and report on attempts, and those of
-- the job queue (nautilus/verifiers/earthquake/watcher/src/state.ts).
use sonari.Prelude.{
  ℕ, ◌+◌, Bool, true, false, ◌&&◌, ◌||◌, Option, none, some, String, if◌then◌else◌, leb, ◌==◌,
}
use text.Mathlib.Text.{◌==◌ as str_eq}
use sonari.Watcher.Types.{
  OffchainStatus, RunnerPhase, EarthquakeEventRow, WorkflowStartInput, RunnerWorkflowLockRow,
  RunnerWorkflowProgressUpdate,
}
use sonari.Watcher.Row.{is_due, is_processing, is_pending, is_number, failed_retry_backoff_ms}
use sonari.Watcher.Row.Updates.{apply_runner_workflow_progress}
use sonari.Watcher.TeeResult.{get_or}
use sonari.Watcher.Repository.Workflow.{stopped_row}
use sonari.Watcher.DynamoDb.{Client, Command, Session, ◌>>=◌, return, try_transact, try_send, get}

-- `attribute_not_exists(x) OR x = :null_value OR x <= :now_ms`
abbrev pub is_none_or_le : Option ℕ → ℕ → Bool
is_none_or_le none now_ms = true
is_none_or_le (some at) now_ms = leb at now_ms

-- `workflowStartConditionExpression`
unfoldable pub workflow_start_condition : ℕ → ℕ → EarthquakeEventRow → Bool
workflow_start_condition expected_retry_count now_ms row =
    row.retry_count == expected_retry_count
    && is_due row.status
    && (is_none_or_le row.next_retry_at_ms now_ms
        || (is_pending row.status && leb row.finalization_deadline_at_ms now_ms))

-- `workflowStartUpdateExpression` with its values.
unfoldable pub workflow_start_update :
    String → ℕ → Option ℕ → ℕ → EarthquakeEventRow → EarthquakeEventRow
workflow_start_update execution_name attempt event_revision now_ms row = record row {
  status = OffchainStatus.processing;
  runner_job_id = some execution_name;
  planned_event_revision = some (get_or event_revision 1);
  runner_queued_at_ms = none;
  runner_attempt = some attempt;
  runner_id = none;
  runner_phase = some RunnerPhase.starting_instance;
  runner_started_at_ms = some now_ms;
  runner_stopped_at_ms = none;
  runner_timeout_at_ms = some (now_ms + failed_retry_backoff_ms);
  runner_error_message = none;
  runner_stop_error = none;
  runner_instance_id = none;
  runner_command_id = none;
  runner_result_s3_key = none;
  runner_last_poll_at_ms = none;
  tee_result_json = none;
  error_code = none;
  updated_at_ms = now_ms;
}

-- `attribute_not_exists(#source_event_id) OR #lock_expires_at_ms <= :now_ms`
unfoldable pub lock_is_free : ℕ → Option RunnerWorkflowLockRow → Bool
lock_is_free now_ms none = true
lock_is_free now_ms (some lock) = leb lock.lock_expires_at_ms now_ms

unfoldable pub lock_item : String → String → ℕ → ℕ → RunnerWorkflowLockRow
lock_item id execution_name attempt now_ms = record {
  lock_owner_source_event_id = id;
  runner_job_id = execution_name;
  runner_attempt = attempt;
  lock_acquired_at_ms = now_ms;
  lock_expires_at_ms = now_ms + failed_retry_backoff_ms;
}

unfoldable pub started_input : String → String → ℕ → Option ℕ → WorkflowStartInput
started_input id execution_name attempt event_revision = record {
  source_event_id = id;
  execution_name = execution_name;
  attempt = attempt;
  event_revision = get_or event_revision 1;
}

module _ (client : Client) where
  -- `expectedRetryCount ?? (await this.get(sourceEventId))?.retry_count`
  unfoldable pub retry_count_of : String → Option ℕ → Session (Option ℕ)
  retry_count_of id (some count) = return (some count)
  retry_count_of id none = do
    stored ← get client id
    return (elim stored [ none ↦ none | some row ↦ some row.retry_count ])

  unfoldable pub start_with :
      String → String → ℕ → Option ℕ → Option ℕ → Session (Option WorkflowStartInput)
  start_with id execution_name now_ms event_revision none = return none
  start_with id execution_name now_ms event_revision (some retry_count) = do
    started ← try_send client (
        Command.update id (workflow_start_condition retry_count now_ms)
          (workflow_start_update execution_name (retry_count + 1) event_revision now_ms))
    return (
        if started
        then some (started_input id execution_name (retry_count + 1) event_revision)
        else none)

  unfoldable pub mark_workflow_started :
      String → String → ℕ → Option ℕ → Option ℕ → Session (Option WorkflowStartInput)
  mark_workflow_started id execution_name now_ms expected_retry_count event_revision = do
    retry_count ← retry_count_of id expected_retry_count
    start_with id execution_name now_ms event_revision retry_count

  unfoldable pub transact_start :
      String → String → ℕ → Option ℕ → Option ℕ → Session (Option WorkflowStartInput)
  transact_start id execution_name now_ms event_revision none = return none
  transact_start id execution_name now_ms event_revision (some retry_count) = do
    started ← try_transact client (
        Command.transact_start id (workflow_start_condition retry_count now_ms)
          (workflow_start_update execution_name (retry_count + 1) event_revision now_ms)
          (lock_is_free now_ms) (lock_item id execution_name (retry_count + 1) now_ms))
    return (
        if started
        then some (started_input id execution_name (retry_count + 1) event_revision)
        else none)

  unfoldable pub try_start_runner_workflow_exclusively :
      String → String → ℕ → Option ℕ → Option ℕ → Session (Option WorkflowStartInput)
  try_start_runner_workflow_exclusively id execution_name now_ms expected_retry_count
        event_revision =
      do
        retry_count ← retry_count_of id expected_retry_count
        transact_start id execution_name now_ms event_revision retry_count

  -- `#lock_owner_source_event_id = :source_event_id AND #runner_attempt = :runner_attempt`
  unfoldable pub release_runner_workflow_lock : String → ℕ → Session Bool
  release_runner_workflow_lock id attempt = try_send client (
      Command.delete_lock
        (λ lock. str_eq lock.lock_owner_source_event_id id && lock.runner_attempt == attempt))

  unfoldable pub release_after : String → ℕ → Bool → Session Bool
  release_after id attempt false = return false
  release_after id attempt true = do released ← release_runner_workflow_lock id attempt; return true

  unfoldable pub mark_workflow_stopped : String → ℕ → ℕ → Session Bool
  mark_workflow_stopped id attempt now_ms = do
    stopped ← try_send client (
        Command.update id (λ row. is_number row.runner_attempt attempt)
          (λ row. stopped_row row now_ms))
    release_after id attempt stopped

  unfoldable pub update_runner_workflow_progress : RunnerWorkflowProgressUpdate → Session Bool
  update_runner_workflow_progress input = try_send client (
      Command.update input.source_event_id
        (λ row.
          if input.allow_non_processing
          then is_number row.runner_attempt input.attempt
          else is_processing row.status && is_number row.runner_attempt input.attempt)
        (λ row. apply_runner_workflow_progress row input))
