-- ===== src/Watcher/Repository/Workflow.antt =====
-- The operations of `InMemoryStateRepository` that start, follow and stop the runner workflow
-- (nautilus/verifiers/earthquake/watcher/src/state.ts).
use sonari.Prelude.{
  ℕ, ◌+◌, Bool, true, false, ◌&&◌, ◌||◌, Option, none, some, String, ltb, ◌==◌, if◌then◌else◌, any,
}
use text.Mathlib.Text.{◌==◌ as str_eq}
use sonari.Watcher.Types.{
  OffchainStatus, RunnerPhase, EarthquakeEventRow, WorkflowStartInput, RunnerWorkflowLockRow,
  RunnerWorkflowProgressUpdate,
}
use sonari.Watcher.Row.{
  failed_retry_backoff_ms, is_due, is_processing, is_number, is_ready_for_retry_or_deadline,
  is_active_runner_workflow,
}
use sonari.Watcher.Row.Updates.{apply_runner_workflow_progress}
use sonari.Watcher.TeeResult.{get_or}
use sonari.Watcher.Repository.{Repository, get_row, set_row, update_if}

-- The condition under which `markWorkflowStarted` starts a row.
unfoldable pub can_start : EarthquakeEventRow → ℕ → Option ℕ → Bool
can_start row now_ms expected_retry_count =
    is_due row.status
    && is_ready_for_retry_or_deadline row now_ms
    && elim expected_retry_count [ none ↦ true | some count ↦ row.retry_count == count ]

abbrev pub planned_revision : Option ℕ → EarthquakeEventRow → ℕ
planned_revision event_revision row = get_or event_revision (get_or row.planned_event_revision 1)

unfoldable pub started_row : EarthquakeEventRow → String → ℕ → Option ℕ → EarthquakeEventRow
started_row row execution_name now_ms event_revision = record row {
  status = OffchainStatus.processing;
  planned_event_revision = some (planned_revision event_revision row);
  runner_job_id = some execution_name;
  runner_queued_at_ms = none;
  runner_attempt = some (row.retry_count + 1);
  runner_id = none;
  runner_phase = some RunnerPhase.starting_instance;
  runner_started_at_ms = some now_ms;
  runner_stopped_at_ms = none;
  runner_timeout_at_ms = some (now_ms + failed_retry_backoff_ms);
  runner_error_message = none;
  runner_stop_error = none;
  runner_instance_id = none;
  runner_command_id = none;
  runner_result_s3_key = none;
  runner_last_poll_at_ms = none;
  tee_result_json = none;
  error_code = none;
  updated_at_ms = now_ms;
}

unfoldable pub mark_workflow_started :
    Repository → String → String → ℕ → Option ℕ → Option ℕ → Repository × Option WorkflowStartInput
mark_workflow_started repo id execution_name now_ms expected_retry_count event_revision =
    elim (get_row id repo.rows) [
      | none ↦ (repo, none)
      | some row ↦
          if can_start row now_ms expected_retry_count
          then (
            record repo {
              rows = set_row id (started_row row execution_name now_ms event_revision) repo.rows;
            },
            some (record {
              source_event_id = id;
              execution_name = execution_name;
              attempt = row.retry_count + 1;
              event_revision = planned_revision event_revision row;
            }),
          )
          else (repo, none)
    ]

-- `this.runnerWorkflowLock !== undefined && this.runnerWorkflowLock.lock_expires_at_ms > nowMs`
unfoldable pub is_locked : Option RunnerWorkflowLockRow → ℕ → Bool
is_locked none now_ms = false
is_locked (some lock) now_ms = ltb now_ms lock.lock_expires_at_ms

-- What `tryStartRunnerWorkflowExclusively` does with the outcome of `markWorkflowStarted`.
unfoldable pub take_lock :
    String
    → String
    → ℕ
    → Repository × Option WorkflowStartInput
    → Repository × Option WorkflowStartInput
take_lock id execution_name now_ms (repo, none) = (repo, none)
take_lock id execution_name now_ms (repo, some started) = (
  record repo {
    runner_workflow_lock = some (record {
      lock_owner_source_event_id = id;
      runner_job_id = execution_name;
      runner_attempt = started.attempt;
      lock_acquired_at_ms = now_ms;
      lock_expires_at_ms = now_ms + failed_retry_backoff_ms;
    });
  },
  some started,
)

unfoldable pub try_start_runner_workflow_exclusively :
    Repository → String → String → ℕ → Option ℕ → Option ℕ → Repository × Option WorkflowStartInput
try_start_runner_workflow_exclusively repo id execution_name now_ms expected_retry_count
      event_revision =
    if is_locked repo.runner_workflow_lock now_ms
    then (repo, none)
    else take_lock id execution_name now_ms
        (mark_workflow_started repo id execution_name now_ms expected_retry_count event_revision)

unfoldable pub owns_lock : Option RunnerWorkflowLockRow → String → ℕ → Bool
owns_lock none id attempt = false
owns_lock (some lock) id attempt =
    str_eq lock.lock_owner_source_event_id id && lock.runner_attempt == attempt

unfoldable pub release_runner_workflow_lock : Repository → String → ℕ → Repository
release_runner_workflow_lock repo id attempt =
    if owns_lock repo.runner_workflow_lock id attempt
    then record repo { runner_workflow_lock = none }
    else repo

unfoldable pub stopped_row : EarthquakeEventRow → ℕ → EarthquakeEventRow
stopped_row row now_ms = record row {
  runner_stopped_at_ms = some now_ms;
  runner_stop_error = none;
  runner_phase = some RunnerPhase.complete;
  updated_at_ms = now_ms;
}

-- What `markWorkflowStopped` does after the update of the row.
unfoldable pub release_after : String → ℕ → Repository × Bool → Repository × Bool
release_after id attempt (repo, false) = (repo, false)
release_after id attempt (repo, true) = (release_runner_workflow_lock repo id attempt, true)

unfoldable pub mark_workflow_stopped : Repository → String → ℕ → ℕ → Repository × Bool
mark_workflow_stopped repo id attempt now_ms = release_after id attempt (
    update_if repo id (λ row. is_number row.runner_attempt attempt) (λ row. stopped_row row now_ms))

unfoldable pub update_runner_workflow_progress :
    Repository → RunnerWorkflowProgressUpdate → Repository × Bool
update_runner_workflow_progress repo input =
    update_if repo input.source_event_id
      (λ row.
        is_number row.runner_attempt input.attempt
        && (input.allow_non_processing || is_processing row.status))
      (λ row. apply_runner_workflow_progress row input)

unfoldable pub has_active_runner_workflow : Repository → Option ℕ → Bool
has_active_runner_workflow repo stale_before_ms =
    any (λ entry. is_active_runner_workflow entry.1 stale_before_ms) repo.rows
