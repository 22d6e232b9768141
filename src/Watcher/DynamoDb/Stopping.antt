-- ===== src/Watcher/DynamoDb/Stopping.antt =====
-- Stops of the runner workflow and reports of its progress: `DynamoDbStateRepository` next to
-- `InMemoryStateRepository` of nautilus/verifiers/earthquake/watcher/src/state.ts.
use text.Mathlib.Text.{◌==◌ as str_eq}
use sonari.Prelude.{
  ℕ, ◌≡◌, inl, inr, refl, ◌∙◌, ap, Bool, true, false, ◌&&◌, ◌||◌, Option, none, some, String, ok,
  arith, Bool-cases, if◌then◌else◌, ◌==◌,
}
use sonari.Watcher.Types.{EarthquakeEventRow, RunnerWorkflowLockRow, RunnerWorkflowProgressUpdate}
use sonari.Watcher.Row.{is_number, is_processing}
use mathlib.Core.Path.{fun_ext}
use sonari.Watcher.Row.Updates.{apply_runner_workflow_progress}
use sonari.Watcher.Repository.{Repository, update_if}
use sonari.Watcher.Repository.Workflow
use sonari.Watcher.Repository.Workflow.{owns_lock, stopped_row}
use sonari.Watcher.DynamoDb.{Client, Command, return, try_send, caught}
use sonari.Watcher.DynamoDb.Operations
use sonari.Watcher.DynamoDb.Documented.{
  IsConditional, answered, lock_holds_of, try_send-update, >>=-answered,
}

-- The condition expressions of a deletion of the lock and of a report of progress.
abbrev owner : String → ℕ → RunnerWorkflowLockRow → Bool
owner id attempt lock = str_eq lock.lock_owner_source_event_id id && lock.runner_attempt == attempt

owner-owns :
    (lock : Option RunnerWorkflowLockRow) (id : String) (attempt : ℕ)
    → lock_holds_of (owner id attempt) lock ≡ owns_lock lock id attempt
unfolding owns_lock
owner-owns none id attempt = refl
owner-owns (some lock) id attempt = refl

progress_condition :
    (input : RunnerWorkflowProgressUpdate) (row : EarthquakeEventRow)
    → (if input.allow_non_processing
        then is_number row.runner_attempt input.attempt
        else is_processing row.status && is_number row.runner_attempt input.attempt)
      ≡ (is_number row.runner_attempt input.attempt
          && (input.allow_non_processing || is_processing row.status))
progress_condition input row = ground arith

module _ (client : Client) (documented : IsConditional client) where
  released :
      (repo : Repository) (id : String) (attempt : ℕ)
      → (answer : Bool) × (Operations.release_runner_workflow_lock client id attempt repo
          ≡ (Workflow.release_runner_workflow_lock repo id attempt, ok answer))
  unfolding Operations.release_runner_workflow_lock Workflow.release_runner_workflow_lock try_send
      caught
  released repo id attempt = elim (Bool-cases (owns_lock repo.runner_workflow_lock id attempt)) [
    | inl owned ↦ (
      true,
      rw owned (
          ap (λ sent. (sent.1, caught sent.0))
            (documented.delete_done repo (owner id attempt)
              (owner-owns repo.runner_workflow_lock id attempt ∙ owned))),
    )
    | inr foreign ↦ (
      false,
      rw foreign (
          ap (λ sent. (sent.1, caught sent.0))
            (documented.delete_refused repo (owner id attempt)
              (owner-owns repo.runner_workflow_lock id attempt ∙ foreign))),
    )
  ]

  stopped_alike :
      (id : String) (attempt : ℕ) (updated : Repository × Bool)
      → Operations.release_after client id attempt updated.1 updated.0
        ≡ answered (Workflow.release_after id attempt updated)
  unfolding Operations.release_after Workflow.release_after
  stopped_alike id attempt (repo, false) = refl
  stopped_alike id attempt (repo, true) =
      >>=-answered (Operations.release_runner_workflow_lock client id attempt) (λ _. return true)
        repo (released repo id attempt).1

  -- A stop and a report of progress by conditional writes do what they do in memory, and answer the
  -- same: the stop frees the lock where the stopped attempt holds it. No read is made.
  pub stop_refines :
      (repo : Repository) (id : String) (attempt now : ℕ) (input : RunnerWorkflowProgressUpdate)
      → (Operations.mark_workflow_stopped client id attempt now repo
          ≡ answered (Workflow.mark_workflow_stopped repo id attempt now))
        × (Operations.update_runner_workflow_progress client input repo
            ≡ answered (Workflow.update_runner_workflow_progress repo input))
  unfolding Operations.mark_workflow_stopped Workflow.mark_workflow_stopped
      Operations.update_runner_workflow_progress Workflow.update_runner_workflow_progress
  stop_refines repo id attempt now input = (
    >>=-answered
          (try_send client (
            Command.update id (λ row. is_number row.runner_attempt attempt)
              (λ row. stopped_row row now)))
          (Operations.release_after client id attempt) repo
          (try_send-update client documented repo id _ _)
        ∙ stopped_alike id attempt (
            update_if repo id (λ row. is_number row.runner_attempt attempt)
              (λ row. stopped_row row now)),
    try_send-update client documented repo input.source_event_id _ _
        ∙ ap
            (λ condition. answered (
              update_if repo input.source_event_id condition
                (λ row. apply_runner_workflow_progress row input)))
            (fun_ext λ row. progress_condition input row),
  )
