-- ===== src/Watcher/RunnerControl/Fencing.antt =====
-- Control events of an attempt against the row of their event
-- (nautilus/verifiers/earthquake/watcher/src/runner_workflow.ts).
use sonari.Prelude.{
  ℕ, ◌+◌, ◌≡◌, ◌≢◌, refl, ap, ◌∙◌, Bool, true, false, ◌&&◌, ◌||◌, Option, none, some, String,
  Result, ok, throw, arith, if◌then◌else◌, require,
}
use sonari.Watcher.Types.{RunnerPhase, EarthquakeEventRow}
use sonari.Watcher.Row.{is_processing, is_number, failed_retry_backoff_ms}
use sonari.Watcher.Row.Updates.{apply_runner_workflow_progress}
use sonari.Watcher.TeeResult.{TeeCoreResult, FinalizedResult, tee_status, apply_result_to_row}
use sonari.Watcher.Repository.{Repository, get_row, is_expected_processing}
use sonari.Watcher.Repository.Workflow
use sonari.Watcher.Repository.Outcomes
use sonari.Watcher.Repository.Cases.{write, apply_runner_result-applies}
use sonari.Watcher.Repository.Store.{update_if-refused, update_if-written, get_row-set_row_self}
use sonari.Watcher.Attempts.Stale.{stale_report}
use sonari.Watcher.RunnerControl
use sonari.Watcher.Registration
use sonari.Watcher.Registration.{Registrar, Environment, ValidatedSubmit}
use sonari.Watcher.RunnerControl.{
  World, Action, ◌>>=◌, return, lift, Options, ControlEvent, Output, progress, require_marked,
  require_current_workflow_attempt, set_runner_desired_capacity, read_tee_result_from_s3,
  is_pending_tee_result, hour_ms,
}

>>=-thrown {ℓ κ} :
    {A : Type ℓ} {B : Type κ} (action : Action A) (next : A → Action B) (world : World)
    {world' : World} {message : String}
    → action world ≡ (world', throw message)
    → (action >>= next) world ≡ (world', throw message)
>>=-thrown action next world e =
    ap
      (λ outcome. elim outcome.1 [
        | ok value ↦ next value outcome.0
        | throw message ↦ (outcome.0, throw message)
      ])
      e

>>=-answered {ℓ κ} :
    {A : Type ℓ} {B : Type κ} (action : Action A) (next : A → Action B) (world : World)
    {world' : World} {value : A}
    → action world ≡ (world', ok value)
    → (action >>= next) world ≡ next value world'
>>=-answered action next world e =
    ap
      (λ outcome. elim outcome.1 [
        | ok value ↦ next value outcome.0
        | throw message ↦ (outcome.0, throw message)
      ])
      e

-- What a call of the repository that answered makes of the world.
abbrev marked_outcome : World → Repository × Bool → World × Result (Unit {0})
marked_outcome world outcome =
    (record world { repository = outcome.0 }, require outcome.1 "stale runner workflow attempt")

require_marked-outcome :
    (mark : Repository → Repository × Bool) (world : World) {outcome : Repository × Bool}
    → mark world.repository ≡ outcome
    → require_marked mark world ≡ marked_outcome world outcome
unfolding require_marked
require_marked-outcome mark world e = ap (marked_outcome world) e

require_applied-outcome :
    (apply : Repository → Result (Repository × Bool)) (world : World) {outcome : Repository × Bool}
    → apply world.repository ≡ ok outcome
    → RunnerControl.require_applied apply world ≡ marked_outcome world outcome
unfolding RunnerControl.require_applied require_marked
require_applied-outcome apply world e =
    ap
      (λ result. elim result [
        | throw message ↦ (world, throw message)
        | ok outcome ↦ marked_outcome world outcome
      ])
      e

refuses :
    (a : ℕ) (row : EarthquakeEventRow) (allow : Bool)
    → row.runner_attempt ≢ some a
    → (is_number row.runner_attempt a && (allow || is_processing row.status)) ≡ false
refuses a row allow other = ground arith

module _ (options : Options) (event : ControlEvent) (a : ℕ) (world : World)
    (row : EarthquakeEventRow) (of_attempt : event.attempt ≡ some a)
    (found : get_row event.source_event_id world.repository.rows ≡ some row) where
  abbrev IsRefused {ℓ} : {A : Type ℓ} → Action A → Type ℓ
  IsRefused action = action world ≡ (world, throw "stale runner workflow attempt")

  module _ (other : row.runner_attempt ≢ some a) where
    require_current-IsRefused :
        (phase : RunnerPhase) (key : Option String) (allow : Bool)
        → IsRefused (require_current_workflow_attempt options event phase key allow)
    unfolding require_current_workflow_attempt Workflow.update_runner_workflow_progress
    require_current-IsRefused phase key allow = rw of_attempt (
        require_marked-outcome _ world (
          update_if-refused world.repository event.source_event_id _ _ row found
            (refuses a row allow other)))

    restore-IsRefused :
        (stringify : TeeCoreResult → String) (validate : FinalizedResult → Option String)
        → IsRefused (RunnerControl.restore_affected_cells_proof_registration_retry options event)
    unfolding RunnerControl.restore_affected_cells_proof_registration_retry
    restore-IsRefused stringify validate =
        let (_, _, _, _, _, registration, _, _) =
          stale_report stringify validate world.repository event.source_event_id a options.now_ms
            row found other in
        let mark = λ (attempt : Option ℕ) (repository : Repository).
          Outcomes.mark_affected_cells_proof_registration_result repository event.source_event_id
            (RunnerControl.restored_update event options.now_ms) options.now_ms attempt in
        >>=-thrown (require_marked (mark event.attempt)) (λ marked. return Output.retry_restored)
          world
          (require_marked-outcome (mark event.attempt) world (
            ap (λ attempt. mark attempt world.repository) of_attempt
            ∙ registration (RunnerControl.restored_update event options.now_ms)))

    -- A control event of an attempt that the row of its event is not at ends with the error of a stale
    -- attempt, writes nothing and requests no capacity: a start and a stop of the instance, a reading
    -- and an application of a result, a registration and the restoring of its retry, and a failure.
    pub stale_events :
        (stringify : TeeCoreResult → String) (validate : FinalizedResult → Option String)
        (validate_submit : FinalizedResult → Result ValidatedSubmit)
        (http_registrar : String → String → Registrar) (registrar : Option Registrar)
        (env : Environment)
        → IsRefused (RunnerControl.start_instance options event)
          × IsRefused (RunnerControl.stop_instance options event)
          × IsRefused (RunnerControl.read_result options event)
          × IsRefused (RunnerControl.apply_result stringify validate options event)
          × IsRefused (
              Registration.register_affected_cells_proof_event validate_submit http_registrar
                options event registrar env)
          × IsRefused (RunnerControl.restore_affected_cells_proof_registration_retry options event)
          × IsRefused (RunnerControl.mark_failed options event)
    unfolding RunnerControl.start_instance RunnerControl.stop_instance RunnerControl.read_result
        RunnerControl.apply_result RunnerControl.mark_failed
        Registration.register_affected_cells_proof_event
    stale_events stringify validate validate_submit http_registrar registrar env = (
      >>=-thrown
          (require_current_workflow_attempt options event RunnerPhase.starting_instance none false)
          (λ current.
            set_runner_desired_capacity options 1 >>= λ requested. return (Output.capacity 1))
          world (require_current-IsRefused RunnerPhase.starting_instance none false),
      >>=-thrown
          (require_current_workflow_attempt options event RunnerPhase.stopping_instance none true)
          (λ current. set_runner_desired_capacity options 0 >>= λ requested.
            RunnerControl.mark_stopped options event)
          world (require_current-IsRefused RunnerPhase.stopping_instance none true),
      >>=-thrown
          (require_current_workflow_attempt options event RunnerPhase.reading_result
            (some event.result_s3_key) false)
          (λ current. lift (read_tee_result_from_s3 options event) >>= λ result.
            return (Output.result_read (tee_status result)))
          world (require_current-IsRefused RunnerPhase.reading_result _ false),
      >>=-thrown
          (require_current_workflow_attempt options event RunnerPhase.applying_result
            (some event.result_s3_key) false)
          (λ current. lift (read_tee_result_from_s3 options event) >>= λ result.
            RunnerControl.apply_read stringify validate options event result)
          world (require_current-IsRefused RunnerPhase.applying_result _ false),
      >>=-thrown
          (require_current_workflow_attempt options event
            RunnerPhase.registering_affected_cells_proof (some event.result_s3_key) true)
          (λ current. lift (read_tee_result_from_s3 options event) >>= λ result.
            Registration.register_read validate_submit http_registrar options event registrar env
              result)
          world (require_current-IsRefused RunnerPhase.registering_affected_cells_proof _ true),
      restore-IsRefused stringify validate,
      >>=-thrown (require_current_workflow_attempt options event RunnerPhase.complete none true)
          (λ current.
            lift (RunnerControl.read_runner_failure_error_code event.error_code) >>= λ error_code.
            require_marked (λ repository.
              Outcomes.mark_failed repository event.source_event_id error_code options.now_ms
                (options.now_ms + failed_retry_backoff_ms)
                (some (RunnerControl.failure_message event)) event.attempt)
            >>= λ marked. return Output.failed)
          world (require_current-IsRefused RunnerPhase.complete none true),
    )

  module _ (stringify : TeeCoreResult → String) (validate : FinalizedResult → Option String)
      (running : is_processing row.status ≡ true) (current : row.runner_attempt ≡ some a) where
    -- The row while its result is applied.
    abbrev pub applying_row : EarthquakeEventRow
    applying_row = apply_runner_workflow_progress row (
        progress event a RunnerPhase.applying_result (some event.result_s3_key) false
          options.now_ms)

    abbrev applying : World
    applying = record world {
      repository = write world.repository event.source_event_id applying_row;
    }

    require_current-applying :
        require_current_workflow_attempt options event RunnerPhase.applying_result
          (some event.result_s3_key)
          false
          world
        ≡ (applying, ok tt)
    unfolding require_current_workflow_attempt Workflow.update_runner_workflow_progress
    require_current-applying = rw of_attempt (
        require_marked-outcome _ world
          (update_if-written world.repository event.source_event_id _ _ row found (ground arith)))

    abbrev pub pending_time : TeeCoreResult → Option ℕ
    pending_time result =
        if is_pending_tee_result result then some (options.now_ms + hour_ms) else none

    module _ (result : TeeCoreResult) (applied : EarthquakeEventRow)
        (applies : apply_result_to_row stringify validate applying_row result options.now_ms
            (pending_time result)
          ≡ ok applied) where
      abbrev done : World
      done = record world { repository = write applying.repository event.source_event_id applied }

      runner_result-applied :
          Outcomes.apply_runner_result stringify validate applying.repository event.source_event_id
            result options.now_ms
            (pending_time result)
            event.attempt
          ≡ ok (done.repository, true)
      unfolding is_expected_processing apply_runner_workflow_progress
      runner_result-applied =
          apply_runner_result-applies stringify validate applying.repository event.source_event_id
            result options.now_ms (pending_time result) event.attempt applying_row applied
            (get_row-set_row_self event.source_event_id applying_row world.repository.rows)
            (rw of_attempt (ground arith)) applies

      apply_read-applied :
          RunnerControl.apply_read stringify validate options event result applying
          ≡ (done, ok (Output.result_applied (tee_status result)))
      unfolding RunnerControl.apply_read
      apply_read-applied =
          let apply = λ (repository : Repository).
            Outcomes.apply_runner_result stringify validate repository event.source_event_id result
              options.now_ms (pending_time result) event.attempt in
          >>=-answered (RunnerControl.require_applied apply)
            (λ marked. return (Output.result_applied (tee_status result))) applying
            (require_applied-outcome apply applying runner_result-applied)

      -- An application of a result to a row in processing at the attempt of the event, where the
      -- result is read and the row takes it, answers with the status of the result, requests no
      -- capacity and leaves the row that `applyResultToRow` makes of the row that has gone on to the
      -- phase of the application.
      pub apply_result-applied :
          read_tee_result_from_s3 options event ≡ ok result
          → (world' : World) × (RunnerControl.apply_result stringify validate options event world
              ≡ (world', ok (Output.result_applied (tee_status result))))
            × (get_row event.source_event_id world'.repository.rows ≡ some applied)
            × (world'.capacity_requests ≡ world.capacity_requests)
      unfolding RunnerControl.apply_result
      apply_result-applied read = (
        done,
        >>=-answered
              (require_current_workflow_attempt options event RunnerPhase.applying_result
                (some event.result_s3_key) false)
              (λ current. lift (read_tee_result_from_s3 options event) >>= λ r.
                RunnerControl.apply_read stringify validate options event r)
              world require_current-applying
            ∙ >>=-answered (lift (read_tee_result_from_s3 options event))
                (RunnerControl.apply_read stringify validate options event) applying
                (ap (λ r. (applying, r)) read)
            ∙ apply_read-applied,
        get_row-set_row_self event.source_event_id applied applying.repository.rows,
        refl,
      )
