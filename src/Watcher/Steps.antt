-- ===== src/Watcher/Steps.antt =====
-- The steps that the repository of nautilus/verifiers/earthquake/watcher/src/state.ts takes: one for
-- each of its operations that change state, at any arguments, in any order.
pub mod Operations
pub mod Keep
pub mod Lock
use sonari.Prelude.{ℕ, ◌≡◌, Bool, Option, none, String, List, [], ◌∷◌, ok}
use sonari.Watcher.Types.{
  OracleErrorCode, RelayerMode, RelayerErrorCode, UsgsEarthquakeCandidate, RunnerQueueJob,
  RunnerWorkflowProgressUpdate, SourceArchiveStateUpdate, AffectedCellsProofRegistrationStateUpdate,
  FloorCensusStateUpdate, RelayerSuccess,
}
use sonari.Watcher.TeeResult.{TeeCoreResult, FinalizedResult}
use sonari.Watcher.Repository.{Repository, upsert_candidate, upsert_manual_event}
use sonari.Watcher.Repository.Workflow.{
  mark_workflow_started, try_start_runner_workflow_exclusively, mark_workflow_stopped,
  update_runner_workflow_progress,
}
use sonari.Watcher.Repository.Outcomes.{
  mark_failed, apply_runner_result, mark_relayer_succeeded, mark_relayer_failed,
  mark_source_archive_result, mark_affected_cells_proof_registration_result,
  mark_floor_census_processing, mark_floor_census_result,
  claim_affected_cells_proof_registration_retry,
}
use sonari.Watcher.Repository.Queue.{
  enqueue_runner_job, mark_queue_enqueue_failed, claim_queued_for_processing, record_runner_started,
  record_runner_stopped, record_runner_stop_failed, defer_until, mark_rejected,
  recover_stale_processing, recover_stale_queued,
}

-- What the lock of the runner workflow can notice of a step.
pub data Event : Type 0 where
  exclusive_start : ℕ → Event
  workflow_stop : String → ℕ → Event
  other : Event

module _ (uid : UsgsEarthquakeCandidate → String) (stringify : TeeCoreResult → String)
    (validate : FinalizedResult → Option String) where
  pub data Step : Event → Repository → Repository → Type 0 where
    upsert :
        (r : Repository) (c : UsgsEarthquakeCandidate) (now : ℕ) (bypass : Bool)
        → Step other r (upsert_candidate uid r c now bypass)
    manual :
        (r : Repository) (id : String) (now : ℕ) (requested : Option String)
        → Step other r (upsert_manual_event uid r id now requested)
    claim_registration :
        (r : Repository) (id : String) (expected now : ℕ)
        → Step other r (claim_affected_cells_proof_registration_retry r id expected now).0
    try_start :
        (r : Repository) (id name : String) (now : ℕ) (count revision : Option ℕ)
        → Step
            (exclusive_start now)
            r
            (try_start_runner_workflow_exclusively r id name now count revision).0
    start :
        (r : Repository) (id name : String) (now : ℕ) (count revision : Option ℕ)
        → Step other r (mark_workflow_started r id name now count revision).0
    stop :
        (r : Repository) (id : String) (attempt now : ℕ)
        → Step (workflow_stop id attempt) r (mark_workflow_stopped r id attempt now).0
    progress :
        (r : Repository) (input : RunnerWorkflowProgressUpdate)
        → Step other r (update_runner_workflow_progress r input).0
    fail :
        (r : Repository) (id : String) (code : OracleErrorCode) (now retry : ℕ)
        (message : Option String) (expected : Option ℕ)
        → Step other r (mark_failed r id code now retry message expected).0
    apply :
        (r r' : Repository) (done : Bool) (id : String) (result : TeeCoreResult) (now : ℕ)
        (pending expected : Option ℕ)
        → apply_runner_result stringify validate r id result now pending expected ≡ ok (r', done)
        → Step other r r'
    relayed :
        (r : Repository) (id : String) (success : RelayerSuccess) (now : ℕ) (expected : Option ℕ)
        → Step other r (mark_relayer_succeeded r id success now expected).0
    relay_failed :
        (r : Repository) (id : String) (mode : RelayerMode) (code : RelayerErrorCode)
        (message : String) (now : ℕ) (expected : Option ℕ)
        → Step other r (mark_relayer_failed r id mode code message now expected).0
    archive :
        (r : Repository) (id : String) (input : SourceArchiveStateUpdate) (now : ℕ)
        (expected : Option ℕ)
        → Step other r (mark_source_archive_result r id input now expected).0
    registration :
        (r : Repository) (id : String) (input : AffectedCellsProofRegistrationStateUpdate) (now : ℕ)
        (expected : Option ℕ)
        → Step other r (mark_affected_cells_proof_registration_result r id input now expected).0
    census :
        (r : Repository) (id : String) (now : ℕ) (expected : Option ℕ)
        → Step other r (mark_floor_census_processing r id now expected).0
    census_result :
        (r : Repository) (id : String) (input : FloorCensusStateUpdate) (now : ℕ)
        (expected : Option ℕ)
        → Step other r (mark_floor_census_result r id input now expected).0
    enqueue :
        (r : Repository) (id : String) (attempt : ℕ) (job : String) (now : ℕ) (revision : Option ℕ)
        → Step other r (enqueue_runner_job r id attempt job now revision).0
    enqueue_failed :
        (r : Repository) (id job : String) (now retry : ℕ) (message : String)
        → Step other r (mark_queue_enqueue_failed r id job now retry message)
    claim :
        (r : Repository) (job : RunnerQueueJob) (now timeout : ℕ)
        → Step other r (claim_queued_for_processing r job now timeout).0
    runner_started :
        (r : Repository) (id job runner : String) (now timeout : ℕ)
        → Step other r (record_runner_started r id job runner now timeout)
    runner_stopped :
        (r : Repository) (id job : String) (now : ℕ)
        → Step other r (record_runner_stopped r id job now)
    stop_failed :
        (r : Repository) (id job message : String) (now : ℕ)
        → Step other r (record_runner_stop_failed r id job message now)
    defer :
        (r : Repository) (id : String) (retry now : ℕ) → Step other r (defer_until r id retry now)
    reject :
        (r : Repository) (id : String) (code : OracleErrorCode) (now : ℕ)
        → Step other r (mark_rejected r id code now)
    recover_processing :
        (r : Repository) (stale now retry : ℕ)
        → Step other r (recover_stale_processing r stale now retry).0
    recover_queued :
        (r : Repository) (stale now retry : ℕ)
        → Step other r (recover_stale_queued r stale now retry).0

  -- A run of the repository, with its events, the last one first.
  pub data Run (start : Repository) : List Event → Repository → Type 0 where
    here : Run start [] start
    next :
        {events : List Event} {e : Event} {r r' : Repository}
        → Run start events r
        → Step e r r'
        → Run start (e ∷ events) r'
