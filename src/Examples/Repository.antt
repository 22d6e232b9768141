-- ===== src/Examples/Repository.antt =====
-- The theorems on nautilus/verifiers/earthquake/watcher/src/state.ts at concrete inputs.
use sonari.Prelude.{
  ℕ, ◌+◌, ◌≡◌, ◌≢◌, ◌≤◌, refl, true, false, Option, none, some, String, [], ◌∷◌, ok, arith, length,
  All,
}
use sonari.Watcher.Types.{
  OffchainStatus, OracleErrorCode, RelayerMode, RelayerErrorCode, EarthquakeEventRow,
  UsgsEarthquakeCandidate, WorkflowStartInput, RunnerQueueJob, SourceArchiveStatus,
  AffectedCellsProofRegistrationStatus, SourceArchiveStateUpdate,
  AffectedCellsProofRegistrationStateUpdate, FloorCensusStateUpdate, RelayerSuccess,
}
use sonari.Watcher.Row
use sonari.Watcher.Row.Fresh.{base_row}
use sonari.Watcher.TeeResult.{TeeCoreResult, FinalizedResult}
use sonari.Watcher.Repository
use sonari.Watcher.Repository.Workflow
use sonari.Watcher.Repository.Outcomes
use sonari.Watcher.Repository.Queue
use sonari.Watcher.Repository.{
  Rows, Repository, get_row, set_row, update_if, upsert_candidate, upsert_manual_event,
  manual_candidate,
}
use sonari.Watcher.Repository.Workflow.{
  mark_workflow_started, try_start_runner_workflow_exclusively, can_start, started_row,
}
use sonari.Watcher.Repository.Outcomes.{
  failed_row, mark_failed, apply_runner_result, mark_relayer_succeeded, mark_relayer_failed,
  mark_source_archive_result, mark_affected_cells_proof_registration_result,
  mark_floor_census_processing, mark_floor_census_result,
  claim_affected_cells_proof_registration_retry,
}
use sonari.Watcher.Repository.Queue.{
  enqueue_runner_job, claim_queued_for_processing, defer_until, recover_stale_processing,
}
use sonari.Watcher.Repository.Queries.{is_listed, list_due}
use sonari.Watcher.Steps.{Step, Run}
use sonari.Watcher.Steps.Operations.{AreFenced}
use sonari.Watcher.Steps.Keep.{Run-AreFenced}
use sonari.Watcher.Steps.Lock.{try_start-exclusive}
use sonari.Watcher.Attempts.{IsFenced, Fenced-next}
use sonari.Watcher.Attempts.Stale.{stale_report, mark_failed-fresh_attempt}
use sonari.Watcher.Leases.{
  claim_queued-once, mark_failed-once, claim_registration-leased, mark_workflow_started-once,
}
use sonari.Watcher.Recovery.{is_stale, recover_stale_processing-settled}
use sonari.Watcher.Due.{IsAscending, list_due-due}
use sonari.Watcher.Upserts.{sighted_row, upsert_candidate-sighted, upsert_manual_event-can_start}

abbrev event_uid_of : UsgsEarthquakeCandidate → String
event_uid_of candidate = candidate.source_event_id

abbrev text_of : TeeCoreResult → String
text_of result = "{}"

abbrev accept_all : FinalizedResult → Option String
accept_all result = none

abbrev candidate : UsgsEarthquakeCandidate
candidate = record {
  source_event_id = "us1";
  requested_source_event_id = none;
  occurred_at_ms = 500;
  source_updated_at_ms = 600;
  magnitude = some 6100;
  summary_mmi = none;
  alert = none;
  tsunami = false;
}

abbrev empty : Repository
empty = record { rows = []; runner_workflow_lock = none }

abbrev one_row : EarthquakeEventRow → Repository
one_row row = record { rows = ("us1", row) ∷ []; runner_workflow_lock = none }

abbrev fresh : EarthquakeEventRow
fresh = base_row "us1" 1000

Run-AreFenced_example :
    AreFenced
      (try_start_runner_workflow_exclusively
        (upsert_candidate event_uid_of empty candidate 1000 false)
        "us1"
        "run-1"
        2000
        none
        none).0
Run-AreFenced_example = Run-AreFenced event_uid_of text_of accept_all {r = empty} tt (
    Run.next (Run.next Run.here (Step.upsert empty candidate 1000 false)) (
      Step.try_start (upsert_candidate event_uid_of empty candidate 1000 false) "us1" "run-1" 2000
        none none))

abbrev started : WorkflowStartInput
started = record {
  source_event_id = "us1";
  execution_name = "run-1";
  attempt = 1;
  event_revision = 1;
}

abbrev locked : Repository
locked = (try_start_runner_workflow_exclusively (one_row fresh) "us1" "run-1" 2000 none none).0

starts :
    try_start_runner_workflow_exclusively (one_row fresh) "us1" "run-1" 2000 none none
    ≡ (locked, some started)
unfolding try_start_runner_workflow_exclusively mark_workflow_started can_start started_row
    Row.is_ready_for_retry_or_deadline Workflow.is_locked Workflow.take_lock get_row set_row
    base_row
starts = refl

try_start-exclusive_example :
    try_start_runner_workflow_exclusively
      (defer_until locked "us1" 9000 3000)
      "us2"
      "run-2"
      600000
      none
      none
    ≡ (defer_until locked "us1" 9000 3000, none)
try_start-exclusive_example =
    try_start-exclusive event_uid_of text_of accept_all (one_row fresh) "us1" "run-1" 2000 none none
      starts (Run.next Run.here (Step.defer locked "us1" 9000 3000)) (tt, tt) "us2" "run-2" 600000
      none none (ground arith)

abbrev running : EarthquakeEventRow
running = started_row fresh "run-1" 2000 none

runs : get_row "us1" (one_row running).rows ≡ some running
unfolding get_row
runs = refl

abbrev failed_once : Repository
failed_once =
    (mark_failed (one_row running) "us1" OracleErrorCode.aws_runner_timeout 3000 4000 none
      (some 1)).0

fails_once :
    mark_failed (one_row running) "us1" OracleErrorCode.aws_runner_timeout 3000 4000 none (some 1)
    ≡ (failed_once, true)
unfolding mark_failed Repository.is_expected_processing update_if get_row set_row started_row
    base_row
fails_once = refl

abbrev restarted : Repository
restarted = (mark_workflow_started failed_once "us1" "run-2" 5000 none none).0

restarts : mark_workflow_started failed_once "us1" "run-2" 5000 none none ≡ (
  restarted,
  some (record {
    source_event_id = "us1";
    execution_name = "run-2";
    attempt = 2;
    event_revision = 1;
  }),
)
unfolding mark_workflow_started can_start Row.is_ready_for_retry_or_deadline mark_failed
    Outcomes.failed_row Repository.is_expected_processing update_if get_row set_row started_row
    base_row
restarts = refl

running-IsFenced : IsFenced running
unfolding started_row
running-IsFenced = Fenced-next OffchainStatus.processing fresh.retry_count

mark_failed-fresh_attempt_example :
    (2 ≡ 1 + 1)
    × ((row : EarthquakeEventRow) × (get_row "us1" restarted.rows ≡ some row)
        × (row.status ≡ OffchainStatus.processing)
        × (row.runner_attempt ≡ some (1 + 1))
        × (row.runner_attempt ≢ some 1))
unfolding started_row base_row
mark_failed-fresh_attempt_example =
    mark_failed-fresh_attempt (one_row running) "us1" "run-2" 1 3000 4000 5000
      OracleErrorCode.aws_runner_timeout none none none running runs running-IsFenced refl refl
      fails_once restarts

running_at : running.runner_attempt ≢ some 7
unfolding started_row base_row
running_at e = ground arith

stale_report_example :
    ((code : OracleErrorCode) (retry : ℕ) (message : Option String)
      → mark_failed (one_row running) "us1" code 3000 retry message (some 7)
        ≡ (one_row running, false))
    × ((result : TeeCoreResult) (pending : Option ℕ)
        → apply_runner_result text_of accept_all
            (one_row running)
            "us1"
            result
            3000
            pending
            (some 7)
          ≡ ok (one_row running, false))
    × ((success : RelayerSuccess)
        → mark_relayer_succeeded (one_row running) "us1" success 3000 (some 7)
          ≡ (one_row running, false))
    × ((mode : RelayerMode) (code : RelayerErrorCode) (message : String)
        → mark_relayer_failed (one_row running) "us1" mode code message 3000 (some 7)
          ≡ (one_row running, false))
    × ((input : SourceArchiveStateUpdate)
        → mark_source_archive_result (one_row running) "us1" input 3000 (some 7)
          ≡ (one_row running, false))
    × ((input : AffectedCellsProofRegistrationStateUpdate)
        → mark_affected_cells_proof_registration_result (one_row running) "us1" input 3000 (some 7)
          ≡ (one_row running, false))
    × (mark_floor_census_processing (one_row running) "us1" 3000 (some 7)
        ≡ (one_row running, false))
    × ((input : FloorCensusStateUpdate)
        → mark_floor_census_result (one_row running) "us1" input 3000 (some 7)
          ≡ (one_row running, false))
stale_report_example =
    stale_report text_of accept_all (one_row running) "us1" 7 3000 running runs running_at

upsert_candidate-sighted_example :
    get_row "us1" (upsert_candidate event_uid_of (one_row running) candidate 3000 false).rows
    ≡ some (sighted_row event_uid_of running candidate 3000)
unfolding started_row
upsert_candidate-sighted_example =
    upsert_candidate-sighted event_uid_of (one_row running) candidate 3000 false running runs
      (refl, refl)

upsert_manual_event-can_start_example :
    (row : EarthquakeEventRow) × (get_row "us1"
        (upsert_manual_event event_uid_of (one_row fresh) "us1" 9000 none).rows
      ≡ some row)
    × (can_start row 9000 none ≡ true)
unfolding get_row base_row
upsert_manual_event-can_start_example =
    upsert_manual_event-can_start event_uid_of (one_row fresh) "us1" 9000 none
      ((λ e. cc), (λ e. cc))

abbrev begun : Repository
begun = (mark_workflow_started (one_row fresh) "us1" "run-1" 2000 none none).0

begins : mark_workflow_started (one_row fresh) "us1" "run-1" 2000 none none ≡ (begun, some started)
unfolding mark_workflow_started can_start Row.is_ready_for_retry_or_deadline get_row set_row
    started_row base_row
begins = refl

mark_workflow_started-once_example :
    mark_workflow_started begun "us1" "run-2" 99000 (some 0) none ≡ (begun, none)
mark_workflow_started-once_example =
    mark_workflow_started-once (one_row fresh) "us1" "run-1" "run-2" 2000 99000 none none (some 0)
      none begins

mark_failed-once_example :
    mark_failed failed_once "us1" OracleErrorCode.aws_runner_timeout 5000 6000 none (some 1)
    ≡ (failed_once, false)
mark_failed-once_example =
    mark_failed-once (one_row running) "us1" OracleErrorCode.aws_runner_timeout
      OracleErrorCode.aws_runner_timeout 3000 4000 5000 6000 none none (some 1) 1 fails_once

abbrev job : RunnerQueueJob
job = record {
  runner_job_id = "job-1";
  source_event_id = "us1";
  attempt = 1;
  event_revision = 1;
  enqueued_at_ms = 2000;
}

abbrev waiting : Repository
waiting = (enqueue_runner_job (one_row fresh) "us1" 1 "job-1" 2000 none).0

abbrev claimed_job : Repository
claimed_job = (claim_queued_for_processing waiting job 3000 9000).0

claims_job : claim_queued_for_processing waiting job 3000 9000 ≡ (claimed_job, true)
unfolding claim_queued_for_processing enqueue_runner_job Queue.queued_row update_if get_row set_row
    base_row
claims_job = refl

claim_queued-once_example :
    claim_queued_for_processing claimed_job job 4000 9000 ≡ (claimed_job, false)
claim_queued-once_example = claim_queued-once waiting job job 3000 9000 4000 9000 refl claims_job

abbrev unregistered : EarthquakeEventRow
unregistered = record fresh {
  source_archive_status = some SourceArchiveStatus.success;
  affected_cells_proof_registration_status =
      some AffectedCellsProofRegistrationStatus.retryable_failed;
  affected_cells_proof_registration_next_retry_at_ms = some 5000;
  runner_attempt = some 1;
  runner_result_s3_key = some "results/us1";
}

abbrev leased_repo : Repository
leased_repo =
    (claim_affected_cells_proof_registration_retry (one_row unregistered) "us1" 5000 6000).0

leases :
    claim_affected_cells_proof_registration_retry (one_row unregistered) "us1" 5000 6000
    ≡ (leased_repo, some (1, "results/us1"))
unfolding claim_affected_cells_proof_registration_retry Outcomes.can_claim_registration
    Outcomes.registration_claimed_row Row.is_due_affected_cells_proof_registration get_row set_row
    base_row
leases = refl

claim_registration-leased_example :
    claim_affected_cells_proof_registration_retry leased_repo "us1" 5000 7000 ≡ (leased_repo, none)
claim_registration-leased_example =
    claim_registration-leased (one_row unregistered) "us1" 5000 5000 6000 7000 leases (ground arith)

list_due-due_example :
    (length (list_due (one_row fresh) 2000 5) ≤ 5)
    × IsAscending (λ row. row.updated_at_ms) (list_due (one_row fresh) 2000 5)
    × All (λ row. is_listed 2000 row ≡ true) (list_due (one_row fresh) 2000 5)
list_due-due_example = list_due-due (one_row fresh) 2000 5

abbrev timed_out : EarthquakeEventRow
timed_out = failed_row running OracleErrorCode.aws_runner_timeout 6000 7000 none

recovers :
    get_row "us1" (recover_stale_processing (one_row running) 5000 6000 7000).0.rows
    ≡ some timed_out
unfolding recover_stale_processing Queue.recover_processing_from failed_row update_if get_row
    set_row started_row base_row
recovers = refl

recover_stale_processing-settled_example : is_stale 5000 timed_out ≡ false
recover_stale_processing-settled_example =
    recover_stale_processing-settled (one_row running) 5000 6000 7000 "us1" timed_out recovers
