-- ===== src/Examples/DynamoDb.antt =====
-- The theorems on `DynamoDbStateRepository` of nautilus/verifiers/earthquake/watcher/src/state.ts at
-- concrete inputs, with a table that is run here.
use sonari.Prelude.{
  ℕ, ◌≡◌, inl, refl, sym, ap, some-cancel, Bool, true, false, ◌&&◌, Option, none, some, String,
  List, [], ◌∷◌, Result, ok, throw, arith, if◌then◌else◌,
}
use sonari.Watcher.Types.{
  OffchainStatus, OracleErrorCode, RunnerPhase, RelayerMode, RelayerErrorCode, EarthquakeEventRow,
  UsgsEarthquakeCandidate, RunnerQueueJob, RunnerWorkflowLockRow, RunnerWorkflowProgressUpdate,
  SourceArchiveStateUpdate, AffectedCellsProofRegistrationStateUpdate, FloorCensusStateUpdate,
  RelayerSuccess,
}
use sonari.Watcher.Row.Fresh.{base_row}
use sonari.Watcher.TeeResult.{TeeCoreResult, FinalizedResult}
use sonari.Watcher.Repository
use sonari.Watcher.Repository.{Repository, get_row, set_row}
use sonari.Watcher.Repository.Workflow
use sonari.Watcher.Repository.Outcomes
use sonari.Watcher.Repository.Queue
use sonari.Watcher.Repository.Cases.{write}
use sonari.Watcher.DynamoDb.{Client, Command, Reply, Item, event_rows}
use sonari.Watcher.DynamoDb.Operations
use sonari.Watcher.DynamoDb.Reports
use sonari.Watcher.DynamoDb.Upserts
use sonari.Watcher.DynamoDb.Recovery
use sonari.Watcher.DynamoDb.Documented.{
  IsConditional, IsKeyed, answered, holds_of, lock_holds_of, start_writes,
}
use sonari.Watcher.DynamoDb.Refinement.{reports_refine, queue_refines}
use sonari.Watcher.DynamoDb.Starting.{starts_refine}
use sonari.Watcher.DynamoDb.Stopping.{stop_refines}
use sonari.Watcher.DynamoDb.Safety.{reports_land, IsLandedOn, IsAtAttempt, IsProcessingAttempt}
use sonari.Watcher.DynamoDb.Sightings.{upsert_refines}
use sonari.Watcher.DynamoDb.Manual.{manual_refines}
use sonari.Watcher.DynamoDb.Scans.{IsPaged, IsTable, scan_rows-IsPaged, recover_refines}
use sonari.Watcher.DynamoDb.Errors.{errors_surface}

abbrev refused : Repository → Reply × Repository
refused repo = (Reply.conditional_check_failed, repo)

abbrev update_item :
    Repository
    → String
    → (EarthquakeEventRow → Bool)
    → (EarthquakeEventRow → EarthquakeEventRow)
    → Option EarthquakeEventRow
    → Reply × Repository
update_item repo key condition change none = refused repo
update_item repo key condition change (some row) =
    if condition row then (Reply.done, write repo key (change row)) else refused repo

abbrev start_item :
    Repository
    → String
    → (EarthquakeEventRow → Bool)
    → (EarthquakeEventRow → EarthquakeEventRow)
    → Bool
    → RunnerWorkflowLockRow
    → Option EarthquakeEventRow
    → Reply × Repository
start_item repo key condition change free lock none = (Reply.transaction_canceled, repo)
start_item repo key condition change free lock (some row) =
    if condition row && free
    then (Reply.done, start_writes repo key (change row) lock)
    else (Reply.transaction_canceled, repo)

-- A table that keeps its conditions.
unfoldable perform : Command → Repository → Reply × Repository
perform (Command.update key condition change) repo =
    update_item repo key condition change (get_row key repo.rows)
perform (Command.overwrite condition row) repo =
    if condition (get_row row.source_event_id repo.rows)
    then (Reply.done, write repo row.source_event_id row)
    else refused repo
perform (Command.put condition row) repo =
    if condition (get_row row.source_event_id repo.rows)
    then (Reply.done, write repo row.source_event_id row)
    else refused repo
perform (Command.delete_lock condition) repo =
    if lock_holds_of condition repo.runner_workflow_lock
    then (Reply.done, record repo { runner_workflow_lock = none })
    else refused repo
perform (Command.transact_start key condition change lock_condition lock) repo =
    start_item repo key condition change (lock_condition repo.runner_workflow_lock) lock
      (get_row key repo.rows)

abbrev row_of : Option EarthquakeEventRow → List Item
row_of none = []
row_of (some row) = Item.event_row row ∷ []

-- A client of that table, for whatever its reads return. It scans the rows of two events, a page
-- each, the item of the lock on the first.
abbrev table : (Repository → String → Result (Option EarthquakeEventRow)) → Client
table read = record {
  send = perform;
  get_item = read;
  scan_page = λ repo start. elim start [
    | none ↦ ok (row_of (get_row "us1" repo.rows), some "us1")
    | some key ↦ ok (row_of (get_row "us2" repo.rows), none)
  ];
}

abbrev read_stored : Repository → String → Result (Option EarthquakeEventRow)
read_stored repo key = ok (get_row key repo.rows)

table-IsConditional :
    (read : Repository → String → Result (Option EarthquakeEventRow)) → IsConditional (table read)
unfolding perform
table-IsConditional read = record {
  update_done = λ repo key condition change row found passes. rw found (rw passes refl);
  update_refused = λ repo key condition change fails.
      update_refused_of repo key condition change (get_row key repo.rows) fails;
  overwrite_done = λ repo condition row passes. rw passes refl;
  overwrite_refused = λ repo condition row fails. rw fails refl;
  put_done = λ repo condition row passes. rw passes refl;
  put_refused = λ repo condition row fails. rw fails refl;
  delete_done = λ repo condition passes. rw passes refl;
  delete_refused = λ repo condition fails. rw fails refl;
  transact_done = λ repo key condition change lock_condition lock row found passes free.
      rw found (rw (passes, free) refl);
  transact_refused = λ repo key condition change lock_condition lock fails.
      start_refused_of repo key condition change (lock_condition repo.runner_workflow_lock) lock
        (get_row key repo.rows) fails;
}
  where
    update_refused_of :
        (repo : Repository) (key : String) (condition : EarthquakeEventRow → Bool)
        (change : EarthquakeEventRow → EarthquakeEventRow) (stored : Option EarthquakeEventRow)
        → holds_of condition stored ≡ false
        → update_item repo key condition change stored ≡ refused repo
    update_refused_of repo key condition change none fails = refl
    update_refused_of repo key condition change (some row) fails = rw fails refl

    start_refused_of :
        (repo : Repository) (key : String) (condition : EarthquakeEventRow → Bool)
        (change : EarthquakeEventRow → EarthquakeEventRow) (free : Bool)
        (lock : RunnerWorkflowLockRow) (stored : Option EarthquakeEventRow)
        → (holds_of condition stored && free) ≡ false
        → start_item repo key condition change free lock stored ≡ (Reply.transaction_canceled, repo)
    start_refused_of repo key condition change free lock none fails = refl
    start_refused_of repo key condition change free lock (some row) fails = rw fails refl

abbrev fresh_table : Client
fresh_table = table read_stored

abbrev text_of : TeeCoreResult → String
text_of result = "{}"

abbrev accept_all : FinalizedResult → Option String
accept_all result = none

abbrev event_uid_of : UsgsEarthquakeCandidate → String
event_uid_of candidate = candidate.source_event_id

abbrev one_row : EarthquakeEventRow → Repository
one_row row = record { rows = ("us1", row) ∷ []; runner_workflow_lock = none }

abbrev waiting : EarthquakeEventRow
waiting = base_row "us1" 1000

abbrev running : EarthquakeEventRow
running = record waiting {
  status = OffchainStatus.processing;
  event_uid = some "us1";
  runner_attempt = some 1;
  updated_at_ms = 2000;
}

-- The row of a later attempt, of which a stale read still shows the first.
abbrev overtaken : EarthquakeEventRow
overtaken = record running { runner_attempt = some 2; retry_count = 1 }

abbrev read_stale : Repository → String → Result (Option EarthquakeEventRow)
read_stale repo key = ok (some running)

abbrev stale_table : Client
stale_table = table read_stale

running_at_key : IsKeyed (one_row running) "us1"
unfolding base_row get_row
running_at_key row found = ap (λ r. r.source_event_id) (some-cancel (sym found))

abbrev in_queue : EarthquakeEventRow
in_queue = record waiting {
  status = OffchainStatus.queued;
  runner_job_id = some "job-1";
  runner_attempt = some 1;
}

abbrev job_1 : RunnerQueueJob
job_1 = record {
  runner_job_id = "job-1";
  source_event_id = "us1";
  attempt = 1;
  event_revision = 1;
  enqueued_at_ms = 1500;
}

in_queue_at_key : IsKeyed (one_row in_queue) "us1"
unfolding base_row get_row
in_queue_at_key row found = ap (λ r. r.source_event_id) (some-cancel (sym found))

abbrev progress : RunnerWorkflowProgressUpdate
progress = record {
  source_event_id = "us1";
  attempt = 1;
  phase = RunnerPhase.stopping_instance;
  now_ms = 3000;
  instance_id = none;
  command_id = none;
  result_s3_key = some "result.json";
  last_poll_at_ms = none;
  allow_non_processing = false;
}

reports_refine_example :
    ((code : OracleErrorCode) (retry : ℕ) (message : Option String)
      → Reports.mark_failed fresh_table "us1" code 3000 retry message (some 1) (one_row running)
        ≡ answered (Outcomes.mark_failed (one_row running) "us1" code 3000 retry message (some 1)))
    × ((success : RelayerSuccess)
        → Reports.mark_relayer_succeeded fresh_table "us1" success 3000 (some 1) (one_row running)
          ≡ answered
              (Outcomes.mark_relayer_succeeded (one_row running) "us1" success 3000 (some 1)))
    × ((mode : RelayerMode) (code : RelayerErrorCode) (message : String)
        → Reports.mark_relayer_failed fresh_table "us1" mode code message 3000
            (some 1)
            (one_row running)
          ≡ answered (
              Outcomes.mark_relayer_failed (one_row running) "us1" mode code message 3000 (some 1)))
    × ((input : SourceArchiveStateUpdate)
        → Reports.mark_source_archive_result fresh_table "us1" input 3000 (some 1) (one_row running)
          ≡ answered
              (Outcomes.mark_source_archive_result (one_row running) "us1" input 3000 (some 1)))
    × ((input : AffectedCellsProofRegistrationStateUpdate)
        → Reports.mark_affected_cells_proof_registration_result fresh_table "us1" input 3000
            (some 1)
            (one_row running)
          ≡ answered (
              Outcomes.mark_affected_cells_proof_registration_result
                (one_row running)
                "us1"
                input
                3000
                (some 1)))
    × (Reports.mark_floor_census_processing fresh_table "us1" 3000 (some 1) (one_row running)
        ≡ answered (Outcomes.mark_floor_census_processing (one_row running) "us1" 3000 (some 1)))
    × ((input : FloorCensusStateUpdate)
        → Reports.mark_floor_census_result fresh_table "us1" input 3000 (some 1) (one_row running)
          ≡ answered
              (Outcomes.mark_floor_census_result (one_row running) "us1" input 3000 (some 1)))
reports_refine_example =
    reports_refine fresh_table (table-IsConditional read_stored) (one_row running) "us1" 3000
      (some 1) refl running_at_key

queue_refines_example :
    ((job message : String) (retry : ℕ)
      → (Reports.mark_queue_enqueue_failed fresh_table "us1" job 3000 retry message
          (one_row in_queue)).0
        ≡ Queue.mark_queue_enqueue_failed (one_row in_queue) "us1" job 3000 retry message)
    × ((timeout : ℕ)
        → Reports.claim_queued_for_processing fresh_table job_1 3000 timeout (one_row in_queue)
          ≡ answered (Queue.claim_queued_for_processing (one_row in_queue) job_1 3000 timeout))
    × ((job runner : String) (timeout : ℕ)
        → (Reports.record_runner_started fresh_table "us1" job runner 3000 timeout
            (one_row in_queue)).0
          ≡ Queue.record_runner_started (one_row in_queue) "us1" job runner 3000 timeout)
    × ((job : String)
        → (Reports.record_runner_stopped fresh_table "us1" job 3000 (one_row in_queue)).0
          ≡ Queue.record_runner_stopped (one_row in_queue) "us1" job 3000)
    × ((job message : String)
        → (Reports.record_runner_stop_failed fresh_table "us1" job message 3000
            (one_row in_queue)).0
          ≡ Queue.record_runner_stop_failed (one_row in_queue) "us1" job message 3000)
    × ((code : OracleErrorCode)
        → (Reports.mark_rejected fresh_table "us1" code 3000 (one_row in_queue)).0
          ≡ Queue.mark_rejected (one_row in_queue) "us1" code 3000)
queue_refines_example =
    queue_refines fresh_table (table-IsConditional read_stored) (one_row in_queue) job_1 3000 refl
      in_queue_at_key

starts_refine_example :
    (Operations.mark_workflow_started fresh_table "us1" "run-1" 2000 none (some 1) (one_row waiting)
      ≡ answered
          (Workflow.mark_workflow_started (one_row waiting) "us1" "run-1" 2000 none (some 1)))
    × (Operations.try_start_runner_workflow_exclusively fresh_table "us1" "run-1" 2000 none
          (some 1)
          (one_row waiting)
        ≡ answered (
            Workflow.try_start_runner_workflow_exclusively
              (one_row waiting)
              "us1"
              "run-1"
              2000
              none
              (some 1)))
starts_refine_example =
    starts_refine fresh_table (table-IsConditional read_stored) (one_row waiting) "us1" "run-1" 2000
      1 none refl

stop_refines_example :
    (Operations.mark_workflow_stopped stale_table "us1" 1 3000 (one_row running)
      ≡ answered (Workflow.mark_workflow_stopped (one_row running) "us1" 1 3000))
    × (Operations.update_runner_workflow_progress stale_table progress (one_row running)
        ≡ answered (Workflow.update_runner_workflow_progress (one_row running) progress))
stop_refines_example =
    stop_refines stale_table (table-IsConditional read_stale) (one_row running) "us1" 1 3000
      progress

reports_land_example :
    ((code : OracleErrorCode) (retry : ℕ) (message : Option String)
      → IsLandedOn
          (IsProcessingAttempt 1)
          (one_row overtaken)
          (Reports.mark_failed stale_table "us1" code 3000 retry message
            (some 1)
            (one_row overtaken)).0)
    × ((result : TeeCoreResult) (pending : Option ℕ)
        → IsLandedOn
            (IsProcessingAttempt 1)
            (one_row overtaken)
            (Reports.apply_runner_result stale_table text_of accept_all "us1" result 3000 pending
              (some 1)
              (one_row overtaken)).0)
    × ((success : RelayerSuccess)
        → IsLandedOn
            (IsAtAttempt 1)
            (one_row overtaken)
            (Reports.mark_relayer_succeeded stale_table "us1" success 3000
              (some 1)
              (one_row overtaken)).0)
    × ((mode : RelayerMode) (code : RelayerErrorCode) (message : String)
        → IsLandedOn
            (IsAtAttempt 1)
            (one_row overtaken)
            (Reports.mark_relayer_failed stale_table "us1" mode code message 3000
              (some 1)
              (one_row overtaken)).0)
    × ((input : SourceArchiveStateUpdate)
        → IsLandedOn
            (IsAtAttempt 1)
            (one_row overtaken)
            (Reports.mark_source_archive_result stale_table "us1" input 3000
              (some 1)
              (one_row overtaken)).0)
    × ((input : AffectedCellsProofRegistrationStateUpdate)
        → IsLandedOn
            (IsAtAttempt 1)
            (one_row overtaken)
            (Reports.mark_affected_cells_proof_registration_result stale_table "us1" input 3000
              (some 1)
              (one_row overtaken)).0)
    × IsLandedOn
        (IsAtAttempt 1)
        (one_row overtaken)
        (Reports.mark_floor_census_processing stale_table "us1" 3000 (some 1) (one_row overtaken)).0
    × ((input : FloorCensusStateUpdate)
        → IsLandedOn
            (IsAtAttempt 1)
            (one_row overtaken)
            (Reports.mark_floor_census_result stale_table "us1" input 3000
              (some 1)
              (one_row overtaken)).0)
reports_land_example =
    reports_land stale_table (table-IsConditional read_stale) text_of accept_all (one_row overtaken)
      "us1" 1 3000

abbrev candidate : UsgsEarthquakeCandidate
candidate = record {
  source_event_id = "us1";
  requested_source_event_id = none;
  occurred_at_ms = 500;
  source_updated_at_ms = 600;
  magnitude = some 6100;
  summary_mmi = none;
  alert = none;
  tsunami = false;
}

upsert_refines_example :
    Upserts.upsert_candidate fresh_table event_uid_of candidate 3000 false (one_row running)
    ≡ (Repository.upsert_candidate event_uid_of (one_row running) candidate 3000 false, ok true)
unfolding get_row base_row
upsert_refines_example =
    upsert_refines fresh_table (table-IsConditional read_stored) event_uid_of (one_row running)
      candidate 3000 false ((refl, refl), inl refl, (refl, refl))

abbrev empty_table : Repository
empty_table = record { rows = []; runner_workflow_lock = none }

manual_refines_example :
    (wrote : Bool) × (Upserts.upsert_manual_event fresh_table event_uid_of "us1" 3000
        (some "us1")
        empty_table
      ≡ (Repository.upsert_manual_event event_uid_of empty_table "us1" 3000 (some "us1"), ok wrote))
unfolding get_row
manual_refines_example =
    manual_refines fresh_table (table-IsConditional read_stored) event_uid_of "us1" 3000
      (λ repo. refl) empty_table (some "us1") tt (λ row found. absurd (cc))

abbrev stuck : EarthquakeEventRow
stuck = record (base_row "us2" 1000) {
  status = OffchainStatus.processing;
  runner_attempt = some 3;
  retry_count = 2;
}

abbrev two_rows : Repository
two_rows = record { rows = ("us1", waiting) ∷ ("us2", stuck) ∷ []; runner_workflow_lock = none }

two_pages : IsPaged fresh_table two_rows none 2 (waiting ∷ stuck ∷ [])
unfolding get_row event_rows
two_pages = IsPaged.page refl (IsPaged.last_page refl)

scan_rows-IsPaged_example :
    Recovery.scan_rows fresh_table 5 two_rows ≡ (two_rows, ok (waiting ∷ stuck ∷ []))
scan_rows-IsPaged_example =
    scan_rows-IsPaged fresh_table two_rows 5 2 (waiting ∷ stuck ∷ []) two_pages (omega arith)

two_rows-IsTable : IsTable two_rows two_rows.rows
unfolding get_row base_row
two_rows-IsTable = IsTable.entry refl refl (refl, tt) (IsTable.entry refl refl tt IsTable.empty)

recover_refines_example :
    Recovery.recover_stale_processing fresh_table 5 1500 9000 9500 two_rows
    ≡ answered (Queue.recover_stale_processing two_rows 1500 9000 9500)
recover_refines_example =
    recover_refines fresh_table (table-IsConditional read_stored) 1500 9000 9500 two_rows 5 2
      two_pages (omega arith) two_rows-IsTable

-- A table that is out of reach for writes.
abbrev down_table : Client
down_table = record {
  send = λ command repo. (Reply.other_error "timeout", repo);
  get_item = read_stored;
  scan_page = λ repo start. ok ([], none);
}

errors_surface_example :
    (Operations.mark_workflow_started down_table "us1" "run-1" 3000 (some 0) none (one_row running)
      ≡ (one_row running, throw "timeout"))
    × (Operations.try_start_runner_workflow_exclusively down_table "us1" "run-1" 3000
          (some 0)
          none
          (one_row running)
        ≡ (one_row running, throw "timeout"))
    × (Operations.mark_workflow_stopped down_table "us1" 1 3000 (one_row running)
        ≡ (one_row running, throw "timeout"))
    × (Operations.update_runner_workflow_progress down_table progress (one_row running)
        ≡ (one_row running, throw "timeout"))
    × (Reports.defer_until down_table "us1" 9000 3000 (one_row running)
        ≡ (one_row running, throw "timeout"))
    × (Operations.release_runner_workflow_lock down_table "us1" 1 (one_row running)
        ≡ (one_row running, throw "timeout"))
    × (Upserts.upsert_candidate down_table event_uid_of candidate 3000 false (one_row running)
        ≡ (one_row running, throw "timeout"))
    × (Upserts.upsert_manual_event down_table event_uid_of "us1" 3000 none (one_row running)
        ≡ (one_row running, throw "timeout"))
    × (Recovery.recover_stale_processing_row down_table running 2000 3000 9000 (one_row running)
        ≡ (one_row running, throw "timeout"))
    × (Reports.mark_failed down_table "us1" OracleErrorCode.aws_runner_timeout 3000 9000 none
          (some 1)
          (one_row running)
        ≡ (one_row running, throw "timeout"))
unfolding get_row base_row Repository.is_expected_processing
errors_surface_example =
    errors_surface down_table "timeout" (one_row running) (one_row running) (λ command. refl)
      event_uid_of candidate "us1" "run-1" 3000 0 1 2000 9000 none (some 1) running progress false
      none OracleErrorCode.aws_runner_timeout none refl refl
