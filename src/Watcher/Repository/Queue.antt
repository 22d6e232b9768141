-- ===== src/Watcher/Repository/Queue.antt =====
-- The operations of `InMemoryStateRepository` for the job queue of local scripts, and those that
-- defer, reject and recover rows (nautilus/verifiers/earthquake/watcher/src/state.ts).
use sonari.Prelude.{
  ℕ, ◌+◌, Bool, true, false, ◌&&◌, Option, none, some, String, List, [], ◌∷◌, leb, ◌==◌,
  if◌then◌else◌,
}
use text.Mathlib.Text.{◌==◌ as str_eq}
use sonari.Watcher.Types.{
  OffchainStatus, OracleErrorCode, RunnerPhase, EarthquakeEventRow, RunnerQueueJob,
}
use sonari.Watcher.Row.{is_due, is_processing, is_queued, some_le, is_number}
use sonari.Watcher.Repository.{Repository, get_row, set_row, update_if}
use sonari.Watcher.Repository.Workflow.{planned_revision}
use sonari.Watcher.Repository.Outcomes.{failed_row}

-- `row.runner_job_id === runnerJobId`
abbrev pub is_job : EarthquakeEventRow → String → Bool
is_job row runner_job_id = elim row.runner_job_id [
  | none ↦ false
  | some job ↦ str_eq job runner_job_id
]

unfoldable pub queued_row : EarthquakeEventRow → ℕ → String → ℕ → Option ℕ → EarthquakeEventRow
queued_row row attempt runner_job_id now_ms event_revision = record row {
  status = OffchainStatus.queued;
  planned_event_revision = some (planned_revision event_revision row);
  runner_job_id = some runner_job_id;
  runner_queued_at_ms = some now_ms;
  runner_attempt = some attempt;
  runner_phase = some RunnerPhase.queued;
  next_retry_at_ms = none;
  error_code = none;
  updated_at_ms = now_ms;
}

unfoldable pub enqueue_runner_job :
    Repository → String → ℕ → String → ℕ → Option ℕ → Repository × Option RunnerQueueJob
enqueue_runner_job repo id attempt runner_job_id now_ms event_revision =
    elim (get_row id repo.rows) [
      | none ↦ (repo, none)
      | some row ↦
          if is_due row.status && row.retry_count + 1 == attempt
          then (
            record repo {
              rows =
                  set_row id (queued_row row attempt runner_job_id now_ms event_revision) repo.rows;
            },
            some (record {
              runner_job_id = runner_job_id;
              source_event_id = id;
              attempt = attempt;
              event_revision = planned_revision event_revision row;
              enqueued_at_ms = now_ms;
            }),
          )
          else (repo, none)
    ]

unfoldable pub mark_queue_enqueue_failed :
    Repository → String → String → ℕ → ℕ → String → Repository
mark_queue_enqueue_failed repo id runner_job_id now_ms next_retry_at_ms message =
    (update_if repo id (λ row. is_job row runner_job_id)
      (λ row. record row {
        status = OffchainStatus.new;
        next_retry_at_ms = some next_retry_at_ms;
        runner_error_message = some message;
        updated_at_ms = now_ms;
      })).0

unfoldable pub claim_queued_for_processing : Repository → RunnerQueueJob → ℕ → ℕ → Repository × Bool
claim_queued_for_processing repo job now_ms timeout_at_ms =
    update_if repo job.source_event_id
      (λ row.
        is_queued row.status
        && is_job row job.runner_job_id
        && is_number row.runner_attempt job.attempt)
      (λ row. record row {
        status = OffchainStatus.processing;
        runner_timeout_at_ms = some timeout_at_ms;
        updated_at_ms = now_ms;
      })

unfoldable pub record_runner_started : Repository → String → String → String → ℕ → ℕ → Repository
record_runner_started repo id runner_job_id runner_id now_ms timeout_at_ms =
    (update_if repo id (λ row. is_job row runner_job_id)
      (λ row. record row {
        runner_id = some runner_id;
        runner_started_at_ms = some now_ms;
        runner_timeout_at_ms = some timeout_at_ms;
        updated_at_ms = now_ms;
      })).0

unfoldable pub record_runner_stopped : Repository → String → String → ℕ → Repository
record_runner_stopped repo id runner_job_id now_ms =
    (update_if repo id (λ row. is_job row runner_job_id)
      (λ row. record row {
        runner_stopped_at_ms = some now_ms;
        runner_stop_error = none;
        updated_at_ms = now_ms;
      })).0

unfoldable pub record_runner_stop_failed : Repository → String → String → String → ℕ → Repository
record_runner_stop_failed repo id runner_job_id message now_ms =
    (update_if repo id (λ row. is_job row runner_job_id)
      (λ row. record row { runner_stop_error = some message; updated_at_ms = now_ms })).0

unfoldable pub defer_until : Repository → String → ℕ → ℕ → Repository
defer_until repo id next_retry_at_ms now_ms =
    (update_if repo id (λ _. true)
      (λ row. record row { next_retry_at_ms = some next_retry_at_ms; updated_at_ms = now_ms })).0

unfoldable pub mark_rejected : Repository → String → OracleErrorCode → ℕ → Repository
mark_rejected repo id error_code now_ms =
    (update_if repo id (λ _. true)
      (λ row. record row {
        status = OffchainStatus.rejected;
        error_code = some error_code;
        next_retry_at_ms = none;
        updated_at_ms = now_ms;
      })).0

-- The loop of `recoverStaleProcessing` over the keys of the map. A row stands under its
-- `source_event_id`, which is what the code hands on.
unfoldable pub recover_processing_from :
    List (String × EarthquakeEventRow) → Repository → ℕ → ℕ → ℕ → ℕ → Repository × ℕ
recover_processing_from [] repo stale_before_ms now_ms next_retry_at_ms recovered =
    (repo, recovered)
recover_processing_from ((key, _) ∷ rest) repo stale_before_ms now_ms next_retry_at_ms recovered =
    let (next, did_recover) =
      update_if repo key (λ row. is_processing row.status && leb row.updated_at_ms stale_before_ms)
        (λ row. failed_row row OracleErrorCode.aws_runner_timeout now_ms next_retry_at_ms none) in
    recover_processing_from rest next stale_before_ms now_ms next_retry_at_ms
      (if did_recover then recovered + 1 else recovered)

unfoldable pub recover_stale_processing : Repository → ℕ → ℕ → ℕ → Repository × ℕ
recover_stale_processing repo stale_before_ms now_ms next_retry_at_ms =
    recover_processing_from repo.rows repo stale_before_ms now_ms next_retry_at_ms 0

-- The loop of `recoverStaleQueued`. A row in the queue with no job is counted, and left alone unless
-- its job id is the empty string.
unfoldable pub recover_queued_from :
    List (String × EarthquakeEventRow) → Repository → ℕ → ℕ → ℕ → ℕ → Repository × ℕ
recover_queued_from [] repo stale_before_ms now_ms next_retry_at_ms recovered = (repo, recovered)
recover_queued_from ((key, _) ∷ rest) repo stale_before_ms now_ms next_retry_at_ms recovered =
    let stale : Bool = elim (get_row key repo.rows) [
      | none ↦ false
      | some row ↦ is_queued row.status && some_le row.runner_queued_at_ms stale_before_ms
    ] in
    let job : String = elim (get_row key repo.rows) [
      | none ↦ ""
      | some row ↦ elim row.runner_job_id [ none ↦ "" | some job ↦ job ]
    ] in
    let next =
      if stale
      then mark_queue_enqueue_failed repo key job now_ms next_retry_at_ms
          "queued runner job was not processed before stale timeout"
      else repo in
    recover_queued_from rest next stale_before_ms now_ms next_retry_at_ms
      (if stale then recovered + 1 else recovered)

unfoldable pub recover_stale_queued : Repository → ℕ → ℕ → ℕ → Repository × ℕ
recover_stale_queued repo stale_before_ms now_ms next_retry_at_ms =
    recover_queued_from repo.rows repo stale_before_ms now_ms next_retry_at_ms 0
