-- ===== src/Watcher/Repository.antt =====
-- `InMemoryStateRepository` of nautilus/verifiers/earthquake/watcher/src/state.ts: the event table
-- and the lock of the one runner workflow. A method that mutates the repository returns the new
-- one. The map keeps its keys in order of insertion, and an operation writes a row back under the
-- key that it read it from.
pub mod Workflow
pub mod Outcomes
pub mod Queue
pub mod Queries
pub mod Store
pub mod Cases
use text.Mathlib.Text.{◌==◌ as str_eq}
use sonari.Prelude.{
  ℕ, ◌+◌, ◌-◌, Bool, true, false, ◌&&◌, ◌||◌, not, Option, none, some, String, List, [], ◌∷◌, map,
  leb, ltb, ◌==◌, if◌then◌else◌, coalesce, Result, ok, throw, ◌>>=◌, any, take,
}
use sonari.Watcher.Types.{
  OffchainStatus, OracleErrorCode, RunnerPhase, RelayerMode, RelayerStatus, RelayerErrorCode,
  FloorCensusStatus, EarthquakeEventRow, UsgsEarthquakeCandidate, WorkflowStartInput,
  RunnerQueueJob, RunnerWorkflowLockRow, RunnerWorkflowProgressUpdate, SourceArchiveStateUpdate,
  AffectedCellsProofRegistrationStateUpdate, FloorCensusStateUpdate, RelayerSuccess,
}
use sonari.Watcher.Row.{
  finalization_window_ms, processing_stale_after_ms, failed_retry_backoff_ms, is_due,
  is_result_terminal, is_processing, is_queued, is_new, is_ignored_small, some_le, is_number,
  is_none, screen_usgs_candidate, next_screening_status, is_ready_for_retry_or_deadline,
  is_due_affected_cells_proof_registration, is_active_runner_workflow,
}
use sonari.Watcher.Row.Fresh.{
  base_row, merge_preserving_result, reset_terminal_result_for_manual_rerun,
}
use sonari.Watcher.Row.Updates.{
  apply_source_archive_result_to_row, apply_affected_cells_proof_registration_result_to_row,
  apply_floor_census_result_to_row, apply_runner_workflow_progress,
}
use sonari.Watcher.TeeResult.{TeeCoreResult, apply_result_to_row, get_or}

abbrev pub Rows : Type 0
Rows = List (String × EarthquakeEventRow)

pub record Repository : Type 0 where
  pub rows : Rows
  pub runner_workflow_lock : Option RunnerWorkflowLockRow

unfoldable pub get_row : String → Rows → Option EarthquakeEventRow
get_row key [] = none
get_row key ((k, row) ∷ rows) = if str_eq k key then some row else get_row key rows

unfoldable pub set_row : String → EarthquakeEventRow → Rows → Rows
set_row key row [] = (key, row) ∷ []
set_row key row ((k, old) ∷ rows) =
    if str_eq k key then (k, row) ∷ rows else (k, old) ∷ set_row key row rows

-- `const row = this.rows.get(id); if (row === undefined || !guard(row)) return false;`, then the
-- assignments, then `return true`.
unfoldable pub update_if :
    Repository
    → String
    → (EarthquakeEventRow → Bool)
    → (EarthquakeEventRow → EarthquakeEventRow)
    → Repository × Bool
update_if repo key guard change = elim (get_row key repo.rows) [
  | none ↦ (repo, false)
  | some row ↦
      if guard row
      then (record repo { rows = set_row key (change row) repo.rows }, true)
      else (repo, false)
]

-- `expectedAttempt === undefined || row.runner_attempt === expectedAttempt`
unfoldable pub is_expected_attempt : Option ℕ → EarthquakeEventRow → Bool
is_expected_attempt none row = true
is_expected_attempt (some attempt) row = is_number row.runner_attempt attempt

-- The same, where a given attempt asks for a row in processing too.
unfoldable pub is_expected_processing : Option ℕ → EarthquakeEventRow → Bool
is_expected_processing none row = true
is_expected_processing (some attempt) row =
    is_processing row.status && is_number row.runner_attempt attempt

abbrev pub status_of_row : Option EarthquakeEventRow → Option OffchainStatus
status_of_row none = none
status_of_row (some row) = some row.status

-- What `upsertManualEvent` does to the row after the upsert.
unfoldable pub rerun_row : EarthquakeEventRow → ℕ → EarthquakeEventRow
rerun_row row now_ms =
    if is_result_terminal row.status
    then reset_terminal_result_for_manual_rerun row now_ms
    else if is_due row.status
    then record row { next_retry_at_ms = none; updated_at_ms = now_ms }
    else row

module _ (candidate_event_uid : UsgsEarthquakeCandidate → String) where
  -- The patched base row of `upsertCandidate`.
  unfoldable pub candidate_row :
      Option EarthquakeEventRow → UsgsEarthquakeCandidate → OffchainStatus → ℕ → EarthquakeEventRow
  candidate_row existing candidate status now_ms =
      record (base_row candidate.source_event_id now_ms) {
        requested_source_event_id = candidate.requested_source_event_id;
        event_uid =
            coalesce (elim existing [ none ↦ none | some row ↦ row.event_uid ])
              (some (candidate_event_uid candidate));
        status = status;
        retry_count = elim existing [ none ↦ 0 | some row ↦ row.retry_count ];
        next_retry_at_ms =
            if is_new status
            then none
            else elim existing [ none ↦ none | some row ↦ row.next_retry_at_ms ];
        finalization_deadline_at_ms = elim existing [
          | none ↦ candidate.occurred_at_ms + finalization_window_ms
          | some row ↦ row.finalization_deadline_at_ms
        ];
        latest_revision = elim existing [ none ↦ 0 | some row ↦ row.latest_revision ];
        last_seen_at_ms = now_ms;
        source_updated_at_ms = some candidate.source_updated_at_ms;
        error_code =
            if is_ignored_small status
            then some OracleErrorCode.watcher_below_auto_threshold
            else elim existing [ none ↦ none | some row ↦ row.error_code ];
        created_at_ms = elim existing [ none ↦ now_ms | some row ↦ row.created_at_ms ];
      }

  unfoldable pub upsert_candidate : Repository → UsgsEarthquakeCandidate → ℕ → Bool → Repository
  upsert_candidate repo candidate now_ms bypass_screening =
      let existing = get_row candidate.source_event_id repo.rows in
      let screening : OffchainStatus =
        if bypass_screening then OffchainStatus.new else screen_usgs_candidate candidate in
      let status = next_screening_status (status_of_row existing) screening in
      let row = candidate_row existing candidate status now_ms in
      record repo {
        rows =
            set_row candidate.source_event_id (merge_preserving_result existing row now_ms)
              repo.rows;
      }

  abbrev pub manual_candidate : String → Option String → ℕ → UsgsEarthquakeCandidate
  manual_candidate source_event_id requested_source_event_id now_ms = record {
    source_event_id = source_event_id;
    requested_source_event_id = requested_source_event_id;
    occurred_at_ms = now_ms;
    source_updated_at_ms = now_ms;
    magnitude = none;
    summary_mmi = none;
    alert = none;
    tsunami = false;
  }

  unfoldable pub upsert_manual_event : Repository → String → ℕ → Option String → Repository
  upsert_manual_event repo source_event_id now_ms requested_source_event_id =
      let upserted =
        upsert_candidate repo (manual_candidate source_event_id requested_source_event_id now_ms)
          now_ms true in
      (update_if upserted source_event_id (λ _. true) (λ row. rerun_row row now_ms)).0
