-- ===== src/Watcher/Repository/Outcomes.antt =====
-- The operations of `InMemoryStateRepository` that record an outcome of an attempt
-- (nautilus/verifiers/earthquake/watcher/src/state.ts).
use sonari.Prelude.{
  ℕ, ◌+◌, Bool, true, false, ◌&&◌, ◌||◌, not, Option, none, some, String, if◌then◌else◌, coalesce,
  Result, ok, ◌>>=◌,
}
use sonari.Watcher.Types.{
  OffchainStatus, OracleErrorCode, RelayerMode, RelayerStatus, RelayerErrorCode, FloorCensusStatus,
  EarthquakeEventRow, SourceArchiveStateUpdate, AffectedCellsProofRegistrationStateUpdate,
  FloorCensusStateUpdate, RelayerSuccess,
}
use sonari.Watcher.Row.{
  processing_stale_after_ms, is_number, is_none, is_due_affected_cells_proof_registration,
}
use sonari.Watcher.Row.Updates.{
  apply_source_archive_result_to_row, apply_affected_cells_proof_registration_result_to_row,
  apply_floor_census_result_to_row,
}
use sonari.Watcher.TeeResult.{TeeCoreResult, FinalizedResult, apply_result_to_row}
use sonari.Watcher.Repository.{
  Repository, get_row, set_row, update_if, is_expected_attempt, is_expected_processing,
}
use sonari.Watcher.Text.{to_lower_case, includes}

unfoldable pub failed_row :
    EarthquakeEventRow → OracleErrorCode → ℕ → ℕ → Option String → EarthquakeEventRow
failed_row row error_code now_ms next_retry_at_ms runner_error_message = record row {
  status = OffchainStatus.failed;
  retry_count = row.retry_count + 1;
  next_retry_at_ms = some next_retry_at_ms;
  error_code = some error_code;
  runner_error_message = runner_error_message;
  updated_at_ms = now_ms;
}

unfoldable pub mark_failed :
    Repository → String → OracleErrorCode → ℕ → ℕ → Option String → Option ℕ → Repository × Bool
mark_failed repo id error_code now_ms next_retry_at_ms runner_error_message expected_attempt =
    update_if repo id (is_expected_processing expected_attempt)
      (λ row. failed_row row error_code now_ms next_retry_at_ms runner_error_message)

module _ (stringify : TeeCoreResult → String)
    (validate_relayer_submit_input : FinalizedResult → Option String) where
  unfoldable pub apply_runner_result :
      Repository → String → TeeCoreResult → ℕ → Option ℕ → Option ℕ → Result (Repository × Bool)
  apply_runner_result repo id result now_ms pending_next_retry_at_ms expected_attempt =
      elim (get_row id repo.rows) [
        | none ↦ ok (repo, false)
        | some row ↦
            if not (is_expected_processing expected_attempt row) then ok (repo, false) else do
              applied ←
                  apply_result_to_row stringify validate_relayer_submit_input row result now_ms
                    pending_next_retry_at_ms
              ok (record repo { rows = set_row id applied repo.rows }, true)
      ]

abbrev pub is_submit : RelayerMode → Bool
is_submit RelayerMode.submit = true
is_submit _ = false

unfoldable pub relayed_row : EarthquakeEventRow → RelayerSuccess → ℕ → EarthquakeEventRow
relayed_row row success now_ms = record row {
  status = if is_submit success.mode then OffchainStatus.submitted else row.status;
  relayer_submitted_at_ms =
      if is_submit success.mode then some now_ms else row.relayer_submitted_at_ms;
  relayer_mode = some success.mode;
  relayer_status = some RelayerStatus.succeeded;
  relayer_request_json = some success.request_json;
  relayer_digest = success.digest;
  relayer_object_id = success.object_id;
  relayer_error_code = none;
  relayer_error_message = none;
  relayer_updated_at_ms = some now_ms;
  updated_at_ms = now_ms;
}

unfoldable pub mark_relayer_succeeded :
    Repository → String → RelayerSuccess → ℕ → Option ℕ → Repository × Bool
mark_relayer_succeeded repo id success now_ms expected_attempt =
    update_if repo id (is_expected_attempt expected_attempt) (λ row. relayed_row row success now_ms)

abbrev pub oracle_code_of : RelayerErrorCode → OracleErrorCode
oracle_code_of RelayerErrorCode.relayer_submit_failed = OracleErrorCode.relayer_submit_failed
oracle_code_of RelayerErrorCode.move_rejected = OracleErrorCode.move_rejected

-- `message.toLowerCase()` holds one of the four names of a Move abort.
unfoldable pub is_duplicate_or_stale_move_rejection : RelayerErrorCode → String → Bool
is_duplicate_or_stale_move_rejection RelayerErrorCode.relayer_submit_failed message = false
is_duplicate_or_stale_move_rejection RelayerErrorCode.move_rejected message =
    let normalized = to_lower_case message in
    includes normalized "eduplicatedisasterevent"
    || includes normalized "estaledisastereventrevision"
    || includes normalized "duplicatedisasterevent"
    || includes normalized "staledisastereventrevision"

unfoldable pub relayer_failed_row :
    EarthquakeEventRow → RelayerMode → RelayerErrorCode → String → ℕ → EarthquakeEventRow
relayer_failed_row row mode error_code message now_ms =
    let final = is_duplicate_or_stale_move_rejection error_code message in
    record row {
      relayer_mode = some mode;
      relayer_status = some RelayerStatus.failed;
      relayer_error_code = some error_code;
      relayer_error_message = some message;
      relayer_updated_at_ms = some now_ms;
      status = if final then OffchainStatus.rejected else row.status;
      next_retry_at_ms = if final then none else row.next_retry_at_ms;
      error_code = if final then some (oracle_code_of error_code) else row.error_code;
      updated_at_ms = now_ms;
    }

unfoldable pub mark_relayer_failed :
    Repository → String → RelayerMode → RelayerErrorCode → String → ℕ → Option ℕ → Repository × Bool
mark_relayer_failed repo id mode error_code message now_ms expected_attempt =
    update_if repo id (is_expected_attempt expected_attempt)
      (λ row. relayer_failed_row row mode error_code message now_ms)

unfoldable pub mark_source_archive_result :
    Repository → String → SourceArchiveStateUpdate → ℕ → Option ℕ → Repository × Bool
mark_source_archive_result repo id input now_ms expected_attempt =
    update_if repo id (is_expected_attempt expected_attempt)
      (λ row. apply_source_archive_result_to_row row input now_ms expected_attempt)

unfoldable pub mark_affected_cells_proof_registration_result :
    Repository
    → String
    → AffectedCellsProofRegistrationStateUpdate
    → ℕ
    → Option ℕ
    → Repository × Bool
mark_affected_cells_proof_registration_result repo id input now_ms expected_attempt =
    update_if repo id (is_expected_attempt expected_attempt) (λ row.
      apply_affected_cells_proof_registration_result_to_row row input now_ms expected_attempt)

abbrev pub is_census_succeeded : Option FloorCensusStatus → Bool
is_census_succeeded (some FloorCensusStatus.succeeded) = true
is_census_succeeded _ = false

unfoldable pub mark_floor_census_processing : Repository → String → ℕ → Option ℕ → Repository × Bool
mark_floor_census_processing repo id now_ms expected_attempt =
    update_if repo id
      (λ row.
        not (is_census_succeeded row.floor_census_status)
        && is_expected_attempt expected_attempt row)
      (λ row. record row {
        floor_census_status = some FloorCensusStatus.processing;
        floor_census_attempt = coalesce expected_attempt row.runner_attempt;
        floor_census_updated_at_ms = some now_ms;
        updated_at_ms = now_ms;
      })

unfoldable pub mark_floor_census_result :
    Repository → String → FloorCensusStateUpdate → ℕ → Option ℕ → Repository × Bool
mark_floor_census_result repo id input now_ms expected_attempt =
    update_if repo id (is_expected_attempt expected_attempt)
      (λ row. apply_floor_census_result_to_row row input now_ms expected_attempt)

-- The claimed attempt and result key, where both are there.
abbrev pub claimed : EarthquakeEventRow → Option (ℕ × String)
claimed row = elim row.runner_attempt [
  | none ↦ none
  | some attempt ↦ elim row.runner_result_s3_key [ none ↦ none | some key ↦ some (attempt, key) ]
]

-- The condition under which a retry of the registration is claimed.
unfoldable pub can_claim_registration : EarthquakeEventRow → ℕ → ℕ → Bool
can_claim_registration row expected_next_retry_at_ms now_ms =
    is_due_affected_cells_proof_registration row now_ms
    && is_number row.affected_cells_proof_registration_next_retry_at_ms expected_next_retry_at_ms
    && not (is_none row.runner_attempt)
    && not (is_none row.runner_result_s3_key)

unfoldable pub registration_claimed_row : EarthquakeEventRow → ℕ → EarthquakeEventRow
registration_claimed_row row now_ms = record row {
  affected_cells_proof_registration_next_retry_at_ms = some (now_ms + processing_stale_after_ms);
  affected_cells_proof_registration_updated_at_ms = some now_ms;
  updated_at_ms = now_ms;
}

unfoldable pub claim_affected_cells_proof_registration_retry :
    Repository → String → ℕ → ℕ → Repository × Option (ℕ × String)
claim_affected_cells_proof_registration_retry repo id expected_next_retry_at_ms now_ms =
    elim (get_row id repo.rows) [
      | none ↦ (repo, none)
      | some row ↦
          if can_claim_registration row expected_next_retry_at_ms now_ms
          then (
            record repo { rows = set_row id (registration_claimed_row row now_ms) repo.rows },
            claimed row,
          )
          else (repo, none)
    ]
