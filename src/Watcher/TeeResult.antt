-- ===== src/Watcher/TeeResult.antt =====
-- `applyResultToRow` of nautilus/verifiers/earthquake/watcher/src/state.ts: what the enclave's result
-- does to a row. Two functions are parameters: `stringify`, the JSON text that the row keeps of a
-- result, and `validate_relayer_submit_input` of earthquake/shared/src/index.ts, of which the row
-- only sees whether it refuses a finalized result, and with which message.
use sonari.Prelude.{ℕ, ◌+◌, Option, none, some, String, Result, ok, throw, coalesce}
use sonari.Watcher.Types.{OffchainStatus, OracleErrorCode, RunnerPhase, EarthquakeEventRow}
use sonari.Watcher.Row.{failed_retry_backoff_ms}

-- The parts of a signed finalized payload that a row takes over.
pub record FinalizedResult : Type 0 where
  pub event_uid : String
  pub event_revision : ℕ
  pub verified_at_ms : ℕ
  pub manifest_source_updated_at_ms : Option ℕ
  pub payload_bcs_hex : String
  pub signature : String
  pub public_key : String

pub data TeeCoreResult : Type 0 where
  pending_source : String → OracleErrorCode → TeeCoreResult
  pending_mmi : String → OracleErrorCode → TeeCoreResult
  rejected : String → OracleErrorCode → TeeCoreResult
  finalized : FinalizedResult → TeeCoreResult

abbrev pub get_or : Option ℕ → ℕ → ℕ
get_or none b = b
get_or (some a) b = a

abbrev pub tee_status : TeeCoreResult → OffchainStatus
tee_status (pending_source id code) = OffchainStatus.pending_source
tee_status (pending_mmi id code) = OffchainStatus.pending_mmi
tee_status (rejected id code) = OffchainStatus.rejected
tee_status (finalized result) = OffchainStatus.finalized

module _ (stringify : TeeCoreResult → String) where
  unfoldable pub apply_finalized : EarthquakeEventRow → FinalizedResult → ℕ → EarthquakeEventRow
  apply_finalized row result now_ms = record row {
    tee_result_json = some (stringify (finalized result));
    updated_at_ms = now_ms;
    error_code = none;
    runner_phase = some RunnerPhase.complete;
    status = OffchainStatus.finalized;
    next_retry_at_ms = none;
    event_uid = some result.event_uid;
    latest_revision = result.event_revision;
    source_updated_at_ms = some (get_or result.manifest_source_updated_at_ms result.verified_at_ms);
    payload_bcs_hex = some result.payload_bcs_hex;
    signature = some result.signature;
    public_key = some result.public_key;
    finalized_at_ms = some now_ms;
    source_archive_status = none;
    source_archive_error_code = none;
    source_archive_attempt = none;
    source_artifact_s3_keys_json = none;
    walrus_archive_updated_at_ms = none;
    affected_cells_proof_registration_status = none;
    affected_cells_proof_registration_error_code = none;
    affected_cells_proof_registration_attempt = none;
    affected_cells_proof_registration_next_retry_at_ms = none;
    affected_cells_proof_registration_error_message = none;
    affected_cells_proof_registration_updated_at_ms = none;
    floor_census_status = none;
    floor_census_attempt = none;
    floor_census_retry_count = 0;
    floor_census_digest = none;
    floor_census_counts_json = none;
    floor_census_error_message = none;
    floor_census_updated_at_ms = none;
  }

  -- A result that is no final decision: `retry_count` counts it as an attempt.
  unfoldable pub apply_pending :
      EarthquakeEventRow → TeeCoreResult → OracleErrorCode → ℕ → Option ℕ → EarthquakeEventRow
  apply_pending row result error_code now_ms pending_next_retry_at_ms = record row {
    tee_result_json = some (stringify result);
    updated_at_ms = now_ms;
    error_code = some error_code;
    runner_phase = some RunnerPhase.complete;
    status = tee_status result;
    retry_count = row.retry_count + 1;
    next_retry_at_ms = coalesce pending_next_retry_at_ms (some (now_ms + failed_retry_backoff_ms));
  }

  unfoldable pub apply_rejected :
      EarthquakeEventRow → TeeCoreResult → OracleErrorCode → ℕ → EarthquakeEventRow
  apply_rejected row result error_code now_ms = record row {
    tee_result_json = some (stringify result);
    updated_at_ms = now_ms;
    error_code = some error_code;
    runner_phase = some RunnerPhase.complete;
    status = OffchainStatus.rejected;
    next_retry_at_ms = none;
  }

  module _ (validate_relayer_submit_input : FinalizedResult → Option String) where
    unfoldable pub apply_result_to_row :
        EarthquakeEventRow → TeeCoreResult → ℕ → Option ℕ → Result EarthquakeEventRow
    unfolding apply_finalized apply_pending apply_rejected
    apply_result_to_row row (finalized result) now_ms pending =
        elim (validate_relayer_submit_input result) [
          | none ↦ ok (apply_finalized row result now_ms)
          | some message ↦ throw "invalid finalized TEE result metadata"
        ]
    apply_result_to_row row (rejected id code) now_ms pending =
        ok (apply_rejected row (rejected id code) code now_ms)
    apply_result_to_row row (pending_source id code) now_ms pending =
        ok (apply_pending row (pending_source id code) code now_ms pending)
    apply_result_to_row row (pending_mmi id code) now_ms pending =
        ok (apply_pending row (pending_mmi id code) code now_ms pending)
