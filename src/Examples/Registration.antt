-- ===== src/Examples/Registration.antt =====
-- A registration that fails and is tried again, at a concrete input
-- (nautilus/verifiers/earthquake/watcher/src/runner_workflow.ts).
use sonari.Prelude.{◌≡◌, ◌≢◌, refl, none, some, String, Result, ok, true, false}
use sonari.Watcher.Types.{EarthquakeEventRow, SourceArchiveStatus}
use sonari.Watcher.Row.{is_due_affected_cells_proof_registration}
use sonari.Watcher.Row.Fresh.{base_row}
use sonari.Watcher.TeeResult.{TeeCoreResult, FinalizedResult}
use sonari.Watcher.Registration.{
  Registrar, Environment, Attempted, ErrorClass, RegistrationInput, ValidatedSubmit,
  affected_cells_proof_registration_input, register_affected_cells_proof_action,
}
use sonari.Watcher.Registration.Retries.{recorded, registration-due}

abbrev result : FinalizedResult
result = record {
  event_uid = "0x01";
  event_revision = 1;
  verified_at_ms = 2000;
  manifest_source_updated_at_ms = none;
  payload_bcs_hex = "0x";
  signature = "0x";
  public_key = "0x";
}

abbrev validate : FinalizedResult → Result ValidatedSubmit
validate r = ok (record {
  event_uid = r.event_uid;
  event_revision = r.event_revision;
  affected_cells_root = "0x02";
  affected_cells_ref = some ("walrus://cells", "0x03");
  evidence_manifest = some (5, 7);
})

abbrev input : RegistrationInput
input = record {
  event_uid = "0x01";
  event_revision = 1;
  affected_cells_uri = "walrus://cells";
  affected_cells_hash = "0x03";
  affected_cells_root = "0x02";
  affected_cell_count = 5;
  geo_resolution = 7;
}

abbrev busy : Registrar
busy i = Attempted.failed ErrorClass.retryable "the registrar answered 503"

abbrev by_http : String → String → Registrar
by_http url secret = busy

abbrev env : Environment
env = record { registrar_url = none; token_secret_arn = none }

abbrev archived_row : EarthquakeEventRow
archived_row = record (base_row "us1" 1000) {
  source_archive_status = some SourceArchiveStatus.success;
  runner_result_s3_key = some "result.json";
  runner_attempt = some 1;
}

some-none {ℓ} : {A : Type ℓ} {a : A} → some a ≢ none
some-none e = cc

input_of_result : affected_cells_proof_registration_input (validate result) ≡ Attempted.done input
unfolding affected_cells_proof_registration_input
input_of_result = refl

-- The retry is not due one millisecond before the end of the backoff.
registration-due_example :
    is_due_affected_cells_proof_registration
      (recorded archived_row 3000 (some 1) (
        register_affected_cells_proof_action validate by_http
          (TeeCoreResult.finalized result)
          (some busy)
          env
          true))
      602999
    ≡ false
registration-due_example =
    registration-due validate by_http result busy env input archived_row 3000 602999 (some 1) refl
      some-none some-none input_of_result
