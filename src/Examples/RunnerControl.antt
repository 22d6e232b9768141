-- ===== src/Examples/RunnerControl.antt =====
-- The theorems on nautilus/verifiers/earthquake/watcher/src/runner_workflow.ts at concrete inputs.
use sonari.Prelude.{ℕ, ◌≡◌, refl, Option, none, some, String, Result, [], ◌∷◌, ok, throw, arith}
use sonari.Watcher.Types.{OffchainStatus, OracleErrorCode, RunnerPhase, EarthquakeEventRow}
use sonari.Watcher.Row.Fresh.{base_row}
use sonari.Watcher.Row.Updates
use sonari.Watcher.TeeResult
use sonari.Watcher.TeeResult.{TeeCoreResult, FinalizedResult, apply_result_to_row}
use sonari.Watcher.Repository.{get_row}
use sonari.Watcher.RunnerControl
use sonari.Watcher.RunnerControl.{
  World, Action, Options, ControlEvent, Output, ParsedResult, NonFinalizedStatus,
}
use sonari.Watcher.Registration
use sonari.Watcher.Registration.{Registrar, Environment, ValidatedSubmit, Attempted, ErrorClass}
use sonari.Watcher.RunnerControl.Fencing.{stale_events, apply_result-applied}

abbrev text_of : TeeCoreResult → String
text_of result = "{}"

abbrev accept_all : FinalizedResult → Option String
accept_all result = none

abbrev pending : ParsedResult
pending =
    ParsedResult.non_finalized NonFinalizedStatus.pending_mmi "us1"
      (some OracleErrorCode.mmi_not_available)

abbrev options : Options
options = record {
  now_ms = 3000;
  stopped_at_ms = 3500;
  set_desired_capacity = λ capacity. ok tt;
  read_result = λ key. ok pending;
}

abbrev event : ControlEvent
event = record {
  source_event_id = "us1";
  attempt = some 1;
  result_s3_key = "result.json";
  inline_result = none;
  message = none;
  error_code = none;
}

abbrev no_metadata : FinalizedResult → Result ValidatedSubmit
no_metadata result = throw "invalid"

abbrev no_registrar : String → String → Registrar
no_registrar url secret input = Attempted.failed ErrorClass.other "no answer"

abbrev unset : Environment
unset = record { registrar_url = none; token_secret_arn = none }

abbrev row_with : Option ℕ → EarthquakeEventRow
row_with attempt = record (base_row "us1" 1000) {
  status = OffchainStatus.processing;
  runner_attempt = attempt;
}

abbrev world_with : Option ℕ → World
world_with attempt = record {
  repository = record { rows = ("us1", row_with attempt) ∷ []; runner_workflow_lock = none };
  capacity_requests = 1 ∷ [];
}

abbrev overtaken : World
overtaken = world_with (some 2)

abbrev IsStale : Action Output → Type 0
IsStale action = action overtaken ≡ (overtaken, throw "stale runner workflow attempt")

stale_events_example :
    IsStale (RunnerControl.start_instance options event)
    × IsStale (RunnerControl.stop_instance options event)
    × IsStale (RunnerControl.read_result options event)
    × IsStale (RunnerControl.apply_result text_of accept_all options event)
    × (Registration.register_affected_cells_proof_event no_metadata no_registrar options event none
          unset overtaken
        ≡ (overtaken, throw "stale runner workflow attempt"))
    × IsStale (RunnerControl.restore_affected_cells_proof_registration_retry options event)
    × IsStale (RunnerControl.mark_failed options event)
unfolding get_row
stale_events_example =
    stale_events options event 1 overtaken (row_with (some 2)) refl refl (λ e. ground (arith, e))
      text_of accept_all no_metadata no_registrar none unset

abbrev mmi_missing : TeeCoreResult
mmi_missing = TeeCoreResult.pending_mmi "us1" OracleErrorCode.mmi_not_available

abbrev on_time : World
on_time = world_with (some 1)

-- The row in the phase of the application, and the one that waits for a retry after it.
abbrev applying : EarthquakeEventRow
applying = record (row_with (some 1)) {
  runner_phase = some RunnerPhase.applying_result;
  updated_at_ms = 3000;
  runner_result_s3_key = some "result.json";
}

abbrev waiting : EarthquakeEventRow
waiting =
    TeeResult.apply_pending text_of applying mmi_missing OracleErrorCode.mmi_not_available 3000
      (some 3603000)

apply_result-applied_example :
    (world' : World) × (RunnerControl.apply_result text_of accept_all options event on_time
      ≡ (world', ok (Output.result_applied OffchainStatus.pending_mmi)))
    × (get_row "us1" world'.repository.rows ≡ some waiting)
    × (world'.capacity_requests ≡ 1 ∷ [])
unfolding get_row base_row Updates.apply_runner_workflow_progress apply_result_to_row
    TeeResult.apply_pending RunnerControl.read_tee_result_from_s3 RunnerControl.parse_tee_result
    RunnerControl.is_valid_non_finalized_tee_error_code
apply_result-applied_example =
    apply_result-applied options event 1 on_time (row_with (some 1)) refl refl text_of accept_all
      refl refl mmi_missing waiting refl refl
