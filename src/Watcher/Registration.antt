-- ===== src/Watcher/Registration.antt =====
-- The registration of the affected cells of a finalized result, an action of
-- `createRunnerControlHandler` of nautilus/verifiers/earthquake/watcher/src/runner_workflow.ts: the
-- call of the registrar, the outcome by the class of its error, and what is recorded of it. The
-- registrars themselves and `validateRelayerSubmitInput` are parameters.
pub mod Retries
use text.Mathlib.Text.{◌==◌ as str_eq}
use sonari.Prelude.{
  ℕ, ◌+◌, Bool, true, false, Option, none, some, String, Result, ok, throw, if◌then◌else◌,
}
use sonari.Watcher.Types.{
  EarthquakeEventRow, RunnerPhase, AffectedCellsProofRegistrationStatus,
  AffectedCellsProofRegistrationErrorCode, AffectedCellsProofRegistrationStateUpdate,
}
use sonari.Watcher.Row.{is_archive_success}
use sonari.Watcher.TeeResult.{TeeCoreResult, FinalizedResult}
use sonari.Watcher.Repository.{get_row}
use sonari.Watcher.Repository.Outcomes
use sonari.Watcher.RunnerControl.{
  Options, ControlEvent, Action, ◌>>=◌, return, lift, require_marked,
  require_current_workflow_attempt, read_tee_result_from_s3, source_archive_retry_backoff_ms,
}

pub record RegistrationInput : Type 0 where
  pub event_uid : String
  pub event_revision : ℕ
  pub affected_cells_uri : String
  pub affected_cells_hash : String
  pub affected_cells_root : String
  pub affected_cell_count : ℕ
  pub geo_resolution : ℕ

-- The three classes of errors of the registrar, and any other error.
pub data ErrorClass : Type 0 where
  configuration integrity retryable other : ErrorClass

pub data Attempted {ℓ} (A : Type ℓ) : Type ℓ where
  done : A → Attempted A
  failed : ErrorClass → String → Attempted A

-- `AffectedCellsProofRegistrarAdapter`
abbrev pub Registrar : Type 0
Registrar = RegistrationInput → Attempted (Unit {0})

-- The variables `AFFECTED_PROOF_REGISTRAR_URL` and `AFFECTED_PROOF_REGISTRAR_TOKEN_SECRET_ARN`.
pub record Environment : Type 0 where
  pub registrar_url : Option String
  pub token_secret_arn : Option String

-- The fields of a validated result that a registration uses.
pub record ValidatedSubmit : Type 0 where
  pub event_uid : String
  pub event_revision : ℕ
  pub affected_cells_root : String
  -- The uri and the source hash.
  pub affected_cells_ref : Option (String × String)
  -- The total cell count and the resolution.
  pub evidence_manifest : Option (ℕ × ℕ)

-- The outcome of an attempt.
pub data Registration : Type 0 where
  skipped success : Registration
  configuration_failed retryable_failed integrity_failed : String → Registration

abbrev pub registration_status : Registration → AffectedCellsProofRegistrationStatus
registration_status skipped = AffectedCellsProofRegistrationStatus.skipped
registration_status success = AffectedCellsProofRegistrationStatus.success
registration_status (configuration_failed m) =
    AffectedCellsProofRegistrationStatus.configuration_failed
registration_status (retryable_failed m) = AffectedCellsProofRegistrationStatus.retryable_failed
registration_status (integrity_failed m) = AffectedCellsProofRegistrationStatus.integrity_failed

unfoldable pub affected_cells_proof_registration_failure : ErrorClass → String → Registration
affected_cells_proof_registration_failure configuration message = configuration_failed message
affected_cells_proof_registration_failure integrity message = integrity_failed message
affected_cells_proof_registration_failure retryable message = retryable_failed message
affected_cells_proof_registration_failure other message = retryable_failed message

unfoldable pub affected_cells_proof_registration_input :
    Result ValidatedSubmit → Attempted RegistrationInput
affected_cells_proof_registration_input (throw message) = failed integrity message
affected_cells_proof_registration_input (ok value) = elim value.affected_cells_ref [
  | none ↦ failed integrity "finalized result is missing affected cells registration metadata"
  | some (uri, source_hash) ↦ elim value.evidence_manifest [
    | none ↦ failed integrity "finalized result is missing affected cells registration metadata"
    | some (total_cell_count, geo_resolution) ↦ done (record {
      event_uid = value.event_uid;
      event_revision = value.event_revision;
      affected_cells_uri = uri;
      affected_cells_hash = source_hash;
      affected_cells_root = value.affected_cells_root;
      affected_cell_count = total_cell_count;
      geo_resolution = geo_resolution;
    })
  ]
]

unfoldable pub affected_cells_proof_registration_state_update :
    Registration → ℕ → AffectedCellsProofRegistrationStateUpdate
affected_cells_proof_registration_state_update (retryable_failed text) now_ms = record {
  status = AffectedCellsProofRegistrationStatus.retryable_failed;
  error_code = some AffectedCellsProofRegistrationErrorCode.registration_retryable_failed;
  retryable_next_retry_at_ms = some (now_ms + source_archive_retry_backoff_ms);
  message = some text;
}
affected_cells_proof_registration_state_update (configuration_failed text) now_ms = record {
  status = AffectedCellsProofRegistrationStatus.configuration_failed;
  error_code = some AffectedCellsProofRegistrationErrorCode.registration_configuration_failed;
  retryable_next_retry_at_ms = none;
  message = some text;
}
affected_cells_proof_registration_state_update (integrity_failed text) now_ms = record {
  status = AffectedCellsProofRegistrationStatus.integrity_failed;
  error_code = some AffectedCellsProofRegistrationErrorCode.registration_integrity_failed;
  retryable_next_retry_at_ms = none;
  message = some text;
}
affected_cells_proof_registration_state_update skipped now_ms = record {
  status = AffectedCellsProofRegistrationStatus.skipped;
  error_code = none;
  retryable_next_retry_at_ms = none;
  message = none;
}
affected_cells_proof_registration_state_update success now_ms = record {
  status = AffectedCellsProofRegistrationStatus.success;
  error_code = none;
  retryable_next_retry_at_ms = none;
  message = none;
}

-- `await input.registrar.register(registrationInput)` and its `catch`.
abbrev pub registered : Attempted (Unit {0}) → Registration
registered (done answer) = success
registered (failed configuration message) = configuration_failed message
registered (failed integrity message) = integrity_failed message
registered (failed retryable message) = retryable_failed message
registered (failed other message) = retryable_failed message

abbrev pub registration_of : Attempted Registration → Registration
registration_of (done registration) = registration
registration_of (failed class message) = affected_cells_proof_registration_failure class message

-- `row?.source_archive_status === "success"`
abbrev pub source_archive_succeeded : Option EarthquakeEventRow → Bool
source_archive_succeeded none = false
source_archive_succeeded (some row) = is_archive_success row.source_archive_status

module _ (validate_relayer_submit_input : FinalizedResult → Result ValidatedSubmit)
    (http_registrar : String → String → Registrar) where
  unfoldable pub build_affected_cells_proof_registrar_from_config :
      Environment → Attempted (Option Registrar)
  build_affected_cells_proof_registrar_from_config env = elim env.registrar_url [
    | none ↦ done none
    | some url ↦ if str_eq url "" then done none else elim env.token_secret_arn [
      | none ↦
          failed configuration
            "AFFECTED_PROOF_REGISTRAR_TOKEN_SECRET_ARN is required with AFFECTED_PROOF_REGISTRAR_URL"
      | some secret ↦
          if str_eq secret ""
          then failed configuration
              "AFFECTED_PROOF_REGISTRAR_TOKEN_SECRET_ARN is required with AFFECTED_PROOF_REGISTRAR_URL"
          else done (some (http_registrar url secret))
    ]
  ]

  -- A failure is an error that leaves the function.
  unfoldable pub register_affected_cells_proof :
      TeeCoreResult → Option Registrar → Bool → Attempted Registration
  register_affected_cells_proof (TeeCoreResult.finalized result) (some register) true =
      elim (affected_cells_proof_registration_input (validate_relayer_submit_input result)) [
        | failed class message ↦ failed class message
        | done input ↦ done (registered (register input))
      ]
  register_affected_cells_proof result registrar source_archive_succeeded = done skipped

  -- `input.registrar ?? buildAffectedCellsProofRegistrarFromConfig()`
  abbrev pub registrar_or : Option Registrar → Environment → Attempted (Option Registrar)
  registrar_or (some registrar) env = done (some registrar)
  registrar_or none env = build_affected_cells_proof_registrar_from_config env

  unfoldable pub register_affected_cells_proof_action :
      TeeCoreResult → Option Registrar → Environment → Bool → Registration
  register_affected_cells_proof_action result registrar env source_archive_succeeded =
      elim (registrar_or registrar env) [
        | failed class message ↦ affected_cells_proof_registration_failure class message
        | done configured ↦
            registration_of
              (register_affected_cells_proof result configured source_archive_succeeded)
      ]

  -- The call of the registrar and of `markAffectedCellsProofRegistrationResult`.
  unfoldable pub register_read :
      Options
      → ControlEvent
      → Option Registrar
      → Environment
      → TeeCoreResult
      → Action AffectedCellsProofRegistrationStatus
  register_read options event registrar env result world =
      let registration =
        register_affected_cells_proof_action result registrar env
          (source_archive_succeeded (get_row event.source_event_id world.repository.rows)) in
      (require_marked (λ repository.
            Outcomes.mark_affected_cells_proof_registration_result repository event.source_event_id
              (affected_cells_proof_registration_state_update registration options.now_ms)
              options.now_ms event.attempt)
          >>= λ marked. return (registration_status registration))
        world

  unfoldable pub register_affected_cells_proof_event :
      Options
      → ControlEvent
      → Option Registrar
      → Environment
      → Action AffectedCellsProofRegistrationStatus
  register_affected_cells_proof_event options event registrar env = do
    current ←
        require_current_workflow_attempt options event RunnerPhase.registering_affected_cells_proof
          (some event.result_s3_key) true
    result ← lift (read_tee_result_from_s3 options event)
    register_read options event registrar env result
