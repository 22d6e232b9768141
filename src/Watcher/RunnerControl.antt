-- ===== src/Watcher/RunnerControl.antt =====
-- Actions of `createRunnerControlHandler` of
-- nautilus/verifiers/earthquake/watcher/src/runner_workflow.ts over the repository in memory: the
-- start and the stop of the instance, the reading and the application of the enclave's result, a
-- failure, and the restoring of a registration retry. The repository is configured. An event reads the
-- clock once, but a stop reads it twice. An output leaves out what it echoes of its event.
pub mod Fencing
use text.Mathlib.Text.{◌==◌ as str_eq}
use sonari.Prelude.{
  ℕ, ◌+◌, Bool, true, false, not, Option, none, some, String, List, [], ◌∷◌, coalesce, Result, ok,
  throw, ◌>>◌, require, if◌then◌else◌,
}
use sonari.Watcher.Types.{
  OffchainStatus, OracleErrorCode, RunnerPhase, RunnerWorkflowProgressUpdate,
  AffectedCellsProofRegistrationStatus, AffectedCellsProofRegistrationErrorCode,
  AffectedCellsProofRegistrationStateUpdate,
}
use sonari.Watcher.Row.{failed_retry_backoff_ms}
use sonari.Watcher.TeeResult.{TeeCoreResult, FinalizedResult, tee_status}
use sonari.Watcher.Repository.{Repository}
use sonari.Watcher.Repository.Workflow
use sonari.Watcher.Repository.Outcomes

abbrev pub hour_ms : ℕ
hour_ms = 3600000

abbrev pub source_archive_retry_backoff_ms : ℕ
source_archive_retry_backoff_ms = failed_retry_backoff_ms

-- What `JSON.parse` gives of a result, as `parseTeeResult` tells it apart: a finalized one with the
-- answer of `validateRelayerSubmitInput` and the `source_event_id` of its payload, one of the other
-- three statuses with its id and its error code, where that is one of `ERROR_CODES`, or neither.
pub data NonFinalizedStatus : Type 0 where
  pending_source pending_mmi rejected : NonFinalizedStatus

pub data ParsedResult : Type 0 where
  finalized : Result (FinalizedResult × Option String) → ParsedResult
  non_finalized : NonFinalizedStatus → String → Option OracleErrorCode → ParsedResult
  neither : ParsedResult

pub data Output : Type 0 where
  capacity : ℕ → Output
  result_read : OffchainStatus → Output
  result_applied : OffchainStatus → Output
  retry_restored failed : Output

-- The fields that the events of the actions share.
pub record ControlEvent : Type 0 where
  pub source_event_id : String
  pub attempt : Option ℕ
  pub result_s3_key : String
  pub inline_result : Option ParsedResult
  pub message : Option String
  pub error_code : Option (String × Option OracleErrorCode)

-- The time, the time that a stop reads once its request has been answered, and what the clients of AWS answer: the reply to a request of a capacity, and the text of
-- an object, parsed.
pub record Options : Type 0 where
  pub now_ms : ℕ
  pub stopped_at_ms : ℕ
  pub set_desired_capacity : ℕ → Result (Unit {0})
  pub read_result : String → Result ParsedResult

-- The table, and the capacities that were requested, the last one first.
pub record World : Type 0 where
  pub repository : Repository
  pub capacity_requests : List ℕ

abbrev pub Action {ℓ} : Type ℓ → Type ℓ
Action A = World → World × Result A

module _ {ℓ κ} {A : Type ℓ} {B : Type κ} where
  infixl 5 ◌>>=◌
  abbrev pub ◌>>=◌ : Action A → (A → Action B) → Action B
  (action >>= next) world = elim (action world).1 [
    | ok value ↦ next value (action world).0
    | throw message ↦ ((action world).0, throw message)
  ]

abbrev pub return {ℓ} : {A : Type ℓ} → A → Action A
return value world = (world, ok value)

abbrev pub lift {ℓ} : {A : Type ℓ} → Result A → Action A
lift result world = (world, result)

-- `if (!marked) throw new Error("stale runner workflow attempt");` after a call of the repository.
unfoldable pub require_marked : (Repository → Repository × Bool) → Action (Unit {0})
require_marked mark world =
    let (repository, marked) = mark world.repository in
    (record world { repository = repository }, require marked "stale runner workflow attempt")

unfoldable pub set_runner_desired_capacity : Options → ℕ → Action (Unit {0})
set_runner_desired_capacity options desired_capacity world = (
  record world { capacity_requests = desired_capacity ∷ world.capacity_requests },
  options.set_desired_capacity desired_capacity,
)

abbrev pub progress :
    ControlEvent → ℕ → RunnerPhase → Option String → Bool → ℕ → RunnerWorkflowProgressUpdate
progress event attempt phase result_s3_key allow_non_processing now_ms = record {
  source_event_id = event.source_event_id;
  attempt = attempt;
  phase = phase;
  now_ms = now_ms;
  instance_id = none;
  command_id = none;
  result_s3_key = result_s3_key;
  last_poll_at_ms = none;
  allow_non_processing = allow_non_processing;
}

unfoldable pub require_current_workflow_attempt :
    Options → ControlEvent → RunnerPhase → Option String → Bool → Action (Unit {0})
require_current_workflow_attempt options event phase result_s3_key allow_non_processing =
    elim event.attempt [
      | none ↦ lift (throw "runner workflow attempt is required")
      | some attempt ↦ require_marked (λ repository.
          Workflow.update_runner_workflow_progress repository
            (progress event attempt phase result_s3_key allow_non_processing options.now_ms))
    ]

unfoldable pub is_valid_non_finalized_tee_error_code : NonFinalizedStatus → OracleErrorCode → Bool
is_valid_non_finalized_tee_error_code pending_source OracleErrorCode.usgs_detail_unavailable = true
is_valid_non_finalized_tee_error_code pending_source OracleErrorCode.shakemap_product_missing = true
is_valid_non_finalized_tee_error_code pending_source OracleErrorCode.shakemap_grid_unavailable =
    true
is_valid_non_finalized_tee_error_code pending_source _ = false
is_valid_non_finalized_tee_error_code pending_mmi OracleErrorCode.mmi_not_available = true
is_valid_non_finalized_tee_error_code pending_mmi _ = false
is_valid_non_finalized_tee_error_code rejected _ = true

abbrev pub non_finalized_result : NonFinalizedStatus → String → OracleErrorCode → TeeCoreResult
non_finalized_result pending_source id code = TeeCoreResult.pending_source id code
non_finalized_result pending_mmi id code = TeeCoreResult.pending_mmi id code
non_finalized_result rejected id code = TeeCoreResult.rejected id code

unfoldable pub parse_tee_result : ParsedResult → String → Result TeeCoreResult
parse_tee_result (finalized (throw message)) expected = throw "invalid finalized TEE result"
parse_tee_result (finalized (ok (result, none))) expected =
    throw "invalid finalized TEE result: payload.source_event_id is missing"
parse_tee_result (finalized (ok (result, some id))) expected =
    require (str_eq id expected) "TEE result source_event_id mismatch"
    >> ok (TeeCoreResult.finalized result)
parse_tee_result (non_finalized status id none) expected =
    require (str_eq id expected) "TEE result source_event_id mismatch"
    >> throw "invalid non-finalized TEE result error_code"
parse_tee_result (non_finalized status id (some code)) expected =
    require (str_eq id expected) "TEE result source_event_id mismatch"
    >> (require (is_valid_non_finalized_tee_error_code status code)
          "invalid non-finalized TEE result error_code"
        >> ok (non_finalized_result status id code))
parse_tee_result neither expected = throw "invalid TEE result"

abbrev pub parse_read : Result ParsedResult → String → Result TeeCoreResult
parse_read (throw message) expected = throw message
parse_read (ok parsed) expected = parse_tee_result parsed expected

unfoldable pub read_tee_result_from_s3 : Options → ControlEvent → Result TeeCoreResult
read_tee_result_from_s3 options event = elim event.inline_result [
  | some parsed ↦ parse_tee_result parsed event.source_event_id
  | none ↦
      if str_eq event.result_s3_key ""
      then throw "result_s3_key is required"
      else parse_read (options.read_result event.result_s3_key) event.source_event_id
]

abbrev pub is_pending_tee_result : TeeCoreResult → Bool
is_pending_tee_result (TeeCoreResult.pending_source id code) = true
is_pending_tee_result (TeeCoreResult.pending_mmi id code) = true
is_pending_tee_result _ = false

-- `readRunnerFailureErrorCode`
unfoldable pub read_runner_failure_error_code :
    Option (String × Option OracleErrorCode) → Result OracleErrorCode
read_runner_failure_error_code none = ok OracleErrorCode.aws_runner_process_failed
read_runner_failure_error_code (some (text, none)) = throw "invalid runner error_code"
read_runner_failure_error_code (some (text, some code)) = ok code

-- `event.message ?? event.error_code ?? "runner workflow failed"`
abbrev pub failure_message : ControlEvent → String
failure_message event = elim event.message [
  | some message ↦ message
  | none ↦ elim event.error_code [ some (text, code) ↦ text | none ↦ "runner workflow failed" ]
]

unfoldable pub start_instance : Options → ControlEvent → Action Output
start_instance options event = do
  current ← require_current_workflow_attempt options event RunnerPhase.starting_instance none false
  requested ← set_runner_desired_capacity options 1
  return (Output.capacity 1)

-- The end of `stop_instance`.
unfoldable pub mark_stopped : Options → ControlEvent → Action Output
mark_stopped options event = elim event.attempt [
  | none ↦ return (Output.capacity 0)
  | some attempt ↦
      require_marked (λ repository.
        Workflow.mark_workflow_stopped repository event.source_event_id attempt
          options.stopped_at_ms)
      >>= λ stopped. return (Output.capacity 0)
]

unfoldable pub stop_instance : Options → ControlEvent → Action Output
stop_instance options event = do
  current ← require_current_workflow_attempt options event RunnerPhase.stopping_instance none true
  requested ← set_runner_desired_capacity options 0
  mark_stopped options event

unfoldable pub read_result : Options → ControlEvent → Action Output
read_result options event = do
  current ←
      require_current_workflow_attempt options event RunnerPhase.reading_result
        (some event.result_s3_key) false
  result ← lift (read_tee_result_from_s3 options event)
  return (Output.result_read (tee_status result))

-- The same check, where the call of the repository may throw.
unfoldable pub require_applied : (Repository → Result (Repository × Bool)) → Action (Unit {0})
require_applied apply world = elim (apply world.repository) [
  | throw message ↦ (world, throw message)
  | ok outcome ↦ require_marked (λ _. outcome) world
]

module _ (stringify : TeeCoreResult → String)
    (validate_relayer_submit_input : FinalizedResult → Option String) where
  -- The call of `applyRunnerResult`.
  unfoldable pub apply_read : Options → ControlEvent → TeeCoreResult → Action Output
  apply_read options event result =
      require_applied (λ repository.
        Outcomes.apply_runner_result stringify validate_relayer_submit_input repository
          event.source_event_id result options.now_ms
          (if is_pending_tee_result result then some (options.now_ms + hour_ms) else none)
          event.attempt)
      >>= λ applied. return (Output.result_applied (tee_status result))

  unfoldable pub apply_result : Options → ControlEvent → Action Output
  apply_result options event = do
    current ←
        require_current_workflow_attempt options event RunnerPhase.applying_result
          (some event.result_s3_key) false
    result ← lift (read_tee_result_from_s3 options event)
    apply_read options event result

abbrev pub restored_update : ControlEvent → ℕ → AffectedCellsProofRegistrationStateUpdate
restored_update event now_ms = record {
  status = AffectedCellsProofRegistrationStatus.retryable_failed;
  error_code = some AffectedCellsProofRegistrationErrorCode.registration_retryable_failed;
  retryable_next_retry_at_ms = some (now_ms + source_archive_retry_backoff_ms);
  message = some (elim event.message [
    | none ↦ "affected cells proof registration retry failed"
    | some message ↦ message
  ]);
}

unfoldable pub restore_affected_cells_proof_registration_retry :
    Options → ControlEvent → Action Output
restore_affected_cells_proof_registration_retry options event = do
  marked ← require_marked (λ repository.
      Outcomes.mark_affected_cells_proof_registration_result repository event.source_event_id
        (restored_update event options.now_ms) options.now_ms event.attempt)
  return Output.retry_restored

unfoldable pub mark_failed : Options → ControlEvent → Action Output
mark_failed options event = do
  current ← require_current_workflow_attempt options event RunnerPhase.complete none true
  error_code ← lift (read_runner_failure_error_code event.error_code)
  marked ← require_marked (λ repository.
      Outcomes.mark_failed repository event.source_event_id error_code options.now_ms
        (options.now_ms + failed_retry_backoff_ms) (some (failure_message event)) event.attempt)
  return Output.failed
