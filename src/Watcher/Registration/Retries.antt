-- ===== src/Watcher/Registration/Retries.antt =====
-- When a registration is tried again
-- (nautilus/verifiers/earthquake/watcher/src/runner_workflow.ts and state.ts).
use sonari.Prelude.{
  ℕ, ◌+◌, ◌≡◌, ◌≢◌, refl, ap, ◌∙◌, Bool, true, false, ◌&&◌, Option, none, some, String, Result,
  arith, leb,
}
use sonari.Watcher.Types.{EarthquakeEventRow}
use sonari.Watcher.Row.{is_due_affected_cells_proof_registration, is_archive_success}
use sonari.Watcher.Row.Updates.{apply_affected_cells_proof_registration_result_to_row}
use sonari.Watcher.TeeResult.{TeeCoreResult, FinalizedResult}
use sonari.Watcher.RunnerControl.{source_archive_retry_backoff_ms}
use sonari.Watcher.Registration
use sonari.Watcher.Registration.{
  Registration, Registrar, Environment, Attempted, ErrorClass, RegistrationInput, ValidatedSubmit,
  affected_cells_proof_registration_input, affected_cells_proof_registration_state_update,
  register_affected_cells_proof_action,
}

-- An answer of a registrar that asks for a retry.
abbrev pub is_retryable : Attempted (Unit {0}) → Bool
is_retryable (Attempted.failed ErrorClass.retryable message) = true
is_retryable (Attempted.failed ErrorClass.other message) = true
is_retryable _ = false

abbrev asks_retry : Registration → Bool
asks_retry (Registration.retryable_failed message) = true
asks_retry _ = false

abbrev pub recorded : EarthquakeEventRow → ℕ → Option ℕ → Registration → EarthquakeEventRow
recorded row now expected registration =
    apply_affected_cells_proof_registration_result_to_row row
      (affected_cells_proof_registration_state_update registration now) now expected

module _ (row : EarthquakeEventRow) (now time : ℕ) (expected : Option ℕ) where
  module _ (archived : is_archive_success row.source_archive_status ≡ true)
      (has_result : row.runner_result_s3_key ≢ none) (has_attempt : row.runner_attempt ≢ none) where
    due_again :
        (registration : Registration)
        → is_due_affected_cells_proof_registration (recorded row now expected registration) time
          ≡ (asks_retry registration && leb (now + source_archive_retry_backoff_ms) time)
    unfolding is_due_affected_cells_proof_registration
        apply_affected_cells_proof_registration_result_to_row
        affected_cells_proof_registration_state_update
    due_again Registration.skipped = refl
    due_again Registration.success = refl
    due_again (Registration.configuration_failed m) = refl
    due_again (Registration.integrity_failed m) = refl
    due_again (Registration.retryable_failed m) = ground arith

asks_retry-registered :
    (answer : Attempted (Unit {0}))
    → asks_retry (Registration.registered answer) ≡ is_retryable answer
asks_retry-registered (Attempted.done a) = refl
asks_retry-registered (Attempted.failed ErrorClass.configuration m) = refl
asks_retry-registered (Attempted.failed ErrorClass.integrity m) = refl
asks_retry-registered (Attempted.failed ErrorClass.retryable m) = refl
asks_retry-registered (Attempted.failed ErrorClass.other m) = refl

module _ (validate : FinalizedResult → Result ValidatedSubmit)
    (http_registrar : String → String → Registrar) (result : FinalizedResult)
    (registrar : Registrar) (env : Environment) (input : RegistrationInput) where
  action-registered :
      affected_cells_proof_registration_input (validate result) ≡ Attempted.done input
      → register_affected_cells_proof_action validate http_registrar
          (TeeCoreResult.finalized result)
          (some registrar)
          env
          true
        ≡ Registration.registered (registrar input)
  unfolding register_affected_cells_proof_action Registration.register_affected_cells_proof
  action-registered valid =
      ap
        (λ attempted. Registration.registration_of (elim attempted [
          | Attempted.failed class message ↦ Attempted.failed class message
          | Attempted.done i ↦ Attempted.done (Registration.registered (registrar i))
        ]))
        valid

  -- For a finalized result whose metadata give an input, where the row has its sources archived, a
  -- result and an attempt: after the outcome is recorded, the row is due for another registration at
  -- a time if and only if the registrar failed, neither by its configuration nor by the integrity of
  -- the input, and the backoff is over by then.
  pub registration-due :
      (row : EarthquakeEventRow) (now time : ℕ) (expected : Option ℕ)
      → is_archive_success row.source_archive_status ≡ true
      → row.runner_result_s3_key ≢ none
      → row.runner_attempt ≢ none
      → affected_cells_proof_registration_input (validate result) ≡ Attempted.done input
      → is_due_affected_cells_proof_registration
          (recorded row now expected (
            register_affected_cells_proof_action validate http_registrar
              (TeeCoreResult.finalized result)
              (some registrar)
              env
              true))
          time
        ≡ (is_retryable (registrar input) && leb (now + source_archive_retry_backoff_ms) time)
  registration-due row now time expected archived has_result has_attempt valid =
      due_again row now time expected archived has_result has_attempt (
        register_affected_cells_proof_action validate http_registrar
          (TeeCoreResult.finalized result) (some registrar) env true)
      ∙ ap (λ asks. asks && leb (now + source_archive_retry_backoff_ms) time)
          (ap asks_retry (action-registered valid) ∙ asks_retry-registered (registrar input))
