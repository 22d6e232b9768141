-- ===== src/Watcher/Leases.antt =====
-- Claims of a job of the queue and of a retry of a registration, starts and failures, done twice
-- (nautilus/verifiers/earthquake/watcher/src/state.ts).
use sonari.Prelude.{
  ℕ, ◌+◌, ◌<◌, ◌≡◌, inl, inr, refl, sym, ◌∙◌, ap, Bool, true, false, Option, none, some, String,
  arith, none-some, false-true,
}
use sonari.Watcher.Types.{OracleErrorCode, EarthquakeEventRow, RunnerQueueJob, WorkflowStartInput}
use sonari.Watcher.Row.{is_due_affected_cells_proof_registration, processing_stale_after_ms}
use sonari.Watcher.Repository.{Repository, get_row, update_if, is_expected_processing}
use sonari.Watcher.Repository.Workflow.{can_start, started_row, mark_workflow_started}
use sonari.Watcher.Repository.Outcomes.{
  failed_row, mark_failed, claim_affected_cells_proof_registration_retry, can_claim_registration,
  registration_claimed_row,
}
use sonari.Watcher.Repository.Queue.{claim_queued_for_processing}
use sonari.Watcher.Repository.Store.{update_if-refused, update_if-cases, get_row-set_row_self}
use sonari.Watcher.Repository.Cases.{
  mark_workflow_started-refused, mark_workflow_started-cases, claim_registration-cases,
}

-- An update that left the row where its own test refuses it is not done again.
update_if-once :
    (repo : Repository) (k : String) (guard guard' : EarthquakeEventRow → Bool)
    (change change' : EarthquakeEventRow → EarthquakeEventRow) {r' : Repository}
    → ((row : EarthquakeEventRow) → guard' (change row) ≡ false)
    → update_if repo k guard change ≡ (r', true)
    → update_if r' k guard' change' ≡ (r', false)
update_if-once repo k guard guard' change change' {r'} closed done =
    elim (update_if-cases repo k guard change) [
      | inl same ↦ absurd (false-true (sym (ap (λ p. p.1) same) ∙ ap (λ p. p.1) done))
      | inr (row, found, passes, e) ↦
          update_if-refused r' k guard' change' (change row)
            (sym (ap (λ p. get_row k p.0.rows) (sym e ∙ done))
              ∙ get_row-set_row_self k (change row) repo.rows)
            (closed row)
    ]

-- Right after a claim of a job of the queue, a claim of any job of the same event changes nothing and
-- answers no.
pub claim_queued-once :
    (repo : Repository) (job again : RunnerQueueJob) (now timeout later timeout' : ℕ)
    {r' : Repository}
    → again.source_event_id ≡ job.source_event_id
    → claim_queued_for_processing repo job now timeout ≡ (r', true)
    → claim_queued_for_processing r' again later timeout' ≡ (r', false)
unfolding claim_queued_for_processing
claim_queued-once repo job again now timeout later timeout' same done =
    rw same (update_if-once repo job.source_event_id _ _ _ _ (λ row. refl) done)

-- Right after a failure is recorded, a report of a failure of any attempt of the event changes
-- nothing and answers no.
pub mark_failed-once :
    (repo : Repository) (id : String) (code code' : OracleErrorCode) (now retry later retry' : ℕ)
    (message message' : Option String) (expected : Option ℕ) (attempt : ℕ) {r' : Repository}
    → mark_failed repo id code now retry message expected ≡ (r', true)
    → mark_failed r' id code' later retry' message' (some attempt) ≡ (r', false)
unfolding mark_failed is_expected_processing failed_row
mark_failed-once repo id code code' now retry later retry' message message' expected attempt done =
    update_if-once repo id _ (is_expected_processing (some attempt)) _ _ (λ row. refl) done

leased :
    (row : EarthquakeEventRow) (expected now later : ℕ)
    → later < now + processing_stale_after_ms
    → can_claim_registration (registration_claimed_row row now) expected later ≡ false
unfolding can_claim_registration registration_claimed_row is_due_affected_cells_proof_registration
leased row expected now later early = ground arith

claim_refused :
    (repo : Repository) (id : String) (expected now : ℕ) (row : EarthquakeEventRow)
    → get_row id repo.rows ≡ some row
    → can_claim_registration row expected now ≡ false
    → claim_affected_cells_proof_registration_retry repo id expected now ≡ (repo, none)
unfolding claim_affected_cells_proof_registration_retry
claim_refused repo id expected now row found refused = ground arith

-- Right after a claim of a retry of a registration, a claim of a retry of the same event at a time
-- before the end of the lease changes nothing and claims nothing, whatever retry time it expects.
pub claim_registration-leased :
    (repo : Repository) (id : String) (expected expected' now later : ℕ) {claim : ℕ × String}
    {r' : Repository}
    → claim_affected_cells_proof_registration_retry repo id expected now ≡ (r', some claim)
    → later < now + processing_stale_after_ms
    → claim_affected_cells_proof_registration_retry r' id expected' later ≡ (r', none)
claim_registration-leased repo id expected expected' now later {r' = r'} done early =
    elim (claim_registration-cases repo id expected now) [
      | inl same ↦ absurd (none-some (sym (ap (λ p. p.1) same) ∙ ap (λ p. p.1) done))
      | inr (row, found, passes, e) ↦
          claim_refused r' id expected' later (registration_claimed_row row now)
            (sym (ap (λ p. get_row id p.0.rows) (sym e ∙ done))
              ∙ get_row-set_row_self id (registration_claimed_row row now) repo.rows)
            (leased row expected' now later early)
    ]

-- Right after a start of an event, a second start of it, at any time and with any retry count,
-- changes nothing and starts nothing.
pub mark_workflow_started-once :
    (repo : Repository) (id name name' : String) (now later : ℕ)
    (count revision count' revision' : Option ℕ) {started : WorkflowStartInput} {r' : Repository}
    → mark_workflow_started repo id name now count revision ≡ (r', some started)
    → mark_workflow_started r' id name' later count' revision' ≡ (r', none)
unfolding can_start started_row
mark_workflow_started-once repo id name name' now later count revision count' revision' {r' = r'}
      done =
    elim (mark_workflow_started-cases repo id name now count revision) [
      | inl same ↦ absurd (none-some (sym (ap (λ p. p.1) same) ∙ ap (λ p. p.1) done))
      | inr (row, found, passes, e) ↦
          mark_workflow_started-refused r' id name' later count' revision'
            (started_row row name now revision)
            (sym (ap (λ p. get_row id p.0.rows) (sym e ∙ done))
              ∙ get_row-set_row_self id (started_row row name now revision) repo.rows)
            refl
    ]
