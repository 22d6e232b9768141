-- ===== src/Watcher/Repository/Cases.antt =====
-- What the operations that return more than a Boolean do: refuse and change nothing, or find a row
-- that passes their test.
use sonari.Prelude.{
  ℕ, ◌+◌, ◌≡◌, refl, ◌⊎◌, inl, inr, Bool, true, false, ◌&&◌, ◌==◌, Option, none, some, String,
  arith, Bool-cases, Option-cases, Result, ok, >>=-elim_ok, ok-injective,
}
use sonari.Watcher.Types.{EarthquakeEventRow}
use sonari.Watcher.Row.{is_due}
use sonari.Watcher.TeeResult.{TeeCoreResult, FinalizedResult, apply_result_to_row}
use sonari.Watcher.Repository.{Repository, get_row, set_row, is_expected_processing}
use sonari.Watcher.Repository.Workflow.{
  can_start, started_row, planned_revision, mark_workflow_started,
}
use sonari.Watcher.Repository.Outcomes.{
  apply_runner_result, claim_affected_cells_proof_registration_retry, claimed,
  can_claim_registration, registration_claimed_row,
}
use sonari.Watcher.Repository.Queue.{enqueue_runner_job, queued_row}

-- The repository with one row written.
abbrev pub write : Repository → String → EarthquakeEventRow → Repository
write repo id row = record repo { rows = set_row id row repo.rows }

pub mark_workflow_started-cases :
    (repo : Repository) (id name : String) (now : ℕ) (count revision : Option ℕ)
    → (mark_workflow_started repo id name now count revision ≡ (repo, none))
      ⊎ ((row : EarthquakeEventRow) × (get_row id repo.rows ≡ some row)
          × (can_start row now count ≡ true)
          × (mark_workflow_started repo id name now count revision ≡ (
            write repo id (started_row row name now revision),
            some (record {
              source_event_id = id;
              execution_name = name;
              attempt = row.retry_count + 1;
              event_revision = planned_revision revision row;
            }),
          )))
unfolding mark_workflow_started
mark_workflow_started-cases repo id name now count revision =
    elim (Option-cases (get_row id repo.rows)) [
      | inl missing ↦ inl (ground arith)
      | inr (row, found) ↦ elim (Bool-cases (can_start row now count)) [
        | inl passes ↦ inr (row, found, passes, (ground arith))
        | inr fails ↦ inl (ground arith)
      ]
    ]

pub mark_workflow_started-missing :
    (repo : Repository) (id name : String) (now : ℕ) (count revision : Option ℕ)
    → get_row id repo.rows ≡ none
    → mark_workflow_started repo id name now count revision ≡ (repo, none)
unfolding mark_workflow_started
mark_workflow_started-missing repo id name now count revision missing = ground arith

pub mark_workflow_started-refused :
    (repo : Repository) (id name : String) (now : ℕ) (count revision : Option ℕ)
    (row : EarthquakeEventRow)
    → get_row id repo.rows ≡ some row
    → can_start row now count ≡ false
    → mark_workflow_started repo id name now count revision ≡ (repo, none)
unfolding mark_workflow_started
mark_workflow_started-refused repo id name now count revision row found refused = ground arith

pub mark_workflow_started-starts :
    (repo : Repository) (id name : String) (now : ℕ) (count revision : Option ℕ)
    (row : EarthquakeEventRow)
    → get_row id repo.rows ≡ some row
    → can_start row now count ≡ true
    → mark_workflow_started repo id name now count revision ≡ (
      write repo id (started_row row name now revision),
      some (record {
        source_event_id = id;
        execution_name = name;
        attempt = row.retry_count + 1;
        event_revision = planned_revision revision row;
      }),
    )
unfolding mark_workflow_started
mark_workflow_started-starts repo id name now count revision row found passes = ground arith

pub enqueue_runner_job-cases :
    (repo : Repository) (id : String) (attempt : ℕ) (job : String) (now : ℕ) (revision : Option ℕ)
    → (enqueue_runner_job repo id attempt job now revision ≡ (repo, none))
      ⊎ ((row : EarthquakeEventRow) × (get_row id repo.rows ≡ some row)
          × (is_due row.status ≡ true)
          × (row.retry_count + 1 ≡ attempt)
          × (enqueue_runner_job repo id attempt job now revision ≡ (
            write repo id (queued_row row attempt job now revision),
            some (record {
              runner_job_id = job;
              source_event_id = id;
              attempt = attempt;
              event_revision = planned_revision revision row;
              enqueued_at_ms = now;
            }),
          )))
unfolding enqueue_runner_job
enqueue_runner_job-cases repo id attempt job now revision =
    elim (Option-cases (get_row id repo.rows)) [
      | inl missing ↦ inl (ground arith)
      | inr (row, found) ↦ elim (Bool-cases (is_due row.status && row.retry_count + 1 == attempt)) [
        | inl passes ↦ inr (row, found, (ground arith), (ground arith), (ground arith))
        | inr fails ↦ inl (ground arith)
      ]
    ]

pub claim_registration-cases :
    (repo : Repository) (id : String) (expected now : ℕ)
    → (claim_affected_cells_proof_registration_retry repo id expected now ≡ (repo, none))
      ⊎ ((row : EarthquakeEventRow) × (get_row id repo.rows ≡ some row)
          × (can_claim_registration row expected now ≡ true)
          × (claim_affected_cells_proof_registration_retry repo id expected now
              ≡ (write repo id (registration_claimed_row row now), claimed row)))
unfolding claim_affected_cells_proof_registration_retry
claim_registration-cases repo id expected now = elim (Option-cases (get_row id repo.rows)) [
  | inl missing ↦ inl (ground arith)
  | inr (row, found) ↦ elim (Bool-cases (can_claim_registration row expected now)) [
    | inl passes ↦ inr (row, found, passes, (ground arith))
    | inr fails ↦ inl (ground arith)
  ]
]

reported :
    {r r' : Repository} {b b' : Bool}
    → ◌≡◌ {A = Repository × Bool} (r, b) (r', b')
    → (r' ≡ r) × (b' ≡ b)
reported e = (cc, cc)

nothing :
    {r r' : Repository} {b b' : Bool}
    → ◌≡◌ {A = Result (Repository × Bool)} (ok (r, b)) (ok (r', b'))
    → (r' ≡ r) × (b' ≡ b)
nothing e = reported (ok-injective e)

module _ (stringify : TeeCoreResult → String) (validate : FinalizedResult → Option String) where
  -- A report that did not throw either changed nothing, or wrote what the result makes of the row.
  pub apply_runner_result-cases :
      (repo : Repository) (id : String) (result : TeeCoreResult) (now : ℕ)
      (pending expected : Option ℕ) {repo' : Repository} {done : Bool}
      → apply_runner_result stringify validate repo id result now pending expected
        ≡ ok (repo', done)
      → ((repo' ≡ repo) × (done ≡ false))
        ⊎ ((row applied : EarthquakeEventRow) × (get_row id repo.rows ≡ some row)
            × (is_expected_processing expected row ≡ true)
            × (apply_result_to_row stringify validate row result now pending ≡ ok applied)
            × (repo' ≡ write repo id applied)
            × (done ≡ true))
  unfolding apply_runner_result
  apply_runner_result-cases repo id result now pending expected {repo'} {done} e =
      elim (Option-cases (get_row id repo.rows)) [
        | inl missing ↦ inl (nothing (rw (missing, apply_runner_result) at e))
        | inr (row, found) ↦ elim (Bool-cases (is_expected_processing expected row)) [
          | inl passes ↦
              >>=-elim_ok (apply_result_to_row stringify validate row result now pending) _
                (rw (found, passes, apply_runner_result) at e)
                λ applied applied_ok written.
                  let (same, true_done) = reported (ok-injective written) in
                  inr (row, applied, found, passes, applied_ok, same, true_done)
          | inr fails ↦ inl (nothing (rw (found, fails, apply_runner_result) at e))
        ]
      ]

  pub apply_runner_result-applies :
      (repo : Repository) (id : String) (result : TeeCoreResult) (now : ℕ)
      (pending expected : Option ℕ) (row applied : EarthquakeEventRow)
      → get_row id repo.rows ≡ some row
      → is_expected_processing expected row ≡ true
      → apply_result_to_row stringify validate row result now pending ≡ ok applied
      → apply_runner_result stringify validate repo id result now pending expected
        ≡ ok (write repo id applied, true)
  unfolding apply_runner_result
  apply_runner_result-applies repo id result now pending expected row applied found passes applies =
      rw (found, apply_runner_result) (rw passes (rw applies refl))
