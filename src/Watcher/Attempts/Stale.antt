-- ===== src/Watcher/Attempts/Stale.antt =====
-- Reports of an attempt that is not the row's, to the operations of
-- nautilus/verifiers/earthquake/watcher/src/state.ts that take an expected attempt.
use sonari.Prelude.{
  ℕ, ◌+◌, ◌≡◌, ◌≢◌, inl, inr, refl, sym, ◌∙◌, ap, Bool, true, false, Option, none, some, String,
  arith, Bool-cases, ok, some-cancel, none-some, false-true, ◌==◌,
}
use sonari.Watcher.Types.{
  OffchainStatus, OracleErrorCode, RelayerMode, RelayerErrorCode, EarthquakeEventRow,
  SourceArchiveStateUpdate, AffectedCellsProofRegistrationStateUpdate, FloorCensusStateUpdate,
  RelayerSuccess, WorkflowStartInput,
}
use sonari.Watcher.Row.{is_number}
use sonari.Watcher.TeeResult.{TeeCoreResult, FinalizedResult}
use sonari.Watcher.Repository.{
  Repository, get_row, update_if, is_expected_attempt, is_expected_processing,
}
use sonari.Watcher.Repository.Workflow.{started_row, mark_workflow_started}
use sonari.Watcher.Repository.Outcomes.{
  failed_row, mark_failed, apply_runner_result, mark_relayer_succeeded, mark_relayer_failed,
  mark_source_archive_result, mark_affected_cells_proof_registration_result,
  mark_floor_census_processing, mark_floor_census_result,
}
use sonari.Watcher.Repository.Store.{update_if-refused, update_if-cases, get_row-set_row_self}
use sonari.Watcher.Repository.Cases.{mark_workflow_started-cases}
use sonari.Watcher.Attempts.{IsFenced}

is_number-other :
    (number : Option ℕ) (attempt : ℕ) → number ≢ some attempt → is_number number attempt ≡ false
is_number-other none attempt other = refl
is_number-other (some n) attempt other = elim (Bool-cases (n == attempt)) [
  | inl same ↦ absurd (other (ap (λ m. some m) (ground arith)))
  | inr differs ↦ differs
]

module _ (a : ℕ) (row : EarthquakeEventRow) (other : row.runner_attempt ≢ some a) where
  refuses_attempt : is_expected_attempt (some a) row ≡ false
  unfolding is_expected_attempt
  refuses_attempt = is_number-other row.runner_attempt a other

  refuses_processing : is_expected_processing (some a) row ≡ false
  unfolding is_expected_processing
  refuses_processing = rw (is_number-other row.runner_attempt a other) (ground arith)

module _ (stringify : TeeCoreResult → String) (validate : FinalizedResult → Option String) where
  apply_runner_result-refused :
      (repo : Repository) (id : String) (result : TeeCoreResult) (now : ℕ)
      (pending expected : Option ℕ) (row : EarthquakeEventRow)
      → get_row id repo.rows ≡ some row
      → is_expected_processing expected row ≡ false
      → apply_runner_result stringify validate repo id result now pending expected
        ≡ ok (repo, false)
  unfolding apply_runner_result
  apply_runner_result-refused repo id result now pending expected row found refused = ground arith

  -- Where the row of an event is not at attempt `a`, none of the eight reports of attempt `a` changes
  -- the repository, and each answers that it did nothing: a failure, a result, the two answers of the
  -- relayer, the archive, the registration, and the start and the result of the census.
  pub stale_report :
      (repo : Repository) (id : String) (a now : ℕ) (row : EarthquakeEventRow)
      → get_row id repo.rows ≡ some row
      → row.runner_attempt ≢ some a
      → ((code : OracleErrorCode) (retry : ℕ) (message : Option String)
          → mark_failed repo id code now retry message (some a) ≡ (repo, false))
        × ((result : TeeCoreResult) (pending : Option ℕ)
            → apply_runner_result stringify validate repo id result now pending (some a)
              ≡ ok (repo, false))
        × ((success : RelayerSuccess)
            → mark_relayer_succeeded repo id success now (some a) ≡ (repo, false))
        × ((mode : RelayerMode) (code : RelayerErrorCode) (message : String)
            → mark_relayer_failed repo id mode code message now (some a) ≡ (repo, false))
        × ((input : SourceArchiveStateUpdate)
            → mark_source_archive_result repo id input now (some a) ≡ (repo, false))
        × ((input : AffectedCellsProofRegistrationStateUpdate)
            → mark_affected_cells_proof_registration_result repo id input now (some a)
              ≡ (repo, false))
        × (mark_floor_census_processing repo id now (some a) ≡ (repo, false))
        × ((input : FloorCensusStateUpdate)
            → mark_floor_census_result repo id input now (some a) ≡ (repo, false))
  unfolding mark_failed mark_relayer_succeeded mark_relayer_failed mark_source_archive_result
      mark_affected_cells_proof_registration_result mark_floor_census_processing
      mark_floor_census_result
  stale_report repo id a now row found other =
      let refused = refuses_attempt a row other in
      let refused' = refuses_processing a row other in
      (
        (λ code retry message. update_if-refused repo id _ _ row found refused'),
        (λ result pending.
            apply_runner_result-refused repo id result now pending (some a) row found refused'),
        (λ success. update_if-refused repo id _ _ row found refused),
        (λ mode code message. update_if-refused repo id _ _ row found refused),
        (λ input. update_if-refused repo id _ _ row found refused),
        (λ input. update_if-refused repo id _ _ row found refused),
        update_if-refused repo id _ _ row found (ground arith),
        (λ input. update_if-refused repo id _ _ row found refused),
      )

next-other : (a : ℕ) → a + 1 ≡ a → ⊥
next-other a e = omega (arith, e)

update_if-done :
    (repo : Repository) (k : String) (guard : EarthquakeEventRow → Bool)
    (change : EarthquakeEventRow → EarthquakeEventRow) (row : EarthquakeEventRow) {r' : Repository}
    → get_row k repo.rows ≡ some row
    → update_if repo k guard change ≡ (r', true)
    → get_row k r'.rows ≡ some (change row)
update_if-done repo k guard change row {r'} found done =
    elim (update_if-cases repo k guard change) [
      | inl same ↦ absurd (false-true (sym (ap (λ p. p.1) same) ∙ ap (λ p. p.1) done))
      | inr (row2, found2, passes, e) ↦
          sym (ap (λ p. get_row k p.0.rows) (sym e ∙ done))
          ∙ get_row-set_row_self k (change row2) repo.rows
          ∙ ap (λ x. some (change x)) (some-cancel (sym found2 ∙ found))
    ]

-- A start of an event that succeeded has the attempt after the failed ones, and stores it.
pub mark_workflow_started-done :
    (repo : Repository) (id name : String) (now : ℕ) (count revision : Option ℕ)
    (row : EarthquakeEventRow) {r' : Repository} {started : WorkflowStartInput}
    → get_row id repo.rows ≡ some row
    → mark_workflow_started repo id name now count revision ≡ (r', some started)
    → (started.attempt ≡ row.retry_count + 1)
      × (get_row id r'.rows ≡ some (started_row row name now revision))
mark_workflow_started-done repo id name now count revision row {r'} {started} found done =
    elim (mark_workflow_started-cases repo id name now count revision) [
      | inl same ↦ absurd (none-some (sym (ap (λ p. p.1) same) ∙ ap (λ p. p.1) done))
      | inr (row2, found2, passes, e) ↦
          let same_row = some-cancel (sym found2 ∙ found) in
          (
            sym (ap (λ s. s.attempt) (some-cancel (ap (λ p. p.1) (sym e ∙ done))))
                ∙ ap (λ x. x.retry_count + 1) same_row,
            sym (ap (λ p. get_row id p.0.rows) (sym e ∙ done))
                ∙ get_row-set_row_self id (started_row row2 name now revision) repo.rows
                ∙ ap (λ x. some (started_row x name now revision)) same_row,
          )
    ]

-- Where a row in processing is at attempt `a`, with its attempt in order, and its failure is
-- recorded, the next start of its event that succeeds is attempt `a + 1`, and the row it leaves is in
-- processing at that attempt, which is not `a`.
pub mark_failed-fresh_attempt :
    (repo : Repository) (id name : String) (a now retry later : ℕ) (code : OracleErrorCode)
    (message : Option String) (count revision : Option ℕ) (row : EarthquakeEventRow)
    {r' r'' : Repository} {started : WorkflowStartInput}
    → get_row id repo.rows ≡ some row
    → IsFenced row
    → row.status ≡ OffchainStatus.processing
    → row.runner_attempt ≡ some a
    → mark_failed repo id code now retry message (some a) ≡ (r', true)
    → mark_workflow_started r' id name later count revision ≡ (r'', some started)
    → (started.attempt ≡ a + 1)
      × ((row' : EarthquakeEventRow) × (get_row id r''.rows ≡ some row')
          × (row'.status ≡ OffchainStatus.processing)
          × (row'.runner_attempt ≡ some (a + 1))
          × (row'.runner_attempt ≢ some a))
unfolding mark_failed failed_row started_row
mark_failed-fresh_attempt repo id name a now retry later code message count revision row found
      fenced running at failed begun =
    let found' = update_if-done repo id _ _ row found failed in
    let begun' = mark_workflow_started-done _ id name later count revision _ found' begun in
    let same_attempt : a ≡ row.retry_count + 1 =
      some-cancel (sym at ∙ fenced.processing_attempt running) in
    (
      begun'.0 ∙ ap (λ n. n + 1) (sym same_attempt),
      (
        _,
        begun'.1,
        refl,
        ap (λ n. some (n + 1)) (sym same_attempt),
        λ e. absurd (next-other a (some-cancel (ap (λ n. some (n + 1)) same_attempt ∙ e))),
      ),
    )
