-- ===== src/Watcher/Steps/Operations.antt =====
-- The operations of nautilus/verifiers/earthquake/watcher/src/state.ts that are more than one update
-- of a row, and what they do to the attempts of the rows.
use sonari.Prelude.{
  ℕ, ◌+◌, ◌≡◌, inl, inr, refl, Bool, true, false, ◌&&◌, Option, none, some, String, [], ◌∷◌, arith,
  Bool-cases, if◌then◌else◌, ok, throw, ok-injective, subst,
}
use sonari.Watcher.Types.{
  OffchainStatus, OracleErrorCode, EarthquakeEventRow, UsgsEarthquakeCandidate,
  RunnerWorkflowProgressUpdate, RunnerQueueJob,
}
use sonari.Watcher.Row.{is_queued, is_number, screen_usgs_candidate}
use sonari.Watcher.Row.Updates.{apply_runner_workflow_progress}
use sonari.Watcher.TeeResult.{
  TeeCoreResult, FinalizedResult, apply_result_to_row, apply_finalized, apply_rejected,
  apply_pending,
}
use sonari.Watcher.Repository.{Rows, Repository, get_row, update_if, upsert_candidate}
use sonari.Watcher.Repository.Workflow.{
  started_row, mark_workflow_started, take_lock, is_locked, try_start_runner_workflow_exclusively,
  mark_workflow_stopped, stopped_row, release_after, release_runner_workflow_lock, owns_lock,
  update_runner_workflow_progress,
}
use sonari.Watcher.Repository.Outcomes.{
  failed_row, apply_runner_result, registration_claimed_row,
  claim_affected_cells_proof_registration_retry,
}
use sonari.Watcher.Repository.Queue.{
  is_job, queued_row, enqueue_runner_job, mark_queue_enqueue_failed, recover_processing_from,
  recover_queued_from,
}
use sonari.Watcher.Repository.Store.{AllRows, AllRows-get_row, AllRows-set_row, AllRows-update_if}
use sonari.Watcher.Repository.Cases.{
  mark_workflow_started-cases, enqueue_runner_job-cases, claim_registration-cases,
  apply_runner_result-cases,
}
use sonari.Watcher.Attempts.{Fenced, IsFenced, IsIdle, Fenced-next, Fenced-idle, upserted-IsFenced}

-- Every row of the repository has its attempt in order.
abbrev pub AreFenced : Repository → Type 0
AreFenced repo = AllRows IsFenced repo.rows

screened-IsIdle : (c : UsgsEarthquakeCandidate) → IsIdle (screen_usgs_candidate c)
unfolding screen_usgs_candidate
screened-IsIdle c = (λ e. ground arith, λ e. ground arith)

screening-IsIdle :
    (bypass : Bool) (c : UsgsEarthquakeCandidate)
    → IsIdle (if bypass then OffchainStatus.new else screen_usgs_candidate c)
screening-IsIdle true c = (λ e. cc, λ e. cc)
screening-IsIdle false c = screened-IsIdle c

pub mark_workflow_started-AreFenced :
    (repo : Repository) (id name : String) (now : ℕ) (count revision : Option ℕ)
    → AreFenced repo
    → AreFenced (mark_workflow_started repo id name now count revision).0
unfolding started_row
mark_workflow_started-AreFenced repo id name now count revision h =
    elim (mark_workflow_started-cases repo id name now count revision) [
      | inl same ↦ rw same h
      | inr (row, found, passes, e) ↦
          rw e (AllRows-set_row IsFenced id _ repo.rows (Fenced-next _ row.retry_count) h)
    ]

take_lock-rows :
    (id name : String) (now : ℕ) (started : Repository × Option _)
    → (take_lock id name now started).0.rows ≡ started.0.rows
unfolding take_lock
take_lock-rows id name now (repo, none) = refl
take_lock-rows id name now (repo, some started) = refl

pub try_start-AreFenced :
    (repo : Repository) (id name : String) (now : ℕ) (count revision : Option ℕ)
    → AreFenced repo
    → AreFenced (try_start_runner_workflow_exclusively repo id name now count revision).0
unfolding try_start_runner_workflow_exclusively
try_start-AreFenced repo id name now count revision h =
    elim (Bool-cases (is_locked repo.runner_workflow_lock now)) [
      | inl locked ↦ rw locked h
      | inr free ↦ rw free (
          rw (take_lock-rows id name now (mark_workflow_started repo id name now count revision))
            (mark_workflow_started-AreFenced repo id name now count revision h))
    ]

release-rows :
    (repo : Repository) (id : String) (attempt : ℕ)
    → (release_runner_workflow_lock repo id attempt).rows ≡ repo.rows
unfolding release_runner_workflow_lock
release-rows repo id attempt = elim (Bool-cases (owns_lock repo.runner_workflow_lock id attempt)) [
  | inl owns ↦ rw owns refl
  | inr other ↦ rw other refl
]

release_after-rows :
    (id : String) (attempt : ℕ) (updated : Repository × Bool)
    → (release_after id attempt updated).0.rows ≡ updated.0.rows
unfolding release_after
release_after-rows id attempt (repo, false) = refl
release_after-rows id attempt (repo, true) = release-rows repo id attempt

pub mark_workflow_stopped-AreFenced :
    (repo : Repository) (id : String) (attempt now : ℕ)
    → AreFenced repo
    → AreFenced (mark_workflow_stopped repo id attempt now).0
unfolding mark_workflow_stopped stopped_row
mark_workflow_stopped-AreFenced repo id attempt now h =
    rw
      (release_after-rows id attempt (
        update_if repo id (λ row. is_number row.runner_attempt attempt)
          (λ row. stopped_row row now)))
      (AllRows-update_if IsFenced repo id _ _ (λ row p _. p) h)

pub progress-AreFenced :
    (repo : Repository) (input : RunnerWorkflowProgressUpdate)
    → AreFenced repo
    → AreFenced (update_runner_workflow_progress repo input).0
unfolding update_runner_workflow_progress apply_runner_workflow_progress
progress-AreFenced repo input h = AllRows-update_if IsFenced repo _ _ _ (λ row p _. p) h

pub failed_row-IsFenced :
    (row : EarthquakeEventRow) (code : OracleErrorCode) (now retry : ℕ) (message : Option String)
    → IsFenced row
    → IsFenced (failed_row row code now retry message)
unfolding failed_row
failed_row-IsFenced row code now retry message p =
    Fenced-idle OffchainStatus.failed (row.retry_count + 1) ((λ e. cc), (λ e. cc)) (omega arith) p

pub recover_processing-AreFenced :
    (keys : Rows) (repo : Repository) (stale now retry recovered : ℕ)
    → AreFenced repo
    → AreFenced (recover_processing_from keys repo stale now retry recovered).0
unfolding recover_processing_from
recover_processing-AreFenced [] repo stale now retry recovered h = h
recover_processing-AreFenced ((key, _) ∷ rest) repo stale now retry recovered h =
    recover_processing-AreFenced rest _ stale now retry _ (
      AllRows-update_if IsFenced repo key _ _
        (λ row p _. failed_row-IsFenced row _ now retry none p) h)

pub enqueue_failed-AreFenced :
    (repo : Repository) (id job : String) (now retry : ℕ) (message : String)
    → AreFenced repo
    → AreFenced (mark_queue_enqueue_failed repo id job now retry message)
unfolding mark_queue_enqueue_failed
enqueue_failed-AreFenced repo id job now retry message h =
    AllRows-update_if IsFenced repo id _ _
      (λ row p _.
        Fenced-idle OffchainStatus.new row.retry_count ((λ e. cc), (λ e. cc)) (omega arith) p)
      h

AreFenced-if :
    (b : Bool) (r s : Repository) → AreFenced r → AreFenced s → AreFenced (if b then r else s)
AreFenced-if true r s h k = h
AreFenced-if false r s h k = k

pub recover_queued-AreFenced :
    (keys : Rows) (repo : Repository) (stale now retry recovered : ℕ)
    → AreFenced repo
    → AreFenced (recover_queued_from keys repo stale now retry recovered).0
unfolding recover_queued_from
recover_queued-AreFenced [] repo stale now retry recovered h = h
recover_queued-AreFenced ((key, _) ∷ rest) repo stale now retry recovered h =
    recover_queued-AreFenced rest _ stale now retry _
      (AreFenced-if _ _ _ (enqueue_failed-AreFenced repo key _ now retry _ h) h)

pub enqueue-AreFenced :
    (repo : Repository) (id : String) (attempt : ℕ) (job : String) (now : ℕ) (revision : Option ℕ)
    → AreFenced repo
    → AreFenced (enqueue_runner_job repo id attempt job now revision).0
unfolding queued_row
enqueue-AreFenced repo id attempt job now revision h =
    elim (enqueue_runner_job-cases repo id attempt job now revision) [
      | inl same ↦ rw same h
      | inr (row, found, due, next, e) ↦ rw e (
          AllRows-set_row IsFenced id _ repo.rows
            (subst (λ a. Fenced OffchainStatus.queued (some a) row.retry_count) next
              (Fenced-next _ row.retry_count))
            h)
    ]

pub claim_registration-AreFenced :
    (repo : Repository) (id : String) (expected now : ℕ)
    → AreFenced repo
    → AreFenced (claim_affected_cells_proof_registration_retry repo id expected now).0
unfolding registration_claimed_row
claim_registration-AreFenced repo id expected now h =
    elim (claim_registration-cases repo id expected now) [
      | inl same ↦ rw same h
      | inr (row, found, passes, e) ↦ rw e (
          AllRows-set_row IsFenced id _ repo.rows (AllRows-get_row IsFenced id repo.rows h found) h)
    ]

pub upsert-AreFenced :
    (uid : UsgsEarthquakeCandidate → String) (repo : Repository) (c : UsgsEarthquakeCandidate)
    (now : ℕ) (bypass : Bool)
    → AreFenced repo
    → AreFenced (upsert_candidate uid repo c now bypass)
unfolding upsert_candidate
upsert-AreFenced uid repo c now bypass h =
    AllRows-set_row IsFenced c.source_event_id _ repo.rows
      (upserted-IsFenced uid (get_row c.source_event_id repo.rows) c _ now
        (screening-IsIdle bypass c)
        (λ row found. AllRows-get_row IsFenced c.source_event_id repo.rows h found))
      h

-- Inversion of a result that a check of it lets through.
accepted-eq :
    (refusal : Option String) (a b : EarthquakeEventRow) (message : String)
    → elim refusal [ none ↦ ok a | some _ ↦ throw message ] ≡ ok b
    → a ≡ b
accepted-eq none a b message e = ok-injective e
accepted-eq (some refusal) a b message e = absurd (cc)

module _ (stringify : TeeCoreResult → String) (validate : FinalizedResult → Option String) where
  pub apply_result-IsFenced :
      (row row' : EarthquakeEventRow) (result : TeeCoreResult) (now : ℕ) (pending : Option ℕ)
      → apply_result_to_row stringify validate row result now pending ≡ ok row'
      → IsFenced row
      → IsFenced row'
  unfolding apply_result_to_row apply_finalized apply_rejected apply_pending
  apply_result-IsFenced row row' (TeeCoreResult.finalized result) now pending e p =
      subst IsFenced (accepted-eq (validate result) _ row' _ e) (
        Fenced-idle OffchainStatus.finalized row.retry_count ((λ e. cc), (λ e. cc)) (omega arith) p)
  apply_result-IsFenced row row' (TeeCoreResult.rejected id code) now pending e p =
      subst IsFenced (ok-injective e)
        (Fenced-idle OffchainStatus.rejected row.retry_count ((λ e. cc), (λ e. cc)) (omega arith) p)
  apply_result-IsFenced row row' (TeeCoreResult.pending_source id code) now pending e p =
      subst IsFenced (ok-injective e) (
        Fenced-idle OffchainStatus.pending_source (row.retry_count + 1) ((λ e. cc), (λ e. cc))
          (omega arith) p)
  apply_result-IsFenced row row' (TeeCoreResult.pending_mmi id code) now pending e p =
      subst IsFenced (ok-injective e) (
        Fenced-idle OffchainStatus.pending_mmi (row.retry_count + 1) ((λ e. cc), (λ e. cc))
          (omega arith) p)

  pub apply_runner_result-AreFenced :
      (repo repo' : Repository) (done : Bool) (id : String) (result : TeeCoreResult) (now : ℕ)
      (pending expected : Option ℕ)
      → apply_runner_result stringify validate repo id result now pending expected
        ≡ ok (repo', done)
      → AreFenced repo
      → AreFenced repo'
  apply_runner_result-AreFenced repo repo' done id result now pending expected e h =
      elim (apply_runner_result-cases stringify validate repo id result now pending expected e) [
        | inl (same, _) ↦ rw same h
        | inr (row, applied, found, passes, ok_row, e', _) ↦ rw e' (
            AllRows-set_row IsFenced id applied repo.rows
              (apply_result-IsFenced row applied result now pending ok_row
                (AllRows-get_row IsFenced id repo.rows h found))
              h)
      ]

is_queued-eq : (status : OffchainStatus) → is_queued status ≡ true → status ≡ OffchainStatus.queued
is_queued-eq OffchainStatus.queued e = refl
is_queued-eq _ e = absurd (cc)

pub claimed-queued :
    (row : EarthquakeEventRow) (job : RunnerQueueJob)
    → (is_queued row.status
        && is_job row job.runner_job_id
        && is_number row.runner_attempt job.attempt)
      ≡ true
    → row.status ≡ OffchainStatus.queued
claimed-queued row job e = is_queued-eq row.status (ground arith)
