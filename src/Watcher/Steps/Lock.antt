-- ===== src/Watcher/Steps/Lock.antt =====
-- The lock of the one runner workflow, as `tryStartRunnerWorkflowExclusively` and
-- `markWorkflowStopped` of nautilus/verifiers/earthquake/watcher/src/state.ts take and free it.
use sonari.Prelude.{
  ℕ, ◌+◌, ◌<◌, ◌≡◌, inl, inr, refl, sym, ap, some-cancel, ◌∙◌, Bool, true, false, Option, none,
  some, String, List, [], ◌∷◌, arith, Bool-cases, All, if◌then◌else◌,
}
use sonari.Watcher.Types.{
  EarthquakeEventRow, UsgsEarthquakeCandidate, RunnerWorkflowLockRow, WorkflowStartInput,
}
use sonari.Watcher.Row.{failed_retry_backoff_ms}
use sonari.Watcher.TeeResult.{TeeCoreResult, FinalizedResult}
use sonari.Watcher.Repository.{Rows, Repository, update_if, upsert_candidate, upsert_manual_event}
use sonari.Watcher.Repository.Workflow.{
  mark_workflow_started, take_lock, is_locked, try_start_runner_workflow_exclusively,
  mark_workflow_stopped, release_after, release_runner_workflow_lock, owns_lock,
  update_runner_workflow_progress,
}
use sonari.Watcher.Repository.Outcomes.{
  mark_failed, mark_relayer_succeeded, mark_relayer_failed, mark_source_archive_result,
  mark_affected_cells_proof_registration_result, mark_floor_census_processing,
  mark_floor_census_result,
}
use sonari.Watcher.Repository.Queue.{
  mark_queue_enqueue_failed, claim_queued_for_processing, record_runner_started,
  record_runner_stopped, record_runner_stop_failed, defer_until, mark_rejected,
  recover_processing_from, recover_stale_processing, recover_queued_from, recover_stale_queued,
}
use sonari.Watcher.Repository.Store.{update_if-cases}
use sonari.Watcher.Repository.Cases.{
  mark_workflow_started-cases, enqueue_runner_job-cases, claim_registration-cases,
  apply_runner_result-cases,
}
use sonari.Watcher.Steps.{Event, Step, Run}

abbrev Lock : Type 0
Lock = Option RunnerWorkflowLockRow

update_if-lock :
    (repo : Repository) (k : String) (guard : EarthquakeEventRow → Bool)
    (change : EarthquakeEventRow → EarthquakeEventRow)
    → (update_if repo k guard change).0.runner_workflow_lock ≡ repo.runner_workflow_lock
update_if-lock repo k guard change = elim (update_if-cases repo k guard change) [
  | inl same ↦ rw same refl
  | inr (row, found, passes, e) ↦ rw e refl
]

mark_workflow_started-lock :
    (repo : Repository) (id name : String) (now : ℕ) (count revision : Option ℕ)
    → (mark_workflow_started repo id name now count revision).0.runner_workflow_lock
      ≡ repo.runner_workflow_lock
mark_workflow_started-lock repo id name now count revision =
    elim (mark_workflow_started-cases repo id name now count revision) [
      | inl same ↦ rw same refl
      | inr (row, found, passes, e) ↦ rw e refl
    ]

pub try_start-locked :
    (repo : Repository) (id name : String) (now : ℕ) (count revision : Option ℕ)
    → is_locked repo.runner_workflow_lock now ≡ true
    → try_start_runner_workflow_exclusively repo id name now count revision ≡ (repo, none)
unfolding try_start_runner_workflow_exclusively
try_start-locked repo id name now count revision locked = rw locked refl

unfoldable pub lock_at : ℕ → String → String → WorkflowStartInput → RunnerWorkflowLockRow
lock_at now id name started = record {
  lock_owner_source_event_id = id;
  runner_job_id = name;
  runner_attempt = started.attempt;
  lock_acquired_at_ms = now;
  lock_expires_at_ms = now + failed_retry_backoff_ms;
}

module _ (lock : RunnerWorkflowLockRow) where
  -- What cannot take the lock from its owner: a start before the lock expires, the stop of another
  -- attempt, and everything else.
  abbrev pub IsHarmless : Event → Type 0
  IsHarmless (Event.exclusive_start now) = now < lock.lock_expires_at_ms
  IsHarmless (Event.workflow_stop id attempt) = owns_lock (some lock) id attempt ≡ false
  IsHarmless Event.other = Unit

  locked_until :
      (repo : Repository) (now : ℕ)
      → repo.runner_workflow_lock ≡ some lock
      → now < lock.lock_expires_at_ms
      → is_locked repo.runner_workflow_lock now ≡ true
  unfolding is_locked
  locked_until repo now held early = rw held (ground arith)

  release_foreign :
      (repo : Repository) (owns : Bool)
      → owns ≡ false
      → repo.runner_workflow_lock ≡ some lock
      → (if owns then record repo { runner_workflow_lock = none } else repo).runner_workflow_lock
        ≡ some lock
  release_foreign repo true e held = absurd (cc)
  release_foreign repo false e held = held

  release_after-lock :
      (id : String) (attempt : ℕ) (updated : Repository × Bool)
      → owns_lock (some lock) id attempt ≡ false
      → updated.0.runner_workflow_lock ≡ some lock
      → (release_after id attempt updated).0.runner_workflow_lock ≡ some lock
  unfolding release_after release_runner_workflow_lock
  release_after-lock id attempt (repo, false) foreign held = held
  release_after-lock id attempt (repo, true) foreign held =
      release_foreign repo (owns_lock repo.runner_workflow_lock id attempt) (rw held foreign) held

recover_processing-lock :
    (keys : Rows) (repo : Repository) (stale now retry recovered : ℕ)
    → (recover_processing_from keys repo stale now retry recovered).0.runner_workflow_lock
      ≡ repo.runner_workflow_lock
unfolding recover_processing_from
recover_processing-lock [] repo stale now retry recovered = refl
recover_processing-lock ((key, _) ∷ rest) repo stale now retry recovered =
    recover_processing-lock rest _ stale now retry _ ∙ update_if-lock repo key _ _

lock-if :
    (b : Bool) (r s : Repository)
    → r.runner_workflow_lock ≡ s.runner_workflow_lock
    → (if b then r else s).runner_workflow_lock ≡ s.runner_workflow_lock
lock-if true r s e = e
lock-if false r s e = refl

recover_queued-lock :
    (keys : Rows) (repo : Repository) (stale now retry recovered : ℕ)
    → (recover_queued_from keys repo stale now retry recovered).0.runner_workflow_lock
      ≡ repo.runner_workflow_lock
unfolding recover_queued_from mark_queue_enqueue_failed
recover_queued-lock [] repo stale now retry recovered = refl
recover_queued-lock ((key, _) ∷ rest) repo stale now retry recovered =
    recover_queued-lock rest _ stale now retry _ ∙ lock-if _ _ repo (update_if-lock repo key _ _)

take_lock-some :
    (id name : String) (now : ℕ) (outcome : Repository × Option WorkflowStartInput)
    {started : WorkflowStartInput} {r' : Repository}
    → take_lock id name now outcome ≡ (r', some started)
    → r'.runner_workflow_lock ≡ some (lock_at now id name started)
unfolding take_lock lock_at
take_lock-some id name now (repo, none) e = absurd (cc)
take_lock-some id name now (repo, some input) {started} {r'} e =
    sym (ap (λ p. p.0.runner_workflow_lock) e)
    ∙ ap (λ s. some (lock_at now id name s)) (some-cancel (ap (λ p. p.1) e))

-- A successful exclusive start takes the lock.
try_start-takes :
    (r : Repository) (id name : String) (now : ℕ) (count revision : Option ℕ)
    {started : WorkflowStartInput} {r' : Repository}
    → try_start_runner_workflow_exclusively r id name now count revision ≡ (r', some started)
    → r'.runner_workflow_lock ≡ some (lock_at now id name started)
unfolding try_start_runner_workflow_exclusively
try_start-takes r id name now count revision {started} {r'} e =
    elim (Bool-cases (is_locked r.runner_workflow_lock now)) [
      | inl locked ↦ absurd (ground arith)
      | inr free ↦
          take_lock-some id name now (mark_workflow_started r id name now count revision)
            {started = started} {r' = r'} (ground arith)
    ]

module _ (uid : UsgsEarthquakeCandidate → String) (stringify : TeeCoreResult → String)
    (validate : FinalizedResult → Option String) where
  -- A harmless step leaves the lock with its owner.
  pub Step-lock :
      (lock : RunnerWorkflowLockRow) {e : Event} {r r' : Repository}
      → Step uid stringify validate e r r'
      → IsHarmless lock e
      → r.runner_workflow_lock ≡ some lock
      → r'.runner_workflow_lock ≡ some lock
  unfolding upsert_candidate upsert_manual_event mark_workflow_stopped
      update_runner_workflow_progress mark_failed mark_relayer_succeeded mark_relayer_failed
      mark_source_archive_result mark_affected_cells_proof_registration_result
      mark_floor_census_processing mark_floor_census_result mark_queue_enqueue_failed
      claim_queued_for_processing record_runner_started record_runner_stopped
      record_runner_stop_failed defer_until mark_rejected recover_stale_processing
      recover_stale_queued
  Step-lock lock (Step.upsert r c now bypass) _ held = held
  Step-lock lock (Step.manual r id now requested) _ held = update_if-lock _ id _ _ ∙ held
  Step-lock lock (Step.claim_registration r id expected now) _ held =
      elim (claim_registration-cases r id expected now) [
        | inl same ↦ rw same held
        | inr (row, found, passes, e) ↦ rw e held
      ]
  Step-lock lock (Step.try_start r id name now count revision) early held =
      rw (try_start-locked r id name now count revision (locked_until lock r now held early)) held
  Step-lock lock (Step.start r id name now count revision) _ held =
      mark_workflow_started-lock r id name now count revision ∙ held
  Step-lock lock (Step.stop r id attempt now) foreign held =
      release_after-lock lock id attempt _ foreign (update_if-lock r id _ _ ∙ held)
  Step-lock lock (Step.progress r input) _ held = update_if-lock r _ _ _ ∙ held
  Step-lock lock (Step.fail r id code now retry message expected) _ held =
      update_if-lock r id _ _ ∙ held
  Step-lock lock (Step.apply r r' done id result now pending expected e) _ held =
      elim (apply_runner_result-cases stringify validate r id result now pending expected e) [
        | inl (same, _) ↦ rw same held
        | inr (row, applied, found, passes, ok_row, e', _) ↦ rw e' held
      ]
  Step-lock lock (Step.relayed r id success now expected) _ held = update_if-lock r id _ _ ∙ held
  Step-lock lock (Step.relay_failed r id mode code message now expected) _ held =
      update_if-lock r id _ _ ∙ held
  Step-lock lock (Step.archive r id input now expected) _ held = update_if-lock r id _ _ ∙ held
  Step-lock lock (Step.registration r id input now expected) _ held = update_if-lock r id _ _ ∙ held
  Step-lock lock (Step.census r id now expected) _ held = update_if-lock r id _ _ ∙ held
  Step-lock lock (Step.census_result r id input now expected) _ held =
      update_if-lock r id _ _ ∙ held
  Step-lock lock (Step.enqueue r id attempt job now revision) _ held =
      elim (enqueue_runner_job-cases r id attempt job now revision) [
        | inl same ↦ rw same held
        | inr (row, found, due, next, e) ↦ rw e held
      ]
  Step-lock lock (Step.enqueue_failed r id job now retry message) _ held =
      update_if-lock r id _ _ ∙ held
  Step-lock lock (Step.claim r job now timeout) _ held = update_if-lock r _ _ _ ∙ held
  Step-lock lock (Step.runner_started r id job runner now timeout) _ held =
      update_if-lock r id _ _ ∙ held
  Step-lock lock (Step.runner_stopped r id job now) _ held = update_if-lock r id _ _ ∙ held
  Step-lock lock (Step.stop_failed r id job message now) _ held = update_if-lock r id _ _ ∙ held
  Step-lock lock (Step.defer r id retry now) _ held = update_if-lock r id _ _ ∙ held
  Step-lock lock (Step.reject r id code now) _ held = update_if-lock r id _ _ ∙ held
  Step-lock lock (Step.recover_processing r stale now retry) _ held =
      recover_processing-lock r.rows r stale now retry 0 ∙ held
  Step-lock lock (Step.recover_queued r stale now retry) _ held =
      recover_queued-lock r.rows r stale now retry 0 ∙ held

  pub Run-lock :
      (lock : RunnerWorkflowLockRow) {r : Repository} {events : List Event} {r' : Repository}
      → r.runner_workflow_lock ≡ some lock
      → Run uid stringify validate r events r'
      → All (IsHarmless lock) events
      → r'.runner_workflow_lock ≡ some lock
  Run-lock lock held Run.here _ = held
  Run-lock lock held (Run.next run step) (harmless, rest) =
      Step-lock lock step harmless (Run-lock lock held run rest)

  -- An exclusive start that succeeded keeps every other one out: after any run in which the started
  -- attempt is not stopped and the times of the exclusive starts are before the end of its lease of
  -- ten minutes, one more exclusive start before that end, of any event, changes nothing and starts
  -- nothing.
  pub try_start-exclusive :
      (r : Repository) (id name : String) (now : ℕ) (count revision : Option ℕ)
      {started : WorkflowStartInput} {r' : Repository}
      → try_start_runner_workflow_exclusively r id name now count revision ≡ (r', some started)
      → {events : List Event} {r'' : Repository} → Run uid stringify validate r' events r''
      → All (IsHarmless (lock_at now id name started)) events
      → (id' name' : String) (later : ℕ) (count' revision' : Option ℕ)
      → later < now + failed_retry_backoff_ms
      → try_start_runner_workflow_exclusively r'' id' name' later count' revision' ≡ (r'', none)
  unfolding lock_at
  try_start-exclusive r id name now count revision {started} e {r'' = r''} run harmless id' name'
        later count' revision' early =
      let held =
        Run-lock (lock_at now id name started) (try_start-takes r id name now count revision e) run
          harmless in
      try_start-locked r'' id' name' later count' revision'
        (locked_until (lock_at now id name started) r'' later held early)
