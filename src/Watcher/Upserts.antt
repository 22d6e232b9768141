-- ===== src/Watcher/Upserts.antt =====
-- What a feed update and a manual request leave of a row: `upsertCandidate` and `upsertManualEvent`
-- of nautilus/verifiers/earthquake/watcher/src/state.ts.
use sonari.Prelude.{
  ℕ, ◌≡◌, ◌≢◌, ◌⊎◌, inl, inr, refl, sym, ◌∙◌, ap, Bool, true, false, Option, none, some, String,
  arith, Bool-cases, if◌then◌else◌, coalesce, false-true,
}
use sonari.Watcher.Types.{OffchainStatus, EarthquakeEventRow, UsgsEarthquakeCandidate}
use sonari.Watcher.Row.{
  is_due, is_result_terminal, is_new, is_ignored_small, screen_usgs_candidate,
  next_screening_status, is_active_runner_workflow, is_ready_for_retry_or_deadline,
}
use sonari.Watcher.Row.Fresh.{
  merge_preserving_result, reset_terminal_result_for_manual_rerun, base_row,
}
use sonari.Watcher.Repository.{
  Repository, get_row, update_if, candidate_row, rerun_row, status_of_row, manual_candidate,
  upsert_candidate, upsert_manual_event,
}
use sonari.Watcher.Repository.Workflow.{can_start}
use sonari.Watcher.Repository.Store.{get_row-set_row_self}

-- A row that has been screened in and has left the status `new`.
abbrev pub IsScreened : OffchainStatus → Type 0
IsScreened status = (is_new status ≡ false) × (is_ignored_small status ≡ false)

-- The row that a feed update leaves: its sighting is renewed, and nothing else.
unfoldable pub sighted_row :
    (UsgsEarthquakeCandidate → String)
    → EarthquakeEventRow
    → UsgsEarthquakeCandidate
    → ℕ
    → EarthquakeEventRow
sighted_row uid row candidate now = record row {
  requested_source_event_id =
      coalesce candidate.requested_source_event_id row.requested_source_event_id;
  event_uid = coalesce row.event_uid (some (uid candidate));
  last_seen_at_ms = now;
  source_updated_at_ms =
      if is_result_terminal row.status
      then row.source_updated_at_ms
      else some candidate.source_updated_at_ms;
  updated_at_ms = if is_active_runner_workflow row none then row.updated_at_ms else now;
}

pub next_screening_status-screened :
    (status screening : OffchainStatus)
    → IsScreened status
    → next_screening_status (some status) screening ≡ status
unfolding next_screening_status
next_screening_status-screened status screening (old, kept) = rw old (rw kept (ground arith))

-- An update with no test.
update-get_row :
    (repo : Repository) (k : String) (change : EarthquakeEventRow → EarthquakeEventRow)
    (row : EarthquakeEventRow)
    → get_row k repo.rows ≡ some row
    → get_row k (update_if repo k (λ _. true) change).0.rows ≡ some (change row)
unfolding update_if
update-get_row repo k change row found =
    rw (found, update_if) (get_row-set_row_self k (change row) repo.rows)

module _ (uid : UsgsEarthquakeCandidate → String) where
  upsert_candidate-get_row :
      (repo : Repository) (c : UsgsEarthquakeCandidate) (now : ℕ) (bypass : Bool)
      → get_row c.source_event_id (upsert_candidate uid repo c now bypass).rows
        ≡ some (
            merge_preserving_result
              (get_row c.source_event_id repo.rows)
              (candidate_row uid
                (get_row c.source_event_id repo.rows)
                c
                (next_screening_status
                  (status_of_row (get_row c.source_event_id repo.rows))
                  (if bypass then OffchainStatus.new else screen_usgs_candidate c))
                now)
              now)
  unfolding upsert_candidate
  upsert_candidate-get_row repo c now bypass = get_row-set_row_self c.source_event_id _ repo.rows

  pub merged-sighted :
      (row : EarthquakeEventRow) (c : UsgsEarthquakeCandidate) (status : OffchainStatus) (now : ℕ)
      → status ≡ row.status
      → IsScreened row.status
      → merge_preserving_result (some row) (candidate_row uid (some row) c status now) now
        ≡ sighted_row uid row c now
  unfolding merge_preserving_result candidate_row base_row sighted_row
  merged-sighted row c status now same (old, kept) = rw same (rw old (rw kept refl))

  -- A feed update or a new sighting of an event that was screened in and has been started, or has a
  -- result, renews the sighting in its row and keeps every other field: its status, its attempt, its
  -- retry time and its result.
  pub upsert_candidate-sighted :
      (repo : Repository) (c : UsgsEarthquakeCandidate) (now : ℕ) (bypass : Bool)
      (row : EarthquakeEventRow)
      → get_row c.source_event_id repo.rows ≡ some row
      → IsScreened row.status
      → get_row c.source_event_id (upsert_candidate uid repo c now bypass).rows
        ≡ some (sighted_row uid row c now)
  upsert_candidate-sighted repo c now bypass row found screened =
      upsert_candidate-get_row repo c now bypass
      ∙ sighted (get_row c.source_event_id repo.rows) found
    where
      sighted :
          (existing : Option EarthquakeEventRow)
          → existing ≡ some row
          → some (
              merge_preserving_result existing
                (candidate_row uid existing c
                  (next_screening_status
                    (status_of_row existing)
                    (if bypass then OffchainStatus.new else screen_usgs_candidate c))
                  now)
                now)
            ≡ some (sighted_row uid row c now)
      sighted existing e = rw e (
          ap (λ r. some r)
            (merged-sighted row c _ now (next_screening_status-screened row.status _ screened)
              screened))

  -- What a manual request may find: no row, or one that neither runs nor waits in the queue.
  abbrev pub IsIdleRow : Option EarthquakeEventRow → Type 0
  IsIdleRow none = Unit
  IsIdleRow (some row) =
      (row.status ≢ OffchainStatus.processing) × (row.status ≢ OffchainStatus.queued)

  -- Due, or with a final result.
  abbrev IsRestartable : OffchainStatus → Type 0
  IsRestartable status = (is_result_terminal status ≡ true) ⊎ (is_due status ≡ true)

  rerun_row-can_start :
      (row : EarthquakeEventRow) (now : ℕ)
      → IsRestartable row.status
      → can_start (rerun_row row now) now none ≡ true
  unfolding rerun_row can_start reset_terminal_result_for_manual_rerun
      is_ready_for_retry_or_deadline
  rerun_row-can_start row now restartable = elim (Bool-cases (is_result_terminal row.status)) [
    | inl terminal ↦ rw terminal refl
    | inr unfinished ↦ elim restartable [
      | inl terminal ↦ absurd (false-true (sym unfinished ∙ terminal))
      | inr due ↦ rw unfinished (rw due (rw due (ground arith)))
    ]
  ]

  screened-IsRestartable :
      (status : OffchainStatus)
      → status ≢ OffchainStatus.processing
      → status ≢ OffchainStatus.queued
      → IsRestartable (next_screening_status (some status) OffchainStatus.new)
  unfolding next_screening_status
  screened-IsRestartable OffchainStatus.processing away away' = absurd (away refl)
  screened-IsRestartable OffchainStatus.queued away away' = absurd (away' refl)
  screened-IsRestartable OffchainStatus.finalized away away' = inl refl
  screened-IsRestartable OffchainStatus.submitted away away' = inl refl
  screened-IsRestartable OffchainStatus.rejected away away' = inl refl
  screened-IsRestartable OffchainStatus.new away away' = inr refl
  screened-IsRestartable OffchainStatus.pending_source away away' = inr refl
  screened-IsRestartable OffchainStatus.pending_mmi away away' = inr refl
  screened-IsRestartable OffchainStatus.failed away away' = inr refl
  screened-IsRestartable OffchainStatus.ignored_small away away' = inr refl

  merged-IsRestartable :
      (existing : Option EarthquakeEventRow) (c : UsgsEarthquakeCandidate) (now : ℕ)
      → IsIdleRow existing
      → IsRestartable
          (merge_preserving_result existing
            (candidate_row uid existing c
              (next_screening_status (status_of_row existing) OffchainStatus.new)
              now)
            now).status
  unfolding merge_preserving_result candidate_row base_row next_screening_status
  merged-IsRestartable none c now idle = inr refl
  merged-IsRestartable (some row) c now (away, away') = screened-IsRestartable row.status away away'

  -- A manual request for an event that neither runs nor waits in the queue leaves a row that can be
  -- started at once: a new event, a due one whose retry time is not over, one with a final result and
  -- one that was ignored alike.
  pub upsert_manual_event-can_start :
      (repo : Repository) (id : String) (now : ℕ) (requested : Option String)
      → IsIdleRow (get_row id repo.rows)
      → (row : EarthquakeEventRow) × (get_row id
            (upsert_manual_event uid repo id now requested).rows
          ≡ some row)
        × (can_start row now none ≡ true)
  unfolding upsert_manual_event
  upsert_manual_event-can_start repo id now requested idle =
      let c = manual_candidate uid id requested now in
      let existing = get_row id repo.rows in
      let merged =
        merge_preserving_result existing
          (candidate_row uid existing c
            (next_screening_status (status_of_row existing) OffchainStatus.new) now)
          now in
      (
        rerun_row merged now,
        update-get_row (upsert_candidate uid repo c now true) id (λ row. rerun_row row now) merged
            (upsert_candidate-get_row repo c now true),
        rerun_row-can_start merged now (merged-IsRestartable existing c now idle),
      )
