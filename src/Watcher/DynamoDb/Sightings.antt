-- ===== src/Watcher/DynamoDb/Sightings.antt =====
-- What `upsertCandidate` and `upsertManualEvent` of `DynamoDbStateRepository` have in common with
-- those in memory (nautilus/verifiers/earthquake/watcher/src/state.ts).

use sonari.Prelude.{
  ℕ, ◌≡◌, ◌⊎◌, inl, inr, refl, sym, ◌∙◌, ap, Bool, true, false, Option, none, some, String, ok,
  arith, Bool-cases, Option-cases, if◌then◌else◌, coalesce,
}
use sonari.Watcher.Types.{OffchainStatus, EarthquakeEventRow, UsgsEarthquakeCandidate}
use sonari.Watcher.Row.{
  is_result_terminal, is_processing, is_new, is_active_runner_workflow, screen_usgs_candidate,
  next_screening_status,
}
use sonari.Watcher.Row.Fresh.{base_row, merge_preserving_result}
use sonari.Watcher.Repository
use sonari.Watcher.Repository.{
  Rows, Repository, get_row, set_row, update_if, candidate_row, rerun_row, manual_candidate,
}
use sonari.Watcher.Repository.Cases.{write}
use sonari.Watcher.Upserts.{IsScreened, sighted_row, merged-sighted, next_screening_status-screened}
use sonari.Watcher.DynamoDb.{Client, Session}
use sonari.Watcher.DynamoDb.Documented.{
  IsConditional, >>=-answered, update-written, update-refused, overwrite-done, overwrite-refused,
}
use sonari.Watcher.DynamoDb.Upserts
use sonari.Watcher.DynamoDb.Upserts.{
  or_else, screenable_condition, screened_row, is_stop_pending, non_terminal_condition,
  terminal_condition, non_terminal_update, terminal_update, active_update, rerun_update,
}

or_else-written :
    (first fallback : Session Bool) (repo : Repository) {repo' : Repository}
    → first repo ≡ (repo', ok true)
    → or_else first fallback repo ≡ (repo', ok true)
unfolding or_else
or_else-written first fallback repo e =
    >>=-answered first (λ written. if written then (λ r. (r, ok true)) else fallback) repo e

or_else-refused :
    (first fallback : Session Bool) (repo : Repository) {repo' : Repository}
    → first repo ≡ (repo', ok false)
    → or_else first fallback repo ≡ fallback repo'
unfolding or_else
or_else-refused first fallback repo e =
    >>=-answered first (λ written. if written then (λ r. (r, ok true)) else fallback) repo e

-- A sighting that brings no id that the row has not got.
abbrev pub IsRepeated :
    (UsgsEarthquakeCandidate → String) → EarthquakeEventRow → UsgsEarthquakeCandidate → Type 0
IsRepeated uid row candidate =
    (coalesce row.event_uid (some (uid candidate)) ≡ row.event_uid)
    × (coalesce candidate.requested_source_event_id row.requested_source_event_id
        ≡ row.requested_source_event_id)

-- The stored row that an upsert treats alike in memory and in DynamoDB: none, or one that was
-- screened in and has been started, that has no stop of an instance to wait for, unless it runs, and
-- to which the candidate brings no id.
abbrev pub IsSightable :
    (UsgsEarthquakeCandidate → String)
    → UsgsEarthquakeCandidate
    → Option EarthquakeEventRow
    → Type 0
IsSightable uid candidate none = Unit
IsSightable uid candidate (some row) =
    IsScreened row.status
    × ((is_processing row.status ≡ true) ⊎ (is_stop_pending row ≡ false))
    × IsRepeated uid row candidate

screened-refused :
    (row : EarthquakeEventRow) (screening : OffchainStatus)
    → IsScreened row.status
    → screenable_condition screening (some row) ≡ false
unfolding screenable_condition
screened-refused row screening (old, kept) = rw (old, kept) (ground arith)

inactive :
    (row : EarthquakeEventRow)
    → is_processing row.status ≡ false
    → is_stop_pending row ≡ false
    → is_active_runner_workflow row none ≡ false
unfolding is_active_runner_workflow
inactive row idle pending = ground arith

processing-not_terminal :
    (status : OffchainStatus) → is_processing status ≡ true → is_result_terminal status ≡ false
processing-not_terminal OffchainStatus.processing e = refl
processing-not_terminal _ e = absurd (cc)

processing-IsActive :
    (row : EarthquakeEventRow)
    → is_processing row.status ≡ true
    → is_active_runner_workflow row none ≡ true
unfolding is_active_runner_workflow
processing-IsActive row running = ground arith

module _ (uid : UsgsEarthquakeCandidate → String) where
  module _ (row : EarthquakeEventRow) (c : UsgsEarthquakeCandidate) (now : ℕ)
      (repeated : IsRepeated uid row c) where
    active_update-sighted :
        is_processing row.status ≡ true → active_update c now row ≡ sighted_row uid row c now
    unfolding active_update sighted_row
    active_update-sighted running =
        rw
          (
            repeated.0,
            repeated.1,
            processing-not_terminal row.status running,
            processing-IsActive row running,
          )
          refl

    terminal_update-sighted :
        is_processing row.status ≡ false
        → is_result_terminal row.status ≡ true
        → is_stop_pending row ≡ false
        → terminal_update now row ≡ sighted_row uid row c now
    unfolding terminal_update sighted_row
    terminal_update-sighted idle terminal settled =
        rw (repeated.0, repeated.1, terminal, inactive row idle settled) refl

    non_terminal_update-sighted :
        is_processing row.status ≡ false
        → is_result_terminal row.status ≡ false
        → is_stop_pending row ≡ false
        → non_terminal_update c now row ≡ sighted_row uid row c now
    unfolding non_terminal_update sighted_row
    non_terminal_update-sighted idle current settled =
        rw (repeated.0, repeated.1, current, inactive row idle settled) refl

  screened_row-candidate_row :
      (c : UsgsEarthquakeCandidate) (screening : OffchainStatus) (now : ℕ)
      → screened_row uid c screening now ≡ candidate_row uid none c screening now
  unfolding screened_row candidate_row
  screened_row-candidate_row c screening now = elim (Bool-cases (is_new screening)) [
    | inl new ↦ rw new refl
    | inr old ↦ rw old refl
  ]

module _ (client : Client) (documented : IsConditional client) where
  module _ (uid : UsgsEarthquakeCandidate → String) where
    module _ (repo : Repository) (c : UsgsEarthquakeCandidate) (now : ℕ) (row : EarthquakeEventRow)
        (found : get_row c.source_event_id repo.rows ≡ some row)
        (repeated : IsRepeated uid row c) where
      metadata-processing :
          is_processing row.status ≡ true
          → Upserts.update_watcher_metadata client c now repo
            ≡ (write repo c.source_event_id (sighted_row uid row c now), ok true)
      unfolding Upserts.update_watcher_metadata Upserts.update_non_terminal_watcher_metadata_fields
          Upserts.update_terminal_watcher_metadata_fields
          Upserts.update_active_watcher_metadata_fields non_terminal_condition terminal_condition
      metadata-processing running =
          or_else-refused _ _ repo (
            update-refused client documented repo c.source_event_id non_terminal_condition
              (non_terminal_update c now) row found (ground arith))
          ∙ or_else-refused _ _ repo (
              update-refused client documented repo c.source_event_id terminal_condition
                (terminal_update now) row found
                (rw (processing-not_terminal row.status running) refl))
          ∙ update-written client documented repo c.source_event_id (λ r. is_processing r.status)
              (active_update c now) row found running
          ∙ ap (λ r. (write repo c.source_event_id r, ok true))
              (active_update-sighted uid row c now repeated running)

      metadata-terminal :
          is_processing row.status ≡ false
          → is_result_terminal row.status ≡ true
          → is_stop_pending row ≡ false
          → Upserts.update_watcher_metadata client c now repo
            ≡ (write repo c.source_event_id (sighted_row uid row c now), ok true)
      unfolding Upserts.update_watcher_metadata Upserts.update_non_terminal_watcher_metadata_fields
          Upserts.update_terminal_watcher_metadata_fields non_terminal_condition terminal_condition
      metadata-terminal idle terminal settled =
          or_else-refused _ _ repo (
            update-refused client documented repo c.source_event_id non_terminal_condition
              (non_terminal_update c now) row found (ground arith))
          ∙ or_else-written _ _ repo (
              update-written client documented repo c.source_event_id terminal_condition
                (terminal_update now) row found (ground arith))
          ∙ ap (λ r. (write repo c.source_event_id r, ok true))
              (terminal_update-sighted uid row c now repeated idle terminal settled)

      metadata-current :
          is_processing row.status ≡ false
          → is_result_terminal row.status ≡ false
          → is_stop_pending row ≡ false
          → Upserts.update_watcher_metadata client c now repo
            ≡ (write repo c.source_event_id (sighted_row uid row c now), ok true)
      unfolding Upserts.update_watcher_metadata Upserts.update_non_terminal_watcher_metadata_fields
          non_terminal_condition
      metadata-current idle current settled =
          or_else-written _ _ repo (
            update-written client documented repo c.source_event_id non_terminal_condition
              (non_terminal_update c now) row found (ground arith))
          ∙ ap (λ r. (write repo c.source_event_id r, ok true))
              (non_terminal_update-sighted uid row c now repeated idle current settled)

      metadata-sighted :
          ((is_processing row.status ≡ true) ⊎ (is_stop_pending row ≡ false))
          → Upserts.update_watcher_metadata client c now repo
            ≡ (write repo c.source_event_id (sighted_row uid row c now), ok true)
      metadata-sighted (inl running) = metadata-processing running
      metadata-sighted (inr settled) = elim (Bool-cases (is_processing row.status)) [
        | inl running ↦ metadata-processing running
        | inr idle ↦ elim (Bool-cases (is_result_terminal row.status)) [
          | inl terminal ↦ metadata-terminal idle terminal settled
          | inr current ↦ metadata-current idle current settled
        ]
      ]

    pub memory-new :
        (repo : Repository) (c : UsgsEarthquakeCandidate) (now : ℕ) (bypass : Bool)
        → get_row c.source_event_id repo.rows ≡ none
        → Repository.upsert_candidate uid repo c now bypass
          ≡ write repo c.source_event_id (
              candidate_row uid none c
                (if bypass then OffchainStatus.new else screen_usgs_candidate c)
                now)
    unfolding Repository.upsert_candidate merge_preserving_result next_screening_status
    memory-new repo c now bypass missing = rw missing refl

    pub memory-sighted :
        (repo : Repository) (c : UsgsEarthquakeCandidate) (now : ℕ) (bypass : Bool)
        (row : EarthquakeEventRow)
        → get_row c.source_event_id repo.rows ≡ some row
        → IsScreened row.status
        → Repository.upsert_candidate uid repo c now bypass
          ≡ write repo c.source_event_id (sighted_row uid row c now)
    unfolding Repository.upsert_candidate
    memory-sighted repo c now bypass row found screened = rw found (
        ap (write repo c.source_event_id) (
          merged-sighted uid row c _ now (next_screening_status-screened row.status _ screened)
            screened))

    -- An upsert of a candidate that has no row, or whose row is sightable, leaves in DynamoDB the
    -- table that it leaves in memory, and throws nothing.
    pub upsert_refines :
        (repo : Repository) (c : UsgsEarthquakeCandidate) (now : ℕ) (bypass : Bool)
        → IsSightable uid c (get_row c.source_event_id repo.rows)
        → Upserts.upsert_candidate client uid c now bypass repo
          ≡ (Repository.upsert_candidate uid repo c now bypass, ok true)
    unfolding Upserts.upsert_candidate Upserts.update_screenable_candidate screenable_condition
        screened_row base_row
    upsert_refines repo c now bypass sightable =
        let screening : OffchainStatus =
          if bypass then OffchainStatus.new else screen_usgs_candidate c in
        elim (Option-cases (get_row c.source_event_id repo.rows)) [
          | inl missing ↦
              or_else-written _ _ repo (
                overwrite-done client documented repo (screenable_condition screening)
                  (screened_row uid c screening now) (passes screening missing))
              ∙ ap (λ row. (write repo c.source_event_id row, ok true))
                  (screened_row-candidate_row uid c screening now)
              ∙ ap (λ r. (r, ok true)) (sym (memory-new repo c now bypass missing))
          | inr (row, found) ↦
              let (screened, settled, repeated) = rw found at sightable in
              or_else-refused _ _ repo (
                overwrite-refused client documented repo (screenable_condition screening)
                  (screened_row uid c screening now)
                  (ap (screenable_condition screening) found
                    ∙ screened-refused row screening screened))
              ∙ metadata-sighted repo c now row found repeated settled
              ∙ ap (λ r. (r, ok true)) (sym (memory-sighted repo c now bypass row found screened))
        ]
      where
        passes :
            (screening : OffchainStatus)
            → get_row c.source_event_id repo.rows ≡ none
            → screenable_condition screening (get_row c.source_event_id repo.rows) ≡ true
        passes screening missing = ap (screenable_condition screening) missing
