-- ===== src/Watcher/DynamoDb/Manual.antt =====
-- `upsertManualEvent` of `DynamoDbStateRepository` and the one in memory
-- (nautilus/verifiers/earthquake/watcher/src/state.ts).

use text.Mathlib.Text.{◌==◌ as str_eq}
use sonari.Prelude.{
  ℕ, ◌≡◌, inl, inr, refl, sym, ◌∙◌, ap, Bool, true, false, Option, none, some, String, [], ◌∷◌, ok,
  Bool-cases, Option-cases, some-cancel,
}
use sonari.Watcher.Types.{OffchainStatus, EarthquakeEventRow, UsgsEarthquakeCandidate}
use sonari.Watcher.Row.{is_due, is_result_terminal}
use sonari.Watcher.Row.Fresh.{base_row, reset_terminal_result_for_manual_rerun}
use sonari.Watcher.Repository
use sonari.Watcher.Repository.{
  Rows, Repository, get_row, set_row, update_if, candidate_row, rerun_row, manual_candidate,
}
use sonari.Watcher.Repository.Cases.{write}
use sonari.Watcher.Repository.Store.{get_row-set_row_self, update_if-written, update_if-refused}
use sonari.Watcher.Upserts.{sighted_row}
use sonari.Watcher.DynamoDb.{Client, Session, ◌>>=◌, put_condition}
use sonari.Watcher.DynamoDb.Documented.{
  IsConditional, IsFresh, IsKeyed, answered, >>=-answered, modify-update_if, update-written,
  update-refused,
}
use sonari.Watcher.DynamoDb.Upserts
use sonari.Watcher.DynamoDb.Upserts.{
  or_else, screenable_condition, screened_row, is_stop_pending, non_terminal_condition,
  terminal_condition, non_terminal_update, terminal_update, active_update, rerun_update,
}
use sonari.Watcher.DynamoDb.Sightings.{IsSightable, upsert_refines, memory-new, memory-sighted}

set_row-get_row :
    (k : String) (row : EarthquakeEventRow) (rows : Rows)
    → get_row k rows ≡ some row
    → set_row k row rows ≡ rows
unfolding set_row get_row
set_row-get_row k row [] found = absurd (cc)
set_row-get_row k row ((i, old) ∷ rows) found = elim (Bool-cases (str_eq i k)) [
  | inl here ↦ rw here (ap (λ r. (i, r) ∷ rows) (some-cancel (sym (rw here at found))))
  | inr later ↦
      rw later (ap (λ rest. (i, old) ∷ rest) (set_row-get_row k row rows (rw later at found)))
]

due-not_terminal :
    (status : OffchainStatus) → is_due status ≡ true → is_result_terminal status ≡ false
due-not_terminal OffchainStatus.new e = refl
due-not_terminal OffchainStatus.pending_source e = refl
due-not_terminal OffchainStatus.pending_mmi e = refl
due-not_terminal OffchainStatus.failed e = refl
due-not_terminal _ e = absurd (cc)

module _ (client : Client) (documented : IsConditional client) where
  module _ (uid : UsgsEarthquakeCandidate → String) where
    manual_part : String → ℕ → Session Bool
    manual_part id now = Upserts.clear_manual_retry_backoff client id now >>= λ cleared.
        Upserts.reset_manual_terminal_result client id now

    module _ (id : String) (now : ℕ) (fresh : (repo : Repository) → IsFresh client repo id) where
      reset-update_if :
          (repo : Repository)
          → IsKeyed repo id
          → Upserts.reset_manual_terminal_result client id now repo
            ≡ answered (
                update_if repo id
                  (λ row. is_result_terminal row.status)
                  (λ row. reset_terminal_result_for_manual_rerun row now))
      unfolding Upserts.reset_manual_terminal_result reset_terminal_result_for_manual_rerun
          put_condition
      reset-update_if repo keyed =
          modify-update_if client documented repo id (λ row. is_result_terminal row.status)
            (λ row. reset_terminal_result_for_manual_rerun row now) none false (fresh repo) keyed
            (λ row. refl) (λ row passes. refl)

      module _ (repo : Repository) (row : EarthquakeEventRow)
          (found : get_row id repo.rows ≡ some row) (at_id : row.source_event_id ≡ id) where
        keyed : IsKeyed repo id
        keyed r e = ap (λ q. q.source_event_id) (some-cancel (sym e ∙ found)) ∙ at_id

        reset-written :
            is_result_terminal row.status ≡ true
            → Upserts.reset_manual_terminal_result client id now repo
              ≡ (write repo id (reset_terminal_result_for_manual_rerun row now), ok true)
        reset-written terminal =
            reset-update_if repo keyed
            ∙ ap answered (
                update_if-written repo id (λ r. is_result_terminal r.status)
                  (λ r. reset_terminal_result_for_manual_rerun r now) row found terminal)

        reset-refused :
            is_result_terminal row.status ≡ false
            → Upserts.reset_manual_terminal_result client id now repo ≡ (repo, ok false)
        reset-refused current =
            reset-update_if repo keyed
            ∙ ap answered (
                update_if-refused repo id (λ r. is_result_terminal r.status)
                  (λ r. reset_terminal_result_for_manual_rerun r now) row found current)

      manual_part-cleared :
          (repo : Repository) {repo' : Repository} {wrote : Bool}
          → Upserts.clear_manual_retry_backoff client id now repo ≡ (repo', ok wrote)
          → manual_part id now repo ≡ Upserts.reset_manual_terminal_result client id now repo'
      unfolding manual_part
      manual_part-cleared repo e =
          >>=-answered (Upserts.clear_manual_retry_backoff client id now)
            (λ cleared. Upserts.reset_manual_terminal_result client id now) repo e

      module _ (repo : Repository) (row : EarthquakeEventRow)
          (found : get_row id repo.rows ≡ some row) (at_id : row.source_event_id ≡ id) where
        manual_part-due :
            is_due row.status ≡ true
            → manual_part id now repo ≡ (write repo id (rerun_row row now), ok false)
        unfolding Upserts.clear_manual_retry_backoff rerun_row rerun_update
        manual_part-due due =
            manual_part-cleared repo (
              update-written client documented repo id (λ r. is_due r.status) (rerun_update now) row
                found due)
            ∙ reset-refused (write repo id (rerun_update now row)) (rerun_update now row)
                (get_row-set_row_self id (rerun_update now row) repo.rows) at_id
                (due-not_terminal row.status due)
            ∙ rw (due-not_terminal row.status due, due) refl

        manual_part-terminal :
            is_due row.status ≡ false
            → is_result_terminal row.status ≡ true
            → manual_part id now repo ≡ (write repo id (rerun_row row now), ok true)
        unfolding Upserts.clear_manual_retry_backoff rerun_row
        manual_part-terminal away terminal =
            manual_part-cleared repo (
              update-refused client documented repo id (λ r. is_due r.status) (rerun_update now) row
                found away)
            ∙ reset-written repo row found at_id terminal
            ∙ rw terminal refl

        manual_part-other :
            is_due row.status ≡ false
            → is_result_terminal row.status ≡ false
            → manual_part id now repo ≡ (write repo id (rerun_row row now), ok false)
        unfolding Upserts.clear_manual_retry_backoff rerun_row
        manual_part-other away current =
            manual_part-cleared repo (
              update-refused client documented repo id (λ r. is_due r.status) (rerun_update now) row
                found away)
            ∙ reset-refused repo row found at_id current
            ∙ rw (current, away)
                (ap (λ rows. (record repo { rows = rows }, ok false))
                  (sym (set_row-get_row id row repo.rows found)))

        manual_part-rerun :
            (wrote : Bool) × (manual_part id now repo
              ≡ (write repo id (rerun_row row now), ok wrote))
        manual_part-rerun = elim (Bool-cases (is_due row.status)) [
          | inl due ↦ (false, manual_part-due due)
          | inr away ↦ elim (Bool-cases (is_result_terminal row.status)) [
            | inl terminal ↦ (true, manual_part-terminal away terminal)
            | inr current ↦ (false, manual_part-other away current)
          ]
        ]

      -- A manual request part by part, where the upsert has answered and written a row.
      manual_refines_upserted :
          (repo : Repository) (requested : Option String) (row : EarthquakeEventRow)
          → IsSightable uid (manual_candidate uid id requested now) (get_row id repo.rows)
          → Repository.upsert_candidate uid repo (manual_candidate uid id requested now) now true
            ≡ write repo id row
          → row.source_event_id ≡ id
          → (wrote : Bool) × (Upserts.upsert_manual_event client uid id now requested repo
              ≡ (Repository.upsert_manual_event uid repo id now requested, ok wrote))
      unfolding Upserts.upsert_manual_event Repository.upsert_manual_event manual_part
      manual_refines_upserted repo requested row sightable upserted at_id =
          let c = manual_candidate uid id requested now in
          let stored : get_row id (write repo id row).rows ≡ some row =
            get_row-set_row_self id row repo.rows in
          let (wrote, rerun) = manual_part-rerun (write repo id row) row stored at_id in
          (
            wrote,
            >>=-answered (Upserts.upsert_candidate client uid c now true)
                  (λ written. manual_part id now) repo
                  (upsert_refines client documented uid repo c now true sightable)
                ∙ ap (manual_part id now) upserted
                ∙ rerun
                ∙ ap (λ outcome. (outcome.0, ok wrote))
                    (sym (
                      update_if-written (write repo id row) id (λ _. true) (λ r. rerun_row r now)
                        row stored refl))
                ∙ ap (λ r. ((update_if r id (λ _. true) (λ q. rerun_row q now)).0, ok wrote))
                    (sym upserted),
          )

      -- A manual request for an event that has no row, or whose row is sightable, leaves in DynamoDB
      -- the table that it leaves in memory, and throws nothing, where reads of the event's row are
      -- fresh.
      pub manual_refines :
          (repo : Repository) (requested : Option String)
          → IsSightable uid (manual_candidate uid id requested now) (get_row id repo.rows)
          → IsKeyed repo id
          → (wrote : Bool) × (Upserts.upsert_manual_event client uid id now requested repo
              ≡ (Repository.upsert_manual_event uid repo id now requested, ok wrote))
      unfolding candidate_row base_row sighted_row
      manual_refines repo requested sightable at_id =
          let c = manual_candidate uid id requested now in
          elim (Option-cases (get_row id repo.rows)) [
            | inl missing ↦
                manual_refines_upserted repo requested _ sightable
                  (memory-new client documented uid repo c now true missing) refl
            | inr (row, found) ↦
                manual_refines_upserted repo requested _ sightable
                  (memory-sighted client documented uid repo c now true row found
                    (rw found at sightable).0)
                  (at_id row found)
          ]
