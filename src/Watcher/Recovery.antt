-- ===== src/Watcher/Recovery.antt =====
-- What `recoverStaleProcessing` of nautilus/verifiers/earthquake/watcher/src/state.ts leaves behind.
use text.Mathlib.Text.{◌==◌ as str_eq}
use text.Mathlib.TextEquality.{eq_iff}
use text.Mathlib.TextPositions.{eq_refl}
use sonari.Prelude.{
  ℕ, ◌≡◌, inl, inr, refl, sym, ◌∙◌, ap, subst, Bool, true, false, ◌&&◌, none, some, String, [], ◌∷◌,
  arith, Bool-cases, Option-cases, some-cancel, none-some, false-true, leb,
}
use sonari.Watcher.Types.{OracleErrorCode, EarthquakeEventRow}
use sonari.Watcher.Row.{is_processing}
use sonari.Watcher.Repository.{Rows, Repository, get_row, set_row, update_if}
use sonari.Watcher.Repository.Outcomes.{failed_row}
use sonari.Watcher.Repository.Queue.{recover_processing_from, recover_stale_processing}
use sonari.Watcher.Repository.Store.{get_row-set_row, update_if-cases}

-- `row.status === "processing" && row.updated_at_ms <= staleBeforeMs`
abbrev pub is_stale : ℕ → EarthquakeEventRow → Bool
is_stale stale row = is_processing row.status && leb row.updated_at_ms stale

-- The event has no row that is in processing and stale.
abbrev pub IsSettled : ℕ → String → Repository → Type 0
IsSettled stale id repo =
    (row : EarthquakeEventRow) → get_row id repo.rows ≡ some row → is_stale stale row ≡ false

update_if-passes :
    (repo : Repository) (k : String) (guard : EarthquakeEventRow → Bool)
    (change : EarthquakeEventRow → EarthquakeEventRow) (row : EarthquakeEventRow)
    → get_row k repo.rows ≡ some row
    → guard row ≡ true
    → (update_if repo k guard change).1 ≡ true
unfolding update_if
update_if-passes repo k guard change row found passes = ground arith

module _ (stale now retry : ℕ) where
  abbrev recovered : EarthquakeEventRow → EarthquakeEventRow
  recovered row = failed_row row OracleErrorCode.aws_runner_timeout now retry none

  recovered-settled : (row : EarthquakeEventRow) → is_stale stale (recovered row) ≡ false
  unfolding failed_row
  recovered-settled row = refl

  abbrev recover : Repository → String → Repository × Bool
  recover repo key = update_if repo key (is_stale stale) recovered

  written-settled :
      (key id : String) (old row : EarthquakeEventRow) (rows : Rows)
      → ((r : EarthquakeEventRow)
          → str_eq key id ≡ false
          → get_row id rows ≡ some r
          → is_stale stale r ≡ false)
      → get_row id (set_row key (recovered old) rows) ≡ some row
      → is_stale stale row ≡ false
  written-settled key id old row rows h found =
      let chosen = sym (get_row-set_row key id (recovered old) rows) ∙ found in
      elim (Bool-cases (str_eq key id)) [
        | inl same ↦
            subst (λ r. is_stale stale r ≡ false) (some-cancel (rw same at chosen))
              (recovered-settled old)
        | inr other ↦ h row other (rw other at chosen)
      ]

  -- A row that the loop passes is settled.
  recover-IsSettled_key :
      (repo : Repository) (key : String) → IsSettled stale key (recover repo key).0
  recover-IsSettled_key repo key row found =
      elim (update_if-cases repo key (is_stale stale) recovered) [
        | inl same ↦ elim (Bool-cases (is_stale stale row)) [
          | inl running ↦ absurd (
              false-true (
                sym (ap (λ p. p.1) same)
                ∙ update_if-passes repo key (is_stale stale) recovered row
                    (ap (λ p. get_row key p.0.rows) (sym same) ∙ found) running))
          | inr settled ↦ settled
        ]
        | inr (old, old_found, passes, e) ↦
            written-settled key key old row repo.rows
              (λ r other _. absurd (false-true (sym other ∙ eq_refl key)))
              (ap (λ p. get_row key p.0.rows) (sym e) ∙ found)
      ]

  -- The loop settles no row back.
  recover-IsSettled :
      (repo : Repository) (key id : String)
      → IsSettled stale id repo
      → IsSettled stale id (recover repo key).0
  recover-IsSettled repo key id h row found =
      elim (update_if-cases repo key (is_stale stale) recovered) [
        | inl same ↦ h row (ap (λ p. get_row id p.0.rows) (sym same) ∙ found)
        | inr (old, old_found, passes, e) ↦
            written-settled key id old row repo.rows (λ r _ r_found. h r r_found)
              (ap (λ p. get_row id p.0.rows) (sym e) ∙ found)
      ]

  -- The loop keeps what is settled, whichever keys it visits.
  recover_processing_from-IsSettled :
      (keys : Rows) (repo : Repository) (count : ℕ) (id : String)
      → IsSettled stale id repo
      → IsSettled stale id (recover_processing_from keys repo stale now retry count).0
  unfolding recover_processing_from
  recover_processing_from-IsSettled [] repo count id h = h
  recover_processing_from-IsSettled ((key, _) ∷ rest) repo count id h =
      recover_processing_from-IsSettled rest (recover repo key).0 _ id
        (recover-IsSettled repo key id h)

  -- It settles the events whose keys it visits.
  recover_processing_from-visited :
      (keys : Rows) (repo : Repository) (count : ℕ) (id : String) (row : EarthquakeEventRow)
      → get_row id keys ≡ some row
      → IsSettled stale id (recover_processing_from keys repo stale now retry count).0
  unfolding recover_processing_from get_row
  recover_processing_from-visited [] repo count id row found = absurd (cc)
  recover_processing_from-visited ((key, _) ∷ rest) repo count id row found =
      elim (Bool-cases (str_eq key id)) [
        | inl here ↦ recover_processing_from-IsSettled rest (recover repo key).0 _ id (
            subst (λ k. IsSettled stale k (recover repo key).0) ((eq_iff key id).0 here)
              (recover-IsSettled_key repo key))
        | inr later ↦
            recover_processing_from-visited rest (recover repo key).0 _ id row (ground arith)
      ]

-- After `recoverStaleProcessing`, the row of no event is in processing and was last updated at or
-- before the stale time, whatever the repository held.
pub recover_stale_processing-settled :
    (repo : Repository) (stale now retry : ℕ) (id : String) (row : EarthquakeEventRow)
    → get_row id (recover_stale_processing repo stale now retry).0.rows ≡ some row
    → is_stale stale row ≡ false
unfolding recover_stale_processing
recover_stale_processing-settled repo stale now retry id =
    elim (Option-cases (get_row id repo.rows)) [
      | inl missing ↦
          recover_processing_from-IsSettled stale now retry repo.rows repo 0 id
            (λ row found. absurd (none-some (sym missing ∙ found)))
      | inr (row, found) ↦
          recover_processing_from-visited stale now retry repo.rows repo 0 id row found
    ]
