-- ===== src/Watcher/Repository/Queries.antt =====
-- The queries of `InMemoryStateRepository` (nautilus/verifiers/earthquake/watcher/src/state.ts). A
-- clone of a row is the row.
use sonari.Prelude.{ℕ, Bool, ◌&&◌, Option, String, List, [], ◌∷◌, map, if◌then◌else◌, take}
use sonari.Prelude.Sorting.{sort_from}
use sonari.Watcher.Types.{EarthquakeEventRow}
use sonari.Watcher.Row.{
  is_due, is_ready_for_retry_or_deadline, is_due_affected_cells_proof_registration,
}
use sonari.Watcher.TeeResult.{get_or}
use sonari.Watcher.Repository.{Rows, Repository, get_row}

-- `filter`, with the key that the sort compares.
unfoldable pub keyed_rows :
    (EarthquakeEventRow → Bool) → (EarthquakeEventRow → ℕ) → Rows → List (ℕ × EarthquakeEventRow)
keyed_rows keep key [] = []
keyed_rows keep key ((_, row) ∷ rows) =
    let rest = keyed_rows keep key rows in if keep row then (key row, row) ∷ rest else rest

unfoldable pub get : Repository → String → Option EarthquakeEventRow
get repo id = get_row id repo.rows

abbrev pub is_listed : ℕ → EarthquakeEventRow → Bool
is_listed now_ms row = is_due row.status && is_ready_for_retry_or_deadline row now_ms

unfoldable pub list_due : Repository → ℕ → ℕ → List EarthquakeEventRow
list_due repo now_ms limit = take limit (
    map (λ e. e.1)
      (sort_from [] (keyed_rows (is_listed now_ms) (λ row. row.updated_at_ms) repo.rows)))

abbrev pub registration_key : EarthquakeEventRow → ℕ
registration_key row =
    get_or row.affected_cells_proof_registration_next_retry_at_ms row.updated_at_ms

unfoldable pub list_due_affected_cells_proof_registrations :
    Repository → ℕ → ℕ → List EarthquakeEventRow
list_due_affected_cells_proof_registrations repo now_ms limit = take limit (
    map (λ e. e.1)
      (sort_from [] (
        keyed_rows (λ row. is_due_affected_cells_proof_registration row now_ms) registration_key
          repo.rows)))
