-- ===== src/Watcher/DynamoDb/Scans.antt =====
-- The loops of `DynamoDbStateRepository` (nautilus/verifiers/earthquake/watcher/src/state.ts): over
-- the pages of a scan, and over the scanned rows of a recovery.
use text.Mathlib.Text.{◌==◌ as str_eq}
use mathlib.Core.List.{append_assoc}
use sonari.Prelude.{
  ℕ, zero, suc, ◌+◌, ◌≤◌, ◌≡◌, inl, inr, refl, sym, ◌∙◌, ap, Bool, true, false, Option, none, some,
  String, List, [], ◌∷◌, ◌++◌, map, Result, ok, arith, Bool-cases, if◌then◌else◌, All,
}
use sonari.Watcher.Types.{OracleErrorCode, EarthquakeEventRow}
use sonari.Watcher.Repository.{Rows, Repository, get_row}
use sonari.Watcher.Repository.Cases.{write}
use sonari.Watcher.Repository.Outcomes.{failed_row}
use sonari.Watcher.Repository.Queue
use sonari.Watcher.Repository.Store.{get_row-set_row, update_if-written, update_if-refused}
use sonari.Watcher.DynamoDb.{Client, Command, Item, try_send, Session, event_rows, scan_from}
use sonari.Watcher.DynamoDb.Documented.{IsConditional, answered, >>=-answered, update-written}
use sonari.Watcher.DynamoDb.Recovery
use sonari.Watcher.DynamoDb.Recovery.{
  is_stale_processing, stale_row_failed, scan_rows, recover_processing_rows,
}

module _ (client : Client) (repo : Repository) where
  -- The pages from a key on, how many they are, and the event rows on them.
  pub data IsPaged : Option String → ℕ → List EarthquakeEventRow → Type 0 where
    last_page :
        {start : Option String} {items : List Item}
        → client.scan_page repo start ≡ ok (items, none)
        → IsPaged start 1 (event_rows client items)
    page :
        {start : Option String} {items : List Item} {key : String} {pages : ℕ}
        {rows : List EarthquakeEventRow}
        → client.scan_page repo start ≡ ok (items, some key)
        → IsPaged (some key) pages rows
        → IsPaged start (suc pages) (event_rows client items ++ rows)

  scan_from-IsPaged :
      (fuel : ℕ) {start : Option String} {pages : ℕ} {rows : List EarthquakeEventRow}
      (before : List EarthquakeEventRow)
      → IsPaged start pages rows
      → pages ≤ fuel
      → scan_from client fuel repo start before ≡ ok (before ++ rows)
  unfolding scan_from
  scan_from-IsPaged zero before (last_page got) enough = absurd (omega arith)
  scan_from-IsPaged zero before (page got rest) enough = absurd (omega arith)
  scan_from-IsPaged (suc fuel) before (last_page got) enough = rw (got, scan_from) refl
  scan_from-IsPaged (suc fuel) before (page got rest) enough =
      rw (got, scan_from)
        (scan_from-IsPaged fuel (before ++ event_rows client _) rest (omega arith)
          ∙ ap (λ found. ok found) (append_assoc before _ _))

  -- A scan of a table of at most so many pages ends, and returns the event rows of all of them, in
  -- their order.
  pub scan_rows-IsPaged :
      (fuel pages : ℕ) (rows : List EarthquakeEventRow)
      → IsPaged none pages rows
      → pages ≤ fuel
      → scan_rows client fuel repo ≡ (repo, ok rows)
  unfolding scan_rows
  scan_rows-IsPaged fuel pages rows paged enough =
      ap (λ result. (repo, result)) (scan_from-IsPaged fuel [] paged enough)

-- Entries that stand in the table, each row under its own key, and no key twice.
pub data IsTable (repo : Repository) : Rows → Type 0 where
  empty : IsTable repo []
  entry :
      {key : String} {row : EarthquakeEventRow} {rest : Rows}
      → get_row key repo.rows ≡ some row
      → row.source_event_id ≡ key
      → All (λ other. str_eq key other.0 ≡ false) rest
      → IsTable repo rest
      → IsTable repo ((key, row) ∷ rest)

IsTable-write :
    (repo : Repository) (key : String) (row : EarthquakeEventRow) (rest : Rows)
    → All (λ other. str_eq key other.0 ≡ false) rest
    → IsTable repo rest
    → IsTable (write repo key row) rest
IsTable-write repo key row [] others empty = empty
IsTable-write repo key row ((k, old) ∷ rest) (other, others) (entry found at_key apart table) =
    entry (rw (get_row-set_row key k row repo.rows) (rw other found)) at_key apart
      (IsTable-write repo key row rest others table)

stale_row_failed-failed_row :
    (row : EarthquakeEventRow) (now next : ℕ)
    → stale_row_failed (row.retry_count + 1) now next row
      ≡ failed_row row OracleErrorCode.aws_runner_timeout now next none
unfolding stale_row_failed failed_row
stale_row_failed-failed_row row now next = refl

module _ (client : Client) (documented : IsConditional client) (stale now next : ℕ) where
  recover_stale_processing_row-written :
      (repo : Repository) (key : String) (row : EarthquakeEventRow)
      → get_row key repo.rows ≡ some row
      → row.source_event_id ≡ key
      → is_stale_processing stale row ≡ true
      → Recovery.recover_stale_processing_row client row stale now next repo ≡ (
        write repo key (failed_row row OracleErrorCode.aws_runner_timeout now next none),
        ok true,
      )
  unfolding Recovery.recover_stale_processing_row
  recover_stale_processing_row-written repo key row found at_key passes =
      ap
        (λ id.
          try_send client
            (Command.update id (is_stale_processing stale)
              (stale_row_failed (row.retry_count + 1) now next))
            repo)
        at_key
      ∙ update-written client documented repo key (is_stale_processing stale)
          (stale_row_failed (row.retry_count + 1) now next) row found passes
      ∙ ap (λ r. (write repo key r, ok true)) (stale_row_failed-failed_row row now next)

  -- The test of the loop in memory and its effect.
  abbrev failed : EarthquakeEventRow → EarthquakeEventRow
  failed row = failed_row row OracleErrorCode.aws_runner_timeout now next none

  -- The rest of the loop in memory, after the outcome of one update.
  abbrev after : Rows → ℕ → Repository × Bool → Repository × Result ℕ
  after rest count outcome = answered (
      Queue.recover_processing_from rest outcome.0 stale now next
        (if outcome.1 then count + 1 else count))

  abbrev go_on : Rows → ℕ → Bool → Session ℕ
  go_on rest count done =
      recover_processing_rows client (map (λ entry. entry.1) rest) stale now next
        (if done then count + 1 else count)

  -- The loop over the scanned rows is the loop over the keys in memory.
  recover_rows_refines :
      (entries : Rows) (repo : Repository) (count : ℕ)
      → IsTable repo entries
      → recover_processing_rows client (map (λ entry. entry.1) entries) stale now next count repo
        ≡ answered (Queue.recover_processing_from entries repo stale now next count)
  unfolding recover_processing_rows Queue.recover_processing_from
  recover_rows_refines [] repo count empty = refl
  recover_rows_refines ((key, row) ∷ rest) repo count (entry found at_key apart table) =
      elim (Bool-cases (is_stale_processing stale row)) [
        | inl passes ↦ rw passes (
            >>=-answered (Recovery.recover_stale_processing_row client row stale now next)
              (go_on rest count) repo
              (recover_stale_processing_row-written repo key row found at_key passes)
            ∙ recover_rows_refines rest (write repo key (failed row)) (count + 1)
                (IsTable-write repo key (failed row) rest apart table)
            ∙ ap (after rest count) (
                sym
                  (update_if-written repo key (is_stale_processing stale) failed row found passes)))
        | inr fails ↦ rw fails (
            recover_rows_refines rest repo count table
            ∙ ap (after rest count) (
                sym
                  (update_if-refused repo key (is_stale_processing stale) failed row found fails)))
      ]

  -- A recovery of a table of at most so many pages, whose scan returns its rows, each under its own
  -- key and no key twice, leaves in DynamoDB the table that it leaves in memory and answers the same
  -- count, and throws nothing.
  pub recover_refines :
      (repo : Repository) (fuel pages : ℕ)
      → IsPaged client repo none pages (map (λ entry. entry.1) repo.rows)
      → pages ≤ fuel
      → IsTable repo repo.rows
      → Recovery.recover_stale_processing client fuel stale now next repo
        ≡ answered (Queue.recover_stale_processing repo stale now next)
  unfolding Recovery.recover_stale_processing Queue.recover_stale_processing
  recover_refines repo fuel pages paged enough table =
      >>=-answered (scan_rows client fuel)
        (λ rows. recover_processing_rows client rows stale now next 0) repo
        (scan_rows-IsPaged client repo fuel pages _ paged enough)
      ∙ recover_rows_refines repo.rows repo 0 table
