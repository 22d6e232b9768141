-- ===== src/Watcher/DynamoDb/Recovery.antt =====
-- The scans of `DynamoDbStateRepository` and the recoveries that they drive
-- (nautilus/verifiers/earthquake/watcher/src/state.ts). A page is one `ScanCommand`, and the number
-- of pages is the fuel.
use sonari.Prelude.{
  ℕ, ◌+◌, Bool, false, ◌&&◌, Option, none, some, List, [], ◌∷◌, map, any, take, if◌then◌else◌, leb,
}
use sonari.Prelude.Sorting.{sort_from}
use sonari.Watcher.Types.{OffchainStatus, OracleErrorCode, EarthquakeEventRow}
use sonari.Watcher.Row.{
  is_processing, is_queued, some_le, is_due_affected_cells_proof_registration,
  is_active_runner_workflow,
}
use sonari.Watcher.Repository.Queries.{is_listed, registration_key}
use sonari.Watcher.DynamoDb.{Client, Command, Session, ◌>>=◌, return, try_send, scan_from}
use sonari.Watcher.DynamoDb.Reports.{mark_queue_enqueue_failed}

-- `filter`, with the key that the sort compares.
unfoldable pub keyed :
    (EarthquakeEventRow → Bool)
    → (EarthquakeEventRow → ℕ)
    → List EarthquakeEventRow
    → List (ℕ × EarthquakeEventRow)
keyed keep key [] = []
keyed keep key (row ∷ rows) =
    let rest = keyed keep key rows in if keep row then (key row, row) ∷ rest else rest

-- `filter(...).sort(...).slice(0, limit)`
unfoldable pub listed :
    (EarthquakeEventRow → Bool)
    → (EarthquakeEventRow → ℕ)
    → ℕ
    → List EarthquakeEventRow
    → List EarthquakeEventRow
listed keep key limit rows = take limit (map (λ e. e.1) (sort_from [] (keyed keep key rows)))

unfoldable pub stale_row_failed : ℕ → ℕ → ℕ → EarthquakeEventRow → EarthquakeEventRow
stale_row_failed retry_count now_ms next_retry_at_ms row = record row {
  status = OffchainStatus.failed;
  retry_count = retry_count;
  next_retry_at_ms = some next_retry_at_ms;
  error_code = some OracleErrorCode.aws_runner_timeout;
  runner_error_message = none;
  updated_at_ms = now_ms;
}

abbrev pub is_stale_processing : ℕ → EarthquakeEventRow → Bool
is_stale_processing stale_before_ms row =
    is_processing row.status && leb row.updated_at_ms stale_before_ms

abbrev pub is_stale_queued : ℕ → EarthquakeEventRow → Bool
is_stale_queued stale_before_ms row =
    is_queued row.status && some_le row.runner_queued_at_ms stale_before_ms

module _ (client : Client) where
  unfoldable pub scan_rows : ℕ → Session (List EarthquakeEventRow)
  scan_rows pages repo = (repo, scan_from client pages repo none [])

  unfoldable pub list_due : ℕ → ℕ → ℕ → Session (List EarthquakeEventRow)
  list_due pages now_ms limit = do
    rows ← scan_rows pages
    return (listed (is_listed now_ms) (λ row. row.updated_at_ms) limit rows)

  unfoldable pub list_due_affected_cells_proof_registrations :
      ℕ → ℕ → ℕ → Session (List EarthquakeEventRow)
  list_due_affected_cells_proof_registrations pages now_ms limit = do
    rows ← scan_rows pages
    return (
        listed (λ row. is_due_affected_cells_proof_registration row now_ms) registration_key limit
          rows)

  unfoldable pub has_active_runner_workflow : ℕ → Option ℕ → Session Bool
  has_active_runner_workflow pages stale_before_ms = do
    rows ← scan_rows pages
    return (any (λ row. is_active_runner_workflow row stale_before_ms) rows)

  unfoldable pub recover_stale_processing_row : EarthquakeEventRow → ℕ → ℕ → ℕ → Session Bool
  recover_stale_processing_row row stale_before_ms now_ms next_retry_at_ms = try_send client (
      Command.update row.source_event_id (is_stale_processing stale_before_ms)
        (stale_row_failed (row.retry_count + 1) now_ms next_retry_at_ms))

  -- The loop of `recoverStaleProcessing` over the scanned rows, with its counter.
  unfoldable pub recover_processing_rows : List EarthquakeEventRow → ℕ → ℕ → ℕ → ℕ → Session ℕ
  recover_processing_rows [] stale_before_ms now_ms next_retry_at_ms recovered = return recovered
  recover_processing_rows (row ∷ rows) stale_before_ms now_ms next_retry_at_ms recovered =
      (if is_stale_processing stale_before_ms row
        then recover_stale_processing_row row stale_before_ms now_ms next_retry_at_ms
        else return false)
      >>= λ done.
          recover_processing_rows rows stale_before_ms now_ms next_retry_at_ms
            (if done then recovered + 1 else recovered)

  unfoldable pub recover_stale_processing : ℕ → ℕ → ℕ → ℕ → Session ℕ
  recover_stale_processing pages stale_before_ms now_ms next_retry_at_ms = do
    rows ← scan_rows pages
    recover_processing_rows rows stale_before_ms now_ms next_retry_at_ms 0

  -- The loop of `recoverStaleQueued`: a row that another writer has taken meanwhile is counted too.
  unfoldable pub recover_queued_rows : List EarthquakeEventRow → ℕ → ℕ → ℕ → ℕ → Session ℕ
  recover_queued_rows [] stale_before_ms now_ms next_retry_at_ms recovered = return recovered
  recover_queued_rows (row ∷ rows) stale_before_ms now_ms next_retry_at_ms recovered =
      (if is_stale_queued stale_before_ms row
        then (mark_queue_enqueue_failed client row.source_event_id
              (elim row.runner_job_id [ none ↦ "" | some job ↦ job ]) now_ms next_retry_at_ms
              "queued runner job was not processed before stale timeout"
            >>= λ failed. return (recovered + 1))
        else return recovered)
      >>= λ counted. recover_queued_rows rows stale_before_ms now_ms next_retry_at_ms counted

  unfoldable pub recover_stale_queued : ℕ → ℕ → ℕ → ℕ → Session ℕ
  recover_stale_queued pages stale_before_ms now_ms next_retry_at_ms = do
    rows ← scan_rows pages
    recover_queued_rows rows stale_before_ms now_ms next_retry_at_ms 0
