-- ===== src/Watcher/Attempts.antt =====
-- The attempt numbers of rows (nautilus/verifiers/earthquake/watcher/src/state.ts), by which a late
-- report of an earlier attempt is told apart.
pub mod Stale
use sonari.Prelude.{
  ℕ, suc, ◌+◌, ◌≤◌, ◌≡◌, ◌⊎◌, inl, inr, refl, Bool, true, false, Option, none, some, String, arith,
  if◌then◌else◌,
}
use sonari.Watcher.Types.{
  OffchainStatus, SourceArchiveStatus, EarthquakeEventRow, SourceArchiveStateUpdate,
  UsgsEarthquakeCandidate, RelayerErrorCode, RelayerMode, RelayerSuccess,
}
use sonari.Watcher.Row.{is_due, is_result_terminal, is_ignored_small, next_screening_status}
use sonari.Watcher.Row.Fresh.{
  base_row, merge_preserving_result, reset_terminal_result_for_manual_rerun,
}
use sonari.Watcher.Row.Updates.{apply_source_archive_result_to_row, archive_status_effect}
use sonari.Watcher.Repository.{candidate_row, rerun_row, status_of_row}
use sonari.Watcher.Repository.Outcomes.{
  is_submit, is_duplicate_or_stale_move_rejection, relayed_row, relayer_failed_row,
}

-- What holds of a row's status, attempt and number of failed attempts between two operations.
pub record Fenced (status : OffchainStatus) (attempt : Option ℕ) (retries : ℕ) : Type 0 where
  pub processing_attempt : status ≡ OffchainStatus.processing → attempt ≡ some (retries + 1)
  pub queued_attempt : status ≡ OffchainStatus.queued → attempt ≡ some (retries + 1)
  pub bounded : (a : ℕ) → attempt ≡ some a → a ≤ retries + 1

abbrev pub IsFenced : EarthquakeEventRow → Type 0
IsFenced row = Fenced row.status row.runner_attempt row.retry_count

-- The attempt after the failed ones may run.
pub Fenced-next :
    (status : OffchainStatus) (retries : ℕ) → Fenced status (some (retries + 1)) retries
Fenced-next status retries = record {
  processing_attempt = λ _. refl;
  queued_attempt = λ _. refl;
  bounded = λ a e. ground arith;
}

abbrev pub IsIdle : OffchainStatus → Type 0
IsIdle status = (status ≡ OffchainStatus.processing → ⊥) × (status ≡ OffchainStatus.queued → ⊥)

-- A row may leave for any other status, and count the attempt as failed.
pub Fenced-idle :
    {status : OffchainStatus} {attempt : Option ℕ} {retries : ℕ} (idle : OffchainStatus)
    (retries' : ℕ)
    → IsIdle idle
    → retries ≤ retries'
    → Fenced status attempt retries
    → Fenced idle attempt retries'
Fenced-idle idle retries' away le h = record {
  processing_attempt = λ e. absurd (away.0 e);
  queued_attempt = λ e. absurd (away.1 e);
  bounded = λ a e. omega (arith, h.bounded a e);
}

Fenced-none : (status : OffchainStatus) (retries : ℕ) → IsIdle status → Fenced status none retries
Fenced-none status retries away = record {
  processing_attempt = λ e. absurd (away.0 e);
  queued_attempt = λ e. absurd (away.1 e);
  bounded = λ a e. absurd (cc);
}

IsFenced-if :
    (b : Bool) (x y : EarthquakeEventRow) → IsFenced x → IsFenced y → IsFenced (if b then x else y)
IsFenced-if true x y h k = h
IsFenced-if false x y h k = k

Fenced-if :
    (b : Bool) (idle : OffchainStatus) {status : OffchainStatus} {attempt : Option ℕ} {retries : ℕ}
    → IsIdle idle
    → Fenced status attempt retries
    → Fenced (if b then idle else status) attempt retries
Fenced-if true idle away h = Fenced-idle idle _ away (omega arith) h
Fenced-if false idle away h = h

pub rerun_row-IsFenced :
    (row : EarthquakeEventRow) (now : ℕ) → IsFenced row → IsFenced (rerun_row row now)
unfolding rerun_row reset_terminal_result_for_manual_rerun
rerun_row-IsFenced row now h =
    IsFenced-if (is_result_terminal row.status) _ _
      (Fenced-none OffchainStatus.new 0 ((λ e. cc), (λ e. cc)))
      (IsFenced-if (is_due row.status) _ _ h h)

pub relayed_row-IsFenced :
    (row : EarthquakeEventRow) (success : RelayerSuccess) (now : ℕ)
    → IsFenced row
    → IsFenced (relayed_row row success now)
unfolding relayed_row
relayed_row-IsFenced row success now h =
    Fenced-if (is_submit success.mode) OffchainStatus.submitted ((λ e. cc), (λ e. cc)) h

pub relayer_failed_row-IsFenced :
    (row : EarthquakeEventRow) (mode : RelayerMode) (code : RelayerErrorCode) (message : String)
    (now : ℕ)
    → IsFenced row
    → IsFenced (relayer_failed_row row mode code message now)
unfolding relayer_failed_row
relayer_failed_row-IsFenced row mode code message now h =
    Fenced-if (is_duplicate_or_stale_move_rejection code message) OffchainStatus.rejected
      ((λ e. cc), (λ e. cc)) h

archive_status_effect-IsFenced :
    (s : SourceArchiveStatus) (row : EarthquakeEventRow) (input : SourceArchiveStateUpdate)
    (now : ℕ)
    → IsFenced row
    → IsFenced (archive_status_effect s row input now)
unfolding archive_status_effect
archive_status_effect-IsFenced SourceArchiveStatus.retryable_failed row input now h =
    Fenced-idle OffchainStatus.failed (row.retry_count + 1) ((λ e. cc), (λ e. cc)) (omega arith) h
archive_status_effect-IsFenced SourceArchiveStatus.configuration_failed row input now h =
    Fenced-idle OffchainStatus.rejected row.retry_count ((λ e. cc), (λ e. cc)) (omega arith) h
archive_status_effect-IsFenced SourceArchiveStatus.integrity_failed row input now h =
    Fenced-idle OffchainStatus.rejected row.retry_count ((λ e. cc), (λ e. cc)) (omega arith) h
archive_status_effect-IsFenced _ row input now h = h

Fenced-new :
    (b : Bool) {screening : OffchainStatus} {attempt : Option ℕ} {retries : ℕ}
    → IsIdle screening
    → Fenced OffchainStatus.new attempt retries
    → Fenced (if b then OffchainStatus.new else screening) attempt retries
Fenced-new true away h = h
Fenced-new false away h = Fenced-idle _ _ away (omega arith) h

-- Screening keeps the status of a row that runs.
next_screening_status-Fenced :
    (status screening : OffchainStatus) {attempt : Option ℕ} {retries : ℕ}
    → IsIdle screening
    → Fenced status attempt retries
    → Fenced (next_screening_status (some status) screening) attempt retries
unfolding next_screening_status
next_screening_status-Fenced OffchainStatus.new screening away h =
    Fenced-new (is_ignored_small screening) away h
next_screening_status-Fenced OffchainStatus.ignored_small screening away h =
    Fenced-idle screening _ away (omega arith) h
next_screening_status-Fenced _ screening away h = h

pub archived-IsFenced :
    (row : EarthquakeEventRow) (input : SourceArchiveStateUpdate) (now : ℕ) (expected : Option ℕ)
    → IsFenced row
    → IsFenced (apply_source_archive_result_to_row row input now expected)
unfolding apply_source_archive_result_to_row
archived-IsFenced row input now expected h =
    archive_status_effect-IsFenced input.status _ input now h

-- The row that a feed update or a manual request leaves, as `upsertCandidate` merges it.
pub upserted-IsFenced :
    (uid : UsgsEarthquakeCandidate → String) (existing : Option EarthquakeEventRow)
    (candidate : UsgsEarthquakeCandidate) (screening : OffchainStatus) (now : ℕ)
    → IsIdle screening
    → ((row : EarthquakeEventRow) → existing ≡ some row → IsFenced row)
    → IsFenced (
        merge_preserving_result existing
          (candidate_row uid existing candidate
            (next_screening_status (status_of_row existing) screening)
            now)
          now)
unfolding merge_preserving_result candidate_row base_row next_screening_status
upserted-IsFenced uid none candidate screening now away h = Fenced-none screening 0 away
upserted-IsFenced uid (some row) candidate screening now away h =
    next_screening_status-Fenced row.status screening away (h row refl)
