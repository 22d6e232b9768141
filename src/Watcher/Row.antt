-- ===== src/Watcher/Row.antt =====
-- The row functions of nautilus/verifiers/earthquake/watcher/src/state.ts, with constants.ts and
-- screening.ts. A function that assigns to a row's fields returns the new row.
pub mod Fresh
pub mod Updates
use sonari.Prelude.{
  ℕ, ◌+◌, Bool, true, false, ◌&&◌, ◌||◌, not, Option, none, some, String, leb, ◌==◌, if◌then◌else◌,
  coalesce,
}
use sonari.Watcher.Types.{
  OffchainStatus, OracleErrorCode, RunnerPhase, SourceArchiveStatus,
  AffectedCellsProofRegistrationStatus, FloorCensusStatus, UsgsAlertLevel, EarthquakeEventRow,
  UsgsEarthquakeCandidate, RunnerWorkflowProgressUpdate, SourceArchiveStateUpdate,
  AffectedCellsProofRegistrationStateUpdate, FloorCensusStateUpdate,
}

abbrev pub finalization_window_ms : ℕ
finalization_window_ms = 259200000

abbrev pub processing_stale_after_ms : ℕ
processing_stale_after_ms = 900000

abbrev pub failed_retry_backoff_ms : ℕ
failed_retry_backoff_ms = 600000

-- `DUE_STATUSES`, `TERMINAL_STATUSES` and `RESULT_TERMINAL_STATUSES`.
abbrev pub is_due : OffchainStatus → Bool
is_due OffchainStatus.new = true
is_due OffchainStatus.pending_source = true
is_due OffchainStatus.pending_mmi = true
is_due OffchainStatus.failed = true
is_due _ = false

abbrev pub is_terminal : OffchainStatus → Bool
is_terminal OffchainStatus.finalized = true
is_terminal OffchainStatus.submitted = true
is_terminal OffchainStatus.rejected = true
is_terminal OffchainStatus.ignored_small = true
is_terminal _ = false

abbrev pub is_result_terminal : OffchainStatus → Bool
is_result_terminal OffchainStatus.finalized = true
is_result_terminal OffchainStatus.submitted = true
is_result_terminal OffchainStatus.rejected = true
is_result_terminal _ = false

abbrev pub is_processing : OffchainStatus → Bool
is_processing OffchainStatus.processing = true
is_processing _ = false

abbrev pub is_queued : OffchainStatus → Bool
is_queued OffchainStatus.queued = true
is_queued _ = false

abbrev pub is_new : OffchainStatus → Bool
is_new OffchainStatus.new = true
is_new _ = false

abbrev pub is_ignored_small : OffchainStatus → Bool
is_ignored_small OffchainStatus.ignored_small = true
is_ignored_small _ = false

abbrev pub is_pending : OffchainStatus → Bool
is_pending OffchainStatus.pending_source = true
is_pending OffchainStatus.pending_mmi = true
is_pending _ = false

-- `a !== null && a <= b`
abbrev pub some_le : Option ℕ → ℕ → Bool
some_le none b = false
some_le (some a) b = leb a b

-- `a === b` of a number that may be null and a number.
abbrev pub is_number : Option ℕ → ℕ → Bool
is_number none b = false
is_number (some a) b = a == b

abbrev pub is_none {ℓ} : {A : Type ℓ} → Option A → Bool
is_none none = true
is_none (some a) = false

-- screening.ts, with thresholds in thousandths.
abbrev pub watcher_min_magnitude : ℕ
watcher_min_magnitude = 5500

abbrev pub watcher_min_summary_mmi : ℕ
watcher_min_summary_mmi = 6000

abbrev pub at_least : ℕ → Option ℕ → Bool
at_least least none = false
at_least least (some value) = leb least value

-- `alert !== null && WATCHER_ALERT_LEVELS.some(...)`
abbrev pub is_watched_alert : Option UsgsAlertLevel → Bool
is_watched_alert none = false
is_watched_alert (some UsgsAlertLevel.green) = false
is_watched_alert (some level) = true

unfoldable pub is_runner_eligible : UsgsEarthquakeCandidate → Bool
is_runner_eligible candidate =
    at_least watcher_min_magnitude candidate.magnitude
    || at_least watcher_min_summary_mmi candidate.summary_mmi
    || is_watched_alert candidate.alert
    || candidate.tsunami

-- The status of `screenUsgsCandidate`.
unfoldable pub screen_usgs_candidate : UsgsEarthquakeCandidate → OffchainStatus
unfolding is_runner_eligible
screen_usgs_candidate candidate =
    if is_runner_eligible candidate then OffchainStatus.new else OffchainStatus.ignored_small

unfoldable pub next_screening_status : Option OffchainStatus → OffchainStatus → OffchainStatus
next_screening_status none screening = screening
next_screening_status (some existing) screening =
    if is_ignored_small existing
    then screening
    else if is_new existing && is_ignored_small screening
    then OffchainStatus.new
    else if is_terminal existing || not (is_new existing)
    then existing
    else screening

unfoldable pub is_ready_for_retry_or_deadline : EarthquakeEventRow → ℕ → Bool
is_ready_for_retry_or_deadline row now_ms =
    if is_pending row.status && leb row.finalization_deadline_at_ms now_ms
    then true
    else is_none row.next_retry_at_ms || some_le row.next_retry_at_ms now_ms

abbrev pub is_archive_success : Option SourceArchiveStatus → Bool
is_archive_success (some SourceArchiveStatus.success) = true
is_archive_success _ = false

abbrev pub is_registration_retryable : Option AffectedCellsProofRegistrationStatus → Bool
is_registration_retryable (some AffectedCellsProofRegistrationStatus.retryable_failed) = true
is_registration_retryable _ = false

unfoldable pub is_due_affected_cells_proof_registration : EarthquakeEventRow → ℕ → Bool
is_due_affected_cells_proof_registration row now_ms =
    is_registration_retryable row.affected_cells_proof_registration_status
    && some_le row.affected_cells_proof_registration_next_retry_at_ms now_ms
    && is_archive_success row.source_archive_status
    && not (is_none row.runner_result_s3_key)
    && not (is_none row.runner_attempt)

abbrev pub is_ending_phase : Option RunnerPhase → Bool
is_ending_phase (some RunnerPhase.complete) = true
is_ending_phase (some RunnerPhase.stopping_instance) = true
is_ending_phase _ = false

unfoldable pub is_active_runner_workflow : EarthquakeEventRow → Option ℕ → Bool
is_active_runner_workflow row stale_before_ms =
    if at_least row.updated_at_ms stale_before_ms
    then false
    else is_processing row.status
      || is_ending_phase row.runner_phase
        && not (is_none row.runner_attempt)
        && not (is_none row.runner_started_at_ms)
        && is_none row.runner_stopped_at_ms
