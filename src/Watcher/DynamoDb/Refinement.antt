-- ===== src/Watcher/DynamoDb/Refinement.antt =====
-- Reports and the job queue: `DynamoDbStateRepository` next to `InMemoryStateRepository` of
-- nautilus/verifiers/earthquake/watcher/src/state.ts.
use sonari.Prelude.{
  ℕ, ◌≡◌, refl, sym, ◌∙◌, ap, inl, inr, Bool, true, false, ◌&&◌, Option, none, some, String, ok,
  arith, Bool-cases,
}
use sonari.Watcher.Row.{is_queued, is_number}
use sonari.Watcher.Types.{
  OffchainStatus, OracleErrorCode, RelayerMode, RelayerErrorCode, EarthquakeEventRow,
  RunnerQueueJob, SourceArchiveStatus, SourceArchiveStateUpdate,
  AffectedCellsProofRegistrationStateUpdate, FloorCensusStateUpdate, RelayerSuccess,
}
use sonari.Watcher.Row.Updates.{
  archive_status_effect, apply_source_archive_result_to_row,
  apply_affected_cells_proof_registration_result_to_row, apply_floor_census_result_to_row,
}
use sonari.Watcher.Repository.{Repository, is_expected_attempt, is_expected_processing}
use sonari.Watcher.Repository.Outcomes
use sonari.Watcher.Repository.Outcomes.{
  failed_row, relayed_row, relayer_failed_row, is_census_succeeded,
}
use sonari.Watcher.Repository.Queue
use sonari.Watcher.Repository.Queue.{is_job}
use sonari.Watcher.DynamoDb.{Client, return, get, put_condition, put_row, modify, modify_row}
use sonari.Watcher.DynamoDb.Reports
use sonari.Watcher.DynamoDb.Documented.{
  IsConditional, IsFresh, IsKeyed, answered, modify-update_if, put_row-done, >>=-answered,
}

-- The tests of a report imply the conditions of its put.
is_expected_attempt-put :
    (expected : Option ℕ) (row : EarthquakeEventRow)
    → is_expected_attempt expected row ≡ true
    → put_condition expected true (some row) ≡ true
unfolding is_expected_attempt put_condition
is_expected_attempt-put none row h = refl
is_expected_attempt-put (some attempt) row h = h

is_expected_processing-put :
    (expected : Option ℕ) (row : EarthquakeEventRow)
    → is_expected_processing expected row ≡ true
    → put_condition expected false (some row) ≡ true
unfolding is_expected_processing put_condition
is_expected_processing-put none row h = refl
is_expected_processing-put (some attempt) row h = h

archive_status_effect-key :
    (s : SourceArchiveStatus) (row : EarthquakeEventRow) (input : SourceArchiveStateUpdate)
    (now : ℕ)
    → (archive_status_effect s row input now).source_event_id ≡ row.source_event_id
unfolding archive_status_effect
archive_status_effect-key SourceArchiveStatus.retryable_failed row input now = refl
archive_status_effect-key SourceArchiveStatus.configuration_failed row input now = refl
archive_status_effect-key SourceArchiveStatus.integrity_failed row input now = refl
archive_status_effect-key _ row input now = refl

abbrev is_claimable : RunnerQueueJob → EarthquakeEventRow → Bool
is_claimable job row =
    is_queued row.status && is_job row job.runner_job_id && is_number row.runner_attempt job.attempt

abbrev claimed_job_row : ℕ → ℕ → EarthquakeEventRow → EarthquakeEventRow
claimed_job_row now timeout row = record row {
  status = OffchainStatus.processing;
  runner_timeout_at_ms = some timeout;
  updated_at_ms = now;
}

module _ (client : Client) (documented : IsConditional client) where
  -- Where reads are fresh and the row stands under its key, each of the seven reports on an attempt
  -- does to the table what the repository in memory does, and answers the same: a failure, the two
  -- answers of the relayer, the archive, the registration, and the start and the result of the
  -- census.
  pub reports_refine :
      (repo : Repository) (id : String) (now : ℕ) (expected : Option ℕ)
      → IsFresh client repo id
      → IsKeyed repo id
      → ((code : OracleErrorCode) (retry : ℕ) (message : Option String)
          → Reports.mark_failed client id code now retry message expected repo
            ≡ answered (Outcomes.mark_failed repo id code now retry message expected))
        × ((success : RelayerSuccess)
            → Reports.mark_relayer_succeeded client id success now expected repo
              ≡ answered (Outcomes.mark_relayer_succeeded repo id success now expected))
        × ((mode : RelayerMode) (code : RelayerErrorCode) (message : String)
            → Reports.mark_relayer_failed client id mode code message now expected repo
              ≡ answered (Outcomes.mark_relayer_failed repo id mode code message now expected))
        × ((input : SourceArchiveStateUpdate)
            → Reports.mark_source_archive_result client id input now expected repo
              ≡ answered (Outcomes.mark_source_archive_result repo id input now expected))
        × ((input : AffectedCellsProofRegistrationStateUpdate)
            → Reports.mark_affected_cells_proof_registration_result client id input now expected
                repo
              ≡ answered (
                  Outcomes.mark_affected_cells_proof_registration_result repo id input now
                    expected))
        × (Reports.mark_floor_census_processing client id now expected repo
            ≡ answered (Outcomes.mark_floor_census_processing repo id now expected))
        × ((input : FloorCensusStateUpdate)
            → Reports.mark_floor_census_result client id input now expected repo
              ≡ answered (Outcomes.mark_floor_census_result repo id input now expected))
  unfolding Reports.mark_failed Outcomes.mark_failed Reports.mark_relayer_succeeded
      Outcomes.mark_relayer_succeeded Reports.mark_relayer_failed Outcomes.mark_relayer_failed
      Reports.mark_source_archive_result Outcomes.mark_source_archive_result
      Reports.mark_affected_cells_proof_registration_result
      Outcomes.mark_affected_cells_proof_registration_result Reports.mark_floor_census_processing
      Outcomes.mark_floor_census_processing Reports.mark_floor_census_result
      Outcomes.mark_floor_census_result failed_row relayed_row relayer_failed_row
      apply_source_archive_result_to_row apply_affected_cells_proof_registration_result_to_row
      apply_floor_census_result_to_row
  reports_refine repo id now expected fresh keyed =
      let attempt = is_expected_attempt-put expected in
      (
        (λ code retry message.
            modify-update_if client documented repo id _ _ expected false fresh keyed (λ row. refl)
              (is_expected_processing-put expected)),
        (λ success.
            modify-update_if client documented repo id _ _ expected true fresh keyed (λ row. refl)
              attempt),
        (λ mode code message.
            modify-update_if client documented repo id _ _ expected true fresh keyed (λ row. refl)
              attempt),
        (λ input.
            modify-update_if client documented repo id _ _ expected true fresh keyed
              (λ row. archive_status_effect-key input.status _ input now) attempt),
        (λ input.
            modify-update_if client documented repo id _ _ expected true fresh keyed (λ row. refl)
              attempt),
        modify-update_if client documented repo id _ _ expected true fresh keyed (λ row. refl)
            (λ row h. attempt row (ground arith)),
        (λ input.
            modify-update_if client documented repo id _ _ expected true fresh keyed (λ row. refl)
              attempt),
      )

  -- An unconditional put answers that it is done, so a claim answers what its put does.
  claim_queued_row-modify_row :
      (repo : Repository) (job : RunnerQueueJob) (now timeout : ℕ)
      (stored : Option EarthquakeEventRow)
      → Reports.claim_queued_row client job now timeout stored repo
        ≡ modify_row client
            (is_claimable job)
            (λ row. ok (claimed_job_row now timeout row))
            none
            false
            stored
            repo
  unfolding Reports.claim_queued_row modify_row put_condition
  claim_queued_row-modify_row repo job now timeout none = refl
  claim_queued_row-modify_row repo job now timeout (some row) =
      elim (Bool-cases (is_claimable job row)) [
        | inr fails ↦ rw fails refl
        | inl passes ↦
            let put =
              put_row-done client documented repo (claimed_job_row now timeout row) none false
                refl in
            rw passes (
              >>=-answered (put_row client (claimed_job_row now timeout row) none false)
                (λ _. return true) repo put
              ∙ sym put)
      ]

  claim_queued-modify :
      (repo : Repository) (job : RunnerQueueJob) (now timeout : ℕ)
      → IsFresh client repo job.source_event_id
      → Reports.claim_queued_for_processing client job now timeout repo
        ≡ modify client job.source_event_id
            (is_claimable job)
            (λ row. ok (claimed_job_row now timeout row))
            none
            false
            repo
  unfolding Reports.claim_queued_for_processing modify get
  claim_queued-modify repo job now timeout fresh =
      rw fresh (claim_queued_row-modify_row repo job now timeout _)

  -- Where reads are fresh and the row of a job's event stands under its key, the operations of the
  -- job queue on that event leave the table that the repository in memory leaves: a failed
  -- enqueueing, a claim of the job, the start, the stop and the failed stop of a runner, and a
  -- rejection. The claim answers the same.
  pub queue_refines :
      (repo : Repository) (queued : RunnerQueueJob) (now : ℕ)
      → IsFresh client repo queued.source_event_id
      → IsKeyed repo queued.source_event_id
      → ((job message : String) (retry : ℕ)
          → (Reports.mark_queue_enqueue_failed client queued.source_event_id job now retry message
              repo).0
            ≡ Queue.mark_queue_enqueue_failed repo queued.source_event_id job now retry message)
        × ((timeout : ℕ)
            → Reports.claim_queued_for_processing client queued now timeout repo
              ≡ answered (Queue.claim_queued_for_processing repo queued now timeout))
        × ((job runner : String) (timeout : ℕ)
            → (Reports.record_runner_started client queued.source_event_id job runner now timeout
                repo).0
              ≡ Queue.record_runner_started repo queued.source_event_id job runner now timeout)
        × ((job : String)
            → (Reports.record_runner_stopped client queued.source_event_id job now repo).0
              ≡ Queue.record_runner_stopped repo queued.source_event_id job now)
        × ((job message : String)
            → (Reports.record_runner_stop_failed client queued.source_event_id job message now
                repo).0
              ≡ Queue.record_runner_stop_failed repo queued.source_event_id job message now)
        × ((code : OracleErrorCode)
            → (Reports.mark_rejected client queued.source_event_id code now repo).0
              ≡ Queue.mark_rejected repo queued.source_event_id code now)
  unfolding Reports.mark_queue_enqueue_failed Queue.mark_queue_enqueue_failed
      Reports.claim_queued_for_processing Queue.claim_queued_for_processing
      Reports.record_runner_started Queue.record_runner_started Reports.record_runner_stopped
      Queue.record_runner_stopped Reports.record_runner_stop_failed Queue.record_runner_stop_failed
      Reports.mark_rejected Queue.mark_rejected put_condition
  queue_refines repo queued now fresh keyed = (
    (λ job message retry.
        ap (λ outcome. outcome.0)
          (modify-update_if client documented repo queued.source_event_id _ _ none false fresh keyed
            (λ row. refl) (λ row h. refl))),
    (λ timeout.
        claim_queued-modify repo queued now timeout fresh
        ∙ modify-update_if client documented repo queued.source_event_id _ _ none false fresh keyed
            (λ row. refl) (λ row h. refl)),
    (λ job runner timeout.
        ap (λ outcome. outcome.0)
          (modify-update_if client documented repo queued.source_event_id _ _ none false fresh keyed
            (λ row. refl) (λ row h. refl))),
    (λ job.
        ap (λ outcome. outcome.0)
          (modify-update_if client documented repo queued.source_event_id _ _ none false fresh keyed
            (λ row. refl) (λ row h. refl))),
    (λ job message.
        ap (λ outcome. outcome.0)
          (modify-update_if client documented repo queued.source_event_id _ _ none false fresh keyed
            (λ row. refl) (λ row h. refl))),
    (λ code.
        ap (λ outcome. outcome.0)
          (modify-update_if client documented repo queued.source_event_id _ _ none false fresh keyed
            (λ row. refl) (λ row h. refl))),
  )
