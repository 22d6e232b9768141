-- ===== src/Watcher/Steps/Keep.antt =====
-- The attempts of the rows through a run of the repository of
-- nautilus/verifiers/earthquake/watcher/src/state.ts.
use sonari.Prelude.{true, Option, String, List, arith}
use sonari.Watcher.Types.{OffchainStatus, UsgsEarthquakeCandidate}
use sonari.Watcher.Row.Updates.{
  apply_affected_cells_proof_registration_result_to_row, apply_floor_census_result_to_row,
}
use sonari.Watcher.TeeResult.{TeeCoreResult, FinalizedResult}
use sonari.Watcher.Repository.{Repository, upsert_manual_event, manual_candidate}
use sonari.Watcher.Repository.Outcomes.{
  mark_failed, mark_relayer_succeeded, mark_relayer_failed, mark_source_archive_result,
  mark_affected_cells_proof_registration_result, mark_floor_census_processing,
  mark_floor_census_result,
}
use sonari.Watcher.Repository.Queue.{
  claim_queued_for_processing, record_runner_started, record_runner_stopped,
  record_runner_stop_failed, defer_until, mark_rejected, recover_stale_processing,
  recover_stale_queued,
}
use sonari.Watcher.Repository.Store.{AllRows-update_if}
use sonari.Watcher.Attempts.{
  IsFenced, Fenced-idle, rerun_row-IsFenced, relayed_row-IsFenced, relayer_failed_row-IsFenced,
  archived-IsFenced,
}
use sonari.Watcher.Steps.{Event, Step, Run}
use sonari.Watcher.Steps.Operations.{
  mark_workflow_started-AreFenced, try_start-AreFenced, mark_workflow_stopped-AreFenced,
  progress-AreFenced, failed_row-IsFenced, recover_processing-AreFenced, enqueue_failed-AreFenced,
  recover_queued-AreFenced, enqueue-AreFenced, claim_registration-AreFenced, upsert-AreFenced,
  apply_runner_result-AreFenced, claimed-queued, AreFenced,
}

module _ (uid : UsgsEarthquakeCandidate → String) (stringify : TeeCoreResult → String)
    (validate : FinalizedResult → Option String) where
  -- One step keeps every row's attempt in order.
  pub Step-AreFenced :
      {e : Event} {r r' : Repository}
      → Step uid stringify validate e r r'
      → AreFenced r
      → AreFenced r'
  unfolding upsert_manual_event mark_failed mark_relayer_succeeded mark_relayer_failed
      mark_source_archive_result mark_affected_cells_proof_registration_result
      mark_floor_census_processing mark_floor_census_result claim_queued_for_processing
      record_runner_started record_runner_stopped record_runner_stop_failed defer_until
      mark_rejected recover_stale_processing recover_stale_queued
      apply_affected_cells_proof_registration_result_to_row apply_floor_census_result_to_row
  Step-AreFenced (Step.upsert r c now bypass) h = upsert-AreFenced uid r c now bypass h
  Step-AreFenced (Step.manual r id now requested) h =
      AllRows-update_if IsFenced _ id _ _ (λ row p _. rerun_row-IsFenced row now p)
        (upsert-AreFenced uid r (manual_candidate uid id requested now) now true h)
  Step-AreFenced (Step.claim_registration r id expected now) h =
      claim_registration-AreFenced r id expected now h
  Step-AreFenced (Step.try_start r id name now count revision) h =
      try_start-AreFenced r id name now count revision h
  Step-AreFenced (Step.start r id name now count revision) h =
      mark_workflow_started-AreFenced r id name now count revision h
  Step-AreFenced (Step.stop r id attempt now) h = mark_workflow_stopped-AreFenced r id attempt now h
  Step-AreFenced (Step.progress r input) h = progress-AreFenced r input h
  Step-AreFenced (Step.fail r id code now retry message expected) h =
      AllRows-update_if IsFenced r id _ _
        (λ row p _. failed_row-IsFenced row code now retry message p) h
  Step-AreFenced (Step.apply r r' done id result now pending expected e) h =
      apply_runner_result-AreFenced stringify validate r r' done id result now pending expected e h
  Step-AreFenced (Step.relayed r id success now expected) h =
      AllRows-update_if IsFenced r id _ _ (λ row p _. relayed_row-IsFenced row success now p) h
  Step-AreFenced (Step.relay_failed r id mode code message now expected) h =
      AllRows-update_if IsFenced r id _ _
        (λ row p _. relayer_failed_row-IsFenced row mode code message now p) h
  Step-AreFenced (Step.archive r id input now expected) h =
      AllRows-update_if IsFenced r id _ _ (λ row p _. archived-IsFenced row input now expected p) h
  Step-AreFenced (Step.registration r id input now expected) h =
      AllRows-update_if IsFenced r id _ _ (λ row p _. p) h
  Step-AreFenced (Step.census r id now expected) h =
      AllRows-update_if IsFenced r id _ _ (λ row p _. p) h
  Step-AreFenced (Step.census_result r id input now expected) h =
      AllRows-update_if IsFenced r id _ _ (λ row p _. p) h
  Step-AreFenced (Step.enqueue r id attempt job now revision) h =
      enqueue-AreFenced r id attempt job now revision h
  Step-AreFenced (Step.enqueue_failed r id job now retry message) h =
      enqueue_failed-AreFenced r id job now retry message h
  Step-AreFenced (Step.claim r job now timeout) h =
      AllRows-update_if IsFenced r job.source_event_id _ _
        (λ row p passes. record {
          processing_attempt = λ _. p.queued_attempt (claimed-queued row job passes);
          queued_attempt = λ e. absurd (cc);
          bounded = p.bounded;
        })
        h
  Step-AreFenced (Step.runner_started r id job runner now timeout) h =
      AllRows-update_if IsFenced r id _ _ (λ row p _. p) h
  Step-AreFenced (Step.runner_stopped r id job now) h =
      AllRows-update_if IsFenced r id _ _ (λ row p _. p) h
  Step-AreFenced (Step.stop_failed r id job message now) h =
      AllRows-update_if IsFenced r id _ _ (λ row p _. p) h
  Step-AreFenced (Step.defer r id retry now) h =
      AllRows-update_if IsFenced r id _ _ (λ row p _. p) h
  Step-AreFenced (Step.reject r id code now) h =
      AllRows-update_if IsFenced r id _ _
        (λ row p _.
          Fenced-idle OffchainStatus.rejected row.retry_count ((λ e. cc), (λ e. cc)) (omega arith)
            p)
        h
  Step-AreFenced (Step.recover_processing r stale now retry) h =
      recover_processing-AreFenced r.rows r stale now retry 0 h
  Step-AreFenced (Step.recover_queued r stale now retry) h =
      recover_queued-AreFenced r.rows r stale now retry 0 h

  -- After any run from a repository with every row's attempt in order, the attempts are in order: a
  -- row in processing or in the queue carries the attempt after its failed ones, and no row carries
  -- a later one.
  pub Run-AreFenced :
      {r : Repository} {events : List Event} {r' : Repository}
      → AreFenced r
      → Run uid stringify validate r events r'
      → AreFenced r'
  Run-AreFenced h Run.here = h
  Run-AreFenced h (Run.next run step) = Step-AreFenced step (Run-AreFenced h run)
