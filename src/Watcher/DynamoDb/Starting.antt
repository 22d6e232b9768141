-- ===== src/Watcher/DynamoDb/Starting.antt =====
-- Starts of the runner workflow: `DynamoDbStateRepository` next to
-- `InMemoryStateRepository` of nautilus/verifiers/earthquake/watcher/src/state.ts.
use sonari.Prelude.{
  ℕ, ◌+◌, ◌≡◌, inl, inr, refl, sym, ◌∙◌, ap, Bool, true, false, not, ◌&&◌, Option, none, some,
  String, Result, ok, Bool-cases, Option-cases, if◌then◌else◌,
}
use sonari.Watcher.Types.{EarthquakeEventRow, WorkflowStartInput}
use sonari.Watcher.Repository.{Repository, get_row}
use sonari.Watcher.Repository.Workflow
use sonari.Watcher.Repository.Workflow.{can_start, started_row, is_locked, take_lock}
use sonari.Watcher.Repository.Cases.{
  write, mark_workflow_started-missing, mark_workflow_started-starts, mark_workflow_started-refused,
}
use sonari.Watcher.Repository.Store.{update_if-missing, update_if-written, update_if-refused}
use sonari.Watcher.DynamoDb.{
  Client, Command, return, try_send, try_transact, get, caught, caught_transaction,
}
use sonari.Watcher.Steps.Lock.{try_start-locked}
use sonari.Watcher.DynamoDb.Operations
use sonari.Watcher.DynamoDb.Operations.{
  workflow_start_condition, workflow_start_update, lock_is_free, lock_item, started_input,
  start_with, transact_start, retry_count_of,
}
use sonari.Watcher.DynamoDb.Documented.{
  IsConditional, IsFresh, answered, holds_of, start_writes, try_send-update, >>=-answered,
}
use sonari.Watcher.DynamoDb.Conditions.{
  start_condition, can_start-count, lock_is_free-not, can_start-retry_count,
}

and_false : (b : Bool) → (b && false) ≡ false
and_false true = refl
and_false false = refl

module _ (client : Client) (documented : IsConditional client) where
  module _ (repo : Repository) (id name : String) (now revision : ℕ) where
    started_alike :
        (row : EarthquakeEventRow) (count : ℕ)
        → count ≡ row.retry_count
        → ◌≡◌ {A = Repository × Result (Option WorkflowStartInput)}
            (
              write repo id (workflow_start_update name (count + 1) (some revision) now row),
              ok (some (started_input id name (count + 1) (some revision))),
            )
            (
              write repo id (started_row row name now (some revision)),
              ok (
                  some (record {
                    source_event_id = id;
                    execution_name = name;
                    attempt = row.retry_count + 1;
                    event_revision = revision;
                  })),
            )
    unfolding workflow_start_update started_row started_input
    started_alike row count e = rw e refl

    abbrev after : ℕ → Repository × Bool → Repository × Result (Option WorkflowStartInput)
    after count (updated, begun) = (
      updated,
      ok (if begun then some (started_input id name (count + 1) (some revision)) else none),
    )

    start_with-counted :
        (count : ℕ)
        → start_with client id name now (some revision) (some count) repo
          ≡ answered (Workflow.mark_workflow_started repo id name now (some count) (some revision))
    unfolding start_with
    start_with-counted count =
        >>=-answered
          (try_send client (
            Command.update id (workflow_start_condition count now)
              (workflow_start_update name (count + 1) (some revision) now)))
          (λ begun.
            return
              (if begun then some (started_input id name (count + 1) (some revision)) else none))
          repo (try_send-update client documented repo id _ _)
        ∙ (elim (Option-cases (get_row id repo.rows)) [
          | inl missing ↦
              ap (after count) (update_if-missing repo id _ _ missing)
              ∙ ap answered (
                  sym (
                    mark_workflow_started-missing repo id name now (some count) (some revision)
                      missing))
          | inr (row, found) ↦ elim (Bool-cases (can_start row now (some count))) [
            | inl passes ↦
                ap (after count)
                  (update_if-written repo id _ _ row found (start_condition row now count ∙ passes))
                ∙ started_alike row count (can_start-retry_count row now count passes)
                ∙ ap answered (
                    sym (
                      mark_workflow_started-starts repo id name now (some count) (some revision) row
                        found passes))
            | inr fails ↦
                ap (after count)
                  (update_if-refused repo id _ _ row found (start_condition row now count ∙ fails))
                ∙ ap answered (
                    sym (
                      mark_workflow_started-refused repo id name now (some count) (some revision)
                        row found fails))
          ]
        ])

    abbrev transaction : ℕ → Command
    transaction count =
        Command.transact_start id (workflow_start_condition count now)
          (workflow_start_update name (count + 1) (some revision) now) (lock_is_free now)
          (lock_item id name (count + 1) now)

    sent-refused :
        (count : ℕ)
        → (holds_of (workflow_start_condition count now) (get_row id repo.rows)
            && lock_is_free now repo.runner_workflow_lock)
          ≡ false
        → try_transact client (transaction count) repo ≡ (repo, ok false)
    unfolding try_transact caught_transaction
    sent-refused count refused =
        ap (λ sent. (sent.1, caught_transaction sent.0))
          (documented.transact_refused repo id (workflow_start_condition count now)
            (workflow_start_update name (count + 1) (some revision) now) (lock_is_free now)
            (lock_item id name (count + 1) now) refused)

    sent-done :
        (count : ℕ) (row : EarthquakeEventRow)
        → get_row id repo.rows ≡ some row
        → workflow_start_condition count now row ≡ true
        → lock_is_free now repo.runner_workflow_lock ≡ true
        → try_transact client (transaction count) repo ≡ (
          start_writes repo id
              (workflow_start_update name (count + 1) (some revision) now row)
              (lock_item id name (count + 1) now),
          ok true,
        )
    unfolding try_transact caught_transaction caught
    sent-done count row found passes free =
        ap (λ sent. (sent.1, caught_transaction sent.0))
          (documented.transact_done repo id (workflow_start_condition count now)
            (workflow_start_update name (count + 1) (some revision) now) (lock_is_free now)
            (lock_item id name (count + 1) now) row found passes free)

    after_transaction-refused :
        (count : ℕ)
        → (holds_of (workflow_start_condition count now) (get_row id repo.rows)
            && lock_is_free now repo.runner_workflow_lock)
          ≡ false
        → transact_start client id name now (some revision) (some count) repo ≡ (repo, ok none)
    unfolding transact_start
    after_transaction-refused count refused =
        >>=-answered (try_transact client (transaction count))
          (λ begun.
            return
              (if begun then some (started_input id name (count + 1) (some revision)) else none))
          repo (sent-refused count refused)

    after_transaction-done :
        (count : ℕ) (row : EarthquakeEventRow)
        → get_row id repo.rows ≡ some row
        → workflow_start_condition count now row ≡ true
        → lock_is_free now repo.runner_workflow_lock ≡ true
        → transact_start client id name now (some revision) (some count) repo ≡ (
          start_writes repo id
              (workflow_start_update name (count + 1) (some revision) now row)
              (lock_item id name (count + 1) now),
          ok (some (started_input id name (count + 1) (some revision))),
        )
    unfolding transact_start
    after_transaction-done count row found passes free =
        >>=-answered (try_transact client (transaction count))
          (λ begun.
            return
              (if begun then some (started_input id name (count + 1) (some revision)) else none))
          repo (sent-done count row found passes free)

    -- A free lock is taken by what starts.
    try_start-free :
        (count : Option ℕ)
        → is_locked repo.runner_workflow_lock now ≡ false
        → Workflow.try_start_runner_workflow_exclusively repo id name now count (some revision)
          ≡ take_lock id name now
              (Workflow.mark_workflow_started repo id name now count (some revision))
    unfolding Workflow.try_start_runner_workflow_exclusively
    try_start-free count free = rw free refl

    try_start-none :
        (count : Option ℕ)
        → Workflow.mark_workflow_started repo id name now count (some revision) ≡ (repo, none)
        → Workflow.try_start_runner_workflow_exclusively repo id name now count (some revision)
          ≡ (repo, none)
    unfolding take_lock
    try_start-none count stays = elim (Bool-cases (is_locked repo.runner_workflow_lock now)) [
      | inl locked ↦ try_start-locked repo id name now count (some revision) locked
      | inr free ↦ try_start-free count free ∙ ap (take_lock id name now) stays
    ]

    taken_alike :
        (row : EarthquakeEventRow) (count : ℕ)
        → count ≡ row.retry_count
        → ◌≡◌ {A = Repository × Result (Option WorkflowStartInput)}
            (
              start_writes repo id
                  (workflow_start_update name (count + 1) (some revision) now row)
                  (lock_item id name (count + 1) now),
              ok (some (started_input id name (count + 1) (some revision))),
            )
            (answered (
              take_lock id name now (
                write repo id (started_row row name now (some revision)),
                some (record {
                  source_event_id = id;
                  execution_name = name;
                  attempt = row.retry_count + 1;
                  event_revision = revision;
                }),
              )))
    unfolding workflow_start_update started_row started_input take_lock lock_item
    taken_alike row count e = rw e refl

    free-not :
        is_locked repo.runner_workflow_lock now ≡ false
        → lock_is_free now repo.runner_workflow_lock ≡ true
    free-not free = lock_is_free-not repo.runner_workflow_lock now ∙ ap not free

    held-not :
        is_locked repo.runner_workflow_lock now ≡ true
        → lock_is_free now repo.runner_workflow_lock ≡ false
    held-not held = lock_is_free-not repo.runner_workflow_lock now ∙ ap not held

    transact_start-counted :
        (count : ℕ)
        → transact_start client id name now (some revision) (some count) repo
          ≡ answered (
              Workflow.try_start_runner_workflow_exclusively repo id name now
                (some count)
                (some revision))
    transact_start-counted count = elim (Bool-cases (is_locked repo.runner_workflow_lock now)) [
      | inl locked ↦
          after_transaction-refused count (rw (held-not locked) (and_false _))
          ∙ ap answered
              (sym (try_start-locked repo id name now (some count) (some revision) locked))
      | inr free ↦ elim (Option-cases (get_row id repo.rows)) [
        | inl missing ↦
            after_transaction-refused count (rw missing refl)
            ∙ ap answered (
                sym (
                  try_start-none (some count) (
                    mark_workflow_started-missing repo id name now (some count) (some revision)
                      missing)))
        | inr (row, found) ↦ elim (Bool-cases (can_start row now (some count))) [
          | inl passes ↦
              after_transaction-done count row found (start_condition row now count ∙ passes)
                (free-not free)
              ∙ taken_alike row count (can_start-retry_count row now count passes)
              ∙ ap answered (
                  sym (
                    try_start-free (some count) free
                    ∙ ap (take_lock id name now) (
                        mark_workflow_started-starts repo id name now (some count) (some revision)
                          row found passes)))
          | inr fails ↦
              after_transaction-refused count (
                rw found (
                  ap (λ b. b && lock_is_free now repo.runner_workflow_lock)
                    (start_condition row now count ∙ fails)))
              ∙ ap answered (
                  sym (
                    try_start-none (some count) (
                      mark_workflow_started-refused repo id name now (some count) (some revision)
                        row found fails)))
        ]
      ]
    ]

    read_count : Option EarthquakeEventRow → Option ℕ
    read_count stored = elim stored [ none ↦ none | some row ↦ some row.retry_count ]

    retry_count_of-fresh :
        IsFresh client repo id
        → retry_count_of client id none repo ≡ (repo, ok (read_count (get_row id repo.rows)))
    unfolding retry_count_of get read_count
    retry_count_of-fresh fresh = rw fresh refl

    -- The retry count that was read is the one that the start expects.
    mark_workflow_started-read :
        (row : EarthquakeEventRow)
        → get_row id repo.rows ≡ some row
        → Workflow.mark_workflow_started repo id name now (some row.retry_count) (some revision)
          ≡ Workflow.mark_workflow_started repo id name now none (some revision)
    mark_workflow_started-read row found = elim (Bool-cases (can_start row now none)) [
      | inl passes ↦
          mark_workflow_started-starts repo id name now (some row.retry_count) (some revision) row
            found (can_start-count row now ∙ passes)
          ∙ sym
              (mark_workflow_started-starts repo id name now none (some revision) row found passes)
      | inr fails ↦
          mark_workflow_started-refused repo id name now (some row.retry_count) (some revision) row
            found (can_start-count row now ∙ fails)
          ∙ sym
              (mark_workflow_started-refused repo id name now none (some revision) row found fails)
    ]

    try_start-read :
        (row : EarthquakeEventRow)
        → get_row id repo.rows ≡ some row
        → Workflow.try_start_runner_workflow_exclusively repo id name now
            (some row.retry_count)
            (some revision)
          ≡ Workflow.try_start_runner_workflow_exclusively repo id name now none (some revision)
    try_start-read row found = elim (Bool-cases (is_locked repo.runner_workflow_lock now)) [
      | inl locked ↦
          try_start-locked repo id name now (some row.retry_count) (some revision) locked
          ∙ sym (try_start-locked repo id name now none (some revision) locked)
      | inr free ↦
          try_start-free (some row.retry_count) free
          ∙ ap (take_lock id name now) (mark_workflow_started-read row found)
          ∙ sym (try_start-free none free)
    ]

    started_from_read :
        (stored : Option EarthquakeEventRow)
        → get_row id repo.rows ≡ stored
        → (start_with client id name now (some revision) (read_count stored) repo
            ≡ answered (Workflow.mark_workflow_started repo id name now none (some revision)))
          × (transact_start client id name now (some revision) (read_count stored) repo
              ≡ answered (
                  Workflow.try_start_runner_workflow_exclusively repo id name now none
                    (some revision)))
    unfolding start_with transact_start read_count
    started_from_read none missing =
        let stays = mark_workflow_started-missing repo id name now none (some revision) missing in
        (ap answered (sym stays), ap answered (sym (try_start-none none stays)))
    started_from_read (some row) found = (
      start_with-counted row.retry_count ∙ ap answered (mark_workflow_started-read row found),
      transact_start-counted row.retry_count ∙ ap answered (try_start-read row found),
    )

    -- Where reads are fresh and the revision is given, a start and an exclusive start by conditional
    -- writes do what they do in memory, and answer the same, with an expected retry count or without:
    -- the condition expressions are the tests of the row and of the lock, and the transaction writes
    -- both or neither.
    pub starts_refine :
        (expected : Option ℕ)
        → IsFresh client repo id
        → (Operations.mark_workflow_started client id name now expected (some revision) repo
            ≡ answered (Workflow.mark_workflow_started repo id name now expected (some revision)))
          × (Operations.try_start_runner_workflow_exclusively client id name now expected
                (some revision)
                repo
              ≡ answered (
                  Workflow.try_start_runner_workflow_exclusively repo id name now expected
                    (some revision)))
    unfolding Operations.mark_workflow_started Operations.try_start_runner_workflow_exclusively
        retry_count_of
    starts_refine (some count) fresh = (start_with-counted count, transact_start-counted count)
    starts_refine none fresh =
        let stored = get_row id repo.rows in
        let alike = started_from_read stored refl in
        (
          >>=-answered (retry_count_of client id none)
                (start_with client id name now (some revision)) repo (retry_count_of-fresh fresh)
              ∙ alike.0,
          >>=-answered (retry_count_of client id none)
                (transact_start client id name now (some revision)) repo
                (retry_count_of-fresh fresh)
              ∙ alike.1,
        )
