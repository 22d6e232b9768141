-- ===== src/Watcher/DynamoDb/Documented.antt =====
-- What the code relies on of DynamoDB, as hypotheses on the client: a conditional write is done in
-- one step where the condition holds of the stored item, and refused where it does not. Reads are a
-- hypothesis of their own, since `GetCommand` asks for no consistent read.
use sonari.Prelude.{
  ℕ, ◌≡◌, inl, inr, refl, ◌∙◌, ap, Bool, true, false, ◌&&◌, Option, none, some, String, Result, ok,
  throw, Bool-cases, Option-cases,
}
use sonari.Watcher.Types.{EarthquakeEventRow, RunnerWorkflowLockRow}
use sonari.Watcher.Repository.{Repository, get_row, set_row, update_if}
use sonari.Watcher.Repository.Cases.{write}
use sonari.Watcher.Repository.Store.{update_if-written, update_if-refused}
use sonari.Watcher.DynamoDb.{
  Client, Command, Reply, Session, ◌>>=◌, caught, try_send, get, put_condition, put_row, modify,
  modify_row,
}

abbrev pub start_writes :
    Repository → String → EarthquakeEventRow → RunnerWorkflowLockRow → Repository
start_writes repo key row lock = record {
  rows = set_row key row repo.rows;
  runner_workflow_lock = some lock;
}

-- A condition on an item that has to be there.
abbrev pub holds_of : (EarthquakeEventRow → Bool) → Option EarthquakeEventRow → Bool
holds_of condition none = false
holds_of condition (some row) = condition row

abbrev pub lock_holds_of : (RunnerWorkflowLockRow → Bool) → Option RunnerWorkflowLockRow → Bool
lock_holds_of condition none = false
lock_holds_of condition (some lock) = condition lock

-- Conditional writes.
pub record IsConditional (client : Client) : Type 0 where
  pub update_done :
      (repo : Repository) (key : String) (condition : EarthquakeEventRow → Bool)
      (change : EarthquakeEventRow → EarthquakeEventRow) (row : EarthquakeEventRow)
      → get_row key repo.rows ≡ some row
      → condition row ≡ true
      → client.send (Command.update key condition change) repo
        ≡ (Reply.done, write repo key (change row))
  pub update_refused :
      (repo : Repository) (key : String) (condition : EarthquakeEventRow → Bool)
      (change : EarthquakeEventRow → EarthquakeEventRow)
      → holds_of condition (get_row key repo.rows) ≡ false
      → client.send (Command.update key condition change) repo
        ≡ (Reply.conditional_check_failed, repo)
  pub overwrite_done :
      (repo : Repository) (condition : Option EarthquakeEventRow → Bool) (row : EarthquakeEventRow)
      → condition (get_row row.source_event_id repo.rows) ≡ true
      → client.send (Command.overwrite condition row) repo
        ≡ (Reply.done, write repo row.source_event_id row)
  pub overwrite_refused :
      (repo : Repository) (condition : Option EarthquakeEventRow → Bool) (row : EarthquakeEventRow)
      → condition (get_row row.source_event_id repo.rows) ≡ false
      → client.send (Command.overwrite condition row) repo ≡ (Reply.conditional_check_failed, repo)
  pub put_done :
      (repo : Repository) (condition : Option EarthquakeEventRow → Bool) (row : EarthquakeEventRow)
      → condition (get_row row.source_event_id repo.rows) ≡ true
      → client.send (Command.put condition row) repo
        ≡ (Reply.done, write repo row.source_event_id row)
  pub put_refused :
      (repo : Repository) (condition : Option EarthquakeEventRow → Bool) (row : EarthquakeEventRow)
      → condition (get_row row.source_event_id repo.rows) ≡ false
      → client.send (Command.put condition row) repo ≡ (Reply.conditional_check_failed, repo)
  pub delete_done :
      (repo : Repository) (condition : RunnerWorkflowLockRow → Bool)
      → lock_holds_of condition repo.runner_workflow_lock ≡ true
      → client.send (Command.delete_lock condition) repo
        ≡ (Reply.done, record repo { runner_workflow_lock = none })
  pub delete_refused :
      (repo : Repository) (condition : RunnerWorkflowLockRow → Bool)
      → lock_holds_of condition repo.runner_workflow_lock ≡ false
      → client.send (Command.delete_lock condition) repo ≡ (Reply.conditional_check_failed, repo)
  pub transact_done :
      (repo : Repository) (key : String) (condition : EarthquakeEventRow → Bool)
      (change : EarthquakeEventRow → EarthquakeEventRow)
      (lock_condition : Option RunnerWorkflowLockRow → Bool) (lock : RunnerWorkflowLockRow)
      (row : EarthquakeEventRow)
      → get_row key repo.rows ≡ some row
      → condition row ≡ true
      → lock_condition repo.runner_workflow_lock ≡ true
      → client.send (Command.transact_start key condition change lock_condition lock) repo
        ≡ (Reply.done, start_writes repo key (change row) lock)
  pub transact_refused :
      (repo : Repository) (key : String) (condition : EarthquakeEventRow → Bool)
      (change : EarthquakeEventRow → EarthquakeEventRow)
      (lock_condition : Option RunnerWorkflowLockRow → Bool) (lock : RunnerWorkflowLockRow)
      → (holds_of condition (get_row key repo.rows) && lock_condition repo.runner_workflow_lock)
        ≡ false
      → client.send (Command.transact_start key condition change lock_condition lock) repo
        ≡ (Reply.transaction_canceled, repo)

-- A read that finds what is stored.
abbrev pub IsFresh : Client → Repository → String → Type 0
IsFresh client repo key = client.get_item repo key ≡ ok (get_row key repo.rows)

-- A row stands under its own key.
abbrev pub IsKeyed : Repository → String → Type 0
IsKeyed repo key =
    (row : EarthquakeEventRow) → get_row key repo.rows ≡ some row → row.source_event_id ≡ key

-- The outcome of an operation that threw nothing.
abbrev pub answered {ℓ} : {A : Type ℓ} → Repository × A → Repository × Result A
answered outcome = (outcome.0, ok outcome.1)

-- A part that threw nothing hands its value on.
pub >>=-answered {ℓ κ} :
    {A : Type ℓ} {B : Type κ} (session : Session A) (next : A → Session B) (repo : Repository)
    {repo' : Repository} {value : A}
    → session repo ≡ (repo', ok value)
    → (session >>= next) repo ≡ next value repo'
>>=-answered session next repo e =
    ap
      (λ outcome. elim outcome.1 [
        | ok value ↦ next value outcome.0
        | throw message ↦ (outcome.0, throw message)
      ])
      e

module _ (client : Client) (documented : IsConditional client) where
  -- A conditional update is `update_if`.
  pub try_send-update :
      (repo : Repository) (key : String) (condition : EarthquakeEventRow → Bool)
      (change : EarthquakeEventRow → EarthquakeEventRow)
      → try_send client (Command.update key condition change) repo
        ≡ answered (update_if repo key condition change)
  unfolding try_send update_if caught
  try_send-update repo key condition change = elim (Option-cases (get_row key repo.rows)) [
    | inl missing ↦
        rw (documented.update_refused repo key condition change (rw missing refl))
          (rw (missing, update_if) refl)
    | inr (row, found) ↦ elim (Bool-cases (condition row)) [
      | inl passes ↦
          rw (documented.update_done repo key condition change row found passes)
            (rw (found, passes, update_if) refl)
      | inr fails ↦
          rw (documented.update_refused repo key condition change (rw found fails))
            (rw (found, fails, update_if) refl)
    ]
  ]

  pub put_row-done :
      (repo : Repository) (row : EarthquakeEventRow) (expected : Option ℕ) (allow : Bool)
      → put_condition expected allow (get_row row.source_event_id repo.rows) ≡ true
      → put_row client row expected allow repo ≡ (write repo row.source_event_id row, ok true)
  unfolding put_row try_send caught
  put_row-done repo row expected allow holds =
      rw (documented.put_done repo (put_condition expected allow) row holds) refl

  pub put_row-refused :
      (repo : Repository) (row : EarthquakeEventRow) (expected : Option ℕ) (allow : Bool)
      → put_condition expected allow (get_row row.source_event_id repo.rows) ≡ false
      → put_row client row expected allow repo ≡ (repo, ok false)
  unfolding put_row try_send caught
  put_row-refused repo row expected allow fails =
      rw (documented.put_refused repo (put_condition expected allow) row fails) refl

  -- A put of a report on a row that has been read fresh is `update_if`, where the test of the row
  -- implies the condition of the put.
  pub modify-update_if :
      (repo : Repository) (id : String) (guard : EarthquakeEventRow → Bool)
      (change : EarthquakeEventRow → EarthquakeEventRow) (expected : Option ℕ) (allow : Bool)
      → IsFresh client repo id
      → IsKeyed repo id
      → ((row : EarthquakeEventRow) → (change row).source_event_id ≡ row.source_event_id)
      → ((row : EarthquakeEventRow)
          → guard row ≡ true
          → put_condition expected allow (some row) ≡ true)
      → modify client id guard (λ row. ok (change row)) expected allow repo
        ≡ answered (update_if repo id guard change)
  unfolding modify modify_row get update_if
  modify-update_if repo id guard change expected allow fresh keyed same_key implied =
      elim (Option-cases (get_row id repo.rows)) [
        | inl missing ↦ rw fresh (rw (missing, update_if) refl)
        | inr (row, found) ↦ elim (Bool-cases (guard row)) [
          | inl passes ↦
              let at_id : (change row).source_event_id ≡ id = same_key row ∙ keyed row found in
              rw fresh (
                rw (found, passes, update_if)
                  (put_row-done repo (change row) expected allow
                      (rw at_id (rw found (implied row passes)))
                    ∙ ap (λ key. (write repo key (change row), ok true)) at_id))
          | inr fails ↦ rw fresh (rw (found, fails, update_if) refl)
        ]
      ]

  pub update-written :
      (repo : Repository) (id : String) (condition : EarthquakeEventRow → Bool)
      (change : EarthquakeEventRow → EarthquakeEventRow) (row : EarthquakeEventRow)
      → get_row id repo.rows ≡ some row
      → condition row ≡ true
      → try_send client (Command.update id condition change) repo
        ≡ (write repo id (change row), ok true)
  update-written repo id condition change row found passes =
      try_send-update repo id condition change
      ∙ ap answered (update_if-written repo id condition change row found passes)

  pub update-refused :
      (repo : Repository) (id : String) (condition : EarthquakeEventRow → Bool)
      (change : EarthquakeEventRow → EarthquakeEventRow) (row : EarthquakeEventRow)
      → get_row id repo.rows ≡ some row
      → condition row ≡ false
      → try_send client (Command.update id condition change) repo ≡ (repo, ok false)
  update-refused repo id condition change row found fails =
      try_send-update repo id condition change
      ∙ ap answered (update_if-refused repo id condition change row found fails)

  pub overwrite-done :
      (repo : Repository) (condition : Option EarthquakeEventRow → Bool) (row : EarthquakeEventRow)
      → condition (get_row row.source_event_id repo.rows) ≡ true
      → try_send client (Command.overwrite condition row) repo
        ≡ (write repo row.source_event_id row, ok true)
  unfolding try_send caught
  overwrite-done repo condition row holds =
      rw (documented.overwrite_done repo condition row holds) refl

  pub overwrite-refused :
      (repo : Repository) (condition : Option EarthquakeEventRow → Bool) (row : EarthquakeEventRow)
      → condition (get_row row.source_event_id repo.rows) ≡ false
      → try_send client (Command.overwrite condition row) repo ≡ (repo, ok false)
  unfolding try_send caught
  overwrite-refused repo condition row fails =
      rw (documented.overwrite_refused repo condition row fails) refl
