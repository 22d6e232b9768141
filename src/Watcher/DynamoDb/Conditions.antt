-- ===== src/Watcher/DynamoDb/Conditions.antt =====
-- The condition expressions and updates of a start of the runner workflow, in `DynamoDbStateRepository`
-- of nautilus/verifiers/earthquake/watcher/src/state.ts.
use sonari.Prelude.{
  ℕ, ◌+◌, ◌≡◌, refl, Bool, true, not, ◌&&◌, ◌||◌, Option, none, some, String, arith, if◌then◌else◌,
  leb,
}
use sonari.Watcher.Types.{EarthquakeEventRow, RunnerWorkflowLockRow}
use sonari.Watcher.Row.{is_pending, is_none, some_le, is_ready_for_retry_or_deadline}
use sonari.Watcher.Repository.Workflow.{can_start, started_row, is_locked}
use sonari.Watcher.DynamoDb.Operations.{
  is_none_or_le, workflow_start_condition, workflow_start_update, lock_is_free,
}

ready-or :
    (next : Option ℕ) (pending late : Bool) (now : ℕ)
    → (is_none_or_le next now || (pending && late))
      ≡ (if pending && late then true else is_none next || some_le next now)
ready-or none pending late now = ground arith
ready-or (some at) pending late now = ground arith

-- The condition expression of a start is the test of `markWorkflowStarted`.
pub start_condition :
    (row : EarthquakeEventRow) (now count : ℕ)
    → workflow_start_condition count now row ≡ can_start row now (some count)
unfolding workflow_start_condition can_start is_ready_for_retry_or_deadline
start_condition row now count =
    rw
      (ready-or row.next_retry_at_ms (is_pending row.status)
        (leb row.finalization_deadline_at_ms now) now)
      (ground arith)

pub start_update :
    (row : EarthquakeEventRow) (name : String) (now revision : ℕ)
    → workflow_start_update name (row.retry_count + 1) (some revision) now row
      ≡ started_row row name now (some revision)
unfolding workflow_start_update started_row
start_update row name now revision = refl

pub can_start-count :
    (row : EarthquakeEventRow) (now : ℕ)
    → can_start row now (some row.retry_count) ≡ can_start row now none
unfolding can_start
can_start-count row now = ground arith

pub lock_is_free-not :
    (lock : Option RunnerWorkflowLockRow) (now : ℕ)
    → lock_is_free now lock ≡ not (is_locked lock now)
unfolding lock_is_free is_locked
lock_is_free-not none now = refl
lock_is_free-not (some lock) now = ground arith

pub can_start-retry_count :
    (row : EarthquakeEventRow) (now count : ℕ)
    → can_start row now (some count) ≡ true
    → count ≡ row.retry_count
unfolding can_start
can_start-retry_count row now count h = ground arith
