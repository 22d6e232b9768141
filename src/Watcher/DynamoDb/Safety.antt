-- ===== src/Watcher/DynamoDb/Safety.antt =====
-- Reports on an attempt by `DynamoDbStateRepository` of
-- nautilus/verifiers/earthquake/watcher/src/state.ts, where a read may be stale: another writer came
-- between the read and the put, or the read was served from an old copy.
use sonari.Prelude.{
  ℕ, ◌≡◌, ◌⊎◌, inl, inr, refl, ap, Bool, true, false, Option, none, some, String, Result, ok, throw,
  arith, Bool-cases, Result-cases, false-true,
}
use sonari.Watcher.Types.{
  OffchainStatus, OracleErrorCode, RelayerMode, RelayerErrorCode, EarthquakeEventRow,
  SourceArchiveStateUpdate, AffectedCellsProofRegistrationStateUpdate, FloorCensusStateUpdate,
  RelayerSuccess,
}
use sonari.Watcher.Row.{is_processing, is_number}
use sonari.Watcher.TeeResult.{TeeCoreResult, FinalizedResult}
use sonari.Watcher.Repository.{Repository, get_row}
use sonari.Watcher.Repository.Cases.{write}
use sonari.Watcher.DynamoDb.{Client, ◌>>=◌, lift, modify, modify_row, put_row, put_condition, get}
use sonari.Watcher.DynamoDb.Reports
use sonari.Watcher.DynamoDb.Documented.{IsConditional, put_row-done, put_row-refused}

-- The table is as it was, or one row is written, in place of a stored row that the report is for.
abbrev pub IsLandedOn : (EarthquakeEventRow → Type 0) → Repository → Repository → Type 0
IsLandedOn IsFor before after =
    (after ≡ before)
    ⊎ ((stored written : EarthquakeEventRow) × (get_row written.source_event_id before.rows
          ≡ some stored)
        × IsFor stored
        × (after ≡ write before written.source_event_id written))

-- The stored rows that a report of an attempt is for.
abbrev pub IsAtAttempt : ℕ → EarthquakeEventRow → Type 0
IsAtAttempt attempt row = row.runner_attempt ≡ some attempt

abbrev pub IsProcessingAttempt : ℕ → EarthquakeEventRow → Type 0
IsProcessingAttempt attempt row =
    (row.status ≡ OffchainStatus.processing) × (row.runner_attempt ≡ some attempt)

is_number-eq :
    (number : Option ℕ) (attempt : ℕ) → is_number number attempt ≡ true → number ≡ some attempt
is_number-eq none attempt e = absurd (false-true e)
is_number-eq (some n) attempt e = ap (λ m. some m) (ground arith)

is_processing-eq :
    (status : OffchainStatus) → is_processing status ≡ true → status ≡ OffchainStatus.processing
is_processing-eq OffchainStatus.processing e = refl
is_processing-eq _ e = absurd (cc)

put_condition-attempt :
    (attempt : ℕ) (stored : Option EarthquakeEventRow)
    → put_condition (some attempt) true stored ≡ true
    → (row : EarthquakeEventRow) × (stored ≡ some row) × IsAtAttempt attempt row
unfolding put_condition
put_condition-attempt attempt none e = absurd (false-true e)
put_condition-attempt attempt (some row) e = (row, refl, is_number-eq row.runner_attempt attempt e)

put_condition-processing :
    (attempt : ℕ) (stored : Option EarthquakeEventRow)
    → put_condition (some attempt) false stored ≡ true
    → (row : EarthquakeEventRow) × (stored ≡ some row) × IsProcessingAttempt attempt row
unfolding put_condition
put_condition-processing attempt none e = absurd (false-true e)
put_condition-processing attempt (some row) e = (
  row,
  refl,
  (
    is_processing-eq row.status (ground arith),
    is_number-eq row.runner_attempt attempt (ground arith),
  ),
)

module _ (client : Client) (documented : IsConditional client) where
  module _ (IsFor : EarthquakeEventRow → Type 0) (expected : Option ℕ) (allow : Bool)
      (holds : (stored : Option EarthquakeEventRow)
        → put_condition expected allow stored ≡ true
        → (row : EarthquakeEventRow) × (stored ≡ some row) × IsFor row) where
    put_row-lands :
        (repo : Repository) (row : EarthquakeEventRow)
        → IsLandedOn IsFor repo (put_row client row expected allow repo).0
    put_row-lands repo row =
        elim (Bool-cases (put_condition expected allow (get_row row.source_event_id repo.rows))) [
          | inl passes ↦
              let (stored, found, is_for) = holds (get_row row.source_event_id repo.rows) passes in
              inr (
                stored,
                row,
                found,
                is_for,
                ap (λ outcome. outcome.0)
                    (put_row-done client documented repo row expected allow passes),
              )
          | inr fails ↦ inl (
              ap (λ outcome. outcome.0)
                (put_row-refused client documented repo row expected allow fails))
        ]

    put_changed-lands :
        (repo : Repository) (changed : Result EarthquakeEventRow)
        → IsLandedOn IsFor repo ((lift changed >>= λ row. put_row client row expected allow) repo).0
    put_changed-lands repo (ok row) = put_row-lands repo row
    put_changed-lands repo (throw message) = inl refl

    modify_row-lands :
        (guard : EarthquakeEventRow → Bool)
        (change : EarthquakeEventRow → Result EarthquakeEventRow) (repo : Repository)
        (read : Option EarthquakeEventRow)
        → IsLandedOn IsFor repo (modify_row client guard change expected allow read repo).0
    unfolding modify_row
    modify_row-lands guard change repo none = inl refl
    modify_row-lands guard change repo (some row) = elim (Bool-cases (guard row)) [
      | inl passes ↦ rw passes (put_changed-lands repo (change row))
      | inr fails ↦ rw fails (inl refl)
    ]

    modify-lands :
        (id : String) (guard : EarthquakeEventRow → Bool)
        (change : EarthquakeEventRow → Result EarthquakeEventRow) (repo : Repository)
        → IsLandedOn IsFor repo (modify client id guard change expected allow repo).0
    unfolding modify get
    modify-lands id guard change repo = elim (Result-cases (client.get_item repo id)) [
      | inl (read, got) ↦ rw got (modify_row-lands guard change repo read)
      | inr (message, lost) ↦ rw lost (inl refl)
    ]

  -- Whatever a read returns, stale or not, and whether it throws or not, a report of attempt `a`
  -- leaves the table as it was, or writes one row in place of a stored row that is at attempt `a`: a
  -- failure and a result only in place of one that is in processing at attempt `a`. No report of an
  -- earlier attempt overwrites a later one.
  pub reports_land :
      (stringify : TeeCoreResult → String) (validate : FinalizedResult → Option String)
      (repo : Repository) (id : String) (a now : ℕ)
      → ((code : OracleErrorCode) (retry : ℕ) (message : Option String)
          → IsLandedOn
              (IsProcessingAttempt a)
              repo
              (Reports.mark_failed client id code now retry message (some a) repo).0)
        × ((result : TeeCoreResult) (pending : Option ℕ)
            → IsLandedOn
                (IsProcessingAttempt a)
                repo
                (Reports.apply_runner_result client stringify validate id result now pending
                  (some a)
                  repo).0)
        × ((success : RelayerSuccess)
            → IsLandedOn
                (IsAtAttempt a)
                repo
                (Reports.mark_relayer_succeeded client id success now (some a) repo).0)
        × ((mode : RelayerMode) (code : RelayerErrorCode) (message : String)
            → IsLandedOn
                (IsAtAttempt a)
                repo
                (Reports.mark_relayer_failed client id mode code message now (some a) repo).0)
        × ((input : SourceArchiveStateUpdate)
            → IsLandedOn
                (IsAtAttempt a)
                repo
                (Reports.mark_source_archive_result client id input now (some a) repo).0)
        × ((input : AffectedCellsProofRegistrationStateUpdate)
            → IsLandedOn
                (IsAtAttempt a)
                repo
                (Reports.mark_affected_cells_proof_registration_result client id input now
                  (some a)
                  repo).0)
        × IsLandedOn
            (IsAtAttempt a)
            repo
            (Reports.mark_floor_census_processing client id now (some a) repo).0
        × ((input : FloorCensusStateUpdate)
            → IsLandedOn
                (IsAtAttempt a)
                repo
                (Reports.mark_floor_census_result client id input now (some a) repo).0)
  unfolding Reports.mark_failed Reports.apply_runner_result Reports.mark_relayer_succeeded
      Reports.mark_relayer_failed Reports.mark_source_archive_result
      Reports.mark_affected_cells_proof_registration_result Reports.mark_floor_census_processing
      Reports.mark_floor_census_result
  reports_land stringify validate repo id a now = (
    (λ code retry message.
        modify-lands (IsProcessingAttempt a) (some a) false (put_condition-processing a) id _ _
          repo),
    (λ result pending.
        modify-lands (IsProcessingAttempt a) (some a) false (put_condition-processing a) id _ _
          repo),
    (λ success. modify-lands (IsAtAttempt a) (some a) true (put_condition-attempt a) id _ _ repo),
    (λ mode code message.
        modify-lands (IsAtAttempt a) (some a) true (put_condition-attempt a) id _ _ repo),
    (λ input. modify-lands (IsAtAttempt a) (some a) true (put_condition-attempt a) id _ _ repo),
    (λ input. modify-lands (IsAtAttempt a) (some a) true (put_condition-attempt a) id _ _ repo),
    modify-lands (IsAtAttempt a) (some a) true (put_condition-attempt a) id _ _ repo,
    (λ input. modify-lands (IsAtAttempt a) (some a) true (put_condition-attempt a) id _ _ repo),
  )
