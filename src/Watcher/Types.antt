-- ===== src/Watcher/Types.antt =====
-- nautilus/verifiers/earthquake/watcher/src/state.ts, the types: a row of the event table and the
-- inputs of the repository's operations, with the enumerations of earthquake/shared/src/index.ts
-- and relayer_preview.ts. `null` and `undefined` are `none`; a time or a count is a natural number;
-- a JSON text is kept as a string.
use sonari.Prelude.{ℕ, Bool, Option, String}

pub data OffchainStatus : Type 0 where
  new queued processing pending_source pending_mmi ignored_small finalized : OffchainStatus
  submitted failed rejected : OffchainStatus

pub data OracleErrorCode : Type 0 where
  usgs_recent_unavailable usgs_detail_unavailable shakemap_product_missing : OracleErrorCode
  shakemap_cancelled shakemap_grid_unavailable shakemap_parse_failed : OracleErrorCode
  mmi_not_available no_affected_cells sea_only_affected_cells source_stale : OracleErrorCode
  source_revision_old unsupported_hazard_type tee_signature_failed : OracleErrorCode
  bcs_serialization_failed merkle_root_failed aws_runner_start_failed : OracleErrorCode
  aws_runner_process_failed aws_runner_timeout aws_runner_contract_invalid : OracleErrorCode
  relayer_submit_failed move_rejected source_archive_configuration_failed : OracleErrorCode
  source_archive_retryable_failed source_archive_integrity_failed : OracleErrorCode
  rejected_auto_trigger watcher_below_auto_threshold : OracleErrorCode

pub data RunnerPhase : Type 0 where
  queued starting_instance waiting_for_instance health_checking getting_attestation : RunnerPhase
  registering_enclave dispatching_command polling_command reading_result : RunnerPhase
  applying_result archiving_sources registering_affected_cells_proof : RunnerPhase
  stopping_instance complete : RunnerPhase

pub data SourceArchiveStatus : Type 0 where
  skipped success configuration_failed retryable_failed integrity_failed : SourceArchiveStatus

pub data SourceArchiveErrorCode : Type 0 where
  source_archive_configuration_failed source_archive_retryable_failed : SourceArchiveErrorCode
  source_archive_integrity_failed : SourceArchiveErrorCode

pub data AffectedCellsProofRegistrationStatus : Type 0 where
  skipped success configuration_failed retryable_failed : AffectedCellsProofRegistrationStatus
  integrity_failed : AffectedCellsProofRegistrationStatus

pub data AffectedCellsProofRegistrationErrorCode : Type 0 where
  registration_configuration_failed : AffectedCellsProofRegistrationErrorCode
  registration_retryable_failed : AffectedCellsProofRegistrationErrorCode
  registration_integrity_failed : AffectedCellsProofRegistrationErrorCode

pub data FloorCensusStatus : Type 0 where
  skipped processing succeeded failed : FloorCensusStatus

pub data RelayerMode : Type 0 where
  preview dry_run submit : RelayerMode

pub data RelayerStatus : Type 0 where
  succeeded failed : RelayerStatus

pub data RelayerErrorCode : Type 0 where
  relayer_submit_failed move_rejected : RelayerErrorCode

pub data UsgsAlertLevel : Type 0 where
  green yellow orange red : UsgsAlertLevel

pub record EarthquakeEventRow : Type 0 where
  pub source_event_id : String
  pub requested_source_event_id : Option String
  pub event_uid : Option String
  pub planned_event_revision : Option ℕ
  pub status : OffchainStatus
  pub retry_count : ℕ
  pub next_retry_at_ms : Option ℕ
  pub finalization_deadline_at_ms : ℕ
  pub latest_revision : ℕ
  pub last_seen_at_ms : ℕ
  pub source_updated_at_ms : Option ℕ
  pub error_code : Option OracleErrorCode
  pub relayer_mode : Option RelayerMode
  pub relayer_status : Option RelayerStatus
  pub relayer_request_json : Option String
  pub relayer_digest : Option String
  pub relayer_object_id : Option String
  pub relayer_error_code : Option RelayerErrorCode
  pub relayer_error_message : Option String
  pub relayer_updated_at_ms : Option ℕ
  pub relayer_submitted_at_ms : Option ℕ
  pub source_archive_status : Option SourceArchiveStatus
  pub source_archive_error_code : Option SourceArchiveErrorCode
  pub source_archive_attempt : Option ℕ
  pub source_artifact_s3_keys_json : Option String
  pub walrus_archive_updated_at_ms : Option ℕ
  pub affected_cells_proof_registration_status : Option AffectedCellsProofRegistrationStatus
  pub affected_cells_proof_registration_error_code : Option AffectedCellsProofRegistrationErrorCode
  pub affected_cells_proof_registration_attempt : Option ℕ
  pub affected_cells_proof_registration_next_retry_at_ms : Option ℕ
  pub affected_cells_proof_registration_error_message : Option String
  pub affected_cells_proof_registration_updated_at_ms : Option ℕ
  pub floor_census_status : Option FloorCensusStatus
  pub floor_census_attempt : Option ℕ
  pub floor_census_retry_count : ℕ
  pub floor_census_digest : Option String
  pub floor_census_counts_json : Option String
  pub floor_census_error_message : Option String
  pub floor_census_updated_at_ms : Option ℕ
  pub runner_job_id : Option String
  pub runner_queued_at_ms : Option ℕ
  pub runner_attempt : Option ℕ
  pub runner_id : Option String
  pub runner_started_at_ms : Option ℕ
  pub runner_stopped_at_ms : Option ℕ
  pub runner_timeout_at_ms : Option ℕ
  pub runner_error_message : Option String
  pub runner_stop_error : Option String
  pub runner_phase : Option RunnerPhase
  pub runner_instance_id : Option String
  pub runner_command_id : Option String
  pub runner_result_s3_key : Option String
  pub runner_last_poll_at_ms : Option ℕ
  pub tee_result_json : Option String
  pub payload_bcs_hex : Option String
  pub signature : Option String
  pub public_key : Option String
  pub finalized_at_ms : Option ℕ
  pub created_at_ms : ℕ
  pub updated_at_ms : ℕ

pub record UsgsEarthquakeCandidate : Type 0 where
  pub source_event_id : String
  pub requested_source_event_id : Option String
  pub occurred_at_ms : ℕ
  pub source_updated_at_ms : ℕ
  -- A magnitude or intensity is given in thousandths; one below zero is never over a threshold.
  pub magnitude : Option ℕ
  pub summary_mmi : Option ℕ
  pub alert : Option UsgsAlertLevel
  pub tsunami : Bool

pub record WorkflowStartInput : Type 0 where
  pub source_event_id : String
  pub execution_name : String
  pub attempt : ℕ
  pub event_revision : ℕ

pub record RunnerQueueJob : Type 0 where
  pub runner_job_id : String
  pub source_event_id : String
  pub attempt : ℕ
  pub event_revision : ℕ
  pub enqueued_at_ms : ℕ

-- The lock. Its own `source_event_id`, the key that all locks are stored under, is left out.
pub record RunnerWorkflowLockRow : Type 0 where
  pub lock_owner_source_event_id : String
  pub runner_job_id : String
  pub runner_attempt : ℕ
  pub lock_acquired_at_ms : ℕ
  pub lock_expires_at_ms : ℕ

pub record RunnerWorkflowProgressUpdate : Type 0 where
  pub source_event_id : String
  pub attempt : ℕ
  pub phase : RunnerPhase
  pub now_ms : ℕ
  pub instance_id : Option String
  pub command_id : Option String
  pub result_s3_key : Option String
  pub last_poll_at_ms : Option ℕ
  pub allow_non_processing : Bool

pub record SourceArchiveStateUpdate : Type 0 where
  pub status : SourceArchiveStatus
  pub artifact_s3_keys_json : String
  pub error_code : Option SourceArchiveErrorCode
  pub retryable_next_retry_at_ms : Option ℕ
  pub message : Option String

pub record AffectedCellsProofRegistrationStateUpdate : Type 0 where
  pub status : AffectedCellsProofRegistrationStatus
  pub error_code : Option AffectedCellsProofRegistrationErrorCode
  pub retryable_next_retry_at_ms : Option ℕ
  pub message : Option String

pub record FloorCensusStateUpdate : Type 0 where
  pub status : FloorCensusStatus
  pub digest : Option String
  pub counts_json : Option String
  pub message : Option String

pub record RelayerSuccess : Type 0 where
  pub mode : RelayerMode
  pub request_json : String
  pub digest : Option String
  pub object_id : Option String
