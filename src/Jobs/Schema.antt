-- ===== src/Jobs/Schema.antt =====
-- The tables of src/bff/postgres/job_repository.py, as alembic/versions 0001, 0005 and 0007 declare
-- them. A UUID is a number, a time is a number of microseconds, a JSON text is a text.
-- Columns that no operation here reads or writes are left out, and so is the random key of
-- `job_events`.
use Prim.Native.Nat.{ℕ}
use Prim.Native.String.{String}
use mathlib.Core.Bool.{Bool, true, false}
use mathlib.Core.Option.{Option}
use mathlib.Core.List.{List}
use foundation_intelligence.Durable.Envelope.{QueueEnvelope}

pub data JobStatus : Type 0 where
  created queued running succeeded failed cancelled timed_out dead_lettered : JobStatus

pub data DispatchStatus : Type 0 where
  pending publishing published failed dead_lettered : DispatchStatus

pub data WorkerStatus : Type 0 where
  idle running draining stopped : WorkerStatus

pub data ProfileStatus : Type 0 where
  pending ready failed stale : ProfileStatus

-- `job_runs`
pub record JobRun : Type 0 where
  pub job_run_id : ℕ
  pub job_type : String
  pub status : JobStatus
  pub dataset_version : Option String
  pub idempotency_key : String
  pub requested_by : String
  pub requested_at : ℕ
  pub started_at : Option ℕ
  pub completed_at : Option ℕ
  pub attempt : ℕ
  pub max_attempts : ℕ
  pub input : String
  pub result : Option String
  pub error_class : Option String
  pub error_message : Option String
  pub queue_name : String
  pub heartbeat_at : Option ℕ
  pub lease_expires_at : Option ℕ
  pub timeout_seconds : ℕ
  pub failure_reason : Option String
  pub last_good_dataset_version : Option String
  pub active_dedupe_key : Option String

-- `job_dispatch_outbox`
pub record Dispatch : Type 0 where
  pub outbox_id : ℕ
  pub job_run_id : ℕ
  pub queue_name : String
  pub message_body : QueueEnvelope
  pub status : DispatchStatus
  pub publish_attempts : ℕ
  pub next_attempt_at : ℕ
  pub queue_message_id : Option String
  pub published_at : Option ℕ
  pub last_error_class : Option String
  pub created_at : ℕ

-- The JSON objects that the code writes to `job_events.details`.
pub data Details : Type 0 where
  job_type_details : String → Details
  claim_details : (worker_id : String) (attempt : ℕ) → Details
  result_details : String → Details
  error_details : (error_class : String) (retryable : Bool) → Details
  reason_details : String → Details

-- `job_events`
pub record JobEvent : Type 0 where
  pub job_run_id : ℕ
  pub sequence : ℕ
  pub event_type : String
  pub occurred_at : ℕ
  pub actor_id : String
  pub details : Details

-- `worker_heartbeats`
pub record WorkerRow : Type 0 where
  pub worker_id : String
  pub queue_name : String
  pub job_run_id : Option ℕ
  pub status : WorkerStatus
  pub started_at : ℕ
  pub heartbeat_at : ℕ

-- `source_funder_profile_cache`, as far as the end of a job changes it
pub record ProfileRow : Type 0 where
  pub source_funder_key : String
  pub status : ProfileStatus
  pub payload : Option String
  pub error : Option String
  pub updated_at : ℕ
  pub job_token : Option ℕ

-- `active_dataset` is what the query on `dataset_versions` finds.
pub record Db : Type 0 where
  pub job_runs : List JobRun
  pub outbox : List Dispatch
  pub events : List JobEvent
  pub workers : List WorkerRow
  pub profiles : List ProfileRow
  pub active_dataset : Option String

abbrev pub is_queued : JobStatus → Bool
is_queued JobStatus.queued = true
is_queued _ = false

abbrev pub is_running : JobStatus → Bool
is_running JobStatus.running = true
is_running _ = false

-- `status IN ('queued', 'running')`
abbrev pub is_active : JobStatus → Bool
is_active JobStatus.queued = true
is_active JobStatus.running = true
is_active _ = false

-- `status IN ('pending', 'failed')`
abbrev pub is_unsent : DispatchStatus → Bool
is_unsent DispatchStatus.pending = true
is_unsent DispatchStatus.failed = true
is_unsent _ = false

abbrev pub is_pending : ProfileStatus → Bool
is_pending ProfileStatus.pending = true
is_pending _ = false

-- `'running'`, `'queued'`, … as Python texts, where the code reads the column as one
abbrev pub status_text : JobStatus → String
status_text JobStatus.created = "created"
status_text JobStatus.queued = "queued"
status_text JobStatus.running = "running"
status_text JobStatus.succeeded = "succeeded"
status_text JobStatus.failed = "failed"
status_text JobStatus.cancelled = "cancelled"
status_text JobStatus.timed_out = "timed_out"
status_text JobStatus.dead_lettered = "dead_lettered"
