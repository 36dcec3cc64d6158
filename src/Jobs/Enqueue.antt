-- ===== src/Jobs/Enqueue.antt =====
-- `PostgresJobRepository.enqueue`. The two SELECTs read the table at other moments than the INSERT
-- does, since each statement of a READ COMMITTED transaction has its own snapshot: `seen` is the
-- table of the first one, `later` that of the one that explains a conflict.
pub mod Cases
pub mod Valid
pub mod Idempotent
pub mod Total
use Prim.Native.Nat.{ℕ}
use Prim.Native.String.{String, count}
use mathlib.Core.Bool.{Bool, true, false, ◌&&◌, ◌||◌, not}
use mathlib.Core.Option.{Option, none, some}
use mathlib.Core.List.{List, [], ◌∷◌, ◌++◌}
use text.Mathlib.Text.{◌==◌ as str_eq}
use foundation_intelligence.Common.{
  Result, ok, err, ◌>>=◌, ◌>>◌, raise_if, or_raise, strip, is_empty, ltb, ◌==◌, if◌then◌else◌, any,
  first, select, least, is_some,
}
use foundation_intelligence.Durable.Envelope.{QueueEnvelope, payload}
use foundation_intelligence.Jobs.Schema.{
  Db, JobRun, Dispatch, JobEvent, Details, JobStatus, DispatchStatus, is_active, job_type_details,
}
use foundation_intelligence.Jobs.Errors.{
  JobError, invalid_job_type, unbounded_key, unbounded_queue_name, invalid_max_attempts,
  invalid_timeout, long_dedupe_key, no_active_dataset, invalid_envelope, conflict_not_reconciled,
  duplicate_dispatch,
}

-- The arguments of `enqueue`. Its integers are natural: a negative one is refused as 0 is.
pub record EnqueueRequest : Type 0 where
  pub job_type : String
  pub payload : String
  pub actor_id : String
  pub idempotency_key : String
  pub queue_name : String
  pub max_attempts : ℕ
  pub timeout_seconds : ℕ
  pub active_dedupe_key : Option String

pub record EnqueueReply : Type 0 where
  pub job_id : ℕ
  pub status : JobStatus
  pub requested_at : ℕ
  pub idempotent_noop : Bool

-- A blank dedupe key counts as none.
unfoldable pub normalized_dedupe_key : Option String → Option String
normalized_dedupe_key none = none
normalized_dedupe_key (some k) = if is_empty (strip k) then none else some (strip k)

abbrev pub is_long : Option String → Bool
is_long none = false
is_long (some k) = ltb 200 (count k)

-- The arguments as `enqueue` uses them, or the first complaint.
unfoldable pub checked_request : EnqueueRequest → Result JobError EnqueueRequest
checked_request r = do
  let job_type = strip r.job_type
  raise_if (is_empty job_type || ltb 120 (count job_type)) invalid_job_type
  raise_if (is_empty r.idempotency_key || ltb 200 (count r.idempotency_key)) unbounded_key
  let queue_name = strip r.queue_name
  raise_if (is_empty queue_name || ltb 120 (count queue_name)) unbounded_queue_name
  raise_if (ltb r.max_attempts 1 || ltb 20 r.max_attempts) invalid_max_attempts
  raise_if (ltb r.timeout_seconds 1 || ltb 86400 r.timeout_seconds) invalid_timeout
  let dedupe_key = normalized_dedupe_key r.active_dedupe_key
  raise_if (is_long dedupe_key) long_dedupe_key
  ok (record r { job_type = job_type; queue_name = queue_name; active_dedupe_key = dedupe_key })

-- `PostgresRepository.active_dataset`
unfoldable pub active_dataset : Db → Result JobError String
active_dataset db = do
  version ← or_raise db.active_dataset no_active_dataset
  raise_if (is_empty version) no_active_dataset
  ok version

-- `job_type=:job_type AND idempotency_key=:idempotency_key`
abbrev pub same_idempotency : String → String → JobRun → Bool
same_idempotency job_type key r = str_eq r.job_type job_type && str_eq r.idempotency_key key

-- `active_dedupe_key=:key AND status IN ('queued', 'running')`
abbrev pub same_active_key : Option String → JobRun → Bool
same_active_key none r = false
same_active_key (some k) r =
    elim r.active_dedupe_key [ none ↦ false | some j ↦ str_eq j k ] && is_active r.status

-- The unique keys of `job_runs`: the primary key, `uq_job_runs_idempotency` and the partial index
-- `uq_job_runs_active_dedupe`, against which the new queued row is held.
abbrev pub conflicts : JobRun → JobRun → Bool
conflicts new r =
    r.job_run_id == new.job_run_id
    || (same_idempotency new.job_type new.idempotency_key r
        || same_active_key new.active_dedupe_key r)

abbrev pub noop_reply : JobRun → EnqueueReply
noop_reply r = record {
  job_id = r.job_run_id;
  status = r.status;
  requested_at = r.requested_at;
  idempotent_noop = true;
}

-- The row that the INSERT proposes.
abbrev pub new_run : ℕ → ℕ → String → EnqueueRequest → JobRun
new_run now job_id dataset r = record {
  job_run_id = job_id;
  job_type = r.job_type;
  status = JobStatus.queued;
  dataset_version = some dataset;
  idempotency_key = r.idempotency_key;
  requested_by = r.actor_id;
  requested_at = now;
  started_at = none;
  completed_at = none;
  attempt = 1;
  max_attempts = r.max_attempts;
  input = r.payload;
  result = none;
  error_class = none;
  error_message = none;
  queue_name = r.queue_name;
  heartbeat_at = none;
  lease_expires_at = none;
  timeout_seconds = r.timeout_seconds;
  failure_reason = none;
  last_good_dataset_version = some dataset;
  active_dedupe_key = r.active_dedupe_key;
}

-- `ORDER BY CASE WHEN status IN ('queued', 'running') THEN 0 ELSE 1 END, requested_at DESC`
abbrev pub explains_first : JobRun → JobRun → Bool
explains_first r s =
    if is_active r.status
    then (if is_active s.status then ltb s.requested_at r.requested_at else true)
    else (if is_active s.status then false else ltb s.requested_at r.requested_at)

abbrev pub explains : EnqueueRequest → JobRun → Bool
explains r s =
    same_idempotency r.job_type r.idempotency_key s || same_active_key r.active_dedupe_key s

-- The SELECT after a conflict.
unfoldable pub reconciled : EnqueueRequest → List JobRun → Result JobError EnqueueReply
reconciled r later = do
  row ← or_raise (least explains_first (select (explains r) later)) conflict_not_reconciled
  ok (noop_reply row)

abbrev pub job_envelope : JobRun → QueueEnvelope
job_envelope run = record {
  schema_version = "job-envelope-v1";
  job_id = run.job_run_id;
  job_type = run.job_type;
  queue_name = run.queue_name;
  requested_at = run.requested_at;
  attempt = 1;
  max_attempts = run.max_attempts;
}

abbrev pub envelope_payload : JobRun → Result JobError QueueEnvelope
envelope_payload run = elim (payload (job_envelope run)) [
  | ok e ↦ ok e
  | err _ ↦ err invalid_envelope
]

abbrev pub new_dispatch : ℕ → ℕ → JobRun → QueueEnvelope → Dispatch
new_dispatch now outbox_id run message = record {
  outbox_id = outbox_id;
  job_run_id = run.job_run_id;
  queue_name = run.queue_name;
  message_body = message;
  status = DispatchStatus.pending;
  publish_attempts = 0;
  next_attempt_at = now;
  queue_message_id = none;
  published_at = none;
  last_error_class = none;
  created_at = now;
}

-- The first event of a job, whose number is the literal 1.
abbrev pub queued_event : ℕ → ℕ → String → String → JobEvent
queued_event now job_id actor_id job_type = record {
  job_run_id = job_id;
  sequence = 1;
  event_type = "queued";
  occurred_at = now;
  actor_id = actor_id;
  details = job_type_details job_type;
}

abbrev pub has_outbox_id : ℕ → Dispatch → Bool
has_outbox_id outbox_id d = d.outbox_id == outbox_id

-- The INSERTs into `job_runs`, the outbox and the events, once no key of the job conflicts. The
-- primary key of the outbox may still be taken.
unfoldable pub insert_job : ℕ → ℕ → JobRun → String → Db → Result JobError (Db × EnqueueReply)
insert_job now outbox_id run actor_id db = do
  message ← envelope_payload run
  raise_if (any (has_outbox_id outbox_id) db.outbox) duplicate_dispatch
  ok (
    record db {
      job_runs = db.job_runs ++ run ∷ [];
      outbox = db.outbox ++ new_dispatch now outbox_id run message ∷ [];
      events = db.events ++ queued_event now run.job_run_id actor_id run.job_type ∷ [];
    },
    record (noop_reply run) { idempotent_noop = false },
  )

-- The transaction, on arguments that passed `checked_request`.
unfoldable pub enqueue_checked :
    (now job_id outbox_id : ℕ) (seen later : List JobRun)
    → EnqueueRequest
    → Db
    → Result JobError (Db × EnqueueReply)
enqueue_checked now job_id outbox_id seen later r db = do
  dataset ← active_dataset db
  elim (first (same_idempotency r.job_type r.idempotency_key) seen) [
    | some existing ↦ ok (db, noop_reply existing)
    | none ↦
        let run = new_run now job_id dataset r in
        if any (conflicts run) db.job_runs
        then reconciled r later >>= (λ reply. ok (db, reply))
        else insert_job now outbox_id run r.actor_id db
  ]

unfoldable pub enqueue :
    (now job_id outbox_id : ℕ) (seen later : List JobRun)
    → EnqueueRequest
    → Db
    → Result JobError (Db × EnqueueReply)
enqueue now job_id outbox_id seen later request db = do
  r ← checked_request request
  enqueue_checked now job_id outbox_id seen later r db
