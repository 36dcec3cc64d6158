-- ===== src/Jobs/Claim.antt =====
-- `PostgresJobRepository.claim` and `heartbeat`. `locked` tells the rows that other transactions
-- have locked, which `FOR UPDATE SKIP LOCKED` passes over.
pub mod Order
use Prim.Native.Nat.{ℕ, ◌+◌, ◌*◌}
use Prim.Native.String.{String, count, ◌++◌ as str_append}
use mathlib.Core.Bool.{Bool, true, false, ◌&&◌, ◌||◌, not}
use mathlib.Core.Option.{Option, none, some}
use mathlib.Core.List.{List, [], ◌∷◌, ◌++◌}
use text.Mathlib.Text.{◌==◌ as str_eq}
use foundation_intelligence.Common.{
  Result, ok, err, ◌>>=◌, ◌>>◌, raise_if, strip, is_empty, ltb, ◌==◌, if◌then◌else◌, any, first,
  select, update, least, coalesce, truncate,
}
use foundation_intelligence.Jobs.Schema.{
  Db, JobRun, Dispatch, WorkerRow, JobStatus, DispatchStatus, WorkerStatus, is_queued, is_running,
  is_unsent, claim_details,
}
use foundation_intelligence.Jobs.Errors.{
  JobError, unbounded_worker_id, unbounded_queue_name, invalid_lease,
}
use foundation_intelligence.Jobs.Events.{record_event}

-- `INTERVAL '1 second'`
abbrev pub second : ℕ
second = 1000000

-- `ORDER BY requested_at, job_run_id`
abbrev pub requested_earlier : JobRun → JobRun → Bool
requested_earlier r s =
    ltb r.requested_at s.requested_at
    || (r.requested_at == s.requested_at && ltb r.job_run_id s.job_run_id)

-- The rows that the candidate is taken from.
abbrev pub claimable : String → (ℕ → Bool) → JobRun → Bool
claimable queue_name locked r =
    is_queued r.status && str_eq r.queue_name queue_name && not (locked r.job_run_id)

unfoldable pub candidate : String → (ℕ → Bool) → List JobRun → Option JobRun
candidate queue_name locked runs =
    least requested_earlier (select (claimable queue_name locked) runs)

-- The SET clause of the claim.
abbrev pub claimed_run : ℕ → ℕ → JobRun → JobRun
claimed_run now lease_seconds r = record r {
  status = JobStatus.running;
  started_at = coalesce r.started_at (some now);
  heartbeat_at = some now;
  lease_expires_at = some (now + lease_seconds * second);
}

-- `INSERT INTO worker_heartbeats … ON CONFLICT (worker_id) DO UPDATE`
unfoldable pub beat_worker :
    ℕ → String → String → Option ℕ → WorkerStatus → List WorkerRow → List WorkerRow
beat_worker now worker_id queue_name job status [] =
    record {
      worker_id = worker_id;
      queue_name = queue_name;
      job_run_id = job;
      status = status;
      started_at = now;
      heartbeat_at = now;
    }
    ∷ []
beat_worker now worker_id queue_name job status (w ∷ ws) =
    if str_eq w.worker_id worker_id
    then record w { queue_name = queue_name; job_run_id = job; status = status; heartbeat_at = now }
      ∷ ws
    else w ∷ beat_worker now worker_id queue_name job status ws

-- `SET status='published', publish_attempts=publish_attempts + 1, …`
abbrev pub published_dispatch : ℕ → String → Dispatch → Dispatch
published_dispatch now message_id d = record d {
  status = DispatchStatus.published;
  publish_attempts = d.publish_attempts + 1;
  queue_message_id = some message_id;
  published_at = some now;
  last_error_class = none;
}

-- `job_run_id=:job_id AND status IN ('pending', 'failed')`
abbrev pub unsent_for : ℕ → Dispatch → Bool
unsent_for job_id d = d.job_run_id == job_id && is_unsent d.status

-- `f"postgres-worker:{worker_id}"[:200]`
unfoldable pub worker_message_id : String → String
worker_message_id worker_id = truncate 200 (str_append "postgres-worker:" worker_id)

-- The statements after the candidate is known.
unfoldable pub claim_run : ℕ → String → String → ℕ → JobRun → Db → Db × Option JobRun
unfolding beat_worker record_event
claim_run now worker_id queue_name lease_seconds r db =
    let run = claimed_run now lease_seconds r in
    let db' : Db = record db {
      job_runs =
          update (λ s. s.job_run_id == r.job_run_id) (claimed_run now lease_seconds) db.job_runs;
      workers =
          beat_worker now worker_id queue_name (some r.job_run_id) WorkerStatus.running db.workers;
      outbox =
          update (unsent_for r.job_run_id) (published_dispatch now (worker_message_id worker_id))
            db.outbox;
    } in
    (
      record_event now r.job_run_id "claimed" worker_id (claim_details worker_id r.attempt) db',
      some run,
    )

unfoldable pub claim_idle : ℕ → String → String → Db → Db × Option JobRun
unfolding beat_worker
claim_idle now worker_id queue_name db = (
  record db { workers = beat_worker now worker_id queue_name none WorkerStatus.idle db.workers },
  none,
)

-- The transaction of `claim`, on arguments that passed.
unfoldable pub claim_checked : ℕ → (ℕ → Bool) → String → String → ℕ → Db → Db × Option JobRun
claim_checked now locked worker_id queue_name lease_seconds db =
    elim (candidate queue_name locked db.job_runs) [
      | none ↦ claim_idle now worker_id queue_name db
      | some r ↦ claim_run now worker_id queue_name lease_seconds r db
    ]

unfoldable pub claim :
    ℕ → (ℕ → Bool) → String → String → ℕ → Db → Result JobError (Db × Option JobRun)
claim now locked worker queue lease_seconds db = do
  let worker_id = strip worker
  let queue_name = strip queue
  raise_if (is_empty worker_id || ltb 200 (count worker_id)) unbounded_worker_id
  raise_if (is_empty queue_name || ltb 120 (count queue_name)) unbounded_queue_name
  raise_if (ltb lease_seconds 5 || ltb 3600 lease_seconds) invalid_lease
  ok (claim_checked now locked worker_id queue_name lease_seconds db)

-- `WHERE job_run_id=:job_id AND status='running'`
abbrev pub running_job : ℕ → JobRun → Bool
running_job job_id r = r.job_run_id == job_id && is_running r.status

abbrev pub renewed_run : ℕ → ℕ → JobRun → JobRun
renewed_run now lease_seconds r = record r {
  heartbeat_at = some now;
  lease_expires_at = some (now + lease_seconds * second);
}

-- `heartbeat`: renews the lease of a running job; `false` says that it is lost.
unfoldable pub heartbeat : ℕ → ℕ → String → ℕ → Db → Db × Bool
heartbeat now job_id worker_id lease_seconds db =
    if any (running_job job_id) db.job_runs
    then (
      record db {
        job_runs = update (running_job job_id) (renewed_run now lease_seconds) db.job_runs;
        workers =
            update (λ w. str_eq w.worker_id worker_id)
              (λ w. record w {
                heartbeat_at = now;
                status = WorkerStatus.running;
                job_run_id = some job_id;
              })
              db.workers;
      },
      true,
    )
    else (db, false)
