-- ===== src/Jobs/System.antt =====
-- The job tables under any sequence of transactions of the API, the workers, the dispatcher, the
-- lease reaper and the deployment. A transaction that raises is rolled back, so it is no step.
use Prim.Native.Nat.{ℕ, ◌≤◌}
use Prim.Native.String.{String}
use mathlib.Core.Path.{◌≡◌, refl}
use mathlib.Core.Bool.{Bool}
use mathlib.Core.Option.{Option, none, some}
use mathlib.Core.List.{List, []}
use foundation_intelligence.Common.{ok}
use foundation_intelligence.Jobs.Schema.{Db, JobRun, JobStatus, DispatchStatus}
use foundation_intelligence.Jobs.Enqueue.{EnqueueRequest, EnqueueReply, enqueue}
use foundation_intelligence.Jobs.Enqueue.Valid.{enqueue-IsValid}
use foundation_intelligence.Jobs.Claim.{claim, heartbeat}
use foundation_intelligence.Jobs.Finish.{JobResult, succeed, fail}
use foundation_intelligence.Jobs.Expire.{fail_expired}
use foundation_intelligence.Jobs.Retire.{retire_jobs}
use foundation_intelligence.Jobs.Outbox.{mark_dispatch_published, mark_dispatch_failed}
use foundation_intelligence.Jobs.Events.{last_sequence}
use foundation_intelligence.Jobs.Invariant.{IsValid, IsValid-later}
use foundation_intelligence.Jobs.Advances.{Advances-IsValid}
use foundation_intelligence.Jobs.Advances.Running.{
  claim-Advances, heartbeat-Advances, succeed-Advances, fail-Advances,
}
use foundation_intelligence.Jobs.Advances.Bulk.{fail_expired-Advances, retire_jobs-Advances}
use foundation_intelligence.Jobs.Advances.Sending.{
  mark_dispatch_published-Advances, mark_dispatch_failed-Advances,
}

-- One committed transaction at time `now`.
pub data Transaction (now : ℕ) (db : Db) : Db → Type 0 where
  enqueues :
      (job_id outbox_id : ℕ) (seen later : List JobRun) (r : EnqueueRequest)
      (out : Db × EnqueueReply)
      → enqueue now job_id outbox_id seen later r db ≡ ok out
      → Transaction now db out.0
  claims :
      (locked : ℕ → Bool) (worker queue : String) (lease : ℕ) (out : Db × Option JobRun)
      → claim now locked worker queue lease db ≡ ok out
      → Transaction now db out.0
  beats :
      (job_id : ℕ) (worker : String) (lease : ℕ)
      → Transaction now db (heartbeat now job_id worker lease db).0
  succeeds :
      (job_id : ℕ) (worker : String) (result : JobResult) (out : Db × Bool)
      → succeed now job_id worker result db ≡ ok out
      → Transaction now db out.0
  fails :
      (job_id : ℕ) (worker error_class reason : String) (retryable : Bool) (out : Db × JobStatus)
      → fail now job_id worker error_class reason retryable db ≡ ok out
      → Transaction now db out.0
  expires : (queue : String) → Transaction now db (fail_expired now queue db).0
  retires :
      (ids : List ℕ) (out : Db × List ℕ)
      → retire_jobs now ids db ≡ some out
      → Transaction now db out.0
  publishes :
      (outbox_id : ℕ) (message : String)
      → Transaction now db (mark_dispatch_published now outbox_id message db).0
  misses :
      (outbox_id : ℕ) (error : String) (delay maximum : ℕ) (out : Db × DispatchStatus)
      → mark_dispatch_failed now outbox_id error delay maximum db ≡ ok out
      → Transaction now db out.0
  activates :
      (dataset : Option String) → Transaction now db (record db { active_dataset = dataset })

pub record System : Type 0 where
  pub clock : ℕ
  pub db : Db

pub data Step (s : System) : System → Type 0 where
  commits :
      (now : ℕ) (db : Db)
      → s.clock ≤ now
      → Transaction now s.db db
      → Step s (record { clock = now; db = db })

pub data Reach (s : System) : System → Type 0 where
  here : Reach s s
  next : {t u : System} → Reach s t → Step t u → Reach s u

-- Every transaction that commits keeps what Jobs/Invariant lists.
pub Transaction-IsValid :
    {now : ℕ} {db db' : Db} → Transaction now db db' → IsValid now db → IsValid now db'
Transaction-IsValid {now} {db} (enqueues job_id outbox_id seen later r out e) v =
    enqueue-IsValid now job_id outbox_id seen later r db out e v
Transaction-IsValid {now} {db} (claims locked worker queue lease out e) v =
    Advances-IsValid (claim-Advances now locked worker queue lease db out v e) v
Transaction-IsValid {now} {db} (beats job_id worker lease) v =
    Advances-IsValid (heartbeat-Advances now job_id worker lease db) v
Transaction-IsValid {now} {db} (succeeds job_id worker result out e) v =
    Advances-IsValid (succeed-Advances now job_id worker result db out e) v
Transaction-IsValid {now} {db} (fails job_id worker error_class reason retryable out e) v =
    Advances-IsValid (fail-Advances now job_id worker error_class reason retryable db out v e) v
Transaction-IsValid {now} {db} (expires queue) v =
    Advances-IsValid (fail_expired-Advances now queue db) v
Transaction-IsValid {now} {db} (retires ids out e) v =
    Advances-IsValid (retire_jobs-Advances now ids db out e) v
Transaction-IsValid {now} {db} (publishes outbox_id message) v =
    Advances-IsValid (mark_dispatch_published-Advances now outbox_id message db) v
Transaction-IsValid {now} {db} (misses outbox_id error delay maximum out e) v =
    Advances-IsValid (mark_dispatch_failed-Advances now outbox_id error delay maximum db out e) v
Transaction-IsValid (activates dataset) v = record {
  runs = v.runs;
  ids = v.ids;
  requests = v.requests;
  dedupe = v.dedupe;
  outbox_keys = v.outbox_keys;
  dispatched = v.dispatched;
  dispatches = v.dispatches;
  numbered = v.numbered;
  logged = v.logged;
}

pub Step-IsValid : {s t : System} → Step s t → IsValid s.clock s.db → IsValid t.clock t.db
Step-IsValid {s} (commits now db later tx) v =
    Transaction-IsValid tx (IsValid-later s.clock now s.db later v)

pub Reach-IsValid : {s t : System} → Reach s t → IsValid s.clock s.db → IsValid t.clock t.db
Reach-IsValid here v = v
Reach-IsValid (next r st) v = Step-IsValid st (Reach-IsValid r v)

abbrev pub empty_db : Db
empty_db = record {
  job_runs = [];
  outbox = [];
  events = [];
  workers = [];
  profiles = [];
  active_dataset = none;
}

-- From empty tables, every history of committed transactions, with a clock that does not go back,
-- leads to tables where the jobs meet the checks on type, queue, dedupe key, attempts, timeout, times
-- and lease and what their status says of these, no two share an id, a type with idempotency key, or
-- while active a dedupe key, each has its one dispatch, with an id of its own, whose queue is not
-- blank and which has a time and a message if published, and every event is that of a job, numbered
-- without a gap.
pub Reach-empty-IsValid :
    (start : ℕ) {t : System}
    → Reach (record { clock = start; db = empty_db }) t
    → IsValid t.clock t.db
unfolding last_sequence
Reach-empty-IsValid start r = Reach-IsValid r (record {
  runs = tt;
  ids = tt;
  requests = tt;
  dedupe = tt;
  outbox_keys = tt;
  dispatched = refl;
  dispatches = tt;
  numbered = λ job. refl;
  logged = tt;
})
