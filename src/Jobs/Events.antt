-- ===== src/Jobs/Events.antt =====
-- `_event` and `_idle_worker` of src/bff/postgres/job_repository.py.
pub mod Numbering
use Prim.Native.Nat.{ℕ, suc, max}
use Prim.Native.String.{String}
use mathlib.Core.Option.{Option, none, some}
use mathlib.Core.List.{List, [], ◌∷◌, ◌++◌}
use text.Mathlib.Text.{◌==◌ as str_eq}
use foundation_intelligence.Common.{◌==◌, if◌then◌else◌, update}
use foundation_intelligence.Jobs.Schema.{Db, JobEvent, Details, WorkerRow, WorkerStatus}

-- `SELECT COALESCE(MAX(sequence), 0) FROM job_events WHERE job_run_id=:job_id`
unfoldable pub last_sequence : ℕ → List JobEvent → ℕ
last_sequence job_id [] = 0
last_sequence job_id (e ∷ es) =
    if e.job_run_id == job_id
    then max e.sequence (last_sequence job_id es)
    else last_sequence job_id es

-- `_event`
unfoldable pub record_event : ℕ → ℕ → String → String → Details → Db → Db
record_event now job_id event_type actor_id details db = record db {
  events = db.events ++ event ∷ [];
}
  where
    event : JobEvent
    event = record {
      job_run_id = job_id;
      sequence = suc (last_sequence job_id db.events);
      event_type = event_type;
      occurred_at = now;
      actor_id = actor_id;
      details = details;
    }

-- `_idle_worker`
unfoldable pub idle_worker : ℕ → String → Db → Db
idle_worker now worker_id db = record db {
  workers =
      update (λ w. str_eq w.worker_id worker_id)
        (λ w. record w { status = WorkerStatus.idle; job_run_id = none; heartbeat_at = now })
        db.workers;
}
