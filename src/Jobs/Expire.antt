-- ===== src/Jobs/Expire.antt =====
-- `PostgresJobRepository.fail_expired`: the reaper of leases, and its older name `requeue_expired`.
pub mod Outcome
use Prim.Native.Nat.{ℕ}
use Prim.Native.String.{String}
use mathlib.Core.Bool.{Bool, true, false, ◌&&◌, not}
use mathlib.Core.Option.{Option, none, some}
use mathlib.Core.List.{List, [], ◌∷◌, map}
use text.Mathlib.Text.{◌==◌ as str_eq}
use foundation_intelligence.Common.{ltb, ◌==◌, if◌then◌else◌, any, select, update, length}
use foundation_intelligence.Jobs.Schema.{
  Db, JobRun, ProfileRow, WorkerRow, JobStatus, WorkerStatus, is_running, reason_details,
}
use foundation_intelligence.Jobs.Events.{record_event}
use foundation_intelligence.Jobs.Finish.{failed_profile, awaits_job}

-- `queue_name=:queue_name AND status='running' AND lease_expires_at < CURRENT_TIMESTAMP`
abbrev pub has_expired : ℕ → String → JobRun → Bool
has_expired now queue_name r =
    str_eq r.queue_name queue_name
    && is_running r.status
    && elim r.lease_expires_at [ none ↦ false | some lease ↦ ltb lease now ]

abbrev pub expired_run : ℕ → JobRun → JobRun
expired_run now r = record r {
  status = JobStatus.failed;
  completed_at = some now;
  heartbeat_at = none;
  lease_expires_at = none;
  error_class = some "WorkerLeaseExpired";
  error_message = some "Worker heartbeat lease expired; automatic retry is disabled";
  failure_reason = some "worker_lease_expired";
}

-- `for job_id in failed_rows: await self._event(...)`
unfoldable pub expiry_events : ℕ → List ℕ → Db → Db
unfolding record_event
expiry_events now [] db = db
expiry_events now (job_id ∷ ids) db =
    expiry_events now ids
      (record_event now job_id "failed" "lease-reaper" (reason_details "lease_expired") db)

abbrev pub holds_any : List ℕ → WorkerRow → Bool
holds_any ids w = elim w.job_run_id [ none ↦ false | some j ↦ any (λ i. i == j) ids ]

abbrev pub stopped_worker : ℕ → WorkerRow → WorkerRow
stopped_worker now w = record w {
  status = WorkerStatus.stopped;
  job_run_id = none;
  heartbeat_at = now;
}

-- The two UPDATEs under `if failed_rows`. On an empty list neither selects a row.
unfoldable pub release_expired : ℕ → List ℕ → Db → Db
release_expired now ids db = record db {
  profiles = update (λ p. any (λ i. awaits_job i p) ids) (failed_profile now) db.profiles;
  workers = update (holds_any ids) (stopped_worker now) db.workers;
}

abbrev pub expired_ids : ℕ → String → Db → List ℕ
expired_ids now queue_name db =
    map (λ r. r.job_run_id) (select (has_expired now queue_name) db.job_runs)

-- `fail_expired`: the new state, and the number of jobs that it failed.
unfoldable pub fail_expired : ℕ → String → Db → Db × ℕ
unfolding expiry_events release_expired
fail_expired now queue_name db =
    let ids = expired_ids now queue_name db in
    let failed : Db = record db {
      job_runs = update (has_expired now queue_name) (expired_run now) db.job_runs;
    } in
    (release_expired now ids (expiry_events now ids failed), length ids)

pub record RequeueReport : Type 0 where
  pub requeued : ℕ
  pub dead_lettered : ℕ
  pub failed : ℕ

-- `requeue_expired`
unfoldable pub requeue_expired : ℕ → String → Db → Db × RequeueReport
unfolding fail_expired
requeue_expired now queue_name db =
    let (db', n) = fail_expired now queue_name db in
    (db', record { requeued = 0; dead_lettered = 0; failed = n })
