-- ===== src/Jobs/Finish.antt =====
-- `PostgresJobRepository.succeed` and `fail`: the end of a running job.
pub mod Outcome
use Prim.Native.Nat.{ℕ, ◌+◌}
use Prim.Native.String.{String}
use mathlib.Core.Bool.{Bool, true, false, ◌&&◌, not}
use mathlib.Core.Option.{Option, none, some}
use foundation_intelligence.Common.{
  Result, ok, err, ◌>>=◌, ◌>>◌, or_raise, raise_if, ltb, ◌==◌, if◌then◌else◌, any, first, update,
  coalesce, truncate, is_some,
}
use foundation_intelligence.Jobs.Schema.{
  Db, JobRun, ProfileRow, JobStatus, ProfileStatus, is_running, is_pending, result_details,
  error_details,
}
use foundation_intelligence.Jobs.Errors.{JobError, job_not_running, unknown_dataset}
use foundation_intelligence.Jobs.Events.{record_event, idle_worker}
use foundation_intelligence.Jobs.Claim.{running_job}

-- A handler's result: its JSON text, its `dataset_version` entry, and whether `dataset_versions` has
-- a row for that entry, as `fk_job_runs_dataset` and `fk_job_runs_last_good_dataset` ask.
pub record JobResult : Type 0 where
  pub json : String
  pub dataset_version : Option String
  pub is_known_dataset : Bool

-- The foreign keys refuse the result.
abbrev pub is_refused : JobResult → Bool
is_refused result = is_some result.dataset_version && not result.is_known_dataset

abbrev pub succeeded_run : ℕ → JobResult → JobRun → JobRun
succeeded_run now result r = record r {
  status = JobStatus.succeeded;
  completed_at = some now;
  heartbeat_at = some now;
  lease_expires_at = none;
  result = some result.json;
  error_class = none;
  error_message = none;
  failure_reason = none;
  dataset_version = coalesce result.dataset_version r.dataset_version;
  last_good_dataset_version = coalesce result.dataset_version r.last_good_dataset_version;
}

-- `succeed` for a result that the foreign keys allow: `false` where the job is not running any more.
unfoldable pub record_result : ℕ → ℕ → String → JobResult → Db → Db × Bool
unfolding record_event idle_worker
record_result now job_id worker_id result db =
    if any (running_job job_id) db.job_runs
    then (
      idle_worker now worker_id (
          record_event now job_id "succeeded" worker_id (result_details result.json) (record db {
            job_runs = update (running_job job_id) (succeeded_run now result) db.job_runs;
          })),
      true,
    )
    else (db, false)

unfoldable pub succeed : ℕ → ℕ → String → JobResult → Db → Result JobError (Db × Bool)
unfolding record_result
succeed now job_id worker_id result db = do
  raise_if (any (running_job job_id) db.job_runs && is_refused result) unknown_dataset
  ok (record_result now job_id worker_id result db)

-- The status after a failure.
unfoldable pub status_after : Bool → Bool → JobStatus
status_after will_retry retryable =
    if will_retry
    then JobStatus.queued
    else if retryable
    then JobStatus.dead_lettered
    else JobStatus.failed

unfoldable pub failure_event : Bool → Bool → String
failure_event will_retry retryable =
    if will_retry then "retry_queued" else if retryable then "dead_lettered" else "failed"

-- The SET clause of `fail`.
abbrev pub failed_run : ℕ → Bool → Bool → String → String → JobRun → JobRun
failed_run now will_retry retryable error_class reason r = record r {
  status = status_after will_retry retryable;
  attempt = r.attempt + (if will_retry then 1 else 0);
  completed_at = if will_retry then none else some now;
  heartbeat_at = none;
  lease_expires_at = none;
  error_class = some (truncate 200 error_class);
  error_message = some (truncate 2000 reason);
  failure_reason = some (truncate 2000 reason);
}

abbrev pub failed_profile : ℕ → ProfileRow → ProfileRow
failed_profile now p = record p {
  status = ProfileStatus.failed;
  payload = none;
  error = some "Profile hydration could not be completed.";
  updated_at = now;
}

-- `job_token=:job_id AND status='pending'`
abbrev pub awaits_job : ℕ → ProfileRow → Bool
awaits_job job_id p =
    elim p.job_token [ none ↦ false | some token ↦ token == job_id ] && is_pending p.status

-- The UPDATE of the profile cache, once no further attempt will come.
unfoldable pub fail_profiles : ℕ → ℕ → Db → Db
fail_profiles now job_id db = record db {
  profiles = update (awaits_job job_id) (failed_profile now) db.profiles;
}

-- The statements after the row is found running.
unfoldable pub fail_run : ℕ → String → String → String → Bool → JobRun → Db → Db × JobStatus
unfolding record_event idle_worker fail_profiles status_after failure_event
fail_run now worker_id error_class reason retryable row db =
    let will_retry = retryable && ltb row.attempt row.max_attempts in
    let failed : Db = record db {
      job_runs =
          update (λ r. r.job_run_id == row.job_run_id)
            (failed_run now will_retry retryable error_class reason) db.job_runs;
    } in
    let released = if will_retry then failed else fail_profiles now row.job_run_id failed in
    (
      idle_worker now worker_id (
          record_event now row.job_run_id (failure_event will_retry retryable) worker_id
            (error_details (truncate 200 error_class) retryable) released),
      status_after will_retry retryable,
    )

unfoldable pub fail :
    ℕ → ℕ → String → String → String → Bool → Db → Result JobError (Db × JobStatus)
fail now job_id worker_id error_class reason retryable db = do
  row ← or_raise (first (λ r. r.job_run_id == job_id) db.job_runs) job_not_running
  raise_if (not (is_running row.status)) job_not_running
  ok (fail_run now worker_id error_class reason retryable row db)
