-- ===== src/Jobs/Retire.antt =====
-- `retire_jobs` of src/pipelines/job_admin.py: explicit jobs are cancelled at a deployment.
use Prim.Native.Nat.{ℕ}
use Prim.Native.String.{String}
use mathlib.Core.Bool.{Bool, ◌&&◌, ◌||◌}
use mathlib.Core.Option.{Option, none, some}
use mathlib.Core.List.{List, [], ◌∷◌, map}
use foundation_intelligence.Common.{ltb, ◌==◌, if◌then◌else◌, any, select, update, length, coalesce}
use foundation_intelligence.Jobs.Schema.{Db, JobRun, JobStatus, is_active, reason_details}
use foundation_intelligence.Jobs.Events.{record_event}
use foundation_intelligence.Jobs.Expire.{holds_any, stopped_worker}

abbrev pub retirement_reason : String
retirement_reason =
    "Job was created before the worker execution service existed and was retired during worker deployment."

-- `job_run_id=ANY($1::uuid[]) AND status IN ('queued', 'running')`
abbrev pub is_retired : List ℕ → JobRun → Bool
is_retired ids r = any (λ i. i == r.job_run_id) ids && is_active r.status

abbrev pub retired_run : ℕ → JobRun → JobRun
retired_run now r = record r {
  status = JobStatus.cancelled;
  started_at = coalesce r.started_at (some r.requested_at);
  completed_at = some now;
  heartbeat_at = none;
  lease_expires_at = none;
  error_class = some "PreWorkerDeploymentRetirement";
  error_message = some retirement_reason;
  failure_reason = some retirement_reason;
}

unfoldable pub retirement_events : ℕ → List ℕ → Db → Db
unfolding record_event
retirement_events now [] db = db
retirement_events now (job_id ∷ ids) db =
    retirement_events now ids (
      record_event now job_id "cancelled" "worker-deployment" (reason_details retirement_reason) db)

abbrev pub retired_ids : List ℕ → Db → List ℕ
retired_ids ids db = map (λ r. r.job_run_id) (select (is_retired ids) db.job_runs)

-- The transaction: the new state, and the jobs that were retired. `none` is the `ValueError`.
unfoldable pub retire_jobs : ℕ → List ℕ → Db → Option (Db × List ℕ)
unfolding retirement_events
retire_jobs now ids db =
    let retired = retired_ids ids db in
    let cancelled : Db = record db {
      job_runs = update (is_retired ids) (retired_run now) db.job_runs;
    } in
    let logged = retirement_events now retired cancelled in
    if length ids == 0 || ltb 200 (length ids)
    then none
    else some (
      record logged { workers = update (holds_any retired) (stopped_worker now) logged.workers },
      retired,
    )
