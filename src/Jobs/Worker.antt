-- ===== src/Jobs/Worker.antt =====
-- `DurableWorker.run_once` of src/pipelines/durable_worker.py. While the handler runs, other
-- sessions and the worker's own heartbeats commit: `between` is what they do to the database.
-- `redact` is `redact_text` of src/bff/utils/logging.py; the log lines are left out.
pub mod Endings
use Prim.Native.Nat.{ℕ}
use Prim.Native.String.{String, ◌++◌ as str_append}
use mathlib.Core.Bool.{Bool, true, false}
use mathlib.Core.Option.{Option, none, some}
use foundation_intelligence.Common.{Result, ok, err, ◌>>=◌, if◌then◌else◌, truncate}
use foundation_intelligence.Jobs.Schema.{Db, JobRun, JobStatus, status_text}
use foundation_intelligence.Jobs.Errors.{JobError}
use foundation_intelligence.Jobs.Claim.{claim}
use foundation_intelligence.Jobs.Finish.{JobResult, fail, succeed}

pub record WorkerResult : Type 0 where
  pub status : String
  pub job_id : Option ℕ

pub record Worker : Type 0 where
  pub worker_id : String
  pub queue_name : String
  pub lease_seconds : ℕ

-- How the awaited handler ends: it returns, it outlives `timeout_seconds`, or it raises.
pub data Outcome : Type 0 where
  returned : JobResult → Outcome
  timed_out : Outcome
  raised : (error_class message : String) → Outcome

-- `self.handlers.get(job_type)`
abbrev pub Handlers : Type 0
Handlers = String → Option (JobRun → Outcome)

-- `repository.fail(…, retryable=False)` and the result that names the new status.
unfoldable pub give_up :
    ℕ → Worker → JobRun → String → String → Db → Result JobError (Db × WorkerResult)
give_up now w job error_class reason db =
    fail now job.job_run_id w.worker_id error_class reason false db >>= (λ failed.
      ok (failed.0, record { status = status_text failed.1; job_id = some job.job_run_id }))

module _ (redact : String → String) where
  -- After the handler has ended.
  unfoldable pub settle : ℕ → Worker → JobRun → Outcome → Db → Result JobError (Db × WorkerResult)
  unfolding give_up
  settle now w job (returned result) db =
      succeed now job.job_run_id w.worker_id result db >>= (λ recorded. ok (
        recorded.0,
        record {
          status = if recorded.1 then "succeeded" else "lost_lease";
          job_id = some job.job_run_id;
        },
      ))
  settle now w job timed_out db =
      give_up now w job "JobTimeout" "Worker execution exceeded the durable job timeout" db
  settle now w job (raised error_class message) db =
      give_up now w job error_class
        (str_append "Worker handler failed; last-good data remains active: "
          (truncate 1500 (redact message)))
        db

  -- `handler = self.handlers.get(job_type)` and what follows it.
  unfoldable pub run_handler :
      ℕ → Worker → Option (JobRun → Outcome) → JobRun → Db → Result JobError (Db × WorkerResult)
  unfolding settle
  run_handler now w none job db =
      give_up now w job "UnsupportedJobType" "No worker handler is registered for this job type" db
  run_handler now w (some handler) job db = settle now w job (handler job) db

  unfoldable pub run_once :
      (claimed_at finished_at : ℕ) (locked : ℕ → Bool)
      → Worker
      → Handlers
      → (Db → Db)
      → Db
      → Result JobError (Db × WorkerResult)
  unfolding run_handler
  run_once claimed_at finished_at locked w handlers between db =
      claim claimed_at locked w.worker_id w.queue_name w.lease_seconds db
      >>= (λ (taken : Db × Option JobRun). elim taken.1 [
        | none ↦ ok (taken.0, record { status = "idle"; job_id = none })
        | some job ↦ run_handler finished_at w (handlers job.job_type) job (between taken.0)
      ])
