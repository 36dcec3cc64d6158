-- ===== src/Jobs/Worker/Endings.antt =====
-- How `run_once` of the durable worker ends, whatever happened while its handler ran.
use Prim.Native.Nat.{ℕ}
use Prim.Native.String.{String}
use mathlib.Core.Path.{◌≡◌, refl, ap, ◌∙◌}
use mathlib.Core.Bool.{Bool, true, false}
use mathlib.Core.Option
use mathlib.Core.Option.{Option, none, some}
use native.Mathlib.Omega.{arith}
use foundation_intelligence.Common.{Result, ok, err, In, Distinct}
use foundation_intelligence.Jobs.Schema.{Db, JobRun, JobStatus, status_text}
use foundation_intelligence.Jobs.Errors.{JobError, job_not_running}
use foundation_intelligence.Jobs.Claim.{running_job, claim}
use foundation_intelligence.Jobs.Finish.{is_refused, fail_run}
use foundation_intelligence.Jobs.Finish.Outcome.{
  IsLost, succeed_running, succeed_lost, fail_lost, fail_running, fail_run-FailedRow,
}
use foundation_intelligence.Jobs.Machine.Keys.{same_id}
use foundation_intelligence.Jobs.Worker.{
  Worker, WorkerResult, Outcome, Handlers, returned, timed_out, raised, give_up, settle,
  run_handler, run_once,
}

-- The outcome is not a result that names an unknown dataset.
abbrev pub Recordable : Outcome → Type 0
Recordable (returned result) = is_refused result ≡ false
Recordable timed_out = Unit
Recordable (raised error_class message) = Unit

abbrev pub AllRecordable : Option (JobRun → Outcome) → JobRun → Type 0
AllRecordable none job = Unit
AllRecordable (some handler) job = Recordable (handler job)

-- The status that a worker reports for a job that is still its own.
abbrev pub reported : Outcome → String
reported (returned result) = "succeeded"
reported timed_out = "failed"
reported (raised error_class message) = "failed"

abbrev pub expected_status : Option (JobRun → Outcome) → JobRun → String
expected_status none job = "failed"
expected_status (some handler) job = reported (handler job)

-- The row says what the worker reports, and the call reports `status`.
abbrev pub Ends : JobRun → String → Result JobError (Db × WorkerResult) → Type 0
Ends job status (err e) = ⊥
Ends job status (ok (db, result)) =
    (result ≡ record { status = status; job_id = some job.job_run_id })
    × ((r : JobRun) × In r db.job_runs
        × (r.job_run_id ≡ job.job_run_id)
        × (status_text r.status ≡ status))

given_up_status :
    (now : ℕ) (worker error_class reason : String) (r : JobRun) (db : Db)
    → (fail_run now worker error_class reason false r db).1 ≡ JobStatus.failed
unfolding fail_run
given_up_status now worker error_class reason r db = refl

give_up-Ends :
    (now : ℕ) (w : Worker) (job : JobRun) (error_class reason : String) (r : JobRun) (db : Db)
    → Distinct same_id db.job_runs
    → In r db.job_runs
    → running_job job.job_run_id r ≡ true
    → Ends job "failed" (give_up now w job error_class reason db)
unfolding give_up
give_up-Ends now w job error_class reason r db d m h =
    let (s, n, row) = fail_run-FailedRow now w.worker_id error_class reason false r db m in
    let failed = given_up_status now w.worker_id error_class reason r db in
    let same : r.job_run_id ≡ job.job_run_id = ground arith in
    rw (fail_running now job.job_run_id w.worker_id error_class reason false r db d m h)
      (rw failed refl, (s, n, row.same_job ∙ same, ap status_text (row.now_is ∙ failed)))

give_up-lost :
    (now : ℕ) (w : Worker) (job : JobRun) (error_class reason : String) (db : Db)
    → IsLost job.job_run_id db
    → give_up now w job error_class reason db ≡ err job_not_running
unfolding give_up
give_up-lost now w job error_class reason db lost =
    rw (fail_lost now job.job_run_id w.worker_id error_class reason false db lost)

-- What the call does if the job was taken from the worker meanwhile.
abbrev pub LostAnswer : JobRun → Db → Option Outcome → Result JobError (Db × WorkerResult) → Type 0
LostAnswer job db (some (returned result)) answer =
    answer ≡ ok (db, record { status = "lost_lease"; job_id = some job.job_run_id })
LostAnswer job db _ answer = answer ≡ err job_not_running

module _ (redact : String → String) where
  settle-Ends :
      (now : ℕ) (w : Worker) (job : JobRun) (outcome : Outcome) (r : JobRun) (db : Db)
      → Distinct same_id db.job_runs
      → In r db.job_runs
      → running_job job.job_run_id r ≡ true
      → Recordable outcome
      → Ends job (reported outcome) (settle redact now w job outcome db)
  unfolding settle
  settle-Ends now w job (returned result) r db d m h recordable =
      let (db', done, (s, n, row)) =
        succeed_running now job.job_run_id w.worker_id result r db m h recordable in
      let same : r.job_run_id ≡ job.job_run_id = ground arith in
      rw done (refl, (s, n, row.same_job ∙ same, ap status_text row.now_is))
  settle-Ends now w job timed_out r db d m h _ = give_up-Ends now w job _ _ r db d m h
  settle-Ends now w job (raised error_class message) r db d m h _ =
      give_up-Ends now w job _ _ r db d m h

  run_handler-Ends :
      (now : ℕ) (w : Worker) (handler : Option (JobRun → Outcome)) (job r : JobRun) (db : Db)
      → Distinct same_id db.job_runs
      → In r db.job_runs
      → running_job job.job_run_id r ≡ true
      → AllRecordable handler job
      → Ends job (expected_status handler job) (run_handler redact now w handler job db)
  unfolding run_handler
  run_handler-Ends now w none job r db d m h _ = give_up-Ends now w job _ _ r db d m h
  run_handler-Ends now w (some handler) job r db d m h recordable =
      settle-Ends now w job (handler job) r db d m h recordable

  settle-LostAnswer :
      (now : ℕ) (w : Worker) (job : JobRun) (outcome : Outcome) (db : Db)
      → IsLost job.job_run_id db
      → LostAnswer job db (some outcome) (settle redact now w job outcome db)
  unfolding settle
  settle-LostAnswer now w job (returned result) db lost =
      rw (succeed_lost now job.job_run_id w.worker_id result db lost)
  settle-LostAnswer now w job timed_out db lost = give_up-lost now w job _ _ db lost
  settle-LostAnswer now w job (raised error_class message) db lost =
      give_up-lost now w job _ _ db lost

  run_handler-LostAnswer :
      (now : ℕ) (w : Worker) (handler : Option (JobRun → Outcome)) (job : JobRun) (db : Db)
      → IsLost job.job_run_id db
      → LostAnswer job db
          (Option.map (λ h. h job) handler)
          (run_handler redact now w handler job db)
  unfolding run_handler
  run_handler-LostAnswer now w none job db lost = give_up-lost now w job _ _ db lost
  run_handler-LostAnswer now w (some handler) job db lost =
      settle-LostAnswer now w job (handler job) db lost

  -- A worker whose job is still running when the handler ends, with no result that names an unknown
  -- dataset, returns, and the row of the job has the status that it reports: succeeded if the handler
  -- returned, failed if it raised, timed out or does not exist.
  pub run_once-Ends :
      (claimed_at finished_at : ℕ) (locked : ℕ → Bool) (w : Worker) (handlers : Handlers)
      (between : Db → Db) (job r : JobRun) (db db' : Db)
      → claim claimed_at locked w.worker_id w.queue_name w.lease_seconds db ≡ ok (db', some job)
      → Distinct same_id (between db').job_runs
      → In r (between db').job_runs
      → running_job job.job_run_id r ≡ true
      → AllRecordable (handlers job.job_type) job
      → Ends job
          (expected_status (handlers job.job_type) job)
          (run_once redact claimed_at finished_at locked w handlers between db)
  unfolding run_once
  run_once-Ends claimed_at finished_at locked w handlers between job r db db' e d m h recordable =
      rw e (
        run_handler-Ends finished_at w (handlers job.job_type) job r (between db') d m h recordable)

  -- A worker that has lost its job meanwhile changes nothing: it reports `lost_lease` if its handler
  -- returned, but if the handler raised or timed out, or does not exist, `run_once` itself raises.
  pub run_once-LostAnswer :
      (claimed_at finished_at : ℕ) (locked : ℕ → Bool) (w : Worker) (handlers : Handlers)
      (between : Db → Db) (job : JobRun) (db db' : Db)
      → claim claimed_at locked w.worker_id w.queue_name w.lease_seconds db ≡ ok (db', some job)
      → IsLost job.job_run_id (between db')
      → LostAnswer job
          (between db')
          (Option.map (λ h. h job) (handlers job.job_type))
          (run_once redact claimed_at finished_at locked w handlers between db)
  unfolding run_once
  run_once-LostAnswer claimed_at finished_at locked w handlers between job db db' e lost =
      rw e (run_handler-LostAnswer finished_at w (handlers job.job_type) job (between db') lost)
