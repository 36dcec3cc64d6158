-- ===== src/Jobs/RunTests.antt =====
-- The theorems on claims, ends, the reaper, the worker and the dispatcher at concrete states.
use Prim.Native.Nat.{ℕ}
use Prim.Native.String.{String}
use mathlib.Core.Path.{◌≡◌, refl}
use mathlib.Core.Logic.{inl, ◌≢◌}
use mathlib.Core.Bool.{true, false}
use mathlib.Core.Option.{some}
use mathlib.Core.List.{[], ◌∷◌}
use native.Mathlib.Omega.{arith}
use foundation_intelligence.Common.{
  strip, ok, err, In, All, Distinct, length, select, ◌==◌, if◌then◌else◌,
}
use foundation_intelligence.Durable.Envelope.{payload}
use foundation_intelligence.Jobs.Schema.{Db, JobRun, JobStatus, Dispatch, DispatchStatus}
use foundation_intelligence.Jobs.Errors.{job_not_running, unknown_dataset}
use foundation_intelligence.Jobs.Enqueue.{
  checked_request, active_dataset, enqueue, enqueue_checked, insert_job, normalized_dedupe_key,
}
use foundation_intelligence.Jobs.Events.{last_sequence}
use foundation_intelligence.Jobs.Claim.{
  candidate, claim, claim_checked, claim_run, claimed_run, running_job,
}
use foundation_intelligence.Jobs.Claim.Order.{claim_exclusive}
use foundation_intelligence.Jobs.Finish.{
  JobResult, is_refused, succeed, fail, fail_run, status_after,
}
use foundation_intelligence.Jobs.Finish.Outcome.{
  IsLost, Failed, FailedRow, Succeeded, succeed_outcome, fail_outcome,
}
use foundation_intelligence.Jobs.Expire.{
  fail_expired, has_expired, expired_ids, expiry_events, release_expired,
}
use foundation_intelligence.Jobs.Expire.Outcome.{IsReaped, LeaseExpired, fail_expired-IsReaped}
use foundation_intelligence.Jobs.Invariant.{IsValid, IsValid-later}
use foundation_intelligence.Jobs.Machine.Keys.{same_id}
use foundation_intelligence.Jobs.System.{
  enqueues, commits, here, next, activates, Reach-empty-IsValid,
}
use foundation_intelligence.Jobs.Outbox.{
  Publishing, accepted, refused, DispatchReport, due_dispatches, mark_dispatch_failed,
  status_after_failure, run_dispatcher, failed_dispatch,
}
use foundation_intelligence.Jobs.Outbox.Due.{RetriesLate, mark_dispatch_failed-RetriesLate}
use foundation_intelligence.Jobs.Outbox.Dispatcher.{none_yet, Passed, run_dispatcher-Passed}
use foundation_intelligence.Jobs.Worker.{Worker, Handlers, raised, run_once}
use foundation_intelligence.Jobs.Worker.Endings.{Ends, run_once-Ends, run_once-LostAnswer}
use foundation_intelligence.Jobs.Samples.{
  sample_request, start_db, sample_run, queued_db, sample_reply, unlocked, busy_run, second_request,
  second_run, second_reply, both_db, sample_dispatch, waiting_profile,
}

enqueue_sample : enqueue 10 1 5 [] [] sample_request start_db ≡ ok (queued_db, sample_reply)
unfolding enqueue checked_request enqueue_checked active_dataset insert_job strip
    normalized_dedupe_key payload last_sequence
enqueue_sample = refl

enqueue_both :
    enqueue 15 2 6 queued_db.job_runs [] second_request queued_db ≡ ok (both_db, second_reply)
unfolding enqueue checked_request enqueue_checked active_dataset insert_job strip
    normalized_dedupe_key payload last_sequence
enqueue_both = refl

abbrev one_busy : Db
one_busy = (claim_run 20 "worker-1" "default" 60 sample_run both_db).0

abbrev both_busy : Db
both_busy = (claim_run 21 "worker-2" "default" 60 second_run one_busy).0

abbrev second_busy : JobRun
second_busy = claimed_run 21 60 second_run

claim_first : claim 20 unlocked "worker-1" "default" 60 both_db ≡ ok (one_busy, some busy_run)
unfolding claim claim_checked candidate claim_run strip
claim_first = refl

claim_second : claim 21 unlocked "worker-2" "default" 60 one_busy ≡ ok (both_busy, some second_busy)
unfolding claim claim_checked candidate claim_run strip
claim_second = refl

both_db-IsValid : IsValid 15 both_db
both_db-IsValid = Reach-empty-IsValid 10 (
    next
      (next (next here (commits 10 start_db (omega arith) (activates (some "v1")))) (
        commits 10 queued_db (omega arith)
          (enqueues 1 5 [] [] sample_request (queued_db, sample_reply) enqueue_sample)))
      (commits 15 both_db (omega arith)
        (enqueues 2 6 queued_db.job_runs [] second_request (both_db, second_reply) enqueue_both)))

claim_exclusive_example : second_busy.job_run_id ≢ busy_run.job_run_id
claim_exclusive_example =
    claim_exclusive 20 21 unlocked unlocked "worker-1" "worker-2" "default" "default" 60 60 both_db
      one_busy busy_run both_busy second_busy
      (IsValid-later 15 20 both_db (omega arith) both_db-IsValid) claim_first claim_second

abbrev sample_result : JobResult
sample_result = record { json = "{}"; dataset_version = some "v2"; is_known_dataset = true }

-- The busy job with a profile that waits for it.
abbrev watched_db : Db
watched_db = record both_busy { profiles = waiting_profile ∷ [] }

succeed_outcome_example :
    ((r : JobRun)
      → In r watched_db.job_runs
      → running_job 1 r ≡ true
      → (is_refused sample_result ≡ true
          → succeed 40 1 "worker-1" sample_result watched_db ≡ err unknown_dataset)
        × (is_refused sample_result ≡ false
            → (db' : Db) × (succeed 40 1 "worker-1" sample_result watched_db ≡ ok (db', true))
              × ((s : JobRun) × In s db'.job_runs × Succeeded 40 sample_result r s)))
    × (IsLost 1 watched_db
        → succeed 40 1 "worker-1" sample_result watched_db ≡ ok (watched_db, false))
succeed_outcome_example = succeed_outcome 40 1 "worker-1" sample_result watched_db

abbrev failed_db : Db
failed_db = (fail_run 40 "worker-1" "ValueError" "bad" false busy_run watched_db).0

fail_sample :
    fail 40 1 "worker-1" "ValueError" "bad" false watched_db ≡ ok (failed_db, JobStatus.failed)
unfolding fail fail_run status_after claim_run
fail_sample = refl

fail_outcome_example :
    (r : JobRun) × In r watched_db.job_runs
    × (running_job 1 r ≡ true)
    × Failed r.job_run_id false r watched_db failed_db JobStatus.failed
    × ((s : JobRun) × In s failed_db.job_runs
        × FailedRow 40 "ValueError" "bad" JobStatus.failed r s)
fail_outcome_example =
    fail_outcome 40 1 "worker-1" "ValueError" "bad" false watched_db failed_db JobStatus.failed
      fail_sample

-- The leases end at 60 seconds and a little.
abbrev overdue : ℕ
overdue = 70000000

fail_expired-IsReaped_example :
    let (db', n) = fail_expired overdue "default" watched_db in
    IsReaped overdue "default" (expired_ids overdue "default" watched_db) db'
    × All
        (λ r.
          has_expired overdue "default" r ≡ true
          → (s : JobRun) × In s db'.job_runs × LeaseExpired overdue r s)
        watched_db.job_runs
    × (n ≡ length (select (has_expired overdue "default") watched_db.job_runs))
    × ((fail_expired overdue "default" db').1 ≡ 0)
fail_expired-IsReaped_example = fail_expired-IsReaped overdue "default" watched_db

abbrev sample_worker : Worker
sample_worker = record { worker_id = "worker-1"; queue_name = "default"; lease_seconds = 60 }

one_busy-Distinct : Distinct same_id one_busy.job_runs
unfolding claim_run
one_busy-Distinct = ((refl, tt), (tt, tt))

abbrev raising : Handlers
raising _ = some (λ _. raised "ValueError" "bad")

abbrev same_text : String → String
same_text s = s

abbrev same_db : Db → Db
same_db db = db

run_once-Ends_example :
    Ends busy_run "failed" (run_once same_text 20 40 unlocked sample_worker raising same_db both_db)
unfolding claim_run
run_once-Ends_example =
    run_once-Ends same_text 20 40 unlocked sample_worker raising same_db busy_run busy_run both_db
      one_busy claim_first one_busy-Distinct (inl refl) refl tt

abbrev reap : Db → Db
reap db = (fail_expired overdue "default" db).0

reaped : IsLost 1 (reap one_busy)
unfolding fail_expired expiry_events release_expired claim_run
reaped = (refl, (refl, tt))

run_once-LostAnswer_example :
    run_once same_text 20 overdue unlocked sample_worker raising reap both_db ≡ err job_not_running
run_once-LostAnswer_example =
    run_once-LostAnswer same_text 20 overdue unlocked sample_worker raising reap busy_run both_db
      one_busy claim_first reaped

abbrev missed_db : Db
missed_db = record queued_db {
  outbox = failed_dispatch 30 1 DispatchStatus.failed 30 "Timeout" sample_dispatch ∷ [];
}

missed : mark_dispatch_failed 30 5 "Timeout" 30 5 queued_db ≡ ok (missed_db, DispatchStatus.failed)
unfolding mark_dispatch_failed status_after_failure
missed = refl

mark_dispatch_failed-RetriesLate_example :
    (before : Dispatch) × In before queued_db.outbox
    × ((before.outbox_id == 5) ≡ true)
    × All (RetriesLate 30 40 5 5 30 before) missed_db.outbox
mark_dispatch_failed-RetriesLate_example =
    mark_dispatch_failed-RetriesLate 30 40 5 "Timeout" 30 5 queued_db
      (missed_db, DispatchStatus.failed) missed

-- A queue that takes the first message and refuses the second.
abbrev sample_queue : Dispatch → Publishing
sample_queue d = if d.outbox_id == 5 then accepted "message-1" else refused "Timeout"

abbrev sample_clock : Dispatch → ℕ
sample_clock _ = 31

run_dispatcher-Passed_example :
    (out : Db × DispatchReport) × (run_dispatcher sample_queue sample_clock 30 50 both_db ≡ ok out)
    × Passed sample_queue (due_dispatches 30 50 both_db) both_db out.0 none_yet out.1
run_dispatcher-Passed_example =
    run_dispatcher-Passed sample_queue sample_clock 30 50 both_db both_db-IsValid.outbox_keys
