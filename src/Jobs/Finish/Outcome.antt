-- ===== src/Jobs/Finish/Outcome.antt =====
-- What `succeed` and `fail` do on every branch.
use Prim.Native.Nat.{ℕ, ◌+◌, ◌<◌, ◌≤◌}
use Prim.Native.String.{String}
use mathlib.Core.Path.{◌≡◌, refl, sym, subst}
use mathlib.Core.Logic.{◌≢◌, inl, inr}
use mathlib.Core.Bool.{Bool, true, false, ◌&&◌}
use mathlib.Core.Option.{some, none}
use mathlib.Core.List.{List, [], ◌∷◌}
use native.Mathlib.Omega.{arith}
use foundation_intelligence.Common.{
  any-false, truncate, if◌then◌else◌, ok, err, ◌==◌, ltb, Bool-cases, Option-cases, All, In, In-All,
  In-update, first, first-In, first-hit, and_intro, and_parts, first-none, any, update, Distinct,
}
use foundation_intelligence.Jobs.Schema.{Db, JobRun, JobStatus, ProfileRow, is_running}
use foundation_intelligence.Jobs.Errors.{job_not_running, unknown_dataset}
use foundation_intelligence.Jobs.Claim.{running_job}
use foundation_intelligence.Jobs.Finish.{
  JobResult, is_refused, record_result, succeeded_run, succeed, status_after, failed_run, fail,
  fail_run, awaits_job, failed_profile,
}
use foundation_intelligence.Jobs.Machine.Keys.{same_id}
use foundation_intelligence.Jobs.Refines.{fail-eq-ok, only_row, released_runs}

-- No row of the job is running.
abbrev pub IsLost : ℕ → Db → Type 0
IsLost job_id db = All (λ r. running_job job_id r ≡ false) db.job_runs

any-In-true :
    (p : JobRun → Bool) (r : JobRun) (rs : List JobRun) → In r rs → p r ≡ true → any p rs ≡ true
any-In-true p r [] m h = absurd m
any-In-true p r (x ∷ rs) (inl e) h = rw (e, h)
any-In-true p r (x ∷ rs) (inr m) h = elim (Bool-cases (p x)) [
  | inl hit ↦ rw hit
  | inr miss ↦ rw miss (any-In-true p r rs m h)
]

-- The row of a job after its result was recorded.
pub record Succeeded (now : ℕ) (result : JobResult) (r s : JobRun) : Type 0 where
  pub same_job : s.job_run_id ≡ r.job_run_id
  pub now_is : s.status ≡ JobStatus.succeeded
  pub completed : s.completed_at ≡ some now
  pub lease : s.lease_expires_at ≡ none
  pub stored : s.result ≡ some result.json
  pub no_error : (s.error_class ≡ none) × (s.error_message ≡ none) × (s.failure_reason ≡ none)
  pub new_dataset :
      (v : String)
      → result.dataset_version ≡ some v
      → (s.dataset_version ≡ some v) × (s.last_good_dataset_version ≡ some v)
  pub old_dataset :
      result.dataset_version ≡ none
      → (s.dataset_version ≡ r.dataset_version)
        × (s.last_good_dataset_version ≡ r.last_good_dataset_version)

succeeded_run-Succeeded :
    (now : ℕ) (result : JobResult) (r : JobRun)
    → Succeeded now result r (succeeded_run now result r)
succeeded_run-Succeeded now result r = record {
  same_job = refl;
  now_is = refl;
  completed = refl;
  lease = refl;
  stored = refl;
  no_error = (refl, refl, refl);
  new_dataset = λ v e. rw e (refl, refl);
  old_dataset = λ e. rw e (refl, refl);
}

-- The result of a running job is recorded.
pub succeed_running :
    (now job_id : ℕ) (worker : String) (result : JobResult) (r : JobRun) (db : Db)
    → In r db.job_runs
    → running_job job_id r ≡ true
    → is_refused result ≡ false
    → (db' : Db) × (succeed now job_id worker result db ≡ ok (db', true))
      × ((s : JobRun) × In s db'.job_runs × Succeeded now result r s)
unfolding succeed record_result
succeed_running now job_id worker result r db m h allowed =
    let alive = any-In-true (running_job job_id) r db.job_runs m h in
    (
      (record_result now job_id worker result db).0,
      rw (alive, allowed) refl,
      (
        succeeded_run now result r,
        rw alive (In-update (running_job job_id) (succeeded_run now result) r db.job_runs m h),
        succeeded_run-Succeeded now result r,
      ),
    )

pub succeed_lost :
    (now job_id : ℕ) (worker : String) (result : JobResult) (db : Db)
    → IsLost job_id db
    → succeed now job_id worker result db ≡ ok (db, false)
unfolding succeed record_result
succeed_lost now job_id worker result db lost =
    rw (any-false (running_job job_id) db.job_runs lost) refl

-- `succeed` stores the result in the row of a running job, which it completes as succeeded, without
-- lease and without error, and with the dataset that the result names; a result that names an
-- unknown dataset is refused, and rolled back; once the job is lost, nothing changes.
pub succeed_outcome :
    (now job_id : ℕ) (worker : String) (result : JobResult) (db : Db)
    → ((r : JobRun)
        → In r db.job_runs
        → running_job job_id r ≡ true
        → (is_refused result ≡ true → succeed now job_id worker result db ≡ err unknown_dataset)
          × (is_refused result ≡ false
              → (db' : Db) × (succeed now job_id worker result db ≡ ok (db', true))
                × ((s : JobRun) × In s db'.job_runs × Succeeded now result r s)))
      × (IsLost job_id db → succeed now job_id worker result db ≡ ok (db, false))
unfolding succeed
succeed_outcome now job_id worker result db = (
  λ r m h. (
    λ refused. rw (any-In-true (running_job job_id) r db.job_runs m h, refused) refl,
    succeed_running now job_id worker result r db m h,
  ),
  succeed_lost now job_id worker result db,
)

-- The row of a job after a failure with some status: queued again with one more attempt, or ended.
pub record FailedRow (now : ℕ) (error_class reason : String) (status : JobStatus) (r s : JobRun)
    : Type 0 where
  pub same_job : s.job_run_id ≡ r.job_run_id
  pub now_is : s.status ≡ status
  pub lease : s.lease_expires_at ≡ none
  pub error : s.error_class ≡ some (truncate 200 error_class)
  pub why : s.failure_reason ≡ some (truncate 2000 reason)
  pub again : status ≡ JobStatus.queued → (s.attempt ≡ r.attempt + 1) × (s.completed_at ≡ none)
  pub ended : status ≢ JobStatus.queued → (s.attempt ≡ r.attempt) × (s.completed_at ≡ some now)

failed_run-FailedRow :
    (now : ℕ) (will_retry retryable : Bool) (error_class reason : String) (r : JobRun)
    → FailedRow now error_class reason
        (status_after will_retry retryable)
        r
        (failed_run now will_retry retryable error_class reason r)
unfolding status_after
failed_run-FailedRow now true retryable error_class reason r = record {
  same_job = refl;
  now_is = refl;
  lease = refl;
  error = refl;
  why = refl;
  again = λ e. (refl, refl);
  ended = λ h. absurd (h refl);
}
failed_run-FailedRow now false retryable error_class reason r = record {
  same_job = refl;
  now_is = refl;
  lease = refl;
  error = refl;
  why = refl;
  again = λ e. absurd (not_queued retryable e);
  ended = λ h. (omega arith, refl);
}
  where
    not_queued :
        (b : Bool)
        → (if b then JobStatus.dead_lettered else JobStatus.failed) ≡ JobStatus.queued
        → ⊥
    not_queued true e = cc
    not_queued false e = cc

-- The status, the attempt count and the profile cache after a recorded failure.
pub record Failed (job_id : ℕ) (retryable : Bool) (r : JobRun) (db db' : Db) (status : JobStatus)
    : Type 0 where
  pub retried :
      retryable ≡ true
      → r.attempt < r.max_attempts
      → (status ≡ JobStatus.queued) × (db'.profiles ≡ db.profiles)
  pub exhausted :
      retryable ≡ true
      → r.max_attempts ≤ r.attempt
      → (status ≡ JobStatus.dead_lettered) × All (λ p. awaits_job job_id p ≡ false) db'.profiles
  pub final :
      retryable ≡ false
      → (status ≡ JobStatus.failed) × All (λ p. awaits_job job_id p ≡ false) db'.profiles

no_longer_awaits :
    (now job_id : ℕ) (ps : List ProfileRow)
    → All (λ p. awaits_job job_id p ≡ false) (update (awaits_job job_id) (failed_profile now) ps)
no_longer_awaits now job_id [] = tt
no_longer_awaits now job_id (p ∷ ps) = elim (Bool-cases (awaits_job job_id p)) [
  | inl hit ↦ rw hit (ground arith, no_longer_awaits now job_id ps)
  | inr miss ↦ rw miss (miss, no_longer_awaits now job_id ps)
]

fail_run-Failed :
    (now : ℕ) (worker error_class reason : String) (retryable : Bool) (r : JobRun) (db : Db)
    → let (db', status) = fail_run now worker error_class reason retryable r db in
      Failed r.job_run_id retryable r db db' status
unfolding fail_run
fail_run-Failed now worker error_class reason true r db = record {
  retried = λ _ more. ground arith;
  exhausted = λ _ over.
      let last : ltb r.attempt r.max_attempts ≡ false = ground arith in
      rw last (refl, no_longer_awaits now r.job_run_id db.profiles);
  final = λ h. cc;
}
fail_run-Failed now worker error_class reason false r db = record {
  retried = λ h. cc;
  exhausted = λ h. cc;
  final = λ _. (refl, no_longer_awaits now r.job_run_id db.profiles);
}

pub fail_run-In :
    (now : ℕ) (worker error_class reason : String) (retryable : Bool) (r : JobRun) (db : Db)
    → In r db.job_runs
    → In
        (failed_run now (retryable && ltb r.attempt r.max_attempts) retryable error_class reason r)
        (fail_run now worker error_class reason retryable r db).0.job_runs
unfolding fail_run
fail_run-In now worker error_class reason retryable r db m =
    let will_retry = retryable && ltb r.attempt r.max_attempts in
    subst (In (failed_run now will_retry retryable error_class reason r))
      (sym (released_runs will_retry now r.job_run_id _))
      (In-update (λ s. s.job_run_id == r.job_run_id)
        (failed_run now will_retry retryable error_class reason) r db.job_runs m (ground arith))

fail_run_status :
    (now : ℕ) (worker error_class reason : String) (retryable : Bool) (r : JobRun) (db : Db)
    → (fail_run now worker error_class reason retryable r db).1
      ≡ status_after (retryable && ltb r.attempt r.max_attempts) retryable
unfolding fail_run
fail_run_status now worker error_class reason retryable r db = refl

pub fail_run-FailedRow :
    (now : ℕ) (worker error_class reason : String) (retryable : Bool) (r : JobRun) (db : Db)
    → In r db.job_runs
    → let (db', status) = fail_run now worker error_class reason retryable r db in
      (s : JobRun) × In s db'.job_runs × FailedRow now error_class reason status r s
fail_run-FailedRow now worker error_class reason retryable r db m = (
  failed_run now (retryable && ltb r.attempt r.max_attempts) retryable error_class reason r,
  fail_run-In now worker error_class reason retryable r db m,
  rw (fail_run_status now worker error_class reason retryable r db) (
      failed_run-FailedRow now (retryable && ltb r.attempt r.max_attempts) retryable error_class
        reason r),
)

-- A recorded failure is that of a running job with this id. If it is retryable and attempts are left,
-- its row is queued again with one more attempt and the profile cache stays; otherwise the row ends
-- as dead-lettered or failed with its attempts kept, and no profile waits for the job any more. The
-- row has no lease, and holds the error.
pub fail_outcome :
    (now job_id : ℕ) (worker error_class reason : String) (retryable : Bool) (db db' : Db)
    (status : JobStatus)
    → fail now job_id worker error_class reason retryable db ≡ ok (db', status)
    → (r : JobRun) × In r db.job_runs
      × (running_job job_id r ≡ true)
      × Failed r.job_run_id retryable r db db' status
      × ((s : JobRun) × In s db'.job_runs × FailedRow now error_class reason status r s)
fail_outcome now job_id worker error_class reason retryable db db' status e =
    let (r, found, running, result) =
      fail-eq-ok now job_id worker error_class reason retryable db (db', status) e in
    let m = first-In (λ (s : JobRun). s.job_run_id == job_id) r db.job_runs found in
    let hit = first-hit (λ (s : JobRun). s.job_run_id == job_id) db.job_runs found in
    (
      r,
      m,
      and_intro (r.job_run_id == job_id) (is_running r.status) hit running,
      subst (λ (o : Db × JobStatus). Failed r.job_run_id retryable r db o.0 o.1) result
          (fail_run-Failed now worker error_class reason retryable r db),
      subst
          (λ (o : Db × JobStatus).
            (s : JobRun) × In s o.0.job_runs × FailedRow now error_class reason o.1 r s)
          result (fail_run-FailedRow now worker error_class reason retryable r db m),
    )

-- A failure of a job that is not running any more is refused, and rolled back.
pub fail_lost :
    (now job_id : ℕ) (worker error_class reason : String) (retryable : Bool) (db : Db)
    → IsLost job_id db
    → fail now job_id worker error_class reason retryable db ≡ err job_not_running
unfolding fail
fail_lost now job_id worker error_class reason retryable db lost =
    elim (Option-cases (first (λ (r : JobRun). r.job_run_id == job_id) db.job_runs)) [
      | inl missing ↦ rw missing
      | inr (row, found) ↦
          let off =
            In-All (λ r. running_job job_id r ≡ false) row db.job_runs
              (first-In (λ (r : JobRun). r.job_run_id == job_id) row db.job_runs found) lost in
          let hit = first-hit (λ (r : JobRun). r.job_run_id == job_id) db.job_runs found in
          let idle : is_running row.status ≡ false = rw hit at off in rw found (rw idle)
    ]

-- A failure of the job that is running is recorded.
pub fail_running :
    (now job_id : ℕ) (worker error_class reason : String) (retryable : Bool) (r : JobRun) (db : Db)
    → Distinct same_id db.job_runs
    → In r db.job_runs
    → running_job job_id r ≡ true
    → fail now job_id worker error_class reason retryable db
      ≡ ok (fail_run now worker error_class reason retryable r db)
unfolding fail
fail_running now job_id worker error_class reason retryable r db d m h =
    elim (Option-cases (first (λ (s : JobRun). s.job_run_id == job_id) db.job_runs)) [
      | inl missing ↦ absurd (
          missed (
            In-All _ r db.job_runs m
              (first-none (λ (s : JobRun). s.job_run_id == job_id) db.job_runs missing)))
      | inr (row, found) ↦
          let hit = first-hit (λ (s : JobRun). s.job_run_id == job_id) db.job_runs found in
          let here : same_id row r ≡ true = ground arith in
          let one : row ≡ r =
            In-All (λ s. same_id s r ≡ true → s ≡ r) row db.job_runs
              (first-In (λ (s : JobRun). s.job_run_id == job_id) row db.job_runs found)
              (only_row r db.job_runs d m) here in
          let found' : first (λ (s : JobRun). s.job_run_id == job_id) db.job_runs ≡ some r = cc in
          let busy : is_running r.status ≡ true = ground arith in rw found' (rw busy)
    ]
  where
    missed : (r.job_run_id == job_id) ≡ false → ⊥
    missed off = cc (off, (and_parts (r.job_run_id == job_id) (is_running r.status) h).0)
