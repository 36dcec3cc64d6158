-- ===== src/Jobs/Refines.antt =====
-- Each operation of src/bff/postgres/job_repository.py and `retire_jobs` of
-- src/pipelines/job_admin.py, read as steps of the state machine in Jobs/Machine.
pub mod Bulk
use Prim.Native.Nat.{ℕ, ◌<◌}
use Prim.Native.String.{String}
use mathlib.Core.Path.{◌≡◌, refl, sym, ap, ◌∙◌, subst}
use mathlib.Core.Logic.{◌⊎◌, inl, inr}
use mathlib.Core.Bool.{Bool, true, false, ◌&&◌, ◌||◌, not}
use mathlib.Core.Option.{Option, none, some}
use mathlib.Core.List.{List, [], ◌∷◌, ◌++◌, map}
use native.Mathlib.Omega.{arith}
use text.Mathlib.Text.{◌==◌ as str_eq}
use foundation_intelligence.Common.{
  Result, ok, err, ◌==◌, ltb, if◌then◌else◌, Bool-cases, Option-cases, All, All-mono, In, In-select,
  In-All, first-In, first-hit, least-In, Distinct, Distinct-same, update, select, any, and_parts,
  first, length, some_eq,
}
use foundation_intelligence.Jobs.Schema.{Db, JobRun, JobStatus, is_queued, is_running, is_active}
use foundation_intelligence.Jobs.Events.{record_event, idle_worker}
use foundation_intelligence.Jobs.Claim.{
  candidate, requested_earlier, claimable, claimed_run, claim_checked, claim_run, claim_idle,
  running_job, renewed_run, heartbeat,
}
use foundation_intelligence.Jobs.Finish.{
  JobResult, record_result, succeeded_run, fail, fail_run, failed_run, fail_profiles,
}
use foundation_intelligence.Jobs.Expire.{
  has_expired, expired_run, expiry_events, release_expired, fail_expired, expired_ids,
}
use foundation_intelligence.Jobs.Retire.{
  retired_ids, is_retired, retired_run, retirement_events, retire_jobs,
}
use foundation_intelligence.Jobs.Machine.{
  RunStep, claims, renews, succeeds, retries, gives_up, expires, retires, Rows, Rows-refl,
  Rows-update,
}
use foundation_intelligence.Jobs.Machine.Keys.{same_id}

same_id_comm : (r s : JobRun) → same_id r s ≡ same_id s r
same_id_comm r s = ground arith

-- The row that an UPDATE by key changes is the one that a SELECT found.
pub only_row :
    (r : JobRun) (rs : List JobRun)
    → Distinct same_id rs
    → In r rs
    → All (λ s. same_id s r ≡ true → s ≡ r) rs
only_row r rs d m = Distinct-same same_id same_id_comm r rs d m

pub candidate-claimable :
    (queue : String) (locked : ℕ → Bool) (rs : List JobRun) (r : JobRun)
    → candidate queue locked rs ≡ some r
    → In r rs × (claimable queue locked r ≡ true)
unfolding candidate
candidate-claimable queue locked rs r e =
    In-select (claimable queue locked) r rs
      (least-In requested_earlier r (select (claimable queue locked) rs) e)

claim_run-Rows :
    (now : ℕ) (worker queue : String) (lease : ℕ) (r : JobRun) (db : Db)
    → Distinct same_id db.job_runs
    → In r db.job_runs
    → is_queued r.status ≡ true
    → Rows now db.job_runs (claim_run now worker queue lease r db).0.job_runs
unfolding claim_run
claim_run-Rows now worker queue lease r db d m queued = Rows-update now _ _ db.job_runs (
    All-mono _ _ db.job_runs
      (λ s same hit. claims lease (ap (λ (x : JobRun). is_queued x.status) (same hit) ∙ queued))
      (only_row r db.job_runs d m))

pub claim_checked-Rows :
    (now : ℕ) (locked : ℕ → Bool) (worker queue : String) (lease : ℕ) (db : Db)
    → Distinct same_id db.job_runs
    → Rows now db.job_runs (claim_checked now locked worker queue lease db).0.job_runs
unfolding claim_checked claim_idle
claim_checked-Rows now locked worker queue lease db d =
    elim (Option-cases (candidate queue locked db.job_runs)) [
      | inl idle ↦ rw (idle, claim_checked) (Rows-refl now db.job_runs)
      | inr (r, e) ↦
          let (m, c) = candidate-claimable queue locked db.job_runs r e in
          rw (e, claim_checked) (claim_run-Rows now worker queue lease r db d m (ground arith))
    ]

running_only : (job_id : ℕ) (r : JobRun) → running_job job_id r ≡ true → is_running r.status ≡ true
running_only job_id r h = ground arith

pub all {ℓ} : {P : JobRun → Type ℓ} (rs : List JobRun) → ((r : JobRun) → P r) → All P rs
all [] f = tt
all (r ∷ rs) f = (f r, all rs f)

pub heartbeat-Rows :
    (now job_id : ℕ) (worker : String) (lease : ℕ) (db : Db)
    → Rows now db.job_runs (heartbeat now job_id worker lease db).0.job_runs
unfolding heartbeat
heartbeat-Rows now job_id worker lease db =
    elim (Bool-cases (any (running_job job_id) db.job_runs)) [
      | inl alive ↦ rw alive (
          Rows-update now _ _ db.job_runs
            (all db.job_runs (λ r h. renews lease (running_only job_id r h))))
      | inr lost ↦ rw lost (Rows-refl now db.job_runs)
    ]

pub record_result-Rows :
    (now job_id : ℕ) (worker : String) (result : JobResult) (db : Db)
    → Rows now db.job_runs (record_result now job_id worker result db).0.job_runs
unfolding record_result
record_result-Rows now job_id worker result db =
    elim (Bool-cases (any (running_job job_id) db.job_runs)) [
      | inl alive ↦ rw alive (
          Rows-update now _ _ db.job_runs
            (all db.job_runs (λ r h. succeeds result (running_only job_id r h))))
      | inr lost ↦ rw lost (Rows-refl now db.job_runs)
    ]

failed_step :
    (now : ℕ) (error_class reason : String) (retryable : Bool) (r : JobRun)
    → is_running r.status ≡ true
    → let will_retry = retryable && ltb r.attempt r.max_attempts in
      RunStep now r (failed_run now will_retry retryable error_class reason r)
failed_step now error_class reason retryable r running =
    elim (Bool-cases (retryable && ltb r.attempt r.max_attempts)) [
      | inl more ↦ rw more (retries error_class reason retryable running (ground arith))
      | inr last ↦ rw last (gives_up error_class reason retryable running)
    ]

pub released_runs :
    (w : Bool) (now job_id : ℕ) (db : Db)
    → (if w then db else fail_profiles now job_id db).job_runs ≡ db.job_runs
unfolding fail_profiles
released_runs true now job_id db = refl
released_runs false now job_id db = refl

fail_run-Rows :
    (now : ℕ) (worker error_class reason : String) (retryable : Bool) (r : JobRun) (db : Db)
    → Distinct same_id db.job_runs
    → In r db.job_runs
    → is_running r.status ≡ true
    → Rows now db.job_runs (fail_run now worker error_class reason retryable r db).0.job_runs
unfolding fail_run
fail_run-Rows now worker error_class reason retryable r db d m running = rw released_runs (
    Rows-update now _ _ db.job_runs (
      All-mono _ _ db.job_runs
        (λ s same hit.
          subst
            (λ x. RunStep now x (
              failed_run now (retryable && ltb r.attempt r.max_attempts) retryable error_class
                reason x))
            (sym (same hit)) (failed_step now error_class reason retryable r running))
        (only_row r db.job_runs d m)))

-- A failure that is recorded found its job running.
pub fail-eq-ok :
    (now job_id : ℕ) (worker error_class reason : String) (retryable : Bool) (db : Db)
    (out : Db × JobStatus)
    → fail now job_id worker error_class reason retryable db ≡ ok out
    → (row : JobRun) × (first (λ (r : JobRun). r.job_run_id == job_id) db.job_runs ≡ some row)
      × (is_running row.status ≡ true)
      × (fail_run now worker error_class reason retryable row db ≡ out)
unfolding fail
fail-eq-ok now job_id worker error_class reason retryable db out e =
    elim (Option-cases (first (λ (r : JobRun). r.job_run_id == job_id) db.job_runs)) [
      | inl missing ↦ absurd (ground arith)
      | inr (row, found) ↦ (row, found, ground arith, ground arith)
    ]

pub fail-Rows :
    (now job_id : ℕ) (worker error_class reason : String) (retryable : Bool) (db : Db)
    (out : Db × JobStatus)
    → Distinct same_id db.job_runs
    → fail now job_id worker error_class reason retryable db ≡ ok out
    → Rows now db.job_runs out.0.job_runs
fail-Rows now job_id worker error_class reason retryable db out d e =
    let (row, found, running, result) =
      fail-eq-ok now job_id worker error_class reason retryable db out e in
    subst (λ (o : Db × JobStatus). Rows now db.job_runs o.0.job_runs) result
      (fail_run-Rows now worker error_class reason retryable row db d
        (first-In _ row db.job_runs found) running)
