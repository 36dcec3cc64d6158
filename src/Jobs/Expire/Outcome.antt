-- ===== src/Jobs/Expire/Outcome.antt =====
-- The tables after `fail_expired` of src/bff/postgres/job_repository.py.
use Prim.Native.Nat.{ℕ}
use Prim.Native.String.{String}
use mathlib.Core.Path.{◌≡◌, refl, sym, ap, ◌∙◌, subst}
use mathlib.Core.Logic.{inl, inr}
use mathlib.Core.Bool.{Bool, true, false}
use mathlib.Core.Option.{some, none}
use mathlib.Core.List.{List, [], ◌∷◌, map}
use native.Mathlib.Omega.{arith}
use foundation_intelligence.Common.{
  select_none, tabulate, In, In-update, All, any, update, select, length, length-map, Bool-cases,
}
use foundation_intelligence.Jobs.Schema.{Db, JobRun, JobStatus, ProfileRow}
use foundation_intelligence.Jobs.Expire.{
  has_expired, expired_run, fail_expired, expired_ids, holds_any, stopped_worker,
}
use foundation_intelligence.Jobs.Finish.{awaits_job, failed_profile}
use foundation_intelligence.Jobs.Refines.Bulk.{expiry_events-SameJobs}

-- An UPDATE after which its WHERE clause selects nothing.
update_clears {ℓ} :
    {A : Type ℓ} (p : A → Bool) (f : A → A) (xs : List A)
    → ((x : A) → p (f x) ≡ false)
    → All (λ x. p x ≡ false) (update p f xs)
update_clears p f [] clear = tt
update_clears p f (x ∷ xs) clear = elim (Bool-cases (p x)) [
  | inl hit ↦ rw hit (clear x, update_clears p f xs clear)
  | inr miss ↦ rw miss (miss, update_clears p f xs clear)
]

any-pending_off :
    (now : ℕ) (p : ProfileRow) (ids : List ℕ)
    → any (λ i. awaits_job i (failed_profile now p)) ids ≡ false
any-pending_off now p [] = refl
any-pending_off now p (i ∷ ids) = ground (arith, any-pending_off now p ids)

-- What the reaper establishes for a queue at a time.
pub record IsReaped (now : ℕ) (queue : String) (ids : List ℕ) (db : Db) : Type 0 where
  pub leases : All (λ r. has_expired now queue r ≡ false) db.job_runs
  pub profiles : All (λ p. any (λ i. awaits_job i p) ids ≡ false) db.profiles
  pub workers : All (λ w. holds_any ids w ≡ false) db.workers

has_expired-expired_run :
    (now later : ℕ) (queue : String) (r : JobRun)
    → has_expired later queue (expired_run now r) ≡ false
has_expired-expired_run now later queue r = ground arith

-- The row of a job that the reaper failed.
pub record LeaseExpired (now : ℕ) (r s : JobRun) : Type 0 where
  pub same_job : s.job_run_id ≡ r.job_run_id
  pub failed : s.status ≡ JobStatus.failed
  pub completed : s.completed_at ≡ some now
  pub lease : s.lease_expires_at ≡ none
  pub attempts : s.attempt ≡ r.attempt
  pub why : s.failure_reason ≡ some "worker_lease_expired"

-- The reaper completes every job of the queue with an overdue lease as failed, with its attempts
-- kept; it leaves no overdue lease there, no profile that waits for a job it failed and no worker that
-- holds one; it reports how many jobs it failed, and a second run finds none.
pub fail_expired-IsReaped :
    (now : ℕ) (queue : String) (db : Db)
    → let (db', n) = fail_expired now queue db in
      IsReaped now queue (expired_ids now queue db) db'
      × All
          (λ r.
            has_expired now queue r ≡ true
            → (s : JobRun) × In s db'.job_runs × LeaseExpired now r s)
          db.job_runs
      × (n ≡ length (select (has_expired now queue) db.job_runs))
      × ((fail_expired now queue db').1 ≡ 0)
unfolding fail_expired
fail_expired-IsReaped now queue db =
    let ids = expired_ids now queue db in
    let same =
      (expiry_events-SameJobs now ids (record db {
        job_runs = update (has_expired now queue) (expired_run now) db.job_runs;
      })).runs in
    let clear : All (λ r. has_expired now queue r ≡ false)
        (update (has_expired now queue) (expired_run now) db.job_runs) =
      update_clears (has_expired now queue) (expired_run now) db.job_runs
        (has_expired-expired_run now now queue) in
    (
      record {
        leases = subst (All (λ r. has_expired now queue r ≡ false)) (sym same) clear;
        profiles =
            update_clears (λ p. any (λ i. awaits_job i p) ids) (failed_profile now) _
              (λ p. any-pending_off now p ids);
        workers = update_clears (holds_any ids) (stopped_worker now) _ (λ w. refl);
      },
      tabulate db.job_runs (λ r m overdue. (
        expired_run now r,
        subst (In (expired_run now r)) (sym same)
            (In-update (has_expired now queue) (expired_run now) r db.job_runs m overdue),
        record {
          same_job = refl;
          failed = refl;
          completed = refl;
          lease = refl;
          attempts = refl;
          why = refl;
        },
      )),
      length-map (λ (r : JobRun). r.job_run_id) (select (has_expired now queue) db.job_runs),
      ap (λ rs. length (map (λ (r : JobRun). r.job_run_id) (select (has_expired now queue) rs)))
            same
          ∙ rw (select_none (has_expired now queue) _ clear),
    )
