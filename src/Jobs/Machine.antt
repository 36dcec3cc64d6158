-- ===== src/Jobs/Machine.antt =====
-- The job state machine: how one row of `job_runs` may change, and how a statement changes the
-- table. Every operation refines it (Jobs/Refines).
pub mod Valid
pub mod Keys
use Prim.Native.Nat.{ℕ, ◌<◌}
use Prim.Native.String.{String}
use mathlib.Core.Path.{◌≡◌, refl}
use mathlib.Core.Logic.{◌⊎◌, inl, inr}
use mathlib.Core.Bool.{Bool, true, false, ◌&&◌}
use mathlib.Core.List.{List, [], ◌∷◌, ◌++◌, map}
use native.Mathlib.Omega.{arith}
use foundation_intelligence.Common.{if◌then◌else◌, Bool-cases, All, update}
use foundation_intelligence.Jobs.Schema.{JobRun, is_queued, is_running, is_active}
use foundation_intelligence.Jobs.Claim.{claimed_run, renewed_run}
use foundation_intelligence.Jobs.Finish.{JobResult, succeeded_run, failed_run}
use foundation_intelligence.Jobs.Expire.{expired_run}
use foundation_intelligence.Jobs.Retire.{retired_run}

-- One row at time `now`. An attempt is repeated only while there are attempts left.
pub data RunStep (now : ℕ) (r : JobRun) : JobRun → Type 0 where
  claims : (lease : ℕ) → is_queued r.status ≡ true → RunStep now r (claimed_run now lease r)
  renews : (lease : ℕ) → is_running r.status ≡ true → RunStep now r (renewed_run now lease r)
  succeeds :
      (result : JobResult) → is_running r.status ≡ true → RunStep now r (succeeded_run now result r)
  retries :
      (error_class reason : String) (retryable : Bool)
      → is_running r.status ≡ true
      → r.attempt < r.max_attempts
      → RunStep now r (failed_run now true retryable error_class reason r)
  gives_up :
      (error_class reason : String) (retryable : Bool)
      → is_running r.status ≡ true
      → RunStep now r (failed_run now false retryable error_class reason r)
  expires : is_running r.status ≡ true → RunStep now r (expired_run now r)
  retires : is_active r.status ≡ true → RunStep now r (retired_run now r)

-- The rows of a table, each as it was or one step on.
pub data Rows (now : ℕ) : List JobRun → List JobRun → Type 0 where
  done : Rows now [] []
  keep : (r : JobRun) {rs ss : List JobRun} → Rows now rs ss → Rows now (r ∷ rs) (r ∷ ss)
  move :
      {r s : JobRun} {rs ss : List JobRun}
      → RunStep now r s
      → Rows now rs ss
      → Rows now (r ∷ rs) (s ∷ ss)

pub Rows-refl : (now : ℕ) (rs : List JobRun) → Rows now rs rs
Rows-refl now [] = done
Rows-refl now (r ∷ rs) = keep r (Rows-refl now rs)

-- An UPDATE whose SET clause is a step on the rows that it selects.
pub Rows-update :
    (now : ℕ) (p : JobRun → Bool) (f : JobRun → JobRun) (rs : List JobRun)
    → All (λ r. p r ≡ true → RunStep now r (f r)) rs
    → Rows now rs (update p f rs)
Rows-update now p f [] h = done
Rows-update now p f (r ∷ rs) h = elim (Bool-cases (p r)) [
  | inl hit ↦ rw hit (move (h.0 hit) (Rows-update now p f rs h.1))
  | inr miss ↦ rw miss (keep r (Rows-update now p f rs h.1))
]
