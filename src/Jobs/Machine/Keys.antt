-- ===== src/Jobs/Machine/Keys.antt =====
-- No step changes the columns that identify a job, or makes a finished job active: so the unique
-- keys of `job_runs` stay unique.
use Prim.Native.Nat.{ℕ}
use Prim.Native.String.{String}
use mathlib.Core.Path.{◌≡◌, refl}
use mathlib.Core.Bool.{Bool, true, false, ◌&&◌}
use mathlib.Core.Option.{Option, none, some}
use mathlib.Core.List.{List, map}
use native.Mathlib.Omega.{arith}
use text.Mathlib.Text.{◌==◌ as str_eq}
use foundation_intelligence.Common.{All, Distinct, ◌==◌}
use foundation_intelligence.Jobs.Schema.{JobRun, is_active}
use foundation_intelligence.Jobs.Machine.{
  RunStep, claims, renews, succeeds, retries, gives_up, expires, retires, Rows, done, keep, move,
}

pub record SameJob (r s : JobRun) : Type 0 where
  pub id : s.job_run_id ≡ r.job_run_id
  pub type : s.job_type ≡ r.job_type
  pub key : s.idempotency_key ≡ r.idempotency_key
  pub dedupe : s.active_dedupe_key ≡ r.active_dedupe_key
  pub queue : s.queue_name ≡ r.queue_name
  pub input : s.input ≡ r.input
  pub requested : s.requested_at ≡ r.requested_at
  pub budget : s.max_attempts ≡ r.max_attempts

pub SameJob-refl : (r : JobRun) → SameJob r r
SameJob-refl r = ground arith

-- A step keeps the job's identity; only an active job steps.
pub RunStep-SameJob : {now : ℕ} {r s : JobRun} → RunStep now r s → SameJob r s
RunStep-SameJob (claims lease h) = ground arith
RunStep-SameJob (renews lease h) = ground arith
RunStep-SameJob (succeeds result h) = ground arith
RunStep-SameJob (retries error_class reason retryable h more) = ground arith
RunStep-SameJob (gives_up error_class reason retryable h) = ground arith
RunStep-SameJob (expires h) = ground arith
RunStep-SameJob (retires h) = ground arith

pub RunStep-active : {now : ℕ} {r s : JobRun} → RunStep now r s → is_active r.status ≡ true
RunStep-active (claims lease h) = ground arith
RunStep-active (renews lease h) = ground arith
RunStep-active (succeeds result h) = ground arith
RunStep-active (retries error_class reason retryable h more) = ground arith
RunStep-active (gives_up error_class reason retryable h) = ground arith
RunStep-active (expires h) = ground arith
RunStep-active (retires h) = h

-- The three unique keys, as tests on two rows.
abbrev pub same_id : JobRun → JobRun → Bool
same_id r s = r.job_run_id == s.job_run_id

abbrev pub same_request : JobRun → JobRun → Bool
same_request r s = str_eq r.job_type s.job_type && str_eq r.idempotency_key s.idempotency_key

abbrev pub same_dedupe : Option String → Option String → Bool
same_dedupe none k = false
same_dedupe (some j) none = false
same_dedupe (some j) (some k) = str_eq j k

abbrev pub both_active : JobRun → JobRun → Bool
both_active r s =
    same_dedupe r.active_dedupe_key s.active_dedupe_key && is_active r.status && is_active s.status

-- A row that follows another: the same job, active only if the other was.
pub record Follows (r s : JobRun) : Type 0 where
  pub same : SameJob r s
  pub was_active : is_active s.status ≡ true → is_active r.status ≡ true

pub RunStep-Follows : {now : ℕ} {r s : JobRun} → RunStep now r s → Follows r s
RunStep-Follows st = record { same = RunStep-SameJob st; was_active = λ _. RunStep-active st }

pub Follows-refl : (r : JobRun) → Follows r r
Follows-refl r = record { same = SameJob-refl r; was_active = λ h. h }

-- The test is kept from coming true by following rows.
abbrev Kept : (JobRun → JobRun → Bool) → Type 0
Kept test =
    (r r' s s' : JobRun) → Follows r r' → Follows s s' → test r s ≡ false → test r' s' ≡ false

pub same_id-Kept : Kept same_id
same_id-Kept r r' s s' f g h = cc (f.same.id, g.same.id, h)

pub same_request-Kept : Kept same_request
same_request-Kept r r' s s' f g h = rw (f.same.type, f.same.key, g.same.type, g.same.key) h

pub both_active-Kept : Kept both_active
both_active-Kept r r' s s' f g h =
    rw (f.same.dedupe, g.same.dedupe) (ground (arith, f.was_active, g.was_active))

module _ (test : JobRun → JobRun → Bool) (kept : Kept test) where
  All-kept :
      {now : ℕ} (r r' : JobRun) {rs ss : List JobRun}
      → Follows r r'
      → Rows now rs ss
      → All (λ s. test r s ≡ false) rs
      → All (λ s. test r' s ≡ false) ss
  All-kept r r' f done h = tt
  All-kept r r' f (keep s rows) h = (kept r r' s s f (Follows-refl s) h.0, All-kept r r' f rows h.1)
  All-kept r r' f (move {r = s} {s = s'} st rows) h =
      (kept r r' s s' f (RunStep-Follows st) h.0, All-kept r r' f rows h.1)

  pub Rows-Distinct :
      {now : ℕ} {rs ss : List JobRun} → Rows now rs ss → Distinct test rs → Distinct test ss
  Rows-Distinct done d = tt
  Rows-Distinct (keep r rows) d = (All-kept r r (Follows-refl r) rows d.0, Rows-Distinct rows d.1)
  Rows-Distinct (move {r = r} {s = s} st rows) d =
      (All-kept r s (RunStep-Follows st) rows d.0, Rows-Distinct rows d.1)

pub Rows-ids :
    {now : ℕ} {rs ss : List JobRun}
    → Rows now rs ss
    → map (λ r. r.job_run_id) ss ≡ map (λ r. r.job_run_id) rs
Rows-ids done = refl
Rows-ids (keep r rows) = cc (Rows-ids rows)
Rows-ids (move st rows) = cc (Rows-ids rows, (RunStep-SameJob st).id)
