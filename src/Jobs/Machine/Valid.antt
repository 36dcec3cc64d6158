-- ===== src/Jobs/Machine/Valid.antt =====
-- CHECK constraints of `job_runs` (alembic/versions/0001, 0005 and 0007), and what the columns of a
-- row say of its status, kept by every step.
use Prim.Native.String.{String, count}
use Prim.Native.Nat.{ℕ, ◌≤◌}
use mathlib.Core.Path.{◌≡◌}
use mathlib.Core.Bool.{true, false}
use mathlib.Core.Option.{Option, none, some}
use mathlib.Core.List.{List}
use native.Mathlib.Omega.{arith}
use foundation_intelligence.Common.{All, is_some, is_spaces}
use foundation_intelligence.Jobs.Schema.{JobRun, JobStatus}
use foundation_intelligence.Jobs.Finish.{status_after}
use foundation_intelligence.Jobs.Machine.{
  RunStep, claims, renews, succeeds, retries, gives_up, expires, retires, Rows, done, keep, move,
}

-- A start lies between the request and now.
abbrev pub StartWithin : ℕ → ℕ → Option ℕ → Type 0
StartWithin requested now none = Unit
StartWithin requested now (some t) = (requested ≤ t) × (t ≤ now)

-- `completed_at IS NULL OR started_at IS NOT NULL AND completed_at >= started_at`
abbrev pub EndWithin : ℕ → Option ℕ → Option ℕ → Type 0
EndWithin now started none = Unit
EndWithin now none (some c) = ⊥
EndWithin now (some t) (some c) = (t ≤ c) × (c ≤ now)

-- `lease_expires_at IS NULL OR heartbeat_at IS NOT NULL`
abbrev pub LeaseHasBeat : Option ℕ → Option ℕ → Type 0
LeaseHasBeat beat none = Unit
LeaseHasBeat none (some l) = ⊥
LeaseHasBeat (some b) (some l) = Unit

-- What the status says of the start, the end and the lease.
abbrev pub Coherent : JobStatus → Option ℕ → Option ℕ → Option ℕ → Type 0
Coherent JobStatus.created started completed lease = (completed ≡ none) × (lease ≡ none)
Coherent JobStatus.queued started completed lease = (completed ≡ none) × (lease ≡ none)
Coherent JobStatus.running started completed lease =
    (is_some started ≡ true) × (completed ≡ none) × (is_some lease ≡ true)
Coherent _ started completed lease = (is_some completed ≡ true) × (lease ≡ none)

-- `active_dedupe_key IS NULL OR btrim(active_dedupe_key) <> '' AND length(active_dedupe_key) <= 200`
abbrev pub KeyFits : Option String → Type 0
KeyFits none = Unit
KeyFits (some k) = (is_spaces k ≡ false) × (count k ≤ 200)

-- `ck_job_runs_type`, `ck_job_runs_queue`, `ck_job_runs_active_dedupe_key`, the bounds of the attempts
-- and of the timeout, the order of the times, and what the status says of them.
pub record RunIsValid (now : ℕ) (r : JobRun) : Type 0 where
  pub typed : is_spaces r.job_type ≡ false
  pub queued_in : is_spaces r.queue_name ≡ false
  pub keyed : KeyFits r.active_dedupe_key
  pub attempt_first : 1 ≤ r.attempt
  pub attempt_last : r.attempt ≤ r.max_attempts
  pub timeout_first : 1 ≤ r.timeout_seconds
  pub timeout_last : r.timeout_seconds ≤ 86400
  pub requested : r.requested_at ≤ now
  pub started : StartWithin r.requested_at now r.started_at
  pub completed : EndWithin now r.started_at r.completed_at
  pub leased : LeaseHasBeat r.heartbeat_at r.lease_expires_at
  pub coherent : Coherent r.status r.started_at r.completed_at r.lease_expires_at

pub RunIsValid-later :
    (now later : ℕ) (r : JobRun) → now ≤ later → RunIsValid now r → RunIsValid later r
RunIsValid-later now later r h v = ground arith

-- A step at `now` on a row that was valid keeps it valid.
pub RunStep-RunIsValid :
    {now : ℕ} {r s : JobRun} → RunStep now r s → RunIsValid now r → RunIsValid now s
unfolding status_after
RunStep-RunIsValid (claims lease h) v = ground arith
RunStep-RunIsValid (renews lease h) v = ground arith
RunStep-RunIsValid (succeeds result h) v = ground arith
RunStep-RunIsValid (retries error_class reason retryable h more) v = ground arith
RunStep-RunIsValid (gives_up error_class reason retryable h) v = ground arith
RunStep-RunIsValid (expires h) v = ground arith
RunStep-RunIsValid (retires h) v = ground arith

pub Rows-RunIsValid :
    {now : ℕ} {rs ss : List JobRun}
    → Rows now rs ss
    → All (RunIsValid now) rs
    → All (RunIsValid now) ss
Rows-RunIsValid done h = tt
Rows-RunIsValid (keep r rows) h = (h.0, Rows-RunIsValid rows h.1)
Rows-RunIsValid (move st rows) h = (RunStep-RunIsValid st h.0, Rows-RunIsValid rows h.1)
