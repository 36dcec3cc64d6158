-- ===== src/Jobs/Enqueue/Cases.antt =====
-- What an `enqueue` that returned has done, and what its argument checks leave.
use Prim.Native.Nat.{ℕ, ◌≤◌}
use Prim.Native.String.{String}
use mathlib.Core.Path.{◌≡◌}
use mathlib.Core.Logic.{◌⊎◌, inl, inr}
use mathlib.Core.Bool.{true, false}
use mathlib.Core.Option.{Option, none, some}
use mathlib.Core.List.{List}
use native.Mathlib.Omega.{arith}
use foundation_intelligence.Common.{
  ok, ◌>>=◌, >>=-eq-ok, Bool-cases, Option-cases, is_empty, strip, is_blank, strip-not_blank,
  strip-not_spaces, any, first,
}
use foundation_intelligence.Jobs.Schema.{Db, JobRun}
use foundation_intelligence.Jobs.Machine.Valid.{KeyFits}
use foundation_intelligence.Jobs.Enqueue.{
  normalized_dedupe_key, is_long, EnqueueRequest, EnqueueReply, checked_request, active_dataset,
  same_idempotency, conflicts, new_run, reconciled, insert_job, enqueue_checked,
}

-- What the argument checks establish.
pub record IsChecked (r : EnqueueRequest) : Type 0 where
  pub job_type : is_blank r.job_type ≡ false
  pub queue_name : is_blank r.queue_name ≡ false
  pub key : is_empty r.idempotency_key ≡ false
  pub dedupe : KeyFits r.active_dedupe_key
  pub attempts_first : 1 ≤ r.max_attempts
  pub attempts_last : r.max_attempts ≤ 20
  pub timeout_first : 1 ≤ r.timeout_seconds
  pub timeout_last : r.timeout_seconds ≤ 86400

normalized_dedupe_key-KeyFits :
    (key : Option String)
    → is_long (normalized_dedupe_key key) ≡ false
    → KeyFits (normalized_dedupe_key key)
unfolding normalized_dedupe_key
normalized_dedupe_key-KeyFits none h = tt
normalized_dedupe_key-KeyFits (some k) h = elim (Bool-cases (is_empty (strip k))) [
  | inl bare ↦ rw bare tt
  | inr filled ↦ rw filled (strip-not_spaces k filled, ground (arith, rw filled at h))
]

pub checked_request-IsChecked :
    (request r : EnqueueRequest) → checked_request request ≡ ok r → IsChecked r
unfolding checked_request
checked_request-IsChecked request r e =
    let kept = normalized_dedupe_key-KeyFits request.active_dedupe_key in
    ground (arith, kept, strip-not_blank request.job_type, strip-not_blank request.queue_name)

-- A conflict is answered with a job that is there already.
reconciled-noop :
    (r : EnqueueRequest) (later : List JobRun) (reply : EnqueueReply)
    → reconciled r later ≡ ok reply
    → reply.idempotent_noop ≡ true
unfolding reconciled
reconciled-noop r later reply e = ground arith

answered :
    (r : EnqueueRequest) (later : List JobRun) (db : Db) (out : Db × EnqueueReply)
    → (reconciled r later >>= (λ reply. ok (db, reply))) ≡ ok out
    → (out.0 ≡ db) × (out.1.idempotent_noop ≡ true)
answered r later db out e =
    let (reply, found, same) = >>=-eq-ok (reconciled r later) _ e in
    (ground arith, ground (arith, reconciled-noop r later reply found))

pub enqueue_checked-cases :
    (now job_id outbox_id : ℕ) (seen later : List JobRun) (r : EnqueueRequest) (db : Db)
    (out : Db × EnqueueReply)
    → enqueue_checked now job_id outbox_id seen later r db ≡ ok out
    → ((out.0 ≡ db) × (out.1.idempotent_noop ≡ true))
      ⊎ ((dataset : String) × (any (conflicts (new_run now job_id dataset r)) db.job_runs ≡ false)
          × (insert_job now outbox_id (new_run now job_id dataset r) r.actor_id db ≡ ok out))
unfolding enqueue_checked
enqueue_checked-cases now job_id outbox_id seen later r db out e =
    let (dataset, active, rest) = >>=-eq-ok (active_dataset db) _ e in
    elim (Option-cases (first (same_idempotency r.job_type r.idempotency_key) seen)) [
      | inr (existing, found) ↦ inl (ground arith, ground arith)
      | inl unseen ↦
          elim (Bool-cases (any (conflicts (new_run now job_id dataset r)) db.job_runs)) [
            | inl clash ↦ inl (answered r later db out (rw clash at (rw unseen at rest)))
            | inr free ↦ inr (dataset, free, ground arith)
          ]
    ]
