-- ===== src/Jobs/Enqueue/Total.antt =====
-- The answers of `enqueue` when no other session disturbs it.
use Prim.Native.Nat.{ℕ}
use Prim.Native.String.{String}
use mathlib.Core.Path.{◌≡◌, refl, ap}
use mathlib.Core.Logic.{inl, inr}
use mathlib.Core.Bool.{Bool, true, false, ◌||◌}
use mathlib.Core.List.{List, [], ◌∷◌, ◌++◌}
use text.Mathlib.Text.{◌==◌ as str_eq}
use native.Mathlib.Omega.{arith}
use foundation_intelligence.Common.{
  any-false, Result, ok, err, Bool-cases, Option-cases, All, In, In-All, first, any, any-In,
  is_blank, ltb, select, select-In, least-some, ◌==◌,
}
use foundation_intelligence.Durable.Envelope.{QueueEnvelope, payload, validate}
use foundation_intelligence.Jobs.Schema.{Db, JobRun}
use foundation_intelligence.Jobs.Errors.{JobError, invalid_envelope}
use foundation_intelligence.Jobs.Enqueue.{
  has_outbox_id, queued_event, EnqueueRequest, EnqueueReply, checked_request, active_dataset,
  same_idempotency, conflicts, explains, new_run, noop_reply, reconciled, insert_job,
  enqueue_checked, enqueue, envelope_payload, job_envelope, explains_first, new_dispatch,
}
use foundation_intelligence.Jobs.Enqueue.Cases.{IsChecked, checked_request-IsChecked}

cong_or : {a b : Bool} → a ≡ false → b ≡ false → (a || b) ≡ false
cong_or p q = rw p q

-- An envelope of the version in use, with its names and a first attempt, is valid.
envelope-payload :
    (e : QueueEnvelope)
    → str_eq e.schema_version "job-envelope-v1" ≡ true
    → (is_blank e.job_type || is_blank e.queue_name) ≡ false
    → (ltb e.attempt 1 || ltb e.max_attempts e.attempt) ≡ false
    → payload e ≡ ok e
unfolding payload validate
envelope-payload e version names attempts = rw version (rw names (rw attempts))

-- The message of a checked request is a valid envelope.
envelope-ok :
    (now job_id : ℕ) (dataset : String) (r : EnqueueRequest)
    → IsChecked r
    → envelope_payload (new_run now job_id dataset r)
      ≡ ok (job_envelope (new_run now job_id dataset r))
envelope-ok now job_id dataset r c =
    let names : (is_blank r.job_type || is_blank r.queue_name) ≡ false =
      cong_or c.job_type c.queue_name in
    let attempts : (ltb 1 1 || ltb r.max_attempts 1) ≡ false = ground arith in
    ap
      (λ p. elim p as (λ _. Result JobError QueueEnvelope) [
        | ok e ↦ ok e
        | err _ ↦ err invalid_envelope
      ])
      (envelope-payload (job_envelope (new_run now job_id dataset r)) refl names attempts)

explained :
    (now job_id : ℕ) (dataset : String) (r : EnqueueRequest) (s : JobRun)
    → conflicts (new_run now job_id dataset r) s ≡ true
    → (s.job_run_id == job_id) ≡ false
    → explains r s ≡ true
explained now job_id dataset r s h other = ground arith

reconciled-total :
    (r : EnqueueRequest) (s : JobRun) (rs : List JobRun)
    → In s rs
    → explains r s ≡ true
    → (reply : EnqueueReply) × (reconciled r rs ≡ ok reply)
unfolding reconciled
reconciled-total r s rs m h =
    let (row, e) =
      least-some explains_first s (select (explains r) rs) (select-In (explains r) s rs m h) in
    (noop_reply row, rw e)

insert_job-total :
    (now job_id outbox_id : ℕ) (dataset : String) (r : EnqueueRequest) (db : Db)
    → IsChecked r
    → All (λ d. has_outbox_id outbox_id d ≡ false) db.outbox
    → (out : Db × EnqueueReply) × (insert_job now outbox_id
          (new_run now job_id dataset r)
          r.actor_id
          db
        ≡ ok out)
unfolding insert_job
insert_job-total now job_id outbox_id dataset r db c unused =
    let run = new_run now job_id dataset r in
    let queued : Db = record db {
      events = db.events ++ queued_event now job_id r.actor_id r.job_type ∷ [];
      job_runs = db.job_runs ++ run ∷ [];
      outbox = db.outbox ++ new_dispatch now outbox_id run (job_envelope run) ∷ [];
    } in
    (
      (queued, record (noop_reply run) { idempotent_noop = false }),
      rw (envelope-ok now job_id dataset r c)
          (rw (any-false (has_outbox_id outbox_id) db.outbox unused) refl),
    )

-- With valid arguments, an active dataset and new ids, an `enqueue` that no other session disturbs
-- returns: it never fails on the envelope, nor for want of an explanation of a conflict.
pub enqueue_total :
    (now job_id outbox_id : ℕ) (request r : EnqueueRequest) (dataset : String) (db : Db)
    → checked_request request ≡ ok r
    → active_dataset db ≡ ok dataset
    → All (λ s. (s.job_run_id == job_id) ≡ false) db.job_runs
    → All (λ d. (d.outbox_id == outbox_id) ≡ false) db.outbox
    → (out : Db × EnqueueReply) × (enqueue now job_id outbox_id db.job_runs db.job_runs request db
        ≡ ok out)
unfolding enqueue enqueue_checked
enqueue_total now job_id outbox_id request r dataset db checked active new unused =
    let run = new_run now job_id dataset r in
    elim (Option-cases (first (same_idempotency r.job_type r.idempotency_key) db.job_runs)) [
      | inr (existing, e) ↦ ((db, noop_reply existing), rw checked (rw active (rw e)))
      | inl unseen ↦ elim (Bool-cases (any (conflicts run) db.job_runs)) [
        | inl clash ↦
            let (s, m, h) = any-In (conflicts run) db.job_runs clash in
            let other = In-All _ s db.job_runs m new in
            let (reply, found) =
              reconciled-total r s db.job_runs m (explained now job_id dataset r s h other) in
            ((db, reply), rw checked (rw active (rw unseen (rw clash (rw found)))))
        | inr free ↦
            let (out, done) =
              insert_job-total now job_id outbox_id dataset r db
                (checked_request-IsChecked request r checked) unused in
            (out, rw checked (rw active (rw unseen (rw free done))))
      ]
    ]
