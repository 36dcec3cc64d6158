-- ===== src/Jobs/Enqueue/Idempotent.antt =====
-- `enqueue` of src/bff/postgres/job_repository.py and its idempotency key over time.
use Prim.Native.Nat.{ℕ}
use Prim.Native.String.{String}
use mathlib.Core.Path.{◌≡◌, refl, sym, ◌∙◌, subst}
use mathlib.Core.Logic.{inl, inr}
use mathlib.Core.Bool.{true, false}
use mathlib.Core.List.{List, [], ◌∷◌, ◌++◌}
use native.Mathlib.Omega.{arith}
use text.Mathlib.TextEquality.{eq_iff}
use foundation_intelligence.Common.{
  after_check, any, ok, ok_eq, >>=-eq-ok, In, In-All, first-In, first-hit, first-In-some, Distinct,
  Distinct-same,
}
use foundation_intelligence.Jobs.Errors.{duplicate_dispatch}
use foundation_intelligence.Jobs.Schema.{Db, JobRun}
use foundation_intelligence.Jobs.Machine.Keys.{same_request}
use foundation_intelligence.Jobs.Enqueue.{
  has_outbox_id, EnqueueRequest, EnqueueReply, checked_request, active_dataset, same_idempotency,
  new_run, noop_reply, insert_job, enqueue_checked, enqueue, envelope_payload,
}
use foundation_intelligence.Jobs.Enqueue.Cases.{enqueue_checked-cases}
use foundation_intelligence.Jobs.Enqueue.Valid.{enqueue-IsValid}
use foundation_intelligence.Jobs.Invariant.{IsValid}
use foundation_intelligence.Jobs.System.{System, Reach, Reach-IsValid}
use foundation_intelligence.Jobs.History.{Reach-Later}

same_request_comm : (r s : JobRun) → same_request r s ≡ same_request s r
same_request_comm r s = ground (
  arith,
  eq_iff r.job_type s.job_type,
  eq_iff s.job_type r.job_type,
  eq_iff r.idempotency_key s.idempotency_key,
  eq_iff s.idempotency_key r.idempotency_key,
)

same_keys :
    (job_type key : String) (r s : JobRun)
    → same_idempotency job_type key r ≡ true
    → same_idempotency job_type key s ≡ true
    → same_request r s ≡ true
same_keys job_type key r s h k = ground (
  arith,
  eq_iff r.job_type job_type,
  eq_iff s.job_type job_type,
  eq_iff r.idempotency_key key,
  eq_iff s.idempotency_key key,
  eq_iff r.job_type s.job_type,
  eq_iff r.idempotency_key s.idempotency_key,
)

-- A request whose key is in the table that the SELECT sees is answered with that job, at its
-- present status, and the database is left as it is.
pub enqueue-seen :
    (now job_id outbox_id : ℕ) (seen later : List JobRun) (request r : EnqueueRequest)
    (dataset : String) (run : JobRun) (db : Db)
    → checked_request request ≡ ok r
    → active_dataset db ≡ ok dataset
    → Distinct same_request seen
    → In run seen
    → same_idempotency r.job_type r.idempotency_key run ≡ true
    → enqueue now job_id outbox_id seen later request db ≡ ok (db, noop_reply run)
unfolding enqueue enqueue_checked
enqueue-seen now job_id outbox_id seen later request r dataset run db checked active d m h =
    let test = same_idempotency r.job_type r.idempotency_key in
    let (found, e) = first-In-some test run seen m h in
    let one : found ≡ run =
      In-All (λ s. same_request s run ≡ true → s ≡ run) found seen (first-In test found seen e)
        (Distinct-same same_request same_request_comm run seen d m)
        (same_keys r.job_type r.idempotency_key found run (first-hit test seen e) h) in
    rw checked (rw active (rw e (rw one)))

In-last : (r : JobRun) (rs : List JobRun) → In r (rs ++ r ∷ [])
In-last r [] = inl refl
In-last r (x ∷ rs) = inr (In-last r rs)

-- An insertion that returns has put its row into the table, and names it.
inserted_row :
    (now outbox_id : ℕ) (run : JobRun) (actor : String) (db : Db) (out : Db × EnqueueReply)
    → insert_job now outbox_id run actor db ≡ ok out
    → In run out.0.job_runs × (out.1.job_id ≡ run.job_run_id)
unfolding insert_job
inserted_row now outbox_id run actor db out e =
    let (message, _, rest) = >>=-eq-ok (envelope_payload run) _ e in
    let (_, done) =
      after_check (any (has_outbox_id outbox_id) db.outbox) duplicate_dispatch _ rest in
    subst (λ (o : Db × EnqueueReply). In run o.0.job_runs × (o.1.job_id ≡ run.job_run_id))
      (ok_eq done) (In-last run db.job_runs, refl)

keys_refl :
    (job_type key : String) (r : JobRun)
    → r.job_type ≡ job_type
    → r.idempotency_key ≡ key
    → same_idempotency job_type key r ≡ true
keys_refl job_type key r h k =
    ground (arith, eq_iff r.job_type job_type, eq_iff r.idempotency_key key)

-- Once a request has created a job in a valid database, the same job type and idempotency key are
-- answered with that job after any history of other transactions, while a dataset is active and the
-- first SELECT sees the table: no second job is created and nothing changes.
pub enqueue_repeated :
    (now job_id outbox_id : ℕ) (seen later : List JobRun) (request r : EnqueueRequest) (db : Db)
    (out : Db × EnqueueReply) {t : System} (again job_id' outbox_id' : ℕ) (later' : List JobRun)
    (request' r' : EnqueueRequest) (dataset : String)
    → IsValid now db
    → checked_request request ≡ ok r
    → enqueue now job_id outbox_id seen later request db ≡ ok out
    → out.1.idempotent_noop ≡ false
    → Reach (record { clock = now; db = out.0 }) t
    → checked_request request' ≡ ok r'
    → r'.job_type ≡ r.job_type
    → r'.idempotency_key ≡ r.idempotency_key
    → active_dataset t.db ≡ ok dataset
    → (run : JobRun) × (enqueue again job_id' outbox_id' t.db.job_runs later' request' t.db
        ≡ ok (t.db, noop_reply run))
      × (run.job_run_id ≡ out.1.job_id)
      × (run.input ≡ r.payload)
unfolding enqueue
enqueue_repeated now job_id outbox_id seen later request r db out {t} again job_id' outbox_id'
      later' request' r' dataset v checked e fresh path checked' type key active =
    elim (enqueue_checked-cases now job_id outbox_id seen later r db out (rw checked at e)) [
      | inl (_, noop) ↦ absurd (clash noop)
      | inr (set, free, inserted) ↦
          let run = new_run now job_id set r in
          let (m, id) = inserted_row now outbox_id run r.actor_id db out inserted in
          let v' = enqueue-IsValid now job_id outbox_id seen later request db out e v in
          let (run', m', after) = Reach-Later run path v' m in
          (
            run',
            enqueue-seen again job_id' outbox_id' t.db.job_runs later' request' r' dataset run' t.db
                checked' active (Reach-IsValid path v').requests m'
                (keys_refl r'.job_type r'.idempotency_key run' (after.same.type ∙ sym type)
                  (after.same.key ∙ sym key)),
            after.same.id ∙ sym id,
            after.same.input,
          )
    ]
  where
    clash : out.1.idempotent_noop ≡ true → ⊥
    clash noop = cc
