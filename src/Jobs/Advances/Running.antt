-- ===== src/Jobs/Advances/Running.antt =====
-- `claim`, `heartbeat`, `succeed` and `fail` only advance the tables.
use Prim.Native.Nat.{ℕ}
use Prim.Native.String.{String}
use mathlib.Core.Path.{◌≡◌, refl, sym, subst}
use mathlib.Core.Logic.{inl, inr}
use mathlib.Core.Bool.{Bool, true, false, ◌&&◌}
use mathlib.Core.Option.{Option}
use mathlib.Core.List.{List, [], ◌∷◌, ◌++◌}
use native.Mathlib.Omega.{arith}
use foundation_intelligence.Common.{
  In, In-map, All-append, any-In, first-In, ok, Option-cases, Bool-cases, any, if◌then◌else◌, strip,
  ok_eq, >>-ok, raise_if,
}
use foundation_intelligence.Jobs.Schema.{Db, JobEvent, JobRun, JobStatus}
use foundation_intelligence.Jobs.Events.Numbering.{append-Contiguous}
use foundation_intelligence.Jobs.Claim.{
  unsent_for, worker_message_id, candidate, claim, claim_checked, claim_run, claim_idle, heartbeat,
  running_job,
}
use foundation_intelligence.Jobs.Errors.{unknown_dataset}
use foundation_intelligence.Jobs.Finish.{
  JobResult, record_result, succeed, is_refused, fail, fail_run, fail_profiles,
}
use foundation_intelligence.Jobs.Machine.{Rows, Rows-refl}
use foundation_intelligence.Jobs.Refines.{
  candidate-claimable, claim_checked-Rows, heartbeat-Rows, record_result-Rows, fail-Rows,
  fail-eq-ok,
}
use foundation_intelligence.Jobs.Invariant.{Logged, IsValid, run_ids}
use foundation_intelligence.Jobs.Advances.{Advances, Advances-refl, published-sent, published-valid}

claim_run-Advances :
    (now : ℕ) (worker queue : String) (lease : ℕ) (r : JobRun) (db : Db)
    → In r db.job_runs
    → Rows now db.job_runs (claim_run now worker queue lease r db).0.job_runs
    → Advances now db (claim_run now worker queue lease r db).0
unfolding claim_run
claim_run-Advances now worker queue lease r db m rows = record {
  rows = rows;
  sent = published-sent now (worker_message_id worker) (unsent_for r.job_run_id) db.outbox;
  dispatches = published-valid now (worker_message_id worker) (unsent_for r.job_run_id) db.outbox;
  numbered = λ c. append-Contiguous db.events _ c refl;
  logged = λ h. All-append _ db.events _ h (In-map _ r db.job_runs m, tt);
}

claim_checked-Advances :
    (now : ℕ) (locked : ℕ → Bool) (worker queue : String) (lease : ℕ) (db : Db)
    → IsValid now db
    → Advances now db (claim_checked now locked worker queue lease db).0
unfolding claim_idle claim_checked
claim_checked-Advances now locked worker queue lease db v =
    let rows = claim_checked-Rows now locked worker queue lease db v.ids in
    elim (Option-cases (candidate queue locked db.job_runs)) [
      | inl idle ↦
          rw (idle, claim_checked)
            (record {
              rows = Rows-refl now db.job_runs;
              sent = refl;
              dispatches = λ h. h;
              numbered = λ h. h;
              logged = λ h. h;
            })
      | inr (r, e) ↦
          rw (e, claim_checked)
            (claim_run-Advances now worker queue lease r db
              (candidate-claimable queue locked db.job_runs r e).0 (rw (e, claim_checked) at rows))
    ]

-- A claim that returns has passed its argument checks.
pub claim-eq-ok :
    (now : ℕ) (locked : ℕ → Bool) (worker queue : String) (lease : ℕ) (db : Db)
    (out : Db × Option JobRun)
    → claim now locked worker queue lease db ≡ ok out
    → claim_checked now locked (strip worker) (strip queue) lease db ≡ out
unfolding claim
claim-eq-ok now locked worker queue lease db out e = ground arith

pub claim-Advances :
    (now : ℕ) (locked : ℕ → Bool) (worker queue : String) (lease : ℕ) (db : Db)
    (out : Db × Option JobRun)
    → IsValid now db
    → claim now locked worker queue lease db ≡ ok out
    → Advances now db out.0
claim-Advances now locked worker queue lease db out v e =
    subst (λ (o : Db × Option JobRun). Advances now db o.0)
      (claim-eq-ok now locked worker queue lease db out e)
      (claim_checked-Advances now locked (strip worker) (strip queue) lease db v)

pub heartbeat-Advances :
    (now job_id : ℕ) (worker : String) (lease : ℕ) (db : Db)
    → Advances now db (heartbeat now job_id worker lease db).0
unfolding heartbeat
heartbeat-Advances now job_id worker lease db =
    let rows = heartbeat-Rows now job_id worker lease db in
    elim (Bool-cases (any (running_job job_id) db.job_runs)) [
      | inl alive ↦ rw alive (record {
        rows = rw alive at rows;
        sent = refl;
        dispatches = λ h. h;
        numbered = λ h. h;
        logged = λ h. h;
      })
      | inr lost ↦ rw lost (Advances-refl now db)
    ]

running-In :
    (job_id : ℕ) (db : Db) → any (running_job job_id) db.job_runs ≡ true → In job_id (run_ids db)
running-In job_id db alive =
    let (r, m, h) = any-In (running_job job_id) db.job_runs alive in
    let same : r.job_run_id ≡ job_id = ground arith in
    subst (λ i. In i (run_ids db)) same (In-map _ r db.job_runs m)

pub record_result-Advances :
    (now job_id : ℕ) (worker : String) (result : JobResult) (db : Db)
    → Advances now db (record_result now job_id worker result db).0
unfolding record_result
record_result-Advances now job_id worker result db =
    let rows = record_result-Rows now job_id worker result db in
    elim (Bool-cases (any (running_job job_id) db.job_runs)) [
      | inl alive ↦ rw alive (record {
        rows = rw alive at rows;
        sent = refl;
        dispatches = λ h. h;
        numbered = λ c. append-Contiguous db.events _ c refl;
        logged = λ h. All-append _ db.events _ h (running-In job_id db alive, tt);
      })
      | inr lost ↦ rw lost (Advances-refl now db)
    ]

released_outbox :
    (w : Bool) (now job_id : ℕ) (db : Db)
    → (if w then db else fail_profiles now job_id db).outbox ≡ db.outbox
unfolding fail_profiles
released_outbox true now job_id db = refl
released_outbox false now job_id db = refl

released_events :
    (w : Bool) (now job_id : ℕ) (db : Db)
    → (if w then db else fail_profiles now job_id db).events ≡ db.events
unfolding fail_profiles
released_events true now job_id db = refl
released_events false now job_id db = refl

Logged-after :
    (ids : List ℕ) (es : List JobEvent) (e : JobEvent)
    → Logged ids es
    → In e.job_run_id ids
    → Logged ids (es ++ e ∷ [])
Logged-after ids es e h m = All-append _ es _ h (m, tt)

fail_run-Advances :
    (now : ℕ) (worker error_class reason : String) (retryable : Bool) (r : JobRun) (db : Db)
    → In r db.job_runs
    → Rows now db.job_runs (fail_run now worker error_class reason retryable r db).0.job_runs
    → Advances now db (fail_run now worker error_class reason retryable r db).0
unfolding fail_run
fail_run-Advances now worker error_class reason retryable r db m rows = record {
  rows = rows;
  sent = rw released_outbox;
  dispatches = rw released_outbox (λ h. h);
  numbered = λ c. append-Contiguous _ _ (rw released_events c) refl;
  logged = λ h.
      Logged-after (run_ids db) _ _
        (subst (Logged (run_ids db)) (sym (released_events _ now r.job_run_id _)) h)
        (In-map _ r db.job_runs m);
}

pub succeed-Advances :
    (now job_id : ℕ) (worker : String) (result : JobResult) (db : Db) (out : Db × Bool)
    → succeed now job_id worker result db ≡ ok out
    → Advances now db out.0
unfolding succeed
succeed-Advances now job_id worker result db out e =
    subst (λ (o : Db × Bool). Advances now db o.0)
      (ok_eq
        (>>-ok
          (raise_if (any (running_job job_id) db.job_runs && is_refused result) unknown_dataset) _
          e).1)
      (record_result-Advances now job_id worker result db)

pub fail-Advances :
    (now job_id : ℕ) (worker error_class reason : String) (retryable : Bool) (db : Db)
    (out : Db × JobStatus)
    → IsValid now db
    → fail now job_id worker error_class reason retryable db ≡ ok out
    → Advances now db out.0
fail-Advances now job_id worker error_class reason retryable db out v e =
    let rows = fail-Rows now job_id worker error_class reason retryable db out v.ids e in
    let (row, found, running, result) =
      fail-eq-ok now job_id worker error_class reason retryable db out e in
    subst (λ (o : Db × JobStatus). Advances now db o.0) result
      (fail_run-Advances now worker error_class reason retryable row db
        (first-In _ row db.job_runs found)
        (subst (λ (o : Db × JobStatus). Rows now db.job_runs o.0.job_runs) (sym result) rows))
