-- ===== src/Jobs/Advances/Bulk.antt =====
-- The lease reaper and the retirement of jobs only advance the tables.
use Prim.Native.Nat.{ℕ}
use Prim.Native.String.{String}
use mathlib.Core.Path.{◌≡◌, refl, sym, ap, subst}
use mathlib.Core.Logic.{inl, inr}
use mathlib.Core.Bool.{Bool, ◌||◌}
use mathlib.Core.Option.{some}
use mathlib.Core.List.{List, [], ◌∷◌, map}
use native.Mathlib.Omega.{arith}
use foundation_intelligence.Common.{
  In, select, select-keeps, map-In, All-map, All-append, All, Bool-cases, some_eq, length, ltb,
  ◌==◌,
}
use foundation_intelligence.Jobs.Schema.{Db, JobRun}
use foundation_intelligence.Jobs.Events.Numbering.{Contiguous, append-Contiguous}
use foundation_intelligence.Jobs.Expire.{has_expired, fail_expired, expiry_events, expired_ids}
use foundation_intelligence.Jobs.Retire.{is_retired, retire_jobs, retirement_events, retired_ids}
use foundation_intelligence.Jobs.Refines.Bulk.{
  fail_expired-Rows, retire_jobs-Rows, expiry_events-SameJobs, retirement_events-SameJobs,
}
use foundation_intelligence.Jobs.Invariant.{DispatchIsValid, Logged, run_ids}
use foundation_intelligence.Jobs.Advances.{dispatch_keys, Advances}

expiry_events-Contiguous :
    (now : ℕ) (ids : List ℕ) (db : Db)
    → Contiguous db.events
    → Contiguous (expiry_events now ids db).events
unfolding expiry_events
expiry_events-Contiguous now [] db c = c
expiry_events-Contiguous now (i ∷ ids) db c =
    expiry_events-Contiguous now ids _ (append-Contiguous db.events _ c refl)

retirement_events-Contiguous :
    (now : ℕ) (ids : List ℕ) (db : Db)
    → Contiguous db.events
    → Contiguous (retirement_events now ids db).events
unfolding retirement_events
retirement_events-Contiguous now [] db c = c
retirement_events-Contiguous now (i ∷ ids) db c =
    retirement_events-Contiguous now ids _ (append-Contiguous db.events _ c refl)

expiry_events-Logged :
    (now : ℕ) (ids runs : List ℕ) (db : Db)
    → All (λ i. In i runs) ids
    → Logged runs db.events
    → Logged runs (expiry_events now ids db).events
unfolding expiry_events
expiry_events-Logged now [] runs db m h = h
expiry_events-Logged now (i ∷ ids) runs db m h =
    expiry_events-Logged now ids runs _ m.1 (All-append _ db.events _ h (m.0, tt))

retirement_events-Logged :
    (now : ℕ) (ids runs : List ℕ) (db : Db)
    → All (λ i. In i runs) ids
    → Logged runs db.events
    → Logged runs (retirement_events now ids db).events
unfolding retirement_events
retirement_events-Logged now [] runs db m h = h
retirement_events-Logged now (i ∷ ids) runs db m h =
    retirement_events-Logged now ids runs _ m.1 (All-append _ db.events _ h (m.0, tt))

-- The ids of selected rows are ids of the table.
selected-ids :
    (p : JobRun → Bool) (rs : List JobRun)
    → All
        (λ i. In i (map (λ (r : JobRun). r.job_run_id) rs))
        (map (λ (r : JobRun). r.job_run_id) (select p rs))
selected-ids p rs =
    All-map _ (λ (r : JobRun). r.job_run_id) (select p rs) (select-keeps _ p rs (map-In _ rs))

pub fail_expired-Advances :
    (now : ℕ) (queue : String) (db : Db) → Advances now db (fail_expired now queue db).0
unfolding fail_expired
fail_expired-Advances now queue db =
    let logged = expiry_events-SameJobs now (expired_ids now queue db) _ in
    record {
      rows = fail_expired-Rows now queue db;
      sent = ap (map dispatch_keys) logged.outbox;
      dispatches = λ h. subst (All DispatchIsValid) (sym logged.outbox) h;
      numbered = λ c. expiry_events-Contiguous now (expired_ids now queue db) _ c;
      logged = λ h.
          expiry_events-Logged now (expired_ids now queue db) (run_ids db) _
            (selected-ids (has_expired now queue) db.job_runs) h;
    }

retired-Advances :
    (now : ℕ) (ids : List ℕ) (db : Db) (out : Db × List ℕ)
    → retire_jobs now ids db ≡ some out
    → (out.0.outbox ≡ db.outbox)
      × (Contiguous db.events → Contiguous out.0.events)
      × (Logged (run_ids db) db.events → Logged (run_ids db) out.0.events)
unfolding retire_jobs
retired-Advances now ids db out e = elim (Bool-cases (length ids == 0 || ltb 200 (length ids))) [
  | inl refused ↦ absurd (ground arith)
  | inr allowed ↦
      subst
        (λ (o : Db × List ℕ).
          (o.0.outbox ≡ db.outbox)
          × (Contiguous db.events → Contiguous o.0.events)
          × (Logged (run_ids db) db.events → Logged (run_ids db) o.0.events))
        (some_eq (rw allowed at e))
        (
          (retirement_events-SameJobs now (retired_ids ids db) _).outbox,
          retirement_events-Contiguous now (retired_ids ids db) _,
          retirement_events-Logged now (retired_ids ids db) (run_ids db) _
              (selected-ids (is_retired ids) db.job_runs),
        )
]

pub retire_jobs-Advances :
    (now : ℕ) (ids : List ℕ) (db : Db) (out : Db × List ℕ)
    → retire_jobs now ids db ≡ some out
    → Advances now db out.0
retire_jobs-Advances now ids db out e =
    let (outbox, numbered, logged) = retired-Advances now ids db out e in
    record {
      rows = retire_jobs-Rows now ids db out e;
      sent = ap (map dispatch_keys) outbox;
      dispatches = subst (All DispatchIsValid) (sym outbox);
      numbered = numbered;
      logged = logged;
    }
