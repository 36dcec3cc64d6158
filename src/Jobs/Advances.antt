-- ===== src/Jobs/Advances.antt =====
-- What every operation but `enqueue` does to the four tables, and that it keeps the invariant.
pub mod Running
pub mod Bulk
pub mod Sending
use Prim.Native.Nat.{ℕ, ◌≤◌, ◌+◌, suc}
use Prim.Native.String.{String}
use mathlib.Core.Path.{◌≡◌, refl, sym, ap, ◌∙◌, subst}
use mathlib.Core.Logic.{◌⊎◌, ◌≢◌, inl, inr}
use mathlib.Core.Bool.{Bool, true, false, ◌&&◌, ◌||◌}
use mathlib.Core.Option.{Option, none, some}
use mathlib.Core.List.{List, [], ◌∷◌, ◌++◌, map}
use native.Mathlib.Omega.{arith}
use foundation_intelligence.Common.{
  Result, ok, err, ok_eq, >>=-eq-ok, or_raise, first, All, All-map, map-All, All-update, Distinct,
  is_some, update, map-update, Option-cases, Bool-cases, any, if◌then◌else◌, some_eq, truncate,
  length, ltb, ◌==◌, strip,
}
use foundation_intelligence.Jobs.Schema.{
  Db, JobRun, JobEvent, Details, Dispatch, DispatchStatus, JobStatus,
}
use foundation_intelligence.Jobs.Errors.{JobError, unknown_dispatch}
use foundation_intelligence.Jobs.Events.{last_sequence, record_event}
use foundation_intelligence.Jobs.Events.Numbering.{Contiguous, append-Contiguous}
use foundation_intelligence.Jobs.Claim.{
  published_dispatch, unsent_for, worker_message_id, candidate, claim, claim_checked, claim_run,
  claim_idle, heartbeat, running_job,
}
use foundation_intelligence.Jobs.Finish.{JobResult, record_result, fail, fail_run, fail_profiles}
use foundation_intelligence.Jobs.Expire.{fail_expired, expiry_events, expired_ids}
use foundation_intelligence.Jobs.Retire.{retire_jobs, retirement_events, retired_ids}
use foundation_intelligence.Jobs.Outbox.{
  mark_dispatch_published, mark_dispatch_failed, unsent_with, status_after_failure, failed_dispatch,
}
use foundation_intelligence.Jobs.Machine.{Rows, Rows-refl}
use foundation_intelligence.Jobs.Machine.Valid.{Rows-RunIsValid}
use foundation_intelligence.Jobs.Machine.Keys.{
  same_id, same_request, both_active, Rows-Distinct, Rows-ids, same_id-Kept, same_request-Kept,
  both_active-Kept,
}
use foundation_intelligence.Jobs.Refines.{
  claim_checked-Rows, heartbeat-Rows, record_result-Rows, fail-Rows, fail-eq-ok,
}
use foundation_intelligence.Jobs.Refines.Bulk.{
  fail_expired-Rows, retire_jobs-Rows, expiry_events-SameJobs, retirement_events-SameJobs,
}
use foundation_intelligence.Jobs.Invariant.{
  IsValid, DispatchIsValid, same_dispatch, Logged, run_ids,
}

-- The primary key of a dispatch, and its job.
abbrev pub dispatch_keys : Dispatch → ℕ × ℕ
dispatch_keys d = (d.outbox_id, d.job_run_id)

-- Tables with the same keys have the same jobs, and unique keys if one of them has.
same-jobs :
    (ds es : List Dispatch)
    → map dispatch_keys ds ≡ map dispatch_keys es
    → map (λ (d : Dispatch). d.job_run_id) ds ≡ map (λ (d : Dispatch). d.job_run_id) es
same-jobs ds es same = sym (jobs-keys ds) ∙ ap (map (λ (k : ℕ × ℕ). k.1)) same ∙ jobs-keys es
  where
    jobs-keys :
        (xs : List Dispatch)
        → map (λ (k : ℕ × ℕ). k.1) (map dispatch_keys xs) ≡ map (λ (d : Dispatch). d.job_run_id) xs
    jobs-keys [] = refl
    jobs-keys (x ∷ xs) = ap (λ ids. x.job_run_id ∷ ids) (jobs-keys xs)

abbrev UniqueKeys : List (ℕ × ℕ) → Type 0
UniqueKeys ks = Distinct (λ k l. k.0 == l.0) ks

Distinct-UniqueKeys :
    (ds : List Dispatch) → Distinct same_dispatch ds → UniqueKeys (map dispatch_keys ds)
Distinct-UniqueKeys [] h = tt
Distinct-UniqueKeys (d ∷ ds) h = (All-map _ dispatch_keys ds h.0, Distinct-UniqueKeys ds h.1)

UniqueKeys-Distinct :
    (ds : List Dispatch) → UniqueKeys (map dispatch_keys ds) → Distinct same_dispatch ds
UniqueKeys-Distinct [] h = tt
UniqueKeys-Distinct (d ∷ ds) h = (map-All _ dispatch_keys ds h.0, UniqueKeys-Distinct ds h.1)

-- The jobs step, the dispatches stay those of the same jobs, and the log grows in order.
pub record Advances (now : ℕ) (db db' : Db) : Type 0 where
  pub rows : Rows now db.job_runs db'.job_runs
  pub sent : map dispatch_keys db'.outbox ≡ map dispatch_keys db.outbox
  pub dispatches : All DispatchIsValid db.outbox → All DispatchIsValid db'.outbox
  pub numbered : Contiguous db.events → Contiguous db'.events
  pub logged : Logged (run_ids db) db.events → Logged (run_ids db) db'.events

pub Advances-refl : (now : ℕ) (db : Db) → Advances now db db
Advances-refl now db = record {
  rows = Rows-refl now db.job_runs;
  sent = refl;
  dispatches = λ h. h;
  numbered = λ h. h;
  logged = λ h. h;
}

pub Advances-IsValid :
    {now : ℕ} {db db' : Db} → Advances now db db' → IsValid now db → IsValid now db'
Advances-IsValid {db = db} {db' = db'} a v = record {
  runs = Rows-RunIsValid a.rows v.runs;
  ids = Rows-Distinct same_id same_id-Kept a.rows v.ids;
  requests = Rows-Distinct same_request same_request-Kept a.rows v.requests;
  dedupe = Rows-Distinct both_active both_active-Kept a.rows v.dedupe;
  outbox_keys =
      UniqueKeys-Distinct db'.outbox
        (subst UniqueKeys (sym a.sent) (Distinct-UniqueKeys db.outbox v.outbox_keys));
  dispatched = same-jobs db'.outbox db.outbox a.sent ∙ v.dispatched ∙ sym (Rows-ids a.rows);
  dispatches = a.dispatches v.dispatches;
  numbered = a.numbered v.numbered;
  logged = subst (λ ids. Logged ids db'.events) (sym (Rows-ids a.rows)) (a.logged v.logged);
}

-- `record_event` on a state whose log is that of `db`.
pub record_event-Contiguous :
    (now job_id : ℕ) (type actor : String) (details : Details) (db : Db)
    → Contiguous db.events
    → Contiguous (record_event now job_id type actor details db).events
unfolding record_event
record_event-Contiguous now job_id type actor details db c = append-Contiguous db.events _ c refl

pub published-sent :
    (now : ℕ) (message : String) (p : Dispatch → Bool) (ds : List Dispatch)
    → map dispatch_keys (update p (published_dispatch now message) ds) ≡ map dispatch_keys ds
published-sent now message p ds =
    map-update dispatch_keys p (published_dispatch now message) ds (λ d. refl)

pub published-valid :
    (now : ℕ) (message : String) (p : Dispatch → Bool) (ds : List Dispatch)
    → All DispatchIsValid ds
    → All DispatchIsValid (update p (published_dispatch now message) ds)
published-valid now message p ds =
    All-update DispatchIsValid p (published_dispatch now message) ds
      (λ d h hit. (h.0, λ e. (refl, refl)))
