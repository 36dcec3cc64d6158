-- ===== src/Jobs/Invariant.antt =====
-- What holds of the job tables between transactions: the constraints of `job_runs` that RunIsValid
-- lists, its three unique keys, one dispatch for each job, the primary key and the queue names of the
-- dispatches and the times and messages of the published ones, and gapless event numbers of events
-- whose jobs exist. The table of workers and the foreign keys to the datasets are no part of it.
use Prim.Native.Nat.{ℕ, ◌≤◌}
use mathlib.Core.Path.{◌≡◌}
use mathlib.Core.Bool.{Bool, true, false}
use mathlib.Core.List.{List, map}
use foundation_intelligence.Common.{◌==◌, All, All-mono, Distinct, In, is_some, is_spaces}
use foundation_intelligence.Jobs.Schema.{Db, JobRun, Dispatch, JobEvent, DispatchStatus}
use foundation_intelligence.Jobs.Events.Numbering.{Contiguous}
use foundation_intelligence.Jobs.Machine.Valid.{RunIsValid, RunIsValid-later}
use foundation_intelligence.Jobs.Machine.Keys.{same_id, same_request, both_active}

-- `ck_job_dispatch_queue` and `ck_job_dispatch_published`
abbrev pub DispatchIsValid : Dispatch → Type 0
DispatchIsValid d =
    (is_spaces d.queue_name ≡ false)
    × (d.status ≡ DispatchStatus.published
        → (is_some d.published_at ≡ true) × (is_some d.queue_message_id ≡ true))

-- Two dispatches with one primary key.
abbrev pub same_dispatch : Dispatch → Dispatch → Bool
same_dispatch d e = d.outbox_id == e.outbox_id

-- The foreign key of `job_events`: each event is that of a job of the table.
abbrev pub Logged : List ℕ → List JobEvent → Type 0
Logged ids es = All (λ e. In e.job_run_id ids) es

abbrev pub run_ids : Db → List ℕ
run_ids db = map (λ (r : JobRun). r.job_run_id) db.job_runs

pub record IsValid (now : ℕ) (db : Db) : Type 0 where
  pub runs : All (RunIsValid now) db.job_runs
  pub ids : Distinct same_id db.job_runs
  pub requests : Distinct same_request db.job_runs
  pub dedupe : Distinct both_active db.job_runs
  pub outbox_keys : Distinct same_dispatch db.outbox
  pub dispatched :
      map (λ (d : Dispatch). d.job_run_id) db.outbox
      ≡ map (λ (r : JobRun). r.job_run_id) db.job_runs
  pub dispatches : All DispatchIsValid db.outbox
  pub numbered : Contiguous db.events
  pub logged : Logged (run_ids db) db.events

pub IsValid-later : (now later : ℕ) (db : Db) → now ≤ later → IsValid now db → IsValid later db
IsValid-later now later db h v = record {
  runs = All-mono _ _ db.job_runs (λ r. RunIsValid-later now later r h) v.runs;
  ids = v.ids;
  requests = v.requests;
  dedupe = v.dedupe;
  outbox_keys = v.outbox_keys;
  dispatched = v.dispatched;
  dispatches = v.dispatches;
  numbered = v.numbered;
  logged = v.logged;
}
