-- ===== src/Jobs/Refines/Bulk.antt =====
-- The lease reaper and the retirement of jobs step the job rows; their events touch nothing else.
use Prim.Native.Nat.{ℕ}
use Prim.Native.String.{String}
use mathlib.Core.Path.{◌≡◌, refl, sym, subst}
use mathlib.Core.Logic.{inl, inr}
use mathlib.Core.Bool.{true, ◌||◌}
use mathlib.Core.Option.{some}
use mathlib.Core.List.{List, [], ◌∷◌}
use native.Mathlib.Omega.{arith}
use foundation_intelligence.Common.{◌==◌, ltb, Bool-cases, update, and_parts, length, some_eq}
use foundation_intelligence.Jobs.Schema.{Db, JobRun, is_running, is_active}
use foundation_intelligence.Jobs.Expire.{has_expired, expiry_events, fail_expired, expired_ids}
use foundation_intelligence.Jobs.Retire.{
  retired_ids, is_retired, retired_run, retirement_events, retire_jobs,
}
use foundation_intelligence.Jobs.Machine.{expires, retires, Rows, Rows-update}
use foundation_intelligence.Jobs.Refines.{all}

pub record SameJobs (db db' : Db) : Type 0 where
  pub runs : db'.job_runs ≡ db.job_runs
  pub outbox : db'.outbox ≡ db.outbox

pub expiry_events-SameJobs :
    (now : ℕ) (ids : List ℕ) (db : Db) → SameJobs db (expiry_events now ids db)
unfolding expiry_events
expiry_events-SameJobs now [] db = record { runs = refl; outbox = refl }
expiry_events-SameJobs now (i ∷ ids) db =
    let h = expiry_events-SameJobs now ids _ in record { runs = h.runs; outbox = h.outbox }

pub retirement_events-SameJobs :
    (now : ℕ) (ids : List ℕ) (db : Db) → SameJobs db (retirement_events now ids db)
unfolding retirement_events
retirement_events-SameJobs now [] db = record { runs = refl; outbox = refl }
retirement_events-SameJobs now (i ∷ ids) db =
    let h = retirement_events-SameJobs now ids _ in record { runs = h.runs; outbox = h.outbox }

has_expired-running :
    (now : ℕ) (queue : String) (r : JobRun)
    → has_expired now queue r ≡ true
    → is_running r.status ≡ true
has_expired-running now queue r h = ground arith

pub fail_expired-Rows :
    (now : ℕ) (queue : String) (db : Db)
    → Rows now db.job_runs (fail_expired now queue db).0.job_runs
unfolding fail_expired
fail_expired-Rows now queue db =
    subst (Rows now db.job_runs)
      (sym (expiry_events-SameJobs now (expired_ids now queue db) _).runs)
      (Rows-update now _ _ db.job_runs
        (all db.job_runs (λ r h. expires (has_expired-running now queue r h))))

is_retired-active :
    (ids : List ℕ) (r : JobRun) → is_retired ids r ≡ true → is_active r.status ≡ true
is_retired-active ids r h = (and_parts _ _ h).1

retired-Rows :
    (now : ℕ) (ids : List ℕ) (db : Db)
    → Rows now db.job_runs (update (is_retired ids) (retired_run now) db.job_runs)
retired-Rows now ids db =
    Rows-update now _ _ db.job_runs (all db.job_runs (λ r h. retires (is_retired-active ids r h)))

pub retire_jobs-Rows :
    (now : ℕ) (ids : List ℕ) (db : Db) (out : Db × List ℕ)
    → retire_jobs now ids db ≡ some out
    → Rows now db.job_runs out.0.job_runs
unfolding retire_jobs
retire_jobs-Rows now ids db out e = elim (Bool-cases (length ids == 0 || ltb 200 (length ids))) [
  | inl refused ↦ absurd (ground arith)
  | inr allowed ↦
      subst (λ (o : Db × List ℕ). Rows now db.job_runs o.0.job_runs) (some_eq (rw allowed at e))
        (subst (Rows now db.job_runs)
          (sym (retirement_events-SameJobs now (retired_ids ids db) _).runs)
          (retired-Rows now ids db))
]
