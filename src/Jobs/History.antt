-- ===== src/Jobs/History.antt =====
-- The rows of `job_runs` over a history of transactions.
use Prim.Native.Nat.{ℕ, ◌≤◌}
use mathlib.Core.Path.{◌≡◌, refl, sym, subst, ◌∙◌}
use mathlib.Core.Logic.{◌⊎◌, inl, inr}
use mathlib.Core.Bool.{false}
use mathlib.Core.List.{List, [], ◌∷◌, ◌++◌}
use native.Mathlib.Omega.{arith}
use foundation_intelligence.Common.{In, In-append}
use foundation_intelligence.Jobs.Schema.{Db, JobRun, is_active}
use foundation_intelligence.Jobs.Enqueue.Valid.{enqueue-runs}
use foundation_intelligence.Jobs.Machine.{
  RunStep, claims, renews, succeeds, retries, gives_up, expires, retires, Rows, Rows-refl, done,
  keep, move,
}
use foundation_intelligence.Jobs.Machine.Keys.{
  SameJob, SameJob-refl, RunStep-SameJob, RunStep-active,
}
use foundation_intelligence.Jobs.Invariant.{IsValid, IsValid-later}
use foundation_intelligence.Jobs.Advances.Running.{
  claim-Advances, heartbeat-Advances, succeed-Advances, fail-Advances,
}
use foundation_intelligence.Jobs.Advances.Bulk.{fail_expired-Advances, retire_jobs-Advances}
use foundation_intelligence.Jobs.Advances.Sending.{
  mark_dispatch_published-Advances, mark_dispatch_failed-Advances,
}
use foundation_intelligence.Jobs.System.{
  Transaction, System, Step, Reach, commits, here, next, Step-IsValid, Reach-IsValid,
}
use foundation_intelligence.Jobs.System

-- The table after a transaction: each row steps or stays, or one row is added.
pub Transaction-runs :
    {now : ℕ} {db db' : Db}
    → Transaction now db db'
    → IsValid now db
    → Rows now db.job_runs db'.job_runs
      ⊎ ((run : JobRun) × (db'.job_runs ≡ db.job_runs ++ run ∷ []))
Transaction-runs {now} {db} (System.enqueues job_id outbox_id seen later r out e) v =
    elim (enqueue-runs now job_id outbox_id seen later r db out e) [
      | inl same ↦ inl (
          subst (λ (d : Db). Rows now db.job_runs d.job_runs) (sym same)
            (Rows-refl now db.job_runs))
      | inr added ↦ inr added
    ]
Transaction-runs {now} {db} (System.claims locked worker queue lease out e) v =
    inl (claim-Advances now locked worker queue lease db out v e).rows
Transaction-runs {now} {db} (System.beats job_id worker lease) v =
    inl (heartbeat-Advances now job_id worker lease db).rows
Transaction-runs {now} {db} (System.succeeds job_id worker result out e) v =
    inl (succeed-Advances now job_id worker result db out e).rows
Transaction-runs {now} {db} (System.fails job_id worker error_class reason retryable out e) v =
    inl (fail-Advances now job_id worker error_class reason retryable db out v e).rows
Transaction-runs {now} {db} (System.expires queue) v = inl (fail_expired-Advances now queue db).rows
Transaction-runs {now} {db} (System.retires ids out e) v =
    inl (retire_jobs-Advances now ids db out e).rows
Transaction-runs {now} {db} (System.publishes outbox_id message) v =
    inl (mark_dispatch_published-Advances now outbox_id message db).rows
Transaction-runs {now} {db} (System.misses outbox_id error delay maximum out e) v =
    inl (mark_dispatch_failed-Advances now outbox_id error delay maximum db out e).rows
Transaction-runs {now} {db} (System.activates dataset) v = inl (Rows-refl now db.job_runs)

-- What a later row of a job keeps of an earlier one.
pub record Later (r s : JobRun) : Type 0 where
  pub same : SameJob r s
  pub attempts : r.attempt ≤ s.attempt
  pub finished : is_active r.status ≡ false → s ≡ r

Later-refl : (r : JobRun) → Later r r
Later-refl r = record { same = SameJob-refl r; attempts = omega arith; finished = λ _. refl }

RunStep-attempt : {now : ℕ} {r s : JobRun} → RunStep now r s → r.attempt ≤ s.attempt
RunStep-attempt (claims lease h) = omega arith
RunStep-attempt (renews lease h) = omega arith
RunStep-attempt (succeeds result h) = omega arith
RunStep-attempt (retries error_class reason retryable h more) = omega arith
RunStep-attempt (gives_up error_class reason retryable h) = omega arith
RunStep-attempt (expires h) = omega arith
RunStep-attempt (retires h) = omega arith

RunStep-Later : {now : ℕ} {r s : JobRun} → RunStep now r s → Later r s
RunStep-Later st = record {
  same = RunStep-SameJob st;
  attempts = RunStep-attempt st;
  finished = λ idle. cc (RunStep-active st);
}

SameJob-trans : (r s t : JobRun) → SameJob r s → SameJob s t → SameJob r t
SameJob-trans r s t a b = ground arith

Later-trans : (r s t : JobRun) → Later r s → Later s t → Later r t
Later-trans r s t a b = record {
  same = SameJob-trans r s t a.same b.same;
  attempts = omega arith;
  finished = λ idle.
      let e = a.finished idle in
      b.finished (subst (λ (x : JobRun). is_active x.status ≡ false) (sym e) idle) ∙ e;
}

Rows-Later :
    {now : ℕ} {rs ss : List JobRun} (r : JobRun)
    → Rows now rs ss
    → In r rs
    → (s : JobRun) × In s ss × Later r s
Rows-Later r done m = absurd m
Rows-Later r (keep x rows) (inl e) = (x, inl refl, subst (λ y. Later y x) e (Later-refl x))
Rows-Later r (keep x rows) (inr m) = let (s, n, l) = Rows-Later r rows m in (s, inr n, l)
Rows-Later r (move {s = y} st rows) (inl e) =
    (y, inl refl, subst (λ z. Later z y) e (RunStep-Later st))
Rows-Later r (move st rows) (inr m) = let (s, n, l) = Rows-Later r rows m in (s, inr n, l)

Transaction-Later :
    {now : ℕ} {db db' : Db} (r : JobRun)
    → Transaction now db db'
    → IsValid now db
    → In r db.job_runs
    → (s : JobRun) × In s db'.job_runs × Later r s
Transaction-Later {now} {db} r tx v m = elim (Transaction-runs tx v) [
  | inl rows ↦ Rows-Later r rows m
  | inr (run, e) ↦ (r, subst (In r) (sym e) (In-append r db.job_runs (run ∷ []) m), Later-refl r)
]

-- From a valid state, whatever transactions follow, a job of the table stays there: with its
-- identity, its payload and its attempt budget, with no fewer attempts, and exactly as it was if it
-- had finished.
pub Reach-Later :
    {s t : System} (r : JobRun)
    → Reach s t
    → IsValid s.clock s.db
    → In r s.db.job_runs
    → (r' : JobRun) × In r' t.db.job_runs × Later r r'
Reach-Later r here v m = (r, m, Later-refl r)
Reach-Later {s} r (next {t = t} path (commits now db late tx)) v m =
    let (q, n, l) = Reach-Later r path v m in
    let (p, k, l') =
      Transaction-Later q tx (IsValid-later t.clock now t.db late (Reach-IsValid path v)) n in
    (p, k, Later-trans r q p l l')
