-- ===== src/Jobs/Claim/Order.antt =====
-- The order in which `claim` of src/bff/postgres/job_repository.py hands out jobs.
use Prim.Native.Nat.{ℕ}
use Prim.Native.String.{String}
use mathlib.Core.Path.{◌≡◌, refl, ap, ◌∙◌, subst}
use mathlib.Core.Logic.{◌≢◌, inl, inr}
use mathlib.Core.Bool.{Bool, true, false}
use mathlib.Core.Option.{Option, none, some}
use mathlib.Core.List.{List}
use native.Mathlib.Omega.{arith}
use foundation_intelligence.Common.{
  ok, strip, ◌==◌, Option-cases, All, In, In-All, In-update, select-All, select_nil, least-least,
  least-none, Distinct,
}
use foundation_intelligence.Jobs.Schema.{Db, JobRun, is_queued}
use foundation_intelligence.Jobs.Claim.{
  candidate, claimable, claimed_run, requested_earlier, claim_checked, claim_run, claim_idle, claim,
}
use foundation_intelligence.Jobs.Machine.Keys.{same_id}
use foundation_intelligence.Jobs.Refines.{candidate-claimable, only_row}
use foundation_intelligence.Jobs.Advances.{Advances-IsValid}
use foundation_intelligence.Jobs.Advances.Running.{claim-eq-ok, claim-Advances}
use foundation_intelligence.Jobs.Invariant.{IsValid}

-- Nothing free was requested before `r`.
abbrev pub IsOldest : String → (ℕ → Bool) → List JobRun → JobRun → Type 0
IsOldest queue locked rs r =
    All (λ s. claimable queue locked s ≡ true → requested_earlier s r ≡ false) rs

-- What a claim promises, by its answer.
abbrev pub Claims : ℕ → (ℕ → Bool) → String → ℕ → Db → Db × Option JobRun → Type 0
Claims now locked queue lease db (db', none) =
    All (λ s. claimable queue locked s ≡ false) db.job_runs × (db'.job_runs ≡ db.job_runs)
Claims now locked queue lease db (db', some run) =
    (r : JobRun) × In r db.job_runs
    × (claimable queue locked r ≡ true)
    × IsOldest queue locked db.job_runs r
    × (run ≡ claimed_run now lease r)
    × In run db'.job_runs

earlier_trans :
    (r s t : JobRun)
    → requested_earlier r s ≡ false
    → requested_earlier s t ≡ false
    → requested_earlier r t ≡ false
earlier_trans r s t h k = ground arith

earlier_asym : (r s : JobRun) → requested_earlier r s ≡ true → requested_earlier s r ≡ false
earlier_asym r s h = ground arith

earlier_irrefl : (r : JobRun) → requested_earlier r r ≡ false
earlier_irrefl r = ground arith

candidate-IsOldest :
    (queue : String) (locked : ℕ → Bool) (rs : List JobRun) (r : JobRun)
    → candidate queue locked rs ≡ some r
    → IsOldest queue locked rs r
unfolding candidate
candidate-IsOldest queue locked rs r e =
    select-All (λ s. requested_earlier s r ≡ false) (claimable queue locked) rs
      (least-least requested_earlier earlier_trans earlier_asym earlier_irrefl r _ e)

candidate-none :
    (queue : String) (locked : ℕ → Bool) (rs : List JobRun)
    → candidate queue locked rs ≡ none
    → All (λ s. claimable queue locked s ≡ false) rs
unfolding candidate
candidate-none queue locked rs e =
    select_nil (claimable queue locked) rs (least-none requested_earlier _ e)

claim_run-In :
    (now : ℕ) (worker queue : String) (lease : ℕ) (r : JobRun) (db : Db)
    → In r db.job_runs
    → In (claimed_run now lease r) (claim_run now worker queue lease r db).0.job_runs
unfolding claim_run
claim_run-In now worker queue lease r db m =
    In-update (λ s. s.job_run_id == r.job_run_id) (claimed_run now lease) r db.job_runs m
      (ground arith)

claim_run-some :
    (now : ℕ) (worker queue : String) (lease : ℕ) (r : JobRun) (db : Db)
    → (claim_run now worker queue lease r db).1 ≡ some (claimed_run now lease r)
unfolding claim_run
claim_run-some now worker queue lease r db = refl

checked-Claims :
    (now : ℕ) (locked : ℕ → Bool) (worker queue : String) (lease : ℕ) (db : Db)
    → Claims now locked queue lease db (claim_checked now locked worker queue lease db)
unfolding claim_idle claim_checked claim_run
checked-Claims now locked worker queue lease db =
    elim (Option-cases (candidate queue locked db.job_runs)) [
      | inl idle ↦ rw (idle, claim_checked) (candidate-none queue locked db.job_runs idle, refl)
      | inr (r, e) ↦
          let (m, c) = candidate-claimable queue locked db.job_runs r e in
          rw (e, claim_checked)
            (
              r,
              m,
              c,
              candidate-IsOldest queue locked db.job_runs r e,
              refl,
              claim_run-In now worker queue lease r db m,
            )
    ]

-- A claim that returns a job has taken the oldest free job of its queue, by the request time and
-- then the id, and made it running with a lease; one that returns none has found none free.
pub claim-Claims :
    (now : ℕ) (locked : ℕ → Bool) (worker queue : String) (lease : ℕ) (db : Db)
    (out : Db × Option JobRun)
    → claim now locked worker queue lease db ≡ ok out
    → Claims now locked (strip queue) lease db out
claim-Claims now locked worker queue lease db out e =
    subst (Claims now locked (strip queue) lease db)
      (claim-eq-ok now locked worker queue lease db out e)
      (checked-Claims now locked (strip worker) (strip queue) lease db)

claimed_differs :
    (now later : ℕ) (locked : ℕ → Bool) (queue : String) (lease lease' : ℕ) (r : JobRun)
    (db db' : Db) (run : JobRun)
    → Distinct same_id db.job_runs
    → In (claimed_run now lease r) db.job_runs
    → Claims later locked queue lease' db (db', some run)
    → run.job_run_id ≢ r.job_run_id
claimed_differs now later locked queue lease lease' r db db' run d m (s, n, c, _, e, _) same =
    let first_claim = claimed_run now lease r in
    let hit : same_id s first_claim ≡ true = ground arith in
    let one : s ≡ first_claim =
      In-All (λ x. same_id x first_claim ≡ true → x ≡ first_claim) s db.job_runs n
        (only_row first_claim db.job_runs d m) hit in
    let queued : is_queued s.status ≡ true = ground arith in cc (one, queued)

-- In a valid database, two successive claims that both return a job return different ones, to two
-- workers as to one, whatever rows other sessions have locked.
pub claim_exclusive :
    (now later : ℕ) (locked locked' : ℕ → Bool) (worker worker' queue queue' : String)
    (lease lease' : ℕ) (db db' : Db) (run : JobRun) (out : Db) (run' : JobRun)
    → IsValid now db
    → claim now locked worker queue lease db ≡ ok (db', some run)
    → claim later locked' worker' queue' lease' db' ≡ ok (out, some run')
    → run'.job_run_id ≢ run.job_run_id
claim_exclusive now later locked locked' worker worker' queue queue' lease lease' db db' run out
      run' v e f =
    let (r, m, c, _, same, n) = claim-Claims now locked worker queue lease db (db', some run) e in
    let v' =
      Advances-IsValid (claim-Advances now locked worker queue lease db (db', some run) v e) v in
    let differs =
      claimed_differs now later locked' (strip queue') lease lease' r db' out run' v'.ids
        (subst (λ x. In x db'.job_runs) same n)
        (claim-Claims later locked' worker' queue' lease' db' (out, some run') f) in
    λ h. differs (h ∙ ap (λ (x : JobRun). x.job_run_id) same)
