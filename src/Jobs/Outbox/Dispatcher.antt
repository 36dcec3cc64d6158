-- ===== src/Jobs/Outbox/Dispatcher.antt =====
-- The report of `OutboxDispatcher.run_once` of src/pipelines/durable_worker.py.
use Prim.Native.Nat.{ℕ, ◌+◌}
use Prim.Native.String.{String}
use mathlib.Core.Path.{◌≡◌, refl, sym, ◌∙◌, subst}
use mathlib.Core.Logic.{inl, inr}
use mathlib.Core.Bool.{false}
use mathlib.Core.Option.{some}
use mathlib.Core.List.{List, [], ◌∷◌, map}
use native.Mathlib.Omega.{arith}
use foundation_intelligence.Common.{
  Distinct-take, Distinct-sort_by, Distinct-select, ok_eq, >>=-eq-ok, or_raise, update-All,
  All-update, All-mono, Distinct, Result, ok, err, truncate, Bool-cases, ◌>>=◌, ◌==◌, All,
  sort_by-All, take-All, select-keeps, map-In, In, first, update, map-update,
}
use foundation_intelligence.Jobs.Schema.{Db, Dispatch, DispatchStatus}
use foundation_intelligence.Jobs.Errors.{JobError, unknown_dispatch}
use foundation_intelligence.Jobs.Claim.{published_dispatch}
use foundation_intelligence.Jobs.Invariant.{same_dispatch}
use foundation_intelligence.Jobs.Outbox.{
  is_due, created_earlier, bounded_limit, due_dispatches, mark_dispatch_published,
  mark_dispatch_failed, status_after_failure, failed_dispatch, unsent_with, Publishing, accepted,
  refused, DispatchReport, counted_failure, dispatch_one, dispatch_all, run_dispatcher,
}

abbrev pub outbox_ids : Db → List ℕ
outbox_ids db = map (λ (d : Dispatch). d.outbox_id) db.outbox

abbrev pub accepts : Publishing → ℕ
accepts (accepted message_id) = 1
accepts (refused error_class) = 0

abbrev pub refuses : Publishing → ℕ
refuses (accepted message_id) = 0
refuses (refused error_class) = 1

-- How often the queue answered so.
abbrev pub tally : (Dispatch → ℕ) → List Dispatch → ℕ
tally f [] = 0
tally f (d ∷ ds) = f d + tally f ds

-- No row with this id waits to be published any more.
abbrev pub IsSent : ℕ → Db → Type 0
IsSent id db = All (λ d. unsent_with id d ≡ false) db.outbox

counted_failure-report :
    (s : DispatchStatus) (r : DispatchReport)
    → let r' = counted_failure s r in
      (r'.published ≡ r.published) × (r'.failed + r'.dead_lettered ≡ r.failed + r.dead_lettered + 1)
unfolding counted_failure
counted_failure-report DispatchStatus.dead_lettered r = (refl, omega arith)
counted_failure-report _ r = (refl, omega arith)

first-some :
    (id : ℕ) (ds : List Dispatch)
    → In id (map (λ (d : Dispatch). d.outbox_id) ds)
    → (d : Dispatch) × (first (λ (d : Dispatch). d.outbox_id == id) ds ≡ some d)
first-some id [] m = absurd m
first-some id (d ∷ ds) (inl e) = (d, ground arith)
first-some id (d ∷ ds) (inr m) = elim (Bool-cases (d.outbox_id == id)) [
  | inl hit ↦ (d, rw hit)
  | inr miss ↦ let (f, h) = first-some id ds m in (f, rw miss h)
]

mark_failed-total :
    (now outbox_id : ℕ) (error : String) (delay maximum : ℕ) (db : Db)
    → In outbox_id (outbox_ids db)
    → (out : Db × DispatchStatus) × (mark_dispatch_failed now outbox_id error delay maximum db
        ≡ ok out)
      × (outbox_ids out.0 ≡ outbox_ids db)
unfolding mark_dispatch_failed
mark_failed-total now outbox_id error delay maximum db m =
    let (row, found) = first-some outbox_id db.outbox m in
    let attempts = row.publish_attempts + 1 in
    let status = status_after_failure attempts maximum in
    let failed = failed_dispatch now attempts status delay error in
    (
      (record db { outbox = update (λ d. d.outbox_id == outbox_id) failed db.outbox }, status),
      rw found,
      map-update (λ (d : Dispatch). d.outbox_id) (λ d. d.outbox_id == outbox_id) failed db.outbox
          (λ d. refl),
    )

mark_published-ids :
    (now outbox_id : ℕ) (message : String) (db : Db)
    → outbox_ids (mark_dispatch_published now outbox_id message db).0 ≡ outbox_ids db
unfolding mark_dispatch_published
mark_published-ids now outbox_id message db =
    map-update (λ (d : Dispatch). d.outbox_id) (unsent_with outbox_id)
      (published_dispatch now (truncate 200 message)) db.outbox (λ d. refl)

mark_published-IsSent :
    (now outbox_id : ℕ) (message : String) (db : Db)
    → IsSent outbox_id (mark_dispatch_published now outbox_id message db).0
unfolding mark_dispatch_published
mark_published-IsSent now outbox_id message db =
    update-All (λ d. unsent_with outbox_id d ≡ false) (unsent_with outbox_id)
      (published_dispatch now (truncate 200 message)) db.outbox (λ d hit. ground arith)
      (λ d miss. miss)

mark_published-keeps :
    (now outbox_id id : ℕ) (message : String) (db : Db)
    → IsSent id db
    → IsSent id (mark_dispatch_published now outbox_id message db).0
unfolding mark_dispatch_published
mark_published-keeps now outbox_id id message db h =
    All-update (λ d. unsent_with id d ≡ false) (unsent_with outbox_id)
      (published_dispatch now (truncate 200 message)) db.outbox (λ d k hit. ground arith) h

mark_failed-keeps :
    (now outbox_id id : ℕ) (error : String) (delay maximum : ℕ) (db : Db)
    (out : Db × DispatchStatus)
    → mark_dispatch_failed now outbox_id error delay maximum db ≡ ok out
    → (outbox_id == id) ≡ false
    → IsSent id db
    → IsSent id out.0
unfolding mark_dispatch_failed
mark_failed-keeps now outbox_id id error delay maximum db out e other h =
    let (row, found, rest) =
      >>=-eq-ok
        (or_raise (first (λ (d : Dispatch). d.outbox_id == outbox_id) db.outbox) unknown_dispatch) _
        e in
    let attempts = row.publish_attempts + 1 in
    subst (λ (o : Db × DispatchStatus). IsSent id o.0) (ok_eq rest)
      (All-update (λ d. unsent_with id d ≡ false) (λ d. d.outbox_id == outbox_id)
        (failed_dispatch now attempts (status_after_failure attempts maximum) delay error) db.outbox
        (λ d k hit. ground arith) h)

-- What a pass over some dispatches does to the table and to the report.
pub record Passed (publish : Dispatch → Publishing) (ds : List Dispatch) (db db' : Db)
    (r r' : DispatchReport) : Type 0 where
  pub ids : outbox_ids db' ≡ outbox_ids db
  pub published : r'.published ≡ r.published + tally (λ d. accepts (publish d)) ds
  pub refused_ones :
      r'.failed + r'.dead_lettered
      ≡ r.failed + r.dead_lettered + tally (λ d. refuses (publish d)) ds
  pub sent : All (λ d. accepts (publish d) ≡ 1 → IsSent d.outbox_id db') ds
  pub keeps :
      (id : ℕ)
      → All (λ (d : Dispatch). (d.outbox_id == id) ≡ false) ds
      → IsSent id db
      → IsSent id db'

module _ (publish : Dispatch → Publishing) (now : Dispatch → ℕ) where
  -- A pass returns.
  abbrev Passes :
      List Dispatch → Db → DispatchReport → Result JobError (Db × DispatchReport) → Type 0
  Passes ds db r (err e) = ⊥
  Passes ds db r (ok (db', r')) = Passed publish ds db db' r r'

  dispatch_one-Passes :
      (d : Dispatch) (r : DispatchReport) (db : Db)
      → In d.outbox_id (outbox_ids db)
      → Passes (d ∷ []) db r (dispatch_one publish now d r db)
  unfolding dispatch_one
  dispatch_one-Passes d r db m = go (publish d) refl
    where
      go :
          (answer : Publishing)
          → publish d ≡ answer
          → Passes (d ∷ []) db r (elim answer [
            | accepted message_id ↦ ok (
              (mark_dispatch_published (now d) d.outbox_id message_id db).0,
              record r { published = r.published + 1 },
            )
            | refused error_class ↦
                mark_dispatch_failed (now d) d.outbox_id error_class 30 5 db
                >>= (λ marked. ok (marked.0, counted_failure marked.1 r))
          ])
      go (accepted message) e = record {
        ids = mark_published-ids (now d) d.outbox_id message db;
        published = rw e (omega arith);
        refused_ones = rw e (omega arith);
        sent = (λ _. mark_published-IsSent (now d) d.outbox_id message db, tt);
        keeps = λ id other h. mark_published-keeps (now d) d.outbox_id id message db h;
      }
      go (refused error) e =
          let (out, marked, same) = mark_failed-total (now d) d.outbox_id error 30 5 db m in
          let counted = counted_failure-report out.1 r in
          rw marked (record {
            ids = same;
            published = rw e (omega (arith, counted.0));
            refused_ones = rw e (omega (arith, counted.1));
            sent = (λ one. cc (rw e at one), tt);
            keeps = λ id other h.
                mark_failed-keeps (now d) d.outbox_id id error 30 5 db out marked other.0 h;
          })

  step-Passes :
      (one : Result JobError (Db × DispatchReport)) (d : Dispatch) (ds : List Dispatch)
      (r : DispatchReport) (db : Db)
      → All (λ e. same_dispatch d e ≡ false) ds
      → Passes (d ∷ []) db r one
      → ((r' : DispatchReport) (db' : Db)
          → outbox_ids db' ≡ outbox_ids db
          → Passes ds db' r' (dispatch_all publish now ds r' db'))
      → Passes (d ∷ ds) db r (one >>= (λ next. dispatch_all publish now ds next.1 next.0))
  step-Passes (err e) d ds r db new c rest = c
  step-Passes (ok (db', r')) d ds r db new c rest =
      chain (dispatch_all publish now ds r' db') (rest r' db' c.ids)
    where
      chain :
          (all : Result JobError (Db × DispatchReport))
          → Passes ds db' r' all
          → Passes (d ∷ ds) db r all
      chain (err e) k = k
      chain (ok (db'', r'')) k = record {
        ids = k.ids ∙ c.ids;
        published = omega (arith, k.published, c.published);
        refused_ones = omega (arith, k.refused_ones, c.refused_ones);
        sent = (
          λ one. k.keeps d.outbox_id (All-mono _ _ ds (λ e h. ground arith) new) (c.sent.0 one),
          k.sent,
        );
        keeps = λ id other h. k.keeps id other.1 (c.keeps id (other.0, tt) h);
      }

  dispatch_all-Passes :
      (ds : List Dispatch) (r : DispatchReport) (db : Db)
      → Distinct same_dispatch ds
      → All (λ d. In d.outbox_id (outbox_ids db)) ds
      → Passes ds db r (dispatch_all publish now ds r db)
  unfolding dispatch_all
  dispatch_all-Passes [] r db distinct h = record {
    ids = refl;
    published = omega arith;
    refused_ones = omega arith;
    sent = tt;
    keeps = λ id other h. h;
  }
  dispatch_all-Passes (d ∷ ds) r db distinct h =
      step-Passes (dispatch_one publish now d r db) d ds r db distinct.0
        (dispatch_one-Passes d r db h.0)
        (λ r' db' same.
          dispatch_all-Passes ds r' db' distinct.1
            (subst (λ ids. All (λ d. In d.outbox_id ids) ds) (sym same) h.1))

due-In :
    (now limit : ℕ) (db : Db)
    → All (λ d. In d.outbox_id (outbox_ids db)) (due_dispatches now limit db)
unfolding due_dispatches
due-In now limit db = take-All _ (bounded_limit limit) _ (
    sort_by-All created_earlier _ _
      (select-keeps _ (is_due now) db.outbox (map-In (λ (d : Dispatch). d.outbox_id) db.outbox)))

due-Distinct :
    (now limit : ℕ) (db : Db)
    → Distinct same_dispatch db.outbox
    → Distinct same_dispatch (due_dispatches now limit db)
unfolding due_dispatches
due-Distinct now limit db unique = Distinct-take same_dispatch (bounded_limit limit) _ (
    Distinct-sort_by same_dispatch (λ d e. ground arith) created_earlier _
      (Distinct-select same_dispatch (is_due now) db.outbox unique))

abbrev pub none_yet : DispatchReport
none_yet = record { published = 0; failed = 0; dead_lettered = 0 }

-- A dispatcher run over a table with unique dispatch ids never raises, whatever the queue answers.
-- Of the dispatches that it reads, it counts each one that the queue accepted as published, and each
-- one that the queue refused as failed or dead-lettered; no row of an accepted one waits to be
-- published any more, and no row is lost.
pub run_dispatcher-Passed :
    (publish : Dispatch → Publishing) (clock : Dispatch → ℕ) (now limit : ℕ) (db : Db)
    → Distinct same_dispatch db.outbox
    → (out : Db × DispatchReport) × (run_dispatcher publish clock now limit db ≡ ok out)
      × Passed publish (due_dispatches now limit db) db out.0 none_yet out.1
unfolding run_dispatcher
run_dispatcher-Passed publish clock now limit db unique =
    let distinct = due-Distinct now limit db unique in
    finish (dispatch_all publish clock (due_dispatches now limit db) none_yet db) refl (
      dispatch_all-Passes publish clock (due_dispatches now limit db) none_yet db distinct
        (due-In now limit db))
  where
    finish :
        (all : Result JobError (Db × DispatchReport))
        → dispatch_all publish clock (due_dispatches now limit db) none_yet db ≡ all
        → Passes publish clock (due_dispatches now limit db) db none_yet all
        → (out : Db × DispatchReport) × (dispatch_all publish clock
              (due_dispatches now limit db)
              none_yet
              db
            ≡ ok out)
          × Passed publish (due_dispatches now limit db) db out.0 none_yet out.1
    finish (err e) same c = absurd c
    finish (ok out) same c = (out, same, c)
