-- ===== src/Jobs/Outbox/Due.antt =====
-- Which dispatches of src/bff/postgres/job_repository.py are due, and when.
use Prim.Native.Nat.{ℕ, ◌+◌, ◌*◌, ◌≤◌, ◌<◌, max}
use Prim.Native.String.{String}
use mathlib.Core.Path.{◌≡◌, refl, subst}
use mathlib.Core.Bool.{true, false}
use native.Mathlib.Omega.{arith}
use foundation_intelligence.Common.{
  In, first-In, first-hit, or_raise-ok, ok, ok_eq, or_raise, >>=-eq-ok, update-All, ◌==◌, All,
  All-select, Ordered, sort_by, sort_by-All, sort_by-Ordered, take-All, take-Ordered, length,
  length-take-le, select, first,
}
use foundation_intelligence.Jobs.Schema.{Db, Dispatch, DispatchStatus}
use foundation_intelligence.Jobs.Errors.{unknown_dispatch}
use foundation_intelligence.Jobs.Claim.{second}
use foundation_intelligence.Jobs.Outbox.{
  is_due, created_earlier, bounded_limit, due_dispatches, mark_dispatch_failed,
  status_after_failure, failed_dispatch,
}

earlier_trans :
    (d e f : Dispatch)
    → created_earlier d e ≡ false
    → created_earlier e f ≡ false
    → created_earlier d f ≡ false
earlier_trans d e f h k = ground arith

earlier_asym : (d e : Dispatch) → created_earlier d e ≡ true → created_earlier e d ≡ false
earlier_asym d e h = ground arith

-- The dispatches that are read are due, oldest first, and at most 100 of them, whatever the limit.
pub due_dispatches_lem :
    (now limit : ℕ) (db : Db)
    → let ds = due_dispatches now limit db in
      All (λ d. is_due now d ≡ true) ds × Ordered created_earlier ds × (length ds ≤ 100)
unfolding due_dispatches
due_dispatches_lem now limit db =
    let due = select (is_due now) db.outbox in
    let sorted = sort_by created_earlier due in
    let bound = bounded_limit limit in
    (
      take-All _ bound sorted
          (sort_by-All created_earlier _ due (All-select _ (is_due now) db.outbox (λ d h. h))),
      take-Ordered created_earlier bound sorted
          (sort_by-Ordered created_earlier earlier_trans earlier_asym due),
      omega (arith, length-take-le bound sorted),
    )

failed_dispatch-is_due :
    (now later attempts maximum delay : ℕ) (error : String) (d : Dispatch)
    → is_due later
        (failed_dispatch now attempts (status_after_failure attempts maximum) delay error d)
      ≡ true
    → (attempts < maximum) × (now + max 1 delay * second ≤ later)
unfolding status_after_failure
failed_dispatch-is_due now later attempts maximum delay error d h = ground arith

-- What a failure makes of the dispatches with its id: one more attempt is counted, and one that is due
-- again has waited for its delay and has attempts left.
abbrev pub RetriesLate : ℕ → ℕ → ℕ → ℕ → ℕ → Dispatch → Dispatch → Type 0
RetriesLate now later outbox_id maximum delay before d =
    (d.outbox_id == outbox_id) ≡ true
    → (d.publish_attempts ≡ before.publish_attempts + 1)
      × (is_due later d ≡ true
          → (d.publish_attempts < maximum) × (now + max 1 delay * second ≤ later))
      × (maximum ≤ d.publish_attempts → d.status ≡ DispatchStatus.dead_lettered)

failed_dispatch-dead :
    (now attempts maximum delay : ℕ) (error : String) (d : Dispatch)
    → maximum ≤ attempts
    → (failed_dispatch now attempts (status_after_failure attempts maximum) delay error d).status
      ≡ DispatchStatus.dead_lettered
unfolding status_after_failure
failed_dispatch-dead now attempts maximum delay error d over = ground arith

-- A failure of a dispatch counts one more attempt than the table had. It is not due again before its
-- delay has passed, of at least a second, and never once the attempts have reached the maximum: then
-- it is dead-lettered.
pub mark_dispatch_failed-RetriesLate :
    (now later outbox_id : ℕ) (error : String) (delay maximum : ℕ) (db : Db)
    (out : Db × DispatchStatus)
    → mark_dispatch_failed now outbox_id error delay maximum db ≡ ok out
    → (before : Dispatch) × In before db.outbox
      × ((before.outbox_id == outbox_id) ≡ true)
      × All (RetriesLate now later outbox_id maximum delay before) out.0.outbox
unfolding mark_dispatch_failed
mark_dispatch_failed-RetriesLate now later outbox_id error delay maximum db out e =
    let (row, found, rest) =
      >>=-eq-ok
        (or_raise (first (λ (d : Dispatch). d.outbox_id == outbox_id) db.outbox) unknown_dispatch) _
        e in
    let there = or_raise-ok _ _ found in
    let attempts = row.publish_attempts + 1 in
    (
      row,
      first-In (λ (d : Dispatch). d.outbox_id == outbox_id) row db.outbox there,
      first-hit (λ (d : Dispatch). d.outbox_id == outbox_id) db.outbox there,
      subst
          (λ (o : Db × DispatchStatus).
            All (RetriesLate now later outbox_id maximum delay row) o.0.outbox)
          (ok_eq rest)
          (update-All (RetriesLate now later outbox_id maximum delay row)
            (λ d. d.outbox_id == outbox_id)
            (failed_dispatch now attempts (status_after_failure attempts maximum) delay error)
            db.outbox
            (λ d hit _. (
              refl,
              failed_dispatch-is_due now later attempts maximum delay error d,
              failed_dispatch-dead now attempts maximum delay error d,
            ))
            (λ d miss hit. cc)),
    )
