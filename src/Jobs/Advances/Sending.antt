-- ===== src/Jobs/Advances/Sending.antt =====
-- Marking a dispatch as published or failed only advances the tables.
use Prim.Native.Nat.{ℕ, ◌+◌}
use Prim.Native.String.{String}
use mathlib.Core.Path.{◌≡◌, refl, subst}
use mathlib.Core.Logic.{◌≢◌}
use mathlib.Core.List.{List, map}
use native.Mathlib.Omega.{arith}
use foundation_intelligence.Common.{
  ok, ok_eq, >>=-eq-ok, or_raise, first, All, All-update, update, map-update, truncate, ◌==◌,
}
use foundation_intelligence.Jobs.Schema.{Db, Dispatch, DispatchStatus}
use foundation_intelligence.Jobs.Errors.{unknown_dispatch}
use foundation_intelligence.Jobs.Outbox.{
  mark_dispatch_published, mark_dispatch_failed, unsent_with, status_after_failure, failed_dispatch,
}
use foundation_intelligence.Jobs.Machine.{Rows-refl}
use foundation_intelligence.Jobs.Invariant.{DispatchIsValid}
use foundation_intelligence.Jobs.Advances.{dispatch_keys, Advances, published-sent, published-valid}

pub mark_dispatch_published-Advances :
    (now outbox_id : ℕ) (message : String) (db : Db)
    → Advances now db (mark_dispatch_published now outbox_id message db).0
unfolding mark_dispatch_published
mark_dispatch_published-Advances now outbox_id message db = record {
  rows = Rows-refl now db.job_runs;
  sent = published-sent now (truncate 200 message) (unsent_with outbox_id) db.outbox;
  dispatches = published-valid now (truncate 200 message) (unsent_with outbox_id) db.outbox;
  numbered = λ c. c;
  logged = λ h. h;
}

status_after_failure-ne-published :
    (attempts maximum : ℕ) → status_after_failure attempts maximum ≢ DispatchStatus.published
unfolding status_after_failure
status_after_failure-ne-published attempts maximum = ground arith

failed-sent :
    (now attempts delay outbox_id : ℕ) (status : DispatchStatus) (error : String)
    (ds : List Dispatch)
    → map dispatch_keys (
        update (λ d. d.outbox_id == outbox_id) (failed_dispatch now attempts status delay error) ds)
      ≡ map dispatch_keys ds
failed-sent now attempts delay outbox_id status error ds =
    map-update dispatch_keys (λ d. d.outbox_id == outbox_id)
      (failed_dispatch now attempts status delay error) ds (λ d. refl)

failed-valid :
    (now attempts delay outbox_id : ℕ) (status : DispatchStatus) (error : String)
    (ds : List Dispatch)
    → status ≢ DispatchStatus.published
    → All DispatchIsValid ds
    → All DispatchIsValid (
        update (λ d. d.outbox_id == outbox_id) (failed_dispatch now attempts status delay error) ds)
failed-valid now attempts delay outbox_id status error ds h =
    All-update DispatchIsValid (λ d. d.outbox_id == outbox_id)
      (failed_dispatch now attempts status delay error) ds (λ d v hit. (v.0, λ e. absurd (h e)))

pub mark_dispatch_failed-Advances :
    (now outbox_id : ℕ) (error : String) (delay maximum : ℕ) (db : Db) (out : Db × DispatchStatus)
    → mark_dispatch_failed now outbox_id error delay maximum db ≡ ok out
    → Advances now db out.0
unfolding mark_dispatch_failed
mark_dispatch_failed-Advances now outbox_id error delay maximum db out e =
    let (row, found, rest) =
      >>=-eq-ok
        (or_raise (first (λ (d : Dispatch). d.outbox_id == outbox_id) db.outbox) unknown_dispatch) _
        e in
    let attempts = row.publish_attempts + 1 in
    let status = status_after_failure attempts maximum in
    subst (λ (o : Db × DispatchStatus). Advances now db o.0) (ok_eq rest)
      (record {
        rows = Rows-refl now db.job_runs;
        sent = failed-sent now attempts delay outbox_id status error db.outbox;
        dispatches =
            failed-valid now attempts delay outbox_id status error db.outbox
              (status_after_failure-ne-published attempts maximum);
        numbered = λ c. c;
        logged = λ h. h;
      })
