-- ===== src/Jobs/Outbox.antt =====
-- The dispatch outbox of `PostgresJobRepository`: `due_dispatches`, `mark_dispatch_published` and
-- `mark_dispatch_failed`, and `OutboxDispatcher.run_once` of src/pipelines/durable_worker.py.
pub mod Due
pub mod Dispatcher
use Prim.Native.Nat.{ℕ, ◌+◌, ◌*◌, min, max}
use Prim.Native.String.{String}
use mathlib.Core.Bool.{Bool, true, false, ◌&&◌, ◌||◌}
use mathlib.Core.Option.{Option, none, some}
use mathlib.Core.List.{List, [], ◌∷◌}
use foundation_intelligence.Common.{
  Result, ok, err, ◌>>=◌, or_raise, ltb, leb, ◌==◌, if◌then◌else◌, any, first, select, update, take,
  sort_by, truncate,
}
use foundation_intelligence.Jobs.Schema.{Db, Dispatch, DispatchStatus, is_unsent}
use foundation_intelligence.Jobs.Errors.{JobError, unknown_dispatch}
use foundation_intelligence.Jobs.Claim.{second, published_dispatch}

-- `status IN ('pending', 'failed') AND next_attempt_at <= CURRENT_TIMESTAMP`
abbrev pub is_due : ℕ → Dispatch → Bool
is_due now d = is_unsent d.status && leb d.next_attempt_at now

-- `ORDER BY created_at, job_dispatch_outbox_id`
abbrev pub created_earlier : Dispatch → Dispatch → Bool
created_earlier d e =
    ltb d.created_at e.created_at || (d.created_at == e.created_at && ltb d.outbox_id e.outbox_id)

-- `min(max(int(limit), 1), 100)`. A negative limit is 1, as 0 is.
abbrev pub bounded_limit : ℕ → ℕ
bounded_limit limit = min (max limit 1) 100

unfoldable pub due_dispatches : ℕ → ℕ → Db → List Dispatch
due_dispatches now limit db =
    take (bounded_limit limit) (sort_by created_earlier (select (is_due now) db.outbox))

-- `job_dispatch_outbox_id=:outbox_id AND status IN ('pending', 'failed')`
abbrev pub unsent_with : ℕ → Dispatch → Bool
unsent_with outbox_id d = d.outbox_id == outbox_id && is_unsent d.status

unfoldable pub mark_dispatch_published : ℕ → ℕ → String → Db → Db × Bool
mark_dispatch_published now outbox_id message_id db = (
  record db {
    outbox =
        update (unsent_with outbox_id) (published_dispatch now (truncate 200 message_id)) db.outbox;
  },
  any (unsent_with outbox_id) db.outbox,
)

-- The status of a dispatch whose publishing failed for the `attempts`th time.
unfoldable pub status_after_failure : ℕ → ℕ → DispatchStatus
status_after_failure attempts maximum_attempts =
    if leb maximum_attempts attempts then DispatchStatus.dead_lettered else DispatchStatus.failed

abbrev pub failed_dispatch : ℕ → ℕ → DispatchStatus → ℕ → String → Dispatch → Dispatch
failed_dispatch now attempts status retry_delay_seconds error_class d = record d {
  status = status;
  publish_attempts = attempts;
  next_attempt_at = now + max 1 retry_delay_seconds * second;
  last_error_class = some (truncate 200 error_class);
}

unfoldable pub mark_dispatch_failed :
    ℕ → ℕ → String → ℕ → ℕ → Db → Result JobError (Db × DispatchStatus)
unfolding status_after_failure
mark_dispatch_failed now outbox_id error_class retry_delay_seconds maximum_attempts db = do
  row ← or_raise (first (λ d. d.outbox_id == outbox_id) db.outbox) unknown_dispatch
  let attempts = row.publish_attempts + 1
  let status = status_after_failure attempts maximum_attempts
  let failed = failed_dispatch now attempts status retry_delay_seconds error_class
  ok (record db { outbox = update (λ d. d.outbox_id == outbox_id) failed db.outbox }, status)

-- What the queue answers to `publish`.
pub data Publishing : Type 0 where
  accepted : (message_id : String) → Publishing
  refused : (error_class : String) → Publishing

pub record DispatchReport : Type 0 where
  pub published : ℕ
  pub failed : ℕ
  pub dead_lettered : ℕ

unfoldable pub counted_failure : DispatchStatus → DispatchReport → DispatchReport
counted_failure DispatchStatus.dead_lettered r = record r { dead_lettered = r.dead_lettered + 1 }
counted_failure _ r = record r { failed = r.failed + 1 }

module _ (publish : Dispatch → Publishing) (now : Dispatch → ℕ) where
  -- One pass of the loop's body. `mark_dispatch_failed` takes its default arguments.
  unfoldable pub dispatch_one :
      Dispatch → DispatchReport → Db → Result JobError (Db × DispatchReport)
  dispatch_one d report db = elim (publish d) [
    | accepted message_id ↦ ok (
      (mark_dispatch_published (now d) d.outbox_id message_id db).0,
      record report { published = report.published + 1 },
    )
    | refused error_class ↦
        mark_dispatch_failed (now d) d.outbox_id error_class 30 5 db
        >>= (λ marked. ok (marked.0, counted_failure marked.1 report))
  ]

  unfoldable pub dispatch_all :
      List Dispatch → DispatchReport → Db → Result JobError (Db × DispatchReport)
  unfolding dispatch_one
  dispatch_all [] report db = ok (db, report)
  dispatch_all (d ∷ ds) report db =
      dispatch_one d report db >>= (λ next. dispatch_all ds next.1 next.0)

-- `OutboxDispatcher.run_once`
unfoldable pub run_dispatcher :
    (Dispatch → Publishing) → (Dispatch → ℕ) → ℕ → ℕ → Db → Result JobError (Db × DispatchReport)
unfolding dispatch_all
run_dispatcher publish clock now limit db =
    dispatch_all publish clock (due_dispatches now limit db)
      (record { published = 0; failed = 0; dead_lettered = 0 }) db
