-- ===== src/Jobs/Enqueue/Valid.antt =====
-- The row that `enqueue` inserts, and the invariant of Jobs/Invariant.
use Prim.Native.Nat.{ℕ, suc}
use Prim.Native.String.{String}
use mathlib.Core.Path.{◌≡◌, refl, sym, ap, ◌∙◌, subst}
use mathlib.Core.Logic.{◌⊎◌, inl, inr}
use mathlib.Core.Bool.{false}
use mathlib.Core.List.{List, [], ◌∷◌, ◌++◌, map, map-append}
use native.Mathlib.Omega.{arith}
use foundation_intelligence.Common.{
  after_check, any, All, In, In-All, All-map, ◌==◌, ok, ok_eq, >>=-eq-ok, All-append, All-mono, any,
  any_none, Distinct-append, is_blank-is_spaces,
}
use foundation_intelligence.Jobs.Errors.{duplicate_dispatch}
use foundation_intelligence.Jobs.Schema.{Db, JobRun, JobEvent, Dispatch}
use foundation_intelligence.Jobs.Events.{last_sequence}
use foundation_intelligence.Jobs.Events.Numbering.{append-Contiguous}
use foundation_intelligence.Jobs.Machine.Valid.{RunIsValid}
use foundation_intelligence.Jobs.Machine.Keys.{same_id, same_request, both_active}
use foundation_intelligence.Jobs.Invariant.{
  same_dispatch, Logged, run_ids, IsValid, DispatchIsValid,
}
use foundation_intelligence.Jobs.Enqueue.{
  has_outbox_id, EnqueueRequest, EnqueueReply, conflicts, new_run, insert_job, envelope_payload,
  enqueue, checked_request,
}
use foundation_intelligence.Jobs.Enqueue.Cases.{
  IsChecked, checked_request-IsChecked, enqueue_checked-cases,
}

new_run-RunIsValid :
    (now job_id : ℕ) (dataset : String) (r : EnqueueRequest)
    → IsChecked r
    → RunIsValid now (new_run now job_id dataset r)
new_run-RunIsValid now job_id dataset r c =
    let typed = is_blank-is_spaces r.job_type c.job_type in
    let queued_in = is_blank-is_spaces r.queue_name c.queue_name in ground arith

free-same_id : (run s : JobRun) → conflicts run s ≡ false → same_id s run ≡ false
free-same_id run s h = ground arith

free-same_request : (run s : JobRun) → conflicts run s ≡ false → same_request s run ≡ false
free-same_request run s h = ground arith

free-both_active : (run s : JobRun) → conflicts run s ≡ false → both_active s run ≡ false
free-both_active run s h = ground arith

-- A job without a row has no events.
last_sequence-fresh :
    (job_id : ℕ) (ids : List ℕ) (es : List JobEvent)
    → All (λ i. (i == job_id) ≡ false) ids
    → Logged ids es
    → last_sequence job_id es ≡ 0
unfolding last_sequence
last_sequence-fresh job_id ids [] free h = refl
last_sequence-fresh job_id ids (e ∷ es) free h =
    rw (In-All _ e.job_run_id ids h.0 free) (last_sequence-fresh job_id ids es free h.1)

kept_id :
    (i : ℕ) (rs : List JobRun) (run : JobRun)
    → In i (map (λ (r : JobRun). r.job_run_id) rs)
    → In i (map (λ (r : JobRun). r.job_run_id) (rs ++ run ∷ []))
kept_id i [] run m = absurd m
kept_id i (r ∷ rs) run (inl e) = inl e
kept_id i (r ∷ rs) run (inr m) = inr (kept_id i rs run m)

added_id :
    (run : JobRun) (rs : List JobRun)
    → In run.job_run_id (map (λ (r : JobRun). r.job_run_id) (rs ++ run ∷ []))
added_id run [] = inl refl
added_id run (r ∷ rs) = inr (added_id run rs)

insert_job-IsValid :
    (now job_id outbox_id : ℕ) (dataset : String) (r : EnqueueRequest) (db : Db)
    (out : Db × EnqueueReply)
    → IsChecked r
    → any (conflicts (new_run now job_id dataset r)) db.job_runs ≡ false
    → insert_job now outbox_id (new_run now job_id dataset r) r.actor_id db ≡ ok out
    → IsValid now db
    → IsValid now out.0
unfolding insert_job
insert_job-IsValid now job_id outbox_id dataset r db out c free e v =
    let run = new_run now job_id dataset r in
    let clear = any_none (conflicts run) db.job_runs free in
    let (message, _, e1) = >>=-eq-ok (envelope_payload run) _ e in
    let (unused, rest) =
      after_check (any (has_outbox_id outbox_id) db.outbox) duplicate_dispatch _ e1 in
    subst (λ (o : Db × EnqueueReply). IsValid now o.0) (ok_eq rest)
      (record {
        runs =
            All-append (RunIsValid now) db.job_runs (run ∷ []) v.runs
              (new_run-RunIsValid now job_id dataset r c, tt);
        ids =
            Distinct-append same_id db.job_runs run
              (All-mono _ _ db.job_runs (free-same_id run) clear) v.ids;
        requests =
            Distinct-append same_request db.job_runs run
              (All-mono _ _ db.job_runs (free-same_request run) clear) v.requests;
        dedupe =
            Distinct-append both_active db.job_runs run
              (All-mono _ _ db.job_runs (free-both_active run) clear) v.dedupe;
        outbox_keys =
            Distinct-append same_dispatch db.outbox _
              (any_none (has_outbox_id outbox_id) db.outbox unused) v.outbox_keys;
        dispatched =
            map-append (λ (d : Dispatch). d.job_run_id) db.outbox _
            ∙ ap (λ ids. ids ++ job_id ∷ []) v.dispatched
            ∙ sym (map-append (λ (s : JobRun). s.job_run_id) db.job_runs _);
        dispatches =
            All-append DispatchIsValid db.outbox _ v.dispatches
              ((is_blank-is_spaces r.queue_name c.queue_name, λ h. cc), tt);
        numbered = append-Contiguous db.events _ v.numbered (
            sym (
              ap suc (
                last_sequence-fresh job_id (run_ids db) db.events
                  (All-map _ _ db.job_runs (All-mono _ _ db.job_runs (free-same_id run) clear))
                  v.logged)));
        logged =
            All-append _ db.events _
              (All-mono _ _ db.events (λ e. kept_id e.job_run_id db.job_runs run) v.logged)
              (added_id run db.job_runs, tt);
      })

-- An `enqueue` that returns keeps the invariant, whatever its two SELECTs saw.
pub enqueue-IsValid :
    (now job_id outbox_id : ℕ) (seen later : List JobRun) (request : EnqueueRequest) (db : Db)
    (out : Db × EnqueueReply)
    → enqueue now job_id outbox_id seen later request db ≡ ok out
    → IsValid now db
    → IsValid now out.0
unfolding enqueue
enqueue-IsValid now job_id outbox_id seen later request db out e v =
    let (r, checked, rest) = >>=-eq-ok (checked_request request) _ e in
    elim (enqueue_checked-cases now job_id outbox_id seen later r db out rest) [
      | inl (same, _) ↦ subst (IsValid now) (sym same) v
      | inr (dataset, free, inserted) ↦
          insert_job-IsValid now job_id outbox_id dataset r db out
            (checked_request-IsChecked request r checked) free inserted v
    ]

-- It leaves the table as it is, or adds one row at the end.
pub enqueue-runs :
    (now job_id outbox_id : ℕ) (seen later : List JobRun) (request : EnqueueRequest) (db : Db)
    (out : Db × EnqueueReply)
    → enqueue now job_id outbox_id seen later request db ≡ ok out
    → (out.0 ≡ db) ⊎ ((run : JobRun) × (out.0.job_runs ≡ db.job_runs ++ run ∷ []))
unfolding enqueue insert_job
enqueue-runs now job_id outbox_id seen later request db out e =
    let (r, checked, rest) = >>=-eq-ok (checked_request request) _ e in
    elim (enqueue_checked-cases now job_id outbox_id seen later r db out rest) [
      | inl (same, _) ↦ inl same
      | inr (dataset, free, inserted) ↦
          let run = new_run now job_id dataset r in
          let (message, _, rest) = >>=-eq-ok (envelope_payload run) _ inserted in
          let (_, done) =
            after_check (any (has_outbox_id outbox_id) db.outbox) duplicate_dispatch _ rest in
          inr (run, sym (ap (λ (o : Db × EnqueueReply). o.0.job_runs) (ok_eq done)))
    ]
