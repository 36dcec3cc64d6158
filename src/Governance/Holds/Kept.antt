-- ===== src/Governance/Holds/Kept.antt =====
-- Dry runs while a hold is in force.
use Prim.Native.Nat.{ℕ, ◌≤◌, ◌<◌}
use Prim.Native.String.{String}
use mathlib.Core.Path.{◌≡◌, refl, sym, ap, subst}
use mathlib.Core.Logic.{◌⊎◌, inl, inr}
use mathlib.Core.Bool.{Bool, true, false, ◌&&◌, ◌||◌}
use mathlib.Core.Option.{Option, none, some}
use mathlib.Core.List.{List, [], ◌∷◌}
use native.Mathlib.Omega.{arith}
use text.Mathlib.Text.{◌==◌ as str_eq}
use text.Mathlib.TextEquality.{eq_iff}
use text.Mathlib.TextPositions.{eq_refl}
use foundation_intelligence.Common.{
  ok, ok_eq, >>=-eq-ok, >>-ok, All, In, In-append_last, In-any, In-map, select-In, sort_by-In,
  and_intro,
}
use foundation_intelligence.Governance.Policy.{GovernanceConfiguration}
use foundation_intelligence.Governance.Retention.{
  Timestamp, RetentionCandidate, DataHold, RetentionPlanEntry, applies, plan, report, held,
}
use foundation_intelligence.Governance.Plans.{PlansAll, plan-PlansAll}
use foundation_intelligence.Governance.Holds.Schema.{Tables, HoldRow, raised, raised-ok}
use foundation_intelligence.Governance.Holds.Lifetime.{
  HoldRequest, hold_row, check_hold, is_unexpired, create_hold, active_holds, data_hold,
  is_created_before, is_in_force,
}
use foundation_intelligence.Governance.Holds.DryRun.{record_retention_plan, retention_dry_run}
use foundation_intelligence.Governance.Holds.Operations.{
  Operation, Spares, perform-In, run, run-keeps,
}

-- The hold is on the candidate itself, on its retention class, or on everything.
abbrev pub Covers : HoldRequest → RetentionCandidate → Type 0
Covers r c =
    ((r.scope_type ≡ c.target_type) × (r.scope_id ≡ c.target_id))
    ⊎ ((r.scope_type ≡ "all") × (r.scope_id ≡ "*"))
    ⊎ ((r.scope_type ≡ "retention_class") × (r.scope_id ≡ c.retention_class))

abbrev pub LastsPast : ℕ → Option ℕ → Type 0
LastsPast now none = Unit
LastsPast now (some expiry) = now < expiry

-- The entry reports the candidate as held, by this hold among others.
abbrev pub IsHeldBy : String → RetentionPlanEntry → Type 0
IsHeldBy id e = (e.action_type ≡ report) × (e.status ≡ held) × In id e.hold_ids

applies_scope :
    (r : HoldRequest) (c : RetentionCandidate)
    → Covers r c
    → ((str_eq r.scope_type c.target_type && str_eq r.scope_id c.target_id)
        || (str_eq r.scope_type "all" && str_eq r.scope_id "*")
        || (str_eq r.scope_type "retention_class" && str_eq r.scope_id c.retention_class))
      ≡ true
applies_scope r c (inl (t, i)) = rw (t, i, eq_refl c.target_type, eq_refl c.target_id) refl
applies_scope r c (inr (inl (t, i))) = rw (t, i) (or_true _)
  where
    or_true : (a : Bool) → (a || true || false) ≡ true
    or_true a = ground arith
applies_scope r c (inr (inr (t, i))) =
    ground (arith, eq_iff r.scope_type "retention_class", eq_iff r.scope_id c.retention_class)

data_hold-applies :
    (created now : ℕ) (id : String) (r : HoldRequest) (c : RetentionCandidate)
    → Covers r c
    → is_unexpired now r.expires_at ≡ true
    → applies now c (data_hold (hold_row created id r)) ≡ true
unfolding applies
data_hold-applies created now id r c covers lasts =
    and_intro _ _ refl (and_intro _ _ lasts (applies_scope r c covers))

lasts_test : (now : ℕ) (o : Option ℕ) → LastsPast now o → is_unexpired now o ≡ true
lasts_test now none h = refl
lasts_test now (some t) h = ground arith

earlier_test :
    (read_at now : ℕ) (o : Option ℕ)
    → read_at ≤ now
    → LastsPast now o
    → is_unexpired read_at o ≡ true
earlier_test read_at now none early h = refl
earlier_test read_at now (some t) early h = ground arith

PlansAll-IsHeldBy :
    (configuration : GovernanceConfiguration) (now : ℕ) (holds : List DataHold)
    (c : RetentionCandidate) (h : DataHold) (es : List RetentionPlanEntry)
    → PlansAll configuration now holds (c ∷ []) es
    → In h holds
    → applies now c h ≡ true
    → (e : RetentionPlanEntry) × (es ≡ e ∷ []) × IsHeldBy h.hold_id e
PlansAll-IsHeldBy configuration now holds c h [] planned m on = absurd planned
PlansAll-IsHeldBy configuration now holds c h (e ∷ []) ((policy, known, plans), _) m on =
    let (action, status) = plans.kept (In-any (applies now c) h holds m on) in
    (
      e,
      refl,
      (
        action,
        status,
        subst (In h.hold_id) (sym plans.hold_ids)
            (In-map (λ (x : DataHold). x.hold_id) h _ (select-In (applies now c) h holds m on)),
      ),
    )
PlansAll-IsHeldBy configuration now holds c h (e ∷ f ∷ es) (_, planned) m on = absurd planned

-- Once a hold was created, and after any later transactions none of which releases it, a dry run of
-- a candidate that the hold covers, before the hold expires, plans no archiving: if it returns, it
-- has one entry, which reports the candidate as held by this hold.
pub dry_run-IsHeldBy :
    (created : ℕ) (id : String) (r : HoldRequest) (db : Tables) (held_db : Tables) (row : HoldRow)
    (later : List Operation) (configuration : GovernanceConfiguration)
    (new_id : ℕ → String × String) (by : String) (read_at : ℕ) (now : Timestamp)
    (c : RetentionCandidate) (entries : List RetentionPlanEntry) (planned : Tables)
    → create_hold created id r db ≡ ok (held_db, row)
    → All (Spares id) later
    → Covers r c
    → read_at ≤ now.micros
    → LastsPast now.micros r.expires_at
    → retention_dry_run configuration new_id by read_at now c (run later held_db)
      ≡ ok (entries, planned)
    → (e : RetentionPlanEntry) × (entries ≡ e ∷ []) × IsHeldBy id e
unfolding create_hold retention_dry_run active_holds
dry_run-IsHeldBy created id r db held_db row later configuration new_id by read_at now c entries
      planned made spared covers early lasts dry =
    let kept = hold_row created id r in
    let there : In kept held_db.holds =
      subst (λ (x : Tables). In kept x.holds)
        (ap (λ x. x.0) (ok_eq (>>-ok (check_hold created id r db) _ made).1))
        (In-append_last kept db.holds) in
    let still =
      run-keeps (λ x. In kept x.holds) (Spares id) (λ o x y. perform-In kept o x y) later held_db
        spared there in
    let holds = active_holds read_at (run later held_db) in
    let listed : In (data_hold kept) holds = In-map data_hold kept _ (
      sort_by-In is_created_before kept _ (
        select-In (is_in_force read_at) kept _ still
          (earlier_test read_at now.micros r.expires_at early lasts))) in
    let made_plan = plan configuration (c ∷ []) holds now in
    let (es, planned, rest) = >>=-eq-ok (raised made_plan) _ dry in
    let (done, recorded, last) =
      >>=-eq-ok (record_retention_plan new_id by es 0 (run later held_db)) _ rest in
    subst (λ xs. (e : RetentionPlanEntry) × (xs ≡ e ∷ []) × IsHeldBy id e)
      (ap (λ x. x.0) (ok_eq last))
      (PlansAll-IsHeldBy configuration now.micros holds c (data_hold kept) es
        (plan-PlansAll configuration (c ∷ []) holds now es (raised-ok made_plan planned)) listed
        (data_hold-applies created now.micros id r c covers
          (lasts_test now.micros r.expires_at lasts)))
