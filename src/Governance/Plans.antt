-- ===== src/Governance/Plans.antt =====
-- What a plan of `RetentionPlanner.plan` says of each candidate, and when it is made.
use Prim.Native.Nat.{ℕ, ◌*◌, ◌+◌, ◌≤◌}
use Prim.Native.String.{String}
use mathlib.Core.Path.{◌≡◌, refl, subst}
use mathlib.Core.Logic.{inl, inr}
use mathlib.Core.Bool.{Bool, true, false}
use mathlib.Core.Option.{Option, none, some}
use mathlib.Core.List.{List, [], ◌∷◌, map}
use native.Mathlib.Omega.{arith}
use foundation_intelligence.Common.{
  ok, ok_eq, >>=-eq-ok, >>-ok, or_raise, or_raise-ok, Bool-cases, All, any, select, ltb, leb,
}
use foundation_intelligence.Governance.Policy.{
  GovernanceConfiguration, ClassificationPolicy, by_retention_class, unknown_retention_class,
}
use foundation_intelligence.Governance.Retention.{
  Timestamp, RetentionCandidate, DataHold, RetentionPlanEntry, applies, day, archive_due, decision,
  active_holds, plan_entry, plan_candidate, plan_candidates, plan, validate_candidate, report,
  archive, held,
}

-- The archive window of the policy has passed.
abbrev pub IsDue : ℕ → ℕ → Option ℕ → Type 0
IsDue now last none = ⊥
IsDue now last (some days) = last + days * day ≤ now

-- What an entry says of its candidate under a policy.
pub record Plans (now : ℕ) (holds : List DataHold) (policy : ClassificationPolicy)
    (c : RetentionCandidate) (e : RetentionPlanEntry) : Type 0 where
  pub target : (e.target_type ≡ c.target_type) × (e.target_id ≡ c.target_id)
  pub class : e.retention_class ≡ c.retention_class
  pub dry : e.dry_run ≡ true
  pub hold_ids : e.hold_ids ≡ map (λ (h : DataHold). h.hold_id) (select (applies now c) holds)
  pub kept : any (applies now c) holds ≡ true → (e.action_type ≡ report) × (e.status ≡ held)
  pub archived :
      any (applies now c) holds ≡ false
      → IsDue now c.last_modified_at.micros policy.archive_after_days
      → e.action_type ≡ archive
  pub waiting :
      e.action_type ≡ archive
      → (any (applies now c) holds ≡ false)
        × IsDue now c.last_modified_at.micros policy.archive_after_days

-- The entries, one for each candidate and in their order.
abbrev pub PlansAll :
    GovernanceConfiguration
    → ℕ
    → List DataHold
    → List RetentionCandidate
    → List RetentionPlanEntry
    → Type 0
PlansAll configuration now holds [] [] = Unit
PlansAll configuration now holds (c ∷ cs) (e ∷ es) =
    ((policy : ClassificationPolicy) × (by_retention_class configuration.policies c.retention_class
        ≡ some policy)
      × Plans now holds policy c e)
    × PlansAll configuration now holds cs es
PlansAll configuration now holds _ _ = ⊥

archive_due-IsDue :
    (now last : ℕ) (window : Option ℕ) (due : Bool)
    → archive_due now last window ≡ ok due
    → (due ≡ true → IsDue now last window) × (IsDue now last window → due ≡ true)
unfolding archive_due
archive_due-IsDue now last none due e = (λ h. cc, λ h. absurd h)
archive_due-IsDue now last (some days) due e = (λ h. ground arith, λ h. ground arith)

no_hold :
    (now : ℕ) (c : RetentionCandidate) (holds : List DataHold)
    → any (applies now c) holds ≡ false
    → active_holds now c holds ≡ []
no_hold now c [] h = refl
no_hold now c (x ∷ xs) h = elim (Bool-cases (applies now c x)) [
  | inl hit ↦ cc (rw hit at h)
  | inr miss ↦ rw miss (no_hold now c xs (rw miss at h))
]

some_hold :
    (now : ℕ) (c : RetentionCandidate) (holds : List DataHold)
    → any (applies now c) holds ≡ true
    → (id : String) × (ids : List String) × (active_holds now c holds ≡ id ∷ ids)
some_hold now c [] h = cc
some_hold now c (x ∷ xs) h = elim (Bool-cases (applies now c x)) [
  | inl hit ↦ (x.hold_id, active_holds now c xs, rw hit)
  | inr miss ↦ let (id, ids, e) = some_hold now c xs (rw miss at h) in (id, ids, rw miss e)
]

entry-Plans :
    (now : ℕ) (holds : List DataHold) (policy : ClassificationPolicy) (c : RetentionCandidate)
    (due : Bool)
    → archive_due now c.last_modified_at.micros policy.archive_after_days ≡ ok due
    → Plans now holds policy c (plan_entry now c (active_holds now c holds) due)
unfolding decision
entry-Plans now holds policy c due e =
    let is_due = archive_due-IsDue now c.last_modified_at.micros policy.archive_after_days due e in
    record {
      target = (refl, refl);
      class = refl;
      dry = refl;
      hold_ids = refl;
      kept = λ h. let (id, ids, some_ids) = some_hold now c holds h in rw some_ids (refl, refl);
      archived = λ free window. rw (no_hold now c holds free, is_due.1 window);
      waiting = λ archived. elim (Bool-cases (any (applies now c) holds)) [
        | inl on ↦
            let (id, ids, some_ids) = some_hold now c holds on in
            absurd (report-archive (rw some_ids at archived))
        | inr off ↦ (off, is_due.0 (decided due (rw (no_hold now c holds off) at archived)))
      ];
    }
  where
    report-archive : report ≡ archive → ⊥
    report-archive h = cc

    decided : (b : Bool) → (decision [] b).0 ≡ archive → b ≡ true
    decided true h = refl
    decided false h = cc

plan_candidates-PlansAll :
    (configuration : GovernanceConfiguration) (holds : List DataHold) (now : ℕ)
    (candidates : List RetentionCandidate) (entries : List RetentionPlanEntry)
    → plan_candidates configuration holds now candidates ≡ ok entries
    → PlansAll configuration now holds candidates entries
unfolding plan_candidates plan_candidate
plan_candidates-PlansAll configuration holds now [] entries e =
    subst (PlansAll configuration now holds []) (ok_eq e) tt
plan_candidates-PlansAll configuration holds now (c ∷ cs) entries e =
    let (entry, one, rest) = >>=-eq-ok (plan_candidate configuration holds now c) _ e in
    let (others, more, done) = >>=-eq-ok (plan_candidates configuration holds now cs) _ rest in
    let (valid, found) = >>-ok (validate_candidate c) _ one in
    let (policy, known, body) =
      >>=-eq-ok
        (or_raise (by_retention_class configuration.policies c.retention_class)
          unknown_retention_class)
        _ found in
    let (due, timed, made) =
      >>=-eq-ok (archive_due now c.last_modified_at.micros policy.archive_after_days) _ body in
    subst (PlansAll configuration now holds (c ∷ cs)) (ok_eq done) (
      (
        policy,
        or_raise-ok _ _ known,
        subst (Plans now holds policy c) (ok_eq made) (entry-Plans now holds policy c due timed),
      ),
      plan_candidates-PlansAll configuration holds now cs others more,
    )

-- A plan has one entry for each candidate and its class, in their order, each a dry run under the
-- candidate's own policy that names the holds that apply. A held candidate is only reported; one without a hold is
-- archived exactly if its archive window has passed; nothing is ever deleted.
pub plan-PlansAll :
    (configuration : GovernanceConfiguration) (candidates : List RetentionCandidate)
    (holds : List DataHold) (now : Timestamp) (entries : List RetentionPlanEntry)
    → plan configuration candidates holds now ≡ ok entries
    → PlansAll configuration now.micros holds candidates entries
unfolding plan
plan-PlansAll configuration candidates holds now entries e =
    plan_candidates-PlansAll configuration holds now.micros candidates entries (>>-ok _ _ e).1

-- A candidate that can be planned: it is valid, its class has a policy, and the archive window does
-- not reach back before the first date.
pub record IsPlannable (configuration : GovernanceConfiguration) (now : ℕ) (c : RetentionCandidate)
    : Type 0 where
  pub valid : validate_candidate c ≡ ok tt
  pub policy : ClassificationPolicy
  pub known : by_retention_class configuration.policies c.retention_class ≡ some policy
  pub window : (days : ℕ) → policy.archive_after_days ≡ some days → days * day ≤ now

archive_due-total :
    (now last : ℕ) (window : Option ℕ)
    → ((days : ℕ) → window ≡ some days → days * day ≤ now)
    → (due : Bool) × (archive_due now last window ≡ ok due)
unfolding archive_due
archive_due-total now last none h = (false, refl)
archive_due-total now last (some days) h =
    let fits = h days refl in
    let test : ltb now (days * day) ≡ false = ground arith in (leb (last + days * day) now, rw test)

plan_candidates-total :
    (configuration : GovernanceConfiguration) (holds : List DataHold) (now : ℕ)
    (candidates : List RetentionCandidate)
    → All (IsPlannable configuration now) candidates
    → (entries : List RetentionPlanEntry) × (plan_candidates configuration holds now candidates
        ≡ ok entries)
unfolding plan_candidates plan_candidate
plan_candidates-total configuration holds now [] h = ([], refl)
plan_candidates-total configuration holds now (c ∷ cs) h =
    let p = h.0 in
    let (due, timed) =
      archive_due-total now c.last_modified_at.micros p.policy.archive_after_days p.window in
    let (entries, rest) = plan_candidates-total configuration holds now cs h.1 in
    (
      plan_entry now c (active_holds now c holds) due ∷ entries,
      rw p.valid (rw p.known (rw timed (rw rest))),
    )

-- With a zoned time and candidates that can be planned, the planner returns a plan.
pub plan-total :
    (configuration : GovernanceConfiguration) (candidates : List RetentionCandidate)
    (holds : List DataHold) (now : Timestamp)
    → now.has_zone ≡ true
    → All (IsPlannable configuration now.micros) candidates
    → (entries : List RetentionPlanEntry) × (plan configuration candidates holds now ≡ ok entries)
unfolding plan
plan-total configuration candidates holds now zoned h =
    let (entries, e) = plan_candidates-total configuration holds now.micros candidates h in
    (entries, rw zoned e)
