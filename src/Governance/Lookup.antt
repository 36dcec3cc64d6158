-- ===== src/Governance/Lookup.antt =====
-- What the construction of a `RetentionPlanner` establishes of the policies that it looks up.
use Prim.Native.Nat.{ℕ}
use Prim.Native.String.{String}
use mathlib.Core.Path.{◌≡◌, refl, subst}
use mathlib.Core.Logic.{inl, inr}
use mathlib.Core.Bool.{Bool, true, false, not}
use mathlib.Core.Option.{Option, none, some}
use mathlib.Core.List.{List, [], ◌∷◌, map}
use text.Mathlib.Text.{◌==◌ as str_eq}
use text.Mathlib.TextEquality.{eq_iff}
use native.Mathlib.Omega.{arith}
use foundation_intelligence.Common.{
  ok, ok_eq, >>-ok, raise_if-ok, after_check, Bool-cases, All, All-mono, every, is_one_of,
  all_distinct, is_some,
}
use foundation_intelligence.Governance.Policy.{
  GovernanceConfiguration, ClassificationPolicy, by_retention_class, planner, validate_policy,
  validate_policies, validate_configuration, required_classifications, required_owners,
  invalid_status, deletion_enabled, activation_approved, missing_classifications,
  repeated_retention_class, missing_owners,
}

str_eq_refl : (s : String) → str_eq s s ≡ true
str_eq_refl s = ground (arith, eq_iff s s)

-- A class without a policy is not found.
by_retention_class-none :
    (ps : List ClassificationPolicy) (s : String)
    → is_one_of s (map (λ (p : ClassificationPolicy). p.retention_class) ps) ≡ false
    → by_retention_class ps s ≡ none
unfolding by_retention_class
by_retention_class-none [] s h = refl
by_retention_class-none (p ∷ ps) s h = elim (Bool-cases (str_eq p.retention_class s)) [
  | inl hit ↦ cc (rw hit at h)
  | inr miss ↦ rw (by_retention_class-none ps s (rw miss at h)) (rw miss)
]

by_retention_class-All :
    (ps : List ClassificationPolicy)
    → all_distinct (map (λ (p : ClassificationPolicy). p.retention_class) ps) ≡ true
    → All (λ q. by_retention_class ps q.retention_class ≡ some q) ps
unfolding by_retention_class
by_retention_class-All [] d = tt
by_retention_class-All (p ∷ ps) d =
    elim (Bool-cases
      (is_one_of p.retention_class (map (λ (q : ClassificationPolicy). q.retention_class) ps))) [
        | inl again ↦ cc (rw again at d)
        | inr once ↦ (
          rw (by_retention_class-none ps p.retention_class once)
              (rw (str_eq_refl p.retention_class)),
          All-mono _ _ ps (λ q e. rw e) (by_retention_class-All ps (rw once at d)),
        )
      ]

-- A policy that a planner may use: valid, and without a deletion window.
abbrev pub IsHarmless : ClassificationPolicy → Type 0
IsHarmless p = (validate_policy p ≡ ok tt) × (p.delete_after_days ≡ none)

unset : (window : Option ℕ) → is_some window ≡ false → window ≡ none
unset none e = refl
unset (some n) e = cc

validate_policies-IsHarmless :
    (ps : List ClassificationPolicy) → validate_policies ps ≡ ok tt → All IsHarmless ps
unfolding validate_policies
validate_policies-IsHarmless [] e = tt
validate_policies-IsHarmless (p ∷ ps) e =
    let (valid, rest) = >>-ok (validate_policy p) _ e in
    let (no_window, others) = >>-ok _ (validate_policies ps) rest in
    (
      (valid, unset p.delete_after_days (raise_if-ok (is_some p.delete_after_days) _ tt no_window)),
      validate_policies-IsHarmless ps others,
    )

not-false : (b : Bool) → not b ≡ false → b ≡ true
not-false true e = refl
not-false false e = cc

every-All :
    (xs ys : List String)
    → every (λ x. is_one_of x ys) xs ≡ true
    → All (λ x. is_one_of x ys ≡ true) xs
every-All [] ys e = tt
every-All (x ∷ xs) ys e = elim (Bool-cases (is_one_of x ys)) [
  | inl hit ↦ (hit, every-All xs ys (rw hit at e))
  | inr miss ↦ cc (rw miss at e)
]

-- What a validated configuration offers.
pub record IsGoverned (c : GovernanceConfiguration) : Type 0 where
  pub lookups : All (λ p. by_retention_class c.policies p.retention_class ≡ some p) c.policies
  pub harmless : All IsHarmless c.policies
  pub covered :
      All
        (λ r. is_one_of r (map (λ (p : ClassificationPolicy). p.classification) c.policies) ≡ true)
        required_classifications
  pub owned : All (λ o. is_one_of o c.data_owners ≡ true) required_owners

validate_configuration-IsGoverned :
    (c : GovernanceConfiguration) → validate_configuration c ≡ ok tt → IsGoverned c
unfolding validate_configuration
validate_configuration-IsGoverned c e =
    let classifications = map (λ (p : ClassificationPolicy). p.classification) c.policies in
    let retention_classes = map (λ (p : ClassificationPolicy). p.retention_class) c.policies in
    let (_, e1) =
      after_check (not (is_one_of c.policy_status ("proposed" ∷ "approved" ∷ "retired" ∷ [])))
        invalid_status _ e in
    let (_, e2) = after_check c.destructive_deletion_enabled deletion_enabled _ e1 in
    let (_, e3) = after_check c.production_activation_approved activation_approved _ e2 in
    let (classes, e4) =
      after_check (not (every (λ r. is_one_of r classifications) required_classifications))
        missing_classifications _ e3 in
    let (distinct, e5) =
      after_check (not (all_distinct retention_classes)) repeated_retention_class _ e4 in
    let (policies, e6) = >>-ok (validate_policies c.policies) _ e5 in
    let (owners, _) =
      after_check (not (every (λ o. is_one_of o c.data_owners) required_owners)) missing_owners _
        e6 in
    record {
      lookups = by_retention_class-All c.policies (not-false _ distinct);
      harmless = validate_policies-IsHarmless c.policies policies;
      covered = every-All required_classifications classifications (not-false _ classes);
      owned = every-All required_owners c.data_owners (not-false _ owners);
    }

-- A planner that was constructed finds each of its policies under the policy's retention class, none
-- of them has a deletion window, every required classification has a policy, and every required
-- owner is registered.
pub planner-IsGoverned : (c p : GovernanceConfiguration) → planner c ≡ ok p → IsGoverned p
unfolding planner
planner-IsGoverned c p e =
    let (valid, same) = >>-ok (validate_configuration c) (ok c) e in
    subst IsGoverned (ok_eq same) (validate_configuration-IsGoverned c valid)
