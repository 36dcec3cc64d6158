-- ===== src/Governance/Deletion.antt =====
-- `RetentionPlanner.assert_deletion_authorized` of src/governance/retention.py.
use Prim.Native.String.{String}
use mathlib.Core.Path.{◌≡◌, subst}
use mathlib.Core.Logic.{inl, inr}
use mathlib.Core.Bool.{Bool, false, ◌&&◌, not}
use mathlib.Core.List.{List}
use text.Mathlib.Text.{◌==◌ as str_eq}
use foundation_intelligence.Common.{
  Result, ok, err, ◌>>=◌, ◌>>◌, raise_if, or_raise, ok_eq, >>-ok, raise_if-ok, is_nil, is_some,
  Option-cases,
}
use foundation_intelligence.Governance.Policy.{
  GovernanceConfiguration, by_retention_class, planner, validate_configuration, deletion_enabled,
}

-- The reasons of a `PermissionError`.
pub data Refusal : Type 0 where
  unknown_class deletion_disabled activation_missing not_administrator : Refusal
  restore_unverified held_back no_window : Refusal

pub record DeletionRequest : Type 0 where
  pub retention_class : String
  pub actor_role : String
  pub restore_verified : Bool
  pub active_hold_ids : List String

unfoldable pub assert_deletion_authorized :
    GovernanceConfiguration → DeletionRequest → Result Refusal (Unit {0})
assert_deletion_authorized c r = do
  policy ← or_raise (by_retention_class c.policies r.retention_class) unknown_class
  raise_if (not c.destructive_deletion_enabled) deletion_disabled
  raise_if (not c.production_activation_approved) activation_missing
  raise_if (not (str_eq r.actor_role "administrator")) not_administrator
  raise_if (c.restore_before_delete_required && not r.restore_verified) restore_unverified
  raise_if (not (is_nil r.active_hold_ids)) held_back
  raise_if (not (is_some policy.delete_after_days)) no_window

validated-disabled :
    (c : GovernanceConfiguration)
    → validate_configuration c ≡ ok tt
    → c.destructive_deletion_enabled ≡ false
unfolding validate_configuration
validated-disabled c e =
    raise_if-ok c.destructive_deletion_enabled deletion_enabled tt
      (>>-ok (raise_if c.destructive_deletion_enabled deletion_enabled) _ (>>-ok _ _ e).1).0

-- A planner that was constructed, whose configuration was thus validated, refuses every deletion.
pub planner-Refusal :
    (c p : GovernanceConfiguration) (r : DeletionRequest)
    → planner c ≡ ok p
    → (reason : Refusal) × (assert_deletion_authorized p r ≡ err reason)
unfolding planner assert_deletion_authorized
planner-Refusal c p r e =
    let (valid, same) = >>-ok (validate_configuration c) (ok c) e in
    let off : p.destructive_deletion_enabled ≡ false =
      subst (λ (x : GovernanceConfiguration). x.destructive_deletion_enabled ≡ false) (ok_eq same)
        (validated-disabled c valid) in
    elim (Option-cases (by_retention_class p.policies r.retention_class)) [
      | inl unknown ↦ (unknown_class, rw unknown)
      | inr (q, found) ↦ (deletion_disabled, rw found (rw off))
    ]
