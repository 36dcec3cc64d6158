-- ===== src/Governance/Holds/Checked.antt =====
-- What the checks of src/bff/postgres/governance_repository.py leave to the constraints of its tables.
use Prim.Native.Nat.{ℕ}
use Prim.Native.String.{String}
use mathlib.Core.Path.{◌≡◌, refl}
use mathlib.Core.Bool.{true, false, ◌||◌, not}
use mathlib.Core.List.{[], ◌∷◌}
use native.Mathlib.Omega.{arith}
use foundation_intelligence.Common.{
  is_spaces, is_blank-is_spaces, ok, after_check, negated, raise_if-ok, All, is_one_of, is_blank,
  any, any_none,
}
use foundation_intelligence.Governance.Retention.{RetentionPlanEntry}
use foundation_intelligence.Governance.Holds.Schema.{Tables, value_error, other_error}
use foundation_intelligence.Governance.Holds.Lifetime.{
  HoldRequest, hold_row, is_hold, is_unexpired, check_hold,
}
use foundation_intelligence.Governance.Holds.Policies.{is_policy_of}
use foundation_intelligence.Governance.Holds.DryRun.{is_action, is_manifest, check_entry}
use foundation_intelligence.Governance.Holds.Constraints.{IsHold}

-- What the checks of an entry establish.
pub record IsAllowed (action_id manifest_id : String) (e : RetentionPlanEntry) (db : Tables)
    : Type 0 where
  pub new_action : All (λ a. is_action action_id a ≡ false) db.actions
  pub of_type : is_spaces e.target_type ≡ false
  pub of_id : is_spaces e.target_id ≡ false
  pub has_policy : any (is_policy_of e.retention_class) db.policies ≡ true
  pub new_manifest : All (λ m. is_manifest manifest_id m ≡ false) db.manifests

pub check_entry-IsAllowed :
    (action_id manifest_id : String) (e : RetentionPlanEntry) (db : Tables)
    → check_entry action_id manifest_id e db ≡ ok tt
    → IsAllowed action_id manifest_id e db
unfolding check_entry
check_entry-IsAllowed action_id manifest_id e db h =
    let (free, h1) = after_check (any (is_action action_id) db.actions) other_error _ h in
    let (named, h2) =
      after_check (is_spaces e.target_type || is_spaces e.target_id) other_error _ h1 in
    let (known, h3) =
      after_check (not (any (is_policy_of e.retention_class) db.policies)) other_error _ h2 in
    record {
      new_action = any_none (is_action action_id) db.actions free;
      of_type = ground arith;
      of_id = ground arith;
      has_policy = negated _ known;
      new_manifest =
          any_none (is_manifest manifest_id) db.manifests
            (raise_if-ok (any (is_manifest manifest_id) db.manifests) other_error tt h3);
    }

check_texts :
    (scope_type scope_id reason created_by : String)
    → (is_blank scope_type || is_blank scope_id || is_blank reason || is_blank created_by) ≡ false
    → (is_spaces scope_type ≡ false)
      × (is_spaces scope_id ≡ false)
      × (is_spaces reason ≡ false)
      × (is_spaces created_by ≡ false)
check_texts scope_type scope_id reason created_by h = (
  is_blank-is_spaces scope_type (ground arith),
  is_blank-is_spaces scope_id (ground arith),
  is_blank-is_spaces reason (ground arith),
  is_blank-is_spaces created_by (ground arith),
)

pub check_hold-IsHold :
    (now : ℕ) (id : String) (r : HoldRequest) (db : Tables)
    → check_hold now id r db ≡ ok tt
    → IsHold (hold_row now id r)
unfolding check_hold
check_hold-IsHold now id r db h =
    let (known, h1) =
      after_check (not (is_one_of r.hold_type ("legal" ∷ "incident" ∷ []))) value_error _ h in
    let (named, h2) =
      after_check
        (is_blank r.scope_type || is_blank r.scope_id || is_blank r.reason || is_blank r.created_by)
        value_error _ h1 in
    let (free, h3) = after_check (any (is_hold id) db.holds) other_error _ h2 in
    let texts = check_texts r.scope_type r.scope_id r.reason r.created_by named in
    (
      negated _ known,
      record { of_type = texts.0; of_id = texts.1; why = texts.2; by = texts.3 },
      refl,
      negated _ (raise_if-ok (not (is_unexpired now r.expires_at)) other_error tt h3),
    )

pub check_hold-new :
    (now : ℕ) (id : String) (r : HoldRequest) (db : Tables)
    → check_hold now id r db ≡ ok tt
    → All (λ h. is_hold id h ≡ false) db.holds
unfolding check_hold
check_hold-new now id r db h =
    let (_, h1) =
      after_check (not (is_one_of r.hold_type ("legal" ∷ "incident" ∷ []))) value_error _ h in
    let (_, h2) =
      after_check
        (is_blank r.scope_type || is_blank r.scope_id || is_blank r.reason || is_blank r.created_by)
        value_error _ h1 in
    any_none (is_hold id) db.holds (after_check (any (is_hold id) db.holds) other_error _ h2).0
