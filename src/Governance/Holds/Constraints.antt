-- ===== src/Governance/Holds/Constraints.antt =====
-- Constraints of the governance tables in alembic/versions/0001 and 0006, and what this development
-- adds to them: what a dry run's action says of holds.
use Prim.Native.String.{String}
use mathlib.Core.Path.{◌≡◌}
use mathlib.Core.Logic.{◌≢◌}
use mathlib.Core.Bool.{Bool, true, false, ◌&&◌, ◌||◌, not}
use mathlib.Core.List.{List, [], ◌∷◌, map}
use text.Mathlib.Text.{◌==◌ as str_eq}
use foundation_intelligence.Common.{Distinct, is_spaces, All, In, is_one_of, is_some, is_nil, any}
use foundation_intelligence.Governance.Retention.{RetentionPlanEntry, report, held}
use foundation_intelligence.Governance.Holds.Schema.{
  PolicyRow, Tables, HoldRow, ActionRow, ManifestRow,
}
use foundation_intelligence.Governance.Holds.Lifetime.{is_active_hold, is_unexpired}
use foundation_intelligence.Governance.Holds.Policies.{is_policy_of}

-- `ck_data_hold_release`
abbrev pub release_is_complete : HoldRow → Bool
release_is_complete h =
    (is_active_hold h && not (is_some h.released_at) && not (is_some h.released_by))
    || (not (is_active_hold h) && is_some h.released_at && is_some h.released_by)

-- `ck_data_hold_scope` and `ck_data_hold_reason`
pub record IsNamed (h : HoldRow) : Type 0 where
  pub of_type : is_spaces h.scope_type ≡ false
  pub of_id : is_spaces h.scope_id ≡ false
  pub why : is_spaces h.reason ≡ false
  pub by : is_spaces h.created_by ≡ false

-- `ck_data_hold_type`, `ck_data_hold_scope`, `ck_data_hold_reason`, `ck_data_hold_release` and
-- `ck_data_hold_expiry`
abbrev pub IsHold : HoldRow → Type 0
IsHold h =
    (is_one_of h.hold_type ("legal" ∷ "incident" ∷ []) ≡ true)
    × IsNamed h
    × (release_is_complete h ≡ true)
    × (is_unexpired h.created_at h.expires_at ≡ true)

-- The entry of a held target reports it, and names the holds.
abbrev pub IsReport : RetentionPlanEntry → Type 0
IsReport e = e.hold_ids ≢ [] → (e.action_type ≡ report) × (e.status ≡ held)

abbrev pub IsDryAction : ActionRow → Type 0
IsDryAction a =
    (a.dry_run ≡ true)
    × (a.production_approved ≡ false)
    × (a.legal_hold ≡ not (is_nil a.entry.hold_ids))
    × IsReport a.entry
    × (is_spaces a.entry.target_type ≡ false)
    × (is_spaces a.entry.target_id ≡ false)

-- `fk_retention_action_policy`
abbrev pub HasPolicy : List PolicyRow → ActionRow → Type 0
HasPolicy policies a = any (is_policy_of a.entry.retention_class) policies ≡ true

abbrev pub hold_keys : Tables → List String
hold_keys db = map (λ (h : HoldRow). h.data_hold_id) db.holds

abbrev pub action_keys : Tables → List String
action_keys db = map (λ (a : ActionRow). a.retention_action_id) db.actions

abbrev pub manifest_keys : Tables → List String
manifest_keys db = map (λ (m : ManifestRow). m.deletion_manifest_id) db.manifests

-- `fk_deletion_manifest_action`, and the manifest is that of its action.
abbrev pub IsManifestOf : List ActionRow → ManifestRow → Type 0
IsManifestOf actions m =
    (m.dry_run ≡ true)
    × ((a : ActionRow) × In a actions
        × (a.retention_action_id ≡ m.retention_action_id)
        × (a.entry ≡ m.entry))

pub record IsSound (db : Tables) : Type 0 where
  pub holds : All IsHold db.holds
  pub actions : All IsDryAction db.actions
  pub policed : All (HasPolicy db.policies) db.actions
  pub manifests : All (IsManifestOf db.actions) db.manifests
  pub hold_ids : Distinct str_eq (hold_keys db)
  pub action_ids : Distinct str_eq (action_keys db)
  pub manifest_ids : Distinct str_eq (manifest_keys db)
