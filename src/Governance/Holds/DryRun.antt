-- ===== src/Governance/Holds/DryRun.antt =====
-- `record_retention_plan` of src/bff/postgres/governance_repository.py, and `retention_dry_run` of
-- src/bff/postgres/governance_routes.py.
use Prim.Native.Nat.{ℕ, suc}
use Prim.Native.String.{String}
use mathlib.Core.Bool.{Bool, true, false, ◌||◌, not}
use mathlib.Core.List.{List, [], ◌∷◌, ◌++◌}
use text.Mathlib.Text.{◌==◌ as str_eq}
use foundation_intelligence.Common.{is_spaces, Result, ok, ◌>>=◌, ◌>>◌, raise_if, any, is_nil}
use foundation_intelligence.Governance.Policy.{GovernanceConfiguration}
use foundation_intelligence.Governance.Retention.{
  Timestamp, RetentionCandidate, RetentionPlanEntry, plan,
}
use foundation_intelligence.Governance.Holds.Schema.{
  ActionRow, ManifestRow, Tables, Failure, raised, other_error,
}
use foundation_intelligence.Governance.Holds.Policies.{is_policy_of}
use foundation_intelligence.Governance.Holds.Lifetime.{active_holds}

abbrev pub is_action : String → ActionRow → Bool
is_action id a = str_eq a.retention_action_id id

abbrev pub is_manifest : String → ManifestRow → Bool
is_manifest id m = str_eq m.deletion_manifest_id id

abbrev pub action_row : String → String → RetentionPlanEntry → ActionRow
action_row id by e = record {
  retention_action_id = id;
  entry = e;
  dry_run = true;
  legal_hold = not (is_nil e.hold_ids);
  requested_by = by;
  production_approved = false;
}

abbrev pub manifest_row : String → String → RetentionPlanEntry → ManifestRow
manifest_row id action_id e = record {
  deletion_manifest_id = id;
  retention_action_id = action_id;
  entry = e;
  dry_run = true;
}

-- The keys, references and checks of the two rows of an entry.
unfoldable pub check_entry :
    String → String → RetentionPlanEntry → Tables → Result Failure (Unit {0})
check_entry action_id manifest_id e db = do
  raise_if (any (is_action action_id) db.actions) other_error
  raise_if (is_spaces e.target_type || is_spaces e.target_id) other_error
  raise_if (not (any (is_policy_of e.retention_class) db.policies)) other_error
  raise_if (any (is_manifest manifest_id) db.manifests) other_error

abbrev pub insert_entry : String → String → String → RetentionPlanEntry → Tables → Tables
insert_entry by action_id manifest_id e db = record db {
  actions = db.actions ++ action_row action_id by e ∷ [];
  manifests = db.manifests ++ manifest_row manifest_id action_id e ∷ [];
}

unfoldable pub record_entry :
    String → String → String → RetentionPlanEntry → Tables → Result Failure Tables
unfolding check_entry
record_entry by action_id manifest_id e db = do
  check_entry action_id manifest_id e db
  ok (insert_entry by action_id manifest_id e db)

-- `record_retention_plan`. `new_id` makes the UUIDs of the entries.
unfoldable pub record_retention_plan :
    (ℕ → String × String) → String → List RetentionPlanEntry → ℕ → Tables → Result Failure Tables
record_retention_plan new_id by [] n db = ok db
record_retention_plan new_id by (e ∷ es) n db = do
  db' ← record_entry by (new_id n).0 (new_id n).1 e db
  record_retention_plan new_id by es (suc n) db'

-- `retention_dry_run`: the holds are read at `read_at`, by the database's clock, and the plan made
-- at `now`.
unfoldable pub retention_dry_run :
    GovernanceConfiguration
    → (ℕ → String × String)
    → String
    → ℕ
    → Timestamp
    → RetentionCandidate
    → Tables
    → Result Failure (List RetentionPlanEntry × Tables)
unfolding active_holds record_retention_plan
retention_dry_run configuration new_id by read_at now c db = do
  entries ← raised (plan configuration (c ∷ []) (active_holds read_at db) now)
  db' ← record_retention_plan new_id by entries 0 db
  ok (entries, db')
