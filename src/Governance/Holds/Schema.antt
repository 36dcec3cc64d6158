-- ===== src/Governance/Holds/Schema.antt =====
-- The tables of alembic/versions/0001 and 0006 that the repository writes, and the failures of its
-- methods.
use Prim.Native.Nat.{ℕ}
use Prim.Native.String.{String}
use mathlib.Core.Bool.{Bool, false}
use mathlib.Core.Option.{Option, none}
use mathlib.Core.List.{List, [], ◌∷◌}
use mathlib.Core.Path.{◌≡◌, ap}
use foundation_intelligence.Common.{Result, ok, err, ok_eq}
use foundation_intelligence.Governance.Policy.{GovernanceError, date_overflow}
use foundation_intelligence.Governance.Retention.{RetentionPlanEntry}

pub record PolicyRow : Type 0 where
  pub retention_class : String
  pub classification : String
  pub policy_status : String
  pub archive_after_days : Option ℕ
  pub delete_after_days : Option ℕ
  pub export_expire_after_days : Option ℕ
  pub destructive_deletion_enabled : Bool
  pub production_approved : Bool
  pub updated_at : ℕ

pub data HoldStatus : Type 0 where
  active released expired : HoldStatus

pub record HoldRow : Type 0 where
  pub data_hold_id : String
  pub hold_type : String
  pub scope_type : String
  pub scope_id : String
  pub reason : String
  pub status : HoldStatus
  pub created_by : String
  pub created_at : ℕ
  pub expires_at : Option ℕ
  pub released_by : Option String
  pub released_at : Option ℕ
  pub release_reason : Option String

-- The columns that repeat a field of the entry are the entry.
pub record ActionRow : Type 0 where
  pub retention_action_id : String
  pub entry : RetentionPlanEntry
  pub dry_run : Bool
  pub legal_hold : Bool
  pub requested_by : String
  pub production_approved : Bool

pub record ManifestRow : Type 0 where
  pub deletion_manifest_id : String
  pub retention_action_id : String
  pub entry : RetentionPlanEntry
  pub dry_run : Bool

pub record Tables : Type 0 where
  pub policies : List PolicyRow
  pub holds : List HoldRow
  pub actions : List ActionRow
  pub manifests : List ManifestRow

-- The tables as the migration leaves them.
abbrev pub migrated : ℕ → Tables
migrated now = record {
  policies =
      record {
        retention_class = "exports";
        classification = "exports";
        policy_status = "proposed";
        archive_after_days = none;
        delete_after_days = none;
        export_expire_after_days = none;
        destructive_deletion_enabled = false;
        production_approved = false;
        updated_at = now;
      }
      ∷ [];
  holds = [];
  actions = [];
  manifests = [];
}

-- A `ValueError`, which the routes answer, and any other exception.
pub data Failure : Type 0 where
  value_error other_error : Failure

abbrev pub failure : GovernanceError → Failure
failure date_overflow = other_error
failure _ = value_error

-- `raise` of the exception that a `GovernanceError` stands for
abbrev pub raised : {A : Type 0} → Result GovernanceError A → Result Failure A
raised (ok a) = ok a
raised (err e) = err (failure e)

pub raised-ok :
    {A : Type 0} (call : Result GovernanceError A) {a : A} → raised call ≡ ok a → call ≡ ok a
raised-ok (ok a) e = ap ok (ok_eq e)
raised-ok (err x) e = cc
