-- ===== src/Governance/Policy.antt =====
-- The configuration of src/governance/retention.py. Day counts are natural: a negative window is
-- refused as 0 is. A mapping that is only asked for its keys is the list of its keys. Fields that no
-- check reads are left out.
use Prim.Native.Nat.{ℕ, zero, suc}
use Prim.Native.String.{String}
use mathlib.Core.Bool.{Bool, true, false, ◌||◌, not}
use mathlib.Core.Option.{Option, none, some}
use mathlib.Core.List.{List, [], ◌∷◌, map}
use text.Mathlib.Text.{◌==◌ as str_eq}
use foundation_intelligence.Common.{
  Result, ok, ◌>>◌, raise_if, is_blank, is_one_of, all_distinct, is_nil, every, coalesce, is_some,
  if◌then◌else◌,
}

pub data GovernanceError : Type 0 where
  missing_identity invalid_exposure invalid_window : GovernanceError
  invalid_status deletion_enabled activation_approved missing_classifications : GovernanceError
  repeated_retention_class deletion_window_set missing_owners : GovernanceError
  restore_not_required no_exposure_policies no_subject_workflow : GovernanceError
  naive_timestamp unknown_retention_class missing_target invalid_checksum date_overflow :
      GovernanceError

pub record ClassificationPolicy : Type 0 where
  pub classification : String
  pub retention_class : String
  pub exposure : String
  pub archive_after_days : Option ℕ
  pub delete_after_days : Option ℕ
  pub export_expire_after_days : Option ℕ

-- `value is not None and value < 1`
abbrev pub is_unset_window : Option ℕ → Bool
is_unset_window none = false
is_unset_window (some zero) = true
is_unset_window (some (suc n)) = false

-- `ClassificationPolicy.validate`
unfoldable pub validate_policy : ClassificationPolicy → Result GovernanceError (Unit {0})
validate_policy p = do
  raise_if (is_blank p.classification || is_blank p.retention_class) missing_identity
  raise_if (not (is_one_of p.exposure ("authenticated" ∷ "restricted" ∷ "internal" ∷ "never" ∷ [])))
      invalid_exposure
  raise_if (is_unset_window p.archive_after_days) invalid_window
  raise_if (is_unset_window p.delete_after_days) invalid_window
  raise_if (is_unset_window p.export_expire_after_days) invalid_window

pub record GovernanceConfiguration : Type 0 where
  pub policy_status : String
  pub destructive_deletion_enabled : Bool
  pub production_activation_approved : Bool
  pub restore_before_delete_required : Bool
  pub policies : List ClassificationPolicy
  pub data_owners : List String
  pub field_exposure_policies : List String
  pub data_subject_workflow : List String

abbrev pub required_classifications : List String
required_classifications =
    "public_organisation_data" ∷ "contact_data" ∷ "personal_email_addresses" ∷ "postal_addresses"
    ∷ "raw_source_evidence" ∷ "article_metadata" ∷ "article_content" ∷ "pipeline_logs" ∷ "exports"
    ∷ "audit_events" ∷ "derived_classifications" ∷ "enriched_profiles" ∷ "credentials"
    ∷ "user_identities" ∷ []

abbrev pub required_owners : List String
required_owners =
    "business_owner" ∷ "data_owner" ∷ "privacy_owner" ∷ "legal_owner" ∷ "security_owner"
    ∷ "technical_owner" ∷ []

-- `for policy in self.policies`
unfoldable pub validate_policies : List ClassificationPolicy → Result GovernanceError (Unit {0})
validate_policies [] = ok tt
validate_policies (p ∷ ps) = do
  validate_policy p
  raise_if (is_some p.delete_after_days) deletion_window_set
  validate_policies ps

-- `GovernanceConfiguration.validate`
unfoldable pub validate_configuration : GovernanceConfiguration → Result GovernanceError (Unit {0})
validate_configuration c = do
  raise_if (not (is_one_of c.policy_status ("proposed" ∷ "approved" ∷ "retired" ∷ [])))
      invalid_status
  raise_if c.destructive_deletion_enabled deletion_enabled
  raise_if c.production_activation_approved activation_approved
  let classifications = map (λ (p : ClassificationPolicy). p.classification) c.policies
  raise_if (not (every (λ r. is_one_of r classifications) required_classifications))
      missing_classifications
  raise_if (not (all_distinct (map (λ (p : ClassificationPolicy). p.retention_class) c.policies)))
      repeated_retention_class
  validate_policies c.policies
  raise_if (not (every (λ o. is_one_of o c.data_owners) required_owners)) missing_owners
  raise_if (not c.restore_before_delete_required) restore_not_required
  raise_if (is_nil c.field_exposure_policies) no_exposure_policies
  raise_if (is_nil c.data_subject_workflow) no_subject_workflow

-- `GovernanceConfiguration.by_retention_class`, asked for one class: a later policy replaces an
-- earlier one.
unfoldable pub by_retention_class : List ClassificationPolicy → String → Option ClassificationPolicy
by_retention_class [] retention_class = none
by_retention_class (p ∷ ps) retention_class =
    coalesce (by_retention_class ps retention_class)
      (if str_eq p.retention_class retention_class then some p else none)

-- `RetentionPlanner.__init__`
unfoldable pub planner : GovernanceConfiguration → Result GovernanceError GovernanceConfiguration
planner c = do validate_configuration c; ok c
