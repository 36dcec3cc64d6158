-- ===== src/Governance/Tests.antt =====
-- The theorems on retention at a concrete configuration.
use Prim.Native.String.{String}
use mathlib.Core.Path.{◌≡◌, refl}
use mathlib.Core.Bool.{true, false}
use mathlib.Core.Option.{none, some}
use mathlib.Core.List.{List, [], ◌∷◌, map}
use native.Mathlib.Omega.{arith}
use foundation_intelligence.Common.{ok, err, strip}
use foundation_intelligence.Governance.Policy.{
  ClassificationPolicy, GovernanceConfiguration, by_retention_class, planner,
  required_classifications, required_owners, validate_configuration, validate_policies,
  validate_policy,
}
use foundation_intelligence.Governance.Retention.{
  RetentionCandidate, DataHold, Timestamp, RetentionPlanEntry, plan, plan_candidates,
  plan_candidate, validate_candidate, archive_due, decision, applies, plan_entry,
}
use foundation_intelligence.Governance.Deletion.{
  DeletionRequest, Refusal, assert_deletion_authorized, planner-Refusal,
}
use foundation_intelligence.Governance.Plans.{PlansAll, IsPlannable, plan-PlansAll}
use foundation_intelligence.Governance.Lifecycle.{
  export_lifecycle_status, held, expiration_report_due,
}
use foundation_intelligence.Governance.Lookup.{IsGoverned, planner-IsGoverned}

abbrev pub sample_policy : String → ClassificationPolicy
sample_policy name = record {
  classification = name;
  retention_class = name;
  exposure = "internal";
  archive_after_days = some 30;
  delete_after_days = none;
  export_expire_after_days = none;
}

abbrev pub sample_configuration : GovernanceConfiguration
sample_configuration = record {
  policy_status = "proposed";
  destructive_deletion_enabled = false;
  production_activation_approved = false;
  restore_before_delete_required = true;
  policies = map sample_policy required_classifications;
  data_owners = required_owners;
  field_exposure_policies = "public" ∷ [];
  data_subject_workflow = "verify" ∷ [];
}

sample_planner : planner sample_configuration ≡ ok sample_configuration
unfolding planner validate_configuration validate_policies validate_policy strip
sample_planner = refl

planner-IsGoverned_example : IsGoverned sample_configuration
planner-IsGoverned_example =
    planner-IsGoverned sample_configuration sample_configuration sample_planner

abbrev sample_deletion : DeletionRequest
sample_deletion = record {
  retention_class = "exports";
  actor_role = "administrator";
  restore_verified = true;
  active_hold_ids = [];
}

planner-Refusal_example :
    (reason : Refusal) × (assert_deletion_authorized sample_configuration sample_deletion
      ≡ err reason)
planner-Refusal_example =
    planner-Refusal sample_configuration sample_configuration sample_deletion sample_planner

-- The 40th and the 100th day.
abbrev pub old_time : Timestamp
old_time = record { micros = 3456000000000; has_zone = true }

abbrev pub late_time : Timestamp
late_time = record { micros = 8640000000000; has_zone = true }

abbrev pub sample_candidate : String → RetentionCandidate
sample_candidate id = record {
  target_type = "export";
  target_id = id;
  retention_class = "exports";
  last_modified_at = old_time;
  object_count = 1;
  record_count = 2;
  total_bytes = 3;
  target_checksums = [];
}

abbrev sample_hold : DataHold
sample_hold = record {
  hold_id = "hold-1";
  hold_type = "legal";
  scope_type = "export";
  scope_id = "export-1";
  status = "active";
  expires_at = none;
}

abbrev sample_candidates : List RetentionCandidate
sample_candidates = sample_candidate "export-1" ∷ sample_candidate "export-2" ∷ []

abbrev sample_entries : List RetentionPlanEntry
sample_entries =
    plan_entry late_time.micros (sample_candidate "export-1") ("hold-1" ∷ []) true
    ∷ plan_entry late_time.micros (sample_candidate "export-2") [] true
    ∷ []

sample_plan :
    plan sample_configuration sample_candidates (sample_hold ∷ []) late_time ≡ ok sample_entries
unfolding plan plan_candidates plan_candidate validate_candidate archive_due decision applies
    by_retention_class strip
sample_plan = refl

plan-PlansAll_example :
    PlansAll sample_configuration late_time.micros
      (sample_hold ∷ [])
      sample_candidates
      sample_entries
plan-PlansAll_example =
    plan-PlansAll sample_configuration sample_candidates (sample_hold ∷ []) late_time sample_entries
      sample_plan

pub sample-IsPlannable :
    (id : String)
    → validate_candidate (sample_candidate id) ≡ ok tt
    → IsPlannable sample_configuration late_time.micros (sample_candidate id)
unfolding by_retention_class
sample-IsPlannable id valid = record {
  valid = valid;
  policy = sample_policy "exports";
  known = refl;
  window = λ days e. ground arith;
}

held_export : export_lifecycle_status (some 10) (some 4000000000000) old_time ≡ ok held
unfolding export_lifecycle_status
held_export = refl

due_export :
    export_lifecycle_status (some 10) (some 4000000000000) late_time ≡ ok expiration_report_due
unfolding export_lifecycle_status
due_export = refl
