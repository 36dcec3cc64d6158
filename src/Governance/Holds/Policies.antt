-- ===== src/Governance/Holds/Policies.antt =====
-- `synchronize_policies` of src/bff/postgres/governance_repository.py.
use Prim.Native.Nat.{ℕ}
use Prim.Native.String.{String}
use mathlib.Core.Bool.{Bool, false, not}
use mathlib.Core.List.{List, [], ◌∷◌, ◌++◌}
use text.Mathlib.Text.{◌==◌ as str_eq}
use foundation_intelligence.Common.{
  Result, ok, ◌>>◌, raise_if, is_one_of, any, update, if◌then◌else◌,
}
use foundation_intelligence.Governance.Policy.{
  GovernanceConfiguration, ClassificationPolicy, validate_configuration,
}
use foundation_intelligence.Governance.Holds.Schema.{
  PolicyRow, Tables, Failure, raised, other_error,
}

-- The policies are written in one transaction: one row for each class, the last one written.
abbrev pub is_policy_of : String → PolicyRow → Bool
is_policy_of name row = str_eq row.retention_class name

abbrev pub upsert : PolicyRow → List PolicyRow → List PolicyRow
upsert row rows =
    if any (is_policy_of row.retention_class) rows
    then update (is_policy_of row.retention_class) (λ old. row) rows
    else rows ++ row ∷ []

-- `database_record`
abbrev pub policy_row : ℕ → String → ClassificationPolicy → PolicyRow
policy_row now status policy = record {
  retention_class = policy.retention_class;
  classification = policy.classification;
  policy_status = status;
  archive_after_days = policy.archive_after_days;
  delete_after_days = policy.delete_after_days;
  export_expire_after_days = policy.export_expire_after_days;
  destructive_deletion_enabled = false;
  production_approved = false;
  updated_at = now;
}

unfoldable pub write_policies :
    ℕ → String → List ClassificationPolicy → List PolicyRow → List PolicyRow
write_policies now status [] rows = rows
write_policies now status (p ∷ ps) rows =
    write_policies now status ps (upsert (policy_row now status p) rows)

-- The configuration is valid, and the check constraint knows its status.
unfoldable pub check_policies : GovernanceConfiguration → Result Failure (Unit {0})
check_policies configuration = do
  raised (validate_configuration configuration)
  raise_if (not (is_one_of configuration.policy_status ("proposed" ∷ "approved" ∷ "retired" ∷ [])))
      other_error

unfoldable pub synchronize_policies : ℕ → GovernanceConfiguration → Tables → Result Failure Tables
unfolding check_policies write_policies
synchronize_policies now configuration db = do
  check_policies configuration
  ok (record db {
    policies = write_policies now configuration.policy_status configuration.policies db.policies;
  })
