-- ===== src/Governance/Holds/Tests.antt =====
-- The governance tables in a concrete history.
use Prim.Native.Nat.{ℕ}
use Prim.Native.String.{String}
use mathlib.Core.Path.{◌≡◌, refl}
use mathlib.Core.Bool.{true}
use mathlib.Core.Option.{none, some}
use mathlib.Core.List.{List, [], ◌∷◌}
use native.Mathlib.Omega.{arith}
use mathlib.Core.Logic.{inr}
use foundation_intelligence.Common.{is_spaces, ok, err, strip}
use foundation_intelligence.Governance.Policy.{
  by_retention_class, validate_configuration, validate_policies, validate_policy,
}
use foundation_intelligence.Governance.Retention.{
  RetentionPlanEntry, plan, plan_candidates, plan_candidate, validate_candidate, archive_due,
  decision, applies, plan_entry,
}
use foundation_intelligence.Governance.Tests.{sample_configuration, sample_candidate, late_time}
use foundation_intelligence.Governance.Holds.Schema.{Tables, migrated, value_error}
use foundation_intelligence.Governance.Holds.Lifetime.{
  HoldRequest, hold_row, create_hold, release_hold,
}
use foundation_intelligence.Governance.Holds.DryRun.{retention_dry_run, insert_entry, record_entry}
use foundation_intelligence.Governance.Holds.Policies.{synchronize_policies}
use foundation_intelligence.Governance.Holds.Operations.{
  Operation, synchronize, create, release, dry_run, run, perform,
}
use foundation_intelligence.Governance.Holds.Kept.{IsHeldBy, dry_run-IsHeldBy}

abbrev litigation : HoldRequest
litigation = record {
  hold_type = "legal";
  scope_type = "retention_class";
  scope_id = "exports";
  reason = "litigation";
  created_by = "admin";
  expires_at = none;
}

abbrev held_db : Tables
held_db = record (migrated 1) { holds = hold_row 5 "h1" litigation ∷ [] }

abbrev new_id : ℕ → String × String
new_id n = ("a1", "m1")

abbrev later : List Operation
later = synchronize 6 sample_configuration ∷ release 7 (some "h2") "admin" "done" ∷ []

abbrev entry : RetentionPlanEntry
entry = plan_entry late_time.micros (sample_candidate "e1") ("h1" ∷ []) true

held_entry :
    retention_dry_run sample_configuration new_id "admin" 8 late_time
      (sample_candidate "e1")
      (run later held_db)
    ≡ ok (entry ∷ [], insert_entry "admin" "a1" "m1" entry (run later held_db))
unfolding retention_dry_run run perform plan plan_candidates plan_candidate validate_candidate
    archive_due decision applies by_retention_class validate_configuration validate_policies
    validate_policy strip release_hold record_entry synchronize_policies is_spaces
held_entry = refl

dry_run-IsHeldBy_example : (e : RetentionPlanEntry) × (entry ∷ [] ≡ e ∷ []) × IsHeldBy "h1" e
unfolding create_hold strip
dry_run-IsHeldBy_example =
    dry_run-IsHeldBy 5 "h1" litigation (migrated 1) held_db (hold_row 5 "h1" litigation) later
      sample_configuration new_id "admin" 8 late_time (sample_candidate "e1") (entry ∷ [])
      (insert_entry "admin" "a1" "m1" entry (run later held_db)) refl (tt, (refl, tt))
      (inr (inr (refl, refl))) (omega arith) tt held_entry

released_twice :
    release_hold 9
      (some "h1")
      "admin"
      "closed"
      (run (release 8 (some "h1") "admin" "closed" ∷ []) held_db)
    ≡ err value_error
unfolding release_hold run perform strip
released_twice = refl

-- A hold, the policies, and a dry run of what is held.
abbrev history : List Operation
history =
    create 5 "h1" litigation
    ∷ synchronize 6 sample_configuration
    ∷ dry_run sample_configuration new_id "admin" 8 late_time (sample_candidate "e1")
    ∷ []
