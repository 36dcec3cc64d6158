-- ===== src/Governance/Retention.antt =====
-- `RetentionPlanner` of src/governance/retention.py. A time is a number of microseconds since
-- `datetime.min` in UTC; whether a `datetime` has a zone is a flag where the code asks for it.
-- Counts are natural, so that the test that they are not negative is left out.
use Prim.Native.Nat.{ℕ, ◌*◌, ◌+◌}
use Prim.Native.String.{String}
use mathlib.Core.Bool.{Bool, true, false, ◌||◌, ◌&&◌, not}
use mathlib.Core.Option.{Option, none, some}
use mathlib.Core.List.{List, [], ◌∷◌, map}
use text.Mathlib.Text.{◌==◌ as str_eq}
use foundation_intelligence.Common.{
  Result, ok, ◌>>=◌, ◌>>◌, raise_if, or_raise, is_blank, is_sha256, every, select, ltb, leb,
}
use foundation_intelligence.Governance.Policy.{
  GovernanceError, GovernanceConfiguration, by_retention_class, naive_timestamp,
  unknown_retention_class, missing_target, invalid_checksum, date_overflow,
}

pub record Timestamp : Type 0 where
  pub micros : ℕ
  pub has_zone : Bool

pub record RetentionCandidate : Type 0 where
  pub target_type : String
  pub target_id : String
  pub retention_class : String
  pub last_modified_at : Timestamp
  pub object_count : ℕ
  pub record_count : ℕ
  pub total_bytes : ℕ
  pub target_checksums : List String

-- `RetentionCandidate.validate`
unfoldable pub validate_candidate : RetentionCandidate → Result GovernanceError (Unit {0})
validate_candidate c = do
  raise_if (is_blank c.target_type || is_blank c.target_id) missing_target
  raise_if (not c.last_modified_at.has_zone) naive_timestamp
  raise_if (not (every is_sha256 c.target_checksums)) invalid_checksum

-- `expires_at` has a zone.
pub record DataHold : Type 0 where
  pub hold_id : String
  pub hold_type : String
  pub scope_type : String
  pub scope_id : String
  pub status : String
  pub expires_at : Option ℕ

-- `DataHold.applies`
unfoldable pub applies : ℕ → RetentionCandidate → DataHold → Bool
applies now c h =
    str_eq h.status "active"
    && elim h.expires_at [ none ↦ true | some t ↦ ltb now t ]
    && ((str_eq h.scope_type c.target_type && str_eq h.scope_id c.target_id)
        || (str_eq h.scope_type "all" && str_eq h.scope_id "*")
        || (str_eq h.scope_type "retention_class" && str_eq h.scope_id c.retention_class))

-- `action_type` and `status` of an entry, as the planner writes them.
pub data ActionType : Type 0 where
  report archive : ActionType

pub data PlanStatus : Type 0 where
  held reported : PlanStatus

pub record RetentionPlanEntry : Type 0 where
  pub target_type : String
  pub target_id : String
  pub retention_class : String
  pub action_type : ActionType
  pub status : PlanStatus
  pub dry_run : Bool
  pub reason : String
  pub hold_ids : List String
  pub object_count : ℕ
  pub record_count : ℕ
  pub total_bytes : ℕ
  pub target_checksums : List String
  pub generated_at : ℕ

-- `timedelta(days=1)`
abbrev pub day : ℕ
day = 86400000000

-- `archive_after_days is not None and last_modified_at <= current - timedelta(days=…)`, where the
-- subtraction raises before `datetime.min`.
unfoldable pub archive_due : ℕ → ℕ → Option ℕ → Result GovernanceError Bool
archive_due now last none = ok false
archive_due now last (some days) = do
  raise_if (ltb now (days * day)) date_overflow
  ok (leb (last + days * day) now)

-- The branches on `active_holds` and `archive_due`.
unfoldable pub decision : List String → Bool → ActionType × PlanStatus × String
decision (h ∷ hs) due = (report, held, "active_legal_or_incident_hold")
decision [] true = (archive, reported, "archive_dry_run_only")
decision [] false = (report, reported, "retention_window_not_reached")

abbrev pub active_holds : ℕ → RetentionCandidate → List DataHold → List String
active_holds now c holds = map (λ (h : DataHold). h.hold_id) (select (applies now c) holds)

abbrev pub plan_entry : ℕ → RetentionCandidate → List String → Bool → RetentionPlanEntry
plan_entry now c hold_ids due =
    let (action_type, status, reason) = decision hold_ids due in
    record {
      target_type = c.target_type;
      target_id = c.target_id;
      retention_class = c.retention_class;
      action_type = action_type;
      status = status;
      dry_run = true;
      reason = reason;
      hold_ids = hold_ids;
      object_count = c.object_count;
      record_count = c.record_count;
      total_bytes = c.total_bytes;
      target_checksums = c.target_checksums;
      generated_at = now;
    }

module _ (configuration : GovernanceConfiguration) (holds : List DataHold) (now : ℕ) where
  -- The body of the loop.
  unfoldable pub plan_candidate : RetentionCandidate → Result GovernanceError RetentionPlanEntry
  plan_candidate c = do
    validate_candidate c
    policy ←
        or_raise (by_retention_class configuration.policies c.retention_class)
          unknown_retention_class
    due ← archive_due now c.last_modified_at.micros policy.archive_after_days
    ok (plan_entry now c (active_holds now c holds) due)

  unfoldable pub plan_candidates :
      List RetentionCandidate → Result GovernanceError (List RetentionPlanEntry)
  plan_candidates [] = ok []
  plan_candidates (c ∷ cs) = do
    entry ← plan_candidate c
    entries ← plan_candidates cs
    ok (entry ∷ entries)

-- `RetentionPlanner.plan`
unfoldable pub plan :
    GovernanceConfiguration
    → List RetentionCandidate
    → List DataHold
    → Timestamp
    → Result GovernanceError (List RetentionPlanEntry)
plan configuration candidates holds now = do
  raise_if (not now.has_zone) naive_timestamp
  plan_candidates configuration holds now.micros candidates
