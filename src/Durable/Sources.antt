-- ===== src/Durable/Sources.antt =====
-- `SourceConfiguration` of src/pipelines/durable.py and the checks of a set of them. Numbers are
-- natural: a negative limit is refused as 0 is, and `retry_limit` is never negative.
pub mod Scheduled
use Prim.Native.Nat.{ℕ}
use Prim.Native.Char.{code}
use Prim.Native.String.{String, count}
use mathlib.Core.Bool.{Bool, true, false, not, ◌&&◌, ◌||◌}
use mathlib.Core.List.{List, [], ◌∷◌, map}
use text.Mathlib.Text.{◌==◌ as str_eq}
use foundation_intelligence.Common.{
  Result, ok, ◌>>=◌, ◌>>◌, raise_if, is_one_of, all_distinct, is_nil, is_blank, any, every, ltb,
  leb, ◌==◌,
}

pub data SourceError : Type 0 where
  invalid_name invalid_state incomplete limit_not_positive retry_limit_out_of_range : SourceError
  blocked_source no_sources repeated_name missing_sources : SourceError

-- The fields that the checks read.
pub record SourceConfiguration : Type 0 where
  pub source_name : String
  pub source_owner : String
  pub technical_owner : String
  pub legal_status : String
  pub licence_status : String
  pub rate_limit_per_minute : ℕ
  pub user_agent : String
  pub freshness_sla_hours : ℕ
  pub schedule_expression : String
  pub enabled : Bool
  pub governance_blocked : Bool
  pub classification : String
  pub retention_class : String
  pub schema_version : String
  pub retry_limit : ℕ
  pub timeout_seconds : ℕ
  pub maximum_pages : ℕ
  pub maximum_records : ℕ

-- `[a-z0-9]` and `[a-z0-9_-]`
abbrev pub is_name_start : ℕ → Bool
is_name_start c = (leb 97 c && leb c 122) || (leb 48 c && leb c 57)

abbrev pub is_name_rest : String → Bool
is_name_rest String.[] = true
is_name_rest (String.◌∷◌ c s) =
    (is_name_start (code c) || code c == 95 || code c == 45) && is_name_rest s

-- `SOURCE_NAME_PATTERN.fullmatch(s)`: `^[a-z0-9][a-z0-9_-]{0,79}$`
unfoldable pub is_source_name : String → Bool
is_source_name String.[] = false
is_source_name (String.◌∷◌ c s) = is_name_start (code c) && is_name_rest s && leb (count s) 79

abbrev pub legal_states : List String
legal_states = "approved" ∷ "unresolved" ∷ "restricted" ∷ "prohibited" ∷ []

abbrev pub required_text : SourceConfiguration → List String
required_text s =
    s.source_owner ∷ s.technical_owner ∷ s.user_agent ∷ s.schedule_expression ∷ s.classification
    ∷ s.retention_class ∷ s.schema_version ∷ []

abbrev pub source_limits : SourceConfiguration → List ℕ
source_limits s =
    s.rate_limit_per_minute ∷ s.freshness_sla_hours ∷ s.timeout_seconds ∷ s.maximum_pages
    ∷ s.maximum_records ∷ []

-- `SourceConfiguration.validate`
unfoldable pub validate_source : SourceConfiguration → Result SourceError (Unit {0})
validate_source s = do
  raise_if (not (is_source_name s.source_name)) invalid_name
  raise_if
      (not (is_one_of s.legal_status legal_states) || not (is_one_of s.licence_status legal_states))
      invalid_state
  raise_if (any is_blank (required_text s)) incomplete
  raise_if (any (λ n. ltb n 1) (source_limits s)) limit_not_positive
  raise_if (ltb 20 s.retry_limit) retry_limit_out_of_range
  raise_if
      (s.enabled
        && (s.governance_blocked
            || not (str_eq s.legal_status "approved")
            || not (str_eq s.licence_status "approved")))
      blocked_source

-- `for source in sources: source.validate()`
unfoldable pub validate_sources : List SourceConfiguration → Result SourceError (Unit {0})
validate_sources [] = ok tt
validate_sources (s ∷ ss) = do validate_source s; validate_sources ss

abbrev pub source_names : List SourceConfiguration → List String
source_names ss = map (λ (s : SourceConfiguration). s.source_name) ss

-- `load_source_configurations`, once the file is read
unfoldable pub load_source_configurations :
    List SourceConfiguration → Result SourceError (List SourceConfiguration)
load_source_configurations sources = do
  raise_if (is_nil sources) no_sources
  raise_if (not (all_distinct (source_names sources))) repeated_name
  validate_sources sources
  ok sources

-- `require_sources`
unfoldable pub require_sources :
    List SourceConfiguration → List String → Result SourceError (Unit {0})
require_sources sources required =
    raise_if (not (every (λ r. is_one_of r (source_names sources)) required)) missing_sources
