-- ===== src/Durable/Sources/Scheduled.antt =====
-- Validated source configurations of src/pipelines/durable.py.
use Prim.Native.Nat.{ℕ, ◌≤◌}
use mathlib.Core.Path.{◌≡◌, subst}
use mathlib.Core.Bool.{true, false, not, ◌&&◌, ◌||◌}
use mathlib.Core.List.{List, [], ◌∷◌}
use text.Mathlib.Text.{◌==◌ as str_eq}
use text.Mathlib.TextEquality.{eq_iff}
use native.Mathlib.Omega.{arith}
use foundation_intelligence.Common.{
  ok, ok_eq, >>-ok, after_check, raise_if-ok, is_one_of, all_distinct, is_nil, is_blank, any,
  any_none, All, All-mono, ltb,
}
use foundation_intelligence.Durable.Sources.{
  SourceConfiguration, validate_source, validate_sources, load_source_configurations, source_names,
  is_source_name, legal_states, required_text, source_limits, invalid_name, invalid_state,
  incomplete, limit_not_positive, retry_limit_out_of_range, blocked_source, no_sources,
  repeated_name,
}

-- A source that may be scheduled is not blocked and has both approvals.
pub record IsSchedulable (s : SourceConfiguration) : Type 0 where
  pub name : is_source_name s.source_name ≡ true
  pub texts : All (λ t. is_blank t ≡ false) (required_text s)
  pub limits : All (λ n. 1 ≤ n) (source_limits s)
  pub retries : s.retry_limit ≤ 20
  pub approved :
      s.enabled ≡ true
      → (s.governance_blocked ≡ false)
        × (s.legal_status ≡ "approved")
        × (s.licence_status ≡ "approved")

positive : (n : ℕ) → ltb n 1 ≡ false → 1 ≤ n
positive n h = ground arith

scheduled :
    (s : SourceConfiguration)
    → (s.enabled
        && (s.governance_blocked
            || not (str_eq s.legal_status "approved")
            || not (str_eq s.licence_status "approved")))
      ≡ false
    → s.enabled ≡ true
    → (s.governance_blocked ≡ false)
      × (s.legal_status ≡ "approved")
      × (s.licence_status ≡ "approved")
scheduled s h on = (
  ground arith,
  ground (arith, eq_iff s.legal_status "approved"),
  ground (arith, eq_iff s.licence_status "approved"),
)

validate_source-IsSchedulable :
    (s : SourceConfiguration) → validate_source s ≡ ok tt → IsSchedulable s
unfolding validate_source
validate_source-IsSchedulable s e =
    let (name, e1) = after_check (not (is_source_name s.source_name)) invalid_name _ e in
    let (_, e2) =
      after_check
        (not (is_one_of s.legal_status legal_states)
          || not (is_one_of s.licence_status legal_states))
        invalid_state _ e1 in
    let (texts, e3) = after_check (any is_blank (required_text s)) incomplete _ e2 in
    let (limits, e4) = after_check (any (λ n. ltb n 1) (source_limits s)) limit_not_positive _ e3 in
    let (retries, e5) = after_check (ltb 20 s.retry_limit) retry_limit_out_of_range _ e4 in
    record {
      name = ground arith;
      texts = any_none is_blank (required_text s) texts;
      limits =
          All-mono _ _ (source_limits s) positive
            (any_none (λ n. ltb n 1) (source_limits s) limits);
      retries = ground arith;
      approved = scheduled s (raise_if-ok _ blocked_source tt e5);
    }

validate_sources-All :
    (ss : List SourceConfiguration) → validate_sources ss ≡ ok tt → All IsSchedulable ss
unfolding validate_sources
validate_sources-All [] e = tt
validate_sources-All (s ∷ ss) e =
    let (one, rest) = >>-ok (validate_source s) (validate_sources ss) e in
    (validate_source-IsSchedulable s one, validate_sources-All ss rest)

-- The configurations that are loaded are at least one, have distinct names, and each is complete,
-- within its bounds, and scheduled only if it is not blocked and its legal and licence states are
-- both approved.
pub load_source_configurations-All :
    (sources loaded : List SourceConfiguration)
    → load_source_configurations sources ≡ ok loaded
    → (is_nil loaded ≡ false)
      × (all_distinct (source_names loaded) ≡ true)
      × All IsSchedulable loaded
unfolding load_source_configurations
load_source_configurations-All sources loaded e =
    let (some_source, e1) = after_check (is_nil sources) no_sources _ e in
    let (distinct, e2) =
      after_check (not (all_distinct (source_names sources))) repeated_name _ e1 in
    let (valid, e3) = >>-ok (validate_sources sources) (ok sources) e2 in
    subst
      (λ ss. (is_nil ss ≡ false) × (all_distinct (source_names ss) ≡ true) × All IsSchedulable ss)
      (ok_eq e3) (some_source, ground arith, validate_sources-All sources valid)
