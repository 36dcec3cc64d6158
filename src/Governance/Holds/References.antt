-- ===== src/Governance/Holds/References.antt =====
-- The policies that `synchronize_policies` of src/bff/postgres/governance_repository.py leaves: what
-- refers to a policy of a class finds it after any synchronization.
use Prim.Native.Nat.{ℕ}
use Prim.Native.String.{String}
use mathlib.Core.Path.{◌≡◌, sym, ◌∙◌}
use mathlib.Core.Logic.{inl, inr}
use mathlib.Core.Bool.{Bool, true}
use mathlib.Core.List.{List, [], ◌∷◌, ◌++◌}
use text.Mathlib.TextEquality.{eq_iff}
use foundation_intelligence.Common.{any, update, Bool-cases}
use foundation_intelligence.Governance.Policy.{ClassificationPolicy}
use foundation_intelligence.Governance.Holds.Schema.{PolicyRow}
use foundation_intelligence.Governance.Holds.Policies.{
  is_policy_of, policy_row, upsert, write_policies,
}

any-append :
    (p : PolicyRow → Bool) (rows : List PolicyRow) (row : PolicyRow)
    → any p rows ≡ true
    → any p (rows ++ row ∷ []) ≡ true
any-append p [] row h = cc
any-append p (x ∷ rows) row h = elim (Bool-cases (p x)) [
  | inl hit ↦ rw hit
  | inr miss ↦ rw miss (any-append p rows row (rw miss at h))
]

-- A row that replaces those of its class is one of the class.
any-replaced :
    (name : String) (row : PolicyRow) (rows : List PolicyRow)
    → any (is_policy_of name) rows ≡ true
    → any (is_policy_of name) (update (is_policy_of row.retention_class) (λ old. row) rows) ≡ true
any-replaced name row [] h = cc
any-replaced name row (x ∷ rows) h = elim (Bool-cases (is_policy_of row.retention_class x)) [
  | inl replaced ↦ elim (Bool-cases (is_policy_of name x)) [
    | inl hit ↦
        let same : row.retention_class ≡ name =
          sym ((eq_iff x.retention_class row.retention_class).0 replaced)
          ∙ (eq_iff x.retention_class name).0 hit in
        let found : is_policy_of name row ≡ true = (eq_iff row.retention_class name).1 same in
        rw replaced (rw found)
    | inr miss ↦ elim (Bool-cases (is_policy_of name row)) [
      | inl found ↦ rw replaced (rw found)
      | inr other ↦ rw replaced (rw other (any-replaced name row rows (rw miss at h)))
    ]
  ]
  | inr kept ↦ elim (Bool-cases (is_policy_of name x)) [
    | inl hit ↦ rw kept (rw hit)
    | inr miss ↦ rw kept (rw miss (any-replaced name row rows (rw miss at h)))
  ]
]

any-upsert :
    (name : String) (row : PolicyRow) (rows : List PolicyRow)
    → any (is_policy_of name) rows ≡ true
    → any (is_policy_of name) (upsert row rows) ≡ true
any-upsert name row rows h = elim (Bool-cases (any (is_policy_of row.retention_class) rows)) [
  | inl there ↦ rw there (any-replaced name row rows h)
  | inr new ↦ rw new (any-append (is_policy_of name) rows row h)
]

-- The class of a policy keeps a policy.
pub any-write_policies :
    (name : String) (now : ℕ) (status : String) (ps : List ClassificationPolicy)
    (rows : List PolicyRow)
    → any (is_policy_of name) rows ≡ true
    → any (is_policy_of name) (write_policies now status ps rows) ≡ true
unfolding write_policies
any-write_policies name now status [] rows h = h
any-write_policies name now status (p ∷ ps) rows h =
    any-write_policies name now status ps (upsert (policy_row now status p) rows)
      (any-upsert name (policy_row now status p) rows h)
