-- ===== src/Security/Claims/Named.antt =====
-- The roles that `_roles_from_claims` of src/bff/security.py collects.
use Prim.Native.String.{String}
use Prim.Native.Char.{code}
use native.Mathlib.Omega.{arith}
use mathlib.Core.Path.{◌≡◌, refl, ap, ◌∙◌}
use mathlib.Core.Logic.{inl, inr}
use mathlib.Core.Bool.{Bool, true, false, ◌||◌, ◌&&◌, not}
use mathlib.Core.Option.{Option, none, some}
use mathlib.Core.List.{List, [], ◌∷◌}
use foundation_intelligence.Common.{any, ◌==◌, and_parts, strip, Bool-cases}
use foundation_intelligence.Security.Roles.{Role, customer, operator, admin}
use foundation_intelligence.Security.Claims.{
  app_role, lowers_to, lower_code, split_roles, text, texts, other, Claim, candidates, named_role,
  same_role, add_role, collect_roles, roles_from_claims,
}

abbrev pub names : Role → Option Role → Bool
names r none = false
names r (some s) = same_role r s

same_role-eq : (r s : Role) → same_role r s ≡ true → r ≡ s
same_role-eq customer customer e = refl
same_role-eq operator operator e = refl
same_role-eq admin admin e = refl
same_role-eq customer operator e = cc
same_role-eq customer admin e = cc
same_role-eq operator customer e = cc
same_role-eq operator admin e = cc
same_role-eq admin customer e = cc
same_role-eq admin operator e = cc

-- Adding a role adds it, and no other one.
add_role-any :
    (r : Role) (o : Option Role) (rs : List Role)
    → any (same_role r) (add_role o rs) ≡ (names r o || any (same_role r) rs)
add_role-any r none rs = refl
add_role-any r (some s) rs = elim (Bool-cases (any (same_role s) rs)) [
  | inl there ↦ elim (Bool-cases (same_role r s)) [
    | inl same ↦ let one = same_role-eq r s same in rw there (rw same (rw one there))
    | inr differ ↦ rw there (rw differ)
  ]
  | inr new ↦ rw new
]

-- The roles that are collected are those that some text names.
pub collect_roles-any :
    (role : String → Option Role) (r : Role) (ss : List String)
    → any (same_role r) (collect_roles role ss) ≡ any (λ s. names r (role (strip s))) ss
unfolding collect_roles
collect_roles-any role r [] = refl
collect_roles-any role r (s ∷ ss) =
    add_role-any r (role (strip s)) (collect_roles role ss)
    ∙ ap (λ b. names r (role (strip s)) || b) (collect_roles-any role r ss)

-- The names of a role, and of the aliases for it.
abbrev pub titles : Role → List String
titles customer = "customer" ∷ "viewer" ∷ "analyst" ∷ []
titles operator = "operator" ∷ []
titles admin = "admin" ∷ "administrator" ∷ []

-- The texts of a claim: those of a list, or the words of a text.
abbrev pub words : Claim → List String
words (text s) = split_roles s
words (texts ss) = ss
words other = []

abbrev pub has_title : Role → String → Bool
has_title r value = any (lowers_to value) (titles r)

-- The texts differ at a character that both have, or in their lengths.
abbrev differ : String → String → Bool
differ String.[] String.[] = false
differ String.[] (String.◌∷◌ d t) = true
differ (String.◌∷◌ c s) String.[] = true
differ (String.◌∷◌ c s) (String.◌∷◌ d t) = not (code c == code d) || differ s t

-- A text has one lower case.
lowers_to-differ :
    (value a b : String) → differ a b ≡ true → lowers_to value a ≡ true → lowers_to value b ≡ false
unfolding lowers_to
lowers_to-differ String.[] String.[] String.[] h e = cc
lowers_to-differ String.[] String.[] (String.◌∷◌ d t) h e = refl
lowers_to-differ String.[] (String.◌∷◌ d t) b h e = cc
lowers_to-differ (String.◌∷◌ c s) String.[] b h e = cc
lowers_to-differ (String.◌∷◌ c s) (String.◌∷◌ d t) String.[] h e = refl
lowers_to-differ (String.◌∷◌ c s) (String.◌∷◌ d t) (String.◌∷◌ d' t') h e =
    let (first, rest) = and_parts (lower_code (code c) == code d) (lowers_to s t) e in
    elim (Bool-cases (code d == code d')) [
      | inr apart ↦ ground arith
      | inl same ↦
          let later : differ t t' ≡ true = ground arith in
          let off = lowers_to-differ s t t' later rest in ground arith
    ]

apart : (value a b : String) → differ a b ≡ true → (lowers_to value a && lowers_to value b) ≡ false
apart value a b h = elim (Bool-cases (lowers_to value a)) [
  | inl hit ↦ rw hit (lowers_to-differ value a b h hit)
  | inr miss ↦ rw miss
]

named_role-has_title : (r : Role) (value : String) → names r (named_role value) ≡ has_title r value
unfolding named_role app_role
named_role-has_title customer value =
    let v_o = apart value "viewer" "operator" refl in
    let v_a = apart value "viewer" "admin" refl in
    let n_o = apart value "analyst" "operator" refl in
    let n_a = apart value "analyst" "admin" refl in ground arith
named_role-has_title operator value =
    let o_c = apart value "operator" "customer" refl in ground arith
named_role-has_title admin value =
    let a_c = apart value "admin" "customer" refl in
    let a_o = apart value "admin" "operator" refl in
    let d_c = apart value "administrator" "customer" refl in
    let d_o = apart value "administrator" "operator" refl in
    let d_v = apart value "administrator" "viewer" refl in
    let d_n = apart value "administrator" "analyst" refl in ground arith

-- Of the claim of an OIDC token, a principal gets exactly the roles of which one of the claim's texts
-- is a title up to case and outer white space: customer, viewer and analyst are titles of the
-- customer, operator of the operator, admin and administrator of the admin.
pub roles_from_claims-any :
    (r : Role) (claim : Claim)
    → any (same_role r) (roles_from_claims claim) ≡ any (λ s. has_title r (strip s)) (words claim)
unfolding roles_from_claims candidates
roles_from_claims-any r claim =
    collect_roles-any named_role r (candidates claim)
    ∙ same_any (candidates claim)
    ∙ ap (any (λ s. has_title r (strip s))) (same_words claim)
  where
    same_any :
        (ss : List String)
        → any (λ s. names r (named_role (strip s))) ss ≡ any (λ s. has_title r (strip s)) ss
    same_any [] = refl
    same_any (s ∷ ss) = rw (named_role-has_title r (strip s)) (rw (same_any ss) refl)

    same_words : (k : Claim) → candidates k ≡ words k
    same_words (text s) = refl
    same_words (texts ss) = refl
    same_words other = refl
