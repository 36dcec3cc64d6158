-- ===== src/Security/Claims.antt =====
-- The roles that token claims grant: `_roles_from_claims` and `_cognito_roles_from_claims` of
-- src/bff/security.py. `lower` is compared on ASCII letters: no other character has one of the
-- letters of the names compared here as its lower case.
pub mod Named
use Prim.Native.Nat.{ℕ, ◌+◌}
use Prim.Native.Char.{Char, code}
use Prim.Native.String.{String}
use mathlib.Core.Path.{◌≡◌, refl}
use mathlib.Core.Logic.{inl, inr}
use mathlib.Core.Bool.{Bool, true, false, ◌&&◌, ◌||◌, not}
use mathlib.Core.Option.{Option, none, some}
use mathlib.Core.List.{List, [], ◌∷◌}
use native.Mathlib.Omega.{arith}
use foundation_intelligence.Common.{
  Result, ok, err, All, any, length, leb, ◌==◌, if◌then◌else◌, strip, is_space, Bool-cases,
}
use foundation_intelligence.Security.Roles.{Role, customer, operator, admin}

-- The code of a character in lower case.
abbrev pub lower_code : ℕ → ℕ
lower_code c = if leb 65 c && leb c 90 then c + 32 else c

-- `s.lower() == name`, for a name in lower case
unfoldable pub lowers_to : String → String → Bool
lowers_to String.[] String.[] = true
lowers_to String.[] (String.◌∷◌ d t) = false
lowers_to (String.◌∷◌ c s) String.[] = false
lowers_to (String.◌∷◌ c s) (String.◌∷◌ d t) = lower_code (code c) == code d && lowers_to s t

-- A claim: a text, a list of texts, or anything else.
pub data Claim : Type 0 where
  text : String → Claim
  texts : List String → Claim
  other : Claim

-- A word before the others, unless it is empty.
abbrev pub push : String → List String → List String
push String.[] ws = ws
push (String.◌∷◌ c w) ws = String.◌∷◌ c w ∷ ws

-- The word at the start of a text, and the words after it: separators are white space and, after
-- `replace(",", " ")`, commas.
unfoldable pub pieces : String → String × List String
unfolding is_space
pieces String.[] = (String.[], [])
pieces (String.◌∷◌ c s) =
    let (w, ws) = pieces s in
    if is_space (code c) || code c == 44 then (String.[], push w ws) else (String.◌∷◌ c w, ws)

-- `raw_roles.replace(",", " ").split()`
unfoldable pub split_roles : String → List String
unfolding pieces
split_roles s = let (w, ws) = pieces s in push w ws

unfoldable pub candidates : Claim → List String
unfolding split_roles
candidates (text s) = split_roles s
candidates (texts ss) = ss
candidates other = []

-- `Role(value)`
unfoldable pub app_role : String → Option Role
app_role value =
    if lowers_to value "customer"
    then some customer
    else if lowers_to value "operator"
    then some operator
    else if lowers_to value "admin"
    then some admin
    else none

-- `Role(value)`, or `aliases[value]`
unfoldable pub named_role : String → Option Role
named_role value = elim (app_role value) [
  | some r ↦ some r
  | none ↦
      if lowers_to value "viewer" || lowers_to value "analyst"
      then some customer
      else if lowers_to value "administrator"
      then some admin
      else none
]

abbrev pub same_role : Role → Role → Bool
same_role customer customer = true
same_role operator operator = true
same_role admin admin = true
same_role _ _ = false

-- `roles.add(role)`
abbrev pub add_role : Option Role → List Role → List Role
add_role none rs = rs
add_role (some r) rs = if any (same_role r) rs then rs else r ∷ rs

unfoldable pub collect_roles : (String → Option Role) → List String → List Role
collect_roles role [] = []
collect_roles role (s ∷ ss) = add_role (role (strip s)) (collect_roles role ss)

-- `_roles_from_claims`
unfoldable pub roles_from_claims : Claim → List Role
roles_from_claims claim = collect_roles named_role (candidates claim)

-- `_cognito_roles_from_claims`: `none` is the 403.
unfoldable pub cognito_roles_from_claims : Claim → Option (List Role)
cognito_roles_from_claims claim =
    let roles = collect_roles app_role (elim claim [ texts ss ↦ ss | text s ↦ [] | other ↦ [] ]) in
    if length roles == 1 then some roles else none
