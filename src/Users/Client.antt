-- ===== src/Users/Client.antt =====
-- The client of Cognito that src/bff/user_management.py calls, as a parameter, and what that file
-- reads from its answers. A listing is what its successive requests return: pages until the one
-- without a token, or until a request that fails.
use Prim.Native.Nat.{ℕ}
use Prim.Native.String.{String}
use mathlib.Core.Bool.{◌&&◌, not, Bool, false}
use mathlib.Core.Option.{Option, none, some}
use mathlib.Core.List.{List, [], ◌∷◌}
use text.Mathlib.Text.{◌==◌ as str_eq}
use foundation_intelligence.Common.{
  select, Result, ok, err, any, if◌then◌else◌, strip, is_empty, is_one_of,
}
use foundation_intelligence.Security.Roles.{Role, Principal, customer, operator, admin}
use foundation_intelligence.Security.Claims.{app_role, add_role, same_role}

pub data Pages (A : Type 0) : Type 0 where
  last : List A → Pages A
  more : List A → Pages A → Pages A
  broken : (code : String) → Pages A

pub record User : Type 0 where
  pub username : String
  pub attributes : List (String × String)
  pub enabled : Bool
  pub status : String

-- The calls of the client. A call that fails says with which error code.
pub record Cognito : Type 1 where
  pub Pool : Type 0
  pub admin_get_user : String → Pool → Result String User
  pub admin_list_groups_for_user : String → Pool → Pages String
  pub list_users_in_group : String → Pool → Pages User
  pub list_users : ℕ → Option String → Pool → Result String (List User × Option String)
  pub admin_create_user : String → Pool → Pool × Result String String
  pub admin_add_user_to_group : String → String → Pool → Pool × Result String (Unit {0})
  pub admin_remove_user_from_group : String → String → Pool → Pool × Result String (Unit {0})
  pub admin_disable_user : String → Pool → Pool × Result String (Unit {0})
  pub admin_enable_user : String → Pool → Pool × Result String (Unit {0})
  pub admin_reset_user_password : String → Pool → Pool × Result String (Unit {0})

-- The `HTTPException`s; `unhandled` is an error of the client outside every `try`.
pub data HttpError : Type 0 where
  user_exists user_not_found rejected provider_failed unknown_role own_account last_admin :
      HttpError
  unhandled : (code : String) → HttpError

pub record UserRecord : Type 0 where
  pub id : String
  pub email : Option String
  pub enabled : Bool
  pub status : String
  pub role : Option Role

-- `Role.value`
abbrev pub role_name : Role → String
role_name customer = "customer"
role_name operator = "operator"
role_name admin = "admin"

-- `group if group in APP_GROUP_NAMES`
unfoldable pub group_role : String → Option Role
group_role name =
    if str_eq name "customer"
    then some customer
    else if str_eq name "operator"
    then some operator
    else if str_eq name "admin"
    then some admin
    else none

abbrev pub has_role : Role → List Role → Bool
has_role r = any (same_role r)

-- `_raise_safe_cognito_error`
unfoldable pub safe_error : String → HttpError
safe_error code =
    if is_one_of code ("UsernameExistsException" ∷ "AliasExistsException" ∷ [])
    then user_exists
    else if str_eq code "UserNotFoundException"
    then user_not_found
    else if is_one_of code ("InvalidParameterException" ∷ "InvalidPasswordException" ∷ [])
    then rejected
    else provider_failed

-- `_attribute_map(user).get(name)`: of attributes with one name the last counts.
unfoldable pub attribute : String → List (String × String) → Option String
attribute name [] = none
attribute name ((n, v) ∷ rest) = elim (attribute name rest) [
  | some w ↦ some w
  | none ↦ if str_eq n name then some v else none
]

-- `attributes.get("email") or None`
abbrev pub non_empty : Option String → Option String
non_empty none = none
non_empty (some s) = if is_empty s then none else some s

-- `_validated_role`
unfoldable pub validated_role : String → Result HttpError Role
unfolding app_role
validated_role value = elim (app_role (strip value)) [ none ↦ err unknown_role | some r ↦ ok r ]

-- `_target_is_current_user`
unfoldable pub is_current_user : User → Principal → Bool
unfolding attribute
is_current_user target p = elim (non_empty (attribute "sub" target.attributes)) [
  | none ↦ false
  | some sub ↦ str_eq sub p.actor_id
]

-- `next(iter(groups)) if len(groups) == 1`
abbrev pub only : List Role → Option Role
only [] = none
only (r ∷ []) = some r
only (r ∷ r' ∷ rs) = none

abbrev pub translate : {A : Type 0} → (String → HttpError) → Result String A → Result HttpError A
translate f (ok a) = ok a
translate f (err code) = err (f code)

-- `groups.update(…)`, of one page
unfoldable pub add_groups : List String → List Role → List Role
unfolding group_role
add_groups [] roles = roles
add_groups (name ∷ names) roles = add_role (group_role name) (add_groups names roles)

unfoldable pub with_page : List String → Result String (List Role) → Result String (List Role)
unfolding add_groups
with_page names (err code) = err code
with_page names (ok roles) = ok (add_groups names roles)

-- The loop of `_groups_for_user`.
unfoldable pub collect_groups : Pages String → Result String (List Role)
unfolding add_groups with_page
collect_groups (broken code) = err code
collect_groups (last names) = ok (add_groups names [])
collect_groups (more names rest) = with_page names (collect_groups rest)

-- `sorted(groups - {role})`
abbrev pub other_groups : Role → List Role → List Role
other_groups r groups =
    select (λ g. has_role g groups && not (same_role g r)) (admin ∷ customer ∷ operator ∷ [])
