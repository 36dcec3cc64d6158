-- ===== src/Users/Documented.antt =====
-- What Cognito documents of the calls that src/bff/user_management.py makes.
use Prim.Native.String.{String}
use mathlib.Core.Path.{◌≡◌}
use mathlib.Core.Logic.{◌≢◌, ◌↔◌, ◌⊎◌}
use mathlib.Core.Bool.{Bool, true, false}
use mathlib.Core.Option.{Option, none, some}
use mathlib.Core.List.{List, ◌++◌, map}
use text.Mathlib.Text.{◌==◌ as str_eq}
use foundation_intelligence.Common.{ok, is_empty, In, Distinct}
use foundation_intelligence.Users.Client.{Pages, last, more, broken, User, Cognito}

-- The items of a listing that has an end.
abbrev pub all_items : {A : Type 0} → Pages A → Option (List A)
all_items (last xs) = some xs
all_items (broken code) = none
all_items (more xs rest) = elim (all_items rest) [ none ↦ none | some ys ↦ some (xs ++ ys) ]

-- What Cognito documents: what a user is, what the listings list, and that a call about one user
-- changes no other. A call may name its user by an alias, such as the e-mail address that the pool of
-- infra/cloudformation/demo.yaml takes: `is_alias` are the texts that may be one. What a call with an
-- alias changes is left open.
pub record Documented (c : Cognito) : Type 0 where
  pub groups : c.Pool → String → List String
  pub enabled : c.Pool → String → Bool
  pub is_alias : String → Bool
  pub reads_enabled :
      (pool : c.Pool) (u : String) (user : User)
      → c.admin_get_user u pool ≡ ok user
      → user.enabled ≡ enabled pool u
  pub lists_groups :
      (pool : c.Pool) (u : String) (names : List String)
      → all_items (c.admin_list_groups_for_user u pool) ≡ some names
      → (g : String) → In g (groups pool u)
      → In g names
  pub lists_members :
      (pool : c.Pool) (g : String) (us : List User)
      → all_items (c.list_users_in_group g pool) ≡ some us
      → ((u : String) → In u (map (λ x. x.username) us) ↔ In g (groups pool u))
        × Distinct str_eq (map (λ x. x.username) us)
  pub names_users : (pool : c.Pool) (g u : String) → In g (groups pool u) → is_empty u ≡ false
  pub created :
      (pool : c.Pool) (mail g u : String)
      → In g (groups pool u)
      → enabled pool u ≡ true
      → In g (groups (c.admin_create_user mail pool).0 u)
        × (enabled (c.admin_create_user mail pool).0 u ≡ true)
  pub added :
      (pool : c.Pool) (v h g u : String)
      → In g (groups pool u)
      → enabled pool u ≡ true
      → In g (groups (c.admin_add_user_to_group v h pool).0 u)
        × (enabled (c.admin_add_user_to_group v h pool).0 u ≡ true)
  pub removed :
      (pool : c.Pool) (v h g u : String)
      → In g (groups pool u)
      → enabled pool u ≡ true
      → (h ≢ g) ⊎ ((is_alias v ≡ false) × (v ≢ u))
      → In g (groups (c.admin_remove_user_from_group v h pool).0 u)
        × (enabled (c.admin_remove_user_from_group v h pool).0 u ≡ true)
  pub disabled :
      (pool : c.Pool) (v g u : String)
      → In g (groups pool u)
      → enabled pool u ≡ true
      → is_alias v ≡ false
      → v ≢ u
      → In g (groups (c.admin_disable_user v pool).0 u)
        × (enabled (c.admin_disable_user v pool).0 u ≡ true)
  pub enabled_again :
      (pool : c.Pool) (v g u : String)
      → In g (groups pool u)
      → enabled pool u ≡ true
      → In g (groups (c.admin_enable_user v pool).0 u)
        × (enabled (c.admin_enable_user v pool).0 u ≡ true)
  pub reset :
      (pool : c.Pool) (v g u : String)
      → In g (groups pool u)
      → enabled pool u ≡ true
      → In g (groups (c.admin_reset_user_password v pool).0 u)
        × (enabled (c.admin_reset_user_password v pool).0 u ≡ true)
