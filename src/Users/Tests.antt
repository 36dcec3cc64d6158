-- ===== src/Users/Tests.antt =====
-- Requests to the handlers of src/bff/user_management.py in a pool of two administrators.
use mathlib.Core.Path.{◌≡◌, refl}
use mathlib.Core.Logic.{inl}
use mathlib.Core.Bool.{true, false}
use mathlib.Core.List.{List, [], ◌∷◌}
use Prim.Native.String.{String}
use text.Mathlib.Text.{◌==◌ as str_eq}
use foundation_intelligence.Common.{err, strip, if◌then◌else◌}
use foundation_intelligence.Security.Roles.{Principal, admin}
use foundation_intelligence.Security.Claims.{lowers_to}
use foundation_intelligence.Users.Client.{Cognito, own_account, last_admin}
use foundation_intelligence.Users.Handlers.{disable_user, update_user_role}
use foundation_intelligence.Users.Guarded.{HasAdmin}
use foundation_intelligence.Users.Administrators.{
  Operation, updates, disables, handled, handled_all, handled_all-HasAdmin,
}
use foundation_intelligence.Users.Sample.{
  Pair, pair, pair_documented, pair-HasAdmin, named_by_username,
}

-- Two administrators. Ben downgrades Ana, may not downgrade himself, and no stale token of Ana's
-- disables him, the last.
abbrev two_admins : Pair
two_admins = record {
  ana = record { groups = "admin" ∷ []; enabled = true };
  ben = record { groups = "admin" ∷ []; enabled = true };
}

abbrev ana_p : Principal
ana_p = record { actor_id = "ana"; roles = admin ∷ [] }

abbrev ben_p : Principal
ben_p = record { actor_id = "ben"; roles = admin ∷ [] }

abbrev requests : List Operation
requests =
    updates "ana" "customer" ben_p ∷ updates "ben" "operator" ben_p ∷ disables "ben" ana_p ∷ []

handled_all-HasAdmin_example : HasAdmin pair pair_documented (handled_all pair requests two_admins)
handled_all-HasAdmin_example =
    handled_all-HasAdmin pair pair_documented requests two_admins
      (named_by_username "ana", (named_by_username "ben", (named_by_username "ben", tt)))
      (pair-HasAdmin two_admins "ana" (inl refl, refl))

refused_last :
    (disable_user pair "ben" ana_p (handled pair (updates "ana" "customer" ben_p) two_admins)).1
    ≡ err last_admin
unfolding disable_user handled lowers_to strip
refused_last = refl

refused_self : (update_user_role pair "ben" "operator" ben_p two_admins).1 ≡ err own_account
unfolding update_user_role lowers_to strip
refused_self = refl

-- The pool that also takes Ben's address for his username.
abbrev real_name : String → String
real_name u = if str_eq u "ben@example.org" then "ben" else u

abbrev aliased : Cognito
aliased = record pair {
  admin_get_user = λ u. pair.admin_get_user (real_name u);
  admin_list_groups_for_user = λ u. pair.admin_list_groups_for_user (real_name u);
  admin_disable_user = λ u. pair.admin_disable_user (real_name u);
}

abbrev one_admin : Pair
one_admin = record two_admins { ana = record { groups = []; enabled = true } }

-- By his address, a stale token of Ana's disables Ben, the last.
disabled_last :
    handled aliased (disables "ben@example.org" ana_p) one_admin
    ≡ record one_admin { ben = record { groups = "admin" ∷ []; enabled = false } }
unfolding disable_user handled lowers_to strip
disabled_last = refl
