-- ===== src/Users/Membership.antt =====
-- Which groups `_groups_for_user` of src/bff/user_management.py finds.
use Prim.Native.String.{String}
use mathlib.Core.Path.{◌≡◌, refl}
use mathlib.Core.Logic.{◌⊎◌, inl, inr}
use mathlib.Core.Bool.{Bool, true}
use mathlib.Core.Option.{Option, none, some}
use mathlib.Core.List.{List, [], ◌∷◌, ◌++◌}
use native.Mathlib.Omega.{arith}
use foundation_intelligence.Common.{Result, ok, err, ok_eq, Bool-cases, In}
use foundation_intelligence.Security.Roles.{Role, admin}
use foundation_intelligence.Security.Claims.{add_role}
use foundation_intelligence.Users.Client.{
  Pages, last, more, broken, has_role, group_role, with_page, add_groups, collect_groups,
}
use foundation_intelligence.Users.Documented.{all_items}

add_role-has :
    (o : Option Role) (rs : List Role)
    → has_role admin rs ≡ true
    → has_role admin (add_role o rs) ≡ true
add_role-has none rs h = h
add_role-has (some r) rs h = elim (Bool-cases (has_role r rs)) [
  | inl there ↦ rw there h
  | inr new ↦ rw new (ground (arith, h))
]

add_role-admin : (rs : List Role) → has_role admin (add_role (some admin) rs) ≡ true
add_role-admin rs = elim (Bool-cases (has_role admin rs)) [
  | inl there ↦ rw there there
  | inr new ↦ rw new refl
]

add_groups-has :
    (names : List String) (rs : List Role)
    → (has_role admin rs ≡ true) ⊎ In "admin" names
    → has_role admin (add_groups names rs) ≡ true
unfolding add_groups group_role
add_groups-has [] rs (inl h) = h
add_groups-has [] rs (inr m) = absurd m
add_groups-has (name ∷ names) rs (inl h) =
    add_role-has (group_role name) (add_groups names rs) (add_groups-has names rs (inl h))
add_groups-has (name ∷ names) rs (inr (inr m)) =
    add_role-has (group_role name) (add_groups names rs) (add_groups-has names rs (inr m))
add_groups-has (name ∷ names) rs (inr (inl e)) = rw e (add_role-admin (add_groups names rs))

either :
    (b : Bool) (names others : List String)
    → (In "admin" others → b ≡ true)
    → In "admin" names ⊎ In "admin" others
    → (b ≡ true) ⊎ In "admin" names
either b names others f (inl m) = inr m
either b names others f (inr m) = inl (f m)

with_page-ok :
    (names : List String) (r : Result String (List Role)) {roles : List Role}
    → with_page names r ≡ ok roles
    → (rs : List Role) × (r ≡ ok rs) × (add_groups names rs ≡ roles)
unfolding with_page
with_page-ok names (err code) e = cc
with_page-ok names (ok rs) e = (rs, refl, ok_eq e)

In-split :
    (names others : List String)
    → In "admin" (names ++ others)
    → In "admin" names ⊎ In "admin" others
In-split [] others m = inr m
In-split (n ∷ names) others (inl e) = inl (inl e)
In-split (n ∷ names) others (inr m) = elim (In-split names others m) [
  | inl k ↦ inl (inr k)
  | inr k ↦ inr k
]

pub collect_groups-has :
    (pages : Pages String) {roles : List Role}
    → collect_groups pages ≡ ok roles
    → (names : List String) × (all_items pages ≡ some names)
      × (In "admin" names → has_role admin roles ≡ true)
unfolding collect_groups
collect_groups-has (broken code) e = cc
collect_groups-has (last names) e =
    (names, refl, λ m. rw (← ok_eq e) (add_groups-has names [] (inr m)))
collect_groups-has (more names rest) e =
    let (rs, rest_ok, same) = with_page-ok names (collect_groups rest) e in
    let (others, all, shown) = collect_groups-has rest rest_ok in
    (
      names ++ others,
      rw all refl,
      λ m. rw (← same) (
          add_groups-has names rs
            (either (has_role admin rs) names others shown (In-split names others m))),
    )
