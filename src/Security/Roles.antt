-- ===== src/Security/Roles.antt =====
-- `Role`, `Principal` and the roles that claims grant, of src/bff/security.py.
use Prim.Native.Nat.{ℕ, suc, ◌≤◌, max}
use Prim.Native.String.{String}
use mathlib.Core.Path.{◌≡◌, refl, subst}
use mathlib.Core.Logic.{◌⊎◌, inl, inr}
use mathlib.Core.Bool.{Bool, true}
use mathlib.Core.List.{List, [], ◌∷◌}
use native.Mathlib.Omega.{arith}
use foundation_intelligence.Common.{In-any, any, is_nil, leb, if◌then◌else◌, Bool-cases, In, any-In}

pub data Role : Type 0 where
  customer operator admin : Role

-- `_ROLE_RANK`
abbrev pub role_rank : Role → ℕ
role_rank customer = 10
role_rank operator = 20
role_rank admin = 30

-- A `frozenset` of roles is a list; only its members matter. The claims are left out.
pub record Principal : Type 0 where
  pub actor_id : String
  pub roles : List Role

-- `max((_ROLE_RANK[role] for role in self.roles), default=0)`
unfoldable pub highest_grant : List Role → ℕ
highest_grant [] = 0
highest_grant (r ∷ rs) = max (role_rank r) (highest_grant rs)

-- `Principal.permits_any`
unfoldable pub permits_any : Principal → List Role → Bool
permits_any p required =
    if is_nil required
    then true
    else any (λ role. leb (role_rank role) (highest_grant p.roles)) required

-- A requirement, in no order: nothing is required, or some held role ranks as high as a required one.
abbrev pub Permitted : Principal → List Role → Type 0
Permitted p required =
    (required ≡ [])
    ⊎ ((need : Role) × (grant : Role) × In need required
        × In grant p.roles
        × (role_rank need ≤ role_rank grant))

highest_grant-In :
    (n : ℕ) (rs : List Role)
    → suc n ≤ highest_grant rs
    → (r : Role) × In r rs × (suc n ≤ role_rank r)
unfolding highest_grant
highest_grant-In n [] h = absurd (omega arith)
highest_grant-In n (r ∷ rs) h = elim (Bool-cases (leb (suc n) (role_rank r))) [
  | inl enough ↦ (r, inl refl, ground arith)
  | inr short ↦ let (s, m, k) = highest_grant-In n rs (ground arith) in (s, inr m, k)
]

role_rank-le : (r : Role) (rs : List Role) → In r rs → role_rank r ≤ highest_grant rs
unfolding highest_grant
role_rank-le r [] m = absurd m
role_rank-le r (x ∷ rs) (inl e) =
    subst (λ y. role_rank y ≤ max (role_rank x) (highest_grant rs)) e (omega arith)
role_rank-le r (x ∷ rs) (inr m) = omega (arith, role_rank-le r rs m)

positive_rank : (r : Role) → (n : ℕ) × (role_rank r ≡ suc n)
positive_rank customer = (9, refl)
positive_rank operator = (19, refl)
positive_rank admin = (29, refl)

-- A principal is permitted exactly if no role is required, or one of its roles ranks at least as
-- high as one of the required roles.
pub permits_any-Permitted :
    (p : Principal) (required : List Role)
    → (permits_any p required ≡ true → Permitted p required)
      × (Permitted p required → permits_any p required ≡ true)
unfolding permits_any
permits_any-Permitted p [] = (λ h. inl refl, λ h. refl)
permits_any-Permitted p (r ∷ rs) = (
  λ h.
      let (need, m, enough) =
        any-In (λ role. leb (role_rank role) (highest_grant p.roles)) (r ∷ rs) h in
      let (n, rank) = positive_rank need in
      let (grant, k, above) = highest_grant-In n p.roles (ground arith) in
      inr (need, grant, m, k, omega arith),
  allowed,
)
  where
    allowed :
        Permitted p (r ∷ rs)
        → any (λ role. leb (role_rank role) (highest_grant p.roles)) (r ∷ rs) ≡ true
    allowed (inl e) = cc
    allowed (inr (need, grant, m, k, above)) =
        let top = role_rank-le grant p.roles k in
        let enough : leb (role_rank need) (highest_grant p.roles) ≡ true = ground arith in
        In-any (λ role. leb (role_rank role) (highest_grant p.roles)) need (r ∷ rs) m enough
