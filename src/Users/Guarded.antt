-- ===== src/Users/Guarded.antt =====
-- Active administrators of src/bff/user_management.py: who is one, and what the guard of the handlers
-- has seen when it lets a change through.
use Prim.Native.String.{String}
use mathlib.Core.Path.{◌≡◌, refl, ap, subst, sym, ◌∙◌}
use mathlib.Core.Logic.{◌≢◌, inl, inr}
use mathlib.Core.Bool.{Bool, true, false, ◌&&◌, not}
use mathlib.Core.Option.{some}
use mathlib.Core.List.{List, [], ◌∷◌, ◌++◌, map, map-append}
use text.Mathlib.Text.{◌==◌ as str_eq}
use text.Mathlib.TextEquality.{eq_iff}
use foundation_intelligence.Common.{
  Result, ok, err, ok_eq, select, length, leb, if◌then◌else◌, Bool-cases, and_parts, and_intro,
  is_empty, is_one_of, In, Distinct, In-select, select-In, In-All, any_none, select-append,
  select-keeps,
}
use foundation_intelligence.Common.Calls.{Call, ◌>>=◌, done, Reads, read-ok, >>=-Reads}
use foundation_intelligence.Security.Roles.{admin}
use foundation_intelligence.Users.Client.{
  Pages, last, more, broken, User, Cognito, HttpError, role_name, translate, safe_error,
}
use foundation_intelligence.Users.Handlers.{
  get_user, active_of, active_pages, active_admin_usernames,
}
use foundation_intelligence.Users.Documented.{all_items, Documented}

pub translate-ok :
    {A : Type 0} (f : String → HttpError) (r : Result String A) {a : A}
    → translate f r ≡ ok a
    → r ≡ ok a
translate-ok f (ok b) e = ap ok (ok_eq e)
translate-ok f (err code) e = cc

module _ (c : Cognito) (d : Documented c) where
  open c use {Pool}
  open d use {groups, enabled, reads_enabled, lists_groups, lists_members, names_users}

  abbrev pub IsActiveAdmin : Pool → String → Type 0
  IsActiveAdmin pool u = In (role_name admin) (groups pool u) × (enabled pool u ≡ true)

  abbrev pub HasAdmin : Pool → Type 0
  HasAdmin pool = (a : String) × IsActiveAdmin pool a

  -- An active administrator other than the user.
  abbrev pub AdminBeside : String → Pool → Type 0
  AdminBeside u pool = (a : String) × (u ≢ a) × IsActiveAdmin pool a

  -- The members that the guard counts.
  abbrev live : Pool → String → Bool
  live pool n = not (is_empty n) && enabled pool n

  -- The names of a page after the user `u`, who is `current`.
  abbrev named_with : User → User → List String → List String
  named_with u current names = if current.enabled then u.username ∷ names else names

  abbrev counts : User → List User → User → Call Pool HttpError (List String)
  counts u us current = do names ← active_of c us; done (named_with u current names)

  active_of-Reads : (us : List User) → Reads (active_of c us)
  unfolding active_of get_user
  active_of-Reads [] pool = refl
  active_of-Reads (u ∷ us) pool = elim (Bool-cases (is_empty u.username)) [
    | inl skip ↦ rw skip (active_of-Reads us pool)
    | inr named ↦ rw named (
        >>=-Reads (get_user c u.username) (counts u us) (λ s. refl)
          (λ current.
            >>=-Reads (active_of c us) (λ names. done (named_with u current names))
              (active_of-Reads us) (λ names s. refl))
          pool)
  ]

  -- The names that a page yields are those of its members who are named and enabled.
  active_of-select :
      (us : List User) (pool : Pool) (names : List String)
      → (active_of c us pool).1 ≡ ok names
      → names ≡ select (live pool) (map (λ x. x.username) us)
  unfolding active_of get_user
  active_of-select [] pool names e = cc
  active_of-select (u ∷ us) pool names e = elim (Bool-cases (is_empty u.username)) [
    | inl skip ↦ rw skip (active_of-select us pool names (rw skip at e))
    | inr named ↦
        let (current, got, then_names) =
          read-ok (get_user c u.username) (counts u us) pool refl (rw named at e) in
        let (others, rest, last_names) =
          read-ok (active_of c us) (λ names. done (named_with u current names)) pool
            (active_of-Reads us pool) then_names in
        let ih = active_of-select us pool others rest in
        let same : current.enabled ≡ enabled pool u.username =
          reads_enabled pool u.username current (translate-ok safe_error _ got) in
        sym (ok_eq last_names) ∙ rw (named, same, ih) refl
  ]

  pub active_pages-Reads : (pages : Pages User) → Reads (active_pages c pages)
  unfolding active_pages
  active_pages-Reads (broken code) pool = refl
  active_pages-Reads (last us) pool = active_of-Reads us pool
  active_pages-Reads (more us rest) pool =
      >>=-Reads (active_of c us) (λ names. active_pages c rest >>= λ others. done (names ++ others))
        (active_of-Reads us)
        (λ names.
          >>=-Reads (active_pages c rest) (λ others. done (names ++ others))
            (active_pages-Reads rest) (λ others s. refl))
        pool

  joined :
      (pool : Pool) (names others : List String) (us vs : List User)
      → names ≡ select (live pool) (map (λ x. x.username) us)
      → others ≡ select (live pool) (map (λ x. x.username) vs)
      → names ++ others ≡ select (live pool) (map (λ x. x.username) (us ++ vs))
  joined pool names others us vs e f =
      rw (e, f, map-append (λ (x : User). x.username) us vs)
        (sym (select-append (live pool) (map (λ x. x.username) us) (map (λ x. x.username) vs)))

  active_pages-select :
      (pages : Pages User) (pool : Pool) (names : List String)
      → (active_pages c pages pool).1 ≡ ok names
      → (us : List User) × (all_items pages ≡ some us)
        × (names ≡ select (live pool) (map (λ x. x.username) us))
  unfolding active_pages
  active_pages-select (broken code) pool names e = cc
  active_pages-select (last us) pool names e = (us, refl, active_of-select us pool names e)
  active_pages-select (more us rest) pool names e =
      let (firsts, one, then_rest) =
        read-ok (active_of c us) (λ names. active_pages c rest >>= λ others. done (names ++ others))
          pool (active_of-Reads us pool) e in
      let (others, two, last_names) =
        read-ok (active_pages c rest) (λ others. done (firsts ++ others)) pool
          (active_pages-Reads rest pool) then_rest in
      let (vs, all, same) = active_pages-select rest pool others two in
      let first_names = active_of-select us pool firsts one in
      (
        us ++ vs,
        rw all refl,
        sym (ok_eq last_names) ∙ joined pool firsts others us vs first_names same,
      )

  -- Of two distinct names one is another.
  another :
      (u : String) (names : List String)
      → Distinct str_eq names
      → leb (length names) 1 ≡ false
      → (v : String) × In v names × (u ≢ v)
  another u [] d h = cc
  another u (x ∷ []) d h = cc
  another u (x ∷ y ∷ zs) d h = elim (Bool-cases (str_eq x u)) [
    | inl same ↦ (y, inr (inl refl), λ e. cc ((eq_iff x y).1 ((eq_iff x u).0 same ∙ e), d.0.0))
    | inr other ↦ (x, inl refl, λ e. cc ((eq_iff x u).1 (sym e), other))
  ]

  select-Distinct :
      (p : String → Bool) (xs : List String) → Distinct str_eq xs → Distinct str_eq (select p xs)
  select-Distinct p [] h = tt
  select-Distinct p (x ∷ xs) h = elim (Bool-cases (p x)) [
    | inl hit ↦ rw hit (select-keeps (λ y. str_eq x y ≡ false) p xs h.0, select-Distinct p xs h.1)
    | inr miss ↦ rw miss (select-Distinct p xs h.1)
  ]

  -- The guard lets a change through only if another administrator is active.
  pub counted-AdminBeside :
      (u : String) (pool : Pool) (names : List String)
      → (active_admin_usernames c pool).1 ≡ ok names
      → (is_one_of u names && leb (length names) 1) ≡ false
      → HasAdmin pool
      → AdminBeside u pool
  unfolding active_admin_usernames
  counted-AdminBeside u pool names e passed has =
      let (a, is) = has in
      let (admin_a, on) = is in
      let (us, all, same) = active_pages-select (c.list_users_in_group "admin" pool) pool names e in
      let (members, distinct) = lists_members pool "admin" us all in
      elim (Bool-cases (is_one_of u names)) [
        | inl listed ↦
            let (v, m, other) =
              another u names (rw same (select-Distinct (live pool) _ distinct))
                (rw listed at passed) in
            let (k, h) = In-select (live pool) v _ (subst (In v) same m) in
            (v, other, ((members v).0 k, (and_parts _ _ h).1))
        | inr unlisted ↦
            let counted =
              select-In (live pool) a _ ((members a).1 admin_a)
                (and_intro _ _ (ap not (names_users pool "admin" a admin_a)) on) in
            let apart : str_eq a u ≡ false =
              In-All (λ x. str_eq x u ≡ false) a names (rw same counted)
                (any_none (λ x. str_eq x u) names unlisted) in
            (a, (λ e. cc (apart, (eq_iff a u).1 (sym e))), (admin_a, on))
      ]
