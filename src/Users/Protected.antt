-- ===== src/Users/Protected.antt =====
-- What the handlers of src/bff/user_management.py do to the active administrators.
use Prim.Native.String.{String}
use mathlib.Core.Path.{◌≡◌, refl, subst, sym}
use mathlib.Core.Logic.{◌≢◌, inl, inr}
use mathlib.Core.Bool.{Bool, true, false, ◌&&◌, not}
use mathlib.Core.List.{List, [], ◌∷◌}
use text.Mathlib.TextEquality.{eq_iff}
use foundation_intelligence.Common.{Result, ok, length, leb, is_one_of, All}
use foundation_intelligence.Common.Calls.{
  Call, ◌>>=◌, done, fails, when, Reads, Keeps, read_then, read-ok, >>=-Reads, >>=-Keeps,
  when-Reads, when-Keeps,
}
use foundation_intelligence.Security.Roles.{Role, Principal, customer, operator, admin}
use foundation_intelligence.Security.Claims.{same_role}
use foundation_intelligence.Users.Client.{
  User, Cognito, HttpError, UserRecord, role_name, has_role, is_current_user, own_account,
  last_admin, safe_error, unhandled, other_groups,
}
use foundation_intelligence.Users.Handlers.{
  sends, get_user, active_admin_usernames, protect_admin_change, groups_for_user, user_record,
  remove_groups, change_groups, disable,
}
use foundation_intelligence.Users.Membership.{collect_groups-has}
use foundation_intelligence.Users.Documented.{Documented}
use foundation_intelligence.Users.Guarded.{
  HasAdmin, AdminBeside, active_pages-Reads, counted-AdminBeside, translate-ok,
}

module _ (c : Cognito) (d : Documented c) where
  open c use {Pool}

  pub sends-Keeps :
      {A : Type 0} (P : Pool → Type 0) (f : String → HttpError)
      (call : Pool → Pool × Result String A)
      → ((pool : Pool) → P pool → P (call pool).0)
      → Keeps P (sends c f call)
  sends-Keeps P f call h pool p = h pool p

  pub user_record-Reads : (user : User) → Reads (user_record c user)
  unfolding user_record groups_for_user
  user_record-Reads user pool =
      read_then (groups_for_user c safe_error user.username) (λ groups. done _) (λ t. t ≡ pool) pool
        refl refl (λ groups e. refl)

  -- `return _record(client, pool_id, _get_user(client, pool_id, user_id))`
  abbrev pub answers : String → Call Pool HttpError UserRecord
  answers user_id = get_user c user_id >>= λ user. user_record c user

  pub answers-Keeps : (P : Pool → Type 0) (user_id : String) → Keeps P (answers user_id)
  unfolding get_user
  answers-Keeps P user_id =
      >>=-Keeps P (get_user c user_id) (λ user. user_record c user) (λ pool p. p)
        (λ user pool p. subst P (sym (user_record-Reads user pool)) p)

  active_admin_usernames-Reads : Reads (active_admin_usernames c)
  unfolding active_admin_usernames
  active_admin_usernames-Reads pool =
      active_pages-Reads c d (c.list_users_in_group "admin" pool) pool

  -- What `_protect_admin_change` tests last.
  abbrev checks : String → List String → Call Pool HttpError (Unit {0})
  checks u names = when (is_one_of u names && leb (length names) 1) (fails last_admin)

  abbrev counts_admins : String → Call Pool HttpError (Unit {0})
  counts_admins u = active_admin_usernames c >>= checks u

  counts_admins-Reads : (u : String) → Reads (counts_admins u)
  counts_admins-Reads u =
      >>=-Reads (active_admin_usernames c) (checks u) active_admin_usernames-Reads
        (λ names. when-Reads _ (fails last_admin) (λ s. refl))

  pub protect-Reads :
      (u : String) (target : User) (p : Principal) → Reads (protect_admin_change c u target p)
  unfolding protect_admin_change
  protect-Reads u target p =
      >>=-Reads (when (is_current_user target p) (fails own_account)) (λ unused. counts_admins u)
        (when-Reads _ (fails own_account) (λ s. refl)) (λ unused. counts_admins-Reads u)

  pub unfailed :
      (test : Bool) (e : HttpError) (pool : Pool) {u : Unit {0}}
      → (when {S = Pool} test (fails e) pool).1 ≡ ok u
      → test ≡ false
  unfailed true e pool h = cc
  unfailed false e pool h = refl

  pub protect-AdminBeside :
      (u : String) (target : User) (p : Principal) (pool : Pool) {r : Unit {0}}
      → (protect_admin_change c u target p pool).1 ≡ ok r
      → HasAdmin c d pool
      → AdminBeside c d u pool
  unfolding protect_admin_change
  protect-AdminBeside u target p pool e has =
      let (_, _, counted) =
        read-ok (when (is_current_user target p) (fails own_account)) (λ unused. counts_admins u)
          pool (when-Reads _ (fails own_account) (λ s. refl) pool) e in
      let (names, got, passed) =
        read-ok (active_admin_usernames c) (checks u) pool (active_admin_usernames-Reads pool)
          counted in
      counted-AdminBeside c d u pool names got (unfailed _ last_admin pool passed) has

  -- A user without the role is no active administrator.
  pub others-AdminBeside :
      (u : String) (pool : Pool) {groups : List Role}
      → (groups_for_user c unhandled u pool).1 ≡ ok groups
      → has_role admin groups ≡ false
      → HasAdmin c d pool
      → AdminBeside c d u pool
  unfolding groups_for_user
  others-AdminBeside u pool e out has =
      let (a, is) = has in
      let (names, all, shown) =
        collect_groups-has (c.admin_list_groups_for_user u pool) (translate-ok unhandled _ e) in
      (a, λ same. cc (out, shown (d.lists_groups pool u names all "admin" (rw same is.0))), is)

  sends-AdminBeside-disable :
      (u : String)
      → d.is_alias u ≡ false
      → Keeps (AdminBeside c d u) (sends c safe_error (c.admin_disable_user u))
  sends-AdminBeside-disable u name pool (a, other, is) =
      (a, other, d.disabled pool u "admin" a is.0 is.1 name other)

  pub disable-AdminBeside :
      (u : String) → d.is_alias u ≡ false → Keeps (AdminBeside c d u) (disable c u)
  unfolding disable
  disable-AdminBeside u name =
      >>=-Keeps (AdminBeside c d u) (sends c safe_error (c.admin_disable_user u))
        (λ sent. answers u) (sends-AdminBeside-disable u name)
        (λ sent. answers-Keeps (AdminBeside c d u) u)

  -- Removing groups from a user named by its username keeps the other administrators, and the user one if the group of
  -- administrators is not among them.
  pub remove_groups-AdminBeside :
      (u : String) (gs : List Role)
      → d.is_alias u ≡ false
      → Keeps (AdminBeside c d u) (remove_groups c u gs)
  unfolding remove_groups
  remove_groups-AdminBeside u [] name = λ pool p. p
  remove_groups-AdminBeside u (g ∷ gs) name =
      >>=-Keeps (AdminBeside c d u)
        (sends c safe_error (c.admin_remove_user_from_group u (role_name g)))
        (λ unused. remove_groups c u gs)
        (λ pool (p : AdminBeside c d u pool).
          (p.0, p.1, d.removed pool u (role_name g) "admin" p.0 p.2.0 p.2.1 (inr (name, p.1))))
        (λ unused. remove_groups-AdminBeside u gs name)

  not_admin_name : (g : Role) → same_role g admin ≡ false → role_name g ≢ "admin"
  not_admin_name customer h e = cc ((eq_iff "customer" "admin").1 e)
  not_admin_name operator h e = cc ((eq_iff "operator" "admin").1 e)
  not_admin_name admin h e = cc

  pub remove_groups-HasAdmin :
      (u : String) (gs : List Role)
      → All (λ g. same_role g admin ≡ false) gs
      → Keeps (HasAdmin c d) (remove_groups c u gs)
  unfolding remove_groups
  remove_groups-HasAdmin u [] h = λ pool p. p
  remove_groups-HasAdmin u (g ∷ gs) h =
      >>=-Keeps (HasAdmin c d) (sends c safe_error (c.admin_remove_user_from_group u (role_name g)))
        (λ unused. remove_groups c u gs)
        (λ pool p. (
          p.0,
          d.removed pool u (role_name g) "admin" p.0 p.1.0 p.1.1 (inl (not_admin_name g h.0)),
        ))
        (λ unused. remove_groups-HasAdmin u gs h.1)

  abbrev adds : String → Role → List Role → Call Pool HttpError (Unit {0})
  adds u r groups =
      when (not (has_role r groups))
        (sends c safe_error (c.admin_add_user_to_group u (role_name r)))

  -- The steps of `change_groups`, for what each of them keeps.
  pub change_groups-Keeps :
      (P : Pool → Type 0) (u : String) (r : Role) (groups : List Role)
      → ((pool : Pool) → P pool → P (c.admin_add_user_to_group u (role_name r) pool).0)
      → Keeps P (remove_groups c u (other_groups r groups))
      → Keeps P (change_groups c u r groups)
  unfolding change_groups
  change_groups-Keeps P u r groups add remove =
      >>=-Keeps P (adds u r groups)
        (λ added. remove_groups c u (other_groups r groups) >>= λ removed. answers u)
        (when-Keeps P _ _ add)
        (λ added.
          >>=-Keeps P (remove_groups c u (other_groups r groups)) (λ removed. answers u) remove
            (λ removed. answers-Keeps P u))
