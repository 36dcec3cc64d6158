-- ===== src/Users/Administrators.antt =====
-- The active administrators under the handlers of src/bff/user_management.py.
use Prim.Native.Nat.{ℕ}
use Prim.Native.String.{String}
use mathlib.Core.Path.{◌≡◌, refl}
use mathlib.Core.Logic.{inl, inr}
use mathlib.Core.Bool.{Bool, true, false, ◌&&◌, not}
use mathlib.Core.Option.{Option}
use mathlib.Core.List.{List, [], ◌∷◌}
use native.Mathlib.Omega.{arith}
use foundation_intelligence.Common.{ok, Bool-cases, and_parts, All, All-select}
use foundation_intelligence.Common.Calls.{
  Call, ◌>>=◌, ◌>>◌, done, asks, when, Reads, Keeps, read_then, >>=-Reads, >>=-Keeps, when-Reads,
}
use foundation_intelligence.Security.Roles.{Role, Principal, customer, operator, admin}
use foundation_intelligence.Security.Claims.{same_role}
use foundation_intelligence.Users.Client.{
  User, Cognito, HttpError, UserRecord, role_name, has_role, translate, is_current_user, safe_error,
  unhandled, validated_role, non_empty, other_groups,
}
use foundation_intelligence.Users.Handlers.{
  sends, get_user, protect_admin_change, groups_for_user, user_record, page_records, list_users,
  create_user, change_groups, update_user_role, disable, disable_user, guarded_update,
  guarded_disable, enable_user, reset_user_password,
}
use foundation_intelligence.Users.Protected.{
  answers, answers-Keeps, user_record-Reads, disable-AdminBeside, remove_groups-AdminBeside,
  remove_groups-HasAdmin, change_groups-Keeps, protect-AdminBeside, protect-Reads,
  others-AdminBeside,
}
use foundation_intelligence.Users.Documented.{Documented}
use foundation_intelligence.Users.Guarded.{HasAdmin, AdminBeside}

-- A request to one of the handlers, for the principal that sends it.
pub data Operation : Type 0 where
  lists : (page_size : ℕ) → (next_token : Option String) → Operation
  creates : (email role : String) → Operation
  updates : (user_id role : String) → Principal → Operation
  disables : (user_id : String) → Principal → Operation
  enables resets : (user_id : String) → Operation

-- The request does not demote or disable a user by an alias.
abbrev pub by_username : (String → Bool) → Operation → Bool
by_username is_alias (updates user_id role p) = not (is_alias user_id)
by_username is_alias (disables user_id p) = not (is_alias user_id)
by_username is_alias _ = true

module _ (c : Cognito) where
  open c use {Pool}

  -- The pool after a request, whether it was answered or refused.
  unfoldable pub handled : Operation → Pool → Pool
  unfolding list_users create_user update_user_role disable_user enable_user reset_user_password
  handled (lists page_size next_token) pool = (list_users c page_size next_token pool).0
  handled (creates email role) pool = (create_user c email role pool).0
  handled (updates user_id role p) pool = (update_user_role c user_id role p pool).0
  handled (disables user_id p) pool = (disable_user c user_id p pool).0
  handled (enables user_id) pool = (enable_user c user_id pool).0
  handled (resets user_id) pool = (reset_user_password c user_id pool).0

  unfoldable pub handled_all : List Operation → Pool → Pool
  unfolding handled
  handled_all [] pool = pool
  handled_all (o ∷ os) pool = handled_all os (handled o pool)

module _ (c : Cognito) (d : Documented c) where
  open c use {Pool}

  beside : (u : String) (pool : Pool) → AdminBeside c d u pool → HasAdmin c d pool
  beside u pool (a, other, is) = (a, is)

  negated : {b : Bool} → not b ≡ true → b ≡ false
  negated {b} e = ground arith

  others_not_admin :
      (r : Role) (groups : List Role)
      → same_role r admin ≡ true
      → All (λ g. same_role g admin ≡ false) (other_groups r groups)
  others_not_admin customer groups h = cc
  others_not_admin operator groups h = cc
  others_not_admin admin groups h =
      All-select (λ g. same_role g admin ≡ false)
        (λ g. has_role g groups && not (same_role g admin)) (admin ∷ customer ∷ operator ∷ [])
        (λ g hit. negated (and_parts _ _ hit).1)

  guarded_disable-HasAdmin :
      (u : String) (p : Principal) (target : User) (groups : List Role) (pool : Pool)
      → d.is_alias u ≡ false
      → (groups_for_user c unhandled u pool).1 ≡ ok groups
      → HasAdmin c d pool
      → HasAdmin c d (guarded_disable c u p target groups pool).0
  unfolding guarded_disable
  guarded_disable-HasAdmin u p target groups pool name got has =
      read_then (when (is_current_user target p) guard)
        (λ unused. when (has_role admin groups) guard >> disable c u) (HasAdmin c d) pool
        (when-Reads _ guard (protect-Reads c d u target p) pool) has
        (λ r e.
          read_then (when (has_role admin groups) guard) (λ unused. disable c u) (HasAdmin c d) pool
            (when-Reads _ guard (protect-Reads c d u target p) pool) has
            (λ r e. beside u _ (disable-AdminBeside c d u name pool (passed e))))
    where
      guard : Call Pool HttpError (Unit {0})
      guard = protect_admin_change c u target p

      passed :
          {r : Unit {0}}
          → (when (has_role admin groups) guard pool).1 ≡ ok r
          → AdminBeside c d u pool
      passed e = elim (Bool-cases (has_role admin groups)) [
        | inl held ↦ protect-AdminBeside c d u target p pool (rw held at e) has
        | inr out ↦ others-AdminBeside c d u pool got out has
      ]

  guarded_update-HasAdmin :
      (u : String) (p : Principal) (r : Role) (target : User) (groups : List Role) (pool : Pool)
      → d.is_alias u ≡ false
      → (groups_for_user c unhandled u pool).1 ≡ ok groups
      → HasAdmin c d pool
      → HasAdmin c d (guarded_update c u p r target groups pool).0
  unfolding guarded_update
  guarded_update-HasAdmin u p r target groups pool name got has =
      read_then (when (has_role admin groups && not (same_role r admin)) guard)
        (λ unused. change_groups c u r groups) (HasAdmin c d) pool
        (when-Reads _ guard (protect-Reads c d u target p) pool) has
        (λ x e. elim (Bool-cases (same_role r admin)) [
          | inl promoted ↦
              change_groups-Keeps c d (HasAdmin c d) u r groups
                (λ pool h. (h.0, d.added pool u (role_name r) "admin" h.0 h.1.0 h.1.1))
                (remove_groups-HasAdmin c d u _ (others_not_admin r groups promoted)) pool has
          | inr demoted ↦ beside u _ (
              change_groups-Keeps c d (AdminBeside c d u) u r groups
                (λ pool (h : AdminBeside c d u pool).
                  (h.0, h.1, d.added pool u (role_name r) "admin" h.0 h.2.0 h.2.1))
                (remove_groups-AdminBeside c d u _ name) pool (passed demoted e))
        ])
    where
      guard : Call Pool HttpError (Unit {0})
      guard = protect_admin_change c u target p

      passed :
          same_role r admin ≡ false
          → {x : Unit {0}}
          → (when (has_role admin groups && not (same_role r admin)) guard pool).1 ≡ ok x
          → AdminBeside c d u pool
      passed demoted e = elim (Bool-cases (has_role admin groups)) [
        | inl held ↦ protect-AdminBeside c d u target p pool (rw (held, demoted) at e) has
        | inr out ↦ others-AdminBeside c d u pool got out has
      ]

  -- The pool after the reads that every change starts with.
  after_reads :
      (u : String) (pool : Pool) (act : User → List Role → Call Pool HttpError UserRecord)
      → HasAdmin c d pool
      → ((target : User) (groups : List Role)
          → (groups_for_user c unhandled u pool).1 ≡ ok groups
          → HasAdmin c d (act target groups pool).0)
      → HasAdmin c d
          ((get_user c u >>= λ target.
              groups_for_user c unhandled u >>= λ groups. act target groups)
            pool).0
  unfolding get_user groups_for_user
  after_reads u pool act has safe =
      read_then (get_user c u)
        (λ target. groups_for_user c unhandled u >>= λ groups. act target groups) (HasAdmin c d)
        pool refl has
        (λ target e.
          read_then (groups_for_user c unhandled u) (λ groups. act target groups) (HasAdmin c d)
            pool refl has (λ groups got. safe target groups got))

  created-HasAdmin : (email role : String) → Keeps (HasAdmin c d) (create_user c email role)
  unfolding create_user
  created-HasAdmin email role =
      >>=-Keeps (HasAdmin c d) (asks (λ pool. validated_role role))
        (λ r. sends c safe_error (c.admin_create_user email) >>= λ username. invites username r)
        (λ pool h. h)
        (λ r.
          >>=-Keeps (HasAdmin c d) (sends c safe_error (c.admin_create_user email))
            (λ username. invites username r)
            (λ pool h. (h.0, d.created pool email "admin" h.0 h.1.0 h.1.1))
            (λ username.
              >>=-Keeps (HasAdmin c d)
                (sends c safe_error (c.admin_add_user_to_group username (role_name r)))
                (λ added. answers c d username)
                (λ pool h. (h.0, d.added pool username (role_name r) "admin" h.0 h.1.0 h.1.1))
                (λ added. answers-Keeps c d (HasAdmin c d) username)))
    where
      invites : String → Role → Call Pool HttpError UserRecord
      invites username r =
          sends c safe_error (c.admin_add_user_to_group username (role_name r)) >>= λ added.
          answers c d username

  page_records-Reads : (us : List User) → Reads (page_records c us)
  unfolding page_records
  page_records-Reads [] = λ pool. refl
  page_records-Reads (u ∷ us) =
      >>=-Reads (user_record c u) (λ r. page_records c us >>= λ rs. done (r ∷ rs))
        (user_record-Reads c d u)
        (λ r.
          >>=-Reads (page_records c us) (λ rs. done (r ∷ rs)) (page_records-Reads us)
            (λ rs pool. refl))

  handled-HasAdmin :
      (o : Operation) (pool : Pool)
      → by_username d.is_alias o ≡ true
      → HasAdmin c d pool
      → HasAdmin c d (handled c o pool)
  unfolding handled list_users update_user_role disable_user enable_user reset_user_password
      get_user
  handled-HasAdmin (lists page_size next_token) pool name has =
      read_then
        (asks (λ pool. translate safe_error (c.list_users page_size (non_empty next_token) pool)))
        (λ page. page_records c page.0 >>= λ records. done (records, page.1)) (HasAdmin c d) pool
        refl has
        (λ page e.
          read_then (page_records c page.0) (λ records. done (records, page.1)) (HasAdmin c d) pool
            (page_records-Reads page.0 pool) has (λ records e. has))
  handled-HasAdmin (creates email role) pool name has = created-HasAdmin email role pool has
  handled-HasAdmin (updates u role p) pool name has =
      read_then (asks (λ pool. validated_role role))
        (λ r. get_user c u >>= λ target.
          groups_for_user c unhandled u >>= λ groups. guarded_update c u p r target groups)
        (HasAdmin c d) pool refl has
        (λ r e. after_reads u pool (guarded_update c u p r) has (λ target groups got.
          guarded_update-HasAdmin u p r target groups pool (negated name) got has))
  handled-HasAdmin (disables u p) pool name has =
      after_reads u pool (guarded_disable c u p) has (λ target groups got.
        guarded_disable-HasAdmin u p target groups pool (negated name) got has)
  handled-HasAdmin (enables u) pool name has =
      read_then (get_user c u)
        (λ target. sends c safe_error (c.admin_enable_user u) >>= λ sent. answers c d u)
        (HasAdmin c d) pool refl has
        (λ target e.
          >>=-Keeps (HasAdmin c d) (sends c safe_error (c.admin_enable_user u))
            (λ sent. answers c d u)
            (λ pool h. (h.0, d.enabled_again pool u "admin" h.0 h.1.0 h.1.1))
            (λ sent. answers-Keeps c d (HasAdmin c d) u) pool has)
  handled-HasAdmin (resets u) pool name has =
      read_then (get_user c u) (λ target. sends c safe_error (c.admin_reset_user_password u))
        (HasAdmin c d) pool refl has
        (λ target e. (has.0, d.reset pool u "admin" has.0 has.1.0 has.1.1))

  -- Requests that change or disable a user name it by its username, not by an alias of it. If a user
  -- is an active administrator before some such requests to the handlers, of any principals,
  -- then there is an active administrator after them, whichever of them were answered, refused or
  -- broken off by an error of Cognito, while nothing else changes the pool.
  pub handled_all-HasAdmin :
      (os : List Operation) (pool : Pool)
      → All (λ o. by_username d.is_alias o ≡ true) os
      → HasAdmin c d pool
      → HasAdmin c d (handled_all c os pool)
  unfolding handled_all
  handled_all-HasAdmin [] pool named has = has
  handled_all-HasAdmin (o ∷ os) pool named has =
      handled_all-HasAdmin os (handled c o pool) named.1 (handled-HasAdmin o pool named.0 has)
