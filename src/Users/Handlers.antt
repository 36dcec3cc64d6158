-- ===== src/Users/Handlers.antt =====
-- The handlers of src/bff/user_management.py and the reads that they share, as calls on the pool of
-- users. No other session changes the pool between two calls of one handler.
use Prim.Native.Nat.{ℕ}
use Prim.Native.String.{String}
use mathlib.Core.Bool.{◌&&◌, not}
use mathlib.Core.Option.{Option}
use mathlib.Core.List.{List, [], ◌∷◌, ◌++◌}
use foundation_intelligence.Common.{Result, length, leb, if◌then◌else◌, is_empty, is_one_of}
use foundation_intelligence.Common.Calls.{Call, ◌>>=◌, ◌>>◌, done, asks, fails, when}
use foundation_intelligence.Security.Roles.{Role, Principal, admin}
use foundation_intelligence.Security.Claims.{same_role}
use foundation_intelligence.Users.Client.{
  Pages, last, more, broken, User, Cognito, HttpError, own_account, last_admin, unhandled,
  UserRecord, role_name, has_role, safe_error, attribute, non_empty, validated_role, other_groups,
  is_current_user, only, translate, collect_groups,
}

module _ (c : Cognito) where
  open c use {Pool}

  -- A call of the client, with its errors translated in `f`.
  abbrev pub sends :
      {A : Type 0} → (String → HttpError) → (Pool → Pool × Result String A) → Call Pool HttpError A
  sends f call pool = let (pool', r) = call pool in (pool', translate f r)

  -- `_groups_for_user`
  unfoldable pub groups_for_user : (String → HttpError) → String → Call Pool HttpError (List Role)
  unfolding collect_groups
  groups_for_user f username =
      asks (λ pool. translate f (collect_groups (c.admin_list_groups_for_user username pool)))

  -- `_get_user`
  unfoldable pub get_user : String → Call Pool HttpError User
  unfolding safe_error
  get_user username = asks (λ pool. translate safe_error (c.admin_get_user username pool))

  -- `_record`, called inside a `try`
  unfoldable pub user_record : User → Call Pool HttpError UserRecord
  unfolding groups_for_user attribute safe_error
  user_record user = do
    groups ← groups_for_user safe_error user.username
    done (record {
      id = user.username;
      email = non_empty (attribute "email" user.attributes);
      enabled = user.enabled;
      status = user.status;
      role = only groups;
    })

  -- One page of `_active_admin_usernames`.
  unfoldable pub active_of : List User → Call Pool HttpError (List String)
  unfolding get_user
  active_of [] = done []
  active_of (u ∷ us) =
      let others = active_of us in
      if is_empty u.username then others else do
        current ← get_user u.username
        names ← others
        done (if current.enabled then u.username ∷ names else names)

  unfoldable pub active_pages : Pages User → Call Pool HttpError (List String)
  unfolding active_of
  active_pages (broken code) = fails (unhandled code)
  active_pages (last us) = active_of us
  active_pages (more us rest) = do
    names ← active_of us
    others ← active_pages rest
    done (names ++ others)

  -- `_active_admin_usernames`
  unfoldable pub active_admin_usernames : Call Pool HttpError (List String)
  unfolding active_pages
  active_admin_usernames pool = active_pages (c.list_users_in_group (role_name admin) pool) pool

  -- `_protect_admin_change`
  unfoldable pub protect_admin_change : String → User → Principal → Call Pool HttpError (Unit {0})
  unfolding active_admin_usernames is_current_user
  protect_admin_change username target p = when (is_current_user target p) (fails own_account) >> do
    names ← active_admin_usernames
    when (is_one_of username names && leb (length names) 1) (fails last_admin)

  -- `list_users`
  unfoldable pub page_records : List User → Call Pool HttpError (List UserRecord)
  unfolding user_record
  page_records [] = done []
  page_records (u ∷ us) = do r ← user_record u; rs ← page_records us; done (r ∷ rs)

  unfoldable pub list_users :
      ℕ → Option String → Call Pool HttpError (List UserRecord × Option String)
  unfolding page_records safe_error
  list_users page_size next_token = do
    page ← asks (λ pool. translate safe_error (c.list_users page_size (non_empty next_token) pool))
    records ← page_records page.0
    done (records, page.1)

  -- `create_user`, for an address that the payload has validated
  unfoldable pub create_user : String → String → Call Pool HttpError UserRecord
  unfolding validated_role safe_error get_user user_record
  create_user email role = do
    r ← asks (λ pool. validated_role role)
    username ← sends safe_error (c.admin_create_user email)
    added ← sends safe_error (c.admin_add_user_to_group username (role_name r))
    user ← get_user username
    user_record user

  -- `for group in sorted(groups - {role}): client.admin_remove_user_from_group(…)`
  unfoldable pub remove_groups : String → List Role → Call Pool HttpError (Unit {0})
  unfolding safe_error
  remove_groups username [] = done tt
  remove_groups username (g ∷ gs) =
      sends safe_error (c.admin_remove_user_from_group username (role_name g))
      >> remove_groups username gs

  -- The `try` block of `update_user_role`.
  unfoldable pub change_groups : String → Role → List Role → Call Pool HttpError UserRecord
  unfolding remove_groups get_user user_record safe_error
  change_groups username r groups = do
    added ←
        when (not (has_role r groups))
          (sends safe_error (c.admin_add_user_to_group username (role_name r)))
    removed ← remove_groups username (other_groups r groups)
    user ← get_user username
    user_record user

  -- `update_user_role`, after what it reads.
  unfoldable pub guarded_update :
      String → Principal → Role → User → List Role → Call Pool HttpError UserRecord
  unfolding protect_admin_change change_groups
  guarded_update user_id p r target groups =
      when (has_role admin groups && not (same_role r admin))
        (protect_admin_change user_id target p)
      >> change_groups user_id r groups

  -- `update_user_role`
  unfoldable pub update_user_role : String → String → Principal → Call Pool HttpError UserRecord
  unfolding validated_role get_user groups_for_user guarded_update
  update_user_role user_id role p = do
    r ← asks (λ pool. validated_role role)
    target ← get_user user_id
    groups ← groups_for_user unhandled user_id
    guarded_update user_id p r target groups

  -- The `try` blocks of the other handlers.
  unfoldable pub disable : String → Call Pool HttpError UserRecord
  unfolding get_user user_record safe_error
  disable user_id = do
    sent ← sends safe_error (c.admin_disable_user user_id)
    user ← get_user user_id
    user_record user

  -- `disable_user`, after what it reads.
  unfoldable pub guarded_disable :
      String → Principal → User → List Role → Call Pool HttpError UserRecord
  unfolding is_current_user protect_admin_change disable
  guarded_disable user_id p target groups =
      when (is_current_user target p) (protect_admin_change user_id target p)
      >> (when (has_role admin groups) (protect_admin_change user_id target p) >> disable user_id)

  -- `disable_user`
  unfoldable pub disable_user : String → Principal → Call Pool HttpError UserRecord
  unfolding get_user groups_for_user guarded_disable
  disable_user user_id p = do
    target ← get_user user_id
    groups ← groups_for_user unhandled user_id
    guarded_disable user_id p target groups

  -- `enable_user`
  unfoldable pub enable_user : String → Call Pool HttpError UserRecord
  unfolding get_user user_record safe_error
  enable_user user_id = do
    target ← get_user user_id
    sent ← sends safe_error (c.admin_enable_user user_id)
    user ← get_user user_id
    user_record user

  -- `reset_user_password`
  unfoldable pub reset_user_password : String → Call Pool HttpError (Unit {0})
  unfolding get_user safe_error
  reset_user_password user_id = do
    target ← get_user user_id
    sends safe_error (c.admin_reset_user_password user_id)
