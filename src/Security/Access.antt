-- ===== src/Security/Access.antt =====
-- `authenticate_request`, `reserve_idempotency` and `require_roles` of src/bff/security.py, for a
-- request whose `state` holds no principal yet. Token decoding (JOSE), the digest of a request and
-- an outage of the writer are parameters.
pub mod Granted
pub mod Anonymous
use Prim.Native.Nat.{ℕ}
use Prim.Native.Char.{code}
use Prim.Native.String.{String, count, ◌++◌ as str_append}
use mathlib.Core.Bool.{Bool, true, false, ◌&&◌, ◌||◌, not}
use mathlib.Core.Option.{Option, none, some}
use mathlib.Core.List.{List, [], ◌∷◌}
use text.Mathlib.Text.{◌==◌ as str_eq}
use foundation_intelligence.Common.{
  Result, ok, err, ◌>>=◌, ◌>>◌, raise_if, or_raise, strip, is_empty, is_blank, is_one_of, ltb, ◌==◌,
  if◌then◌else◌,
}
use foundation_intelligence.Security.RateLimit.{
  Limiter, Events, Verdict, check, allowed, retry_after, index_error,
}
use foundation_intelligence.Security.Roles.{Role, Principal, customer, permits_any}
use foundation_intelligence.Security.Claims.{
  Claim, roles_from_claims, cognito_roles_from_claims, lowers_to,
}
use foundation_intelligence.Security.Idempotency.{Guard, RecordKey, Reservation, granted, conflict}

-- The `HTTPException`s, and the error of a limit of 0.
pub data HttpError : Type 0 where
  invalid_token no_token one_group_required forbidden invalid_key writer_unavailable
        limiter_failed :
      HttpError
  rate_limited : (seconds : ℕ) → HttpError
  key_conflict : (different_request : Bool) → HttpError

pub record Settings : Type 0 where
  pub auth_mode : String
  pub app_env : String

-- `cookie` is the session cookie, `route` the template of the matched route, `host` the client's.
pub record Request : Type 0 where
  pub authorization : String
  pub cookie : Option String
  pub method : String
  pub route : Option String
  pub host : String
  pub idempotency_key : String

-- `sub` where it is a text, and the claim of roles or groups.
pub record TokenClaims : Type 0 where
  pub sub : Option String
  pub roles : Claim
  pub groups : Claim

-- `authorization.partition(" ")`, without the separator
unfoldable pub partition_space : String → String × String
partition_space String.[] = (String.[], String.[])
partition_space (String.◌∷◌ c s) =
    let (scheme, credentials) = partition_space s in
    if code c == 32 then (String.[], s) else (String.◌∷◌ c scheme, credentials)

-- `_extract_token`
unfoldable pub extract_token : Settings → Request → Result HttpError (Option String)
extract_token settings request =
    if not (is_empty request.authorization)
    then (let (scheme, credentials) = partition_space request.authorization in
        if not (lowers_to scheme "bearer") || is_blank credentials
        then err invalid_token
        else ok (some (strip credentials)))
    else ok (if str_eq settings.auth_mode "development" then request.cookie else none)

-- `PUBLIC_READONLY_ROUTE_ALLOWLIST`
abbrev pub public_routes : List String
public_routes =
    "/api/charities" ∷ "/api/charities/stats" ∷ "/api/charities/{reg_charity_number}"
    ∷ "/api/charities/{reg_charity_number}/grants" ∷ "/api/charities/{reg_charity_number}/sankey"
    ∷ "/api/charities/{reg_charity_number}/score" ∷ "/api/charities/directory/organizations"
    ∷ "/api/charities/directory/organizations/{registry_id}"
    ∷ "/api/charities/grants/beneficiary-geographies" ∷ "/api/charities/grants/funders"
    ∷ "/api/charities/grants/funders/{source_funder_key}" ∷ "/api/charities/grants/map"
    ∷ "/api/charities/grants/map/connections" ∷ "/api/charities/grants/overview"
    ∷ "/api/charities/grants/overview/drilldown"
    ∷ "/api/charities/grants/overview/entity-suggestions" ∷ "/api/charities/grants/overview/trends"
    ∷ "/api/charities/grants/summary" ∷ "/api/charities/grants/themes"
    ∷ "/api/charities/grants/trends" ∷ "/api/scraper/status" ∷ []

abbrev pub is_public_route : Option String → Bool
is_public_route none = false
is_public_route (some template) = is_one_of template public_routes

-- `method.upper() in PUBLIC_READONLY_METHOD_ALLOWLIST`
abbrev pub is_public_method : String → Bool
is_public_method method = lowers_to method "get" || lowers_to method "head"

abbrev pub public_principal : Principal
public_principal = record { actor_id = "public-readonly-demo"; roles = customer ∷ [] }

-- `_public_readonly_principal`
unfoldable pub public_readonly_principal : Settings → Request → Option Principal
public_readonly_principal settings request =
    if not (str_eq settings.auth_mode "public_readonly") || not (str_eq settings.app_env "demo")
    then none
    else if not (is_public_method request.method)
    then none
    else if not (is_public_route request.route)
    then none
    else some public_principal

-- The answer of the limiter, as the caller turns it into an exception.
abbrev pub admit : Verdict → Principal → Result HttpError Principal
admit allowed p = ok p
admit (retry_after seconds) p = err (rate_limited seconds)
admit index_error p = err limiter_failed

abbrev pub limited : Limiter → ℕ → String → Principal → Events → Events × Result HttpError Principal
limited l now key p events =
    let (events', verdict) = check l key now events in (events', admit verdict p)

-- `not token`
abbrev pub present : Option String → Option String
present none = none
present (some token) = if is_empty token then none else some token

-- The principal that verified claims name.
unfoldable pub claimed_principal : Settings → TokenClaims → Result HttpError Principal
claimed_principal settings claims = do
  subject ← or_raise claims.sub invalid_token
  raise_if (is_blank subject) invalid_token
  roles ←
      if str_eq settings.auth_mode "cognito_rbac"
      then or_raise (cognito_roles_from_claims claims.groups) one_group_required
      else ok (roles_from_claims claims.roles)
  ok (record { actor_id = strip subject; roles = roles })

-- What a deployment fixes: its settings, its limiter, the token decoder and the digest of the method,
-- path and body of a request.
pub record Server : Type 0 where
  pub settings : Settings
  pub limiter : Limiter
  pub decode : String → Result HttpError TokenClaims
  pub digest : Request → String

unfoldable pub authenticate_request :
    Server → ℕ → Request → Events → Events × Result HttpError Principal
authenticate_request server now request events = elim (extract_token server.settings request) [
  | err e ↦ (events, err e)
  | ok token ↦ elim (present token) [
    | none ↦ elim (public_readonly_principal server.settings request) [
      | some p ↦ limited server.limiter now (str_append "public-demo:" request.host) p events
      | none ↦ (events, err no_token)
    ]
    | some t ↦ elim (server.decode t >>= claimed_principal server.settings) [
      | err e ↦ (events, err e)
      | ok p ↦ limited server.limiter now (str_append "actor:" p.actor_id) p events
    ]
  ]
]

abbrev pub record_key : Principal → String → Request → RecordKey
record_key p action request = record {
  actor_id = p.actor_id;
  action = action;
  key = strip request.idempotency_key;
}

module _ (guard : Guard) (server : Server) where
  -- `outage` says that the writer's database is not available.
  unfoldable pub reserve_idempotency :
      ℕ
      → Bool
      → Request
      → Principal
      → String
      → guard.State
      → guard.State × Result HttpError RecordKey
  reserve_idempotency now outage request p action store =
      let key = strip request.idempotency_key in
      let k = record_key p action request in
      let (store', answer) = guard.reserve now k (server.digest request) store in
      if is_empty key || ltb 128 (count key)
      then (store, err invalid_key)
      else if outage
      then (store, err writer_unavailable)
      else (
        store',
        elim answer [ granted ↦ ok k | conflict different ↦ err (key_conflict different) ],
      )

  -- After authentication: the roles, then the idempotency key.
  unfoldable pub authorize :
      List Role
      → String
      → Bool
      → ℕ
      → Bool
      → Request
      → guard.State
      → Result HttpError Principal
      → guard.State × Result HttpError Principal
  authorize roles action idempotent now outage request store (err e) = (store, err e)
  authorize roles action idempotent now outage request store (ok p) =
      let (store', key) = reserve_idempotency now outage request p action store in
      if not (permits_any p roles)
      then (store, err forbidden)
      else if not idempotent
      then (store, ok p)
      else (store', elim key [ ok k ↦ ok p | err e ↦ err e ])

  -- The dependency that `require_roles(*roles, action=…, idempotent=…)` makes.
  unfoldable pub require_roles :
      List Role
      → String
      → Bool
      → ℕ
      → Bool
      → Request
      → Events × guard.State
      → (Events × guard.State) × Result HttpError Principal
  require_roles roles action idempotent now outage request (events, store) =
      let (events', who) = authenticate_request server now request events in
      let (store', answer) = authorize roles action idempotent now outage request store who in
      ((events', store'), answer)
