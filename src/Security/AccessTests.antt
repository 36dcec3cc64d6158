-- ===== src/Security/AccessTests.antt =====
-- The theorems on authentication and authorization at concrete requests.
use Prim.Native.String.{String}
use mathlib.Core.Path.{◌≡◌, refl}
use mathlib.Core.Logic.{◌≢◌}
use mathlib.Core.Bool.{true, false}
use mathlib.Core.Option.{none, some}
use mathlib.Core.List.{List, [], ◌∷◌}
use native.Mathlib.Omega.{arith}
use foundation_intelligence.Common.{Result, ok, any, strip}
use foundation_intelligence.Security.RateLimit.{Events, fresh, check, drop_expired, wait_seconds}
use foundation_intelligence.Security.Roles.{
  Principal, customer, operator, permits_any, highest_grant,
}
use foundation_intelligence.Security.Claims.{
  text, other, roles_from_claims, named_role, same_role, candidates, collect_roles, app_role,
  lowers_to, split_roles, pieces,
}
use foundation_intelligence.Security.Claims.Named.{has_title, words, roles_from_claims-any}
use foundation_intelligence.Security.Idempotency.{Guard, RecordKey}
use foundation_intelligence.Security.Idempotency.Once.{Call, completes, run}
use foundation_intelligence.Security.Idempotency.Postgres.{
  postgres_guard, reserve_row, IdempotencyRow,
}
use foundation_intelligence.Security.Access.{
  Request, TokenClaims, Server, authenticate_request, require_roles, authorize, reserve_idempotency,
  extract_token, partition_space, claimed_principal, public_readonly_principal, public_principal,
  record_key, HttpError,
}
use foundation_intelligence.Security.Access.Granted.{
  Granted, require_roles-Granted, require_roles-once,
}
use foundation_intelligence.Security.Access.Anonymous.{IsPublic, authenticate_request-IsPublic}

abbrev sample_claims : TokenClaims
sample_claims = record { sub = some "user-1"; roles = text "viewer,Operator"; groups = other }

abbrev decode_any : String → Result HttpError TokenClaims
decode_any _ = ok sample_claims

abbrev no_digest : Request → String
no_digest _ = "digest"

abbrev sample_server : Server
sample_server = record {
  settings = record { auth_mode = "oidc"; app_env = "production" };
  limiter = record { limit = 10; window_seconds = 60 };
  decode = decode_any;
  digest = no_digest;
}

abbrev demo_server : Server
demo_server = record sample_server {
  settings = record { auth_mode = "public_readonly"; app_env = "demo" };
}

abbrev sample_request : Request
sample_request = record {
  authorization = "Bearer abc";
  cookie = none;
  method = "POST";
  route = some "/api/scraper/run";
  host = "10.0.0.1";
  idempotency_key = " k1 ";
}

abbrev public_request : Request
public_request = record sample_request {
  authorization = "";
  method = "GET";
  route = some "/api/scraper/status";
}

abbrev sample_principal : Principal
sample_principal = record { actor_id = "user-1"; roles = customer ∷ operator ∷ [] }

abbrev no_events : Events
no_events = fresh.events

abbrev store : Guard
store = postgres_guard 60

abbrev no_rows : List IdempotencyRow
no_rows = []

admitted :
    (require_roles store sample_server
      (operator ∷ [])
      "scraper.run"
      true
      10
      false
      sample_request
      (no_events, no_rows)).1
    ≡ ok sample_principal
unfolding require_roles authorize reserve_idempotency authenticate_request extract_token
    partition_space claimed_principal roles_from_claims candidates split_roles pieces collect_roles
    named_role app_role lowers_to check drop_expired wait_seconds permits_any highest_grant
    reserve_row strip
admitted = refl

require_roles-Granted_example :
    ((authenticate_request sample_server 10 sample_request no_events).1 ≡ ok sample_principal)
    × Granted store sample_server
        (operator ∷ [])
        "scraper.run"
        true
        10
        sample_request
        no_rows
        (require_roles store sample_server
          (operator ∷ [])
          "scraper.run"
          true
          10
          false
          sample_request
          (no_events, no_rows)).0.1
        sample_principal
require_roles-Granted_example =
    require_roles-Granted store sample_server (operator ∷ []) "scraper.run" true 10 false
      sample_request no_events no_rows sample_principal admitted

abbrev sample_key : RecordKey
sample_key = record_key sample_principal "scraper.run" sample_request

abbrev meanwhile : List Call
meanwhile = completes 20 sample_key ∷ []

require_roles-once_example :
    (require_roles store sample_server (operator ∷ []) "scraper.run" true 30 false sample_request (
      no_events,
      run store meanwhile
          (require_roles store sample_server
            (operator ∷ [])
            "scraper.run"
            true
            10
            false
            sample_request
            (no_events, no_rows)).0.1,
    )).1
    ≢ ok sample_principal
require_roles-once_example =
    require_roles-once store sample_server (operator ∷ []) (operator ∷ []) "scraper.run" 10 30 false
      false sample_request sample_request no_events no_events no_rows meanwhile sample_principal
      sample_principal admitted tt tt (omega arith) refl

without_token : extract_token demo_server.settings public_request ≡ ok none
unfolding extract_token
without_token = refl

anonymous : (authenticate_request demo_server 10 public_request no_events).1 ≡ ok public_principal
unfolding authenticate_request extract_token public_readonly_principal lowers_to check drop_expired
anonymous = refl

authenticate_request-IsPublic_example :
    (public_principal ≡ public_principal) × IsPublic demo_server.settings public_request
authenticate_request-IsPublic_example =
    authenticate_request-IsPublic demo_server 10 public_request no_events public_principal
      without_token anonymous

roles_from_claims-any_example :
    any (same_role operator) (roles_from_claims (text "viewer,Operator"))
    ≡ any (λ s. has_title operator (strip s)) (words (text "viewer,Operator"))
roles_from_claims-any_example = roles_from_claims-any operator (text "viewer,Operator")
