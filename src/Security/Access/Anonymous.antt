-- ===== src/Security/Access/Anonymous.antt =====
-- Requests without a token in `authenticate_request` of src/bff/security.py.
use Prim.Native.Nat.{ℕ}
use Prim.Native.String.{◌++◌ as str_append}
use mathlib.Core.Path.{◌≡◌, sym, ◌∙◌}
use mathlib.Core.Logic.{inl, inr}
use mathlib.Core.Bool.{true, ◌||◌, not}
use mathlib.Core.Option.{none, some}
use native.Mathlib.Omega.{arith}
use text.Mathlib.Text.{◌==◌ as str_eq}
use text.Mathlib.TextEquality.{eq_iff}
use foundation_intelligence.Common.{Result, ok, err, ok_eq, some_eq, Bool-cases, Option-cases}
use foundation_intelligence.Security.RateLimit.{
  Events, Verdict, check, allowed, retry_after, index_error,
}
use foundation_intelligence.Security.Roles.{Principal}
use foundation_intelligence.Security.Access.{
  Settings, Request, Server, HttpError, extract_token, public_readonly_principal, public_principal,
  is_public_method, is_public_route, authenticate_request, admit, no_token,
}

-- The demo, and one of its routes, only read.
pub record IsPublic (settings : Settings) (request : Request) : Type 0 where
  pub mode : settings.auth_mode ≡ "public_readonly"
  pub env : settings.app_env ≡ "demo"
  pub reads : is_public_method request.method ≡ true
  pub route : is_public_route request.route ≡ true

public_readonly_principal-IsPublic :
    (settings : Settings) (request : Request) (p : Principal)
    → public_readonly_principal settings request ≡ some p
    → (p ≡ public_principal) × IsPublic settings request
unfolding public_readonly_principal
public_readonly_principal-IsPublic settings request p e =
    elim (Bool-cases
      (not (str_eq settings.auth_mode "public_readonly") || not (str_eq settings.app_env "demo"))) [
        | inl private ↦ cc (rw (private, public_readonly_principal) at e)
        | inr demo ↦ elim (Bool-cases (is_public_method request.method)) [
          | inr writes ↦ cc (rw (demo, writes, public_readonly_principal) at e)
          | inl reads ↦ elim (Bool-cases (is_public_route request.route)) [
            | inr closed ↦ cc (rw (demo, reads, closed, public_readonly_principal) at e)
            | inl free ↦ (
              sym (some_eq (rw (demo, reads, free, public_readonly_principal) at e)),
              record {
                mode = ground (arith, eq_iff settings.auth_mode "public_readonly");
                env = ground (arith, eq_iff settings.app_env "demo");
                reads = reads;
                route = free;
              },
            )
          ]
        ]
      ]

admit-eq : (v : Verdict) (p q : Principal) → admit v p ≡ ok q → q ≡ p
admit-eq allowed p q e = sym (ok_eq e)
admit-eq (retry_after n) p q e = cc
admit-eq index_error p q e = cc

-- A request without a token that is authenticated is one to a public route of the demo, by GET or
-- HEAD, and its principal is the customer of the demo.
pub authenticate_request-IsPublic :
    (server : Server) (now : ℕ) (request : Request) (events : Events) (p : Principal)
    → extract_token server.settings request ≡ ok none
    → (authenticate_request server now request events).1 ≡ ok p
    → (p ≡ public_principal) × IsPublic server.settings request
unfolding authenticate_request
authenticate_request-IsPublic server now request events p anonymous e =
    elim (Option-cases (public_readonly_principal server.settings request)) [
      | inl private ↦ absurd (no_answer (rw (anonymous, private, authenticate_request) at e))
      | inr (q, found) ↦
          let (same, public) = public_readonly_principal-IsPublic server.settings request q found in
          let answer =
            admit-eq (check server.limiter (str_append "public-demo:" request.host) now events).1 q
              p (rw (anonymous, found, authenticate_request) at e) in
          (answer ∙ same, public)
    ]
  where
    no_answer : ◌≡◌ {A = Result HttpError Principal} (err no_token) (ok p) → ⊥
    no_answer h = cc
