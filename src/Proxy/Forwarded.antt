-- ===== src/Proxy/Forwarded.antt =====
-- What src/bff/proxy.py forwards.
use Prim.Native.String.{String}
use mathlib.Core.Path.{◌≡◌, refl}
use mathlib.Core.Logic.{inl, inr}
use mathlib.Core.Bool.{Bool, true, false, ◌&&◌, ◌||◌, not}
use mathlib.Core.List.{List, [], ◌∷◌, ◌++◌}
use native.Mathlib.Omega.{arith}
use foundation_intelligence.Common.{
  Result, ok, err, ok_eq, any, select, if◌then◌else◌, Bool-cases, negated, Option-cases, and_parts,
  is_one_of, All, In, any-In, In-select, tabulate,
}
use foundation_intelligence.Security.Claims.{lowers_to}
use foundation_intelligence.Proxy.{
  Settings, HttpError, Forward, proxy_to_core, normalized_path, normalized_rule, path_allowed,
  rule_allows, before_star, is_safe_method, is_allowed_host, forwarded_headers, is_forwarded,
  bearer, last_of_name, same_name, is_header_of, client_only,
}
use foundation_intelligence.Proxy.Paths.{Covers, rule_allows-Covers, IsSafe, normalized_path-IsSafe}

-- A header of the client that may go on.
abbrev pub IsClientHeader : Settings → List (String × String) → String × String → Type 0
IsClientHeader settings headers h =
    In h headers
    × (is_header_of settings.forward_headers h ≡ true)
    × (is_header_of client_only h ≡ false)

last_of_name-In :
    (hs : List (String × String)) (h : String × String) → In h (last_of_name hs) → In h hs
unfolding last_of_name
last_of_name-In [] h m = m
last_of_name-In (x ∷ hs) h m = elim (Bool-cases (any (λ g. same_name g.0 x.0) hs)) [
  | inl again ↦ inr (last_of_name-In hs h (rw again at m))
  | inr last ↦ first_or (last_of_name-In hs h) (rw last at m)
]
  where
    first_or : (In h (last_of_name hs) → In h hs) → In h (x ∷ last_of_name hs) → In h (x ∷ hs)
    first_or f (inl e) = inl e
    first_or f (inr k) = inr (f k)

forwarded_headers-IsClientHeader :
    (settings : Settings) (headers : List (String × String))
    → All (IsClientHeader settings headers) (forwarded_headers settings headers)
unfolding forwarded_headers
forwarded_headers-IsClientHeader settings headers =
    tabulate (select (is_forwarded settings) (last_of_name headers)) (λ h m.
      let (k, on) = In-select (is_forwarded settings) h (last_of_name headers) m in
      let parts = and_parts _ _ on in
      (
        last_of_name-In headers h k,
        parts.0,
        neither (is_header_of client_only h) (lowers_to h.0 "x-request-id") parts.1,
      ))
  where
    neither : (a b : Bool) → not (a || b) ≡ true → a ≡ false
    neither a b e = ground arith

-- What may be sent on, for a request with a method, headers and a reserved key.
pub record IsForwardable (settings : Settings) (reserved : Bool) (request_id method : String)
    (headers : List (String × String)) (f : Forward) : Type 0 where
  pub is_on : settings.core_proxy_enabled ≡ true
  pub is_allowed : is_one_of method settings.allowed_methods ≡ true
  pub is_reserved : is_safe_method method ≡ false → reserved ≡ true
  pub covered :
      (rule : String) × In rule settings.allowed_paths × Covers (normalized_rule rule) f.path
  pub is_safe : IsSafe f.path
  pub host : is_allowed_host settings.allowed_hosts settings.core_host ≡ true
  pub same_method : f.method ≡ method
  pub sent :
      (client : List (String × String)) × (f.headers
        ≡ client ++ ("x-request-id", request_id) ∷ bearer settings.bearer_token)
      × All (IsClientHeader settings headers) client

-- A test that passed before an `ok`.
if_err :
    (test : Bool) (e : HttpError) (r : Result HttpError Forward) {f : Forward}
    → (if test then err e else r) ≡ ok f
    → (test ≡ false) × (r ≡ ok f)
if_err true e r h = cc
if_err false e r h = (refl, h)

-- A request is sent on only if the proxy is enabled, its method is allowed, a writing method has
-- reserved its key, and the host is allowed; then under a path that a rule of the allowlist covers
-- and that has no part leading up, and with no header of the client but those to be forwarded,
-- credentials, cookies, host and length never among them.
pub proxy_to_core-IsForwardable :
    (settings : Settings) (reserved : Bool) (request_id method path : String)
    (headers : List (String × String)) (f : Forward)
    → proxy_to_core settings reserved request_id method path headers ≡ ok f
    → IsForwardable settings reserved request_id method headers f
unfolding proxy_to_core path_allowed
proxy_to_core-IsForwardable settings reserved request_id method path headers f e =
    let (on, e1) = if_err (not settings.core_proxy_enabled) _ _ e in
    let (allowed, e2) = if_err (not (is_one_of method settings.allowed_methods)) _ _ e1 in
    let (key, e3) = if_err (not (is_safe_method method) && not reserved) _ _ e2 in
    elim (Option-cases (normalized_path path)) [
      | inl refused ↦ cc (rw refused at e3)
      | inr (safe, there) ↦
          let (path_on, e4) =
            if_err (not (path_allowed safe settings.allowed_paths)) _ _ (rw there at e3) in
          let (host_on, e5) =
            if_err (not (is_allowed_host settings.allowed_hosts settings.core_host)) _ _ e4 in
          let (rule, m, allows) =
            any-In
              (λ rule. rule_allows (normalized_rule rule) (before_star (normalized_rule rule)) safe)
              settings.allowed_paths (negated _ path_on) in
          rw (← ok_eq e5) (record {
            is_on = negated _ on;
            is_allowed = negated _ allowed;
            is_reserved = λ writes. needs_key (is_safe_method method) reserved key writes;
            covered = (rule, m, rule_allows-Covers (normalized_rule rule) safe allows);
            is_safe = normalized_path-IsSafe path there;
            host = negated _ host_on;
            same_method = refl;
            sent = (
              forwarded_headers settings headers,
              refl,
              forwarded_headers-IsClientHeader settings headers,
            );
          })
    ]
  where
    needs_key : (a b : Bool) → (not a && not b) ≡ false → a ≡ false → b ≡ true
    needs_key a b h k = ground arith
