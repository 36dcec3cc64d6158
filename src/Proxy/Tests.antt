-- ===== src/Proxy/Tests.antt =====
-- Requests to the proxy of src/bff/proxy.py.
use mathlib.Core.Path.{◌≡◌, refl}
use mathlib.Core.Bool.{true, false}
use mathlib.Core.Option.{some}
use mathlib.Core.List.{List, [], ◌∷◌}
use Prim.Native.String.{String}
use foundation_intelligence.Common.{ok, err, strip}
use foundation_intelligence.Proxy.{Settings, Forward, proxy_to_core, path_not_allowed, not_reserved}
use foundation_intelligence.Proxy.Forwarded.{IsForwardable, proxy_to_core-IsForwardable}

abbrev settings : Settings
settings = record {
  core_proxy_enabled = true;
  allowed_methods = "GET" ∷ "POST" ∷ [];
  allowed_paths = "v1/*" ∷ [];
  forward_headers = "accept" ∷ "cookie" ∷ [];
  core_host = some "core";
  allowed_hosts = "core" ∷ [];
  bearer_token = some "t";
}

abbrev headers : List (String × String)
headers = ("Accept", "application/json") ∷ ("Cookie", "session") ∷ ("X-Other", "1") ∷ []

abbrev forward : Forward
forward = record {
  method = "POST";
  path = "v1/funders";
  headers =
      ("Accept", "application/json") ∷ ("x-request-id", "r1") ∷ ("authorization", "Bearer t") ∷ [];
  has_body = true;
}

posted : proxy_to_core settings true "r1" "POST" "v1/./funders/" headers ≡ ok forward
unfolding proxy_to_core strip
posted = refl

upwards : proxy_to_core settings true "r1" "GET" "v1/../admin" headers ≡ err path_not_allowed
unfolding proxy_to_core strip
upwards = refl

unreserved : proxy_to_core settings false "r1" "POST" "v1" headers ≡ err not_reserved
unfolding proxy_to_core strip
unreserved = refl

proxy_to_core-IsForwardable_example : IsForwardable settings true "r1" "POST" headers forward
proxy_to_core-IsForwardable_example =
    proxy_to_core-IsForwardable settings true "r1" "POST" "v1/./funders/" headers forward posted
