-- ===== src/Proxy.antt =====
-- src/bff/proxy.py: which requests are forwarded to the core API, with which path and headers. The
-- principal has passed `require_roles`; `method` is the upper-case method; the host of the core API,
-- as `urlparse` reads it in lower case, is a setting. The names of headers are compared without
-- case; their order is not modelled.
-- Escaping the path, the query and the sending are left out.
mod Paths
mod Forwarded
mod Tests
use Prim.Native.Nat.{ℕ}
use Prim.Native.Char.{Char, code}
use Prim.Native.String.{String, ◌++◌ as str_append}
use mathlib.Core.Bool.{Bool, true, false, ◌&&◌, ◌||◌, not}
use mathlib.Core.Option.{Option, none, some}
use mathlib.Core.List.{List, [], ◌∷◌, ◌++◌}
use text.Mathlib.Text.{◌==◌ as str_eq}
use foundation_intelligence.Common.{
  Result, ok, err, any, select, ◌==◌, if◌then◌else◌, strip, is_empty, is_one_of, is_some,
}
use foundation_intelligence.Security.Claims.{lowers_to, lower_code}

-- `path.split("/")`: the part before the first slash, and the others.
unfoldable pub split : String → String × List String
split String.[] = (String.[], [])
split (String.◌∷◌ c s) =
    let (part, parts) = split s in
    if code c == 47 then (String.[], part ∷ parts) else (String.◌∷◌ c part, parts)

-- `"\\" in path or "//" in path`
unfoldable pub has_backslash : String → Bool
has_backslash String.[] = false
has_backslash (String.◌∷◌ c s) = code c == 92 || has_backslash s

abbrev pub starts_slash : String → Bool
starts_slash String.[] = false
starts_slash (String.◌∷◌ c s) = code c == 47

unfoldable pub has_double_slash : String → Bool
has_double_slash String.[] = false
has_double_slash (String.◌∷◌ c s) = (code c == 47 && starts_slash s) || has_double_slash s

abbrev pub is_named : String → Bool
is_named part = not (is_empty part) && not (str_eq part ".")

-- `PurePosixPath(path).parts`: a root, and the parts that are neither empty nor a dot.
unfoldable pub path_parts : String → List String
unfolding split
path_parts path =
    let (part, parts) = split path in
    let named = select is_named (part ∷ parts) in if starts_slash path then "/" ∷ named else named

-- `"/".join(parts)`
unfoldable pub join : List String → String
join [] = ""
join (p ∷ []) = p
join (p ∷ q ∷ ps) = str_append p (str_append "/" (join (q ∷ ps)))

-- `_normalized_path`: `none` is the 403.
unfoldable pub normalized_path : String → Option String
unfolding has_backslash has_double_slash path_parts join
normalized_path path =
    if is_empty path || (has_backslash path || has_double_slash path)
    then none
    else if any (λ part. is_one_of part ("" ∷ "." ∷ ".." ∷ [])) (path_parts path)
    then none
    else some (join (path_parts path))

-- `rule.strip("/")`
unfoldable pub lstrip_slash : String → String
lstrip_slash String.[] = String.[]
lstrip_slash (String.◌∷◌ c s) = if code c == 47 then lstrip_slash s else String.◌∷◌ c s

abbrev keep_part : Char → String → String
keep_part c String.[] = if code c == 47 then String.[] else String.◌∷◌ c String.[]
keep_part c (String.◌∷◌ d s) = String.◌∷◌ c (String.◌∷◌ d s)

unfoldable pub rstrip_slash : String → String
rstrip_slash String.[] = String.[]
rstrip_slash (String.◌∷◌ c s) = keep_part c (rstrip_slash s)

unfoldable pub normalized_rule : String → String
unfolding lstrip_slash rstrip_slash
normalized_rule rule = rstrip_slash (lstrip_slash (strip rule))

abbrev pub prepend : Char → Option String → Option String
prepend c none = none
prepend c (some s) = some (String.◌∷◌ c s)

-- `rule[:-2]`, if the rule ends in a slash and a star.
unfoldable pub before_star : String → Option String
before_star String.[] = none
before_star (String.◌∷◌ c s) =
    let rest = prepend c (before_star s) in
    if str_eq (String.◌∷◌ c s) "/*" then some String.[] else rest

-- `path[len(prefix):]`, if the path starts with the prefix.
unfoldable pub after_prefix : String → String → Option String
after_prefix String.[] s = some s
after_prefix (String.◌∷◌ c p) String.[] = none
after_prefix (String.◌∷◌ c p) (String.◌∷◌ d s) = if code c == code d then after_prefix p s else none

abbrev pub rule_allows : String → Option String → String → Bool
rule_allows rule none path = str_eq path rule
rule_allows rule (some prefix) path =
    str_eq path prefix || is_some (after_prefix (str_append prefix "/") path)

-- `_path_allowed`
unfoldable pub path_allowed : String → List String → Bool
unfolding normalized_rule before_star after_prefix
path_allowed path =
    any (λ rule. rule_allows (normalized_rule rule) (before_star (normalized_rule rule)) path)

pub record Settings : Type 0 where
  pub core_proxy_enabled : Bool
  pub allowed_methods : List String
  pub allowed_paths : List String
  pub forward_headers : List String
  pub core_host : Option String
  pub allowed_hosts : List String
  pub bearer_token : Option String

pub data HttpError : Type 0 where
  not_found method_not_allowed path_not_allowed unsafe_destination : HttpError
  not_reserved : HttpError

-- What is sent on: with a body, unless the method is GET or HEAD.
pub record Forward : Type 0 where
  pub method : String
  pub path : String
  pub headers : List (String × String)
  pub has_body : Bool

-- `key.lower() in names`, for names in lower case
abbrev pub is_header_of : List String → String × String → Bool
is_header_of names h = any (λ name. lowers_to h.0 name) names

-- The headers that a client never passes on.
abbrev pub client_only : List String
client_only = "authorization" ∷ "cookie" ∷ "host" ∷ "content-length" ∷ []

-- `a.lower() == b.lower()`, for names in ASCII
unfoldable pub same_name : String → String → Bool
same_name String.[] String.[] = true
same_name String.[] (String.◌∷◌ d t) = false
same_name (String.◌∷◌ c s) String.[] = false
same_name (String.◌∷◌ c s) (String.◌∷◌ d t) =
    lower_code (code c) == lower_code (code d) && same_name s t

-- A dictionary keeps the last of the headers with one name.
unfoldable pub last_of_name : List (String × String) → List (String × String)
unfolding same_name
last_of_name [] = []
last_of_name (h ∷ hs) =
    let rest = last_of_name hs in if any (λ g. same_name g.0 h.0) hs then rest else h ∷ rest

abbrev pub is_forwarded : Settings → String × String → Bool
is_forwarded settings h =
    is_header_of settings.forward_headers h
    && not (is_header_of client_only h || lowers_to h.0 "x-request-id")

-- The client's headers that go on. The request id takes the place of the client's.
unfoldable pub forwarded_headers : Settings → List (String × String) → List (String × String)
unfolding lowers_to last_of_name
forwarded_headers settings headers = select (is_forwarded settings) (last_of_name headers)

abbrev pub is_safe_method : String → Bool
is_safe_method method = is_one_of method ("GET" ∷ "HEAD" ∷ "OPTIONS" ∷ [])

-- `bearer_token or ""`
abbrev pub bearer : Option String → List (String × String)
bearer none = []
bearer (some token) =
    if is_empty token then [] else ("authorization", str_append "Bearer " token) ∷ []

abbrev pub is_allowed_host : List String → Option String → Bool
is_allowed_host hosts none = false
is_allowed_host hosts (some host) = not (is_empty host) && is_one_of host hosts

-- `proxy_to_core` up to the request that it sends. `reserved` is whether `reserve_idempotency` lets a
-- writing method through.
unfoldable pub proxy_to_core :
    Settings → Bool → String → String → String → List (String × String) → Result HttpError Forward
unfolding normalized_path path_allowed forwarded_headers
proxy_to_core settings reserved request_id method path headers =
    if not settings.core_proxy_enabled
    then err not_found
    else if not (is_one_of method settings.allowed_methods)
    then err method_not_allowed
    else if not (is_safe_method method) && not reserved
    then err not_reserved
    else elim (normalized_path path) [
      | none ↦ err path_not_allowed
      | some safe ↦
          if not (path_allowed safe settings.allowed_paths)
          then err path_not_allowed
          else if not (is_allowed_host settings.allowed_hosts settings.core_host)
          then err unsafe_destination
          else ok (record {
            method = method;
            path = safe;
            headers =
                forwarded_headers settings headers
                ++ ("x-request-id", request_id) ∷ bearer settings.bearer_token;
            has_body = not (is_one_of method ("GET" ∷ "HEAD" ∷ []));
          })
    ]
