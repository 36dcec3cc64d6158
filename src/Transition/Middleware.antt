-- ===== src/Transition/Middleware.antt =====
-- `ShadowComparisonMiddleware` of src/transition/shadow.py for one HTTP request of a journey that is
-- compared: the messages of the response, and what is submitted when it is complete. The coordinator
-- is called with the request; `json.loads` is a parameter, `none` where it raises.
use Prim.Native.Nat.{ℕ, ◌+◌}
use Prim.Native.Char.{code}
use Prim.Native.String.{String}
use mathlib.Core.Path.{◌≡◌, refl}
use mathlib.Core.Logic.{inl, inr}
use mathlib.Core.Bool.{Bool, true, false, ◌&&◌, ◌||◌, not}
use mathlib.Core.Option.{Option, none, some}
use mathlib.Core.List.{List, [], ◌∷◌, ◌++◌, append_assoc, append-nil}
use native.Mathlib.Omega.{arith}
use text.Mathlib.Text.{◌==◌ as str_eq}
use foundation_intelligence.Common.{
  ◌==◌, leb, if◌then◌else◌, Bool-cases, length, length-append, coalesce,
}
use foundation_intelligence.Security.Claims.{lowers_to}
use foundation_intelligence.Transition.Values.{Value}
use foundation_intelligence.Transition.Shadowing.{Request}

pub data Message : Type 0 where
  response_start : (status : ℕ) (headers : List (String × String)) → Message
  response_body : (chunk : List ℕ) (more_body : Bool) → Message

-- The variables that `send_wrapper` keeps.
pub record Response : Type 0 where
  pub status : ℕ
  pub content_type : String
  pub request_id : String
  pub body : List ℕ
  pub oversized : Bool

abbrev pub no_response : Response
no_response = record {
  status = 0;
  content_type = "";
  request_id = "unknown";
  body = [];
  oversized = false;
}

-- `{key.lower(): value for …}.get(name)`: of headers with one name the last counts.
unfoldable pub header : String → List (String × String) → Option String
unfolding lowers_to
header name [] = none
header name ((key, value) ∷ rest) =
    coalesce (header name rest) (if lowers_to key name then some value else none)

abbrev pub get_or : {A : Type 0} → Option A → A → A
get_or none d = d
get_or (some a) d = a

-- `part in text`
unfoldable pub starts : String → String → Bool
starts String.[] s = true
starts (String.◌∷◌ c p) String.[] = false
starts (String.◌∷◌ c p) (String.◌∷◌ d s) = code c == code d && starts p s

unfoldable pub has_part : String → String → Bool
unfolding starts
has_part p String.[] = starts p String.[]
has_part p (String.◌∷◌ c s) = starts p (String.◌∷◌ c s) || has_part p s

module _ (maximum : ℕ) where
  -- The `if … elif …` of `send_wrapper`.
  unfoldable pub receive : Message → Response → Response
  unfolding header
  receive (response_start status headers) r = record r {
    status = status;
    content_type = get_or (header "content-type" headers) "";
    request_id = get_or (header "x-request-id" headers) "unknown";
  }
  receive (response_body chunk more_body) r =
      if r.oversized
      then r
      else if leb (length r.body + length chunk) maximum
      then record r { body = r.body ++ chunk }
      else record r { oversized = true; body = [] }

  -- The condition under which a response is compared, once it is complete.
  unfoldable pub is_compared : Response → Bool
  unfolding has_part
  is_compared r = r.status == 200 && (not r.oversized && has_part "application/json" r.content_type)

  module _ (loads : List ℕ → Option Value) (scope : List (String × String))
      (request : Request) where
    -- The request that is submitted: `request` has the journey, the method, the path and the query.
    unfoldable pub submission : Response → List Request
    unfolding header
    submission r = elim (loads r.body) [
      | none ↦ []
      | some v ↦
          record request {
            primary_payload = v;
            request_id =
                if str_eq r.request_id "unknown"
                then get_or (header "x-request-id" scope) "unknown"
                else r.request_id;
          }
          ∷ []
    ]

    abbrev pub is_last : Message → Bool
    is_last (response_start status headers) = false
    is_last (response_body chunk more_body) = not more_body

    -- `send_wrapper`, for each message in turn: it is sent on as it is, and the last may submit.
    unfoldable pub wrap : List Message → Response → List Request
    unfolding receive is_compared submission
    wrap [] r = []
    wrap (m ∷ ms) r =
        let r' = receive m r in
        let rest = wrap ms r' in if is_last m && is_compared r' then submission r' ++ rest else rest

-- A body in chunks, the last of which is marked.
abbrev pub bodies : List (List ℕ) → List ℕ → List Message
bodies [] end = response_body end false ∷ []
bodies (chunk ∷ chunks) end = response_body chunk true ∷ bodies chunks end

abbrev pub joined : List (List ℕ) → List ℕ → List ℕ
joined [] end = end
joined (chunk ∷ chunks) end = chunk ++ joined chunks end

module _ (maximum : ℕ) (loads : List ℕ → Option Value) (scope : List (String × String))
    (request : Request) where
  -- What is submitted for a whole body.
  abbrev pub whole : Response → List ℕ → List Request
  whole r body =
      let complete : Response = record r { body = body } in
      if leb (length body) maximum && is_compared maximum complete
      then submission maximum loads scope request complete
      else []

  receive_over :
      (chunk : List ℕ) (more : Bool) (r : Response)
      → r.oversized ≡ true
      → receive maximum (response_body chunk more) r ≡ r
  unfolding receive
  receive_over chunk more r h = simp h

  receive_fits :
      (chunk : List ℕ) (more : Bool) (r : Response)
      → r.oversized ≡ false
      → leb (length r.body + length chunk) maximum ≡ true
      → receive maximum (response_body chunk more) r ≡ record r { body = r.body ++ chunk }
  unfolding receive
  receive_fits chunk more r h fits = simp (h, fits)

  receive_exceeds :
      (chunk : List ℕ) (more : Bool) (r : Response)
      → r.oversized ≡ false
      → leb (length r.body + length chunk) maximum ≡ false
      → receive maximum (response_body chunk more) r ≡ record r { oversized = true; body = [] }
  unfolding receive
  receive_exceeds chunk more r h exceeds = simp (h, exceeds)

  compared_over : (r : Response) → r.oversized ≡ true → is_compared maximum r ≡ false
  unfolding is_compared
  compared_over r h = ground arith

  oversized_bodies :
      (chunks : List (List ℕ)) (end : List ℕ) (r : Response)
      → r.oversized ≡ true
      → wrap maximum loads scope request (bodies chunks end) r ≡ []
  unfolding wrap
  oversized_bodies [] end r h = rw (receive_over end false r h, compared_over r h) refl
  oversized_bodies (chunk ∷ chunks) end r h =
      rw (receive_over chunk true r h) (oversized_bodies chunks end r h)

  too_long :
      (xs ys : List ℕ) → leb (length xs) maximum ≡ false → leb (length (xs ++ ys)) maximum ≡ false
  too_long xs ys h = let n = length-append xs ys in ground arith

  one_left :
      (test : Bool) (rs : List Request)
      → (if test then rs ++ [] else []) ≡ (if test then rs else [])
  one_left true rs = append-nil rs
  one_left false rs = refl

  wrap-bodies :
      (chunks : List (List ℕ)) (end : List ℕ) (r : Response)
      → r.oversized ≡ false
      → wrap maximum loads scope request (bodies chunks end) r
        ≡ whole r (r.body ++ joined chunks end)
  unfolding wrap
  wrap-bodies [] end r h = elim (Bool-cases (leb (length r.body + length end) maximum)) [
    | inl fits ↦ rw (receive_fits end false r h fits, length-append r.body end, fits) (one_left _ _)
    | inr exceeds ↦
        let over : Response = record r { oversized = true; body = [] } in
        rw
          (
            receive_exceeds end false r h exceeds,
            length-append r.body end,
            exceeds,
            compared_over over refl,
          )
          refl
  ]
  wrap-bodies (chunk ∷ chunks) end r h =
      elim (Bool-cases (leb (length r.body + length chunk) maximum)) [
        | inl fits ↦
            rw (receive_fits chunk true r h fits, ← append_assoc r.body chunk (joined chunks end))
              (wrap-bodies chunks end (record r { body = r.body ++ chunk }) h)
        | inr exceeds ↦
            let over : Response = record r { oversized = true; body = [] } in
            let long =
              too_long (r.body ++ chunk) (joined chunks end)
                (rw (length-append r.body chunk) exceeds) in
            rw
              (
                receive_exceeds chunk true r h exceeds,
                ← append_assoc r.body chunk (joined chunks end),
                long,
              )
              (oversized_bodies chunks end over refl)
      ]

  -- A response in any number of chunks is submitted for comparison exactly as if its whole body had
  -- come in one piece of at most the maximum of bytes: once, with the value that the body loads, if
  -- the status is 200, the content is JSON and the body loads; otherwise not at all.
  pub wrap-whole :
      (status : ℕ) (headers : List (String × String)) (chunks : List (List ℕ)) (end : List ℕ)
      → wrap maximum loads scope request
          (response_start status headers ∷ bodies chunks end)
          no_response
        ≡ whole (receive maximum (response_start status headers) no_response) (joined chunks end)
  unfolding wrap receive
  wrap-whole status headers chunks end =
      wrap-bodies chunks end (receive maximum (response_start status headers) no_response) refl
