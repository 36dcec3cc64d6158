-- ===== src/Transition/Shadowing.antt =====
-- `ShadowComparisonCoordinator` and `ShadowComparisonMiddleware` of src/transition/shadow.py: what is
-- read in the background, and which responses are handed over for it. The shadow reader is a
-- parameter: it answers, takes too long or raises. Durations are left out.
use Prim.Native.Nat.{ℕ, ◌+◌, ◌≤◌}
use Prim.Native.String.{String}
use mathlib.Core.Path.{◌≡◌, refl, ap}
use mathlib.Core.Logic.{inl, inr}
use mathlib.Core.Bool.{Bool, true, false}
use mathlib.Core.List.{List, [], ◌∷◌, ◌++◌}
use native.Mathlib.Omega.{arith}
use foundation_intelligence.Common.{leb, if◌then◌else◌, Bool-cases, length, length-append}
use foundation_intelligence.Transition.Values.{Value}
use foundation_intelligence.Transition.Canonical.{Policy}
use foundation_intelligence.Transition.Compare.{Difference, compare_payloads}

-- `ShadowRequest`
pub record Request : Type 0 where
  pub journey : String
  pub method : String
  pub path : String
  pub query_string : String
  pub primary_payload : Value
  pub request_id : String

-- `ComparisonResult.status`
pub data Status : Type 0 where
  matched different dropped_queue_full shadow_timeout : Status
  shadow_error : (class_name : String) → Status

-- `ComparisonResult`
pub record Evidence : Type 0 where
  pub journey : String
  pub request_id : String
  pub status : Status
  pub differences : List Difference

-- How `reader.read` ends.
pub data Reading : Type 0 where
  payload : Value → Reading
  timeout : Reading
  raised : (class_name : String) → Reading

-- `_tasks` are the tasks that run, and those that have finished and are discarded in a later
-- iteration of the event loop; `recorded` is what the sink has been given, the last first.
pub record Coordinator : Type 0 where
  pub maximum_pending : ℕ
  pub tasks : List Request
  pub finished : List Request
  pub recorded : List Evidence

abbrev pub status_of : Bool → Status
status_of true = matched
status_of false = different

abbrev evidence : Request → Status → List Difference → Evidence
evidence r s ds = record {
  journey = r.journey;
  request_id = r.request_id;
  status = s;
  differences = ds;
}

-- `len(self._tasks)`
abbrev pub task_count : Coordinator → ℕ
task_count c = length c.tasks + length c.finished

-- `submit`
unfoldable pub submit : Request → Coordinator → Coordinator × Bool
submit r c =
    if leb c.maximum_pending (task_count c)
    then (record c { recorded = evidence r dropped_queue_full [] ∷ c.recorded }, false)
    else (record c { tasks = c.tasks ++ r ∷ [] }, true)

module _ (fingerprint : Value → String) (policy : Policy) where
  -- `_execute`, once the reader has ended.
  unfoldable pub execute : Request → Reading → Evidence
  execute r (payload shadow) =
      let result = compare_payloads fingerprint policy r.primary_payload shadow in
      evidence r (status_of result.is_match) result.differences
  execute r timeout = evidence r shadow_timeout []
  execute r (raised class_name) = evidence r (shadow_error class_name) []

  -- A run of the event loop, with the requests that were submitted in it, the last first. Each task
  -- ends in its own time and records its evidence; its done-callback discards it later.
  pub data Run (c : Coordinator) : List Request → Coordinator → Type 0 where
    idle : Run c [] c
    submits :
        {rs : List Request} {d : Coordinator} (r : Request)
        → Run c rs d
        → Run c (r ∷ rs) (submit r d).0
    ends :
        {rs : List Request} {d : Coordinator} (before after : List Request) (r : Request)
        (reading : Reading)
        → Run c rs d
        → d.tasks ≡ before ++ r ∷ after
        → Run c rs (record d {
          tasks = before ++ after;
          finished = r ∷ d.finished;
          recorded = execute r reading ∷ d.recorded;
        })
    discards :
        {rs : List Request} {d : Coordinator} (before after : List Request) (r : Request)
        → Run c rs d
        → d.finished ≡ before ++ r ∷ after
        → Run c rs (record d { finished = before ++ after })

-- How many pass a test.
abbrev pub tally : {A : Type 0} → (A → Bool) → List A → ℕ
tally p [] = 0
tally p (x ∷ xs) = (if p x then 1 else 0) + tally p xs

tally-append :
    {A : Type 0} (p : A → Bool) (xs ys : List A) → tally p (xs ++ ys) ≡ tally p xs + tally p ys
tally-append p [] ys = omega arith
tally-append p (x ∷ xs) ys = omega (arith, tally-append p xs ys)

abbrev pub at_rest : ℕ → Coordinator
at_rest maximum = record { maximum_pending = maximum; tasks = []; finished = []; recorded = [] }

module _ (fingerprint : Value → String) (policy : Policy) (p : String → Bool) where
  -- The requests with an id that passes `p`, by where they are.
  abbrev pub IsAccounted : List Request → Coordinator → Type 0
  IsAccounted rs c =
      tally (λ (r : Request). p r.request_id) rs
      ≡ tally (λ (e : Evidence). p e.request_id) c.recorded
        + tally (λ (r : Request). p r.request_id) c.tasks

  submit-IsAccounted :
      (rs : List Request) (r : Request) (c : Coordinator)
      → IsAccounted rs c
      → IsAccounted (r ∷ rs) (submit r c).0
  unfolding submit
  submit-IsAccounted rs r c h = elim (Bool-cases (leb c.maximum_pending (task_count c))) [
    | inl full ↦ rw full (omega (arith, h))
    | inr room ↦
        rw room (omega (arith, h, tally-append (λ (r : Request). p r.request_id) c.tasks (r ∷ [])))
  ]

  executed_id :
      (r : Request) (reading : Reading)
      → (execute fingerprint policy r reading).request_id ≡ r.request_id
  unfolding execute
  executed_id r (payload v) = refl
  executed_id r timeout = refl
  executed_id r (raised class_name) = refl

  ended-IsAccounted :
      (rs before after : List Request) (r : Request) (reading : Reading) (c : Coordinator)
      → c.tasks ≡ before ++ r ∷ after
      → IsAccounted rs c
      → IsAccounted rs (record c {
        tasks = before ++ after;
        finished = r ∷ c.finished;
        recorded = execute fingerprint policy r reading ∷ c.recorded;
      })
  ended-IsAccounted rs before after r reading c e h = rw (executed_id r reading) (
      omega (
        arith,
        h,
        ap (tally (λ (r : Request). p r.request_id)) e,
        tally-append (λ (r : Request). p r.request_id) before (r ∷ after),
        tally-append (λ (r : Request). p r.request_id) before after,
      ))

  submit_bound :
      (r : Request) (m : ℕ) (c : Coordinator)
      → (c.maximum_pending ≡ m) × (task_count c ≤ m)
      → ((submit r c).0.maximum_pending ≡ m) × (task_count (submit r c).0 ≤ m)
  unfolding submit
  submit_bound r m c h = elim (Bool-cases (leb c.maximum_pending (task_count c))) [
    | inl full ↦ rw full h
    | inr room ↦
        rw room (h.0, let n = length-append c.tasks (r ∷ []) in let e = h.0 in ground arith)
  ]

  -- A list from which one element was taken.
  taken :
      (before after rs : List Request) (r : Request)
      → rs ≡ before ++ r ∷ after
      → length rs ≡ length (before ++ after) + 1
  taken before after rs r e =
      omega (arith, ap length e, length-append before (r ∷ after), length-append before after)

  -- In any run from rest, at most the maximum of tasks wait or are finished and not discarded yet, and every request that was
  -- submitted waits or has been recorded, exactly once, be it compared, dropped, timed out or failed:
  -- for every set of request ids, as many were submitted as are recorded and wait.
  pub Run-IsAccounted :
      (maximum : ℕ) {rs : List Request} {c : Coordinator}
      → Run fingerprint policy (at_rest maximum) rs c
      → IsAccounted rs c × (c.maximum_pending ≡ maximum) × (task_count c ≤ maximum)
  Run-IsAccounted maximum idle = (refl, refl, omega arith)
  Run-IsAccounted maximum (submits {rs} {d} r run) =
      let (accounted, same, bound) = Run-IsAccounted maximum run in
      let (same', bound') = submit_bound r maximum d (same, bound) in
      (submit-IsAccounted rs r d accounted, same', bound')
  Run-IsAccounted maximum (ends {rs} {d} before after r reading run e) =
      let (accounted, same, bound) = Run-IsAccounted maximum run in
      (
        ended-IsAccounted rs before after r reading d e accounted,
        same,
        omega (arith, bound, taken before after d.tasks r e),
      )
  Run-IsAccounted maximum (discards {rs} {d} before after r run e) =
      let (accounted, same, bound) = Run-IsAccounted maximum run in
      (accounted, same, omega (arith, bound, taken before after d.finished r e))
