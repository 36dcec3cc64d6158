-- ===== src/Transition/Tests.antt =====
-- Comparisons of two payloads, as src/transition/shadow.py makes them.
use Prim.Native.Nat.{ℕ, ◌≤◌}
use Prim.Native.String.{String}
use mathlib.Core.Path.{◌≡◌, refl}
use mathlib.Core.Logic.{◌↔◌}
use mathlib.Core.Bool.{true}
use mathlib.Core.Option.{Option, none, some}
use mathlib.Core.List.{List, [], ◌∷◌}
use native.Mathlib.Omega.{arith}
use foundation_intelligence.Transition.Values.{
  pos, Value, null, integer, float, string, array, dict, no_items, item, no_entries, entry, codes,
  lookup,
}
use foundation_intelligence.Transition.Canonical.{Policy, canonical}
use foundation_intelligence.Transition.Compare.{
  root, compare_payloads, missing_shadow, other_length,
}
use foundation_intelligence.Transition.Same.{Same, IsUnique}
use foundation_intelligence.Common.{if◌then◌else◌, ◌==◌, length}
use foundation_intelligence.Transition.Shadowing.{
  Request, Run, Coordinator, IsAccounted, idle, submits, ends, discards, task_count, submit,
  execute, at_rest, timeout, dropped_queue_full, Run-IsAccounted,
}
use foundation_intelligence.Transition.Middleware.{
  wrap, bodies, response_start, no_response, receive, is_compared, submission, wrap-whole,
}
use foundation_intelligence.Transition.Matching.{compare_payloads-Same}

abbrev policy : Policy
policy = record {
  unordered_paths = "$.ids" ∷ [];
  ignored_paths = "$.generated_at" ∷ [];
  maximum_differences = 2;
}

abbrev ids : ℕ → ℕ → Value
ids a b = array (item (integer (pos a)) (item (integer (pos b)) no_items))

abbrev primary : Value
primary = dict (
    entry "ids" (ids 1 2)
      (entry "total" (float "3.50") (entry "generated_at" (string "now") no_entries)))

abbrev shadow : Value
shadow = dict (entry "total" (float "3.50") (entry "ids" (ids 2 1) no_entries))

abbrev shorter : Value
shorter = dict (entry "ids" (array (item (integer (pos 1)) no_items)) no_entries)

abbrev fingerprint : Value → String
fingerprint v = "0123456789abcdef"

same_payloads : (compare_payloads fingerprint policy primary shadow).is_match ≡ true
unfolding compare_payloads
same_payloads = refl

primary-IsUnique : IsUnique primary
unfolding IsUnique lookup
primary-IsUnique = (refl, (tt, (tt, tt)), (refl, tt, (refl, tt, tt)))

compare_payloads-Same_example :
    (((compare_payloads fingerprint policy primary shadow).is_match ≡ true)
      ↔ Same (canonical policy root primary) (canonical policy root shadow))
    × ((compare_payloads fingerprint policy primary shadow).difference_count ≤ 2)
compare_payloads-Same_example =
    compare_payloads-Same fingerprint policy primary shadow primary-IsUnique (omega arith)

-- A shorter list and a missing key.
two_differences :
    (compare_payloads fingerprint policy primary shorter).differences
    ≡ (record {
      path = codes "$.ids";
      kind = other_length;
      primary_fingerprint = some "0123456789abcdef";
      shadow_fingerprint = some "0123456789abcdef";
    })
      ∷ (record {
        path = codes "$.total";
        kind = missing_shadow;
        primary_fingerprint = some "0123456789abcdef";
        shadow_fingerprint = none;
      })
      ∷ []
unfolding compare_payloads
two_differences = refl

-- A coordinator that lets one request wait at a time.
abbrev asked : String → Request
asked id = record {
  journey = "overview";
  method = "GET";
  path = "/api/charities/grants/overview";
  query_string = "";
  primary_payload = primary;
  request_id = id;
}

abbrev served : Coordinator
served = record {
  maximum_pending = 1;
  tasks = [];
  finished = [];
  recorded =
      execute fingerprint policy (asked "a") timeout
      ∷ (record {
        journey = "overview";
        request_id = "b";
        status = dropped_queue_full;
        differences = [];
      })
      ∷ [];
}

one_of_two_waits : Run fingerprint policy (at_rest 1) (asked "b" ∷ asked "a" ∷ []) served
unfolding submit
one_of_two_waits =
    discards [] [] (asked "a")
      (ends [] [] (asked "a") timeout (submits (asked "b") (submits (asked "a") idle)) refl) refl

Run-IsAccounted_example :
    IsAccounted fingerprint policy (λ id. true) (asked "b" ∷ asked "a" ∷ []) served
    × (served.maximum_pending ≡ 1)
    × (task_count served ≤ 1)
Run-IsAccounted_example = Run-IsAccounted fingerprint policy (λ id. true) 1 one_of_two_waits

abbrev no_json : List ℕ → Option Value
no_json body = if length body == 4 then some null else none

abbrev json : List (String × String)
json = ("Content-Type", "application/json") ∷ []

wrap-whole_example :
    wrap 5 no_json []
      (asked "a")
      (response_start 200 json ∷ bodies ((110 ∷ 117 ∷ []) ∷ []) (108 ∷ 108 ∷ []))
      no_response
    ≡ record (asked "unknown") { primary_payload = null } ∷ []
unfolding receive is_compared submission
wrap-whole_example =
    wrap-whole 5 no_json [] (asked "a") 200 json ((110 ∷ 117 ∷ []) ∷ []) (108 ∷ 108 ∷ [])
