-- ===== src/Security/Tests.antt =====
-- The theorems on rate limits, roles and idempotency keys at concrete calls.
use Prim.Native.Nat.{ℕ, ◌+◌, ◌*◌}
use Prim.Native.String.{String}
use mathlib.Core.Path.{◌≡◌, refl}
use mathlib.Core.Logic.{inl, inr}
use mathlib.Core.Bool.{true, false}
use mathlib.Core.List.{List, [], ◌∷◌}
use native.Mathlib.Omega.{arith}
use foundation_intelligence.Common.{ltb}
use foundation_intelligence.Security.RateLimit.{
  Limiter, Events, second, window, check, calls, fresh, drop_expired, wait_seconds, allowed,
  retry_after,
}
use foundation_intelligence.Security.RateLimit.Window.{recent}
use foundation_intelligence.Security.RateLimit.Spacing.{Spaced}
use foundation_intelligence.Security.RateLimit.History.{
  InOrder, calls-Spaced, check-is_allowed, check-retry_after, is_allowed,
}
use foundation_intelligence.Security.Roles.{
  Principal, Permitted, permits_any, permits_any-Permitted, operator, customer,
}
use foundation_intelligence.Security.Idempotency.{RecordKey, granted, conflict}
use foundation_intelligence.Security.Idempotency.Once.{
  Call, reserves, completes, releases, run, reserve-once,
}
use foundation_intelligence.Security.Idempotency.Postgres.{postgres_guard, reserve_row}
use foundation_intelligence.Security.Idempotency.Local.{local_guard, reserve_entry}

-- Two calls in ten seconds.
abbrev sample_limiter : Limiter
sample_limiter = record { limit = 2; window_seconds = 10 }

abbrev sample_calls : List (String × ℕ)
sample_calls =
    ("actor:1", 1000000) ∷ ("actor:2", 1500000) ∷ ("actor:1", 2500000) ∷ ("actor:1", 3000000) ∷ []

in_order : InOrder 0 sample_calls
in_order = (omega arith, (omega arith, (omega arith, (omega arith, tt))))

calls-Spaced_example :
    Spaced 2 (window sample_limiter) ((calls sample_limiter sample_calls fresh).admitted "actor:1")
calls-Spaced_example = calls-Spaced sample_limiter 0 sample_calls "actor:1" in_order

check-is_allowed_example :
    let s = calls sample_limiter sample_calls fresh in
    is_allowed (check sample_limiter "actor:1" 4000000 s.events).1
    ≡ ltb (recent sample_limiter 4000000 (s.admitted "actor:1")) 2
check-is_allowed_example =
    check-is_allowed sample_limiter 0 4000000 sample_calls "actor:1" in_order (omega arith)

abbrev after_calls : Events
after_calls =
    (check sample_limiter "actor:1" 4500000 (calls sample_limiter sample_calls fresh).events).0

-- 6.5 seconds are left, and 6 are announced.
told_to_wait :
    check sample_limiter "actor:1" 4500000 (calls sample_limiter sample_calls fresh).events
    ≡ (after_calls, retry_after 6)
unfolding check drop_expired wait_seconds
told_to_wait = refl

check-retry_after_example :
    (check sample_limiter "actor:1" (4500000 + (6 + 1) * second) after_calls).1 ≡ allowed
check-retry_after_example =
    check-retry_after sample_limiter 0 4500000 sample_calls "actor:1" after_calls 6 in_order
      (omega arith) told_to_wait

-- A call that comes exactly when it is told to is refused again.
told_too_early :
    (check sample_limiter "actor:1" (4500000 + 6 * second) after_calls).1 ≡ retry_after 1
unfolding check drop_expired wait_seconds
told_too_early = refl

abbrev sample_principal : Principal
sample_principal = record { actor_id = "1"; roles = operator ∷ [] }

permits_any-Permitted_example :
    (permits_any sample_principal (customer ∷ []) ≡ true
      → Permitted sample_principal (customer ∷ []))
    × (Permitted sample_principal (customer ∷ [])
        → permits_any sample_principal (customer ∷ []) ≡ true)
permits_any-Permitted_example = permits_any-Permitted sample_principal (customer ∷ [])

abbrev sample_key : RecordKey
sample_key = record { actor_id = "1"; action = "grants.export"; key = "k1" }

abbrev other_key : RecordKey
other_key = record { actor_id = "2"; action = "grants.export"; key = "k1" }

abbrev sample_run : List Call
sample_run =
    reserves 20 other_key "f2"
    ∷ releases other_key
    ∷ completes 30 sample_key
    ∷ releases sample_key
    ∷ reserves 40 sample_key "f1"
    ∷ []

first_reservation : ((postgres_guard 60).reserve 10 sample_key "f1" []).1 ≡ granted
unfolding reserve_row
first_reservation = refl

reserve-once_example :
    ((postgres_guard 60).reserve 50 sample_key "f3"
      (run (postgres_guard 60) sample_run ((postgres_guard 60).reserve 10 sample_key "f1" []).0)).1
    ≡ conflict true
reserve-once_example =
    reserve-once (postgres_guard 60) 10 50 sample_key "f1" "f3" sample_run [] first_reservation
      (inl refl, (inr refl, tt)) (omega arith, (omega arith, tt)) (omega arith)

-- The local store keeps the same promise.
local_reservation : ((local_guard 60).reserve 10 sample_key "f1" []).1 ≡ granted
unfolding reserve_entry
local_reservation = refl

local_once :
    ((local_guard 60).reserve 50 sample_key "f1"
      (run (local_guard 60) sample_run ((local_guard 60).reserve 10 sample_key "f1" []).0)).1
    ≡ conflict false
local_once =
    reserve-once (local_guard 60) 10 50 sample_key "f1" "f1" sample_run [] local_reservation
      (inl refl, (inr refl, tt)) (omega arith, (omega arith, tt)) (omega arith)
