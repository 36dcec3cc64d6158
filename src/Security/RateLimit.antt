-- ===== src/Security/RateLimit.antt =====
-- `SlidingWindowRateLimiter` of src/bff/security.py. A time is a number of microseconds of the
-- monotonic clock, where Python has a float of seconds.
pub mod Window
pub mod Spacing
pub mod History
use Prim.Native.Nat.{ℕ, ◌≤◌, ◌+◌, ◌*◌, ◌-◌, ◌/◌, max}
use Prim.Native.String.{String}
use mathlib.Core.Bool.{Bool, true, false}
use mathlib.Core.List.{List, [], ◌∷◌, ◌++◌}
use text.Mathlib.Text.{◌==◌ as str_eq}
use foundation_intelligence.Common.{leb, length, if◌then◌else◌}

pub record Limiter : Type 0 where
  pub limit : ℕ
  pub window_seconds : ℕ

-- `self._events`, a `defaultdict(deque)`: the oldest time of a key is first.
abbrev pub Events : Type 0
Events = String → List ℕ

-- What `check` answers: `None`, the seconds to wait, or the `IndexError` of `events[0]` on an
-- empty deque, where the limit is 0.
pub data Verdict : Type 0 where
  allowed : Verdict
  retry_after : ℕ → Verdict
  index_error : Verdict

abbrev pub second : ℕ
second = 1000000

abbrev pub window : Limiter → ℕ
window l = l.window_seconds * second

-- `while events and events[0] <= oldest_allowed: events.popleft()`
unfoldable pub drop_expired : Limiter → ℕ → List ℕ → List ℕ
drop_expired l now [] = []
drop_expired l now (e ∷ es) =
    let rest = drop_expired l now es in if leb (e + window l) now then rest else e ∷ es

abbrev pub put : String → List ℕ → Events → Events
put key times events k = if str_eq k key then times else events k

-- `max(1, int(self.window_seconds - (timestamp - events[0])))`
unfoldable pub wait_seconds : Limiter → ℕ → List ℕ → Verdict
wait_seconds l now [] = index_error
wait_seconds l now (e ∷ es) = retry_after (max 1 ((e + window l - now) / second))

unfoldable pub check : Limiter → String → ℕ → Events → Events × Verdict
check l key now events =
    let times = drop_expired l now (events key) in
    if leb l.limit (length times)
    then (put key times events, wait_seconds l now times)
    else (put key (times ++ now ∷ []) events, allowed)

-- The calls of a process, with their times, and what they admit: per key, the newest first.
pub record State : Type 0 where
  pub events : Events
  pub admitted : Events

abbrev pub fresh : State
fresh = record { events = λ _. []; admitted = λ _. [] }

abbrev pub noted : String → ℕ → Verdict → Events → Events
noted key now allowed admitted = put key (now ∷ admitted key) admitted
noted key now _ admitted = admitted

abbrev pub call : Limiter → String → ℕ → State → State
call l key now s =
    let (events, verdict) = check l key now s.events in
    record { events = events; admitted = noted key now verdict s.admitted }

abbrev pub calls : Limiter → List (String × ℕ) → State → State
calls l [] s = s
calls l ((key, now) ∷ cs) s = calls l cs (call l key now s)
