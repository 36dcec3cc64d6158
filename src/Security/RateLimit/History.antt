-- ===== src/Security/RateLimit/History.antt =====
-- `SlidingWindowRateLimiter` of src/bff/security.py after any calls.
use Prim.Native.Nat.{ℕ, ◌+◌, ◌-◌, ◌*◌, ◌/◌, max, ◌≤◌, ◌<◌}
use Prim.Native.String.{String}
use mathlib.Core.Path.{◌≡◌, refl, sym, ap, ◌∙◌, subst}
use mathlib.Core.Logic.{inl, inr}
use mathlib.Core.Bool.{Bool, true, false}
use mathlib.Core.List.{List, [], ◌∷◌}
use native.Mathlib.Omega.{arith}
use foundation_intelligence.Common.{Bool-cases, length, ltb, leb}
use foundation_intelligence.Security.RateLimit.{
  Limiter, Events, Verdict, State, window, drop_expired, wait_seconds, second, check, put, call,
  calls, fresh, allowed, retry_after, index_error,
}
use foundation_intelligence.Security.RateLimit.Window.{Tracks-later, Tracks-recent, recent}
use foundation_intelligence.Security.RateLimit.Spacing.{
  Spaced, Holds, call-Holds, length-drop_expired-le, str_eq_refl,
}

-- The clock of the calls does not go back.
abbrev pub InOrder : ℕ → List (String × ℕ) → Type 0
InOrder start [] = Unit
InOrder start ((key, now) ∷ cs) = (start ≤ now) × InOrder now cs

abbrev pub last_time : ℕ → List (String × ℕ) → ℕ
last_time start [] = start
last_time start ((key, now) ∷ cs) = last_time now cs

pub calls-Holds :
    (l : Limiter) (start : ℕ) (cs : List (String × ℕ)) (s : State) (key : String)
    → InOrder start cs
    → Holds l start s key
    → Holds l (last_time start cs) (calls l cs s) key
calls-Holds l start [] s key o h = h
calls-Holds l start ((called, now) ∷ cs) s key o h =
    calls-Holds l now cs (call l called now s) key o.1 (
      call-Holds l now called key s (record {
        tracks = Tracks-later l start now (s.events key) (s.admitted key) o.0 h.tracks;
        spaced = h.spaced;
        short = h.short;
      }))

pub fresh-Holds : (l : Limiter) (start : ℕ) (key : String) → Holds l start fresh key
fresh-Holds l start key = record {
  tracks = record { gone = []; split = refl; expired = tt; ascending = tt; past = tt };
  spaced = tt;
  short = omega arith;
}

-- After any calls of any keys in the order of the clock, an admitted call of a key came at least a
-- window after the admitted call `limit` places before it: no window admits more than `limit` calls.
pub calls-Spaced :
    (l : Limiter) (start : ℕ) (cs : List (String × ℕ)) (key : String)
    → InOrder start cs
    → Spaced l.limit (window l) ((calls l cs fresh).admitted key)
calls-Spaced l start cs key o =
    (calls-Holds l start cs fresh key o (fresh-Holds l start key)).spaced

abbrev pub is_allowed : Verdict → Bool
is_allowed allowed = true
is_allowed (retry_after seconds) = false
is_allowed index_error = false

refused : (l : Limiter) (now : ℕ) (times : List ℕ) → is_allowed (wait_seconds l now times) ≡ false
unfolding wait_seconds
refused l now [] = refl
refused l now (e ∷ es) = refl

-- The next call of a key is admitted exactly if fewer than `limit` calls of that key were admitted
-- in the window that ends with it: the deque decides as the whole history would.
pub check-is_allowed :
    (l : Limiter) (start now : ℕ) (cs : List (String × ℕ)) (key : String)
    → InOrder start cs
    → last_time start cs ≤ now
    → let s = calls l cs fresh in
      is_allowed (check l key now s.events).1 ≡ ltb (recent l now (s.admitted key)) l.limit
unfolding check
check-is_allowed l start now cs key o late =
    let s = calls l cs fresh in
    let holds = calls-Holds l start cs fresh key o (fresh-Holds l start key) in
    let tracks =
      Tracks-later l (last_time start cs) now (s.events key) (s.admitted key) late holds.tracks in
    let count = Tracks-recent l now (s.events key) (s.admitted key) tracks in
    elim (Bool-cases (leb l.limit (length (drop_expired l now (s.events key))))) [
      | inl full ↦ rw (full, refused) (ground (arith, count))
      | inr room ↦ rw room (ground (arith, count))
    ]

wait_enough : (t w now r : ℕ) → max 1 ((t + w - now) / second) ≡ r → t + w ≤ now + (r + 1) * second
wait_enough t w now r h = omega arith

-- Once the announced time and a second have passed, there is room.
room_later :
    (l : Limiter) (now : ℕ) (times : List ℕ) (r : ℕ)
    → length times ≤ l.limit
    → wait_seconds l now times ≡ retry_after r
    → length (drop_expired l (now + (r + 1) * second) times) < l.limit
unfolding wait_seconds drop_expired
room_later l now [] r short e = cc
room_later l now (t ∷ ts) r short e =
    let waited : max 1 ((t + window l - now) / second) ≡ r = cc in
    let passed = wait_enough t (window l) now r waited in
    let old : leb (t + window l) (now + (r + 1) * second) ≡ true = ground arith in
    rw old (omega (arith, length-drop_expired-le l (now + (r + 1) * second) ts))

-- A call that is told to wait is admitted one second after that time at the latest, if nobody else
-- calls with its key meanwhile.
pub check-retry_after :
    (l : Limiter) (start now : ℕ) (cs : List (String × ℕ)) (key : String) (events : Events) (r : ℕ)
    → InOrder start cs
    → last_time start cs ≤ now
    → check l key now (calls l cs fresh).events ≡ (events, retry_after r)
    → (check l key (now + (r + 1) * second) events).1 ≡ allowed
unfolding check
check-retry_after l start now cs key events r o late e =
    let s = calls l cs fresh in
    let live = drop_expired l now (s.events key) in
    let short = (calls-Holds l start cs fresh key o (fresh-Holds l start key)).short in
    elim (Bool-cases (leb l.limit (length live))) [
      | inl full ↦
          let same : put key live s.events ≡ events =
            ap (λ (p : Events × Verdict). p.0) (rw full at e) in
          let told : wait_seconds l now live ≡ retry_after r =
            ap (λ (p : Events × Verdict). p.1) (rw full at e) in
          let free =
            room_later l now live r
              (omega (arith, length-drop_expired-le l now (s.events key), short)) told in
          let here : live ≡ events key =
            sym (rw (str_eq_refl key)) ∙ ap (λ (f : Events). f key) same in
          let room =
            subst (λ ts. length (drop_expired l (now + (r + 1) * second) ts) < l.limit) here free in
          let open_ : leb l.limit (length (drop_expired l (now + (r + 1) * second) (events key)))
              ≡ false =
            ground arith in
          rw open_
      | inr room ↦ absurd (no_wait (ap (λ (p : Events × Verdict). p.1) (rw room at e)))
    ]
  where
    no_wait : allowed ≡ retry_after r → ⊥
    no_wait h = cc
