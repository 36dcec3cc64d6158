-- ===== src/Security/RateLimit/Spacing.antt =====
-- The deques of `SlidingWindowRateLimiter` beside the history of admitted calls.
use Prim.Native.Nat.{ℕ, zero, suc, ◌+◌, ◌≤◌, ◌<◌}
use Prim.Native.String.{String}
use mathlib.Core.Path.{◌≡◌, refl, sym, ap, ◌∙◌, subst}
use mathlib.Core.Logic.{inl, inr}
use mathlib.Core.Bool.{true, false}
use mathlib.Core.Option.{Option, none, some}
use mathlib.Core.List.{List, [], ◌∷◌, ◌++◌}
use text.Mathlib.Text.{◌==◌ as str_eq}
use text.Mathlib.TextEquality.{eq_iff}
use native.Mathlib.Omega.{arith}
use foundation_intelligence.Common.{
  some_eq, All-append, In, In-All, Bool-cases, length, length-append, leb,
}
use foundation_intelligence.Security.RateLimit.{
  Limiter, Events, State, window, drop_expired, wait_seconds, check, noted, call,
}
use foundation_intelligence.Security.RateLimit.Window.{
  newest_first, newest_first-append, length-newest_first, Ascending-append, Tracks,
  drop_expired-Tracks,
}

abbrev pub nth : ℕ → List ℕ → Option ℕ
nth n [] = none
nth zero (x ∷ xs) = some x
nth (suc n) (x ∷ xs) = nth n xs

-- Newest first: the admission `n` places before another one is at least a window older.
abbrev pub Spaced : ℕ → ℕ → List ℕ → Type 0
Spaced n w [] = Unit
Spaced n w (x ∷ xs) = ((y : ℕ) → nth n (x ∷ xs) ≡ some y → y + w ≤ x) × Spaced n w xs

nth-In : (n : ℕ) (xs ys : List ℕ) (y : ℕ) → length xs ≤ n → nth n (xs ++ ys) ≡ some y → In y ys
nth-In n [] [] y h e = cc
nth-In zero [] (z ∷ zs) y h e = inl (some_eq e)
nth-In (suc n) [] (z ∷ zs) y h e = inr (nth-In n [] zs y (omega arith) e)
nth-In zero (x ∷ xs) ys y h e = absurd (ground arith)
nth-In (suc n) (x ∷ xs) ys y h e = nth-In n xs ys y (omega arith) e

-- What holds of each key after any calls.
pub record Holds (l : Limiter) (now : ℕ) (s : State) (key : String) : Type 0 where
  pub tracks : Tracks l now (s.events key) (s.admitted key)
  pub spaced : Spaced l.limit (window l) (s.admitted key)
  pub short : length (s.events key) ≤ l.limit

-- An admitted call keeps the spacing.
admitted-Spaced :
    (l : Limiter) (now : ℕ) (times log : List ℕ)
    → Tracks l now times log
    → length times < l.limit
    → Spaced l.limit (window l) log
    → Spaced l.limit (window l) (now ∷ log)
admitted-Spaced l now times log t room s = (λ y e. apart l.limit room y e, s)
  where
    apart : (n : ℕ) → length times < n → (y : ℕ) → nth n (now ∷ log) ≡ some y → y + window l ≤ now
    apart zero room y e = absurd (omega arith)
    apart (suc m) room y e =
        In-All (λ x. x + window l ≤ now) y t.gone
          (nth-In m (newest_first times) t.gone y (omega (arith, length-newest_first times))
            (subst (λ xs. nth m xs ≡ some y) t.split e))
          t.expired

admitted-Tracks :
    (l : Limiter) (now : ℕ) (times log : List ℕ)
    → Tracks l now times log
    → Tracks l now (times ++ now ∷ []) (now ∷ log)
admitted-Tracks l now times log t = record {
  gone = t.gone;
  split =
      ap (λ xs. now ∷ xs) t.split ∙ ap (λ xs. xs ++ t.gone) (sym (newest_first-append times now));
  expired = t.expired;
  ascending = Ascending-append times now t.past t.ascending;
  past = All-append _ times (now ∷ []) t.past (omega arith, tt);
}

pub str_eq_refl : (s : String) → str_eq s s ≡ true
str_eq_refl s = ground (arith, eq_iff s s)

noted-wait_seconds :
    (l : Limiter) (key : String) (now : ℕ) (times : List ℕ) (log : Events)
    → noted key now (wait_seconds l now times) log ≡ log
unfolding wait_seconds
noted-wait_seconds l key now [] log = refl
noted-wait_seconds l key now (e ∷ es) log = refl

pub length-drop_expired-le :
    (l : Limiter) (now : ℕ) (times : List ℕ) → length (drop_expired l now times) ≤ length times
unfolding drop_expired
length-drop_expired-le l now [] = omega arith
length-drop_expired-le l now (e ∷ es) = elim (Bool-cases (leb (e + window l) now)) [
  | inl old ↦ rw old (omega (arith, length-drop_expired-le l now es))
  | inr live ↦ rw live (omega arith)
]

-- The key of the call.
called-Holds :
    (l : Limiter) (now : ℕ) (key : String) (s : State)
    → Holds l now s key
    → Holds l now (call l key now s) key
unfolding check
called-Holds l now key s h =
    let live = drop_expired l now (s.events key) in
    let clean = drop_expired-Tracks l now (s.events key) (s.admitted key) h.tracks in
    elim (Bool-cases (leb l.limit (length live))) [
      | inl full ↦ rw full (
          rw (noted-wait_seconds l key now live s.admitted) (record {
            tracks = rw (str_eq_refl key) clean;
            spaced = h.spaced;
            short =
                rw (str_eq_refl key)
                  (omega (arith, length-drop_expired-le l now (s.events key), h.short));
          }))
      | inr room ↦
          let below : length live < l.limit = ground arith in
          rw room (record {
            tracks = rw (str_eq_refl key) (admitted-Tracks l now live (s.admitted key) clean);
            spaced =
                rw (str_eq_refl key)
                  (admitted-Spaced l now live (s.admitted key) clean below h.spaced);
            short = rw (str_eq_refl key) (omega (arith, length-append live (now ∷ []), below));
          })
    ]

-- The other keys.
other-Holds :
    (l : Limiter) (now : ℕ) (key other : String) (s : State)
    → str_eq other key ≡ false
    → Holds l now s other
    → Holds l now (call l key now s) other
unfolding check
other-Holds l now key other s off h =
    let live = drop_expired l now (s.events key) in
    elim (Bool-cases (leb l.limit (length live))) [
      | inl full ↦ rw full (
          rw (noted-wait_seconds l key now live s.admitted)
            (record { tracks = rw off h.tracks; spaced = h.spaced; short = rw off h.short }))
      | inr room ↦
          rw room
            (record { tracks = rw off h.tracks; spaced = rw off h.spaced; short = rw off h.short })
    ]

pub call-Holds :
    (l : Limiter) (now : ℕ) (key other : String) (s : State)
    → Holds l now s other
    → Holds l now (call l key now s) other
call-Holds l now key other s h = elim (Bool-cases (str_eq other key)) [
  | inl on ↦
      let same : other ≡ key = ground (arith, eq_iff other key) in
      subst (Holds l now (call l key now s)) (sym same)
        (called-Holds l now key s (subst (Holds l now s) same h))
  | inr off ↦ other-Holds l now key other s off h
]
