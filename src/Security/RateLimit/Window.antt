-- ===== src/Security/RateLimit/Window.antt =====
-- The deque of one key of `SlidingWindowRateLimiter` and its window.
use Prim.Native.Nat.{ℕ, ◌+◌, ◌≤◌}
use mathlib.Core.Path.{◌≡◌, refl, sym, ap, ◌∙◌}
use mathlib.Core.Logic.{inl, inr}
use mathlib.Core.Bool.{Bool, true}
use mathlib.Core.List.{List, [], ◌∷◌, ◌++◌}
use native.Mathlib.Omega.{arith}
use foundation_intelligence.Common.{
  select_none, select-append, All, All-append, All-mono, Bool-cases, length, length-append, select,
  ltb, leb,
}
use foundation_intelligence.Security.RateLimit.{Limiter, window, drop_expired}

abbrev pub newest_first : List ℕ → List ℕ
newest_first [] = []
newest_first (x ∷ xs) = newest_first xs ++ x ∷ []

pub newest_first-append : (xs : List ℕ) (x : ℕ) → newest_first (xs ++ x ∷ []) ≡ x ∷ newest_first xs
newest_first-append [] x = refl
newest_first-append (y ∷ ys) x = rw (newest_first-append ys x)

pub length-newest_first : (xs : List ℕ) → length (newest_first xs) ≡ length xs
length-newest_first [] = refl
length-newest_first (x ∷ xs) =
    omega (arith, length-append (newest_first xs) (x ∷ []), length-newest_first xs)

append_assoc : (xs : List ℕ) (x : ℕ) (ys : List ℕ) → (xs ++ x ∷ []) ++ ys ≡ xs ++ x ∷ ys
append_assoc [] x ys = refl
append_assoc (z ∷ zs) x ys = rw (append_assoc zs x ys)

-- Every time is at most the later ones.
abbrev pub Ascending : List ℕ → Type 0
Ascending [] = Unit
Ascending (x ∷ xs) = All (λ y. x ≤ y) xs × Ascending xs

pub Ascending-append :
    (xs : List ℕ) (now : ℕ) → All (λ x. x ≤ now) xs → Ascending xs → Ascending (xs ++ now ∷ [])
Ascending-append [] now h a = (tt, tt)
Ascending-append (x ∷ xs) now h a =
    (All-append (λ y. x ≤ y) xs (now ∷ []) a.0 (h.0, tt), Ascending-append xs now h.1 a.1)

-- The admissions `log` are those of the deque and older ones that have left the window.
pub record Tracks (l : Limiter) (now : ℕ) (times log : List ℕ) : Type 0 where
  pub gone : List ℕ
  pub split : log ≡ newest_first times ++ gone
  pub expired : All (λ t. t + window l ≤ now) gone
  pub ascending : Ascending times
  pub past : All (λ t. t ≤ now) times

pub Tracks-later :
    (l : Limiter) (now later : ℕ) (times log : List ℕ)
    → now ≤ later
    → Tracks l now times log
    → Tracks l later times log
Tracks-later l now later times log h t = record {
  gone = t.gone;
  split = t.split;
  expired = All-mono _ _ t.gone (λ x e. omega arith) t.expired;
  ascending = t.ascending;
  past = All-mono _ _ times (λ x e. omega arith) t.past;
}

pub drop_expired-Tracks :
    (l : Limiter) (now : ℕ) (times log : List ℕ)
    → Tracks l now times log
    → Tracks l now (drop_expired l now times) log
unfolding drop_expired
drop_expired-Tracks l now [] log t = t
drop_expired-Tracks l now (e ∷ es) log t = elim (Bool-cases (leb (e + window l) now)) [
  | inl old ↦ rw old (
      drop_expired-Tracks l now es log (record {
        gone = e ∷ t.gone;
        split = t.split ∙ append_assoc (newest_first es) e t.gone;
        expired = (ground arith, t.expired);
        ascending = t.ascending.1;
        past = t.past.1;
      }))
  | inr live ↦ rw live t
]

-- In the window ending at `now`.
abbrev pub is_recent : Limiter → ℕ → ℕ → Bool
is_recent l now t = ltb now (t + window l)

-- After the clean-up every time of the deque is in the window.
pub drop_expired-All :
    (l : Limiter) (now : ℕ) (times : List ℕ)
    → Ascending times
    → All (λ t. is_recent l now t ≡ true) (drop_expired l now times)
unfolding drop_expired
drop_expired-All l now [] a = tt
drop_expired-All l now (e ∷ es) a = elim (Bool-cases (leb (e + window l) now)) [
  | inl old ↦ rw old (drop_expired-All l now es a.1)
  | inr live ↦ rw live (ground arith, All-mono _ _ es (λ t h. ground arith) a.0)
]

select-same : (p : ℕ → Bool) (xs : List ℕ) → All (λ x. p x ≡ true) xs → select p xs ≡ xs
select-same p [] h = refl
select-same p (x ∷ xs) h = rw h.0 (ap (λ zs. x ∷ zs) (select-same p xs h.1))

newest_first-All : (P : ℕ → Type 0) (xs : List ℕ) → All P xs → All P (newest_first xs)
newest_first-All P [] h = tt
newest_first-All P (x ∷ xs) h =
    All-append P (newest_first xs) (x ∷ []) (newest_first-All P xs h.1) (h.0, tt)

append_nil : (xs : List ℕ) → xs ++ [] ≡ xs
append_nil [] = refl
append_nil (x ∷ xs) = ap (λ ys. x ∷ ys) (append_nil xs)

-- How many admissions are in the window.
abbrev pub recent : Limiter → ℕ → List ℕ → ℕ
recent l now log = length (select (is_recent l now) log)

-- The cleaned deque is as long as there are admissions in the window.
pub Tracks-recent :
    (l : Limiter) (now : ℕ) (times log : List ℕ)
    → Tracks l now times log
    → length (drop_expired l now times) ≡ recent l now log
Tracks-recent l now times log t =
    let clean = drop_expired-Tracks l now times log t in
    let live = drop_expired l now times in
    let kept : select (is_recent l now) (newest_first live) ≡ newest_first live =
      select-same (is_recent l now) (newest_first live)
        (newest_first-All _ live (drop_expired-All l now times t.ascending)) in
    let lost : select (is_recent l now) clean.gone ≡ [] =
      select_none (is_recent l now) clean.gone
        (All-mono _ _ clean.gone (λ x h. ground arith) clean.expired) in
    let all : select (is_recent l now) log ≡ newest_first live =
      ap (select (is_recent l now)) clean.split
      ∙ select-append (is_recent l now) (newest_first live) clean.gone
      ∙ ap (λ ys. ys ++ select (is_recent l now) clean.gone) kept
      ∙ ap (λ ys. newest_first live ++ ys) lost
      ∙ append_nil (newest_first live) in
    sym (length-newest_first live) ∙ ap length (sym all)
