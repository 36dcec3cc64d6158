-- ===== src/Jobs/Events/Numbering.antt =====
-- The numbers of the events of a job, and the constraint `uq_job_events_sequence`.
use Prim.Native.Nat.{ℕ, zero, suc, max}
use mathlib.Core.Path.{◌≡◌, ◌∙◌}
use mathlib.Core.Logic.{inl, inr}
use mathlib.Core.List.{List, [], ◌∷◌, ◌++◌, map}
use native.Mathlib.Omega.{arith}
use foundation_intelligence.Common.{◌==◌, if◌then◌else◌, Bool-cases, select}
use foundation_intelligence.Jobs.Schema.{JobEvent}
use foundation_intelligence.Jobs.Events.{last_sequence}

-- The numbers of a job's events, in the order in which they were written.
abbrev pub event_numbers : ℕ → List JobEvent → List ℕ
event_numbers job_id es = map (λ e. e.sequence) (select (λ e. e.job_run_id == job_id) es)

-- 1, 2, …, n
abbrev pub one_to : ℕ → List ℕ
one_to zero = []
one_to (suc n) = one_to n ++ suc n ∷ []

abbrev pub Contiguous : List JobEvent → Type 0
Contiguous es = (job_id : ℕ) → event_numbers job_id es ≡ one_to (last_sequence job_id es)

event_numbers-append :
    (job_id : ℕ) (e : JobEvent) (es : List JobEvent)
    → event_numbers job_id (es ++ e ∷ []) ≡ (
        if e.job_run_id == job_id
        then event_numbers job_id es ++ e.sequence ∷ []
        else event_numbers job_id es)
event_numbers-append job_id e [] = ground arith
event_numbers-append job_id e (x ∷ es) = ground (arith, event_numbers-append job_id e es)

last_sequence-append :
    (job_id : ℕ) (e : JobEvent) (es : List JobEvent)
    → last_sequence job_id (es ++ e ∷ []) ≡ (
        if e.job_run_id == job_id
        then max e.sequence (last_sequence job_id es)
        else last_sequence job_id es)
unfolding last_sequence
last_sequence-append job_id e [] = ground arith
last_sequence-append job_id e (x ∷ es) = ground (arith, last_sequence-append job_id e es)

-- An event with the next number of its job keeps the numbering.
pub append-Contiguous :
    (es : List JobEvent) (e : JobEvent)
    → Contiguous es
    → e.sequence ≡ suc (last_sequence e.job_run_id es)
    → Contiguous (es ++ e ∷ [])
append-Contiguous es e c next job_id = elim (Bool-cases (e.job_run_id == job_id)) [
  | inl hit ↦
      let here : e.job_run_id ≡ job_id = ground arith in
      let n : e.sequence ≡ suc (last_sequence job_id es) = rw here at next in
      let top : last_sequence job_id (es ++ e ∷ []) ≡ suc (last_sequence job_id es) =
        last_sequence-append job_id e es ∙ rw (hit, n) (omega arith) in
      rw (event_numbers-append job_id e es, hit, top, c job_id, n)
  | inr miss ↦
      let same : last_sequence job_id (es ++ e ∷ []) ≡ last_sequence job_id es =
        last_sequence-append job_id e es ∙ rw miss in
      rw (event_numbers-append job_id e es, miss, same) (c job_id)
]
