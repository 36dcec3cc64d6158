-- ===== src/Common/Unique.antt =====
-- Unique keys of the rows that a SELECT with WHERE, ORDER BY and LIMIT reads.
use Prim.Native.Nat.{ℕ, zero, suc}
use mathlib.Core.Path.{◌≡◌, ◌∙◌}
use mathlib.Core.Logic.{inl, inr}
use mathlib.Core.Bool.{Bool, false}
use mathlib.Core.List.{List, [], ◌∷◌}
use foundation_intelligence.Common.Tests.{Bool-cases}
use foundation_intelligence.Common.Lists.{All, take, select}
use foundation_intelligence.Common.Sort.{insert_by, sort_by, insert_by-All, sort_by-All, take-All}
use foundation_intelligence.Common.Member.{Distinct}
use foundation_intelligence.Common.Rows.{select-keeps}

-- What was chosen, sorted or cut from a table with a unique key has it too.
module _ {A : Type 0} (same : A → A → Bool) where
  pub Distinct-select :
      (p : A → Bool) (xs : List A) → Distinct same xs → Distinct same (select p xs)
  Distinct-select p [] d = tt
  Distinct-select p (x ∷ xs) d = elim (Bool-cases (p x)) [
    | inl hit ↦ rw hit (select-keeps _ p xs d.0, Distinct-select p xs d.1)
    | inr miss ↦ rw miss (Distinct-select p xs d.1)
  ]

  pub Distinct-take : (n : ℕ) (xs : List A) → Distinct same xs → Distinct same (take n xs)
  Distinct-take zero xs d = tt
  Distinct-take (suc n) [] d = tt
  Distinct-take (suc n) (x ∷ xs) d = (take-All _ n xs d.0, Distinct-take n xs d.1)

  module _ (comm : (x y : A) → same x y ≡ same y x) (before : A → A → Bool) where
    Distinct-insert_by :
        (x : A) (xs : List A)
        → All (λ y. same x y ≡ false) xs
        → Distinct same xs
        → Distinct same (insert_by before x xs)
    Distinct-insert_by x [] new d = (tt, tt)
    Distinct-insert_by x (y ∷ ys) new d = elim (Bool-cases (before y x)) [
      | inl earlier ↦ rw earlier (
        insert_by-All before (λ z. same y z ≡ false) x ys (comm y x ∙ new.0) d.0,
        Distinct-insert_by x ys new.1 d.1,
      )
      | inr later ↦ rw later (new, d)
    ]

    pub Distinct-sort_by : (xs : List A) → Distinct same xs → Distinct same (sort_by before xs)
    Distinct-sort_by [] d = tt
    Distinct-sort_by (x ∷ xs) d =
        Distinct-insert_by x (sort_by before xs) (sort_by-All before (λ y. same x y ≡ false) xs d.0)
          (Distinct-sort_by xs d.1)
