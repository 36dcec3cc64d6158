-- ===== src/Common/Deletes.antt =====
-- What a DELETE leaves: of a table, of a predicate over it and of a unique key.
use Prim.Native.Nat.{suc, ◌≤◌}
use mathlib.Core.Path.{◌≡◌, subst, sym}
use mathlib.Core.Logic.{inl, inr}
use mathlib.Core.Bool.{Bool, true, false}
use mathlib.Core.List.{List, [], ◌∷◌}
use native.Mathlib.Omega.{arith}
use foundation_intelligence.Common.Tests.{Bool-cases}
use foundation_intelligence.Common.Lists.{All, delete, length}
use foundation_intelligence.Common.Member.{In, Distinct}

module _ {A : Type 0} (p : A → Bool) where
  pub All-delete {κ} : (P : A → Type κ) (xs : List A) → All P xs → All P (delete p xs)
  All-delete P [] h = tt
  All-delete P (x ∷ xs) h = elim (Bool-cases (p x)) [
    | inl gone ↦ rw gone (All-delete P xs h.1)
    | inr kept ↦ rw kept (h.0, All-delete P xs h.1)
  ]

  -- No row that the condition selects is left.
  pub delete-All : (xs : List A) → All (λ x. p x ≡ false) (delete p xs)
  delete-All [] = tt
  delete-All (x ∷ xs) = elim (Bool-cases (p x)) [
    | inl gone ↦ rw gone (delete-All xs)
    | inr kept ↦ rw kept (kept, delete-All xs)
  ]

  pub length-delete-le : (xs : List A) → length (delete p xs) ≤ length xs
  length-delete-le [] = omega arith
  length-delete-le (x ∷ xs) = ground (arith, length-delete-le xs)

  pub Distinct-delete :
      (same : A → A → Bool) (xs : List A) → Distinct same xs → Distinct same (delete p xs)
  Distinct-delete same [] d = tt
  Distinct-delete same (x ∷ xs) d = elim (Bool-cases (p x)) [
    | inl gone ↦ rw gone (Distinct-delete same xs d.1)
    | inr kept ↦ rw kept (All-delete (λ y. same x y ≡ false) xs d.0, Distinct-delete same xs d.1)
  ]

  pub In-delete : (a : A) (xs : List A) → In a xs → p a ≡ false → In a (delete p xs)
  In-delete a [] m h = m
  In-delete a (x ∷ xs) (inl e) h =
      let kept : p x ≡ false = subst (λ y. p y ≡ false) (sym e) h in rw kept (inl e)
  In-delete a (x ∷ xs) (inr m) h = elim (Bool-cases (p x)) [
    | inl gone ↦ rw gone (In-delete a xs m h)
    | inr kept ↦ rw kept (inr (In-delete a xs m h))
  ]

  -- Deleting a row that is there makes the table shorter.
  pub length-delete-lt :
      (a : A) (xs : List A) → In a xs → p a ≡ true → suc (length (delete p xs)) ≤ length xs
  length-delete-lt a [] m h = absurd m
  length-delete-lt a (x ∷ xs) (inl e) h =
      let gone : p x ≡ true = subst (λ y. p y ≡ true) (sym e) h in
      rw gone (omega (arith, length-delete-le xs))
  length-delete-lt a (x ∷ xs) (inr m) h = ground (arith, length-delete-lt a xs m h)
