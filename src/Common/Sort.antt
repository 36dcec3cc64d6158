-- ===== src/Common/Sort.antt =====
-- `ORDER BY … LIMIT`: the least row, and insertion sort, by a strict order given as a test.
use mathlib.Core.Path.{◌≡◌, refl, ap, ◌∙◌}
use mathlib.Core.Logic.{inl, inr}
use mathlib.Core.Bool.{Bool, true, false}
use mathlib.Core.Option.{Option, none, some}
use mathlib.Core.List.{List, [], ◌∷◌}
use native.Mathlib.Omega.{arith}
use foundation_intelligence.Common.Tests.{if◌then◌else◌, Bool-cases}
use Prim.Native.Nat.{ℕ, zero, suc}
use foundation_intelligence.Common.Lists.{All, All-mono, take, length}

module _ {A : Type 0} (before : A → A → Bool) where
  -- The first of the least rows, as `ORDER BY … LIMIT 1` takes it.
  abbrev pub least_with : A → Option A → A
  least_with x none = x
  least_with x (some y) = if before y x then y else x

  abbrev pub least : List A → Option A
  least [] = none
  least (x ∷ xs) = some (least_with x (least xs))

  abbrev pub insert_by : A → List A → List A
  insert_by x [] = x ∷ []
  insert_by x (y ∷ ys) = if before y x then y ∷ insert_by x ys else x ∷ y ∷ ys

  abbrev pub sort_by : List A → List A
  sort_by [] = []
  sort_by (x ∷ xs) = insert_by x (sort_by xs)

-- No element comes before one that stands in front of it.
abbrev pub Ordered : {A : Type 0} → (A → A → Bool) → List A → Type 0
Ordered before [] = Unit
Ordered before (x ∷ xs) = All (λ y. before y x ≡ false) xs × Ordered before xs

module _ {A : Type 0} (before : A → A → Bool) where
  pub insert_by-All {κ} :
      (P : A → Type κ) (x : A) (xs : List A) → P x → All P xs → All P (insert_by before x xs)
  insert_by-All P x [] p h = (p, tt)
  insert_by-All P x (y ∷ ys) p h = elim (Bool-cases (before y x)) [
    | inl earlier ↦ rw earlier (h.0, insert_by-All P x ys p h.1)
    | inr later ↦ rw later (p, h)
  ]

  pub sort_by-All {κ} : (P : A → Type κ) (xs : List A) → All P xs → All P (sort_by before xs)
  sort_by-All P [] h = tt
  sort_by-All P (x ∷ xs) h = insert_by-All P x (sort_by before xs) h.0 (sort_by-All P xs h.1)

  module _ (trans : (x y z : A) → before x y ≡ false → before y z ≡ false → before x z ≡ false)
      (asym : (x y : A) → before x y ≡ true → before y x ≡ false) where
    insert_by-Ordered :
        (x : A) (xs : List A) → Ordered before xs → Ordered before (insert_by before x xs)
    insert_by-Ordered x [] o = (tt, tt)
    insert_by-Ordered x (y ∷ ys) o = elim (Bool-cases (before y x)) [
      | inl earlier ↦ rw earlier (
        insert_by-All (λ z. before z y ≡ false) x ys (asym y x earlier) o.0,
        insert_by-Ordered x ys o.1,
      )
      | inr later ↦ rw later ((later, All-mono _ _ ys (λ z h. trans z y x h later) o.0), o)
    ]

    pub sort_by-Ordered : (xs : List A) → Ordered before (sort_by before xs)
    sort_by-Ordered [] = tt
    sort_by-Ordered (x ∷ xs) = insert_by-Ordered x (sort_by before xs) (sort_by-Ordered xs)

pub take-All {ℓ κ} :
    {A : Type ℓ} (P : A → Type κ) (n : ℕ) (xs : List A) → All P xs → All P (take n xs)
take-All P zero xs h = tt
take-All P (suc n) [] h = tt
take-All P (suc n) (x ∷ xs) h = (h.0, take-All P n xs h.1)

pub take-Ordered :
    {A : Type 0} (before : A → A → Bool) (n : ℕ) (xs : List A)
    → Ordered before xs
    → Ordered before (take n xs)
take-Ordered before zero xs o = tt
take-Ordered before (suc n) [] o = tt
take-Ordered before (suc n) (x ∷ xs) o = (take-All _ n xs o.0, take-Ordered before n xs o.1)

pub length-insert_by :
    {A : Type 0} (before : A → A → Bool) (x : A) (xs : List A)
    → length (insert_by before x xs) ≡ suc (length xs)
length-insert_by before x [] = refl
length-insert_by before x (y ∷ ys) = ground (arith, length-insert_by before x ys)

pub length-sort_by :
    {A : Type 0} (before : A → A → Bool) (xs : List A) → length (sort_by before xs) ≡ length xs
length-sort_by before [] = refl
length-sort_by before (x ∷ xs) =
    length-insert_by before x (sort_by before xs) ∙ ap suc (length-sort_by before xs)
