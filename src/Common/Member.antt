-- ===== src/Common/Member.antt =====
-- Membership as a sum, rows that a unique key tells apart, and the members that the table
-- operations find.
use mathlib.Core.Path.{◌≡◌, refl, subst, ap}
use mathlib.Core.Logic.{◌⊎◌, inl, inr}
use mathlib.Core.Bool.{Bool, true, false}
use mathlib.Core.Option.{Option, none, some}
use mathlib.Core.List.{List, [], ◌∷◌, ◌++◌}
use foundation_intelligence.Common.Tests.{Bool-cases}
use foundation_intelligence.Common.Lists.{All, All-append, All-mono, select, first, any, some_eq}
use foundation_intelligence.Common.Sort.{least, least_with}

module _ {A : Type 0} where
  abbrev pub In : A → List A → Type 0
  In a [] = ⊥
  In a (x ∷ xs) = (x ≡ a) ⊎ In a xs

  pub In-All {κ} : (P : A → Type κ) (a : A) (xs : List A) → In a xs → All P xs → P a
  In-All P a [] m h = absurd m
  In-All P a (x ∷ xs) (inl e) h = subst P e h.0
  In-All P a (x ∷ xs) (inr m) h = In-All P a xs m h.1

  pub In-select : (p : A → Bool) (a : A) (xs : List A) → In a (select p xs) → In a xs × (p a ≡ true)
  In-select p a [] m = absurd m
  In-select p a (x ∷ xs) m = elim (Bool-cases (p x)) [
    | inl hit ↦ found hit (In-select p a xs) (rw hit at m)
    | inr miss ↦ let r = In-select p a xs (rw miss at m) in (inr r.0, r.1)
  ]
    where
      found :
          p x ≡ true
          → (In a (select p xs) → In a xs × (p a ≡ true))
          → In a (x ∷ select p xs)
          → In a (x ∷ xs) × (p a ≡ true)
      found hit rest (inl e) = (inl e, subst (λ y. p y ≡ true) e hit)
      found hit rest (inr k) = let r = rest k in (inr r.0, r.1)

  pub first-In : (p : A → Bool) (a : A) (xs : List A) → first p xs ≡ some a → In a xs
  first-In p a [] e = cc
  first-In p a (x ∷ xs) e = elim (Bool-cases (p x)) [
    | inl hit ↦ inl (some_eq (rw hit at e))
    | inr miss ↦ inr (first-In p a xs (rw miss at e))
  ]

  pub any-In : (p : A → Bool) (xs : List A) → any p xs ≡ true → (a : A) × In a xs × (p a ≡ true)
  any-In p [] e = cc
  any-In p (x ∷ xs) e = elim (Bool-cases (p x)) [
    | inl hit ↦ (x, inl refl, hit)
    | inr miss ↦ let (a, m, h) = any-In p xs (rw miss at e) in (a, inr m, h)
  ]

  pub any_none : (p : A → Bool) (xs : List A) → any p xs ≡ false → All (λ x. p x ≡ false) xs
  any_none p [] e = tt
  any_none p (x ∷ xs) e = elim (Bool-cases (p x)) [
    | inl hit ↦ cc (rw hit at e)
    | inr miss ↦ (miss, any_none p xs (rw miss at e))
  ]

pub any-false :
    {A : Type 0} (p : A → Bool) (xs : List A) → All (λ x. p x ≡ false) xs → any p xs ≡ false
any-false p [] h = refl
any-false p (x ∷ xs) h = rw h.0 (any-false p xs h.1)

module _ {A : Type 0} (before : A → A → Bool) where
  least_with_cases : (x a : A) (o : Option A) → least_with before x o ≡ a → (x ≡ a) ⊎ (o ≡ some a)
  least_with_cases x a none e = inl e
  least_with_cases x a (some y) e = elim (Bool-cases (before y x)) [
    | inl earlier ↦ inr (ap some (rw earlier at e))
    | inr later ↦ inl (rw later at e)
  ]

  pub least-In : (a : A) (xs : List A) → least before xs ≡ some a → In a xs
  least-In a [] e = cc
  least-In a (x ∷ xs) e = elim (least_with_cases x a (least before xs) (some_eq e)) [
    | inl h ↦ inl h
    | inr f ↦ inr (least-In a xs f)
  ]

  pub least-none : (xs : List A) → least before xs ≡ none → xs ≡ []
  least-none [] e = refl
  least-none (x ∷ xs) e = cc

  module _ (trans : (x y z : A) → before x y ≡ false → before y z ≡ false → before x z ≡ false)
      (asym : (x y : A) → before x y ≡ true → before y x ≡ false)
      (irrefl : (x : A) → before x x ≡ false) where
    least_with-least :
        (x a : A) (o : Option A) (xs : List A)
        → least before xs ≡ o
        → least_with before x o ≡ a
        → ((y : A) → o ≡ some y → All (λ z. before z y ≡ false) xs)
        → (before x a ≡ false) × All (λ z. before z a ≡ false) xs
    least_with-least x a none xs f e ih = (rw e (irrefl a), rw (least-none xs f) tt)
    least_with-least x a (some y) xs f e ih = elim (Bool-cases (before y x)) [
      | inl earlier ↦
          let e' : y ≡ a = rw earlier at e in
          subst (λ b. (before x b ≡ false) × All (λ z. before z b ≡ false) xs) e'
            (asym y x earlier, ih y refl)
      | inr later ↦
          let e' : x ≡ a = rw later at e in
          subst (λ b. (before x b ≡ false) × All (λ z. before z b ≡ false) xs) e'
            (irrefl x, All-mono _ _ xs (λ z h. trans z y x h later) (ih y refl))
    ]

    -- Nothing comes before the row that `least` takes.
    pub least-least :
        (a : A) (xs : List A) → least before xs ≡ some a → All (λ x. before x a ≡ false) xs
    least-least a [] e = tt
    least-least a (x ∷ xs) e =
        least_with-least x a (least before xs) xs refl (some_eq e) (λ y f. least-least y xs f)

-- No two rows are the same by the test `same`.
abbrev pub Distinct {ℓ} : {A : Type ℓ} → (A → A → Bool) → List A → Type ℓ
Distinct same [] = Unit
Distinct same (x ∷ xs) = All (λ y. same x y ≡ false) xs × Distinct same xs

module _ {A : Type 0} (same : A → A → Bool) where
  pub Distinct-append :
      (xs : List A) (a : A)
      → All (λ x. same x a ≡ false) xs
      → Distinct same xs
      → Distinct same (xs ++ a ∷ [])
  Distinct-append [] a h d = (tt, tt)
  Distinct-append (x ∷ xs) a h d =
      (All-append _ xs (a ∷ []) d.0 (h.0, tt), Distinct-append xs a h.1 d.1)

  -- In a table with a unique key, the row of a key is the one that was found.
  pub Distinct-same :
      ((x y : A) → same x y ≡ same y x)
      → (a : A) (xs : List A) → Distinct same xs
      → In a xs
      → All (λ x. same x a ≡ true → x ≡ a) xs
  Distinct-same comm a [] d m = tt
  Distinct-same comm a (x ∷ xs) d (inl e) =
      (λ h. e, All-mono _ _ xs (λ y h g. cc (comm x y, ap (same y) e)) d.0)
  Distinct-same comm a (x ∷ xs) d (inr m) = (
    λ h. absurd_bool (In-All (λ y. same x y ≡ false) a xs m d.0) h,
    Distinct-same comm a xs d.1 m,
  )
    where
      absurd_bool : {b : Bool} → b ≡ false → b ≡ true → x ≡ a
      absurd_bool f t = cc
