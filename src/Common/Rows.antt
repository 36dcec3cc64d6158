-- ===== src/Common/Rows.antt =====
-- What the table operations keep of membership: UPDATE, SELECT, ORDER BY and INSERT.
use mathlib.Core.Path.{◌≡◌, refl, sym, subst, ap}
use mathlib.Core.Logic.{◌⊎◌, inl, inr}
use mathlib.Core.Bool.{Bool, true, false}
use mathlib.Core.Option.{some}
use mathlib.Core.List.{List, [], ◌∷◌, ◌++◌, map}
use foundation_intelligence.Common.Tests.{if◌then◌else◌, Bool-cases}
use foundation_intelligence.Common.Lists.{All, All-mono, select, first, update, any}
use foundation_intelligence.Common.Sort.{least, least_with, insert_by, sort_by}
use foundation_intelligence.Common.Member.{In}

module _ {A : Type 0} where
  pub In-update :
      (p : A → Bool) (f : A → A) (a : A) (xs : List A)
      → In a xs
      → p a ≡ true
      → In (f a) (update p f xs)
  In-update p f a [] m h = absurd m
  In-update p f a (x ∷ xs) (inl e) h =
      inl (subst (λ y. (if p y then f y else y) ≡ f a) (sym e) (rw h))
  In-update p f a (x ∷ xs) (inr m) h = inr (In-update p f a xs m h)

  -- What holds of the selected rows holds of each row that would be selected.
  pub select-All {κ} :
      (P : A → Type κ) (p : A → Bool) (xs : List A)
      → All P (select p xs)
      → All (λ x. p x ≡ true → P x) xs
  select-All P p [] h = tt
  select-All P p (x ∷ xs) h = elim (Bool-cases (p x)) [
    | inl hit ↦ let k : All P (x ∷ select p xs) = rw hit at h in (λ _. k.0, select-All P p xs k.1)
    | inr miss ↦ (λ hit. cc, select-All P p xs (rw miss at h))
  ]

  pub select_nil : (p : A → Bool) (xs : List A) → select p xs ≡ [] → All (λ x. p x ≡ false) xs
  select_nil p [] e = tt
  select_nil p (x ∷ xs) e = elim (Bool-cases (p x)) [
    | inl hit ↦ cc (rw hit at e)
    | inr miss ↦ (miss, select_nil p xs (rw miss at e))
  ]

  pub All-select {κ} :
      (P : A → Type κ) (p : A → Bool) (xs : List A)
      → ((x : A) → p x ≡ true → P x)
      → All P (select p xs)
  All-select P p [] f = tt
  All-select P p (x ∷ xs) f = elim (Bool-cases (p x)) [
    | inl hit ↦ rw hit (f x hit, All-select P p xs f)
    | inr miss ↦ rw miss (All-select P p xs f)
  ]

  pub select-keeps {κ} :
      (P : A → Type κ) (p : A → Bool) (xs : List A) → All P xs → All P (select p xs)
  select-keeps P p [] h = tt
  select-keeps P p (x ∷ xs) h = elim (Bool-cases (p x)) [
    | inl hit ↦ rw hit (h.0, select-keeps P p xs h.1)
    | inr miss ↦ rw miss (select-keeps P p xs h.1)
  ]

  -- Each element's key is among the keys.
  pub map-In : {B : Type 0} (key : A → B) (xs : List A) → All (λ x. In (key x) (map key xs)) xs
  map-In key [] = tt
  map-In key (x ∷ xs) = (inl refl, All-mono _ _ xs (λ y m. inr m) (map-In key xs))

  pub In-map : {B : Type 0} (key : A → B) (a : A) (xs : List A) → In a xs → In (key a) (map key xs)
  In-map key a [] m = absurd m
  In-map key a (x ∷ xs) (inl e) = inl (ap key e)
  In-map key a (x ∷ xs) (inr m) = inr (In-map key a xs m)

  pub select-In : (p : A → Bool) (a : A) (xs : List A) → In a xs → p a ≡ true → In a (select p xs)
  select-In p a [] m h = absurd m
  select-In p a (x ∷ xs) (inl e) h =
      let hit : p x ≡ true = subst (λ y. p y ≡ true) (sym e) h in rw hit (inl e)
  select-In p a (x ∷ xs) (inr m) h = elim (Bool-cases (p x)) [
    | inl hit ↦ rw hit (inr (select-In p a xs m h))
    | inr miss ↦ rw miss (select-In p a xs m h)
  ]

  pub least-some :
      (before : A → A → Bool) (a : A) (xs : List A) → In a xs → (m : A) × (least before xs ≡ some m)
  least-some before a [] m = absurd m
  least-some before a (x ∷ xs) m = (least_with before x (least before xs), refl)

  pub first-In-some :
      (p : A → Bool) (a : A) (xs : List A) → In a xs → p a ≡ true → (b : A) × (first p xs ≡ some b)
  first-In-some p a [] m h = absurd m
  first-In-some p a (x ∷ xs) m h = elim (Bool-cases (p x)) [
    | inl hit ↦ (x, rw hit)
    | inr miss ↦ let (b, e) = first-In-some p a xs (rest miss m) h in (b, rw miss e)
  ]
    where
      rest : p x ≡ false → (x ≡ a) ⊎ In a xs → In a xs
      rest miss (inl e) = absurd (no_clash (subst (λ y. p y ≡ false) e miss))
        where
          no_clash : p a ≡ false → ⊥
          no_clash off = cc
      rest miss (inr k) = k

  pub In-append : (a : A) (xs ys : List A) → In a xs → In a (xs ++ ys)
  In-append a [] ys m = absurd m
  In-append a (x ∷ xs) ys (inl e) = inl e
  In-append a (x ∷ xs) ys (inr m) = inr (In-append a xs ys m)

  pub In-append_last : (a : A) (xs : List A) → In a (xs ++ a ∷ [])
  In-append_last a [] = inl refl
  In-append_last a (x ∷ xs) = inr (In-append_last a xs)

  -- Insertion keeps what was there and adds the new element.
  pub insert_by-In :
      (before : A → A → Bool) (x a : A) (xs : List A)
      → (x ≡ a) ⊎ In a xs
      → In a (insert_by before x xs)
  insert_by-In before x a [] (inl e) = inl e
  insert_by-In before x a [] (inr m) = absurd m
  insert_by-In before x a (y ∷ ys) h = elim (Bool-cases (before y x)) [
    | inl earlier ↦ rw earlier (past (insert_by-In before x a ys) h)
    | inr later ↦ rw later h
  ]
    where
      past :
          ((x ≡ a) ⊎ In a ys → In a (insert_by before x ys))
          → (x ≡ a) ⊎ In a (y ∷ ys)
          → (y ≡ a) ⊎ In a (insert_by before x ys)
      past f (inl e) = inr (f (inl e))
      past f (inr (inl e)) = inl e
      past f (inr (inr m)) = inr (f (inr m))

  -- What each member satisfies, all elements satisfy.
  pub tabulate {κ} : {P : A → Type κ} (xs : List A) → ((a : A) → In a xs → P a) → All P xs
  tabulate [] f = tt
  tabulate (x ∷ xs) f = (f x (inl refl), tabulate xs (λ a m. f a (inr m)))

  -- A member that an UPDATE does not hit stays.
  pub update-In :
      (p : A → Bool) (f : A → A) (a : A) (xs : List A)
      → In a xs
      → p a ≡ false
      → In a (update p f xs)
  update-In p f a [] m h = absurd m
  update-In p f a (x ∷ xs) (inl e) h =
      inl (subst (λ y. (if p y then f y else y) ≡ a) (sym e) (rw h))
  update-In p f a (x ∷ xs) (inr m) h = inr (update-In p f a xs m h)

  pub In-any : (p : A → Bool) (a : A) (xs : List A) → In a xs → p a ≡ true → any p xs ≡ true
  In-any p a [] m h = absurd m
  In-any p a (x ∷ xs) (inl e) h = let hit : p x ≡ true = subst (λ y. p y ≡ true) (sym e) h in rw hit
  In-any p a (x ∷ xs) (inr m) h = elim (Bool-cases (p x)) [
    | inl hit ↦ rw hit
    | inr miss ↦ rw miss (In-any p a xs m h)
  ]

  pub sort_by-In :
      (before : A → A → Bool) (a : A) (xs : List A) → In a xs → In a (sort_by before xs)
  sort_by-In before a [] m = absurd m
  sort_by-In before a (x ∷ xs) (inl e) = insert_by-In before x a (sort_by before xs) (inl e)
  sort_by-In before a (x ∷ xs) (inr m) =
      insert_by-In before x a (sort_by before xs) (inr (sort_by-In before a xs m))

  pub select_none : (p : A → Bool) (xs : List A) → All (λ x. p x ≡ false) xs → select p xs ≡ []
  select_none p [] h = refl
  select_none p (x ∷ xs) h = rw h.0 (select_none p xs h.1)
