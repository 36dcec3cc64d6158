-- ===== src/Common/Lookup.antt =====
-- What the first row with a key is after a DELETE, an INSERT and an UPDATE.
use mathlib.Core.Path.{◌≡◌}
use mathlib.Core.Logic.{inl, inr}
use mathlib.Core.Bool.{Bool, true, false}
use mathlib.Core.Option.{none, some}
use mathlib.Core.List.{List, [], ◌∷◌, ◌++◌}
use foundation_intelligence.Common.Tests.{if◌then◌else◌, Bool-cases}
use foundation_intelligence.Common.Lists.{first, update, delete, some_eq}

module _ {A : Type 0} (q : A → Bool) where
  pub first-append : (xs ys : List A) (a : A) → first q xs ≡ some a → first q (xs ++ ys) ≡ some a
  first-append [] ys a e = cc
  first-append (x ∷ xs) ys a e = elim (Bool-cases (q x)) [
    | inl hit ↦ rw hit (rw hit at e)
    | inr miss ↦ rw miss (first-append xs ys a (rw miss at e))
  ]

  pub first-append-none :
      (xs : List A) (a : A) → first q xs ≡ none → q a ≡ true → first q (xs ++ a ∷ []) ≡ some a
  first-append-none [] a e h = rw h
  first-append-none (x ∷ xs) a e h = elim (Bool-cases (q x)) [
    | inl hit ↦ cc (rw hit at e)
    | inr miss ↦ rw miss (first-append-none xs a (rw miss at e) h)
  ]

  -- A DELETE that spares the row leaves it the first.
  pub first-delete :
      (p : A → Bool) (xs : List A) (a : A)
      → first q xs ≡ some a
      → p a ≡ false
      → first q (delete p xs) ≡ some a
  first-delete p [] a e spared = cc
  first-delete p (x ∷ xs) a e spared = elim (Bool-cases (q x)) [
    | inl hit ↦
        let same : x ≡ a = some_eq (rw hit at e) in
        let kept : p x ≡ false = rw same spared in rw kept (rw hit (rw same))
    | inr miss ↦
        let rest = first-delete p xs a (rw miss at e) spared in
        elim (Bool-cases (p x)) [ inl gone ↦ rw gone rest | inr kept ↦ rw kept (rw miss rest) ]
  ]

  -- An UPDATE that keeps the key keeps the place.
  pub first-update :
      (p : A → Bool) (f : A → A) (xs : List A) (a : A)
      → ((x : A) → q (f x) ≡ q x)
      → first q xs ≡ some a
      → first q (update p f xs) ≡ some (if p a then f a else a)
  first-update p f [] a same e = cc
  first-update p f (x ∷ xs) a same e = elim (Bool-cases (q x)) [
    | inl hit ↦
        let here : x ≡ a = some_eq (rw hit at e) in
        elim (Bool-cases (p x)) [
          | inl on ↦
              let on' : p a ≡ true = rw here at on in rw (on, on') (rw (same x, hit) (rw here))
          | inr off ↦ let off' : p a ≡ false = rw here at off in rw (off, off') (rw hit (rw here))
        ]
    | inr miss ↦
        let rest = first-update p f xs a same (rw miss at e) in
        elim (Bool-cases (p x)) [
          | inl on ↦ rw on (rw (same x, miss) rest)
          | inr off ↦ rw off (rw miss rest)
        ]
  ]
