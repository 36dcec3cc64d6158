-- ===== src/Transition/Growth.antt =====
-- The list of differences of `walk` in src/transition/shadow.py only grows.
use Prim.Native.Nat.{ℕ, zero, suc}
use Prim.Native.String.{String}
use mathlib.Core.Path.{◌≡◌, refl}
use mathlib.Core.Logic.{◌⊎◌, inl, inr}
use mathlib.Core.Bool.{Bool, true, false}
use mathlib.Core.Option.{Option, none, some}
use mathlib.Core.List.{List, [], ◌∷◌, ◌++◌}
use text.Mathlib.Text.{◌==◌ as str_eq}
use foundation_intelligence.Common.{◌==◌, if◌then◌else◌}
use foundation_intelligence.Transition.Values.{
  Value, Elements, no_items, item, Entries, Route, at_key, at_index, lookup, size_items,
}
use foundation_intelligence.Transition.Compare.{
  Difference, other_length, same_int, same_bool, all_keys, adds, Visit, walk_key, walk_keys,
  walk_items, value_unless, walk_same, walk_in, walk,
}
use foundation_intelligence.Transition.Shapes.{
  Shapes, shapes, nulls, booleans, integers, floats, strings, arrays, objects, differ,
}

pub append_nil : (ds : List Difference) (d : Difference) → ds ++ d ∷ [] ≡ [] → ⊥
append_nil [] d e = cc
append_nil (x ∷ ds) d e = cc

pub if_same : (b : Bool) (x y : List Difference) → (if b then x else y) ≡ [] → (x ≡ []) ⊎ (y ≡ [])
if_same true x y e = inl e
if_same false x y e = inr e

module _ (fingerprint : Value → String) (maximum : ℕ) where
  -- Once there is a difference, it stays.
  abbrev pub Grows : Visit fingerprint maximum → Type 0
  Grows visit =
      (a b : Value) (path : Route) (ds : List Difference) → visit a b path ds ≡ [] → ds ≡ []

  walk_key-Grows :
      (visit : Visit fingerprint maximum)
      → Grows visit
      → (path : Route) (o o' : Option Value) (ds : List Difference)
      → walk_key fingerprint maximum visit path o o' ds ≡ []
      → ds ≡ []
  walk_key-Grows visit grows path none none ds e = e
  walk_key-Grows visit grows path none (some w) ds e = absurd (append_nil ds _ e)
  walk_key-Grows visit grows path (some v) none ds e = absurd (append_nil ds _ e)
  walk_key-Grows visit grows path (some v) (some w) ds e = grows v w path ds e

  pub walk_keys-Grows :
      (visit : Visit fingerprint maximum)
      → Grows visit
      → (fs gs : Entries) (path : Route) (ks : List String) (ds : List Difference)
      → walk_keys fingerprint maximum visit fs gs path ks ds ≡ []
      → ds ≡ []
  unfolding walk_keys
  walk_keys-Grows visit grows fs gs path [] ds e = e
  walk_keys-Grows visit grows fs gs path (k ∷ ks) ds e =
      walk_key-Grows visit grows (at_key path k) (lookup k fs) (lookup k gs) ds
        (elim (if_same _ _ _ e) [
          | inl h ↦ h
          | inr h ↦ walk_keys-Grows visit grows fs gs path ks _ h
        ])

  pub walk_items-Grows :
      (visit : Visit fingerprint maximum)
      → Grows visit
      → (path : Route) (i : ℕ) (xs ys : Elements) (ds : List Difference)
      → walk_items fingerprint maximum visit path i xs ys ds ≡ []
      → ds ≡ []
  unfolding walk_items
  walk_items-Grows visit grows path i no_items ys ds e = e
  walk_items-Grows visit grows path i (item x xs) no_items ds e = e
  walk_items-Grows visit grows path i (item x xs) (item y ys) ds e =
      grows x y (at_index path i) ds (elim (if_same _ _ _ e) [
        | inl h ↦ h
        | inr h ↦ walk_items-Grows visit grows path (suc i) xs ys _ h
      ])

  pub unless_quiet :
      (same : Bool) (path : Route) (a b : Value) (ds : List Difference)
      → value_unless fingerprint maximum same path a b ds ≡ []
      → (same ≡ true) × (ds ≡ [])
  unless_quiet true path a b ds e = (refl, e)
  unless_quiet false path a b ds e = absurd (append_nil ds _ e)

  pub length_unless :
      (same : Bool) (path : Route) (a b : Value) (ds : List Difference)
      → (if same then ds else adds fingerprint maximum path other_length a b ds) ≡ []
      → ds ≡ []
  length_unless true path a b ds e = e
  length_unless false path a b ds e = absurd (append_nil ds _ e)

  walk_in-Grows :
      (visit : Visit fingerprint maximum) → Grows visit → Grows (walk_in fingerprint maximum visit)
  unfolding walk_in walk_same
  walk_in-Grows visit grows a b path ds e = go (shapes a b) e
    where
      go : {a b : Value} → Shapes a b → walk_in fingerprint maximum visit a b path ds ≡ [] → ds ≡ []
      go nulls e = e
      go (booleans x y) e = (unless_quiet (same_bool x y) path _ _ ds e).1
      go (integers x y) e = (unless_quiet (same_int x y) path _ _ ds e).1
      go (floats x y) e = (unless_quiet (str_eq x y) path _ _ ds e).1
      go (strings x y) e = (unless_quiet (str_eq x y) path _ _ ds e).1
      go (arrays x y) e =
          length_unless (size_items x == size_items y) path _ _ ds
            (walk_items-Grows visit grows path 0 x y _ e)
      go (objects x y) e = walk_keys-Grows visit grows x y path (all_keys x y) ds e
      go (differ other) e = absurd (append_nil ds _ (rw other at e))

  pub walk-Grows : (n : ℕ) → Grows (walk fingerprint maximum n)
  unfolding walk
  walk-Grows zero a b path ds e = e
  walk-Grows (suc n) a b path ds e = elim (if_same _ _ _ e) [
    | inl h ↦ h
    | inr h ↦ walk_in-Grows (walk fingerprint maximum n) (walk-Grows n) a b path ds h
  ]
