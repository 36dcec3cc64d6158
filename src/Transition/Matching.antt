-- ===== src/Transition/Matching.antt =====
-- `compare_payloads` of src/transition/shadow.py as a whole.
use Prim.Native.Nat.{ℕ, zero, suc, ◌≤◌}
use Prim.Native.String.{String}
use mathlib.Core.Path.{◌≡◌, refl}
use mathlib.Core.Logic.{◌↔◌, inl, inr}
use mathlib.Core.Bool.{Bool, true, false}
use mathlib.Core.Option.{Option, none, some}
use mathlib.Core.List.{List, [], ◌∷◌, ◌++◌}
use native.Mathlib.Omega.{arith}
use text.Mathlib.Text.{◌==◌ as str_eq}
use foundation_intelligence.Common.{◌==◌, if◌then◌else◌, Bool-cases, length, length-append, is_nil}
use foundation_intelligence.Transition.Values.{
  Value, Elements, no_items, item, Entries, Route, at_key, at_index, lookup, size_items,
}
use foundation_intelligence.Transition.Canonical.{Policy, canonical}
use foundation_intelligence.Transition.Compare.{
  root, Difference, depth, same_int, same_bool, all_keys, is_full, Visit, walk_key, walk_keys,
  walk_items, walk_same, walk_in, walk, compare_payloads,
}
use foundation_intelligence.Transition.Same.{Same, IsUnique}
use foundation_intelligence.Transition.Shapes.{
  Shapes, shapes, nulls, booleans, integers, floats, strings, arrays, objects, differ,
}
use foundation_intelligence.Transition.Agreement.{walk-Decides}
use foundation_intelligence.Transition.Unique.{canonical-IsUnique}

module _ (fingerprint : Value → String) (maximum : ℕ) where
  -- A difference is added only while there are fewer than the maximum.
  add_bound :
      (ds : List Difference) (d : Difference)
      → is_full fingerprint maximum ds ≡ false
      → length (ds ++ d ∷ []) ≤ maximum
  add_bound ds d h = let n = length-append ds (d ∷ []) in ground arith

  abbrev Bounded : Visit fingerprint maximum → Type 0
  Bounded visit =
      (a b : Value) (path : Route) (ds : List Difference)
      → length ds ≤ maximum
      → length (visit a b path ds) ≤ maximum

  module _ (visit : Visit fingerprint maximum) (bounded : Bounded visit) where
    walk_key_bound :
        (path : Route) (o o' : Option Value) (ds : List Difference)
        → is_full fingerprint maximum ds ≡ false
        → length (walk_key fingerprint maximum visit path o o' ds) ≤ maximum
    walk_key_bound path none none ds h = ground arith
    walk_key_bound path none (some w) ds h = add_bound ds _ h
    walk_key_bound path (some v) none ds h = add_bound ds _ h
    walk_key_bound path (some v) (some w) ds h = bounded v w path ds (ground arith)

    walk_keys_bound :
        (fs gs : Entries) (path : Route) (ks : List String) (ds : List Difference)
        → is_full fingerprint maximum ds ≡ false
        → length (walk_keys fingerprint maximum visit fs gs path ks ds) ≤ maximum
    unfolding walk_keys
    walk_keys_bound fs gs path [] ds h = ground arith
    walk_keys_bound fs gs path (k ∷ ks) ds h =
        let here = walk_key_bound (at_key path k) (lookup k fs) (lookup k gs) ds h in
        elim (Bool-cases (
          is_full fingerprint maximum
            (walk_key fingerprint maximum visit (at_key path k) (lookup k fs) (lookup k gs) ds))) [
              | inl full ↦ rw full here
              | inr room ↦ rw room (walk_keys_bound fs gs path ks _ room)
            ]

    walk_items_bound :
        (path : Route) (i : ℕ) (xs ys : Elements) (ds : List Difference)
        → length ds ≤ maximum
        → length (walk_items fingerprint maximum visit path i xs ys ds) ≤ maximum
    unfolding walk_items
    walk_items_bound path i no_items ys ds h = h
    walk_items_bound path i (item x xs) no_items ds h = h
    walk_items_bound path i (item x xs) (item y ys) ds h =
        let here = bounded x y (at_index path i) ds h in
        elim (Bool-cases (is_full fingerprint maximum (visit x y (at_index path i) ds))) [
          | inl full ↦ rw full here
          | inr room ↦ rw room (walk_items_bound path (suc i) xs ys _ here)
        ]

    either_bound :
        (same : Bool) (ds : List Difference) (d : Difference)
        → is_full fingerprint maximum ds ≡ false
        → length (if same then ds else ds ++ d ∷ []) ≤ maximum
    either_bound true ds d h = ground arith
    either_bound false ds d h = add_bound ds d h

    walk_in_bound :
        {a b : Value} (path : Route) (ds : List Difference)
        → Shapes a b
        → is_full fingerprint maximum ds ≡ false
        → length (walk_in fingerprint maximum visit a b path ds) ≤ maximum
    unfolding walk_in walk_same
    walk_in_bound path ds nulls h = ground arith
    walk_in_bound path ds (booleans x y) h = either_bound (same_bool x y) ds _ h
    walk_in_bound path ds (integers x y) h = either_bound (same_int x y) ds _ h
    walk_in_bound path ds (floats x y) h = either_bound (str_eq x y) ds _ h
    walk_in_bound path ds (strings x y) h = either_bound (str_eq x y) ds _ h
    walk_in_bound path ds (arrays x y) h =
        walk_items_bound path 0 x y _ (either_bound (size_items x == size_items y) ds _ h)
    walk_in_bound path ds (objects x y) h = walk_keys_bound x y path (all_keys x y) ds h
    walk_in_bound path ds (differ other) h = rw other (add_bound ds _ h)

  walk-Bounded : (n : ℕ) → Bounded (walk fingerprint maximum n)
  unfolding walk
  walk-Bounded zero a b path ds h = h
  walk-Bounded (suc n) a b path ds h = elim (Bool-cases (is_full fingerprint maximum ds)) [
    | inl full ↦ rw full h
    | inr room ↦
        rw room
          (walk_in_bound (walk fingerprint maximum n) (walk-Bounded n) path ds (shapes a b) room)
  ]

is_nil_iff : (ds : List Difference) → (is_nil ds ≡ true) ↔ (ds ≡ [])
is_nil_iff [] = (λ e. refl, λ e. refl)
is_nil_iff (d ∷ ds) = (λ e. cc, λ e. cc)

-- If at least one difference may be recorded and the primary payload's objects have distinct keys,
-- the comparison says that the payloads match exactly if their canonical forms are equal, with the
-- fields of objects in any order; and it records at most as many differences as allowed.
pub compare_payloads-Same :
    (fingerprint : Value → String) (policy : Policy) (primary shadow : Value)
    → IsUnique primary
    → 1 ≤ policy.maximum_differences
    → (((compare_payloads fingerprint policy primary shadow).is_match ≡ true)
        ↔ Same (canonical policy root primary) (canonical policy root shadow))
      × ((compare_payloads fingerprint policy primary shadow).difference_count
          ≤ policy.maximum_differences)
unfolding compare_payloads
compare_payloads-Same fingerprint policy primary shadow u positive =
    let left = canonical policy root primary in
    let right = canonical policy root shadow in
    let n = suc (depth left) in
    let ds = walk fingerprint policy.maximum_differences n left right root [] in
    let decides =
      walk-Decides fingerprint policy.maximum_differences positive n left right root (omega arith)
        (canonical-IsUnique policy root primary u) in
    (
      (λ e. decides.0 ((is_nil_iff ds).0 e), λ s. (is_nil_iff ds).1 (decides.1 s)),
      walk-Bounded fingerprint policy.maximum_differences n left right root [] (omega arith),
    )
