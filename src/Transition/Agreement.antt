-- ===== src/Transition/Agreement.antt =====
-- When `walk` of src/transition/shadow.py finds no difference.
use Prim.Native.Nat.{ℕ, zero, suc, ◌≤◌, ◌<◌}
use Prim.Native.String.{String}
use mathlib.Core.Path.{◌≡◌, refl, ap, sym, subst}
use mathlib.Core.Logic.{◌≢◌, ◌↔◌}
use mathlib.Core.Bool.{Bool, true, false}
use mathlib.Core.List.{[]}
use native.Mathlib.Omega.{arith}
use text.Mathlib.Text.{◌==◌ as str_eq}
use text.Mathlib.TextEquality.{eq_iff}
use foundation_intelligence.Common.{◌==◌}
use foundation_intelligence.Transition.Values.{
  ℤ, pos, negsuc, Value, null, boolean, integer, float, string, array, dict, Elements, Route,
  size_items,
}
use foundation_intelligence.Transition.Compare.{
  depth, depth_items, type_of, same_int, same_bool, Visit, walk_same, walk_in, walk,
}
use foundation_intelligence.Transition.Same.{
  Same, SameItems, SameFields, Within, IsUnique, AllUnique,
}
use foundation_intelligence.Transition.Shapes.{
  Shapes, shapes, nulls, booleans, integers, floats, strings, arrays, objects, differ,
}
use foundation_intelligence.Transition.Growth.{
  append_nil, Grows, walk_items-Grows, walk-Grows, unless_quiet,
}
use foundation_intelligence.Transition.Union.{str_eq_refl}
use foundation_intelligence.Transition.Loops.{room, same_length, items-Same, objects-Same, Decides}

same_bool_iff : (x y : Bool) → same_bool x y ≡ true → y ≡ x
same_bool_iff true true h = refl
same_bool_iff true false h = cc
same_bool_iff false true h = cc
same_bool_iff false false h = refl

same_int_iff : (x y : ℤ) → same_int x y ≡ true → y ≡ x
same_int_iff (pos m) (pos n) h = ground arith
same_int_iff (pos m) (negsuc n) h = cc
same_int_iff (negsuc m) (pos n) h = cc
same_int_iff (negsuc m) (negsuc n) h = ground arith

same_bool_refl : (x : Bool) → same_bool x x ≡ true
same_bool_refl true = refl
same_bool_refl false = refl

same_int_refl : (x : ℤ) → same_int x x ≡ true
same_int_refl (pos n) = ground arith
same_int_refl (negsuc n) = ground arith

differ_types : (m n : ℕ) → (m == n) ≡ false → m ≢ n
differ_types m n h e = ground arith

Same-type_of : (a b : Value) → Same a b → type_of b ≡ type_of a
unfolding Same
Same-type_of null b s = ap type_of s
Same-type_of (boolean x) b s = ap type_of s
Same-type_of (integer x) b s = ap type_of s
Same-type_of (float x) b s = ap type_of s
Same-type_of (string x) b s = ap type_of s
Same-type_of (array xs) b s = ap type_of s.1
Same-type_of (dict fs) b s = ap type_of s.1

module _ (fingerprint : Value → String) (maximum : ℕ) (positive : 1 ≤ maximum) where
  module _ (n : ℕ) (visit : Visit fingerprint maximum) (grows : Grows fingerprint maximum visit)
      (decides : Decides fingerprint maximum positive n visit) where
    arrays-Same :
        (path : Route) (xs ys : Elements)
        → depth_items xs < n
        → AllUnique xs
        → (walk_in fingerprint maximum visit (array xs) (array ys) path [] ≡ []) ↔ SameItems xs ys
    unfolding walk_in walk_same
    arrays-Same path xs ys d u = (forth, back)
      where
        forth :
            walk_in fingerprint maximum visit (array xs) (array ys) path [] ≡ [] → SameItems xs ys
        forth e =
            let start = walk_items-Grows fingerprint maximum visit grows path 0 xs ys _ e in
            let same =
              same_length fingerprint maximum positive (size_items xs == size_items ys) path _ _
                start in
            let lengths : size_items xs ≡ size_items ys = ground arith in
            (items-Same fingerprint maximum positive n visit grows decides path 0 xs ys d u).0
              (rw same at e, lengths)

        back :
            SameItems xs ys → walk_in fingerprint maximum visit (array xs) (array ys) path [] ≡ []
        back s =
            let (quiet, lengths) =
              (items-Same fingerprint maximum positive n visit grows decides path 0 xs ys d u).1
                s in
            let same : (size_items xs == size_items ys) ≡ true = ground arith in rw same quiet

    -- The body of `walk` decides one level more than its recursive calls.
    pub walk_in-Same :
        {a b : Value} (path : Route)
        → Shapes a b
        → depth a < suc n
        → IsUnique a
        → (walk_in fingerprint maximum visit a b path [] ≡ []) ↔ Same a b
    unfolding walk_in walk_same Same IsUnique depth
    walk_in-Same path nulls d u = (λ e. refl, λ s. refl)
    walk_in-Same path (booleans x y) d u = (
      λ e.
          ap boolean
            (same_bool_iff x y (unless_quiet fingerprint maximum (same_bool x y) path _ _ [] e).0),
      λ s. let same : y ≡ x = cc in rw same (rw (same_bool_refl x) refl),
    )
    walk_in-Same path (integers x y) d u = (
      λ e.
          ap integer
            (same_int_iff x y (unless_quiet fingerprint maximum (same_int x y) path _ _ [] e).0),
      λ s. let same : y ≡ x = cc in rw same (rw (same_int_refl x) refl),
    )
    walk_in-Same path (floats x y) d u = (
      λ e.
          ap float
            (sym ((eq_iff x y).0 (unless_quiet fingerprint maximum (str_eq x y) path _ _ [] e).0)),
      λ s. let same : y ≡ x = cc in rw same (rw (str_eq_refl x) refl),
    )
    walk_in-Same path (strings x y) d u = (
      λ e.
          ap string
            (sym ((eq_iff x y).0 (unless_quiet fingerprint maximum (str_eq x y) path _ _ [] e).0)),
      λ s. let same : y ≡ x = cc in rw same (rw (str_eq_refl x) refl),
    )
    walk_in-Same path (arrays xs ys) d u =
        let agree = arrays-Same path xs ys (omega (arith, d)) u in
        (
          λ e. (ys, refl, agree.0 e),
          λ (s : Same (array xs) (array ys)).
              let same : s.0 ≡ ys = cc (s.1) in agree.1 (subst (SameItems xs) same s.2),
        )
    walk_in-Same path (objects fs gs) d u =
        let agree =
          objects-Same fingerprint maximum positive n visit grows decides path fs gs
            (omega (arith, d)) u in
        (
          λ e. (let (fields, within) = agree.0 e in (gs, refl, fields, within)),
          λ (s : Same (dict fs) (dict gs)).
              let same : s.0 ≡ gs = cc (s.1) in
              agree.1 (subst (λ x. SameFields fs x × Within x fs) same (s.2, s.3)),
        )
    walk_in-Same {a} {b} path (differ other) d u = (
      λ e. absurd (append_nil [] _ (rw other at e)),
      λ s.
          let same = Same-type_of a b s in
          absurd (differ_types (type_of a) (type_of b) other (sym same)),
    )

  -- `walk` decides every value that its fuel reaches.
  pub walk-Decides : (n : ℕ) → Decides fingerprint maximum positive n (walk fingerprint maximum n)
  unfolding walk
  walk-Decides zero a b path d u = absurd (omega (arith, d))
  walk-Decides (suc n) a b path d u = rw (room fingerprint maximum positive) (
      walk_in-Same n (walk fingerprint maximum n) (walk-Grows fingerprint maximum n)
        (walk-Decides n) path (shapes a b) d u)
