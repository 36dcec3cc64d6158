-- ===== src/Transition/Compare.antt =====
-- `compare_payloads` of src/transition/shadow.py, with `_fingerprint` as a parameter. `walk` goes as
-- deep as its fuel, and it is started with fuel for the depth of the value.
use Prim.Native.Nat.{ℕ, zero, suc, max}
use Prim.Native.String.{String}
use mathlib.Core.Bool.{Bool, true, false, not}
use mathlib.Core.Option.{Option, none, some}
use mathlib.Core.List.{List, [], ◌∷◌, ◌++◌}
use text.Mathlib.Text.{◌==◌ as str_eq}
use foundation_intelligence.Common.{◌==◌, leb, if◌then◌else◌, length, is_one_of, is_nil, insert_by}
use foundation_intelligence.Transition.Values.{
  ℤ, pos, negsuc, Value, null, boolean, integer, float, string, array, dict, Elements, no_items,
  item, Entries, no_entries, entry, Route, at_key, at_index, lookup, keys, size_items,
}
use foundation_intelligence.Transition.Canonical.{Policy, text_before, canonical}

pub data Kind : Type 0 where
  other_type missing_primary missing_shadow other_length other_value : Kind

-- A fingerprint is `none` for "absent".
pub record Difference : Type 0 where
  pub path : Route
  pub kind : Kind
  pub primary_fingerprint : Option String
  pub shadow_fingerprint : Option String

-- `status == "match"`, `differences` and their count.
pub record Comparison : Type 0 where
  pub is_match : Bool
  pub difference_count : ℕ
  pub differences : List Difference

unfoldable mutual
  pub depth : Value → ℕ
  depth null = 0
  depth (boolean b) = 0
  depth (integer n) = 0
  depth (float decimal) = 0
  depth (string s) = 0
  depth (array xs) = suc (depth_items xs)
  depth (dict fs) = suc (depth_fields fs)

  pub depth_items : Elements → ℕ
  depth_items no_items = 0
  depth_items (item x xs) = max (depth x) (depth_items xs)

  pub depth_fields : Entries → ℕ
  depth_fields no_entries = 0
  depth_fields (entry k v fs) = max (depth v) (depth_fields fs)

-- `type(a) is type(b)`
abbrev pub type_of : Value → ℕ
type_of null = 0
type_of (boolean b) = 1
type_of (integer n) = 2
type_of (float decimal) = 3
type_of (string s) = 4
type_of (array xs) = 5
type_of (dict fs) = 6

abbrev pub same_int : ℤ → ℤ → Bool
same_int (pos m) (pos n) = m == n
same_int (pos m) (negsuc n) = false
same_int (negsuc m) (pos n) = false
same_int (negsuc m) (negsuc n) = m == n

abbrev pub same_bool : Bool → Bool → Bool
same_bool true b = b
same_bool false b = not b

-- `sorted(set(primary) | set(shadow))`
abbrev pub put_key : String → List String → List String
put_key k ks = if is_one_of k ks then ks else insert_by text_before k ks

unfoldable pub put_keys : List String → List String → List String
put_keys [] ks = ks
put_keys (j ∷ js) ks = put_key j (put_keys js ks)

unfoldable pub all_keys : Entries → Entries → List String
unfolding keys put_keys
all_keys fs gs = put_keys (keys fs) (put_keys (keys gs) [])

module _ (fingerprint : Value → String) (maximum : ℕ) where
  -- `len(differences) >= policy.maximum_differences`
  abbrev pub is_full : List Difference → Bool
  is_full ds = leb maximum (length ds)

  abbrev pub add : Route → Kind → Option String → Option String → List Difference → List Difference
  add path kind p s ds =
      ds
      ++ (record { path = path; kind = kind; primary_fingerprint = p; shadow_fingerprint = s }) ∷ []

  abbrev pub adds : Route → Kind → Value → Value → List Difference → List Difference
  adds path kind a b = add path kind (some (fingerprint a)) (some (fingerprint b))

  -- The recursive calls of `walk`.
  abbrev pub Visit : Type 0
  Visit = Value → Value → Route → List Difference → List Difference

  -- One key of the union.
  abbrev pub walk_key :
      Visit → Route → Option Value → Option Value → List Difference → List Difference
  walk_key visit path none none ds = ds
  walk_key visit path none (some w) ds = add path missing_primary none (some (fingerprint w)) ds
  walk_key visit path (some v) none ds = add path missing_shadow (some (fingerprint v)) none ds
  walk_key visit path (some v) (some w) ds = visit v w path ds

  unfoldable pub walk_keys :
      Visit → Entries → Entries → Route → List String → List Difference → List Difference
  unfolding lookup
  walk_keys visit fs gs path [] ds = ds
  walk_keys visit fs gs path (k ∷ ks) ds =
      let ds' = walk_key visit (at_key path k) (lookup k fs) (lookup k gs) ds in
      let rest = walk_keys visit fs gs path ks ds' in if is_full ds' then ds' else rest

  unfoldable pub walk_items :
      Visit → Route → ℕ → Elements → Elements → List Difference → List Difference
  unfolding at_index
  walk_items visit path i no_items ys ds = ds
  walk_items visit path i (item x xs) no_items ds = ds
  walk_items visit path i (item x xs) (item y ys) ds =
      let ds' = visit x y (at_index path i) ds in
      let rest = walk_items visit path (suc i) xs ys ds' in if is_full ds' then ds' else rest

  -- `if primary_value != shadow_value`
  abbrev pub value_unless : Bool → Route → Value → Value → List Difference → List Difference
  value_unless same path a b ds = if same then ds else adds path other_value a b ds

  -- The body of `walk` for two values of one type.
  unfoldable pub walk_same : Visit → Value → Value → Route → List Difference → List Difference
  unfolding walk_keys walk_items all_keys size_items
  walk_same visit (boolean b) (boolean c) path ds =
      value_unless (same_bool b c) path (boolean b) (boolean c) ds
  walk_same visit (integer m) (integer n) path ds =
      value_unless (same_int m n) path (integer m) (integer n) ds
  walk_same visit (float s) (float t) path ds =
      value_unless (str_eq s t) path (float s) (float t) ds
  walk_same visit (string s) (string t) path ds =
      value_unless (str_eq s t) path (string s) (string t) ds
  walk_same visit (array xs) (array ys) path ds = walk_items visit path 0 xs ys (
      if size_items xs == size_items ys
      then ds
      else adds path other_length (integer (pos (size_items xs))) (integer (pos (size_items ys)))
          ds)
  walk_same visit (dict fs) (dict gs) path ds = walk_keys visit fs gs path (all_keys fs gs) ds
  walk_same visit a b path ds = ds

  -- The body of `walk`, past its first test.
  unfoldable pub walk_in : Visit → Value → Value → Route → List Difference → List Difference
  unfolding walk_same
  walk_in visit a b path ds =
      if type_of a == type_of b then walk_same visit a b path ds else adds path other_type a b ds

  unfoldable pub walk : ℕ → Visit
  unfolding walk_in
  walk zero a b path ds = ds
  walk (suc n) a b path ds =
      let rest = walk_in (walk n) a b path ds in if is_full ds then ds else rest

-- `"$"`
abbrev pub root : Route
root = 36 ∷ []

-- `compare_payloads`
unfoldable pub compare_payloads : (Value → String) → Policy → Value → Value → Comparison
unfolding canonical depth walk
compare_payloads fingerprint policy primary shadow =
    let left = canonical policy root primary in
    let right = canonical policy root shadow in
    let ds = walk fingerprint policy.maximum_differences (suc (depth left)) left right root [] in
    record { is_match = is_nil ds; difference_count = length ds; differences = ds }
