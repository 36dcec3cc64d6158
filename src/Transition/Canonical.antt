-- ===== src/Transition/Canonical.antt =====
-- `_canonical` of src/transition/shadow.py. `_json_value` changes no JSON value.
use Prim.Native.Nat.{ℕ, suc, Ordering}
use Prim.Native.String.{String, compare as compare_text}
use mathlib.Core.Bool.{Bool, true, false, ◌&&◌, ◌||◌}
use mathlib.Core.List.{List, [], ◌∷◌}
use foundation_intelligence.Common.{◌==◌, ltb, if◌then◌else◌}
use foundation_intelligence.Transition.Values.{
  Value, null, boolean, integer, float, string, array, dict, Elements, no_items, item, Entries,
  no_entries, entry, Route, is_among, at_key, at_index,
}
use foundation_intelligence.Transition.Printing.{dumps}

-- `ComparisonPolicy`
pub record Policy : Type 0 where
  pub unordered_paths : List String
  pub ignored_paths : List String
  pub maximum_differences : ℕ

-- Texts and code points stand in the order of their code points.
abbrev pub text_before : String → String → Bool
text_before s t = elim (compare_text s t) [ Ordering.lt ↦ true | _ ↦ false ]

unfoldable pub codes_before : List ℕ → List ℕ → Bool
codes_before [] [] = false
codes_before [] (d ∷ ds) = true
codes_before (c ∷ cs) [] = false
codes_before (c ∷ cs) (d ∷ ds) = ltb c d || (c == d && codes_before cs ds)

-- `sorted(value.items())`; keys are distinct, so values are never compared.
unfoldable pub insert_field : String → Value → Entries → Entries
insert_field k v no_entries = entry k v no_entries
insert_field k v (entry j w fs) =
    if text_before j k then entry j w (insert_field k v fs) else entry k v (entry j w fs)

unfoldable pub sort_fields : Entries → Entries
unfolding insert_field
sort_fields no_entries = no_entries
sort_fields (entry k v fs) = insert_field k v (sort_fields fs)

-- `canonical.sort(key=…)`
unfoldable pub insert_item : Value → Elements → Elements
unfolding dumps codes_before
insert_item x no_items = item x no_items
insert_item x (item y ys) =
    if codes_before (dumps y) (dumps x) then item y (insert_item x ys) else item x (item y ys)

unfoldable pub sort_items : Elements → Elements
unfolding insert_item
sort_items no_items = no_items
sort_items (item x xs) = insert_item x (sort_items xs)

unfoldable mutual
  unfolding is_among at_index sort_fields sort_items

  pub canonical : Policy → Route → Value → Value
  canonical p path null = null
  canonical p path (boolean b) = boolean b
  canonical p path (integer n) = integer n
  canonical p path (float decimal) = string decimal
  canonical p path (string s) = string s
  canonical p path (array xs) =
      let items = canonical_items p path 0 xs in
      if is_among path p.unordered_paths then array (sort_items items) else array items
  canonical p path (dict fs) = dict (sort_fields (canonical_fields p path fs))

  pub canonical_items : Policy → Route → ℕ → Elements → Elements
  canonical_items p path i no_items = no_items
  canonical_items p path i (item x xs) =
      item (canonical p (at_index path i) x) (canonical_items p path (suc i) xs)

  pub canonical_fields : Policy → Route → Entries → Entries
  canonical_fields p path no_entries = no_entries
  canonical_fields p path (entry k v fs) =
      let rest = canonical_fields p path fs in
      if is_among (at_key path k) p.ignored_paths
      then rest
      else entry k (canonical p (at_key path k) v) rest
