-- ===== src/Transition/Unique.antt =====
-- `_canonical` of src/transition/shadow.py keeps the keys of an object distinct.
use Prim.Native.Nat.{ℕ, suc}
use Prim.Native.String.{String}
use mathlib.Core.Path.{◌≡◌, refl, sym}
use mathlib.Core.Logic.{inl, inr}
use mathlib.Core.Bool.{false}
use mathlib.Core.Option.{none}
use text.Mathlib.Text.{◌==◌ as str_eq}
use text.Mathlib.TextEquality.{eq_iff}
use foundation_intelligence.Common.{Bool-cases}
use foundation_intelligence.Transition.Values.{
  Value, null, boolean, integer, float, string, array, dict, Elements, no_items, item, Entries,
  no_entries, entry, Route, at_key, at_index, lookup, is_among,
}
use foundation_intelligence.Transition.Printing.{dumps}
use foundation_intelligence.Transition.Canonical.{
  Policy, canonical, canonical_items, canonical_fields, text_before, codes_before, insert_field,
  sort_fields, insert_item, sort_items,
}
use foundation_intelligence.Transition.Same.{IsUnique, AllUnique, UniqueFields}

-- A key that is not there is neither the first nor among the rest.
not_first :
    (k j : String) (v : Value) (fs : Entries)
    → lookup k (entry j v fs) ≡ none
    → (str_eq j k ≡ false) × (lookup k fs ≡ none)
unfolding lookup
not_first k j v fs e = elim (Bool-cases (str_eq j k)) [
  | inl same ↦ cc (rw same at e)
  | inr other ↦ (other, rw other at e)
]

lookup-insert_field :
    (k j : String) (v : Value) (fs : Entries)
    → str_eq j k ≡ false
    → lookup k fs ≡ none
    → lookup k (insert_field j v fs) ≡ none
unfolding insert_field lookup
lookup-insert_field k j v no_entries other e = rw other refl
lookup-insert_field k j v (entry i w fs) other e =
    let (first, rest) = not_first k i w fs e in
    elim (Bool-cases (text_before i j)) [
      | inl earlier ↦ rw (earlier, first) (lookup-insert_field k j v fs other rest)
      | inr later ↦ rw (later, other, first) rest
    ]

str_eq_flip : (s t : String) → str_eq s t ≡ false → str_eq t s ≡ false
str_eq_flip s t e = elim (Bool-cases (str_eq t s)) [
  | inl same ↦ cc (e, (eq_iff s t).1 (sym ((eq_iff t s).0 same)))
  | inr other ↦ other
]

insert_field-Unique :
    (k : String) (v : Value) (fs : Entries)
    → lookup k fs ≡ none
    → IsUnique v
    → UniqueFields fs
    → UniqueFields (insert_field k v fs)
unfolding insert_field UniqueFields lookup
insert_field-Unique k v no_entries e u us = (refl, u, tt)
insert_field-Unique k v (entry j w fs) e u us =
    let (other, rest) = not_first k j w fs e in
    elim (Bool-cases (text_before j k)) [
      | inl earlier ↦ rw earlier (
        lookup-insert_field j k v fs (str_eq_flip j k other) us.0,
        us.1,
        insert_field-Unique k v fs rest u us.2,
      )
      | inr later ↦ rw later (e, u, us)
    ]

lookup-sort_fields :
    (k : String) (fs : Entries) → lookup k fs ≡ none → lookup k (sort_fields fs) ≡ none
unfolding sort_fields
lookup-sort_fields k no_entries e = e
lookup-sort_fields k (entry j v fs) e =
    let (other, rest) = not_first k j v fs e in
    lookup-insert_field k j v (sort_fields fs) other (lookup-sort_fields k fs rest)

sort_fields-Unique : (fs : Entries) → UniqueFields fs → UniqueFields (sort_fields fs)
unfolding sort_fields UniqueFields
sort_fields-Unique no_entries u = u
sort_fields-Unique (entry k v fs) u =
    insert_field-Unique k v (sort_fields fs) (lookup-sort_fields k fs u.0) u.1
      (sort_fields-Unique fs u.2)

insert_item-Unique :
    (x : Value) (xs : Elements) → IsUnique x → AllUnique xs → AllUnique (insert_item x xs)
unfolding insert_item AllUnique
insert_item-Unique x no_items u us = (u, tt)
insert_item-Unique x (item y ys) u us = elim (Bool-cases (codes_before (dumps y) (dumps x))) [
  | inl earlier ↦ rw earlier (us.0, insert_item-Unique x ys u us.1)
  | inr later ↦ rw later (u, us)
]

sort_items-Unique : (xs : Elements) → AllUnique xs → AllUnique (sort_items xs)
unfolding sort_items AllUnique
sort_items-Unique no_items u = u
sort_items-Unique (item x xs) u =
    insert_item-Unique x (sort_items xs) u.0 (sort_items-Unique xs u.1)

lookup-canonical_fields :
    (p : Policy) (path : Route) (k : String) (fs : Entries)
    → lookup k fs ≡ none
    → lookup k (canonical_fields p path fs) ≡ none
unfolding canonical lookup
lookup-canonical_fields p path k no_entries e = e
lookup-canonical_fields p path k (entry j v fs) e =
    let (other, rest) = not_first k j v fs e in
    elim (Bool-cases (is_among (at_key path j) p.ignored_paths)) [
      | inl ignored ↦ rw ignored (lookup-canonical_fields p path k fs rest)
      | inr kept ↦ rw kept (rw other (lookup-canonical_fields p path k fs rest))
    ]

mutual
  unfolding canonical IsUnique

  pub canonical-IsUnique :
      (p : Policy) (path : Route) (a : Value) → IsUnique a → IsUnique (canonical p path a)
  canonical-IsUnique p path null u = tt
  canonical-IsUnique p path (boolean b) u = tt
  canonical-IsUnique p path (integer n) u = tt
  canonical-IsUnique p path (float s) u = tt
  canonical-IsUnique p path (string s) u = tt
  canonical-IsUnique p path (array xs) u =
      let items = canonical_items-Unique p path 0 xs u in
      elim (Bool-cases (is_among path p.unordered_paths)) [
        | inl unordered ↦ rw unordered (sort_items-Unique (canonical_items p path 0 xs) items)
        | inr ordered ↦ rw ordered items
      ]
  canonical-IsUnique p path (dict fs) u =
      sort_fields-Unique (canonical_fields p path fs) (canonical_fields-Unique p path fs u)

  canonical_items-Unique :
      (p : Policy) (path : Route) (i : ℕ) (xs : Elements)
      → AllUnique xs
      → AllUnique (canonical_items p path i xs)
  canonical_items-Unique p path i no_items u = tt
  canonical_items-Unique p path i (item x xs) u =
      (canonical-IsUnique p (at_index path i) x u.0, canonical_items-Unique p path (suc i) xs u.1)

  canonical_fields-Unique :
      (p : Policy) (path : Route) (fs : Entries)
      → UniqueFields fs
      → UniqueFields (canonical_fields p path fs)
  canonical_fields-Unique p path no_entries u = tt
  canonical_fields-Unique p path (entry k v fs) u =
      let rest = canonical_fields-Unique p path fs u.2 in
      elim (Bool-cases (is_among (at_key path k) p.ignored_paths)) [
        | inl ignored ↦ rw ignored rest
        | inr kept ↦ rw kept (
          lookup-canonical_fields p path k fs u.0,
          canonical-IsUnique p (at_key path k) v u.1,
          rest,
        )
      ]
