-- ===== src/Transition/Same.antt =====
-- What it means that two values of src/transition/shadow.py are equal: as Python's `==` on the
-- values themselves, with the fields of an object in any order.
use mathlib.Core.Path.{◌≡◌}
use mathlib.Core.Option.{some, none}
use foundation_intelligence.Common.{All}
use foundation_intelligence.Transition.Values.{
  Value, null, boolean, integer, float, string, array, dict, Elements, no_items, item, Entries,
  no_entries, entry, lookup, keys,
}

-- Every key of the first object is one of the second.
abbrev pub Within : Entries → Entries → Type 0
Within gs fs = All (λ k. (v : Value) × (lookup k fs ≡ some v)) (keys gs)

unfoldable mutual
  pub Same : Value → Value → Type 0
  Same null b = b ≡ null
  Same (boolean x) b = b ≡ boolean x
  Same (integer x) b = b ≡ integer x
  Same (float x) b = b ≡ float x
  Same (string x) b = b ≡ string x
  Same (array xs) b = (ys : Elements) × (b ≡ array ys) × SameItems xs ys
  Same (dict fs) b = (gs : Entries) × (b ≡ dict gs) × SameFields fs gs × Within gs fs

  pub SameItems : Elements → Elements → Type 0
  SameItems no_items ys = ys ≡ no_items
  SameItems (item x xs) ys =
      (z : Value) × (zs : Elements) × (ys ≡ item z zs) × Same x z × SameItems xs zs

  -- Each entry of the first object stands, with an equal value, in the second.
  pub SameFields : Entries → Entries → Type 0
  SameFields no_entries gs = Unit
  SameFields (entry k v fs) gs =
      ((w : Value) × (lookup k gs ≡ some w) × Same v w) × SameFields fs gs

-- Objects with distinct keys, as every dictionary has them.
unfoldable mutual
  pub IsUnique : Value → Type 0
  IsUnique null = Unit
  IsUnique (boolean x) = Unit
  IsUnique (integer x) = Unit
  IsUnique (float x) = Unit
  IsUnique (string x) = Unit
  IsUnique (array xs) = AllUnique xs
  IsUnique (dict fs) = UniqueFields fs

  pub AllUnique : Elements → Type 0
  AllUnique no_items = Unit
  AllUnique (item x xs) = IsUnique x × AllUnique xs

  pub UniqueFields : Entries → Type 0
  UniqueFields no_entries = Unit
  UniqueFields (entry k v fs) = (lookup k fs ≡ none) × IsUnique v × UniqueFields fs
