-- ===== src/Transition/Printing.antt =====
-- `json.dumps(value, sort_keys=True)` as code points, for the sort of unordered lists in
-- src/transition/shadow.py. The keys of objects stand sorted already, and floats are texts.
use Prim.Native.Nat.{ℕ, suc, ◌+◌, ◌-◌, ◌/◌, ◌%◌}
use Prim.Native.Char.{code}
use Prim.Native.String.{String}
use mathlib.Core.Path.{◌≡◌, refl}
use mathlib.Core.Bool.{true, false, ◌||◌, ◌&&◌}
use mathlib.Core.List.{List, [], ◌∷◌, ◌++◌}
use foundation_intelligence.Common.{◌==◌, ltb, leb, if◌then◌else◌}
use foundation_intelligence.Transition.Values.{
  ℤ, pos, negsuc, Value, null, boolean, integer, float, string, array, dict, Elements, no_items,
  item, Entries, no_entries, entry, codes, decimal,
}

abbrev hex_digit : ℕ → ℕ
hex_digit d = if ltb d 10 then d + 48 else d + 87

-- `\uXXXX`
abbrev unicode_escape : ℕ → List ℕ
unicode_escape n =
    92
    ∷ 117
    ∷ hex_digit (n / 4096 % 16)
    ∷ hex_digit (n / 256 % 16)
    ∷ hex_digit (n / 16 % 16)
    ∷ hex_digit (n % 16)
    ∷ []

-- A character of a text: escaped, unless it is printable ASCII.
unfoldable pub escape : ℕ → List ℕ
escape c =
    if c == 34 || c == 92
    then 92 ∷ c ∷ []
    else if leb 32 c && leb c 126
    then c ∷ []
    else if c == 10
    then 92 ∷ 110 ∷ []
    else if c == 13
    then 92 ∷ 114 ∷ []
    else if c == 9
    then 92 ∷ 116 ∷ []
    else if c == 8
    then 92 ∷ 98 ∷ []
    else if c == 12
    then 92 ∷ 102 ∷ []
    else if ltb c 65536
    then unicode_escape c
    else unicode_escape (55296 + (c - 65536) / 1024) ++ unicode_escape (56320 + (c - 65536) % 1024)

unfoldable pub escapes : String → List ℕ
unfolding escape
escapes String.[] = []
escapes (String.◌∷◌ c s) = escape (code c) ++ escapes s

abbrev quoted : String → List ℕ
quoted s = 34 ∷ escapes s ++ 34 ∷ []

unfoldable pub print_int : ℤ → List ℕ
unfolding decimal
print_int (pos n) = decimal n
print_int (negsuc n) = 45 ∷ decimal (suc n)

unfoldable mutual
  unfolding escapes print_int

  pub dumps : Value → List ℕ
  dumps null = codes "null"
  dumps (boolean true) = codes "true"
  dumps (boolean false) = codes "false"
  dumps (integer n) = print_int n
  dumps (float decimal) = quoted decimal
  dumps (string s) = quoted s
  dumps (array xs) = 91 ∷ dumps_items xs ++ 93 ∷ []
  dumps (dict fs) = 123 ∷ dumps_fields fs ++ 125 ∷ []

  pub dumps_items : Elements → List ℕ
  dumps_items no_items = []
  dumps_items (item x no_items) = dumps x
  dumps_items (item x (item y ys)) = dumps x ++ 44 ∷ 32 ∷ dumps_items (item y ys)

  pub dumps_fields : Entries → List ℕ
  dumps_fields no_entries = []
  dumps_fields (entry k v no_entries) = quoted k ++ 58 ∷ 32 ∷ dumps v
  dumps_fields (entry k v (entry j w fs)) =
      quoted k ++ 58 ∷ 32 ∷ dumps v ++ 44 ∷ 32 ∷ dumps_fields (entry j w fs)

dumps_example :
    dumps (dict (entry "a\n" (array (item (integer (negsuc 11)) (item null no_items))) no_entries))
    ≡ codes "{\"a\\n\": [-12, null]}"
unfolding dumps
dumps_example = refl
