-- ===== src/Transition/Values.antt =====
-- The JSON values that src/transition/shadow.py compares, and the paths that it builds into them. A
-- float is given by its decimal text, as `format(Decimal(str(value)), "f")` writes it.
use Prim.Native.Nat.{ℕ, zero, suc, ◌+◌}
use Prim.Native.Char.{code}
use Prim.Native.String.{String}
use mathlib.Core.Bool.{Bool, true, false, ◌&&◌}
use mathlib.Core.Option.{Option, none, some}
use mathlib.Core.List.{List, [], ◌∷◌, ◌++◌, map, reverse}
use text.Mathlib.Text.{◌==◌ as str_eq}
use foundation_intelligence.Common.{◌==◌, any, if◌then◌else◌}

pub data ℤ : Type 0 where
  pos : ℕ → ℤ
  negsuc : ℕ → ℤ

mutual
  -- A dictionary is its entries in the order of their insertion.
  pub data Entries : Type 0 where
    no_entries : Entries
    entry : (key : String) → Value → Entries → Entries

  pub data Elements : Type 0 where
    no_items : Elements
    item : Value → Elements → Elements

  pub data Value : Type 0 where
    dict : Entries → Value
    array : Elements → Value
    string : String → Value
    float : (decimal : String) → Value
    integer : ℤ → Value
    boolean : Bool → Value
    null : Value

-- `value.get(key)`
unfoldable pub lookup : String → Entries → Option Value
lookup k no_entries = none
lookup k (entry j v fs) = if str_eq j k then some v else lookup k fs

unfoldable pub keys : Entries → List String
keys no_entries = []
keys (entry k v fs) = k ∷ keys fs

unfoldable pub size_items : Elements → ℕ
size_items no_items = 0
size_items (item x xs) = suc (size_items xs)

abbrev pub codes : String → List ℕ
codes String.[] = []
codes (String.◌∷◌ c s) = code c ∷ codes s

unfoldable pub same_codes : List ℕ → List ℕ → Bool
same_codes [] [] = true
same_codes [] (d ∷ ds) = false
same_codes (c ∷ cs) [] = false
same_codes (c ∷ cs) (d ∷ ds) = c == d && same_codes cs ds

-- A path is the code points of its text.
abbrev pub Route : Type 0
Route = List ℕ

-- `path in paths`
unfoldable pub is_among : Route → List String → Bool
unfolding same_codes
is_among path paths = any (λ s. same_codes (codes s) path) paths

-- `f"{path}.{key}"`
abbrev pub at_key : Route → String → Route
at_key path key = path ++ 46 ∷ codes key

-- The decimal digits of a number, the last first.
unfoldable pub increment : List ℕ → List ℕ
increment [] = 1 ∷ []
increment (d ∷ ds) = if d == 9 then 0 ∷ increment ds else (d + 1) ∷ ds

unfoldable pub digits : ℕ → List ℕ
unfolding increment
digits zero = 0 ∷ []
digits (suc n) = increment (digits n)

-- `str(n)`
unfoldable pub decimal : ℕ → List ℕ
unfolding digits
decimal n = map (λ d. d + 48) (reverse (digits n))

-- `f"{path}[{index}]"`
unfoldable pub at_index : Route → ℕ → Route
unfolding decimal
at_index path i = path ++ 91 ∷ decimal i ++ 93 ∷ []
