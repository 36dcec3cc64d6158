-- ===== src/Common/Words.antt =====
-- Sets and tuples of texts, and texts that are SHA-256 digests.
use Prim.Native.Nat.{ℕ}
use Prim.Native.Char.{code}
use Prim.Native.String.{String, count}
use mathlib.Core.Bool.{Bool, true, false, ◌&&◌, ◌||◌, not}
use mathlib.Core.List.{List, [], ◌∷◌}
use text.Mathlib.Text.{◌==◌ as str_eq}
use foundation_intelligence.Common.Tests.{leb, ◌==◌}
use foundation_intelligence.Common.Lists.{any}

-- `s in {…}`
abbrev pub is_one_of : String → List String → Bool
is_one_of s xs = any (λ x. str_eq x s) xs

-- `len(xs) == len(set(xs))`
abbrev pub all_distinct : List String → Bool
all_distinct [] = true
all_distinct (x ∷ xs) = not (is_one_of x xs) && all_distinct xs

-- `not xs`
abbrev pub is_nil {ℓ} : {A : Type ℓ} → List A → Bool
is_nil [] = true
is_nil (x ∷ xs) = false

-- `c in "0123456789abcdef"`
abbrev pub is_hex_digit : ℕ → Bool
is_hex_digit c = (leb 48 c && leb c 57) || (leb 97 c && leb c 102)

abbrev pub is_hex : String → Bool
is_hex String.[] = true
is_hex (String.◌∷◌ c s) = is_hex_digit (code c) && is_hex s

-- `len(s) == 64 and not any(c not in "0123456789abcdef" for c in s)`
unfoldable pub is_sha256 : String → Bool
is_sha256 s = count s == 64 && is_hex s
