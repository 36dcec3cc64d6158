-- ===== src/Common/Text.antt =====
-- What the source uses of Python's `str`: `strip`, `lower` on ASCII, and slicing `[:n]`.
use Prim.Native.Nat.{ℕ, suc, zero}
use Prim.Native.Char.{Char, code}
use Prim.Native.String.{String}
use mathlib.Core.Path.{◌≡◌, refl, ap, ◌∙◌}
use mathlib.Core.Logic.{inl, inr}
use native.Mathlib.Omega.{arith}
use mathlib.Core.Bool.{Bool, true, false, ◌&&◌, ◌||◌}
use foundation_intelligence.Common.Tests.{leb, ◌==◌, if◌then◌else◌, Bool-cases, and_parts}

-- `str.isspace` on one code point.
unfoldable pub is_space : ℕ → Bool
is_space c =
    (leb 9 c && leb c 13)
    || (leb 28 c && leb c 32)
    || c == 133
    || c == 160
    || c == 5760
    || (leb 8192 c && leb c 8202)
    || c == 8232
    || c == 8233
    || c == 8239
    || c == 8287
    || c == 12288

pub lstrip : String → String
lstrip String.[] = String.[]
lstrip (String.◌∷◌ c s) = if is_space (code c) then lstrip s else String.◌∷◌ c s

abbrev keep_char : Char → String → String
keep_char c String.[] = if is_space (code c) then String.[] else String.◌∷◌ c String.[]
keep_char c (String.◌∷◌ d r) = String.◌∷◌ c (String.◌∷◌ d r)

pub rstrip : String → String
rstrip String.[] = String.[]
rstrip (String.◌∷◌ c s) = keep_char c (rstrip s)

-- `s.strip()`
unfoldable pub strip : String → String
unfolding lstrip rstrip is_space
strip s = rstrip (lstrip s)

strip_example : strip "  ab c\t " ≡ "ab c"
unfolding strip
strip_example = refl

-- `s[:n]`
unfoldable pub truncate : ℕ → String → String
truncate zero s = String.[]
truncate (suc n) String.[] = String.[]
truncate (suc n) (String.◌∷◌ c s) = String.◌∷◌ c (truncate n s)

-- `not s`
abbrev pub is_empty : String → Bool
is_empty String.[] = true
is_empty (String.◌∷◌ c s) = false

-- `not s.strip()`
abbrev pub is_blank : String → Bool
is_blank s = is_empty (strip s)

-- The first character, if there is one, is no space.
abbrev StartsDark : String → Type 0
StartsDark String.[] = Unit {0}
StartsDark (String.◌∷◌ c s) = is_space (code c) ≡ false

lstrip-StartsDark : (s : String) → StartsDark (lstrip s)
unfolding lstrip
lstrip-StartsDark String.[] = tt
lstrip-StartsDark (String.◌∷◌ c s) = elim (Bool-cases (is_space (code c))) [
  | inl space ↦ rw space (lstrip-StartsDark s)
  | inr dark ↦ rw dark dark
]

lstrip_dark : (s : String) → StartsDark s → lstrip s ≡ s
unfolding lstrip
lstrip_dark String.[] h = refl
lstrip_dark (String.◌∷◌ c s) h = rw h

keep_char_idem : (c : Char) (r : String) → rstrip r ≡ r → rstrip (keep_char c r) ≡ keep_char c r
unfolding rstrip
keep_char_idem c String.[] h = elim (Bool-cases (is_space (code c))) [
  | inl space ↦ rw space
  | inr dark ↦ rw dark (rw dark)
]
keep_char_idem c (String.◌∷◌ d r) h = rw h

rstrip_idem : (s : String) → rstrip (rstrip s) ≡ rstrip s
unfolding rstrip
rstrip_idem String.[] = refl
rstrip_idem (String.◌∷◌ c s) = keep_char_idem c (rstrip s) (rstrip_idem s)

keep_char-StartsDark :
    (c : Char) (r : String) → is_space (code c) ≡ false → StartsDark (keep_char c r)
keep_char-StartsDark c String.[] h = rw h h
keep_char-StartsDark c (String.◌∷◌ d r) h = h

rstrip-StartsDark : (s : String) → StartsDark s → StartsDark (rstrip s)
unfolding rstrip
rstrip-StartsDark String.[] h = tt
rstrip-StartsDark (String.◌∷◌ c s) h = keep_char-StartsDark c (rstrip s) h

pub strip_idem : (s : String) → strip (strip s) ≡ strip s
unfolding strip
strip_idem s =
    ap rstrip (lstrip_dark (rstrip (lstrip s)) (rstrip-StartsDark (lstrip s) (lstrip-StartsDark s)))
    ∙ rstrip_idem (lstrip s)

-- What `strip` has left non-empty is not blank.
pub strip-not_blank : (s : String) → is_empty (strip s) ≡ false → is_blank (strip s) ≡ false
strip-not_blank s h = rw (strip_idem s) h

-- `btrim(s) = ''`
unfoldable pub is_spaces : String → Bool
is_spaces String.[] = true
is_spaces (String.◌∷◌ c s) = code c == 32 && is_spaces s

lstrip-is_spaces : (s : String) → is_spaces s ≡ true → lstrip s ≡ String.[]
unfolding is_spaces lstrip is_space
lstrip-is_spaces String.[] h = refl
lstrip-is_spaces (String.◌∷◌ c s) h =
    let (space, rest) = and_parts (code c == 32) (is_spaces s) h in
    let dark : is_space (code c) ≡ true = ground arith in rw dark (lstrip-is_spaces s rest)

-- What Python does not find blank, SQL does not either.
pub is_blank-is_spaces : (s : String) → is_blank s ≡ false → is_spaces s ≡ false
unfolding strip rstrip
is_blank-is_spaces s h = elim (Bool-cases (is_spaces s)) [
  | inl spaces ↦ cc (rw (lstrip-is_spaces s spaces) at h)
  | inr other ↦ other
]

-- What `strip` has left non-empty SQL does not find blank.
pub strip-not_spaces : (s : String) → is_empty (strip s) ≡ false → is_spaces (strip s) ≡ false
strip-not_spaces s h = is_blank-is_spaces (strip s) (strip-not_blank s h)
