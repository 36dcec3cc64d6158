-- ===== src/Durable/Objects.antt =====
-- `StorageObject` and `InMemoryObjectStore` of src/pipelines/durable.py. A payload is a list of byte
-- values, and `sha256` is the parameter for hashlib's digest in lower case hexadecimal. Lengths are
-- natural, so that the test of a negative length is left out.
pub mod Immutable
use Prim.Native.Nat.{ℕ}
use Prim.Native.String.{String}
use mathlib.Core.Path.{◌≡◌, refl, sym, subst}
use mathlib.Core.Logic.{◌⊎◌, inl, inr}
use mathlib.Core.Bool.{Bool, true, false, not, ◌&&◌, ◌||◌}
use mathlib.Core.Option.{Option, none, some}
use mathlib.Core.List.{List, [], ◌∷◌, ◌++◌}
use text.Mathlib.Text.{◌==◌ as str_eq}
use text.Mathlib.TextEquality.{eq_iff}
use native.Mathlib.Omega.{arith}
use foundation_intelligence.Common.{
  Result, ok, err, ok_eq, ◌>>=◌, ◌>>◌, >>-ok, after_check, raise_if, is_one_of, is_sha256, is_blank,
  every, length, ◌==◌, first, first-append, first-append-none, All, All-append, Bool-cases,
  Option-cases, if◌then◌else◌,
}

pub data ObjectError : Type 0 where
  invalid_zone mutable_raw invalid_checksum missing_location : ObjectError
  wrong_length wrong_checksum different_bytes : ObjectError

abbrev pub Bytes : Type 0
Bytes = List ℕ

-- Without the ids of the object, its source and its run, which no operation here reads.
pub record StorageObject : Type 0 where
  pub zone : String
  pub bucket_alias : String
  pub object_key : String
  pub object_version : String
  pub checksum : String
  pub content_length : ℕ
  pub content_type : String
  pub immutable : Bool

abbrev pub object_zones : List String
object_zones = "raw" ∷ "validated" ∷ "curated" ∷ "export" ∷ []

-- `StorageObject.validate`
unfoldable pub validate_object : StorageObject → Result ObjectError (Unit {0})
validate_object d = do
  raise_if (not (is_one_of d.zone object_zones)) invalid_zone
  raise_if (str_eq d.zone "raw" && not d.immutable) mutable_raw
  raise_if (not (is_sha256 d.checksum)) invalid_checksum
  raise_if
      (is_blank d.bucket_alias
        || is_blank d.object_key
        || is_blank d.object_version
        || is_blank d.content_type)
      missing_location

-- `_identity(…) == _identity(…)`
abbrev pub same_identity : StorageObject → StorageObject → Bool
same_identity d e =
    str_eq d.zone e.zone
    && str_eq d.bucket_alias e.bucket_alias
    && str_eq d.object_key e.object_key
    && str_eq d.object_version e.object_version

-- `self._objects`, in the order of insertion
abbrev pub Objects : Type 0
Objects = List (StorageObject × Bytes)

abbrev pub is_identity : StorageObject → StorageObject × Bytes → Bool
is_identity d o = same_identity d o.0

abbrev pub same_bytes : Bytes → Bytes → Bool
same_bytes [] [] = true
same_bytes (x ∷ xs) (y ∷ ys) = x == y && same_bytes xs ys
same_bytes _ _ = false

module _ (sha256 : Bytes → String) where
  unfoldable pub put_if_absent : StorageObject → Bytes → Objects → Result ObjectError Objects
  put_if_absent d payload objects = do
    validate_object d
    raise_if (not (d.content_length == length payload)) wrong_length
    raise_if (not (str_eq d.checksum (sha256 payload))) wrong_checksum
    elim (first (is_identity d) objects) [
      | some existing ↦
          if not (same_bytes existing.1 payload) then err different_bytes else ok objects
      | none ↦ ok (objects ++ (d, payload) ∷ [])
    ]

-- `none` is the `KeyError`.
unfoldable pub get : StorageObject → Objects → Option Bytes
get d objects = elim (first (is_identity d) objects) [
  | none ↦ none
  | some existing ↦ some existing.1
]
