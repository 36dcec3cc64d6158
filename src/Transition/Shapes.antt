-- ===== src/Transition/Shapes.antt =====
-- Pairs of values of src/transition/shadow.py: of one type, or of two.
use Prim.Native.String.{String}
use mathlib.Core.Path.{◌≡◌, refl}
use mathlib.Core.Bool.{Bool, false}
use foundation_intelligence.Common.{◌==◌}
use foundation_intelligence.Transition.Values.{
  ℤ, Value, null, boolean, integer, float, string, array, dict, Elements, Entries,
}
use foundation_intelligence.Transition.Compare.{type_of}

pub data Shapes : Value → Value → Type 0 where
  nulls : Shapes null null
  booleans : (x y : Bool) → Shapes (boolean x) (boolean y)
  integers : (x y : ℤ) → Shapes (integer x) (integer y)
  floats : (x y : String) → Shapes (float x) (float y)
  strings : (x y : String) → Shapes (string x) (string y)
  arrays : (x y : Elements) → Shapes (array x) (array y)
  objects : (x y : Entries) → Shapes (dict x) (dict y)
  differ : {a b : Value} → (type_of a == type_of b) ≡ false → Shapes a b

pub shapes : (a b : Value) → Shapes a b
shapes null null = nulls
shapes null (boolean y) = differ refl
shapes null (integer y) = differ refl
shapes null (float y) = differ refl
shapes null (string y) = differ refl
shapes null (array y) = differ refl
shapes null (dict y) = differ refl
shapes (boolean x) null = differ refl
shapes (boolean x) (boolean y) = booleans x y
shapes (boolean x) (integer y) = differ refl
shapes (boolean x) (float y) = differ refl
shapes (boolean x) (string y) = differ refl
shapes (boolean x) (array y) = differ refl
shapes (boolean x) (dict y) = differ refl
shapes (integer x) null = differ refl
shapes (integer x) (boolean y) = differ refl
shapes (integer x) (integer y) = integers x y
shapes (integer x) (float y) = differ refl
shapes (integer x) (string y) = differ refl
shapes (integer x) (array y) = differ refl
shapes (integer x) (dict y) = differ refl
shapes (float x) null = differ refl
shapes (float x) (boolean y) = differ refl
shapes (float x) (integer y) = differ refl
shapes (float x) (float y) = floats x y
shapes (float x) (string y) = differ refl
shapes (float x) (array y) = differ refl
shapes (float x) (dict y) = differ refl
shapes (string x) null = differ refl
shapes (string x) (boolean y) = differ refl
shapes (string x) (integer y) = differ refl
shapes (string x) (float y) = differ refl
shapes (string x) (string y) = strings x y
shapes (string x) (array y) = differ refl
shapes (string x) (dict y) = differ refl
shapes (array x) null = differ refl
shapes (array x) (boolean y) = differ refl
shapes (array x) (integer y) = differ refl
shapes (array x) (float y) = differ refl
shapes (array x) (string y) = differ refl
shapes (array x) (array y) = arrays x y
shapes (array x) (dict y) = differ refl
shapes (dict x) null = differ refl
shapes (dict x) (boolean y) = differ refl
shapes (dict x) (integer y) = differ refl
shapes (dict x) (float y) = differ refl
shapes (dict x) (string y) = differ refl
shapes (dict x) (array y) = differ refl
shapes (dict x) (dict y) = objects x y
