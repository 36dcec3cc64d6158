-- ===== src/Transition/Union.antt =====
-- Which keys the objects of src/transition/shadow.py have, and their union.
use Prim.Native.String.{String}
use mathlib.Core.Path.{◌≡◌, refl, ◌∙◌, subst}
use mathlib.Core.Logic.{◌⊎◌, inl, inr}
use mathlib.Core.Bool.{true}
use mathlib.Core.Option.{some}
use mathlib.Core.List.{List, [], ◌∷◌}
use text.Mathlib.Text.{◌==◌ as str_eq}
use text.Mathlib.TextEquality.{eq_iff}
use foundation_intelligence.Common.{insert_by-In, Bool-cases, In, is_one_of, any-In}
use foundation_intelligence.Transition.Values.{Value, Entries, no_entries, entry, lookup, keys}
use foundation_intelligence.Transition.Compare.{put_key, put_keys, all_keys}
use foundation_intelligence.Transition.Canonical.{text_before}

-- A key that an object has.
pub lookup-In : (k : String) (fs : Entries) {v : Value} → lookup k fs ≡ some v → In k (keys fs)
unfolding lookup keys
lookup-In k no_entries e = cc
lookup-In k (entry j v fs) e = elim (Bool-cases (str_eq j k)) [
  | inl same ↦ inl ((eq_iff j k).0 same)
  | inr other ↦ inr (lookup-In k fs (rw other at e))
]

pub str_eq_refl : (s : String) → str_eq s s ≡ true
str_eq_refl s = (eq_iff s s).1 refl

later_key :
    (j k : String) (w : Value) (fs : Entries)
    → (v : Value) × (lookup k fs ≡ some v)
    → (v : Value) × (lookup k (entry j w fs) ≡ some v)
unfolding lookup
later_key j k w fs (v, e) = elim (Bool-cases (str_eq j k)) [
  | inl same ↦ (w, rw same refl)
  | inr other ↦ (v, rw other e)
]

pub In-lookup : (k : String) (fs : Entries) → In k (keys fs) → (v : Value) × (lookup k fs ≡ some v)
unfolding keys lookup
In-lookup k no_entries m = absurd m
In-lookup k (entry j v fs) (inl e) =
    (v, let same : str_eq j k ≡ true = (eq_iff j k).1 e in rw same refl)
In-lookup k (entry j v fs) (inr m) = later_key j k v fs (In-lookup k fs m)

-- The union of the keys has them all.
put_key-In : (j k : String) (ks : List String) → (j ≡ k) ⊎ In k ks → In k (put_key j ks)
put_key-In j k ks h = elim (Bool-cases (is_one_of j ks)) [
  | inl there ↦ rw there (known there h)
  | inr new ↦ rw new (insert_by-In text_before j k ks h)
]
  where
    known : is_one_of j ks ≡ true → (j ≡ k) ⊎ In k ks → In k ks
    known there (inl e) =
        let (a, m, same) = any-In (λ x. str_eq x j) ks there in
        subst (λ x. In x ks) ((eq_iff a j).0 same ∙ e) m
    known there (inr m) = m

put_keys-In : (k : String) (js ks : List String) → In k js ⊎ In k ks → In k (put_keys js ks)
unfolding put_keys
put_keys-In k [] ks (inl m) = absurd m
put_keys-In k [] ks (inr m) = m
put_keys-In k (j ∷ js) ks (inl (inl e)) = put_key-In j k (put_keys js ks) (inl e)
put_keys-In k (j ∷ js) ks (inl (inr m)) =
    put_key-In j k (put_keys js ks) (inr (put_keys-In k js ks (inl m)))
put_keys-In k (j ∷ js) ks (inr m) =
    put_key-In j k (put_keys js ks) (inr (put_keys-In k js ks (inr m)))

pub all_keys-In :
    (k : String) (fs gs : Entries) → In k (keys fs) ⊎ In k (keys gs) → In k (all_keys fs gs)
unfolding all_keys
all_keys-In k fs gs (inl m) = put_keys-In k (keys fs) (put_keys (keys gs) []) (inl m)
all_keys-In k fs gs (inr m) =
    put_keys-In k (keys fs) (put_keys (keys gs) []) (inr (put_keys-In k (keys gs) [] (inl m)))
