-- ===== src/Transition/Loops.antt =====
-- When the loops of `walk` in src/transition/shadow.py, over keys and over items, find no difference.
use Prim.Native.Nat.{ℕ, suc, ◌≤◌, ◌<◌}
use Prim.Native.String.{String}
use mathlib.Core.Path.{◌≡◌, refl, ap, subst}
use mathlib.Core.Logic.{◌↔◌, ◌⊎◌, inl, inr}
use mathlib.Core.Bool.{Bool, true, false}
use mathlib.Core.Option.{some}
use mathlib.Core.List.{List, [], ◌∷◌}
use native.Mathlib.Omega.{arith}
use text.Mathlib.Text.{◌==◌ as str_eq}
use text.Mathlib.TextEquality.{eq_iff}
use foundation_intelligence.Common.{
  tabulate, if◌then◌else◌, Bool-cases, Option-cases, All, In, In-All, some_eq,
}
use foundation_intelligence.Transition.Values.{
  Value, Elements, no_items, item, Entries, no_entries, entry, Route, at_key, at_index, lookup,
  keys, size_items,
}
use foundation_intelligence.Transition.Compare.{
  Difference, other_length, depth, depth_items, depth_fields, all_keys, is_full, adds, Visit,
  walk_key, walk_keys, walk_items,
}
use foundation_intelligence.Transition.Same.{
  Same, SameItems, SameFields, Within, IsUnique, AllUnique, UniqueFields,
}
use foundation_intelligence.Transition.Growth.{
  append_nil, if_same, Grows, walk_keys-Grows, walk_items-Grows,
}
use foundation_intelligence.Transition.Union.{lookup-In, In-lookup, all_keys-In, str_eq_refl}

module _ (fingerprint : Value → String) (maximum : ℕ) (positive : 1 ≤ maximum) where
  -- There is room for a first difference.
  pub room : is_full fingerprint maximum [] ≡ false
  room = ground arith

  -- From no difference, a step of a loop and its rest end with none exactly if neither finds one.
  loop_iff :
      (ds : List Difference) (rest : List Difference → List Difference)
      → ((ds : List Difference) → rest ds ≡ [] → ds ≡ [])
      → ((if is_full fingerprint maximum ds then ds else rest ds) ≡ [])
        ↔ ((ds ≡ []) × (rest [] ≡ []))
  loop_iff ds rest grows = (forth, λ h. rw (h.0, room) h.1)
    where
      forth :
          (if is_full fingerprint maximum ds then ds else rest ds) ≡ [] → (ds ≡ []) × (rest [] ≡ [])
      forth e =
          let none_yet : ds ≡ [] = elim (if_same (is_full fingerprint maximum ds) ds (rest ds) e) [
            | inl h ↦ h
            | inr h ↦ grows ds h
          ] in
          (none_yet, rw room at (rw none_yet at e))

  module _ (visit : Visit fingerprint maximum) (grows : Grows fingerprint maximum visit) where
    -- What the loop over the keys does for one of them.
    abbrev KeyAgrees : Entries → Entries → Route → String → Type 0
    KeyAgrees fs gs path k =
        walk_key fingerprint maximum visit (at_key path k) (lookup k fs) (lookup k gs) [] ≡ []

    walk_keys-All :
        (fs gs : Entries) (path : Route) (ks : List String)
        → (walk_keys fingerprint maximum visit fs gs path ks [] ≡ [])
          ↔ All (KeyAgrees fs gs path) ks
    unfolding walk_keys
    walk_keys-All fs gs path [] = (λ e. tt, λ h. refl)
    walk_keys-All fs gs path (k ∷ ks) =
        let step =
          loop_iff
            (walk_key fingerprint maximum visit (at_key path k) (lookup k fs) (lookup k gs) [])
            (walk_keys fingerprint maximum visit fs gs path ks)
            (walk_keys-Grows fingerprint maximum visit grows fs gs path ks) in
        let ih = walk_keys-All fs gs path ks in
        (λ e. ((step.0 e).0, ih.0 (step.0 e).1), λ h. step.1 (h.0, ih.1 h.1))

  -- A visit that decides the values up to a depth.
  abbrev pub Decides : ℕ → Visit fingerprint maximum → Type 0
  Decides n visit =
      (a b : Value) (path : Route) → depth a < n → IsUnique a → (visit a b path [] ≡ []) ↔ Same a b

  pub same_length :
      (same : Bool) (path : Route) (a b : Value)
      → (if same then [] else adds fingerprint maximum path other_length a b []) ≡ []
      → same ≡ true
  same_length true path a b e = refl
  same_length false path a b e = cc

  module _ (n : ℕ) (visit : Visit fingerprint maximum) (grows : Grows fingerprint maximum visit)
      (decides : Decides n visit) where
    pub items-Same :
        (path : Route) (i : ℕ) (xs ys : Elements)
        → depth_items xs < n
        → AllUnique xs
        → ((walk_items fingerprint maximum visit path i xs ys [] ≡ [])
            × (size_items xs ≡ size_items ys))
          ↔ SameItems xs ys
    unfolding walk_items size_items depth_items SameItems AllUnique
    items-Same path i no_items no_items d u = (λ h. refl, λ h. (refl, refl))
    items-Same path i no_items (item y ys) d u = (λ h. absurd (omega (arith, h.1)), λ h. cc)
    items-Same path i (item x xs) no_items d u = (λ h. absurd (omega (arith, h.1)), λ h. cc (h.2))
    items-Same path i (item x xs) (item y ys) d u =
        let step =
          loop_iff (visit x y (at_index path i) [])
            (walk_items fingerprint maximum visit path (suc i) xs ys)
            (walk_items-Grows fingerprint maximum visit grows path (suc i) xs ys) in
        let one = decides x y (at_index path i) (omega (arith, d)) u.0 in
        let ih = items-Same path (suc i) xs ys (omega (arith, d)) u.1 in
        (
          λ h. (y, ys, refl, one.0 (step.0 h.0).0, ih.0 ((step.0 h.0).1, omega (arith, h.1))),
          λ h.
              let z_y : h.0 ≡ y = cc (h.2) in
              let zs_ys : h.1 ≡ ys = cc (h.2) in
              let rest = ih.1 (subst (SameItems xs) zs_ys h.4) in
              (step.1 (one.1 (subst (Same x) z_y h.3), rest.0), ap suc rest.1),
        )

    fields-Same :
        (path : Route) (fs gs : Entries)
        → depth_fields fs < n
        → UniqueFields fs
        → ((k : String) (v : Value)
            → lookup k fs ≡ some v
            → (w : Value) × (lookup k gs ≡ some w) × (visit v w (at_key path k) [] ≡ []))
        → SameFields fs gs
    unfolding depth_fields lookup UniqueFields SameFields
    fields-Same path no_entries gs d u f = tt
    fields-Same path (entry j v fs) gs d u f =
        let (w, there, agree) = f j v (rw (str_eq_refl j) refl) in
        (
          (w, there, (decides v w (at_key path j) (omega (arith, d)) u.1).0 agree),
          fields-Same path fs gs (omega (arith, d)) u.2 (λ k x e. f k x (kept k x e)),
        )
      where
        kept : (k : String) (x : Value) → lookup k fs ≡ some x → lookup k (entry j v fs) ≡ some x
        kept k x e = elim (Bool-cases (str_eq j k)) [
          | inl same ↦ cc (u.0, e, (eq_iff j k).0 same)
          | inr other ↦ rw other e
        ]

    Same-fields :
        (path : Route) (fs gs : Entries)
        → depth_fields fs < n
        → UniqueFields fs
        → SameFields fs gs
        → (k : String) (v : Value) → lookup k fs ≡ some v
        → (w : Value) × (lookup k gs ≡ some w) × (visit v w (at_key path k) [] ≡ [])
    unfolding depth_fields lookup UniqueFields SameFields
    Same-fields path no_entries gs d u s k v e = cc
    Same-fields path (entry j x fs) gs d u s k v e = elim (Bool-cases (str_eq j k)) [
      | inr other ↦ Same-fields path fs gs (omega (arith, d)) u.2 s.1 k v (rw other at e)
      | inl same ↦
          let (w, there, equal) = s.0 in
          let key : j ≡ k = (eq_iff j k).0 same in
          let value : x ≡ v = some_eq (rw same at e) in
          (
            w,
            rw (← key) there,
            rw (← value) ((decides x w (at_key path k) (omega (arith, d)) u.1).1 equal),
          )
    ]

    pub objects-Same :
        (path : Route) (fs gs : Entries)
        → depth_fields fs < n
        → UniqueFields fs
        → (walk_keys fingerprint maximum visit fs gs path (all_keys fs gs) [] ≡ [])
          ↔ (SameFields fs gs × Within gs fs)
    objects-Same path fs gs d u = (forth, back)
      where
        P : String → Type 0
        P = KeyAgrees visit grows fs gs path

        seen :
            walk_keys fingerprint maximum visit fs gs path (all_keys fs gs) [] ≡ []
            → (k : String) → In k (keys fs) ⊎ In k (keys gs)
            → P k
        seen e k m =
            In-All P k (all_keys fs gs) (all_keys-In k fs gs m)
              ((walk_keys-All visit grows fs gs path (all_keys fs gs)).0 e)

        both :
            (k : String) (v : Value)
            → lookup k fs ≡ some v
            → P k
            → (w : Value) × (lookup k gs ≡ some w) × (visit v w (at_key path k) [] ≡ [])
        both k v e agree = elim (Option-cases (lookup k gs)) [
          | inl gone ↦ absurd (append_nil [] _ (rw (e, gone) at agree))
          | inr (w, there) ↦ (w, there, rw (e, there) at agree)
        ]

        owned :
            (k : String) (w : Value)
            → lookup k gs ≡ some w
            → P k
            → (v : Value) × (lookup k fs ≡ some v)
        owned k w e agree = elim (Option-cases (lookup k fs)) [
          | inl gone ↦ absurd (append_nil [] _ (rw (e, gone) at agree))
          | inr there ↦ there
        ]

        forth :
            walk_keys fingerprint maximum visit fs gs path (all_keys fs gs) [] ≡ []
            → SameFields fs gs × Within gs fs
        forth e = (
          fields-Same path fs gs d u (λ k v h. both k v h (seen e k (inl (lookup-In k fs h)))),
          tabulate (keys gs)
              (λ k m. let (w, h) = In-lookup k gs m in owned k w h (seen e k (inr m))),
        )

        back :
            SameFields fs gs × Within gs fs
            → walk_keys fingerprint maximum visit fs gs path (all_keys fs gs) [] ≡ []
        back (s, within) =
            (walk_keys-All visit grows fs gs path (all_keys fs gs)).1
              (tabulate (all_keys fs gs) (λ k m. agrees k))
          where
            agrees : (k : String) → P k
            agrees k = elim (Option-cases (lookup k fs)) [
              | inr (v, e) ↦
                  let (w, there, quiet) = Same-fields path fs gs d u s k v e in rw (e, there) quiet
              | inl gone ↦ elim (Option-cases (lookup k gs)) [
                | inl gone' ↦ rw (gone, gone') refl
                | inr (w, there) ↦
                    let (v, e) =
                      In-All (λ k. (v : Value) × (lookup k fs ≡ some v)) k (keys gs)
                        (lookup-In k gs there) within in
                    cc (gone, e)
              ]
            ]
