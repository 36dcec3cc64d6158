-- ===== src/Durable/Objects/Immutable.antt =====
-- `InMemoryObjectStore` of src/pipelines/durable.py over any sequence of puts.
use Prim.Native.String.{String}
use mathlib.Core.Path.{◌≡◌, refl, sym, ap, ◌∙◌, subst}
use mathlib.Core.Logic.{◌⊎◌, inl, inr}
use mathlib.Core.Bool.{true, not, ◌&&◌}
use mathlib.Core.Option.{none, some}
use mathlib.Core.List.{List, [], ◌∷◌, ◌++◌}
use text.Mathlib.Text.{◌==◌ as str_eq}
use text.Mathlib.TextEquality.{eq_iff}
use native.Mathlib.Omega.{arith}
use foundation_intelligence.Common.{
  Result, ok, err, ok_eq, >>-ok, after_check, is_one_of, is_sha256, length, ◌==◌, some_eq, first,
  first-append, first-append-none, All, All-append, Bool-cases, Option-cases, if◌then◌else◌,
}
use foundation_intelligence.Durable.Objects.{
  StorageObject, Bytes, Objects, ObjectError, wrong_length, wrong_checksum, invalid_zone,
  mutable_raw, invalid_checksum, different_bytes, validate_object, same_identity, is_identity,
  same_bytes, put_if_absent, get, object_zones,
}

same_bytes-eq : (xs ys : Bytes) → same_bytes xs ys ≡ true → xs ≡ ys
same_bytes-eq [] [] e = refl
same_bytes-eq [] (y ∷ ys) e = cc
same_bytes-eq (x ∷ xs) [] e = cc
same_bytes-eq (x ∷ xs) (y ∷ ys) e = elim (Bool-cases (x == y)) [
  | inl here ↦
      let head : x ≡ y = ground arith in let tail = same_bytes-eq xs ys (rw here at e) in cc
  | inr differ ↦ cc (rw differ at e)
]

same_identity_refl : (d : StorageObject) → same_identity d d ≡ true
same_identity_refl d = ground (
  arith,
  eq_iff d.zone d.zone,
  eq_iff d.bucket_alias d.bucket_alias,
  eq_iff d.object_key d.object_key,
  eq_iff d.object_version d.object_version,
)

-- What is stored has the length and the digest that its descriptor says.
abbrev pub IsIntact : (Bytes → String) → StorageObject × Bytes → Type 0
IsIntact sha256 o =
    (length o.1 ≡ o.0.content_length)
    × (o.0.checksum ≡ sha256 o.1)
    × (is_sha256 o.0.checksum ≡ true)

validate_object-is_sha256 :
    (d : StorageObject) → validate_object d ≡ ok tt → is_sha256 d.checksum ≡ true
unfolding validate_object
validate_object-is_sha256 d e =
    let (_, e1) = after_check (not (is_one_of d.zone object_zones)) invalid_zone _ e in
    let (_, e2) = after_check (str_eq d.zone "raw" && not d.immutable) mutable_raw _ e1 in
    let (digest, _) = after_check (not (is_sha256 d.checksum)) invalid_checksum _ e2 in ground arith

stored_bytes :
    (d : StorageObject) (p : Bytes) (o : StorageObject × Bytes) (objects after : Objects)
    → first (is_identity d) objects ≡ some o
    → (if not (same_bytes o.1 p) then err different_bytes else ok objects) ≡ ok after
    → (after ≡ objects) × (o.1 ≡ p)
stored_bytes d p o objects after found e = elim (Bool-cases (same_bytes o.1 p)) [
  | inl same ↦ (sym (ok_eq (rw same at e)), same_bytes-eq o.1 p same)
  | inr differ ↦ cc (rw differ at e)
]

module _ (sha256 : Bytes → String) where
  -- How a put that returned has changed the store.
  put_if_absent-cases :
      (d : StorageObject) (p : Bytes) (objects after : Objects)
      → put_if_absent sha256 d p objects ≡ ok after
      → IsIntact sha256 (d, p)
        × (((after ≡ objects)
              × ((o : StorageObject × Bytes) × (first (is_identity d) objects ≡ some o)
                  × (o.1 ≡ p)))
            ⊎ ((after ≡ objects ++ (d, p) ∷ []) × (first (is_identity d) objects ≡ none)))
  unfolding put_if_absent
  put_if_absent-cases d p objects after e =
      let (valid, e1) = >>-ok (validate_object d) _ e in
      let (long, e2) = after_check (not (d.content_length == length p)) wrong_length _ e1 in
      let (digest, e3) = after_check (not (str_eq d.checksum (sha256 p))) wrong_checksum _ e2 in
      (
        (
          ground arith,
          ground (arith, eq_iff d.checksum (sha256 p)),
          validate_object-is_sha256 d valid,
        ),
        elim (Option-cases (first (is_identity d) objects)) [
          | inl free ↦ inr (sym (ok_eq (rw free at e3)), free)
          | inr (o, found) ↦
              let (same, bytes) = stored_bytes d p o objects after found (rw found at e3) in
              inl (same, (o, found, bytes))
        ],
      )

  -- The store that a put leaves; one that raises changes nothing.
  abbrev pub put : StorageObject × Bytes → Objects → Objects
  put (d, p) objects = elim (put_if_absent sha256 d p objects) [
    | ok after ↦ after
    | err e ↦ objects
  ]

  abbrev pub puts : List (StorageObject × Bytes) → Objects → Objects
  puts [] objects = objects
  puts (o ∷ os) objects = puts os (put o objects)

  put-err :
      (d : StorageObject) (p : Bytes) (objects : Objects) (e : ObjectError)
      → put_if_absent sha256 d p objects ≡ err e
      → put (d, p) objects ≡ objects
  put-err d p objects e h = rw (h, put)

  put-ok :
      (d : StorageObject) (p : Bytes) (objects after : Objects)
      → put_if_absent sha256 d p objects ≡ ok after
      → put (d, p) objects ≡ after
  put-ok d p objects after h = rw (h, put)

  put-first :
      (d e : StorageObject) (p : Bytes) (o : StorageObject × Bytes) (objects : Objects)
      → first (is_identity d) objects ≡ some o
      → first (is_identity d) (put (e, p) objects) ≡ some o
  put-first d e p o objects found = go (put_if_absent sha256 e p objects) refl
    where
      go :
          (out : Result ObjectError Objects)
          → put_if_absent sha256 e p objects ≡ out
          → first (is_identity d) (put (e, p) objects) ≡ some o
      go (err x) h =
          subst (λ os. first (is_identity d) os ≡ some o) (sym (put-err e p objects x h)) found
      go (ok after) h =
          subst (λ os. first (is_identity d) os ≡ some o) (sym (put-ok e p objects after h))
            (elim (put_if_absent-cases e p objects after h).1 [
              | inl (same, _) ↦ subst (λ os. first (is_identity d) os ≡ some o) (sym same) found
              | inr (added, _) ↦
                  subst (λ os. first (is_identity d) os ≡ some o) (sym added)
                    (first-append (is_identity d) objects ((e, p) ∷ []) o found)
            ])

  puts-first :
      (d : StorageObject) (o : StorageObject × Bytes) (later : List (StorageObject × Bytes))
      (objects : Objects)
      → first (is_identity d) objects ≡ some o
      → first (is_identity d) (puts later objects) ≡ some o
  puts-first d o [] objects found = found
  puts-first d o ((e, p) ∷ later) objects found =
      puts-first d o later (put (e, p) objects) (put-first d e p o objects found)

  -- A put that returned can be read back from then on.
  put_if_absent-first :
      (d : StorageObject) (p : Bytes) (objects after : Objects)
      → put_if_absent sha256 d p objects ≡ ok after
      → (o : StorageObject × Bytes) × (first (is_identity d) after ≡ some o) × (o.1 ≡ p)
  put_if_absent-first d p objects after h = elim (put_if_absent-cases d p objects after h).1 [
    | inl (same, (o, found, bytes)) ↦
        (o, subst (λ os. first (is_identity d) os ≡ some o) (sym same) found, bytes)
    | inr (added, free) ↦ (
      (d, p),
      subst (λ os. first (is_identity d) os ≡ some (d, p)) (sym added)
          (first-append-none (is_identity d) objects (d, p) free (same_identity_refl d)),
      refl,
    )
  ]

  -- After a put that returned, whatever is put later, its bytes are read back under its identity, and
  -- a later put under that identity returns only with the same bytes, and then changes nothing.
  pub put_if_absent-get :
      (d : StorageObject) (p : Bytes) (objects after : Objects)
      (later : List (StorageObject × Bytes))
      → put_if_absent sha256 d p objects ≡ ok after
      → (get d (puts later after) ≡ some p)
        × ((q : Bytes) (out : Objects)
            → put_if_absent sha256 d q (puts later after) ≡ ok out
            → (q ≡ p) × (out ≡ puts later after))
  unfolding get
  put_if_absent-get d p objects after later h =
      let (o, found, bytes) = put_if_absent-first d p objects after h in
      let still = puts-first d o later after found in
      (rw (still, get) (rw bytes), λ q out again. same_again q out o bytes still again)
    where
      same_again :
          (q : Bytes) (out : Objects) (o : StorageObject × Bytes)
          → o.1 ≡ p
          → first (is_identity d) (puts later after) ≡ some o
          → put_if_absent sha256 d q (puts later after) ≡ ok out
          → (q ≡ p) × (out ≡ puts later after)
      same_again q out o bytes still again =
          elim (put_if_absent-cases d q (puts later after) out again).1 [
            | inl (same, (o', found, bytes')) ↦
                let one : o ≡ o' = some_eq (sym still ∙ found) in
                (sym bytes' ∙ ap (λ (x : StorageObject × Bytes). x.1) (sym one) ∙ bytes, same)
            | inr (added, free) ↦ absurd (clash (sym still ∙ free))
          ]
        where
          clash : some o ≡ none → ⊥
          clash e = cc

  put-IsIntact :
      (e : StorageObject) (p : Bytes) (objects : Objects)
      → All (IsIntact sha256) objects
      → All (IsIntact sha256) (put (e, p) objects)
  put-IsIntact e p objects h = go (put_if_absent sha256 e p objects) refl
    where
      go :
          (out : Result ObjectError Objects)
          → put_if_absent sha256 e p objects ≡ out
          → All (IsIntact sha256) (put (e, p) objects)
      go (err x) f = subst (All (IsIntact sha256)) (sym (put-err e p objects x f)) h
      go (ok after) f =
          let (intact, change) = put_if_absent-cases e p objects after f in
          subst (All (IsIntact sha256)) (sym (put-ok e p objects after f)) (elim change [
            | inl (same, _) ↦ subst (All (IsIntact sha256)) (sym same) h
            | inr (added, _) ↦
                subst (All (IsIntact sha256)) (sym added)
                  (All-append (IsIntact sha256) objects ((e, p) ∷ []) h (intact, tt))
          ])

  -- Whatever is put into a store whose objects are intact, each object has the length and the digest
  -- that its descriptor says.
  pub puts-IsIntact :
      (os : List (StorageObject × Bytes)) (objects : Objects)
      → All (IsIntact sha256) objects
      → All (IsIntact sha256) (puts os objects)
  puts-IsIntact [] objects h = h
  puts-IsIntact ((e, p) ∷ os) objects h =
      puts-IsIntact os (put (e, p) objects) (put-IsIntact e p objects h)
