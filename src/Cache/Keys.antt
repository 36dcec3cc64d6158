-- ===== src/Cache/Keys.antt =====
-- Keys of the cache of src/bff/postgres/base.py: when two are the same, and how the first stretch
-- of `get_or_create` comes out.
use Prim.Native.Nat.{ℕ, ◌+◌}
use mathlib.Core.Path.{◌≡◌, refl}
use mathlib.Core.Logic.{inl, inr}
use mathlib.Core.Bool.{true, false}
use mathlib.Core.Option.{none, some}
use mathlib.Core.List.{[], ◌∷◌, ◌++◌}
use text.Mathlib.Text.{◌==◌ as str_eq}
use text.Mathlib.TextEquality.{eq_iff}
use foundation_intelligence.Common.{ltb, Bool-cases, Option-cases, and_parts}
use foundation_intelligence.Cache.{
  Key, key_eq, Entry, Flight, Cache, found, joins, creates, entry_of, flight_of, pop_entry,
  move_to_end, fly, enter,
}

pub key_eq→eq : (k l : Key) → key_eq k l ≡ true → k ≡ l
unfolding key_eq
key_eq→eq [] [] h = refl
key_eq→eq [] (t ∷ l) h = cc
key_eq→eq (s ∷ k) [] h = cc
key_eq→eq (s ∷ k) (t ∷ l) h =
    let parts = and_parts (str_eq s t) (key_eq k l) h in
    let heads : s ≡ t = (eq_iff s t).0 parts.0 in
    let tails : k ≡ l = key_eq→eq k l parts.1 in rw (heads, tails)

pub key_eq_refl : (k : Key) → key_eq k k ≡ true
unfolding key_eq
key_eq_refl [] = refl
key_eq_refl (s ∷ k) = rw ((eq_iff s s).1 refl, key_eq_refl k)

pub key_eq_comm : (k l : Key) → key_eq k l ≡ key_eq l k
key_eq_comm k l = elim (Bool-cases (key_eq k l)) [
  | inl same ↦ let e : k ≡ l = key_eq→eq k l same in rw e
  | inr other ↦ elim (Bool-cases (key_eq l k)) [
    | inl same ↦ let e : l ≡ k = key_eq→eq l k same in rw e refl
    | inr other' ↦ cc
  ]
]

module _ {V : Type 0} (k : Key) (fresh now : ℕ) (c : Cache V) where
  -- The cache that `enter` hands on when it finds no entry that is alive.
  pub data Misses (c' : Cache V) : Type 0 where
    absent : entry_of k c ≡ none → c' ≡ c → Misses c'
    expired :
        (e : Entry V)
        → entry_of k c ≡ some e
        → ltb now e.expires ≡ false
        → c' ≡ pop_entry k c
        → Misses c'

  pub data Enters : Type 0 where
    finds :
        (e : Entry V)
        → entry_of k c ≡ some e
        → ltb now e.expires ≡ true
        → enter k fresh now c ≡ (record (move_to_end e c) { hits = c.hits + 1 }, found e.value)
        → Enters
    waits :
        (c' : Cache V) (f : Flight)
        → Misses c'
        → flight_of k c' ≡ some f
        → enter k fresh now c ≡ (record c' { hits = c'.hits + 1 }, joins f.task)
        → Enters
    starts :
        (c' : Cache V)
        → Misses c'
        → flight_of k c' ≡ none
        → enter k fresh now c ≡ (
          record c' {
            misses = c'.misses + 1;
            inflight = c'.inflight ++ (record { key = k; task = fresh }) ∷ [];
          },
          creates,
        )
        → Enters

  missed : (c' : Cache V) → Misses c' → enter k fresh now c ≡ fly k fresh c' → Enters
  unfolding fly
  missed c' m e = elim (Option-cases (flight_of k c')) [
    | inl none_there ↦ starts c' m none_there (rw e (rw (none_there, fly) refl))
    | inr there ↦ waits c' there.0 m there.1 (rw e (rw (there.1, fly) refl))
  ]

  pub enter-cases : Enters
  unfolding enter
  enter-cases = elim (Option-cases (entry_of k c)) [
    | inl none_there ↦ missed c (absent none_there refl) (rw (none_there, enter) refl)
    | inr there ↦ elim (Bool-cases (ltb now there.0.expires)) [
      | inl alive ↦ finds there.0 there.1 alive (rw (there.1, enter) (rw alive))
      | inr over ↦
          missed (pop_entry k c) (expired there.0 there.1 over refl) (rw (there.1, enter) (rw over))
    ]
  ]
