-- ===== src/Cache/Valid.antt =====
-- The shape of the cache of src/bff/postgres/base.py: how many entries it holds, and that a key has
-- one entry and one task.
use Prim.Native.Nat.{ℕ, suc, ◌≤◌}
use mathlib.Core.Path.{◌≡◌, refl, ◌∙◌}
use mathlib.Core.Logic.{inl, inr}
use mathlib.Core.Bool.{Bool, ◌&&◌}
use mathlib.Core.Option.{none, some}
use Prim.Native.String.{String}
use mathlib.Core.List.{List, [], ◌∷◌, ◌++◌}
use native.Mathlib.Omega.{arith}
use foundation_intelligence.Common.{
  ltb, Bool-cases, length, Distinct, Distinct-append, delete, delete-All, first-none, length-append,
  length-delete-le, Distinct-delete, length-delete-lt, first-In,
}
use foundation_intelligence.Cache.{
  Key, key_eq, Entry, Flight, Cache, is_entry, is_flight, is_stale_key, flight_of, pop_entry,
  move_to_end, enter, leave, is_task, evict, store, entry_of, Entrance, found, joins, creates,
  retain_dataset, clear, init,
}
use foundation_intelligence.Cache.Keys.{
  Misses, absent, expired, Enters, finds, waits, starts, enter-cases, key_eq_refl,
}
use foundation_intelligence.Cache.World.{
  World, Step, call, finish, resume, cancel, abandon, answers, retains, clears, Label, entered,
  is_done, Run, start, next, new_world, finished, left, answer,
}

module _ {V : Type 0} where
  abbrev pub same_entry : Entry V → Entry V → Bool
  same_entry a b = key_eq a.key b.key

abbrev pub same_flight : Flight → Flight → Bool
same_flight a b = key_eq a.key b.key

pub record IsValid {V : Type 0} (c : Cache V) : Type 0 where
  pub bounded : length c.entries ≤ c.max_entries
  pub unique : Distinct same_entry c.entries
  pub single : Distinct same_flight c.inflight

module _ {V : Type 0} where
  length-evict-le : (n : ℕ) (es : List (Entry V)) → length (evict n es) ≤ n
  unfolding evict
  length-evict-le n [] = omega arith
  length-evict-le n (e ∷ es) = ground (arith, length-evict-le n es)

  evict-Distinct :
      (n : ℕ) (es : List (Entry V)) → Distinct same_entry es → Distinct same_entry (evict n es)
  unfolding evict
  evict-Distinct n [] d = tt
  evict-Distinct n (e ∷ es) d = elim (Bool-cases (ltb n (suc (length es)))) [
    | inl full ↦ rw full (evict-Distinct n es d.1)
    | inr fits ↦ rw fits d
  ]

  moved-Distinct :
      (e : Entry V) (c : Cache V)
      → Distinct same_entry c.entries
      → Distinct same_entry (move_to_end e c).entries
  unfolding move_to_end is_entry
  moved-Distinct e c d =
      Distinct-append same_entry _ e (delete-All (is_entry e.key) c.entries)
        (Distinct-delete (is_entry e.key) same_entry c.entries d)

  found-IsValid :
      (k : Key) (e : Entry V) (c : Cache V)
      → entry_of k c ≡ some e
      → IsValid c
      → IsValid (move_to_end e c)
  unfolding entry_of move_to_end is_entry
  found-IsValid k e c h v = record {
    bounded =
        let there = first-In (is_entry k) e c.entries h in
        let shorter = length-delete-lt (is_entry e.key) e c.entries there (key_eq_refl e.key) in
        omega
          (arith, shorter, v.bounded, length-append (delete (is_entry e.key) c.entries) (e ∷ []));
    unique = moved-Distinct e c v.unique;
    single = v.single;
  }

  missed-IsValid :
      (k : Key) (fresh now : ℕ) (c c' : Cache V) → Misses k fresh now c c' → IsValid c → IsValid c'
  unfolding pop_entry
  missed-IsValid k fresh now c c' (absent none_there e) v = rw e v
  missed-IsValid k fresh now c c' (expired x there over e) v = rw e (record {
    bounded = omega (arith, length-delete-le (is_entry k) c.entries, v.bounded);
    unique = Distinct-delete (is_entry k) same_entry c.entries v.unique;
    single = v.single;
  })

  fly_new-Distinct :
      (k : Key) (fresh : ℕ) (c : Cache V)
      → flight_of k c ≡ none
      → Distinct same_flight c.inflight
      → Distinct same_flight (c.inflight ++ (record { key = k; task = fresh }) ∷ [])
  unfolding flight_of is_flight
  fly_new-Distinct k fresh c h d =
      Distinct-append same_flight c.inflight (record { key = k; task = fresh })
        (first-none (is_flight k) c.inflight h) d

  pub enter-IsValid :
      (k : Key) (fresh now : ℕ) (c : Cache V)
      → Enters k fresh now c
      → IsValid c
      → IsValid (enter k fresh now c).0
  enter-IsValid k fresh now c (finds e there alive eq) v =
      let kept = found-IsValid k e c there v in
      rw eq (record { bounded = kept.bounded; unique = kept.unique; single = kept.single })
  enter-IsValid k fresh now c (waits c' f missed there eq) v =
      let kept = missed-IsValid k fresh now c c' missed v in
      rw eq (record { bounded = kept.bounded; unique = kept.unique; single = kept.single })
  enter-IsValid k fresh now c (starts c' missed none_there eq) v =
      let kept = missed-IsValid k fresh now c c' missed v in
      rw eq (record {
        bounded = kept.bounded;
        unique = kept.unique;
        single = fly_new-Distinct k fresh c' none_there kept.single;
      })

  leave-IsValid :
      (k : Key) (i : ℕ) (done : Bool) (c : Cache V) → IsValid c → IsValid (leave k i done c)
  unfolding leave
  leave-IsValid k i done c v = elim (Bool-cases (done && is_task i (flight_of k c))) [
    | inl goes ↦ rw goes (record {
      bounded = v.bounded;
      unique = v.unique;
      single = Distinct-delete (is_flight k) same_flight c.inflight v.single;
    })
    | inr stays ↦ rw stays v
  ]

  store-IsValid : (k : Key) (v : V) (now : ℕ) (c : Cache V) → IsValid c → IsValid (store k v now c)
  unfolding store
  store-IsValid k v now c h = record {
    bounded = length-evict-le c.max_entries _;
    unique = evict-Distinct c.max_entries _ (moved-Distinct _ c h.unique);
    single = h.single;
  }

  retain-IsValid : (version : String) (c : Cache V) → IsValid c → IsValid (retain_dataset version c)
  unfolding retain_dataset
  retain-IsValid version c h = record {
    bounded =
        omega (arith, length-delete-le (λ e. is_stale_key version e.key) c.entries, h.bounded);
    unique = Distinct-delete (λ e. is_stale_key version e.key) same_entry c.entries h.unique;
    single = h.single;
  }

  entered-cache :
      (p : ℕ) (k : Key) (r : Cache V × Entrance V) (w : World V) → (entered p k r w).cache ≡ r.0
  unfolding entered
  entered-cache p k (c, found v) w = refl
  entered-cache p k (c, joins i) w = refl
  entered-cache p k (c, creates) w = refl

  pub Step-IsValid :
      {w : World V} {l : Label V} {w' : World V} → Step w l w' → IsValid w.cache → IsValid w'.cache
  unfolding finished left answer clear
  Step-IsValid {w} (call p k now h) v =
      rw (entered-cache p k (enter k w.fresh now w.cache) w)
        (enter-IsValid k w.fresh now w.cache (enter-cases k w.fresh now w.cache) v)
  Step-IsValid (finish i s h b) v = v
  Step-IsValid {w} (resume p k i h d) v = leave-IsValid k i (is_done (w.tasks i)) w.cache v
  Step-IsValid {w} (cancel p k i h) v = leave-IsValid k i (is_done (w.tasks i)) w.cache v
  Step-IsValid (abandon p k x h) v = v
  Step-IsValid {w} (answers p k x now h) v = store-IsValid k x now w.cache v
  Step-IsValid {w} (retains version) v = retain-IsValid version w.cache v
  Step-IsValid clears v = record { bounded = omega arith; unique = tt; single = tt }

  pub init-IsValid : (ttl max : ℕ) → IsValid (init {V = V} ttl max)
  init-IsValid ttl max = record { bounded = omega arith; unique = tt; single = tt }

  missed-max_entries :
      (k : Key) (fresh now : ℕ) (c c' : Cache V)
      → Misses k fresh now c c'
      → c'.max_entries ≡ c.max_entries
  unfolding pop_entry
  missed-max_entries k fresh now c c' (absent none_there e) = rw e refl
  missed-max_entries k fresh now c c' (expired x there over e) = rw e refl

  entered-max_entries :
      (p : ℕ) (k : Key) (now : ℕ) (w : World V)
      → Enters k w.fresh now w.cache
      → (entered p k (enter k w.fresh now w.cache) w).cache.max_entries ≡ w.cache.max_entries
  unfolding entered move_to_end
  entered-max_entries p k now w (finds e there alive eq) = rw eq refl
  entered-max_entries p k now w (waits c' f missed there eq) =
      rw eq (missed-max_entries k w.fresh now w.cache c' missed)
  entered-max_entries p k now w (starts c' missed none_there eq) =
      rw eq (missed-max_entries k w.fresh now w.cache c' missed)

  leave-max_entries :
      (k : Key) (i : ℕ) (done : Bool) (c : Cache V) → (leave k i done c).max_entries ≡ c.max_entries
  unfolding leave
  leave-max_entries k i done c = ground arith

  Step-max_entries :
      {w : World V} {l : Label V} {w' : World V}
      → Step w l w'
      → w'.cache.max_entries ≡ w.cache.max_entries
  unfolding finished left answer store move_to_end retain_dataset clear
  Step-max_entries {w} (call p k now _) =
      entered-max_entries p k now w (enter-cases k w.fresh now w.cache)
  Step-max_entries (finish i s _ _) = refl
  Step-max_entries {w} (resume p k i _ _) = leave-max_entries k i (is_done (w.tasks i)) w.cache
  Step-max_entries {w} (cancel p k i _) = leave-max_entries k i (is_done (w.tasks i)) w.cache
  Step-max_entries (abandon p k x _) = refl
  Step-max_entries (answers p k x now _) = refl
  Step-max_entries (retains version) = refl
  Step-max_entries clears = refl

  -- Whatever calls, cancellations, clearings and dataset changes interleave, the cache holds at
  -- most the number of entries that it was made for, one for a key, and one task in flight for a
  -- key.
  pub Run-IsValid :
      (ttl max_entries : ℕ) {ls : List (Label V)} {w : World V}
      → Run (new_world ttl max_entries) ls w
      → IsValid w.cache × (length w.cache.entries ≤ max_entries)
  Run-IsValid ttl max_entries r = let (v, e) = kept r in (v, omega (arith, v.bounded, e))
    where
      kept :
          {ls : List (Label V)} {w : World V}
          → Run (new_world ttl max_entries) ls w
          → IsValid w.cache × (w.cache.max_entries ≡ max_entries)
      kept start = (init-IsValid ttl max_entries, refl)
      kept (next r step) = let (v, e) = kept r in (Step-IsValid step v, Step-max_entries step ∙ e)
