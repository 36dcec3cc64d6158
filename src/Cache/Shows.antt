-- ===== src/Cache/Shows.antt =====
-- The cache of src/bff/postgres/base.py against its promise: how a world of entries, tasks and
-- callers shows a journal.
use Prim.Native.Nat.{ℕ, suc, ◌+◌, ◌≤◌}
use mathlib.Core.Path.{◌≡◌, refl, subst}
use mathlib.Core.Logic.{inl, inr}
use mathlib.Core.Bool.{true, false}
use mathlib.Core.List.{List, [], ◌∷◌, ◌++◌}
use native.Mathlib.Omega.{arith}
use foundation_intelligence.Common.{
  ◌==◌, Bool-cases, All, All-mono, All-append, All-delete, In, In-All, first-In, first-hit,
}
use foundation_intelligence.Cache.{
  Key, Entry, Flight, Cache, is_entry, is_flight, flight_of, entry_of, pop_entry, move_to_end,
  enter, Entrance, found, joins, creates,
}
use foundation_intelligence.Cache.Keys.{
  Misses, absent, expired, Enters, finds, waits, starts, key_eq→eq,
}
use foundation_intelligence.Cache.World.{
  World, running, returned, entered, set_at, Caller, idle, waiting, storing, hit, seen,
}
use foundation_intelligence.Cache.Promise.{Journal, Answer, Allowed, silence, repeat}

module _ {V : Type 0} where
  -- An entry stands for an answer that was given `ttl` before it expires.
  abbrev pub EntryShows : ℕ → Journal V → Entry V → Type 0
  EntryShows ttl j e =
      (at : ℕ) × In (record { key = e.key; value = e.value; at = at }) j.answers
      × (e.expires ≡ at + ttl)

  abbrev pub FlightShows : World V → Flight → Type 0
  FlightShows w f = (suc f.task ≤ w.fresh) × (w.loads f.task ≡ f.key)

  abbrev pub CallerShows : World V → Journal V → Caller V → Type 0
  CallerShows w j idle = Unit
  CallerShows w j (waiting k i) = (suc i ≤ w.fresh) × (w.loads i ≡ k)
  CallerShows w j (storing k v) = In (record { key = k; value = v }) j.loads

  pub record Shows (ttl : ℕ) (w : World V) (j : Journal V) : Type 0 where
    pub alive : w.cache.ttl ≡ ttl
    pub entries : All (EntryShows ttl j) w.cache.entries
    pub flights : All (FlightShows w) w.cache.inflight
    pub results :
        (i : ℕ) (v : V)
        → suc i ≤ w.fresh
        → w.tasks i ≡ returned v
        → In (record { key = w.loads i; value = v }) j.loads
    pub callers : (p : ℕ) → CallerShows w j (w.callers p)

  -- What the first stretch of `get_or_create` leaves and hands on.
  abbrev pub Fair : ℕ → Key → ℕ → World V → Journal V → Cache V × Entrance V → Type 0
  Fair ttl k now w j (c, found v) =
      (c.ttl ≡ ttl)
      × All (EntryShows ttl j) c.entries
      × All (FlightShows w) c.inflight
      × Allowed ttl j (hit k v now) j
  Fair ttl k now w j (c, joins i) =
      (c.ttl ≡ ttl)
      × All (EntryShows ttl j) c.entries
      × All (FlightShows w) c.inflight
      × FlightShows w (record { key = k; task = i })
  Fair ttl k now w j (c, creates) =
      (c.ttl ≡ ttl)
      × All (EntryShows ttl j) c.entries
      × ((flights : List Flight) × (c.inflight
            ≡ flights ++ (record { key = k; task = w.fresh }) ∷ [])
          × All (FlightShows w) flights)

  module _ (ttl : ℕ) where
    missed-Shows :
        (k : Key) (now : ℕ) (w : World V) (j : Journal V) (c' : Cache V)
        → Misses k w.fresh now w.cache c'
        → Shows ttl w j
        → (c'.ttl ≡ ttl) × All (EntryShows ttl j) c'.entries × All (FlightShows w) c'.inflight
    unfolding pop_entry
    missed-Shows k now w j c' (absent none_there e) h = rw e (h.alive, h.entries, h.flights)
    missed-Shows k now w j c' (expired x there over e) h =
        rw e
          (h.alive, All-delete (is_entry k) (EntryShows ttl j) w.cache.entries h.entries, h.flights)

    pub enter-Fair :
        (k : Key) (now : ℕ) (w : World V) (j : Journal V)
        → Enters k w.fresh now w.cache
        → Shows ttl w j
        → Fair ttl k now w j (enter k w.fresh now w.cache)
    unfolding entry_of flight_of is_entry is_flight move_to_end
    enter-Fair k now w j (finds e there alive eq) h =
        let same : e.key ≡ k = key_eq→eq e.key k (first-hit (is_entry k) w.cache.entries there) in
        let shown : EntryShows ttl j e =
          In-All (EntryShows ttl j) e w.cache.entries
            (first-In (is_entry k) e w.cache.entries there) h.entries in
        rw eq (
          h.alive,
          All-append (EntryShows ttl j) _ (e ∷ [])
              (All-delete (is_entry e.key) (EntryShows ttl j) w.cache.entries h.entries)
              (shown, tt),
          h.flights,
          repeat k e.value shown.0 now
              (subst
                (λ x.
                  In {A = Answer V} (record { key = x; value = e.value; at = shown.0 }) j.answers)
                same shown.1)
              (let due : e.expires ≡ shown.0 + ttl = shown.2 in ground arith),
        )
    enter-Fair k now w j (waits c' f missed there eq) h =
        let (a, b, c) = missed-Shows k now w j c' missed h in
        let same : f.key ≡ k = key_eq→eq f.key k (first-hit (is_flight k) c'.inflight there) in
        let shown : FlightShows w f =
          In-All (FlightShows w) f c'.inflight (first-In (is_flight k) f c'.inflight there) c in
        rw eq (a, b, c, rw (← same) shown)
    enter-Fair k now w j (starts c' missed none_there eq) h =
        let (a, b, c) = missed-Shows k now w j c' missed h in rw eq (a, b, (c'.inflight, refl, c))

    -- A new task disturbs no flight and no caller.
    new_FlightShows :
        (k : Key) (w w' : World V) (f : Flight)
        → w'.loads ≡ set_at w.loads w.fresh k
        → w'.fresh ≡ suc w.fresh
        → FlightShows w f
        → FlightShows w' f
    new_FlightShows k w w' f loads more h =
        let other : (f.task == w.fresh) ≡ false = ground (arith, h.0) in
        (omega (arith, h.0), rw loads (rw other h.1))

    new_CallerShows :
        (k : Key) (w w' : World V) (j : Journal V) (c : Caller V)
        → w'.loads ≡ set_at w.loads w.fresh k
        → w'.fresh ≡ suc w.fresh
        → CallerShows w j c
        → CallerShows w' j c
    new_CallerShows k w w' j idle loads more h = tt
    new_CallerShows k w w' j (waiting l i) loads more h =
        new_FlightShows k w w' (record { key = l; task = i }) loads more h
    new_CallerShows k w w' j (storing l v) loads more h = h

    pub set_callers :
        (w : World V) (j : Journal V) (p : ℕ) (c : Caller V) (q : ℕ)
        → CallerShows w j c
        → CallerShows w j (w.callers q)
        → CallerShows w j (set_at w.callers p c q)
    set_callers w j p c q h k = elim (Bool-cases (q == p)) [
      | inl same ↦ rw same h
      | inr other ↦ rw other k
    ]

    set_results :
        (k : Key) (w : World V) (j : Journal V) (i : ℕ) (v : V)
        → suc i ≤ suc w.fresh
        → Shows ttl w j
        → set_at w.tasks w.fresh running i ≡ returned v
        → In (record { key = set_at w.loads w.fresh k i; value = v }) j.loads
    set_results k w j i v b h e = elim (Bool-cases (i == w.fresh)) [
      | inl same ↦ cc (rw same at e)
      | inr other ↦
          let before : suc i ≤ w.fresh = ground arith in
          rw other (h.results i v before (rw other at e))
    ]

    pub entered-Shows :
        (p : ℕ) (k : Key) (now : ℕ) (w : World V) (j : Journal V) (r : Cache V × Entrance V)
        → Fair ttl k now w j r
        → Shows ttl w j
        → Allowed ttl j (seen k now r.1) j × Shows ttl (entered p k r w) j
    unfolding entered
    entered-Shows p k now w j (c, found v) f h = (
      f.3,
      record {
        alive = f.0;
        entries = f.1;
        flights = f.2;
        results = h.results;
        callers = h.callers;
      },
    )
    entered-Shows p k now w j (c, joins i) f h = (
      silence,
      record {
        alive = f.0;
        entries = f.1;
        flights = f.2;
        results = h.results;
        callers = λ q. set_callers w j p (waiting k i) q f.3 (h.callers q);
      },
    )
    entered-Shows p k now w j (c, creates) f h = (
      silence,
      record {
        alive = f.0;
        entries = f.1;
        flights =
            let fs = f.2.0 in
            let old =
              All-mono (FlightShows w) (FlightShows w') fs
                (λ g s. new_FlightShows k w w' g refl refl s) f.2.2 in
            rw f.2.1 (All-append (FlightShows w') fs (mine ∷ []) old (mine_shows, tt));
        results = λ i v b e. set_results k w j i v b h e;
        callers = λ q.
            set_callers w0 j p (waiting k w.fresh) q mine_shows
              (new_CallerShows k w w0 j (w.callers q) refl refl (h.callers q));
      },
    )
      where
        w' : World V
        w' = entered p k (c, creates) w

        w0 : World V
        w0 = record w' { callers = w.callers }

        mine : Flight
        mine = record { key = k; task = w.fresh }

        mine_shows : FlightShows w' mine
        mine_shows =
            let self : (w.fresh == w.fresh) ≡ true = ground arith in (omega arith, rw self refl)
