-- ===== src/Cache/Refines.antt =====
-- The cache of src/bff/postgres/base.py against its promise: each step is one that the journal
-- allows.
use Prim.Native.Nat.{ℕ, suc, ◌+◌}
use mathlib.Core.Path.{◌≡◌, refl, ap, subst}
use mathlib.Core.Logic.{◌≢◌, inl, inr}
use mathlib.Core.Bool.{◌&&◌}
use mathlib.Core.List.{List, [], ◌∷◌}
use native.Mathlib.Omega.{arith}
use foundation_intelligence.Common.{
  ◌==◌, ltb, length, Bool-cases, All, All-mono, All-append, All-delete, In,
}
use foundation_intelligence.Cache.{
  Key, Entry, is_entry, is_flight, flight_of, move_to_end, enter, leave, is_task, store, evict,
  is_stale_key, retain_dataset, clear,
}
use foundation_intelligence.Cache.Keys.{enter-cases}
use foundation_intelligence.Cache.World.{
  World, Status, running, failed, returned, Step, call, finish, resume, cancel, abandon, answers,
  retains, clears, Label, finished, left, answer, is_done, Caller, idle, waiting, storing, Run,
  start, next, new_world, outcome, resumed,
}
use foundation_intelligence.Cache.Promise.{
  Journal, Load, Answer, nothing, note_load, note_answer, Allowed, silence, emptied, load,
  fresh_load, Keeps, begin, then_allowed,
}
use foundation_intelligence.Cache.Shows.{
  Shows, EntryShows, FlightShows, CallerShows, entered-Shows, enter-Fair, set_callers,
}

module _ {V : Type 0} (ttl : ℕ) where
  -- The journal only grows.
  grown-EntryShows :
      (j : Journal V) (a : Answer V) (e : Entry V)
      → EntryShows ttl j e
      → EntryShows ttl (note_answer a.key a.value a.at j) e
  grown-EntryShows j a e h = (h.0, inr h.1, h.2)

  grown-CallerShows :
      (w : World V) (j : Journal V) (k : Key) (v : V) (c : Caller V)
      → CallerShows w j c
      → CallerShows w (note_load k v j) c
  grown-CallerShows w j k v idle h = tt
  grown-CallerShows w j k v (waiting l i) h = h
  grown-CallerShows w j k v (storing l u) h = inr h

  -- A task that ends without a value tells the journal nothing.
  ended-Shows :
      (i : ℕ) (s : Status V) (w : World V) (j : Journal V)
      → ((v : V) → s ≢ returned v)
      → Shows ttl w j
      → Shows ttl (finished i s w) j
  unfolding finished
  ended-Shows i s w j none_left h = record {
    alive = h.alive;
    entries = h.entries;
    flights = h.flights;
    results = λ i' v b e. elim (Bool-cases (i' == i)) [
      | inl same ↦ absurd (none_left v (rw same at e))
      | inr other ↦ h.results i' v b (rw other at e)
    ];
    callers = h.callers;
  }

  finished-Shows :
      (i : ℕ) (s : Status V) (w : World V) (j : Journal V)
      → Shows ttl w j
      → (j' : Journal V) × Allowed ttl j (outcome (w.loads i) s) j' × Shows ttl (finished i s w) j'
  unfolding finished
  finished-Shows i running w j h = (j, silence, ended-Shows i running w j (λ v e. cc) h)
  finished-Shows i failed w j h = (j, silence, ended-Shows i failed w j (λ v e. cc) h)
  finished-Shows i (returned v) w j h = (
    note_load (w.loads i) v j,
    load (w.loads i) v,
    record {
      alive = h.alive;
      entries = h.entries;
      flights = h.flights;
      results = λ i' v' b e. elim (Bool-cases (i' == i)) [
        | inl same ↦
            let value : v ≡ v' = cc (rw same at e) in
            let task : i' ≡ i = ground arith in inl (rw (task, value) refl)
        | inr other ↦ inr (h.results i' v' b (rw other at e))
      ];
      callers = λ p. grown-CallerShows w j (w.loads i) v (w.callers p) (h.callers p);
    },
  )

  left-Shows :
      (p : ℕ) (k : Key) (i : ℕ) (onward : Caller V) (w : World V) (j : Journal V)
      → CallerShows w j onward
      → Shows ttl w j
      → Shows ttl (left p k i onward w) j
  unfolding left leave
  left-Shows p k i onward w j c h =
      elim (Bool-cases (is_done (w.tasks i) && is_task i (flight_of k w.cache))) [
        | inl goes ↦ rw goes (record {
          alive = h.alive;
          entries = h.entries;
          flights = All-delete (is_flight k) (FlightShows w) w.cache.inflight h.flights;
          results = h.results;
          callers = λ q. set_callers ttl w j p onward q c (h.callers q);
        })
        | inr stays ↦ rw stays (record {
          alive = h.alive;
          entries = h.entries;
          flights = h.flights;
          results = h.results;
          callers = λ q. set_callers ttl w j p onward q c (h.callers q);
        })
      ]

  resumed-CallerShows :
      (k : Key) (i : ℕ) (w : World V) (j : Journal V) (s : Status V)
      → w.tasks i ≡ s
      → CallerShows w j (waiting k i)
      → Shows ttl w j
      → CallerShows w j (resumed k s)
  resumed-CallerShows k i w j running e c h = tt
  resumed-CallerShows k i w j failed e c h = tt
  resumed-CallerShows k i w j (returned v) e c h =
      subst (λ x. In {A = Load V} (record { key = x; value = v }) j.loads) c.1 (h.results i v c.0 e)

  evict-All : (P : Entry V → Type 0) (n : ℕ) (es : List (Entry V)) → All P es → All P (evict n es)
  unfolding evict
  evict-All P n [] h = tt
  evict-All P n (e ∷ es) h = elim (Bool-cases (ltb n (suc (length es)))) [
    | inl full ↦ rw full (evict-All P n es h.1)
    | inr fits ↦ rw fits h
  ]

  answer-Shows :
      (p : ℕ) (k : Key) (v : V) (now : ℕ) (w : World V) (j : Journal V)
      → Shows ttl w j
      → Shows ttl (answer p k v now w) (note_answer k v now j)
  unfolding answer store move_to_end is_entry
  answer-Shows p k v now w j h = record {
    alive = h.alive;
    entries = evict-All (EntryShows ttl j') w.cache.max_entries _ (
        All-append (EntryShows ttl j') _ (_ ∷ [])
          (All-delete (is_entry k) (EntryShows ttl j') w.cache.entries (
            All-mono (EntryShows ttl j) (EntryShows ttl j') w.cache.entries
              (grown-EntryShows j (record { key = k; value = v; at = now })) h.entries))
          ((now, inl refl, ap (λ (t : ℕ). now + t) h.alive), tt));
    flights = h.flights;
    results = h.results;
    callers = λ q. set_callers ttl w j p idle q tt (h.callers q);
  }
    where
      j' : Journal V
      j' = note_answer k v now j

  Step-Allowed :
      {w : World V} {l : Label V} {w' : World V} (j : Journal V)
      → Step w l w'
      → Shows ttl w j
      → (j' : Journal V) × Allowed ttl j l j' × Shows ttl w' j'
  unfolding retain_dataset clear
  Step-Allowed {w} j (call p k now _) h =
      let (a, s) =
        entered-Shows ttl p k now w j (enter k w.fresh now w.cache)
          (enter-Fair ttl k now w j (enter-cases k w.fresh now w.cache) h) h in
      (j, a, s)
  Step-Allowed {w} j (finish i s was b) h = finished-Shows i s w j h
  Step-Allowed {w} j (resume p k i at done) h =
      let c : CallerShows w j (waiting k i) = rw at at (h.callers p) in
      (j, silence, left-Shows p k i _ w j (resumed-CallerShows k i w j (w.tasks i) refl c h) h)
  Step-Allowed {w} j (cancel p k i at) h = (j, silence, left-Shows p k i idle w j tt h)
  Step-Allowed {w} j (abandon p k x at) h = (
    j,
    silence,
    record {
      alive = h.alive;
      entries = h.entries;
      flights = h.flights;
      results = h.results;
      callers = λ q. set_callers ttl w j p idle q tt (h.callers q);
    },
  )
  Step-Allowed {w} j (answers p k v now at) h =
      let c : CallerShows w j (storing k v) = rw at at (h.callers p) in
      (note_answer k v now j, fresh_load k v now c, answer-Shows p k v now w j h)
  Step-Allowed {w} j (retains version) h = (
    j,
    silence,
    record {
      alive = h.alive;
      entries =
          All-delete (λ e. is_stale_key version e.key) (EntryShows ttl j) w.cache.entries h.entries;
      flights = h.flights;
      results = h.results;
      callers = h.callers;
    },
  )
  Step-Allowed {w} j clears h = (
    j,
    emptied,
    record {
      alive = h.alive;
      entries = tt;
      flights = tt;
      results = h.results;
      callers = h.callers;
    },
  )

  -- The cache refines its promise: whatever calls, cancellations, clearings and dataset changes
  -- interleave, every answer is a value that a load of its key has returned, and every hit repeats
  -- an answer under the same key that is younger than the time to live.
  pub Run-Keeps :
      (max_entries : ℕ) {ls : List (Label V)} {w : World V}
      → Run (new_world ttl max_entries) ls w
      → (j : Journal V) × Keeps ttl nothing ls j × Shows ttl w j
  Run-Keeps max_entries start = (
    nothing,
    begin,
    record {
      alive = refl;
      entries = tt;
      flights = tt;
      results = λ i v b e. absurd (omega arith);
      callers = λ p. tt;
    },
  )
  Run-Keeps max_entries (next r step) =
      let (j, keeps, shows) = Run-Keeps max_entries r in
      let (j', allowed, shows') = Step-Allowed j step shows in
      (j', then_allowed keeps allowed, shows')
