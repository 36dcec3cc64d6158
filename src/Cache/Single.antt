-- ===== src/Cache/Single.antt =====
-- Loads in flight in the cache of src/bff/postgres/base.py: which task runs for which key.
use Prim.Native.Nat.{ℕ, suc, ◌≤◌}
use mathlib.Core.Path.{◌≡◌, refl, ap}
use mathlib.Core.Logic.{◌≢◌, inl, inr}
use mathlib.Core.Bool.{Bool, true, false, ◌&&◌}
use mathlib.Core.List.{List, [], ◌∷◌, ◌++◌}
use native.Mathlib.Omega.{arith}
use foundation_intelligence.Common.{
  ◌==◌, any, Bool-cases, In, In-All, Distinct, Distinct-same, In-delete, first, Option-cases,
  In-append, In-append_last, first-In, first-hit, and_parts,
}
use foundation_intelligence.Cache.{
  Key, key_eq, Flight, Cache, is_flight, flight_of, pop_entry, move_to_end, enter, leave, is_task,
  store, Entrance, found, joins, creates, retain_dataset,
}
use foundation_intelligence.Cache.Keys.{
  Misses, absent, expired, Enters, finds, waits, starts, enter-cases, key_eq→eq, key_eq_refl,
  key_eq_comm,
}
use foundation_intelligence.Cache.World.{
  World, Status, running, Step, call, finish, resume, cancel, abandon, answers, retains, clears,
  Label, entered, finished, left, answer, is_done, Caller, is_cleared, Run, start, next, new_world,
}
use foundation_intelligence.Cache.Valid.{IsValid, same_flight, Step-IsValid, init-IsValid}

-- The flight of a task that runs.
abbrev pub flight : {V : Type 0} → World V → ℕ → Flight
flight w i = record { key = w.loads i; task = i }

-- Every task that runs is the one in flight for its key.
abbrev pub InFlight : {V : Type 0} → World V → Type 0
InFlight w = (i : ℕ) → suc i ≤ w.fresh → w.tasks i ≡ running → In (flight w i) w.cache.inflight

-- The flights after `enter`: the same, and that of the task which is to be created.
abbrev Carries : {V : Type 0} → Key → ℕ → Cache V → Cache V × Entrance V → Type 0
Carries k fresh c (c', found v) = c'.inflight ≡ c.inflight
Carries k fresh c (c', joins i) = c'.inflight ≡ c.inflight
Carries k fresh c (c', creates) =
    c'.inflight ≡ c.inflight ++ (record { key = k; task = fresh }) ∷ []

module _ {V : Type 0} where
  missed-inflight :
      (k : Key) (fresh now : ℕ) (c c' : Cache V)
      → Misses k fresh now c c'
      → c'.inflight ≡ c.inflight
  unfolding pop_entry
  missed-inflight k fresh now c c' (absent none_there e) = rw e refl
  missed-inflight k fresh now c c' (expired x there over e) = rw e refl

  -- A key has one flight, so the flight that `finally` takes out is that of its own task.
  found_task :
      (k : Key) (i : ℕ) (c : Cache V) (f : Flight)
      → Distinct same_flight c.inflight
      → In f c.inflight
      → is_task i (flight_of k c) ≡ true
      → is_flight k f ≡ true
      → f.task ≡ i
  unfolding flight_of is_flight is_task
  found_task k i c f d m task hit = elim (Option-cases (first (is_flight k) c.inflight)) [
    | inl none_there ↦ cc (rw none_there at task)
    | inr (g, there) ↦
        let number : (g.task == i) ≡ true = rw there at task in
        let key : key_eq g.key f.key ≡ true =
          rw (key_eq→eq f.key k hit) (first-hit (is_flight k) c.inflight there) in
        let one = Distinct-same same_flight (λ a b. key_eq_comm a.key b.key) f c.inflight d m in
        let same : g ≡ f =
          In-All (λ x. same_flight x f ≡ true → x ≡ f) g c.inflight
            (first-In (is_flight k) g c.inflight there) one key in
        let tasks : g.task ≡ f.task = ap (λ (x : Flight). x.task) same in ground arith
  ]

  -- The `finally` block of a task that is done spares the flights of the others.
  leave-spares :
      (k : Key) (i : ℕ) (done : Bool) (c : Cache V) (f : Flight)
      → Distinct same_flight c.inflight
      → In f c.inflight
      → (done ≡ true → f.task ≢ i)
      → In f (leave k i done c).inflight
  unfolding leave
  leave-spares k i done c f d m other = elim (Bool-cases (done && is_task i (flight_of k c))) [
    | inr stays ↦ rw stays m
    | inl goes ↦
        let parts = and_parts done _ goes in
        rw goes (elim (Bool-cases (is_flight k f)) [
          | inl hit ↦ absurd (other parts.0 (found_task k i c f d m parts.1 hit))
          | inr miss ↦ In-delete (is_flight k) f c.inflight m miss
        ])
  ]

  -- A call that creates a task puts it in flight.
  entered-InFlight :
      (p : ℕ) (k : Key) (w : World V) (r : Cache V × Entrance V)
      → InFlight w
      → Carries k w.fresh w.cache r
      → InFlight (entered p k r w)
  unfolding entered
  entered-InFlight p k w (c, found v) h e i b running_now = rw e (h i b running_now)
  entered-InFlight p k w (c, joins f) h e i b running_now = rw e (h i b running_now)
  entered-InFlight p k w (c, creates) h e i b running_now = elim (Bool-cases (i == w.fresh)) [
    | inl new ↦
        let same : i ≡ w.fresh = ground arith in
        rw (new, e, same) (In-append_last (record { key = k; task = w.fresh }) w.cache.inflight)
    | inr old ↦
        let before : suc i ≤ w.fresh = ground arith in
        let was : w.tasks i ≡ running = rw old at running_now in
        rw (old, e) (In-append (flight w i) w.cache.inflight _ (h i before was))
  ]

  enter-Carries :
      (k : Key) (fresh now : ℕ) (c : Cache V)
      → Enters k fresh now c
      → Carries k fresh c (enter k fresh now c)
  unfolding move_to_end
  enter-Carries k fresh now c (finds e there alive eq) = rw eq refl
  enter-Carries k fresh now c (waits c' f missed there eq) =
      rw eq (missed-inflight k fresh now c c' missed)
  enter-Carries k fresh now c (starts c' missed none_there eq) =
      rw eq (rw (missed-inflight k fresh now c c' missed) refl)

  -- What the `finally` block of a caller keeps in flight.
  left-InFlight :
      (p : ℕ) (k : Key) (i : ℕ) (onward : Caller V) (w : World V)
      → IsValid w.cache
      → InFlight w
      → InFlight (left p k i onward w)
  unfolding left
  left-InFlight p k i onward w v h j b running_now =
      leave-spares k i (is_done (w.tasks i)) w.cache (flight w j) v.single (h j b running_now)
        (λ done same.
          let idle_now : w.tasks i ≡ running = rw same at running_now in cc (rw idle_now at done))

  finished-InFlight :
      (i : ℕ) (s : Status V) (w : World V)
      → w.tasks i ≡ running
      → InFlight w
      → InFlight (finished i s w)
  unfolding finished
  finished-InFlight i s w was h j b running_now = elim (Bool-cases (j == i)) [
    | inl same ↦ let e : j ≡ i = ground arith in h j b (rw e was)
    | inr other ↦ h j b (rw other at running_now)
  ]

  Step-InFlight :
      {w : World V} {l : Label V} {w' : World V}
      → Step w l w'
      → is_cleared l ≡ false
      → IsValid w.cache
      → InFlight w
      → InFlight w'
  unfolding finished answer store retain_dataset move_to_end
  Step-InFlight {w} (call p k now _) c v h =
      entered-InFlight p k w (enter k w.fresh now w.cache) h
        (enter-Carries k w.fresh now w.cache (enter-cases k w.fresh now w.cache))
  Step-InFlight {w} (finish i s was _) c v h = finished-InFlight i s w was h
  Step-InFlight {w} (resume p k i _ _) c v h = left-InFlight p k i _ w v h
  Step-InFlight {w} (cancel p k i _) c v h = left-InFlight p k i _ w v h
  Step-InFlight (abandon p k x _) c v h = h
  Step-InFlight (answers p k x now _) c v h = h
  Step-InFlight (retains version) c v h = h
  Step-InFlight clears c v h = cc

  Run-InFlight :
      {w : World V} {ls : List (Label V)} {w' : World V}
      → Run w ls w'
      → any is_cleared ls ≡ false
      → IsValid w.cache × InFlight w
      → IsValid w'.cache × InFlight w'
  Run-InFlight start c h = h
  Run-InFlight (next {ls} {l} r step) c h =
      let quiet_before : any is_cleared ls ≡ false = ground arith in
      let quiet_now : is_cleared l ≡ false = ground arith in
      let before = Run-InFlight r quiet_before h in
      (Step-IsValid step before.0, Step-InFlight step quiet_now before.0 before.1)

  -- While the cache is not cleared, two tasks that load the same key never run at once, whatever
  -- calls, cancellations and dataset changes interleave.
  pub Run-single_flight :
      (ttl max_entries : ℕ) {ls : List (Label V)} {w : World V}
      → Run (new_world ttl max_entries) ls w
      → any is_cleared ls ≡ false
      → (i j : ℕ) → suc i ≤ w.fresh
      → suc j ≤ w.fresh
      → w.tasks i ≡ running
      → w.tasks j ≡ running
      → w.loads i ≡ w.loads j
      → i ≡ j
  Run-single_flight ttl max_entries {w} r c i j b b' on on' same =
      let (v, h) = Run-InFlight r c (init-IsValid ttl max_entries, λ i b e. absurd (omega arith)) in
      let one =
        Distinct-same same_flight (λ a b. key_eq_comm a.key b.key) (flight w j) w.cache.inflight
          v.single (h j b' on') in
      ap (λ (x : Flight). x.task)
        (In-All (λ x. same_flight x (flight w j) ≡ true → x ≡ flight w j) (flight w i)
          w.cache.inflight (h i b on) one (rw same (key_eq_refl (w.loads j))))
