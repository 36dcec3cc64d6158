-- ===== src/Cache/Tests.antt =====
-- The theorems on the cache at a short run: a load, its answer, and a hit on it.
use Prim.Native.Nat.{ℕ, ◌≤◌}
use mathlib.Core.Path.{◌≡◌, refl}
use mathlib.Core.List.{[], ◌∷◌}
use native.Mathlib.Omega.{arith}
use foundation_intelligence.Common.{length}
use foundation_intelligence.Cache.{
  Key, key_eq, enter, fly, evict, store, leave, is_entry, is_flight, entry_of, flight_of, pop_entry,
  move_to_end, is_task,
}
use foundation_intelligence.Cache.World.{
  World, Run, start, next, new_world, entered, finished, left, answer, returned, call, finish,
  resume, cancel, answers, quiet, hit, loaded, answered, resumed, idle,
}
use foundation_intelligence.Cache.Valid.{IsValid, Run-IsValid}
use foundation_intelligence.Cache.Single.{Run-single_flight}
use foundation_intelligence.Cache.Promise.{Journal, Keeps, nothing}
use foundation_intelligence.Cache.Shows.{Shows}
use foundation_intelligence.Cache.Refines.{Run-Keeps}

abbrev totals : Key
totals = "2024-06" ∷ "totals" ∷ []

abbrev calls_at : ℕ → ℕ → World ℕ → World ℕ
calls_at p now w = entered p totals (enter totals w.fresh now w.cache) w

abbrev empty_world : World ℕ
empty_world = new_world 30 2

abbrev started : World ℕ
started = calls_at 0 0 empty_world

abbrev done : World ℕ
done = finished 0 (returned 7) started

abbrev back : World ℕ
back = left 0 totals 0 (resumed totals (done.tasks 0)) done

abbrev stored : World ℕ
stored = answer 0 totals 7 5 back

load_and_hit :
    Run empty_world
      (hit totals 7 20 ∷ answered totals 7 5 ∷ quiet ∷ loaded totals 7 ∷ quiet ∷ [])
      (calls_at 1 20 stored)
unfolding enter fly evict store leave key_eq is_entry entry_of flight_of pop_entry move_to_end
    is_task is_flight entered finished left answer
load_and_hit =
    next
      (next
        (next (next (next start (call 0 totals 0 refl)) (finish 0 (returned 7) refl (omega arith)))
          (resume 0 totals 0 refl refl))
        (answers 0 totals 7 5 refl))
      (call 1 totals 20 refl)

Run-IsValid_example :
    IsValid (calls_at 1 20 stored).cache × (length (calls_at 1 20 stored).cache.entries ≤ 2)
Run-IsValid_example = Run-IsValid 30 2 load_and_hit

Run-Keeps_example :
    (j : Journal ℕ) × Keeps 30 nothing
      (hit totals 7 20 ∷ answered totals 7 5 ∷ quiet ∷ loaded totals 7 ∷ quiet ∷ [])
      j
    × Shows 30 (calls_at 1 20 stored) j
Run-Keeps_example = Run-Keeps 30 2 load_and_hit

-- Two callers of one key share the task.
shared_load : Run empty_world (quiet ∷ quiet ∷ []) (calls_at 1 1 started)
unfolding enter fly key_eq is_entry entry_of flight_of pop_entry is_flight entered
shared_load = next (next start (call 0 totals 0 refl)) (call 1 totals 1 refl)

Run-single_flight_example : ◌≡◌ {A = ℕ} 0 0
unfolding enter fly key_eq is_entry entry_of flight_of pop_entry is_flight entered
Run-single_flight_example =
    Run-single_flight 30 2 shared_load refl 0 0 (omega arith) (omega arith) refl refl refl

-- The only caller is cancelled while the load runs. Its `finally` block leaves the task in flight,
-- since it is not done; nothing takes it out when it ends, and a call long after the time to live
-- joins it and caches its old value afresh.
abbrev orphaned : World ℕ
orphaned = finished 0 (returned 7) (left 0 totals 0 idle started)

abbrev rejoined : World ℕ
rejoined = calls_at 1 1000 orphaned

old_load :
    Run empty_world
      (answered totals 7 1000 ∷ quiet ∷ quiet ∷ loaded totals 7 ∷ quiet ∷ quiet ∷ [])
      (answer 1 totals 7 1000 (left 1 totals 0 (resumed totals (rejoined.tasks 0)) rejoined))
unfolding enter fly evict store leave key_eq is_entry entry_of flight_of pop_entry move_to_end
    is_task is_flight entered finished left answer
old_load =
    next
      (next
        (next
          (next (next (next start (call 0 totals 0 refl)) (cancel 0 totals 0 refl))
            (finish 0 (returned 7) refl (omega arith)))
          (call 1 totals 1000 refl))
        (resume 1 totals 0 refl refl))
      (answers 1 totals 7 1000 refl)
