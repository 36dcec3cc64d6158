-- ===== src/Cache.antt =====
-- src/bff/postgres/base.py: `VersionedTTLCache`, one function for each stretch of its code that
-- holds the lock. Keys are tuples of texts, the first of which is the dataset version; values are
-- copied on the way in and out, so that they are never shared.
mod World
mod Keys
mod Valid
mod Single
mod Promise
mod Shows
mod Refines
mod Tests
use Prim.Native.Nat.{ℕ, suc, ◌+◌}
use Prim.Native.String.{String}
use mathlib.Core.Bool.{Bool, true, false, not, ◌&&◌}
use mathlib.Core.Option.{Option, none, some}
use mathlib.Core.List.{List, [], ◌∷◌, ◌++◌}
use text.Mathlib.Text.{◌==◌ as str_eq}
use foundation_intelligence.Common.{ltb, ◌==◌, if◌then◌else◌, length, first, delete}

abbrev pub Key : Type 0
Key = List String

unfoldable pub key_eq : Key → Key → Bool
key_eq [] [] = true
key_eq [] (t ∷ l) = false
key_eq (s ∷ k) [] = false
key_eq (s ∷ k) (t ∷ l) = str_eq s t && key_eq k l

-- `_entries[key] = (expires, value)`
pub record Entry (V : Type 0) : Type 0 where
  pub key : Key
  pub expires : ℕ
  pub value : V

-- `_inflight[key] = task`; tasks are numbered in the order of their creation.
pub record Flight : Type 0 where
  pub key : Key
  pub task : ℕ

-- `_entries` stands with the least recently used entry first.
pub record Cache (V : Type 0) : Type 0 where
  pub ttl : ℕ
  pub max_entries : ℕ
  pub entries : List (Entry V)
  pub inflight : List Flight
  pub hits : ℕ
  pub misses : ℕ

-- How `get_or_create` goes on from its first stretch: it returns a value, waits for a load that is
-- in flight, or creates a task.
pub data Entrance (V : Type 0) : Type 0 where
  found : V → Entrance V
  joins : ℕ → Entrance V
  creates : Entrance V

pub is_flight : Key → Flight → Bool
is_flight k f = key_eq f.key k

-- `_inflight.get(key) is task`
pub is_task : ℕ → Option Flight → Bool
is_task i none = false
is_task i (some f) = f.task == i

-- `not key or key[0] != dataset_version`
pub is_stale_key : String → Key → Bool
is_stale_key version [] = true
is_stale_key version (s ∷ k) = not (str_eq s version)

module _ {V : Type 0} where
  pub is_entry : Key → Entry V → Bool
  is_entry k e = key_eq e.key k

  -- `_entries.get(key)` and `_inflight.get(key)`
  pub entry_of : Key → Cache V → Option (Entry V)
  unfolding is_entry
  entry_of k c = first (is_entry k) c.entries

  pub flight_of : Key → Cache V → Option Flight
  unfolding is_flight
  flight_of k c = first (is_flight k) c.inflight

  -- `_entries.pop(key, None)`
  pub pop_entry : Key → Cache V → Cache V
  unfolding is_entry
  pop_entry k c = record c { entries = delete (is_entry k) c.entries }

  -- `_entries.move_to_end(key)`
  pub move_to_end : Entry V → Cache V → Cache V
  unfolding is_entry
  move_to_end e c = record c { entries = delete (is_entry e.key) c.entries ++ e ∷ [] }

  -- The part of the stretch that looks for a load in flight. The new task has the number `fresh`.
  pub fly : Key → ℕ → Cache V → Cache V × Entrance V
  unfolding flight_of
  fly k fresh c = elim (flight_of k c) [
    | none ↦ (
      record c {
        misses = c.misses + 1;
        inflight = c.inflight ++ (record { key = k; task = fresh }) ∷ [];
      },
      creates,
    )
    | some f ↦ (record c { hits = c.hits + 1 }, joins f.task)
  ]

  pub enter : Key → ℕ → ℕ → Cache V → Cache V × Entrance V
  unfolding entry_of pop_entry move_to_end fly
  enter k fresh now c = elim (entry_of k c) [
    | none ↦ fly k fresh c
    | some e ↦
        if ltb now e.expires
        then (record (move_to_end e c) { hits = c.hits + 1 }, found e.value)
        else fly k fresh (pop_entry k c)
  ]

  -- The `finally` block: a done task that is still the one of its key leaves `_inflight`.
  pub leave : Key → ℕ → Bool → Cache V → Cache V
  unfolding is_task flight_of is_flight
  leave k i is_done c =
      if is_done && is_task i (flight_of k c)
      then record c { inflight = delete (is_flight k) c.inflight }
      else c

  -- `while len(entries) > max_entries: entries.popitem(last=False)`
  pub evict : ℕ → List (Entry V) → List (Entry V)
  evict n [] = []
  evict n (e ∷ es) = if ltb n (suc (length es)) then evict n es else e ∷ es

  -- The last stretch, after a load that returned.
  pub store : Key → V → ℕ → Cache V → Cache V
  unfolding move_to_end evict
  store k v now c =
      let stored = move_to_end (record { key = k; expires = now + c.ttl; value = v }) c in
      record stored { entries = evict c.max_entries stored.entries }

  pub retain_dataset : String → Cache V → Cache V
  unfolding is_stale_key
  retain_dataset version c = record c {
    entries = delete (λ e. is_stale_key version e.key) c.entries;
  }

  pub clear : Cache V → Cache V
  clear c = record c { entries = []; inflight = []; hits = 0; misses = 0 }

-- `__init__`
abbrev pub init : {V : Type 0} → ℕ → ℕ → Cache V
init ttl max_entries = record {
  ttl = ttl;
  max_entries = max_entries;
  entries = [];
  inflight = [];
  hits = 0;
  misses = 0;
}
