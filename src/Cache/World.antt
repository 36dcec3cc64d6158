-- ===== src/Cache/World.antt =====
-- The cache of src/bff/postgres/base.py with its tasks and its callers. The event loop may run
-- anything else at each `await` of `get_or_create`, and a caller may be cancelled there; `shield`
-- keeps the task alive.
use Prim.Native.Nat.{ℕ, suc, ◌≤◌}
use Prim.Native.String.{String}
use mathlib.Core.Path.{◌≡◌}
use mathlib.Core.Bool.{Bool, true, false}
use mathlib.Core.List.{List, [], ◌∷◌}
use foundation_intelligence.Common.{◌==◌, if◌then◌else◌}
use foundation_intelligence.Cache.{
  Key, Cache, Entrance, found, joins, creates, enter, leave, store, retain_dataset, clear, init,
}

-- A task of `loader()`: it runs, has returned, or has raised or been cancelled.
pub data Status (V : Type 0) : Type 0 where
  running failed : Status V
  returned : V → Status V

pub data Caller (V : Type 0) : Type 0 where
  idle : Caller V
  waiting : Key → ℕ → Caller V
  storing : Key → V → Caller V

pub record World (V : Type 0) : Type 0 where
  pub cache : Cache V
  pub tasks : ℕ → Status V
  pub loads : ℕ → Key
  pub fresh : ℕ
  pub callers : ℕ → Caller V

-- What can be seen of a step.
pub data Label (V : Type 0) : Type 0 where
  quiet cleared : Label V
  hit : Key → V → ℕ → Label V
  loaded : Key → V → Label V
  answered : Key → V → ℕ → Label V

abbrev pub set_at : {A : Type 0} → (ℕ → A) → ℕ → A → ℕ → A
set_at f i a j = if j == i then a else f j

abbrev pub is_cleared : {V : Type 0} → Label V → Bool
is_cleared quiet = false
is_cleared cleared = true
is_cleared (hit k v now) = false
is_cleared (loaded k v) = false
is_cleared (answered k v now) = false

abbrev pub is_done : {V : Type 0} → Status V → Bool
is_done running = false
is_done failed = true
is_done (returned v) = true

module _ {V : Type 0} where
  -- The caller `p` enters `get_or_create`.
  unfoldable pub entered : ℕ → Key → Cache V × Entrance V → World V → World V
  entered p k (c, found v) w = record w { cache = c }
  entered p k (c, joins i) w = record w { cache = c; callers = set_at w.callers p (waiting k i) }
  entered p k (c, creates) w = record w {
    cache = c;
    tasks = set_at w.tasks w.fresh running;
    loads = set_at w.loads w.fresh k;
    fresh = suc w.fresh;
    callers = set_at w.callers p (waiting k w.fresh);
  }

  abbrev pub seen : Key → ℕ → Entrance V → Label V
  seen k now (found v) = hit k v now
  seen k now (joins i) = quiet
  seen k now creates = quiet

  unfoldable pub finished : ℕ → Status V → World V → World V
  finished i s w = record w { tasks = set_at w.tasks i s }

  abbrev pub outcome : Key → Status V → Label V
  outcome k running = quiet
  outcome k failed = quiet
  outcome k (returned v) = loaded k v

  -- The caller `p` leaves the `finally` block and goes on as `next`.
  unfoldable pub left : ℕ → Key → ℕ → Caller V → World V → World V
  unfolding leave
  left p k i next w = record w {
    cache = leave k i (is_done (w.tasks i)) w.cache;
    callers = set_at w.callers p next;
  }

  -- After the shielded task has ended: its value is stored, or its exception goes up.
  abbrev pub resumed : Key → Status V → Caller V
  resumed k running = idle
  resumed k failed = idle
  resumed k (returned v) = storing k v

  -- The last stretch of `get_or_create`, and its `return`.
  unfoldable pub answer : ℕ → Key → V → ℕ → World V → World V
  unfolding store
  answer p k v now w = record w { cache = store k v now w.cache; callers = set_at w.callers p idle }

  pub data Step (w : World V) : Label V → World V → Type 0 where
    call :
        (p : ℕ) (k : Key) (now : ℕ)
        → w.callers p ≡ idle
        → Step w
            (seen k now (enter k w.fresh now w.cache).1)
            (entered p k (enter k w.fresh now w.cache) w)
    finish :
        (i : ℕ) (s : Status V)
        → w.tasks i ≡ running
        → suc i ≤ w.fresh
        → Step w (outcome (w.loads i) s) (finished i s w)
    resume :
        (p : ℕ) (k : Key) (i : ℕ)
        → w.callers p ≡ waiting k i
        → is_done (w.tasks i) ≡ true
        → Step w quiet (left p k i (resumed k (w.tasks i)) w)
    cancel :
        (p : ℕ) (k : Key) (i : ℕ) → w.callers p ≡ waiting k i → Step w quiet (left p k i idle w)
    abandon :
        (p : ℕ) (k : Key) (v : V)
        → w.callers p ≡ storing k v
        → Step w quiet (record w { callers = set_at w.callers p idle })
    answers :
        (p : ℕ) (k : Key) (v : V) (now : ℕ)
        → w.callers p ≡ storing k v
        → Step w (answered k v now) (answer p k v now w)
    retains :
        (version : String) → Step w quiet (record w { cache = retain_dataset version w.cache })
    clears : Step w cleared (record w { cache = clear w.cache })

  -- A run, with what was seen of it, the last step first.
  pub data Run (w : World V) : List (Label V) → World V → Type 0 where
    start : Run w [] w
    next :
        {ls : List (Label V)} {l : Label V} {u v : World V}
        → Run w ls u
        → Step u l v
        → Run w (l ∷ ls) v

-- No task and no caller yet.
abbrev pub new_world : {V : Type 0} → ℕ → ℕ → World V
new_world ttl max_entries = record {
  cache = init ttl max_entries;
  tasks = λ i. failed;
  loads = λ i. [];
  fresh = 0;
  callers = λ p. idle;
}
