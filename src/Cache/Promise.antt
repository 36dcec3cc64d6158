-- ===== src/Cache/Promise.antt =====
-- What the cache of src/bff/postgres/base.py promises, with no entries, tasks or eviction: a
-- journal of what the loaders have returned and of the answers that were given.
use Prim.Native.Nat.{ℕ, ◌+◌, ◌<◌}
use mathlib.Core.List.{List, [], ◌∷◌}
use foundation_intelligence.Common.{In}
use foundation_intelligence.Cache.{Key}
use foundation_intelligence.Cache.World.{Label, quiet, cleared, hit, loaded, answered}

pub record Load (V : Type 0) : Type 0 where
  pub key : Key
  pub value : V

pub record Answer (V : Type 0) : Type 0 where
  pub key : Key
  pub value : V
  pub at : ℕ

pub record Journal (V : Type 0) : Type 0 where
  pub loads : List (Load V)
  pub answers : List (Answer V)

abbrev pub nothing : {V : Type 0} → Journal V
nothing = record { loads = []; answers = [] }

abbrev pub note_load : {V : Type 0} → Key → V → Journal V → Journal V
note_load k v j = record j { loads = (record { key = k; value = v }) ∷ j.loads }

abbrev pub note_answer : {V : Type 0} → Key → V → ℕ → Journal V → Journal V
note_answer k v now j = record j { answers = (record { key = k; value = v; at = now }) ∷ j.answers }

module _ {V : Type 0} (ttl : ℕ) where
  -- What may be seen. A caller is answered with what a load of its key has returned; a hit repeats
  -- an answer under the same key that is younger than `ttl`.
  pub data Allowed (j : Journal V) : Label V → Journal V → Type 0 where
    silence : Allowed j quiet j
    emptied : Allowed j cleared j
    load : (k : Key) (v : V) → Allowed j (loaded k v) (note_load k v j)
    fresh_load :
        (k : Key) (v : V) (now : ℕ)
        → In (record { key = k; value = v }) j.loads
        → Allowed j (answered k v now) (note_answer k v now j)
    repeat :
        (k : Key) (v : V) (at now : ℕ)
        → In (record { key = k; value = v; at = at }) j.answers
        → now < at + ttl
        → Allowed j (hit k v now) j

  -- A whole history of what was seen, the last first.
  pub data Keeps (j : Journal V) : List (Label V) → Journal V → Type 0 where
    begin : Keeps j [] j
    then_allowed :
        {ls : List (Label V)} {l : Label V} {u v : Journal V}
        → Keeps j ls u
        → Allowed u l v
        → Keeps j (l ∷ ls) v
