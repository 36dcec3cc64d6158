-- ===== src/Security/Idempotency.antt =====
-- `PostgresIdempotencyStore` of src/bff/postgres/idempotency_repository.py and `IdempotencyStore` of
-- src/bff/security.py. The key of a record is the triple of actor, action and idempotency key.
pub mod Postgres
pub mod Local
pub mod Once
use Prim.Native.Nat.{ℕ, ◌<◌}
use Prim.Native.String.{String}
use mathlib.Core.Path.{◌≡◌}
use mathlib.Core.Logic.{◌⊎◌}
use mathlib.Core.Bool.{Bool, false, not, ◌&&◌}
use foundation_intelligence.Common.{if◌then◌else◌}
use text.Mathlib.Text.{◌==◌ as str_eq}

-- `RecordKey`
pub record RecordKey : Type 0 where
  pub actor_id : String
  pub action : String
  pub key : String

abbrev pub same_key : RecordKey → RecordKey → Bool
same_key j k = str_eq j.actor_id k.actor_id && str_eq j.action k.action && str_eq j.key k.key

pub data RecordStatus : Type 0 where
  reserved completed : RecordStatus

-- What `reserve` does: it returns the key, or it raises `IdempotencyConflict`.
pub data Reservation : Type 0 where
  granted : Reservation
  conflict : (different_request : Bool) → Reservation

-- What both stores promise to `reserve_idempotency`. `Holds u k f st s` says that the state `s` has
-- a record of the key `k` with the fingerprint `f` and the status `st`, which counts until the time
-- `u`.
pub record Guard : Type 1 where
  pub State : Type 0
  pub lifetime : ℕ → ℕ
  pub reserve : ℕ → RecordKey → String → State → State × Reservation
  pub complete : ℕ → RecordKey → State → State
  pub release : RecordKey → State → State
  pub Holds : ℕ → RecordKey → String → RecordStatus → State → Type 0
  pub reserve-granted :
      (now : ℕ) (k : RecordKey) (f : String) (s : State)
      → (reserve now k f s).1 ≡ granted
      → Holds (lifetime now) k f reserved (reserve now k f s).0
  pub reserve-conflict :
      (u now : ℕ) (k : RecordKey) (f g : String) (st : RecordStatus) (s : State)
      → Holds u k f st s
      → now < u
      → (reserve now k g s).1 ≡ conflict (not (str_eq f g))
  pub reserve-Holds :
      (u now : ℕ) (k j : RecordKey) (f g : String) (st : RecordStatus) (s : State)
      → Holds u k f st s
      → now < u
      → Holds u k f st (reserve now j g s).0
  pub complete-Holds :
      (u now : ℕ) (k j : RecordKey) (f : String) (st : RecordStatus) (s : State)
      → Holds u k f st s
      → Holds u k f (if same_key k j then completed else st) (complete now j s)
  pub release-Holds :
      (u : ℕ) (k j : RecordKey) (f : String) (st : RecordStatus) (s : State)
      → Holds u k f st s
      → (same_key k j ≡ false) ⊎ (st ≡ completed)
      → Holds u k f st (release j s)
