-- ===== src/Security/Idempotency/Once.antt =====
-- A store of idempotency keys under the calls of many requests, as `reserve_idempotency` of
-- src/bff/security.py uses it.
use Prim.Native.Nat.{ℕ, ◌<◌}
use Prim.Native.String.{String}
use mathlib.Core.Path.{◌≡◌}
use mathlib.Core.Logic.{◌⊎◌}
use mathlib.Core.Bool.{false, not}
use mathlib.Core.List.{List, [], ◌∷◌}
use text.Mathlib.Text.{◌==◌ as str_eq}
use foundation_intelligence.Common.{if◌then◌else◌}
use foundation_intelligence.Security.Idempotency.{
  Guard, RecordKey, RecordStatus, reserved, completed, granted, conflict, same_key,
}

-- The calls of other requests.
pub data Call : Type 0 where
  reserves : (now : ℕ) → RecordKey → String → Call
  completes : (now : ℕ) → RecordKey → Call
  releases : RecordKey → Call

-- No call releases the key `k`, unless the record was completed before.
abbrev pub Spares : RecordKey → RecordStatus → List Call → Type 0
Spares k st [] = Unit
Spares k st (reserves now j g ∷ cs) = Spares k st cs
Spares k st (completes now j ∷ cs) = Spares k (if same_key k j then completed else st) cs
Spares k st (releases j ∷ cs) = ((same_key k j ≡ false) ⊎ (st ≡ completed)) × Spares k st cs

abbrev pub Before : ℕ → List Call → Type 0
Before u [] = Unit
Before u (reserves now j g ∷ cs) = (now < u) × Before u cs
Before u (completes now j ∷ cs) = Before u cs
Before u (releases j ∷ cs) = Before u cs

module _ (guard : Guard) where
  abbrev pub run : List Call → guard.State → guard.State
  run [] s = s
  run (reserves now j g ∷ cs) s = run cs (guard.reserve now j g s).0
  run (completes now j ∷ cs) s = run cs (guard.complete now j s)
  run (releases j ∷ cs) s = run cs (guard.release j s)

  run-conflict :
      (u later : ℕ) (k : RecordKey) (f g : String) (st : RecordStatus) (cs : List Call)
      (s : guard.State)
      → guard.Holds u k f st s
      → Spares k st cs
      → Before u cs
      → later < u
      → (guard.reserve later k g (run cs s)).1 ≡ conflict (not (str_eq f g))
  run-conflict u later k f g st [] s h spared before late =
      guard.reserve-conflict u later k f g st s h late
  run-conflict u later k f g st (reserves now j i ∷ cs) s h spared before late =
      run-conflict u later k f g st cs (guard.reserve now j i s).0
        (guard.reserve-Holds u now k j f i st s h before.0) spared before.1 late
  run-conflict u later k f g st (completes now j ∷ cs) s h spared before late =
      run-conflict u later k f g (if same_key k j then completed else st) cs
        (guard.complete now j s) (guard.complete-Holds u now k j f st s h) spared before late
  run-conflict u later k f g st (releases j ∷ cs) s h spared before late =
      run-conflict u later k f g st cs (guard.release j s)
        (guard.release-Holds u k j f st s h spared.0) spared.1 before late

  -- Once a key is reserved, every other reservation of it in its lifetime raises a conflict, which
  -- says whether the request differs, whatever other calls came between, as long as none of them
  -- released the key before it was completed.
  pub reserve-once :
      (now later : ℕ) (k : RecordKey) (f g : String) (cs : List Call) (s : guard.State)
      → (guard.reserve now k f s).1 ≡ granted
      → Spares k reserved cs
      → Before (guard.lifetime now) cs
      → later < guard.lifetime now
      → (guard.reserve later k g (run cs (guard.reserve now k f s).0)).1
        ≡ conflict (not (str_eq f g))
  reserve-once now later k f g cs s first spared before late =
      run-conflict (guard.lifetime now) later k f g reserved cs (guard.reserve now k f s).0
        (guard.reserve-granted now k f s first) spared before late
