-- ===== src/Security/Idempotency/Postgres.antt =====
-- `PostgresIdempotencyStore`. `reserve` that raises is rolled back.
use Prim.Native.Nat.{ℕ, ◌+◌, ◌*◌, ◌<◌}
use Prim.Native.String.{String}
use mathlib.Core.Path.{◌≡◌, refl}
use mathlib.Core.Logic.{◌⊎◌, inl, inr}
use mathlib.Core.Bool.{Bool, true, false, not, ◌&&◌}
use mathlib.Core.Option.{Option, none, some}
use mathlib.Core.List.{List, [], ◌∷◌, ◌++◌}
use text.Mathlib.Text.{◌==◌ as str_eq}
use text.Mathlib.TextEquality.{eq_iff}
use native.Mathlib.Omega.{arith}
use foundation_intelligence.Common.{
  leb, if◌then◌else◌, Bool-cases, Option-cases, first, first-hit, first-append, first-append-none,
  first-delete, first-update, delete, update,
}
use foundation_intelligence.Security.Idempotency.{
  Guard, RecordKey, RecordStatus, Reservation, reserved, completed, granted, conflict, same_key,
}

-- `idempotency_records`
pub record IdempotencyRow : Type 0 where
  pub key : RecordKey
  pub request_hash : String
  pub status : RecordStatus
  pub expires_at : ℕ
  pub completed_at : Option ℕ

abbrev pub is_reserved : RecordStatus → Bool
is_reserved reserved = true
is_reserved completed = false

-- `WHERE actor_id=… AND action=… AND idempotency_key=…`
abbrev pub has_key : RecordKey → IdempotencyRow → Bool
has_key k r = same_key k r.key

-- The DELETE at the start of `reserve`.
abbrev pub is_stale : ℕ → RecordKey → IdempotencyRow → Bool
is_stale now k r = has_key k r && leb r.expires_at now

abbrev pub completed_row : ℕ → IdempotencyRow → IdempotencyRow
completed_row now r = record r { status = completed; completed_at = some now }

abbrev pub second : ℕ
second = 1000000

module _ (ttl_seconds : ℕ) where
  abbrev pub reserved_row : ℕ → RecordKey → String → IdempotencyRow
  reserved_row now k fingerprint = record {
    key = k;
    request_hash = fingerprint;
    status = reserved;
    expires_at = now + ttl_seconds * second;
    completed_at = none;
  }

  unfoldable pub reserve_row :
      ℕ → RecordKey → String → List IdempotencyRow → List IdempotencyRow × Reservation
  reserve_row now k fingerprint rows =
      let kept = delete (is_stale now k) rows in
      elim (first (has_key k) kept) [
        | none ↦ (kept ++ reserved_row now k fingerprint ∷ [], granted)
        | some existing ↦ (rows, conflict (not (str_eq existing.request_hash fingerprint)))
      ]

unfoldable pub complete_row : ℕ → RecordKey → List IdempotencyRow → List IdempotencyRow
complete_row now k rows = update (λ r. has_key k r && is_reserved r.status) (completed_row now) rows

unfoldable pub release_row : RecordKey → List IdempotencyRow → List IdempotencyRow
release_row k rows = delete (λ r. has_key k r && is_reserved r.status) rows

-- The first row of a key.
pub record HasRow (u : ℕ) (k : RecordKey) (f : String) (st : RecordStatus)
    (rows : List IdempotencyRow) : Type 0 where
  pub row : IdempotencyRow
  pub found : first (has_key k) rows ≡ some row
  pub hash : row.request_hash ≡ f
  pub status : row.status ≡ st
  pub expiry : row.expires_at ≡ u

same_key_refl : (k : RecordKey) → same_key k k ≡ true
same_key_refl k =
    ground (arith, eq_iff k.actor_id k.actor_id, eq_iff k.action k.action, eq_iff k.key k.key)

module _ (ttl_seconds : ℕ) where
  pub reserve_row-granted :
      (now : ℕ) (k : RecordKey) (f : String) (rows : List IdempotencyRow)
      → (reserve_row ttl_seconds now k f rows).1 ≡ granted
      → HasRow (now + ttl_seconds * second) k f reserved (reserve_row ttl_seconds now k f rows).0
  unfolding reserve_row
  reserve_row-granted now k f rows e =
      let kept = delete (is_stale now k) rows in
      elim (Option-cases (first (has_key k) kept)) [
        | inl free ↦
            rw (free, reserve_row)
              (record {
                row = reserved_row ttl_seconds now k f;
                found =
                    first-append-none (has_key k) kept (reserved_row ttl_seconds now k f) free
                      (same_key_refl k);
                hash = refl;
                status = refl;
                expiry = refl;
              })
        | inr (r, taken) ↦ absurd (no (rw (taken, reserve_row) at e))
      ]
    where
      no : {b : Bool} → conflict b ≡ granted → ⊥
      no h = cc

  pub reserve_row-conflict :
      (u now : ℕ) (k : RecordKey) (f g : String) (st : RecordStatus) (rows : List IdempotencyRow)
      → HasRow u k f st rows
      → now < u
      → (reserve_row ttl_seconds now k g rows).1 ≡ conflict (not (str_eq f g))
  unfolding reserve_row
  reserve_row-conflict u now k f g st rows h late =
      let fresh : is_stale now k h.row ≡ false = ground arith in
      rw (first-delete (has_key k) (is_stale now k) rows h.row h.found fresh, reserve_row)
        (rw h.hash)

  pub reserve_row-HasRow :
      (u now : ℕ) (k j : RecordKey) (f g : String) (st : RecordStatus) (rows : List IdempotencyRow)
      → HasRow u k f st rows
      → now < u
      → HasRow u k f st (reserve_row ttl_seconds now j g rows).0
  unfolding reserve_row
  reserve_row-HasRow u now k j f g st rows h late =
      let kept = delete (is_stale now j) rows in
      let fresh : is_stale now j h.row ≡ false = ground arith in
      let still = first-delete (has_key k) (is_stale now j) rows h.row h.found fresh in
      elim (Option-cases (first (has_key j) kept)) [
        | inl free ↦
            rw (free, reserve_row)
              (record {
                row = h.row;
                found = first-append (has_key k) kept _ h.row still;
                hash = h.hash;
                status = h.status;
                expiry = h.expiry;
              })
        | inr (r, taken) ↦ rw (taken, reserve_row) h
      ]

-- Whether another key has the row of a key is whether the keys are the same.
has_key-same_key :
    (k j : RecordKey) (r : IdempotencyRow) → has_key k r ≡ true → has_key j r ≡ same_key k j
has_key-same_key k j r h = ground (
  arith,
  eq_iff k.actor_id r.key.actor_id,
  eq_iff k.action r.key.action,
  eq_iff k.key r.key.key,
  eq_iff j.actor_id r.key.actor_id,
  eq_iff j.action r.key.action,
  eq_iff j.key r.key.key,
  eq_iff k.actor_id j.actor_id,
  eq_iff k.action j.action,
  eq_iff k.key j.key,
)

pub complete_row-HasRow :
    (u now : ℕ) (k j : RecordKey) (f : String) (st : RecordStatus) (rows : List IdempotencyRow)
    → HasRow u k f st rows
    → HasRow u k f (if same_key k j then completed else st) (complete_row now j rows)
unfolding complete_row
complete_row-HasRow u now k j f st rows h =
    let hit = first-hit (has_key k) rows h.found in
    let same = has_key-same_key k j h.row hit in
    let test = has_key j h.row && is_reserved h.row.status in
    let moved =
      first-update (has_key k) (λ r. has_key j r && is_reserved r.status) (completed_row now) rows
        h.row (λ r. refl) h.found in
    elim (Bool-cases test) [
      | inl on ↦ record {
        row = completed_row now h.row;
        found = rw on at moved;
        hash = h.hash;
        status = ground arith;
        expiry = h.expiry;
      }
      | inr off ↦ record {
        row = h.row;
        found = rw off at moved;
        hash = h.hash;
        status = ground arith;
        expiry = h.expiry;
      }
    ]

pub release_row-HasRow :
    (u : ℕ) (k j : RecordKey) (f : String) (st : RecordStatus) (rows : List IdempotencyRow)
    → HasRow u k f st rows
    → (same_key k j ≡ false) ⊎ (st ≡ completed)
    → HasRow u k f st (release_row j rows)
unfolding release_row
release_row-HasRow u k j f st rows h spared =
    let hit = first-hit (has_key k) rows h.found in
    let same = has_key-same_key k j h.row hit in
    let kept : (has_key j h.row && is_reserved h.row.status) ≡ false = ground arith in
    record {
      row = h.row;
      found =
          first-delete (has_key k) (λ r. has_key j r && is_reserved r.status) rows h.row h.found
            kept;
      hash = h.hash;
      status = h.status;
      expiry = h.expiry;
    }

-- `PostgresIdempotencyStore` keeps the promises.
abbrev pub postgres_guard : ℕ → Guard
postgres_guard ttl_seconds = record {
  State = List IdempotencyRow;
  lifetime = λ now. now + ttl_seconds * second;
  reserve = reserve_row ttl_seconds;
  complete = complete_row;
  release = release_row;
  Holds = HasRow;
  reserve-granted = reserve_row-granted ttl_seconds;
  reserve-conflict = reserve_row-conflict ttl_seconds;
  reserve-Holds = reserve_row-HasRow ttl_seconds;
  complete-Holds = complete_row-HasRow;
  release-Holds = release_row-HasRow;
}
