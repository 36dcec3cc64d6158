-- ===== src/Security/Idempotency/Local.antt =====
-- `IdempotencyStore`, the in-process store. Its dictionary is the list of its entries in the order
-- of insertion. Times are microseconds of the monotonic clock.
use Prim.Native.Nat.{ℕ, ◌+◌, ◌*◌, ◌<◌, suc}
use Prim.Native.String.{String}
use mathlib.Core.Path.{◌≡◌, refl}
use mathlib.Core.Logic.{◌⊎◌, inl, inr}
use mathlib.Core.Bool.{Bool, true, false, not, ◌&&◌}
use mathlib.Core.Option.{none, some}
use mathlib.Core.List.{List, [], ◌∷◌, ◌++◌}
use text.Mathlib.Text.{◌==◌ as str_eq}
use text.Mathlib.TextEquality.{eq_iff}
use native.Mathlib.Omega.{arith}
use foundation_intelligence.Common.{
  ltb, if◌then◌else◌, Bool-cases, Option-cases, first, first-hit, first-append, first-append-none,
  first-delete, first-update, delete, update,
}
use foundation_intelligence.Security.Idempotency.{
  Guard, RecordKey, RecordStatus, Reservation, reserved, completed, granted, conflict, same_key,
}

-- `_IdempotencyRecord`, with its key
pub record Entry : Type 0 where
  pub key : RecordKey
  pub fingerprint : String
  pub state : RecordStatus
  pub created_at : ℕ

abbrev pub is_reserved : RecordStatus → Bool
is_reserved reserved = true
is_reserved completed = false

abbrev pub is_at : RecordKey → Entry → Bool
is_at k e = same_key k e.key

abbrev pub second : ℕ
second = 1000000

-- `now - record.created_at > self.ttl_seconds`
abbrev pub has_expired : ℕ → ℕ → Entry → Bool
has_expired ttl_seconds now e = ltb (e.created_at + ttl_seconds * second) now

unfoldable pub reserve_entry : ℕ → ℕ → RecordKey → String → List Entry → List Entry × Reservation
reserve_entry ttl_seconds now k fingerprint entries =
    let live = delete (has_expired ttl_seconds now) entries in
    elim (first (is_at k) live) [
      | some existing ↦ (live, conflict (not (str_eq existing.fingerprint fingerprint)))
      | none ↦ (
        live
            ++ record { key = k; fingerprint = fingerprint; state = reserved; created_at = now }
              ∷ [],
        granted,
      )
    ]

unfoldable pub complete_entry : RecordKey → List Entry → List Entry
complete_entry k entries = update (is_at k) (λ e. record e { state = completed }) entries

unfoldable pub release_entry : RecordKey → List Entry → List Entry
release_entry k entries = delete (λ e. is_at k e && is_reserved e.state) entries

-- The entry of a key. It counts up to and with its time to live.
pub record HasEntry (ttl_seconds u : ℕ) (k : RecordKey) (f : String) (st : RecordStatus)
    (entries : List Entry) : Type 0 where
  pub entry : Entry
  pub found : first (is_at k) entries ≡ some entry
  pub fingerprint : entry.fingerprint ≡ f
  pub state : entry.state ≡ st
  pub expiry : suc (entry.created_at + ttl_seconds * second) ≡ u

same_key_refl : (k : RecordKey) → same_key k k ≡ true
same_key_refl k =
    ground (arith, eq_iff k.actor_id k.actor_id, eq_iff k.action k.action, eq_iff k.key k.key)

is_at-same_key : (k j : RecordKey) (e : Entry) → is_at k e ≡ true → is_at j e ≡ same_key k j
is_at-same_key k j e h = ground (
  arith,
  eq_iff k.actor_id e.key.actor_id,
  eq_iff k.action e.key.action,
  eq_iff k.key e.key.key,
  eq_iff j.actor_id e.key.actor_id,
  eq_iff j.action e.key.action,
  eq_iff j.key e.key.key,
  eq_iff k.actor_id j.actor_id,
  eq_iff k.action j.action,
  eq_iff k.key j.key,
)

module _ (ttl_seconds : ℕ) where
  pub reserve_entry-granted :
      (now : ℕ) (k : RecordKey) (f : String) (entries : List Entry)
      → (reserve_entry ttl_seconds now k f entries).1 ≡ granted
      → HasEntry ttl_seconds
          (suc (now + ttl_seconds * second))
          k
          f
          reserved
          (reserve_entry ttl_seconds now k f entries).0
  unfolding reserve_entry
  reserve_entry-granted now k f entries e =
      let live = delete (has_expired ttl_seconds now) entries in
      let new : Entry = record { key = k; fingerprint = f; state = reserved; created_at = now } in
      elim (Option-cases (first (is_at k) live)) [
        | inl free ↦
            rw (free, reserve_entry)
              (record {
                entry = new;
                found = first-append-none (is_at k) live new free (same_key_refl k);
                fingerprint = refl;
                state = refl;
                expiry = refl;
              })
        | inr (r, taken) ↦ absurd (no (rw (taken, reserve_entry) at e))
      ]
    where
      no : {b : Bool} → conflict b ≡ granted → ⊥
      no h = cc

  -- The entry outlives the purge.
  purged-HasEntry :
      (u now : ℕ) (k : RecordKey) (f : String) (st : RecordStatus) (entries : List Entry)
      → HasEntry ttl_seconds u k f st entries
      → now < u
      → HasEntry ttl_seconds u k f st (delete (has_expired ttl_seconds now) entries)
  purged-HasEntry u now k f st entries h late =
      let fresh : has_expired ttl_seconds now h.entry ≡ false = ground arith in
      record {
        entry = h.entry;
        found = first-delete (is_at k) (has_expired ttl_seconds now) entries h.entry h.found fresh;
        fingerprint = h.fingerprint;
        state = h.state;
        expiry = h.expiry;
      }

  pub reserve_entry-conflict :
      (u now : ℕ) (k : RecordKey) (f g : String) (st : RecordStatus) (entries : List Entry)
      → HasEntry ttl_seconds u k f st entries
      → now < u
      → (reserve_entry ttl_seconds now k g entries).1 ≡ conflict (not (str_eq f g))
  unfolding reserve_entry
  reserve_entry-conflict u now k f g st entries h late =
      let p = purged-HasEntry u now k f st entries h late in
      rw (p.found, reserve_entry) (rw p.fingerprint)

  pub reserve_entry-HasEntry :
      (u now : ℕ) (k j : RecordKey) (f g : String) (st : RecordStatus) (entries : List Entry)
      → HasEntry ttl_seconds u k f st entries
      → now < u
      → HasEntry ttl_seconds u k f st (reserve_entry ttl_seconds now j g entries).0
  unfolding reserve_entry
  reserve_entry-HasEntry u now k j f g st entries h late =
      let live = delete (has_expired ttl_seconds now) entries in
      let p = purged-HasEntry u now k f st entries h late in
      elim (Option-cases (first (is_at j) live)) [
        | inl free ↦
            rw (free, reserve_entry)
              (record {
                entry = p.entry;
                found = first-append (is_at k) live _ p.entry p.found;
                fingerprint = p.fingerprint;
                state = p.state;
                expiry = p.expiry;
              })
        | inr (r, taken) ↦ rw (taken, reserve_entry) p
      ]

  pub complete_entry-HasEntry :
      (u : ℕ) (k j : RecordKey) (f : String) (st : RecordStatus) (entries : List Entry)
      → HasEntry ttl_seconds u k f st entries
      → HasEntry ttl_seconds u k f
          (if same_key k j then completed else st)
          (complete_entry j entries)
  unfolding complete_entry
  complete_entry-HasEntry u k j f st entries h =
      let same = is_at-same_key k j h.entry (first-hit (is_at k) entries h.found) in
      let moved =
        first-update (is_at k) (is_at j) (λ e. record e { state = completed }) entries h.entry
          (λ e. refl) h.found in
      elim (Bool-cases (is_at j h.entry)) [
        | inl on ↦ record {
          entry = record (h.entry) { state = completed };
          found = rw on at moved;
          fingerprint = h.fingerprint;
          state = ground arith;
          expiry = h.expiry;
        }
        | inr off ↦ record {
          entry = h.entry;
          found = rw off at moved;
          fingerprint = h.fingerprint;
          state = ground arith;
          expiry = h.expiry;
        }
      ]

  pub release_entry-HasEntry :
      (u : ℕ) (k j : RecordKey) (f : String) (st : RecordStatus) (entries : List Entry)
      → HasEntry ttl_seconds u k f st entries
      → (same_key k j ≡ false) ⊎ (st ≡ completed)
      → HasEntry ttl_seconds u k f st (release_entry j entries)
  unfolding release_entry
  release_entry-HasEntry u k j f st entries h spared =
      let same = is_at-same_key k j h.entry (first-hit (is_at k) entries h.found) in
      let kept : (is_at j h.entry && is_reserved h.entry.state) ≡ false = ground arith in
      record {
        entry = h.entry;
        found =
            first-delete (is_at k) (λ e. is_at j e && is_reserved e.state) entries h.entry h.found
              kept;
        fingerprint = h.fingerprint;
        state = h.state;
        expiry = h.expiry;
      }

-- `IdempotencyStore` keeps the promises, with an instant more.
abbrev pub local_guard : ℕ → Guard
local_guard ttl_seconds = record {
  State = List Entry;
  lifetime = λ now. suc (now + ttl_seconds * second);
  reserve = reserve_entry ttl_seconds;
  complete = λ now. complete_entry;
  release = release_entry;
  Holds = HasEntry ttl_seconds;
  reserve-granted = reserve_entry-granted ttl_seconds;
  reserve-conflict = reserve_entry-conflict ttl_seconds;
  reserve-Holds = reserve_entry-HasEntry ttl_seconds;
  complete-Holds = λ u now. complete_entry-HasEntry ttl_seconds u;
  release-Holds = release_entry-HasEntry ttl_seconds;
}
