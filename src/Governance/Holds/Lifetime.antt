-- ===== src/Governance/Holds/Lifetime.antt =====
-- Holds from their creation to their release, and those in force:
-- src/bff/postgres/governance_repository.py.
use Prim.Native.Nat.{ℕ, Ordering}
use Prim.Native.String.{String, compare as compare_text}
use mathlib.Core.Bool.{Bool, true, false, ◌&&◌, ◌||◌, not}
use mathlib.Core.Option.{Option, none, some}
use mathlib.Core.List.{List, [], ◌∷◌, ◌++◌, map}
use text.Mathlib.Text.{◌==◌ as str_eq}
use foundation_intelligence.Common.{
  Result, ok, ◌>>=◌, ◌>>◌, raise_if, or_raise, is_blank, is_one_of, any, select, update, ltb, ◌==◌,
  sort_by,
}
use foundation_intelligence.Governance.Retention.{DataHold}
use foundation_intelligence.Governance.Holds.Schema.{
  HoldStatus, HoldRow, Tables, Failure, active, released, expired, value_error, other_error,
}

pub record HoldRequest : Type 0 where
  pub hold_type : String
  pub scope_type : String
  pub scope_id : String
  pub reason : String
  pub created_by : String
  pub expires_at : Option ℕ

abbrev pub hold_row : ℕ → String → HoldRequest → HoldRow
hold_row now id r = record {
  data_hold_id = id;
  hold_type = r.hold_type;
  scope_type = r.scope_type;
  scope_id = r.scope_id;
  reason = r.reason;
  status = active;
  created_by = r.created_by;
  created_at = now;
  expires_at = r.expires_at;
  released_by = none;
  released_at = none;
  release_reason = none;
}

abbrev pub is_hold : String → HoldRow → Bool
is_hold id h = str_eq h.data_hold_id id

-- `expires_at IS NULL OR expires_at > t`
abbrev pub is_unexpired : ℕ → Option ℕ → Bool
is_unexpired t none = true
is_unexpired t (some expiry) = ltb t expiry

-- The row is refused also where its id is taken or it has expired already.
unfoldable pub check_hold : ℕ → String → HoldRequest → Tables → Result Failure (Unit {0})
check_hold now id r db = do
  raise_if (not (is_one_of r.hold_type ("legal" ∷ "incident" ∷ []))) value_error
  raise_if
      (is_blank r.scope_type || is_blank r.scope_id || is_blank r.reason || is_blank r.created_by)
      value_error
  raise_if (any (is_hold id) db.holds) other_error
  raise_if (not (is_unexpired now r.expires_at)) other_error

unfoldable pub create_hold : ℕ → String → HoldRequest → Tables → Result Failure (Tables × HoldRow)
unfolding check_hold
create_hold now id r db = do
  check_hold now id r db
  ok (record db { holds = db.holds ++ hold_row now id r ∷ [] }, hold_row now id r)

abbrev pub is_active_hold : HoldRow → Bool
is_active_hold h = elim h.status [ active ↦ true | released ↦ false | expired ↦ false ]

abbrev pub released_row : ℕ → String → String → HoldRow → HoldRow
released_row now by reason h = record h {
  status = released;
  released_by = some by;
  released_at = some now;
  release_reason = some reason;
}

abbrev pub is_released_by : String → HoldRow → Bool
is_released_by id h = is_hold id h && is_active_hold h

-- `hold_id` is what `uuid.UUID` reads.
unfoldable pub check_release : Option String → String → String → Tables → Result Failure String
check_release hold_id by reason db = do
  raise_if (is_blank by || is_blank reason) value_error
  id ← or_raise hold_id value_error
  raise_if (not (any (is_released_by id) db.holds)) value_error
  ok id

unfoldable pub release_hold : ℕ → Option String → String → String → Tables → Result Failure Tables
unfolding check_release
release_hold now hold_id by reason db = do
  id ← check_release hold_id by reason db
  ok (record db { holds = update (is_released_by id) (released_row now by reason) db.holds })

-- `ORDER BY created_at, data_hold_id`
abbrev pub is_created_before : HoldRow → HoldRow → Bool
is_created_before g h =
    ltb g.created_at h.created_at
    || (g.created_at == h.created_at
        && elim (compare_text g.data_hold_id h.data_hold_id) [ Ordering.lt ↦ true | _ ↦ false ])

abbrev pub is_in_force : ℕ → HoldRow → Bool
is_in_force now h = is_active_hold h && is_unexpired now h.expires_at

abbrev pub hold_status : HoldStatus → String
hold_status active = "active"
hold_status released = "released"
hold_status expired = "expired"

abbrev pub data_hold : HoldRow → DataHold
data_hold h = record {
  hold_id = h.data_hold_id;
  hold_type = h.hold_type;
  scope_type = h.scope_type;
  scope_id = h.scope_id;
  status = hold_status h.status;
  expires_at = h.expires_at;
}

unfoldable pub active_holds : ℕ → Tables → List DataHold
active_holds now db = map data_hold (sort_by is_created_before (select (is_in_force now) db.holds))
