-- ===== src/Governance/Lifecycle.antt =====
-- `export_lifecycle_status` of src/governance/retention.py.
use Prim.Native.Nat.{ℕ, ◌≤◌}
use mathlib.Core.Path.{◌≡◌}
use mathlib.Core.Bool.{Bool, true, false, not}
use mathlib.Core.Option.{Option, none, some}
use native.Mathlib.Omega.{arith}
use foundation_intelligence.Common.{Result, ok, ◌>>◌, raise_if, ltb, leb, if◌then◌else◌}
use foundation_intelligence.Governance.Policy.{GovernanceError, naive_timestamp}
use foundation_intelligence.Governance.Retention.{Timestamp}

pub data ExportStatus : Type 0 where
  held active expiration_report_due : ExportStatus

abbrev pub is_after : Option ℕ → ℕ → Bool
is_after none now = false
is_after (some t) now = ltb now t

abbrev pub has_passed : Option ℕ → ℕ → Bool
has_passed none now = false
has_passed (some t) now = leb t now

unfoldable pub export_lifecycle_status :
    (expires_at hold_until : Option ℕ) (now : Timestamp) → Result GovernanceError ExportStatus
export_lifecycle_status expires_at hold_until now = do
  raise_if (not now.has_zone) naive_timestamp
  ok (
      if is_after hold_until now.micros
      then held
      else if has_passed expires_at now.micros
      then expiration_report_due
      else active)

-- How far an export has come.
abbrev pub stage : ExportStatus → ℕ
stage held = 0
stage active = 1
stage expiration_report_due = 2

-- As time passes, an export is first held, then active, then due for its expiration report, and
-- never goes back; it is due from the moment on when it has expired and its hold is over.
pub export_lifecycle_status-stage :
    (expires_at hold_until : Option ℕ) (earlier later : Timestamp) (s t : ExportStatus)
    → earlier.micros ≤ later.micros
    → export_lifecycle_status expires_at hold_until earlier ≡ ok s
    → export_lifecycle_status expires_at hold_until later ≡ ok t
    → (stage s ≤ stage t)
      × (has_passed expires_at later.micros ≡ true
          → is_after hold_until later.micros ≡ false
          → t ≡ expiration_report_due)
unfolding export_lifecycle_status
export_lifecycle_status-stage expires_at hold_until earlier later s t h e f =
    (ground arith, λ p q. ground arith)
