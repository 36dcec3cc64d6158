-- ===== src/Governance/Holds/Operations.antt =====
-- The transactions of the governance tables, one after the other; one that raises is rolled back.
use Prim.Native.Nat.{ℕ, suc}
use Prim.Native.String.{String}
use mathlib.Core.Path.{◌≡◌, refl, sym, ap, ◌∙◌, subst}
use mathlib.Core.Bool.{false, not, ◌||◌}
use mathlib.Core.Option.{Option, none, some}
use mathlib.Core.List.{List, [], ◌∷◌}
use native.Mathlib.Omega.{arith}
use text.Mathlib.Text.{◌==◌ as str_eq}
use foundation_intelligence.Common.{
  Result, ok, err, ok_eq, All, ◌>>=◌, >>=-eq-ok, >>-ok, In, In-append, update-In, raise_if,
  is_blank, any,
}
use foundation_intelligence.Governance.Policy.{GovernanceConfiguration}
use foundation_intelligence.Governance.Retention.{
  Timestamp, RetentionCandidate, RetentionPlanEntry, plan,
}
use foundation_intelligence.Governance.Holds.Schema.{Tables, Failure, value_error, HoldRow, raised}
use foundation_intelligence.Governance.Holds.Lifetime.{
  HoldRequest, create_hold, release_hold, is_released_by, released_row, check_hold, check_release,
  active_holds,
}
use foundation_intelligence.Governance.Holds.Policies.{synchronize_policies, check_policies}
use foundation_intelligence.Governance.Holds.DryRun.{
  check_entry, record_entry, record_retention_plan, retention_dry_run,
}

pub data Operation : Type 0 where
  synchronize : ℕ → GovernanceConfiguration → Operation
  create : ℕ → String → HoldRequest → Operation
  release : ℕ → Option String → String → String → Operation
  dry_run :
      GovernanceConfiguration
      → (ℕ → String × String)
      → String
      → ℕ
      → Timestamp
      → RetentionCandidate
      → Operation

abbrev pub tables_of : {A : Type 0} → Result Failure (A × Tables) → Result Failure Tables
tables_of r = r >>= λ out. ok out.1

unfoldable pub perform : Operation → Tables → Result Failure Tables
perform (synchronize now configuration) db = synchronize_policies now configuration db
perform (create now id r) db = create_hold now id r db >>= λ out. ok out.0
perform (release now id by reason) db = release_hold now id by reason db
perform (dry_run configuration new_id by read_at now c) db =
    tables_of (retention_dry_run configuration new_id by read_at now c db)

abbrev pub commit : Tables → Result Failure Tables → Tables
commit db (ok db') = db'
commit db (err e) = db

unfoldable pub run : List Operation → Tables → Tables
run [] db = db
run (o ∷ os) db = run os (commit db (perform o db))

-- What every transaction keeps, a history keeps.
pub run-keeps :
    (P : Tables → Type 0) (Q : Operation → Type 0)
    → ((o : Operation) (db db' : Tables) → Q o → perform o db ≡ ok db' → P db → P db')
    → (os : List Operation) (db : Tables) → All Q os
    → P db
    → P (run os db)
unfolding run
run-keeps P Q step [] db all h = h
run-keeps P Q step (o ∷ os) db all h =
    run-keeps P Q step os (commit db (perform o db)) all.1 (committed (perform o db) refl)
  where
    committed : (r : Result Failure Tables) → perform o db ≡ r → P (commit db r)
    committed (ok db') e = step o db db' all.0 e h
    committed (err f) e = h

pub record_entry-holds :
    (by action_id manifest_id : String) (e : RetentionPlanEntry) (db db' : Tables)
    → record_entry by action_id manifest_id e db ≡ ok db'
    → db'.holds ≡ db.holds
unfolding record_entry
record_entry-holds by action_id manifest_id e db db' h =
    ap (λ (x : Tables). x.holds)
      (sym (ok_eq (>>-ok (check_entry action_id manifest_id e db) _ h).1))

pub record_retention_plan-holds :
    (new_id : ℕ → String × String) (by : String) (es : List RetentionPlanEntry) (n : ℕ)
    (db db' : Tables)
    → record_retention_plan new_id by es n db ≡ ok db'
    → db'.holds ≡ db.holds
unfolding record_retention_plan
record_retention_plan-holds new_id by [] n db db' h = ap (λ (x : Tables). x.holds) (sym (ok_eq h))
record_retention_plan-holds new_id by (e ∷ es) n db db' h =
    let (mid, one, rest) = >>=-eq-ok (record_entry by (new_id n).0 (new_id n).1 e db) _ h in
    record_retention_plan-holds new_id by es (suc n) mid db' rest
    ∙ record_entry-holds by (new_id n).0 (new_id n).1 e db mid one

-- The transaction releases no hold with this id.
abbrev pub Spares : String → Operation → Type 0
Spares id (release now (some released) by reason) = str_eq id released ≡ false
Spares id _ = Unit

check_release-id :
    (id by reason released : String) (db : Tables)
    → check_release (some id) by reason db ≡ ok released
    → id ≡ released
unfolding check_release
check_release-id id by reason released db h =
    let (_, h1) = >>-ok (raise_if (is_blank by || is_blank reason) value_error) _ h in
    let (_, h2) = >>-ok (raise_if (not (any (is_released_by id) db.holds)) value_error) _ h1 in
    ok_eq h2

check_release-none :
    (by reason released : String) (db : Tables) → check_release none by reason db ≡ ok released → ⊥
unfolding check_release
check_release-none by reason released db h = ground arith

pub perform-In :
    (row : HoldRow) (o : Operation) (db db' : Tables)
    → Spares row.data_hold_id o
    → perform o db ≡ ok db'
    → In row db.holds
    → In row db'.holds
unfolding perform synchronize_policies create_hold release_hold retention_dry_run
perform-In row (synchronize now configuration) db db' spared h m =
    subst (λ (x : Tables). In row x.holds) (ok_eq (>>-ok (check_policies configuration) _ h).1) m
perform-In row (create now id r) db db' spared h m =
    let (out, made, h1) = >>=-eq-ok (create_hold now id r db) _ h in
    subst (λ (x : Tables). In row x.holds)
      (ap (λ x. x.0) (ok_eq (>>-ok (check_hold now id r db) _ made).1) ∙ ok_eq h1)
      (In-append row db.holds _ m)
perform-In row (release now none by reason) db db' spared h m =
    let (id, checked, h1) = >>=-eq-ok (check_release none by reason db) _ h in
    absurd (check_release-none by reason id db checked)
perform-In row (release now (some id) by reason) db db' spared h m =
    let (released, checked, h1) = >>=-eq-ok (check_release (some id) by reason db) _ h in
    let same = check_release-id id by reason released db checked in
    subst (λ (x : Tables). In row x.holds) (ok_eq h1)
      (update-In (is_released_by released) (released_row now by reason) row db.holds m
        (rw (← same) (rw spared)))
perform-In row (dry_run configuration new_id by read_at now c) db db' spared h m =
    let (out, made, h1) =
      >>=-eq-ok (retention_dry_run configuration new_id by read_at now c db) _ h in
    let (entries, planned, e1) =
      >>=-eq-ok (raised (plan configuration (c ∷ []) (active_holds read_at db) now)) _ made in
    let (db2, recorded, e2) = >>=-eq-ok (record_retention_plan new_id by entries 0 db) _ e1 in
    subst (λ (x : Tables). In row x.holds) (ap (λ x. x.1) (ok_eq e2) ∙ ok_eq h1)
      (subst (In row) (sym (record_retention_plan-holds new_id by entries 0 db db2 recorded)) m)
