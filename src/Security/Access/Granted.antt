-- ===== src/Security/Access/Granted.antt =====
-- What a request has shown when `require_roles` lets it through.
use Prim.Native.Nat.{ℕ, ◌<◌}
use Prim.Native.String.{String}
use mathlib.Core.Path.{◌≡◌, refl, sym, ap, ◌∙◌, subst}
use mathlib.Core.Logic.{◌≢◌, inl, inr}
use mathlib.Core.Bool.{Bool, true}
use mathlib.Core.List.{List}
use native.Mathlib.Omega.{arith}
use foundation_intelligence.Common.{Result, ok, err, ok_eq, Bool-cases}
use foundation_intelligence.Security.RateLimit.{Events}
use foundation_intelligence.Security.Roles.{Role, Principal, permits_any}
use foundation_intelligence.Security.Idempotency.{Guard, RecordKey, reserved, granted, conflict}
use foundation_intelligence.Security.Idempotency.Once.{Call, Spares, Before, run, reserve-once}
use foundation_intelligence.Security.Access.{
  Server, Request, HttpError, authenticate_request, record_key, reserve_idempotency, require_roles,
  authorize,
}

module _ (guard : Guard) (server : Server) where
  -- A reservation that returns has been granted by the store.
  reserve_idempotency-granted :
      (now : ℕ) (outage : Bool) (request : Request) (p : Principal) (action : String)
      (store : guard.State) (k : RecordKey)
      → (reserve_idempotency guard server now outage request p action store).1 ≡ ok k
      → (guard.reserve now (record_key p action request) (server.digest request) store).1 ≡ granted
  unfolding reserve_idempotency
  reserve_idempotency-granted now outage request p action store k e = ground arith

  reserve_idempotency-store :
      (now : ℕ) (outage : Bool) (request : Request) (p : Principal) (action : String)
      (store : guard.State) (k : RecordKey)
      → (reserve_idempotency guard server now outage request p action store).1 ≡ ok k
      → (reserve_idempotency guard server now outage request p action store).0
        ≡ (guard.reserve now (record_key p action request) (server.digest request) store).0
  unfolding reserve_idempotency
  reserve_idempotency-store now outage request p action store k e = ground arith

  -- What an admitted request has shown, and what the store has noted.
  pub record Granted (roles : List Role) (action : String) (idempotent : Bool) (now : ℕ)
      (request : Request) (before after : guard.State) (p : Principal) : Type 0 where
    pub permitted : permits_any p roles ≡ true
    pub free :
        idempotent ≡ true
        → (guard.reserve now (record_key p action request) (server.digest request) before).1
          ≡ granted
    pub noted :
        idempotent ≡ true
        → after ≡ (guard.reserve now (record_key p action request) (server.digest request) before).0

  reserved-Granted :
      (roles : List Role) (action : String) (now : ℕ) (outage : Bool) (request : Request)
      (store : guard.State) (p : Principal) (k : RecordKey)
      → permits_any p roles ≡ true
      → (reserve_idempotency guard server now outage request p action store).1 ≡ ok k
      → Granted roles action true now request store
          (reserve_idempotency guard server now outage request p action store).0
          p
  reserved-Granted roles action now outage request store p k permitted e = record {
    permitted = permitted;
    free = λ _. reserve_idempotency-granted now outage request p action store k e;
    noted = λ _. reserve_idempotency-store now outage request p action store k e;
  }

  let_through :
      (key : Result HttpError RecordKey) (p q : Principal)
      → (elim key as (λ _. Result HttpError Principal) [ ok k ↦ ok p | err e ↦ err e ]) ≡ ok q
      → (p ≡ q) × ((k : RecordKey) × (key ≡ ok k))
  let_through (ok k) p q e = (ok_eq e, (k, refl))
  let_through (err x) p q e = cc

  authorize-Granted :
      (roles : List Role) (action : String) (idempotent : Bool) (now : ℕ) (outage : Bool)
      (request : Request) (store : guard.State) (who : Result HttpError Principal) (p : Principal)
      → (authorize guard server roles action idempotent now outage request store who).1 ≡ ok p
      → (who ≡ ok p)
        × Granted roles action idempotent now request store
            (authorize guard server roles action idempotent now outage request store who).0
            p
  unfolding authorize
  authorize-Granted roles action idempotent now outage request store (err x) p e = cc
  authorize-Granted roles action idempotent now outage request store (ok q) p e =
      elim (Bool-cases (permits_any q roles)) [
        | inr denied ↦ absurd (no_answer (rw (denied, authorize) at e))
        | inl permitted ↦ elim (Bool-cases idempotent) [
          | inr once ↦
              let same : q ≡ p = ok_eq (rw (permitted, once, authorize) at e) in
              (
                ap ok same,
                rw (permitted, once, authorize)
                    (record {
                      permitted = subst (λ x. permits_any x roles ≡ true) same permitted;
                      free = λ on. cc;
                      noted = λ on. cc;
                    }),
              )
          | inl on ↦
              let (same, (k, reserved_key)) =
                let_through (reserve_idempotency guard server now outage request q action store).1 q
                  p (rw (permitted, on, authorize) at e) in
              (
                ap ok same,
                rw (permitted, on, authorize)
                    (subst
                      (Granted roles action true now request store
                        (reserve_idempotency guard server now outage request q action store).0)
                      same
                      (reserved-Granted roles action now outage request store q k permitted
                        reserved_key)),
              )
        ]
      ]
    where
      no_answer :
          {x : HttpError} {y : Principal} → ◌≡◌ {A = Result HttpError Principal} (err x) (ok y) → ⊥
      no_answer h = cc

  -- A request that `require_roles` lets through has authenticated as the principal returned, the
  -- principal is permitted, and, where the action is idempotent, the store has granted its key and
  -- has recorded it.
  pub require_roles-Granted :
      (roles : List Role) (action : String) (idempotent : Bool) (now : ℕ) (outage : Bool)
      (request : Request) (events : Events) (store : guard.State) (p : Principal)
      → (require_roles guard server roles action idempotent now outage request (events, store)).1
        ≡ ok p
      → ((authenticate_request server now request events).1 ≡ ok p)
        × Granted roles action idempotent now request store
            (require_roles guard server roles action idempotent now outage request
              (events, store)).0.1
            p
  unfolding require_roles
  require_roles-Granted roles action idempotent now outage request events store p e =
      authorize-Granted roles action idempotent now outage request store
        (authenticate_request server now request events).1 p e

  -- Once an idempotent action has been let through, no later request of the same actor with the same
  -- key is let through to that action in the lifetime of the key, whatever other requests reserve,
  -- complete or release meanwhile, as long as none of them releases this key before its completion.
  pub require_roles-once :
      (roles roles' : List Role) (action : String) (now later : ℕ) (outage outage' : Bool)
      (request request' : Request) (events events' : Events) (store : guard.State) (cs : List Call)
      (p p' : Principal)
      → (require_roles guard server roles action true now outage request (events, store)).1 ≡ ok p
      → Spares (record_key p action request) reserved cs
      → Before (guard.lifetime now) cs
      → later < guard.lifetime now
      → record_key p' action request' ≡ record_key p action request
      → (require_roles guard server roles' action true later outage' request' (
        events',
        run guard cs
            (require_roles guard server roles action true now outage request (events, store)).0.1,
      )).1
        ≢ ok p'
  require_roles-once roles roles' action now later outage outage' request request' events events'
        store cs p p' first spared before late same again =
      let (_, g) =
        require_roles-Granted roles action true now outage request events store p first in
      let (_, g') =
        require_roles-Granted roles' action true later outage' request' events' _ p' again in
      let refused =
        reserve-once guard now later (record_key p action request) (server.digest request)
          (server.digest request') cs store (g.free refl) spared before late in
      let granted_again = g'.free refl in
      clash (
        sym refused
        ∙ ap
            (λ s.
              (guard.reserve later (record_key p action request) (server.digest request')
                (run guard cs s)).1)
            (sym (g.noted refl))
        ∙ ap
            (λ k.
              (guard.reserve later k (server.digest request') (
                run guard cs
                  (require_roles guard server roles action true now outage request
                    (events, store)).0.1)).1)
            (sym same)
        ∙ granted_again)
    where
      clash : {d : Bool} → conflict d ≡ granted → ⊥
      clash h = cc
