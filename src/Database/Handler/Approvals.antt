-- ===== src/Database/Handler/Approvals.antt =====
-- Two guards that approve in different orders come to the same transaction.
use ts_gaurd_service.Base.{
  ℕ, ◌≡◌, refl, sym, ap, ◌∙◌, Bool, some, String, string_eq, ok, Result, lower, lower_comm,
}
use ts_gaurd_service.Constants.{TransactionType, tx_status_eq, type_eq}
use ts_gaurd_service.Database.Entities.{PaymentTransaction, ConfirmedEventEntity, Database, Store}
use ts_gaurd_service.Database.Actions.{get_event_by_id}
use ts_gaurd_service.Database.Handler.{insert_tx}
use ts_gaurd_service.Database.Handler.Standing.{
  IsEventType, Stands, HasNone, insert_tx-event, resolve_tx-Stands, insert_tx-events,
  insert_tx-first,
}

module _ (db : Database) (now required_sign : ℕ) (overwrite : Bool) (event : ConfirmedEventEntity)
    (event_id : String) (type : TransactionType) (is_event : IsEventType type) where
  -- The transaction is for this event and of this type.
  abbrev pub IsFor : PaymentTransaction → Type 0
  IsFor x = (x.event_id ≡ event_id) × (x.tx_type ≡ type)

  two_approvals :
      (x y : PaymentTransaction) (s : Store db) {s' s'' : Store db}
      → IsFor x
      → IsFor y
      → get_event_by_id db event_id s ≡ some event
      → HasNone db event_id type s
      → insert_tx db now x required_sign overwrite s ≡ (ok tt, s')
      → insert_tx db now y required_sign overwrite s' ≡ (ok tt, s'')
      → Stands db event_id type (lower x.tx_id y.tx_id) s''
  unfolding get_event_by_id
  two_approvals x y s {s'} {s''} (xe, xt) (ye, yt) e z dx dy =
      let first_stands =
        insert_tx-first db now x required_sign s overwrite event {s' = s'} (rw xt is_event)
          (rw xe e) (rw (xe, xt) z) dx in
      let kept : s'.events ≡ s.events =
        ap (λ (r : Result (Unit {0}) × Store db). r.1.events) (sym dx)
        ∙ insert_tx-events db now x required_sign s overwrite event (rw xt is_event) (rw xe e) in
      rw (← ye, ← yt)
        (resolve_tx-Stands db now y required_sign s' x.tx_id _ refl
          (rw (ye, yt) (rw (xe, xt) at first_stands))
          (sym (
              insert_tx-event db now y required_sign s' overwrite event (rw yt is_event)
                (rw (ye, kept) e))
            ∙ dy))

  -- Two transactions for one event and one of its two types, approved where the event has no valid
  -- transaction of that type: in whichever order they are inserted, if both insertions return, the
  -- event has one valid transaction of the type, which is approved and has the lower id of the two.
  pub approvals_commute :
      (x y : PaymentTransaction) (s : Store db) {s₁ s₂ s₃ s₄ : Store db}
      → IsFor x
      → IsFor y
      → get_event_by_id db event_id s ≡ some event
      → HasNone db event_id type s
      → insert_tx db now x required_sign overwrite s ≡ (ok tt, s₁)
      → insert_tx db now y required_sign overwrite s₁ ≡ (ok tt, s₂)
      → insert_tx db now y required_sign overwrite s ≡ (ok tt, s₃)
      → insert_tx db now x required_sign overwrite s₃ ≡ (ok tt, s₄)
      → Stands db event_id type (lower x.tx_id y.tx_id) s₂
        × Stands db event_id type (lower x.tx_id y.tx_id) s₄
  approvals_commute x y s for_x for_y e z d₁ d₂ d₃ d₄ = (
    two_approvals x y s for_x for_y e z d₁ d₂,
    rw (lower_comm x.tx_id y.tx_id) (two_approvals y x s for_y for_x e z d₃ d₄),
  )
