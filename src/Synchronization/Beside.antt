-- ===== src/Synchronization/Beside.antt =====
-- A synchronized transaction and the valid transactions of its event.
use ts_gaurd_service.Base.{◌+◌, ◌≡◌, refl, none, some, count, string_eq, eq_refl, arith}
use ts_gaurd_service.Constants.{TransactionStatus, type_eq, tx_status_eq}
use ts_gaurd_service.Database.Repository.{rows}
use ts_gaurd_service.Database.Entities.{PaymentTransaction, ConfirmedEventEntity, Database}
use ts_gaurd_service.Database.Actions.{
  get_event_by_id, get_tx_by_id, is_valid_event_tx, new_tx, insert_completed_tx,
  set_event_status_to_pending,
}
use ts_gaurd_service.Event.{Bridge}
use ts_gaurd_service.Synchronization.{Syncing, SyncGuard}
use ts_gaurd_service.Synchronization.Responses.{finalize, set_tx_as_approved}

module _ (db : Database) (bridge : Bridge) (guard : SyncGuard) (tx : PaymentTransaction) where
  finalize-transactions :
      (event : ConfirmedEventEntity) (w : Syncing db) (t : db.transactions.Table)
      → db.transactions.insert
          (new_tx db TransactionStatus.completed bridge.now tx
            (some event.id)
            guard.required_sign
            none)
          w.store.transactions
        ≡ some t
      → (finalize db bridge guard tx (some event) none w).1.store.transactions ≡ t
  unfolding insert_completed_tx set_event_status_to_pending
  finalize-transactions event w t e = ground (arith, e)

  -- When a synchronized transaction enters, its event has one more valid transaction of the type,
  -- however many it had.
  pub set_tx_as_approved_beside :
      (w : Syncing db) (event : ConfirmedEventEntity) (t : db.transactions.Table)
      → get_event_by_id db tx.event_id w.store ≡ some event
      → get_tx_by_id db tx.tx_id w.store ≡ none
      → db.transactions.insert
          (new_tx db TransactionStatus.completed bridge.now tx
            (some event.id)
            guard.required_sign
            none)
          w.store.transactions
        ≡ some t
      → count
          (is_valid_event_tx event.id tx.tx_type)
          (rows db.transactions (set_tx_as_approved db bridge guard tx w).1.store.transactions)
        ≡ 1
          + count
              (is_valid_event_tx event.id tx.tx_type)
              (rows db.transactions w.store.transactions)
  unfolding set_tx_as_approved
  set_tx_as_approved_beside w event t known absent e =
      let done : (finalize db bridge guard tx (get_event_by_id db tx.event_id w.store)
            (get_tx_by_id db tx.tx_id w.store) w).1.store.transactions
          ≡ t =
        rw (known, absent) (finalize-transactions event w t e) in
      rw done (
        ground (
          arith,
          eq_refl event.id,
          (type_eq.beq_iff tx.tx_type tx.tx_type).1 refl,
          db.transactions.count-insert _ _ _ e (is_valid_event_tx event.id tx.tx_type),
        ))
