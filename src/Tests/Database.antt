-- ===== src/Tests/Database.antt =====
-- Approvals of an event's payments, of cold storage transactions and of orders.
use ts_gaurd_service.Base.{
  ◌+◌, ◌≡◌, refl, inl, ok, err, some, count, false, duplicate_order, ◌==◌, string_eq, ◌&&◌, String,
  ltb_text,
}
use ts_gaurd_service.Constants.{
  approved, payment, cold_storage, pending_payment, OrderStatus, order_status_eq,
}
use ts_gaurd_service.Database.Repository.{rows}
use ts_gaurd_service.Database.Entities.{Store, ArbitraryEntity}
use ts_gaurd_service.Database.Actions.{
  is_active_cold_storage_tx, get_event_by_id, get_order_by_id, get_event_valid_txs_by_type,
  insert_new_tx, replace_tx, get_active_cold_storage_txs_in_chain,
}
use ts_gaurd_service.Database.OneValid.{OneValid}
use ts_gaurd_service.Database.Handler.{
  insert_tx, insert_tx_of_type, insert_event_or_order_tx, insert_cold_storage_tx, resolve_tx,
  insert_order,
}
use ts_gaurd_service.Database.Handler.Standing.{Stands}
use ts_gaurd_service.Database.Handler.Keeps.{insert_tx-OneValid}
use ts_gaurd_service.Database.Handler.Approvals.{approvals_commute}
use ts_gaurd_service.Database.Handler.Guards.{insert_tx_cold_storage, insert_order_once}
use ts_gaurd_service.Tests.Data.{
  test_db, tx_of, store_with, store_with-OneValid, pending_store, empty_store, event_row,
}

insert_tx-OneValid_example :
    OneValid test_db
      (insert_tx test_db 1000 (tx_of "a" payment) 3 false (store_with approved)).1.transactions
insert_tx-OneValid_example =
    insert_tx-OneValid test_db 1000 (tx_of "a" payment) (store_with approved)
      (store_with-OneValid approved) 3 false

abbrev after : Store test_db → String → Store test_db
after s id = (insert_tx test_db 1000 (tx_of id payment) 3 false s).1

approvals_commute_example :
    Stands test_db "event" payment "a" (after (after pending_store "a") "b")
    × Stands test_db "event" payment "a" (after (after pending_store "b") "a")
unfolding insert_tx insert_tx_of_type insert_event_or_order_tx resolve_tx ltb_text get_event_by_id
    get_event_valid_txs_by_type insert_new_tx replace_tx
approvals_commute_example =
    approvals_commute test_db 1000 3 false (event_row pending_payment) "event" payment (inl refl)
      (tx_of "a" payment) (tx_of "b" payment) pending_store {s₁ = after pending_store "a"}
      {s₂ = after (after pending_store "a") "b"} {s₃ = after pending_store "b"}
      {s₄ = after (after pending_store "b") "a"} (refl, refl) (refl, refl) refl refl refl refl refl
      refl

insert_tx_cold_storage_example :
    count (is_active_cold_storage_tx "ergo") (
      rows test_db.transactions
        (insert_tx test_db 1000 (tx_of "c" cold_storage) 3 false empty_store).1.transactions)
    ≡ 0 + 1
unfolding insert_tx insert_tx_of_type insert_cold_storage_tx get_active_cold_storage_txs_in_chain
    insert_new_tx
insert_tx_cold_storage_example =
    insert_tx_cold_storage test_db 1000 (tx_of "c" cold_storage) 3 empty_store false
      {s' = (insert_tx test_db 1000 (tx_of "c" cold_storage) 3 false empty_store).1} refl refl refl

insert_order_once_example :
    ((r : ArbitraryEntity)
      → get_order_by_id test_db "order" empty_store ≡ some r
      → insert_order test_db 1000 "order" "ergo" "{}" empty_store
        ≡ (err duplicate_order, empty_store))
    × ((s' : Store test_db)
        → insert_order test_db 1000 "order" "ergo" "{}" empty_store ≡ (ok tt, s')
        → count (λ (r : ArbitraryEntity). r.id == "order") (rows test_db.orders s'.orders) ≡ 1
          × (count
                (λ (r : ArbitraryEntity). r.id == "order" && r.status == OrderStatus.pending)
                (rows test_db.orders s'.orders)
              ≡ 1))
insert_order_once_example = insert_order_once test_db 1000 "order" "ergo" "{}" empty_store
