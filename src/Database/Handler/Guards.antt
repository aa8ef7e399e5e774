-- ===== src/Database/Handler/Guards.antt =====
-- Cold storage transactions and orders, as `insertTx` and `insertOrder` of
-- src/db/DatabaseHandler.ts add them.
use ts_gaurd_service.Base.{
  ℕ, ◌+◌, ◌≡◌, refl, sym, ◌∙◌, inl, inr, Bool, false, ◌&&◌, none, some, String, ◌==◌, string_eq,
  arith, count, count_and_le, any, Option-cases, ok, err, eq_refl, duplicate_order, and_then,
}
use ts_gaurd_service.Constants.{
  TransactionType, tx_status_eq, type_eq, order_status_eq, approved, cold_storage, OrderStatus,
}
use ts_gaurd_service.Database.Repository.{rows}
use ts_gaurd_service.Database.Entities.{
  PaymentTransaction, TransactionEntity, ArbitraryEntity, Database, Store,
}
use ts_gaurd_service.Database.Actions.{
  get_order_by_id, insert_new_tx, new_tx, is_active_cold_storage_tx,
  get_active_cold_storage_txs_in_chain, insert_new_order,
}
use ts_gaurd_service.Database.Lookups.{write_transactions-ok, write_orders-ok}
use ts_gaurd_service.Database.Handler.{
  insert_cold_storage_tx, insert_tx_of_type, insert_tx, insert_order,
}

module _ (db : Database) (now : ℕ) (tx : PaymentTransaction) (required_sign : ℕ)
    (s : Store db) where
  insert_cold_storage_tx_new :
      {s' : Store db}
      → any
          (λ (r : TransactionEntity). r.tx_id == tx.tx_id)
          (get_active_cold_storage_txs_in_chain db tx.network s)
        ≡ false
      → insert_cold_storage_tx db now tx required_sign s ≡ (ok tt, s')
      → insert_new_tx db now tx none required_sign none s ≡ (ok tt, s')
  unfolding insert_cold_storage_tx
  insert_cold_storage_tx_new none_has e = ground arith

  insert_tx_of_type-cold_storage :
      (type : TransactionType) (overwrite : Bool)
      → type ≡ cold_storage
      → insert_tx_of_type db now type tx required_sign overwrite s
        ≡ insert_cold_storage_tx db now tx required_sign s
  unfolding insert_tx_of_type
  insert_tx_of_type-cold_storage type overwrite t = rw t refl

  -- A cold storage transaction whose id no active cold storage transaction of its chain has is
  -- added to them, whatever others are active there.
  pub insert_tx_cold_storage :
      (overwrite : Bool) {s' : Store db}
      → tx.tx_type ≡ cold_storage
      → any
          (λ (r : TransactionEntity). r.tx_id == tx.tx_id)
          (get_active_cold_storage_txs_in_chain db tx.network s)
        ≡ false
      → insert_tx db now tx required_sign overwrite s ≡ (ok tt, s')
      → count (is_active_cold_storage_tx tx.network) (rows db.transactions s'.transactions)
        ≡ count (is_active_cold_storage_tx tx.network) (rows db.transactions s.transactions) + 1
  unfolding insert_tx insert_tx_of_type insert_new_tx
  insert_tx_cold_storage overwrite {s'} is_cold none_has e =
      let r = new_tx db approved now tx none required_sign none in
      let (t, done, same) =
        write_transactions-ok db (db.transactions.insert r s.transactions) s {s' = s'} (
          insert_cold_storage_tx_new none_has
            (sym (insert_tx_of_type-cold_storage tx.tx_type overwrite is_cold) ∙ e)) in
      rw (← same) (
        rw (db.transactions.count-insert r s.transactions t done _)
          (ground (arith, eq_refl tx.network)))

insert_new_order_once :
    (db : Database) (now : ℕ) (id chain order_json : String) (s s' : Store db)
    → insert_new_order db now id chain order_json s ≡ (ok tt, s')
    → count (λ r. r.id == id) (rows db.orders s'.orders) ≡ 1
      × (count (λ r. r.id == id && r.status == OrderStatus.pending) (rows db.orders s'.orders) ≡ 1)
unfolding insert_new_order
insert_new_order_once db now id chain order_json s s' e =
    let r : ArbitraryEntity = record {
      id = id;
      chain = chain;
      order_json = order_json;
      status = OrderStatus.pending;
      first_try = some now;
      unexpected_fails = 0;
    } in
    let p = λ (x : ArbitraryEntity). x.id == id in
    let q = λ (x : ArbitraryEntity). x.id == id && x.status == OrderStatus.pending in
    let (t, done, same) = write_orders-ok db (db.orders.insert r s.orders) s {s' = s'} e in
    let with_id = db.orders.count-insert r s.orders t done p in
    let with_both = db.orders.count-insert r s.orders t done q in
    let unique = db.orders.key-unique id t in
    let fewer = count_and_le p (λ x. x.status == OrderStatus.pending) (rows db.orders s.orders) in
    rw (← same) (
      ground (arith, eq_refl id, with_id, with_both, unique, fewer),
      ground (arith, eq_refl id, with_id, with_both, unique, fewer),
    )

-- An order is inserted once: while an order has the id, `insert_order` raises `duplicate_order` and
-- changes nothing, and when it returns, exactly one order has the id, and it is pending.
pub insert_order_once :
    (db : Database) (now : ℕ) (id chain order_json : String) (s : Store db)
    → ((r : ArbitraryEntity)
        → get_order_by_id db id s ≡ some r
        → insert_order db now id chain order_json s ≡ (err duplicate_order, s))
      × ((s' : Store db)
          → insert_order db now id chain order_json s ≡ (ok tt, s')
          → count (λ r. r.id == id) (rows db.orders s'.orders) ≡ 1
            × (count (λ r. r.id == id && r.status == OrderStatus.pending) (rows db.orders s'.orders)
                ≡ 1))
unfolding insert_order
insert_order_once db now id chain order_json s = (
  λ r e. rw (e, and_then) refl,
  λ s' e. elim (Option-cases (get_order_by_id db id s)) [
    | inl missing ↦
        insert_new_order_once db now id chain order_json s s' (rw (missing, and_then) at e)
    | inr (r, found) ↦ ground arith
  ],
)
