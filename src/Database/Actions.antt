-- ===== src/Database/Actions.antt =====
-- DatabaseAction of src/db/DatabaseAction.ts: the queries and updates on transactions, events and
-- orders. The current time is an argument. Statements that fail raise `query_failed`.
use ts_gaurd_service.Base.{
  ℕ, ◌+◌, Bool, true, false, not, ◌&&◌, ◌||◌, Option, none, some, List, String, if◌then◌else◌, ◌==◌,
  string_eq, any, first, Action, ok, err, query_failed, not_found,
}
use ts_gaurd_service.Constants.{
  TransactionStatus, EventStatus, OrderStatus, TransactionType, tx_status_eq, event_status_eq,
  order_status_eq, type_eq, approved, in_sign, sign_failed, signed, sent, invalid, pending_payment,
  payment_waiting, reward_waiting, cold_storage,
}
use ts_gaurd_service.Database.Entities.{
  PaymentTransaction, EventData, TransactionEntity, ConfirmedEventEntity, ArbitraryEntity, Database,
  Store,
}

-- `{ event: { id } }` and `{ order: { id } }` in a condition
abbrev pub is_ref : Option String → String → Bool
is_ref none id = false
is_ref (some x) id = x == id

-- The conditions of `getEventValidTxsByType` and `getOrderValidTxs`.
abbrev pub is_valid_event_tx : String → TransactionType → TransactionEntity → Bool
is_valid_event_tx event_id type r =
    is_ref r.event event_id && r.type == type && not (r.status == invalid)

abbrev pub is_valid_order_tx : String → TransactionEntity → Bool
is_valid_order_tx order_id r = is_ref r.order order_id && not (r.status == invalid)

abbrev pub is_active_cold_storage_tx : String → TransactionEntity → Bool
is_active_cold_storage_tx chain r =
    r.type == cold_storage
    && not (r.status == invalid || r.status == TransactionStatus.completed)
    && r.chain == chain

abbrev pub is_active : TransactionEntity → Bool
is_active r =
    r.status == sent
    || r.status == signed
    || r.status == approved
    || r.status == sign_failed
    || r.status == in_sign

-- The row that `updateWithSignedTx` writes.
abbrev pub signed_row : ℕ → String → ℕ → TransactionEntity → TransactionEntity
signed_row now tx_json current_height r = record r {
  tx_json = tx_json;
  status = signed;
  last_status_update = some now;
  last_check = current_height;
}

module _ (db : Database) where
  abbrev pub write_transactions : Option db.transactions.Table → Action (Store db) (Unit {0})
  write_transactions none s = (err query_failed, s)
  write_transactions (some t) s = (ok tt, record s { transactions = t })

  abbrev pub write_events : Option db.events.Table → Action (Store db) (Unit {0})
  write_events none s = (err query_failed, s)
  write_events (some t) s = (ok tt, record s { events = t })

  abbrev pub write_orders : Option db.orders.Table → Action (Store db) (Unit {0})
  write_orders none s = (err query_failed, s)
  write_orders (some t) s = (ok tt, record s { orders = t })

  abbrev pub update_transactions :
      (TransactionEntity → Bool)
      → (TransactionEntity → TransactionEntity)
      → Action (Store db) (Unit {0})
  update_transactions p f s = write_transactions (db.transactions.update p f s.transactions) s

  abbrev pub update_events :
      (ConfirmedEventEntity → Bool)
      → (ConfirmedEventEntity → ConfirmedEventEntity)
      → Action (Store db) (Unit {0})
  update_events p f s = write_events (db.events.update p f s.events) s

  abbrev pub update_orders :
      (ArbitraryEntity → Bool) → (ArbitraryEntity → ArbitraryEntity) → Action (Store db) (Unit {0})
  update_orders p f s = write_orders (db.orders.update p f s.orders) s

  abbrev pub find_transactions : (TransactionEntity → Bool) → Store db → List TransactionEntity
  find_transactions p s = db.transactions.find p s.transactions

  unfoldable pub set_event_status : String → EventStatus → Bool → Action (Store db) (Unit {0})
  set_event_status event_id status increment_unexpected_fails =
      update_events (λ r. r.id == event_id)
        λ r.
          if increment_unexpected_fails
          then record r { status = status; unexpected_fails = r.unexpected_fails + 1 }
          else record r { status = status }

  unfoldable pub get_event_by_id : String → Store db → Option ConfirmedEventEntity
  get_event_by_id event_id s = first (db.events.find (λ r. r.id == event_id) s.events)

  unfoldable pub get_events_by_statuses : List EventStatus → Store db → List ConfirmedEventEntity
  get_events_by_statuses statuses s =
      db.events.find (λ r. any (λ status. r.status == status) statuses) s.events

  unfoldable pub get_waiting_events : Store db → List ConfirmedEventEntity
  get_waiting_events s =
      db.events.find (λ r. r.status == payment_waiting || r.status == reward_waiting) s.events

  unfoldable pub get_active_transactions : Store db → List TransactionEntity
  get_active_transactions = find_transactions is_active

  unfoldable pub set_tx_status : ℕ → String → TransactionStatus → Action (Store db) (Unit {0})
  set_tx_status now tx_id status =
      update_transactions (λ r. r.tx_id == tx_id)
        λ r. record r { status = status; last_status_update = some now }

  unfoldable pub set_tx_as_sign_failed : ℕ → String → Action (Store db) (Unit {0})
  set_tx_as_sign_failed now tx_id =
      update_transactions (λ r. r.tx_id == tx_id && r.status == in_sign)
        λ r. record r {
          status = sign_failed;
          last_status_update = some now;
          sign_failed_count = r.sign_failed_count + 1;
          failed_in_sign = true;
        }

  unfoldable pub update_tx_last_check : String → ℕ → Action (Store db) (Unit {0})
  update_tx_last_check tx_id current_height =
      update_transactions (λ r. r.tx_id == tx_id) λ r. record r { last_check = current_height }

  unfoldable pub set_event_status_to_pending :
      ℕ → String → EventStatus → Action (Store db) (Unit {0})
  set_event_status_to_pending now event_id status =
      update_events (λ r. r.id == event_id) λ r. record r { status = status; first_try = some now }

  unfoldable pub get_tx_by_id : String → Store db → Option TransactionEntity
  get_tx_by_id tx_id s = first (find_transactions (λ r. r.tx_id == tx_id) s)

  unfoldable pub update_with_signed_tx : ℕ → String → String → ℕ → Action (Store db) (Unit {0})
  update_with_signed_tx now tx_id tx_json current_height =
      update_transactions (λ r. r.tx_id == tx_id) (signed_row now tx_json current_height)

  -- The event with this id; the query raises if there is none.
  unfoldable pub get_event_valid_txs_by_type :
      String → TransactionType → Action (Store db) (List TransactionEntity)
  get_event_valid_txs_by_type event_id type s = elim (get_event_by_id event_id s) [
    | none ↦ (err not_found, s)
    | some event ↦ (ok (find_transactions (is_valid_event_tx event.id type) s), s)
  ]

  abbrev pub replaced : ℕ → PaymentTransaction → TransactionEntity → TransactionEntity
  replaced now tx r = record r {
    tx_id = tx.tx_id;
    tx_json = db.to_json tx;
    type = tx.tx_type;
    chain = tx.network;
    status = approved;
    last_status_update = some now;
    last_check = 0;
    failed_in_sign = false;
  }

  unfoldable pub replace_tx : ℕ → String → PaymentTransaction → Action (Store db) (Unit {0})
  replace_tx now previous_tx_id tx =
      update_transactions (λ r. r.tx_id == previous_tx_id) (replaced now tx)

  unfoldable pub reset_failed_in_sign : String → Action (Store db) (Unit {0})
  reset_failed_in_sign tx_id =
      update_transactions (λ r. r.tx_id == tx_id) λ r. record r { failed_in_sign = false }

  unfoldable pub update_required_sign : String → ℕ → Action (Store db) (Unit {0})
  update_required_sign tx_id required_sign =
      update_transactions (λ r. r.tx_id == tx_id) λ r. record r { required_sign = required_sign }

  abbrev pub new_tx :
      TransactionStatus
      → ℕ
      → PaymentTransaction
      → Option String
      → ℕ
      → Option String
      → TransactionEntity
  new_tx status now tx event required_sign order = record {
    tx_id = tx.tx_id;
    tx_json = db.to_json tx;
    type = tx.tx_type;
    chain = tx.network;
    status = status;
    last_check = 0;
    event = event;
    last_status_update = some now;
    failed_in_sign = false;
    sign_failed_count = 0;
    required_sign = required_sign;
    order = order;
  }

  abbrev pub insert_transaction : TransactionEntity → Action (Store db) (Unit {0})
  insert_transaction r s = write_transactions (db.transactions.insert r s.transactions) s

  unfoldable pub insert_new_tx :
      ℕ → PaymentTransaction → Option String → ℕ → Option String → Action (Store db) (Unit {0})
  insert_new_tx now tx event required_sign order =
      insert_transaction (new_tx approved now tx event required_sign order)

  unfoldable pub insert_completed_tx :
      ℕ → PaymentTransaction → Option String → ℕ → Option String → Action (Store db) (Unit {0})
  insert_completed_tx now tx event required_sign order =
      insert_transaction (new_tx TransactionStatus.completed now tx event required_sign order)

  -- `event_id` is the hash of the source transaction's id. `unexpectedFails` is 0 by default.
  unfoldable pub insert_confirmed_event : ℕ → String → EventData → Action (Store db) (Unit {0})
  insert_confirmed_event now event_id event_data s =
      write_events
        (db.events.insert
          (record {
            id = event_id;
            event_data = event_data;
            status = pending_payment;
            first_try = some now;
            unexpected_fails = 0;
          })
          s.events)
        s

  unfoldable pub get_active_cold_storage_txs_in_chain : String → Store db → List TransactionEntity
  get_active_cold_storage_txs_in_chain chain = find_transactions (is_active_cold_storage_tx chain)

  unfoldable pub get_unsigned_active_txs_in_chain : String → Store db → List TransactionEntity
  get_unsigned_active_txs_in_chain chain = find_transactions λ r.
      r.status == approved && r.chain == chain
      || r.status == in_sign && r.chain == chain
      || r.status == sign_failed && r.chain == chain

  unfoldable pub get_signed_active_txs_in_chain : String → Store db → List TransactionEntity
  get_signed_active_txs_in_chain chain =
      find_transactions
        λ r. r.status == signed && r.chain == chain || r.status == sent && r.chain == chain

  unfoldable pub get_unsigned_failed_sign_txs : Store db → List TransactionEntity
  get_unsigned_failed_sign_txs =
      find_transactions
        λ r. r.status == sign_failed && r.failed_in_sign || r.status == in_sign && r.failed_in_sign

  unfoldable pub get_orders_by_status : OrderStatus → Store db → List ArbitraryEntity
  get_orders_by_status status s = db.orders.find (λ r. r.status == status) s.orders

  unfoldable pub set_order_status :
      ℕ → String → OrderStatus → Bool → Bool → Action (Store db) (Unit {0})
  set_order_status now id status update_first_try increment_unexpected_fails =
      update_orders (λ r. r.id == id)
        λ r. record r {
          status = status;
          first_try = if update_first_try then some now else r.first_try;
          unexpected_fails =
              if increment_unexpected_fails then r.unexpected_fails + 1 else r.unexpected_fails;
        }

  unfoldable pub get_order_by_id : String → Store db → Option ArbitraryEntity
  get_order_by_id id s = first (db.orders.find (λ r. r.id == id) s.orders)

  unfoldable pub insert_new_order : ℕ → String → String → String → Action (Store db) (Unit {0})
  insert_new_order now id chain order_json s =
      write_orders
        (db.orders.insert
          (record {
            id = id;
            chain = chain;
            order_json = order_json;
            status = OrderStatus.pending;
            first_try = some now;
            unexpected_fails = 0;
          })
          s.orders)
        s

  unfoldable pub get_order_valid_txs : String → Store db → List TransactionEntity
  get_order_valid_txs id = find_transactions (is_valid_order_tx id)
