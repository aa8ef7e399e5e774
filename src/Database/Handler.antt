-- ===== src/Database/Handler.antt =====
-- DatabaseHandler of src/db/DatabaseHandler.ts: how approved transactions and orders enter the
-- database. A call of `insert_tx` is one step: it holds `txSignSemaphore` throughout.
pub mod Keeps
pub mod Standing
pub mod Approvals
pub mod Guards
use ts_gaurd_service.Base.{
  ℕ, Bool, true, false, Option, none, some, List, [], ◌∷◌, String, if◌then◌else◌, ◌==◌, string_eq,
  any, ltb_text, Action, not_found, impossible_behavior, duplicate_transaction, duplicate_order,
  pure, raise, gets, or_raise, ◌>>=◌, ◌>>◌,
}
use ts_gaurd_service.Constants.{
  TransactionType, tx_status_eq, approved, payment, reward, cold_storage, manual, arbitrary, other,
}
use ts_gaurd_service.Database.Entities.{PaymentTransaction, TransactionEntity, Database, Store}
use ts_gaurd_service.Database.Actions.{
  get_event_by_id, get_order_by_id, get_tx_by_id, get_event_valid_txs_by_type, get_order_valid_txs,
  get_active_cold_storage_txs_in_chain, reset_failed_in_sign, replace_tx, insert_new_tx,
  update_required_sign, insert_new_order,
}

module _ (db : Database) (now : ℕ) where
  -- The new transaction meets the valid transactions of its event or order.
  unfoldable pub resolve_tx :
      PaymentTransaction
      → Option String
      → Option String
      → ℕ
      → List TransactionEntity
      → Action (Store db) (Unit {0})
  resolve_tx new_tx event order required_sign [] =
      insert_new_tx db now new_tx event required_sign order
  resolve_tx new_tx event order required_sign (tx ∷ []) =
      if tx.tx_id == new_tx.tx_id
      then reset_failed_in_sign db tx.tx_id
      else if tx.status == approved
      then (if ltb_text new_tx.tx_id tx.tx_id then replace_tx db now tx.tx_id new_tx else pure tt)
      else pure tt
  resolve_tx new_tx event order required_sign (_ ∷ _ ∷ _) = raise impossible_behavior

  -- Of the event and the order at most one is given.
  unfoldable pub insert_event_or_order_tx :
      PaymentTransaction → Option String → Option String → ℕ → Action (Store db) (Unit {0})
  unfolding resolve_tx
  insert_event_or_order_tx new_tx (some event) order required_sign = do
    txs ← get_event_valid_txs_by_type db event new_tx.tx_type
    resolve_tx new_tx (some event) order required_sign txs
  insert_event_or_order_tx new_tx none (some order) required_sign = do
    txs ← gets (get_order_valid_txs db order)
    resolve_tx new_tx none (some order) required_sign txs
  insert_event_or_order_tx new_tx none none required_sign = raise impossible_behavior

  unfoldable pub insert_cold_storage_tx : PaymentTransaction → ℕ → Action (Store db) (Unit {0})
  insert_cold_storage_tx new_tx required_sign = do
    txs ← gets (get_active_cold_storage_txs_in_chain db new_tx.network)
    if any (λ (tx : TransactionEntity). tx.tx_id == new_tx.tx_id) txs
        then reset_failed_in_sign db new_tx.tx_id
        else insert_new_tx db now new_tx none required_sign none

  insert_manual_tx : PaymentTransaction → ℕ → Bool → Action (Store db) (Unit {0})
  insert_manual_tx new_tx required_sign overwrite = do
    txs ← gets (get_tx_by_id db new_tx.tx_id)
    elim txs [
      | none ↦ insert_new_tx db now new_tx none required_sign none
      | some _ ↦
          if overwrite
          then update_required_sign db new_tx.tx_id required_sign
          else raise duplicate_transaction
    ]

  unfoldable pub insert_tx_of_type :
      TransactionType → PaymentTransaction → ℕ → Bool → Action (Store db) (Unit {0})
  unfolding insert_event_or_order_tx insert_cold_storage_tx insert_manual_tx
  insert_tx_of_type payment new_tx required_sign overwrite = do
    event ← gets (get_event_by_id db new_tx.event_id)
    event ← or_raise event not_found
    insert_event_or_order_tx new_tx (some event.id) none required_sign
  insert_tx_of_type reward new_tx required_sign overwrite = do
    event ← gets (get_event_by_id db new_tx.event_id)
    event ← or_raise event not_found
    insert_event_or_order_tx new_tx (some event.id) none required_sign
  insert_tx_of_type manual new_tx required_sign overwrite =
      insert_manual_tx new_tx required_sign overwrite
  insert_tx_of_type cold_storage new_tx required_sign overwrite =
      insert_cold_storage_tx new_tx required_sign
  insert_tx_of_type arbitrary new_tx required_sign overwrite = do
    order ← gets (get_order_by_id db new_tx.event_id)
    order ← or_raise order not_found
    insert_event_or_order_tx new_tx none (some order.id) required_sign
  insert_tx_of_type other new_tx required_sign overwrite = pure tt

  unfoldable pub insert_tx : PaymentTransaction → ℕ → Bool → Action (Store db) (Unit {0})
  unfolding insert_tx_of_type
  insert_tx new_tx required_sign overwrite =
      insert_tx_of_type new_tx.tx_type new_tx required_sign overwrite

  pub insert_order : String → String → String → Action (Store db) (Unit {0})
  insert_order id chain order_json = do
    order ← gets (get_order_by_id db id)
    elim order [
      | none ↦ insert_new_order db now id chain order_json
      | some _ ↦ raise duplicate_order
    ]
