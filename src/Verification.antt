-- ===== src/Verification.antt =====
-- RequestVerifier of src/verification/RequestVerifier.ts, with the common conditions of
-- TransactionVerifier.ts and `isEventPendingToType` of EventVerifier.ts: whether a transaction that
-- another guard proposes may be agreed to. What it asks of the chains is an argument, and so is the
-- verification of events and orders against them, which Chains fills. That an event whose reward comes too early is
-- queued for synchronization is left out.
pub mod Requests
pub mod Chains
use ts_gaurd_service.Base.{
  ◌≡◌, Bool, true, false, not, ◌&&◌, Option, none, some, List, [], ◌∷◌, String, if◌then◌else◌, ◌==◌,
  string_eq, arith, Action, Result, ok, err, pure, lift, ◌>>=◌, ◌>>◌,
}
use ts_gaurd_service.Constants.{
  TransactionType, EventStatus, OrderStatus, event_status_eq, order_status_eq, rejected,
  pending_payment, pending_reward, payment, reward, cold_storage, manual, arbitrary, other,
}
use ts_gaurd_service.Database.Entities.{
  PaymentTransaction, EventData, TransactionEntity, ConfirmedEventEntity, ArbitraryEntity, Database,
  Store,
}
use ts_gaurd_service.Database.Actions.{
  get_event_by_id, get_order_by_id, get_event_valid_txs_by_type, get_order_valid_txs,
  set_event_status,
}

-- What a chain says of an unsigned transaction.
pub record ChainChecks : Type 0 where
  pub verify_payment_transaction : PaymentTransaction → Result Bool
  pub verify_transaction_fee : PaymentTransaction → Result Bool
  pub verify_no_token_burned : PaymentTransaction → Result Bool
  pub verify_transaction_extra_conditions : PaymentTransaction → Result Bool

-- An event is verified with the fee configuration of its token.
pub record Checks (db : Database) : Type 0 where
  pub ergo_chain : String
  pub get_chain : String → Result ChainChecks
  pub is_event_confirmed_enough : EventData → Result Bool
  pub verify_event : EventData → Store db → Result Bool
  pub verify_event_transaction : PaymentTransaction → EventData → Store db → Result Bool
  pub verify_cold_storage_transaction : PaymentTransaction → Store db → Result Bool
  pub verify_arbitrary_transaction : PaymentTransaction → String → Result Bool

-- The next condition, once one is met.
abbrev pub and_also : Result Bool → Result Bool → Result Bool
and_also (ok true) next = next
and_also (ok false) next = ok false
and_also (err e) next = err e

abbrev pub is_event_pending_to_type : ConfirmedEventEntity → TransactionType → Bool
is_event_pending_to_type entity payment = entity.status == pending_payment
is_event_pending_to_type entity reward = entity.status == pending_reward
is_event_pending_to_type entity _ = false

-- The event's valid transactions of the type leave room for this one.
abbrev pub may_enter : ConfirmedEventEntity → PaymentTransaction → List TransactionEntity → Bool
may_enter entity tx [] = is_event_pending_to_type entity tx.tx_type
may_enter entity tx (active ∷ _) = active.tx_id == tx.tx_id

abbrev pub may_enter_order : ArbitraryEntity → PaymentTransaction → List TransactionEntity → Bool
may_enter_order order tx [] = order.status == OrderStatus.pending
may_enter_order order tx (active ∷ _) = active.tx_id == tx.tx_id

module _ (db : Database) (checks : Checks db) where
  abbrev pub verify_common : Result ChainChecks → PaymentTransaction → Result Bool
  verify_common (err e) tx = err e
  verify_common (ok chain) tx = and_also (chain.verify_payment_transaction tx) (
      and_also (chain.verify_transaction_fee tx)
        (and_also (chain.verify_no_token_burned tx) (chain.verify_transaction_extra_conditions tx)))

  pub verify_tx_common_conditions : PaymentTransaction → Result Bool
  verify_tx_common_conditions tx = verify_common (checks.get_chain tx.network) tx

  -- Payments are made on the event's target chain, and rewards on Ergo.
  abbrev pub is_compatible : TransactionType → PaymentTransaction → EventData → Bool
  is_compatible payment tx event = tx.network == event.to_chain
  is_compatible reward tx event = tx.network == checks.ergo_chain
  is_compatible _ tx event = false

  unfoldable pub verify_among : ConfirmedEventEntity → PaymentTransaction → Action (Store db) Bool
  verify_among entity tx = do
    event_txs ← get_event_valid_txs_by_type db tx.event_id tx.tx_type
    if may_enter entity tx event_txs
        then (λ s. (checks.verify_event_transaction tx entity.event_data s, s))
        else pure false

  -- An event that does not verify is rejected.
  unfoldable pub verify_confirmed :
      ConfirmedEventEntity → PaymentTransaction → Action (Store db) Bool
  verify_confirmed entity tx = do
    verified ← λ s. (checks.verify_event entity.event_data s, s)
    if verified
        then verify_among entity tx
        else (do set_event_status db tx.event_id rejected false; pure false)

  unfoldable pub verify_for_event :
      Option ConfirmedEventEntity → PaymentTransaction → Action (Store db) Bool
  verify_for_event none tx = pure false
  verify_for_event (some entity) tx =
      if is_compatible tx.tx_type tx entity.event_data
      then (do
        confirmed ← lift (checks.is_event_confirmed_enough entity.event_data)
        if confirmed then verify_confirmed entity tx else pure false)
      else pure false

  unfoldable pub verify_event_transaction_request : PaymentTransaction → Action (Store db) Bool
  verify_event_transaction_request tx s = verify_for_event (get_event_by_id db tx.event_id s) tx s

  pub verify_cold_storage_transaction_request : PaymentTransaction → Store db → Result Bool
  verify_cold_storage_transaction_request tx s =
      if tx.event_id == "" then checks.verify_cold_storage_transaction tx s else ok false

  abbrev pub verify_for_order :
      Option ArbitraryEntity → List TransactionEntity → PaymentTransaction → Result Bool
  verify_for_order none order_txs tx = ok false
  verify_for_order (some order) order_txs tx =
      if tx.network == order.chain && may_enter_order order tx order_txs
      then checks.verify_arbitrary_transaction tx order.order_json
      else ok false

  pub verify_arbitrary_transaction_request : PaymentTransaction → Store db → Result Bool
  verify_arbitrary_transaction_request tx s =
      verify_for_order (get_order_by_id db tx.event_id s) (get_order_valid_txs db tx.event_id s) tx
