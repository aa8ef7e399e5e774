-- ===== src/Synchronization/Responses.antt =====
-- EventSynchronization of src/synchronization/EventSynchronization.ts, from the answers of the other
-- guards to the database: a response is verified and counted, and with enough of them its
-- transaction enters.
use ts_gaurd_service.Base.{
  ℕ, ◌-◌, Bool, true, false, Option, none, some, List, [], map, String, if◌then◌else◌, leb, ◌==◌,
  nat_eq, string_eq, Action, Result, ok, err, impossible_behavior, chain_failed, pure, raise,
  or_raise, attempt, ◌>>=◌, ◌>>◌, get, set, delete,
}
use ts_gaurd_service.Base.Results.{continue_with}
use ts_gaurd_service.Constants.{tx_status_eq, type_eq, payment, pending_reward}
use ts_gaurd_service.Database.Entities.{
  PaymentTransaction, EventData, TransactionEntity, ConfirmedEventEntity, Database, Store,
}
use ts_gaurd_service.Database.Actions.{
  get_event_by_id, get_tx_by_id, set_event_status_to_pending, insert_completed_tx,
}
use ts_gaurd_service.Transactions.{
  ConfirmationStatus, confirmed_enough, not_confirmed_enough, not_found,
}
use ts_gaurd_service.Event.{Bridge}
use ts_gaurd_service.Event.Creation.{create_event_payment_order}
use ts_gaurd_service.Synchronization.{
  ActiveSync, SyncMessage, sync_request, sync_response, Syncing, SyncChain, SyncGuard,
  assign_response, present, max_occurrence, in_store, change, process_sync_request,
}

module _ (db : Database) (bridge : Bridge) (guard : SyncGuard) where
  abbrev pub is_confirmed : ConfirmationStatus → Bool
  is_confirmed confirmed_enough = true
  is_confirmed not_confirmed_enough = false
  is_confirmed not_found = false

  abbrev pub verify_ordered : SyncChain → PaymentTransaction → Bool → Result Bool
  verify_ordered chain tx false = ok false
  verify_ordered chain tx true =
      continue_with (chain.get_tx_confirmation_status tx.tx_id tx.tx_type) λ status.
        if is_confirmed status then chain.verify_transaction_extra_conditions tx else ok false

  -- The conditions on the order and the confirmation, once the object is consistent.
  abbrev pub verify_consistent :
      SyncChain → PaymentTransaction → EventData → Bool → Store db → Result Bool
  verify_consistent chain tx event false s = ok false
  verify_consistent chain tx event true s =
      continue_with (bridge.get_event_fee_config event) λ fee_config.
        continue_with (chain.extract_transaction_order tx) λ tx_order.
          continue_with (create_event_payment_order db bridge event fee_config [] s)
            λ expected_order. verify_ordered chain tx (bridge.is_equal tx_order expected_order)

  abbrev pub verify_known :
      PaymentTransaction → Option ConfirmedEventEntity → Store db → Result Bool
  verify_known tx none s = err impossible_behavior
  verify_known tx (some entity) s =
      if tx.tx_type == payment
      then (continue_with (guard.get_chain tx.network) λ chain.
          continue_with (chain.verify_payment_transaction tx)
            λ consistent. verify_consistent chain tx entity.event_data consistent s)
      else ok false

  abbrev pub verify_active : PaymentTransaction → Option ActiveSync → Store db → Result Bool
  verify_active tx none s = ok false
  verify_active tx (some _) s = verify_known tx (get_event_by_id db tx.event_id s) s

  unfoldable pub verify_synchronization_response : PaymentTransaction → Syncing db → Result Bool
  verify_synchronization_response tx w =
      verify_active tx (get tx.event_id w.sync.active_sync_map) w.store

  abbrev pub finalize :
      PaymentTransaction
      → Option ConfirmedEventEntity
      → Option TransactionEntity
      → Action (Syncing db) (Unit {0})
  finalize tx none record_of = raise impossible_behavior
  finalize tx (some event) (some _) = raise impossible_behavior
  finalize tx (some event) none = do
    in_store db bridge guard
        (insert_completed_tx db bridge.now tx (some event.id) guard.required_sign none)
    in_store db bridge guard (set_event_status_to_pending db bridge.now tx.event_id pending_reward)
    change db bridge guard λ a. record a { active_sync_map = delete tx.event_id a.active_sync_map }

  unfoldable pub set_tx_as_approved : PaymentTransaction → Action (Syncing db) (Unit {0})
  set_tx_as_approved tx =
      attempt λ w.
        finalize tx (get_event_by_id db tx.event_id w.store) (get_tx_by_id db tx.tx_id w.store) w

  -- The greatest number of responses with one key.
  abbrev pub occurrences : List (Option PaymentTransaction) → ℕ
  occurrences responses =
      let keys = map guard.text_of (present responses) in max_occurrence keys keys

  -- The responses are changed in place.
  abbrev pub record_response : PaymentTransaction → ℕ → ActiveSync → Action (Syncing db) (Unit {0})
  record_response tx sender_index active = change db bridge guard λ a. record a {
    active_sync_map =
        set tx.event_id
          (record active { responses = assign_response sender_index tx active.responses })
          a.active_sync_map;
  }

  unfoldable pub count_response :
      PaymentTransaction → ℕ → Option ActiveSync → Action (Syncing db) (Unit {0})
  count_response tx sender_index none = pure tt
  count_response tx sender_index (some active) = do
    record_response tx sender_index active
    if leb (guard.required_sign - 1)
          (occurrences (assign_response sender_index tx active.responses))
        then set_tx_as_approved tx
        else pure tt

  abbrev pub respond_if : Bool → PaymentTransaction → ℕ → Action (Syncing db) (Unit {0})
  respond_if false tx sender_index w = (ok tt, w)
  respond_if true tx sender_index w =
      count_response tx sender_index (get tx.event_id w.sync.active_sync_map) w

  unfoldable pub process_sync_response : PaymentTransaction → ℕ → Action (Syncing db) (Unit {0})
  process_sync_response tx sender_index = do
    verified ← λ w. (verify_synchronization_response tx w, w)
    respond_if verified tx sender_index

  abbrev pub process_message_of : SyncMessage → ℕ → String → Action (Syncing db) (Unit {0})
  process_message_of (sync_request event_id _ timestamp) sender_index peer_id =
      process_sync_request db bridge guard event_id timestamp peer_id
  process_message_of (sync_response tx_json _ timestamp) sender_index peer_id = do
    tx ← or_raise (db.from_json tx_json) chain_failed
    process_sync_response tx sender_index

  unfoldable pub process_message : SyncMessage → ℕ → String → Action (Syncing db) (Unit {0})
  process_message m sender_index peer_id = attempt (process_message_of m sender_index peer_id)
