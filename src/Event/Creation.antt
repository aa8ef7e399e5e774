-- ===== src/Event/Creation.antt =====
-- The orders and transactions of an event: `createEventPaymentOrder` and `createEventRewardOrder` of
-- src/event/EventOrder.ts, `createEventPayment` and `createEventRewardDistribution` of
-- src/event/EventProcessor.ts, `createOrderPayment` of src/arbitrary/ArbitraryProcessor.ts, and `verifyEventTransaction` of src/verification/TransactionVerifier.ts.
use ts_gaurd_service.Base.{
  Bool, List, [], ◌∷◌, ◌++◌, map, String, if◌then◌else◌, ◌==◌, nat_eq, string_eq, Result, ok, err,
  chain_failed, impossible_behavior, or_error,
}
use ts_gaurd_service.Base.Results.{◌>>=◌, map_result}
use ts_gaurd_service.Constants.{TransactionType, payment, reward, arbitrary}
use ts_gaurd_service.Database.Entities.{
  PaymentTransaction, EventData, TransactionEntity, Database, Store,
}
use ts_gaurd_service.Database.Actions.{
  get_unsigned_active_txs_in_chain, get_signed_active_txs_in_chain, get_event_valid_txs_by_type,
}
use ts_gaurd_service.Agreement.{Peer}
use ts_gaurd_service.Agreement.Approve.{get_chain_pending_transactions}
use ts_gaurd_service.Order.{
  SinglePayment, PermitBoxValue, RewardOrder, FeeConfig, quotient, event_single_payment,
  event_reward_order,
}
use ts_gaurd_service.Event.{
  Bridge, BridgeChain, CommitmentEntity, get_id, get_event_box, get_event_valid_commitments,
  get_event_wids,
}

module _ (db : Database) (bridge : Bridge) where
  -- The WID and the ERG of a commitment box.
  abbrev pub permit_box : String → Result PermitBoxValue
  permit_box commitment = do
    wid ← bridge.ergo.get_box_wid commitment
    box_value ← bridge.ergo.get_box_native_token commitment
    ok (record { wid = wid; box_value = box_value })

  -- The reward order of an event, whose boxes are looked up.
  unfoldable pub reward_order_of :
      EventData → FeeConfig → String → List String → Store db → Result RewardOrder
  reward_order_of event fee_config payment_tx_id event_wids s = do
    event_box ← get_event_box db bridge event s
    from_chain ← bridge.get_chain event.from_chain
    box_rwt ← bridge.ergo.get_box_rwt event_box
    rwt_count ← quotient box_rwt event.wids_count
    box_value ← bridge.ergo.get_box_native_token event_box
    permit_value ← quotient box_value event.wids_count
    commitment_boxes ← get_event_valid_commitments db bridge event rwt_count event_wids s
    permits ← map_result permit_box commitment_boxes
    event_reward_order bridge.configs event permits fee_config payment_tx_id
        from_chain.get_rwt_token rwt_count permit_value event_wids

  abbrev pub no_reward : RewardOrder
  no_reward = record { watchers_order = []; guards_order = [] }

  -- A payment on Ergo distributes the rewards too.
  unfoldable pub create_event_payment_order :
      EventData → FeeConfig → List String → Store db → Result (List SinglePayment)
  create_event_payment_order event fee_config event_wids s = do
    target_chain ← bridge.get_chain event.to_chain
    order ←
        if event.to_chain == bridge.configs.ergo_chain
        then reward_order_of event fee_config "" event_wids s
        else ok no_reward
    payment_record ←
        event_single_payment bridge.configs event target_chain.get_minimum_native_token fee_config
    ok (order.watchers_order ++ payment_record ∷ order.guards_order)

  unfoldable pub create_event_reward_order :
      EventData → FeeConfig → String → List String → Store db → Result (List SinglePayment)
  create_event_reward_order event fee_config payment_tx_id event_wids s = do
    order ← reward_order_of event fee_config payment_tx_id event_wids s
    ok (order.watchers_order ++ order.guards_order)

  abbrev pub parse_tx : TransactionEntity → Result PaymentTransaction
  parse_tx r = or_error (db.from_json r.tx_json) chain_failed

  -- The transactions in progress on a chain, unsigned and signed, and then the new transaction.
  abbrev pub generate :
      BridgeChain
      → String
      → String
      → TransactionType
      → List SinglePayment
      → List String
      → List String
      → Peer db
      → Result PaymentTransaction
  generate chain chain_name event_id type order inputs data_inputs w = do
    unsigned ← map_result parse_tx (get_unsigned_active_txs_in_chain db chain_name w.store)
    signed ← map_result parse_tx (get_signed_active_txs_in_chain db chain_name w.store)
    chain.generate_transaction event_id type order
        (get_chain_pending_transactions chain_name w.agreement ++ unsigned)
        (map (λ (tx : PaymentTransaction). tx.tx_bytes) signed) inputs data_inputs

  -- The boxes of the event, its commitments, and the guards' configuration, with the WIDs.
  abbrev pub reward_boxes : EventData → Store db → Result (List String × List String × List String)
  reward_boxes event s = do
    event_box ← get_event_box db bridge event s
    box_rwt ← bridge.ergo.get_box_rwt event_box
    rwt_count ← quotient box_rwt event.wids_count
    event_wids ← get_event_wids db bridge event
    commitment_boxes ← get_event_valid_commitments db bridge event rwt_count event_wids s
    guards_config_box ← bridge.ergo.get_guards_config_box
    ok (event_wids, event_box ∷ commitment_boxes, guards_config_box ∷ [])

  unfoldable pub create_event_payment : EventData → FeeConfig → Peer db → Result PaymentTransaction
  create_event_payment event fee_config w = do
    target_chain ← bridge.get_chain event.to_chain
    boxes ←
        if event.to_chain == bridge.configs.ergo_chain
        then reward_boxes event w.store
        else ok ([], [], [])
    order ← create_event_payment_order event fee_config boxes.0 w.store
    generate target_chain event.to_chain (get_id bridge event) payment order boxes.1 boxes.2 w

  unfoldable pub create_event_reward_distribution :
      EventData → FeeConfig → String → Peer db → Result PaymentTransaction
  create_event_reward_distribution event fee_config payment_tx_id w = do
    ergo_chain ← bridge.get_chain bridge.configs.ergo_chain
    boxes ← reward_boxes event w.store
    order ← create_event_reward_order event fee_config payment_tx_id boxes.0 w.store
    generate ergo_chain bridge.configs.ergo_chain (get_id bridge event) reward order boxes.1 boxes.2
        w

  -- The one payment that is recorded for the event.
  abbrev pub the_payment : List TransactionEntity → Result String
  the_payment (tx ∷ []) = ok tx.tx_id
  the_payment [] = err impossible_behavior
  the_payment (_ ∷ _ ∷ _) = err impossible_behavior

  -- The order that is expected of an event's transaction.
  abbrev pub expected_order :
      TransactionType
      → PaymentTransaction
      → EventData
      → FeeConfig
      → List String
      → Store db
      → Result (List SinglePayment)
  expected_order payment tx event fee_config event_wids s =
      create_event_payment_order event fee_config event_wids s
  expected_order _ tx event fee_config event_wids s = do
    event_txs ← (get_event_valid_txs_by_type db tx.event_id payment s).0
    payment_tx_id ← the_payment event_txs
    create_event_reward_order event fee_config payment_tx_id event_wids s

  unfoldable pub verify_event_transaction : PaymentTransaction → EventData → Store db → Result Bool
  verify_event_transaction tx event s = do
    chain ← bridge.get_chain tx.network
    fee_config ← bridge.get_event_fee_config event
    tx_order ← chain.extract_transaction_order tx
    expected ←
        expected_order tx.tx_type tx event fee_config
          (map (λ (c : CommitmentEntity). c.wid) (bridge.get_event_commitments tx.event_id)) s
    ok (bridge.is_equal tx_order expected)

  -- A list of boxes is passed on Ergo only.
  unfoldable pub create_order_payment :
      String → List SinglePayment → String → Peer db → Result PaymentTransaction
  create_order_payment order_id order chain_name w = do
    target_chain ← bridge.get_chain chain_name
    data_inputs ←
        if chain_name == bridge.configs.ergo_chain
        then (do guards_config_box ← bridge.ergo.get_guards_config_box; ok (guards_config_box ∷ []))
        else ok []
    generate target_chain chain_name order_id arbitrary order [] data_inputs w

  -- The orders are compared as they are read from their text form.
  unfoldable pub verify_arbitrary_transaction : PaymentTransaction → String → Result Bool
  verify_arbitrary_transaction tx order_json = do
    chain ← bridge.get_chain tx.network
    expected_order ← bridge.decode_order order_json
    extracted ← chain.extract_transaction_order tx
    tx_order ← bridge.decode_order (bridge.encode_order extracted)
    ok (bridge.is_equal tx_order expected_order)
