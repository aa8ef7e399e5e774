-- ===== src/Event.antt =====
-- The events of the bridge (src/event/): what the service knows of the chains while it processes
-- one, and the boxes of an event (EventBoxes.ts). The chains, the commitments that the watchers'
-- extractor stores, and the hashes are arguments.
pub mod Creation
pub mod Processor
use ts_gaurd_service.Base.{
  ℕ, ◌+◌, ◌-◌, Bool, true, false, not, ◌&&◌, Option, none, some, List, [], ◌∷◌, map, String,
  if◌then◌else◌, ltb, leb, ◌==◌, nat_eq, string_eq, any, select, length, Result, ok, err, not_found,
  chain_failed, or_error,
}
use ts_gaurd_service.Base.Results.{continue_with, ◌>>=◌, ◌>>◌}
use ts_gaurd_service.Constants.{TransactionType}
use ts_gaurd_service.Database.Entities.{
  PaymentTransaction, EventData, ConfirmedEventEntity, Database, Store,
}
use ts_gaurd_service.Database.Actions.{get_event_by_id}
use ts_gaurd_service.Turn.{guard_turn}
use ts_gaurd_service.Order.{SinglePayment, FeeConfig, OrderConfigs, quotient}

pub record CommitmentEntity : Type 0 where
  pub event_id : String
  pub wid : String
  pub height : ℕ
  pub spend_block : Option String
  pub rwt_count : Option ℕ
  pub commitment : String
  pub box_serialized : String

-- What is asked of a chain. A transaction is generated from its order, the unsigned and the signed
-- transactions in progress, and, on Ergo, the boxes that it spends and reads.
pub record BridgeChain : Type 0 where
  pub get_minimum_native_token : ℕ
  pub get_rwt_token : String
  pub is_confirmed_enough : String → Result Bool
  pub verify_event : EventData → FeeConfig → Result Bool
  pub extract_transaction_order : PaymentTransaction → Result (List SinglePayment)
  pub generate_transaction :
      String
      → TransactionType
      → List SinglePayment
      → List PaymentTransaction
      → List String
      → List String
      → List String
      → Result PaymentTransaction

-- What is asked of Ergo besides.
pub record ErgoBoxes : Type 0 where
  pub get_height : Result ℕ
  pub get_box_rwt : String → Result ℕ
  pub get_box_native_token : String → Result ℕ
  pub get_box_wid : String → Result String
  pub verify_event_rwt : String → String → Result Bool
  pub get_guards_config_box : Result String

-- `time_before` and `time_after` are the times at which the turn is looked up for an event or
-- order: before it is processed, and when its transaction is created.
pub record Bridge : Type 0 where
  pub configs : OrderConfigs
  pub now : ℕ
  pub time_before : String → ℕ
  pub time_after : String → ℕ
  pub guards_len : ℕ
  pub guard_id : ℕ
  pub event_timeout : ℕ
  pub order_timeout : ℕ
  pub event_confirmation : ℕ
  pub get_chain : String → Result BridgeChain
  pub ergo : ErgoBoxes
  pub get_event_fee_config : EventData → Result FeeConfig
  pub tx_id_to_event_id : String → String
  pub decode_box : String → String
  pub commitments : List CommitmentEntity
  pub get_event_commitments : String → List CommitmentEntity
  pub wids_hash : List String → String
  pub commitment_from_event : EventData → String → String
  pub is_equal : List SinglePayment → List SinglePayment → Bool
  pub decode_order : String → Result (List SinglePayment)
  pub encode_order : List SinglePayment → String

-- The first of the entries with the same WID.
abbrev pub uniq_by_wid : List String → List CommitmentEntity → List CommitmentEntity
uniq_by_wid seen [] = []
uniq_by_wid seen (c ∷ cs) =
    let rest = uniq_by_wid (c.wid ∷ seen) cs in
    if any (λ wid. wid == c.wid) seen then rest else c ∷ rest

abbrev pub is_own : ℕ → Option ℕ → Bool
is_own guard_id none = false
is_own guard_id (some turn) = turn == guard_id

module _ (bridge : Bridge) where
  abbrev pub is_unspent : Option String → Bool
  is_unspent none = true
  is_unspent (some _) = false

  -- `getValidCommitments`
  abbrev pub get_valid_commitments : String → ℕ → List CommitmentEntity
  get_valid_commitments event_id event_box_height =
      select
        (λ (c : CommitmentEntity).
          c.event_id == event_id && (ltb c.height event_box_height && is_unspent c.spend_block))
        bridge.commitments

  abbrev pub has_count : ℕ → Option ℕ → Bool
  has_count n none = false
  has_count n (some m) = m == n

  abbrev pub get_id : EventData → String
  get_id event = bridge.tx_id_to_event_id event.source_tx_id

  -- `GuardTurn.guardTurn() === guardId`
  abbrev pub has_turn : ℕ → Bool
  has_turn now = is_own bridge.guard_id (guard_turn bridge.guards_len now)

module _ (db : Database) (bridge : Bridge) where
  abbrev pub data_of : Option ConfirmedEventEntity → Result EventData
  data_of none = err not_found
  data_of (some r) = ok r.event_data

  abbrev pub get_event_box : EventData → Store db → Result String
  get_event_box event s = do
    event_data ← data_of (get_event_by_id db (get_id bridge event) s)
    ok (bridge.decode_box event_data.box_serialized)

  abbrev pub is_valid_commitment : EventData → ℕ → List String → CommitmentEntity → Bool
  is_valid_commitment event event_rwt_count event_wids c =
      not (any (λ wid. wid == c.wid) event_wids)
      && (has_count bridge event_rwt_count c.rwt_count
          && bridge.commitment_from_event event c.wid == c.commitment)

  abbrev pub get_event_valid_commitments :
      EventData → ℕ → List String → Store db → Result (List String)
  get_event_valid_commitments event event_rwt_count event_wids s = do
    event_data ← data_of (get_event_by_id db (get_id bridge event) s)
    ok (
        map (λ (c : CommitmentEntity). bridge.decode_box c.box_serialized)
          (select (is_valid_commitment event event_rwt_count event_wids) (
            uniq_by_wid [] (get_valid_commitments bridge (get_id bridge event) event_data.height))))

  abbrev pub get_event_wids : EventData → Result (List String)
  get_event_wids event =
      let event_wids =
        map (λ (c : CommitmentEntity). c.wid)
          (bridge.get_event_commitments (get_id bridge event)) in
      if bridge.wids_hash event_wids == event.wids_hash && length event_wids == event.wids_count
      then ok event_wids
      else err chain_failed

  -- `isEventConfirmedEnough`, with the subtraction moved to the other side
  unfoldable pub is_event_confirmed_enough : EventData → Result Bool
  is_event_confirmed_enough event = do
    ergo_current_height ← bridge.ergo.get_height
    if ltb ergo_current_height (bridge.event_confirmation + event.height) then ok false else (do
      source_chain ← bridge.get_chain event.from_chain
      source_chain.is_confirmed_enough event.source_tx_id)

  unfoldable pub verify_event : EventData → FeeConfig → Store db → Result Bool
  verify_event event fee_config s = do
    event_box ← get_event_box event s
    from_chain ← bridge.get_chain event.from_chain
    valid ← from_chain.verify_event event fee_config
    if valid then bridge.ergo.verify_event_rwt event_box from_chain.get_rwt_token else ok false
