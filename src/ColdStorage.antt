-- ===== src/ColdStorage.antt =====
-- Cold storage: ColdStorage of src/coldStorage/ColdStorage.ts, which moves assets of a chain's lock
-- address above their high thresholds to the cold address, and `getWaitingEventsRequiredTokens` of
-- src/db/DatabaseHandler.ts. What the lock address holds, the thresholds and the
-- subtraction of assets are parameters.
pub mod Verifier
pub mod Bounds
use ts_gaurd_service.Base.{
  Bool, true, false, not, ◌&&◌, ◌||◌, Option, none, some, List, [], ◌∷◌, ◌++◌, map, String,
  if◌then◌else◌, ◌==◌, string_eq, any, first, select, Action, Result, ok, err, impossible_behavior,
  null_reference, chain_failed, pure, attempt, for_each, or_error,
}
use ts_gaurd_service.Base.Int.{ℤ, pos, ◌-ℤ◌, ltb_ℤ}
use ts_gaurd_service.Base.Results.{continue_with, ◌>>=◌, ◌>>◌, map_result}
use ts_gaurd_service.Constants.{
  TransactionType, EventStatus, event_status_eq, cold_storage, payment_waiting, reward_waiting,
}
use ts_gaurd_service.Database.Entities.{
  PaymentTransaction, TransactionEntity, ConfirmedEventEntity, Database, Store,
}
use ts_gaurd_service.Database.Actions.{
  get_events_by_statuses, get_active_cold_storage_txs_in_chain, get_unsigned_active_txs_in_chain,
  get_signed_active_txs_in_chain,
}
use ts_gaurd_service.Agreement.{Peer, add_transaction_to_queue}
use ts_gaurd_service.Agreement.Approve.{get_chain_pending_transactions}
use ts_gaurd_service.Order.{TokenInfo, AssetBalance, SinglePayment}
use ts_gaurd_service.Event.{Bridge, has_turn}
use ts_gaurd_service.Event.Creation.{parse_tx}

pub record Threshold : Type 0 where
  pub token_id : String
  pub low : ℤ
  pub high : ℤ

-- A chain's addresses and thresholds, and the generation of transactions for one order.
pub record ColdChain : Type 0 where
  pub cold_address : String
  pub native_token_id : String
  pub max_native_transfer : ℤ
  pub thresholds : List Threshold
  pub get_lock_address_assets : Result AssetBalance
  pub generate_multiple_transactions :
      TransactionType
      → List SinglePayment
      → List PaymentTransaction
      → List String
      → List String
      → Result (List PaymentTransaction)

pub record Vault : Type 0 where
  pub get_cold_chain : String → Result ColdChain
  pub subtract_asset_balance : AssetBalance → AssetBalance → Result AssetBalance

abbrev pub includes : String → List String → Bool
includes id = any λ x. x == id

-- `Set.add`
abbrev pub add_to_set : String → List String → List String
add_to_set id ids = if includes id ids then ids else ids ++ id ∷ []

abbrev pub find_token : String → List TokenInfo → Option TokenInfo
find_token id tokens = first (select (λ (token : TokenInfo). token.id == id) tokens)

abbrev pub threshold_of : String → List Threshold → Result Threshold
threshold_of id thresholds =
    or_error (first (select (λ (t : Threshold). t.token_id == id) thresholds)) null_reference

module _ (db : Database) (bridge : Bridge) (vault : Vault) where
  abbrev pub require : List String → List ConfirmedEventEntity → Result (List String)
  require ids [] = ok ids
  require ids (event ∷ events) =
      if event.status == payment_waiting
      then require
          (let target = add_to_set event.event_data.target_chain_token_id ids in
            if event.event_data.to_chain == bridge.configs.ergo_chain
            then add_to_set bridge.configs.emission_token_id target
            else target)
          events
      else continue_with
          (bridge.configs.get_ergo_token_id event.event_data.from_chain
            event.event_data.source_chain_token_id)
          λ id. require (add_to_set id (add_to_set bridge.configs.emission_token_id ids)) events

  unfoldable pub get_waiting_events_required_tokens : Store db → Result (List String)
  get_waiting_events_required_tokens s =
      require [] (get_events_by_statuses db (payment_waiting ∷ reward_waiting ∷ []) s)

  -- What is moved of the token of a threshold: the native amount, which is kept if it is another
  -- token's, and the token, if any.
  abbrev pub above_high : ℤ → Threshold → Option TokenInfo → List TokenInfo
  above_high native t none = []
  above_high native t (some balance) =
      if ltb_ℤ t.high balance.value
      then record { id = t.token_id; value = balance.value -ℤ t.low } ∷ []
      else []

  abbrev pub share :
      String → AssetBalance → List String → Threshold → ℤ → Result (ℤ × List TokenInfo)
  share chain_name locked forbidden t native =
      if includes t.token_id forbidden
      then ok (native, [])
      else continue_with (bridge.configs.is_native_token chain_name t.token_id) λ is_native. ok (
          if is_native
          then (
            if ltb_ℤ t.high locked.native_token then locked.native_token -ℤ t.low else native,
            [],
          )
          else (native, above_high native t (find_token t.token_id locked.tokens)))

  unfoldable pub transferring :
      String → AssetBalance → List String → List Threshold → ℤ → Result (ℤ × List TokenInfo)
  transferring chain_name locked forbidden [] native = ok (native, [])
  transferring chain_name locked forbidden (t ∷ ts) native =
      continue_with (share chain_name locked forbidden t native) λ one.
        continue_with (transferring chain_name locked forbidden ts one.0)
          λ rest. ok (rest.0, one.1 ++ rest.1)

  abbrev pub max_bigint : ℤ → ℤ → ℤ
  max_bigint a b = if ltb_ℤ b a then a else b

  abbrev pub is_nil : List TokenInfo → Bool
  is_nil [] = true
  is_nil (_ ∷ _) = false

  unfoldable pub generate_cold_storage_transaction :
      AssetBalance → ColdChain → String → Peer db → Result (List PaymentTransaction)
  generate_cold_storage_transaction assets chain chain_name w = do
    data_inputs ←
        if chain_name == bridge.configs.ergo_chain
        then (do guards_config_box ← bridge.ergo.get_guards_config_box; ok (guards_config_box ∷ []))
        else ok []
    unsigned ←
        map_result (parse_tx db bridge) (get_unsigned_active_txs_in_chain db chain_name w.store)
    signed ← map_result (parse_tx db bridge) (get_signed_active_txs_in_chain db chain_name w.store)
    chain.generate_multiple_transactions cold_storage
        (record { address = chain.cold_address; assets = assets; extra = none } ∷ [])
        (get_chain_pending_transactions chain_name w.agreement ++ unsigned)
        (map (λ (tx : PaymentTransaction). tx.tx_bytes) signed) data_inputs

  -- The transactions to queue, or none where nothing is above its threshold.
  unfoldable pub cold_storage_transactions : String → Peer db → Result (List PaymentTransaction)
  cold_storage_transactions chain_name w = do
    chain ← bridge.get_chain chain_name
    cold ← vault.get_cold_chain chain_name
    locked ← cold.get_lock_address_assets
    forbidden ← get_waiting_events_required_tokens w.store
    moved ← transferring chain_name locked forbidden cold.thresholds (pos 0)
    if ltb_ℤ (pos 0) moved.0 || not (is_nil moved.1)
        then generate_cold_storage_transaction
            (record {
              native_token = max_bigint moved.0 (pos chain.get_minimum_native_token);
              tokens = moved.1;
            })
            cold chain_name w
        else ok []

  abbrev pub queue_all : String → Result (List PaymentTransaction) → Action (Peer db) (Unit {0})
  queue_all chain_name (err e) = pure tt
  queue_all chain_name (ok txs) =
      if has_turn bridge (bridge.time_after chain_name)
      then for_each txs add_transaction_to_queue
      else pure tt

  unfoldable pub process_chain : String → List TransactionEntity → Action (Peer db) (Unit {0})
  process_chain chain_name [] w = queue_all chain_name (cold_storage_transactions chain_name w) w
  process_chain chain_name (_ ∷ _) w = (ok tt, w)

  unfoldable pub chain_cold_storage_process : String → Action (Peer db) (Unit {0})
  chain_cold_storage_process chain_name w =
      if has_turn bridge (bridge.time_before chain_name)
      then process_chain chain_name (get_active_cold_storage_txs_in_chain db chain_name w.store) w
      else (ok tt, w)
