-- ===== src/ColdStorage/Verifier.antt =====
-- `verifyColdStorageTransaction` of src/verification/TransactionVerifier.ts.
use ts_gaurd_service.Base.{
  Bool, true, false, not, ◌&&◌, ◌||◌, Option, none, some, List, [], ◌∷◌, map, String, if◌then◌else◌,
  ◌==◌, string_eq, any, Result, ok, err, impossible_behavior, null_reference,
}
use ts_gaurd_service.Base.Int.{ℤ, ltb_ℤ}
use ts_gaurd_service.Base.Results.{continue_with, ◌>>=◌}
use ts_gaurd_service.Database.Entities.{PaymentTransaction, TransactionEntity, Database, Store}
use ts_gaurd_service.Database.Actions.{get_active_cold_storage_txs_in_chain}
use ts_gaurd_service.Order.{TokenInfo, AssetBalance, SinglePayment}
use ts_gaurd_service.Event.{Bridge, BridgeChain}
use ts_gaurd_service.Event.Creation.{parse_tx}
use ts_gaurd_service.ColdStorage.{
  Threshold, ColdChain, Vault, includes, find_token, threshold_of,
  get_waiting_events_required_tokens,
}

-- An amount is neither above the high threshold nor below the low one.
abbrev pub is_within : Threshold → ℤ → Bool
is_within t value = not (ltb_ℤ t.high value || ltb_ℤ value t.low)

abbrev pub moves_any : List String → List TokenInfo → Bool
moves_any ids = any λ token. includes token.id ids

-- `order[0]`
abbrev pub first_payment : List SinglePayment → Result SinglePayment
first_payment [] = err null_reference
first_payment (p ∷ _) = ok p

-- What a token test makes of the tests that follow: `none` ends the verification, and otherwise
-- the flag says whether a transfer is required.
abbrev pub next_token : Bool → Result (Option Bool) → Result (Option Bool)
next_token false rest = ok none
next_token true rest = rest

-- An active transaction that moves the same assets ends the verification.
abbrev pub next_active : Bool → Result Bool → Result Bool
next_active true rest = ok false
next_active false rest = rest

module _ (cold : ColdChain) (locked remaining : AssetBalance) where
  abbrev pub is_kept : Threshold → Option TokenInfo → Bool
  is_kept t none = false
  is_kept t (some token) = is_within t token.value

  abbrev pub check_balance : Threshold → TokenInfo → Bool
  check_balance t balance =
      if ltb_ℤ t.high balance.value
      then is_kept t (find_token balance.id remaining.tokens)
      else false

  abbrev pub check_found : String → Option TokenInfo → Result Bool
  check_found id none = err impossible_behavior
  check_found id (some balance) =
      continue_with (threshold_of id cold.thresholds) λ t. ok (check_balance t balance)

  abbrev pub check_token : TokenInfo → Result Bool
  check_token token = check_found token.id (find_token token.id locked.tokens)

  unfoldable pub verify_tokens : Bool → List TokenInfo → Result (Option Bool)
  verify_tokens required [] = ok (some required)
  verify_tokens required (token ∷ tokens) =
      continue_with (check_token token) λ passes. next_token passes (verify_tokens true tokens)

  abbrev pub is_native_above : List String → Result Bool
  is_native_above forbidden =
      if includes cold.native_token_id forbidden
      then ok false
      else continue_with (threshold_of cold.native_token_id cold.thresholds)
          λ t. ok (ltb_ℤ t.high locked.native_token)

  abbrev pub check_native : ℤ → Bool → Bool → Result Bool
  check_native native required true =
      continue_with (threshold_of cold.native_token_id cold.thresholds)
        λ t. ok (is_within t remaining.native_token)
  check_native native required false = ok (required && not (ltb_ℤ cold.max_native_transfer native))

  unfoldable pub verify_native : List String → ℤ → Option Bool → Result Bool
  verify_native forbidden native none = ok false
  verify_native forbidden native (some required) =
      continue_with (is_native_above forbidden) (check_native native required)

module _ (db : Database) (bridge : Bridge) (vault : Vault) (tx : PaymentTransaction) where
  module _ (chain : BridgeChain) (cold : ColdChain) (moved : AssetBalance) where
    abbrev pub collides : SinglePayment → Bool
    collides active =
        moves_any (map (λ (token : TokenInfo). token.id) moved.tokens) active.assets.tokens
        || (ltb_ℤ cold.max_native_transfer moved.native_token
            && ltb_ℤ cold.max_native_transfer active.assets.native_token)

    abbrev pub check_active : TransactionEntity → Result Bool
    check_active active = do
      active_tx ← parse_tx db bridge active
      active_order ← chain.extract_transaction_order active_tx
      active_payment ← first_payment active_order
      ok (collides active_payment)

    unfoldable pub verify_active : List TransactionEntity → Result Bool
    verify_active [] = ok true
    verify_active (active ∷ rest) =
        if active.tx_id == tx.tx_id
        then verify_active rest
        else continue_with (check_active active) λ c. next_active c (verify_active rest)

  unfoldable pub verify_amounts : ColdChain → List String → AssetBalance → Result Bool
  verify_amounts cold forbidden moved = do
    locked ← cold.get_lock_address_assets
    remaining ← vault.subtract_asset_balance locked moved
    required ← verify_tokens cold locked remaining false moved.tokens
    verify_native cold locked remaining forbidden moved.native_token required

  unfoldable pub verify_order :
      BridgeChain → ColdChain → List SinglePayment → Store db → Result Bool
  verify_order chain cold (order ∷ []) s =
      if order.address == cold.cold_address
      then (do
        forbidden ← get_waiting_events_required_tokens db bridge vault s
        if moves_any forbidden order.assets.tokens then ok false else (do
          free ←
              verify_active chain cold order.assets
                (get_active_cold_storage_txs_in_chain db tx.network s)
          if free then verify_amounts cold forbidden order.assets else ok false))
      else ok false
  verify_order chain cold _ s = ok false

  unfoldable pub verify_cold_storage_transaction : Store db → Result Bool
  verify_cold_storage_transaction s = do
    chain ← bridge.get_chain tx.network
    order ← chain.extract_transaction_order tx
    cold ← vault.get_cold_chain tx.network
    verify_order chain cold order s
