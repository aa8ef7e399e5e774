-- ===== src/Order.antt =====
-- EventOrder of src/event/EventOrder.ts: what a bridge transaction pays to the user, the watchers
-- and the guards. Amounts of events and fees are unsigned; a difference of them is signed, as it may
-- fall below 0. The configuration, with its token map, is an argument.
pub mod Shares
pub mod Parts
pub mod Conservation
use ts_gaurd_service.Base.{
  ℕ, ◌+◌, ◌*◌, ◌/◌, Bool, true, false, Option, none, some, List, [], ◌∷◌, ◌++◌, map, String,
  if◌then◌else◌, ltb, ◌==◌, nat_eq, string_eq, length, Result, ok, err, division_by_zero,
}
use ts_gaurd_service.Base.Results.{continue_with, ◌>>=◌, ◌>>◌}
use ts_gaurd_service.Base.Int.{ℤ, pos, sub_ℕ, ◌+ℤ◌, ◌-ℤ◌, ltb_ℤ}
use ts_gaurd_service.Database.Entities.{EventData}

pub record TokenInfo : Type 0 where
  pub id : String
  pub value : ℤ

pub record AssetBalance : Type 0 where
  pub native_token : ℤ
  pub tokens : List TokenInfo

pub record SinglePayment : Type 0 where
  pub address : String
  pub assets : AssetBalance
  pub extra : Option String

pub record PermitBoxValue : Type 0 where
  pub wid : String
  pub box_value : ℕ

pub record RewardOrder : Type 0 where
  pub watchers_order : List SinglePayment
  pub guards_order : List SinglePayment

-- The minimum fee of a chain (`ChainMinimumFee`).
pub record FeeConfig : Type 0 where
  pub bridge_fee : ℕ
  pub network_fee : ℕ
  pub rsn_ratio : ℕ
  pub rsn_ratio_divisor : ℕ
  pub fee_ratio : ℕ
  pub fee_ratio_divisor : ℕ

-- The amounts of Ergo are wrapped as the token map has them. A search of the token map may raise.
pub record OrderConfigs : Type 0 where
  pub ergo_chain : String
  pub erg : String
  pub watchers_share_percent : ℕ
  pub watchers_emission_share_percent : ℕ
  pub emission_token_id : String
  pub emission_address : String
  pub bridge_fee_repo_address : String
  pub network_fee_repo_address : String
  pub minimum_erg : ℕ
  pub additional_erg_on_payment : ℕ
  pub is_native_token : String → String → Result Bool
  pub get_ergo_token_id : String → String → Result String
  pub get_permit_address : String → Result String
  pub hex : String → String

abbrev pub max_bigint : ℕ → ℕ → ℕ
max_bigint a b = if ltb b a then a else b

-- Division of unsigned numbers, which raises on 0.
abbrev pub quotient : ℕ → ℕ → Result ℕ
quotient a b = if b == 0 then err division_by_zero else ok (a / b)

abbrev pub bridge_fee_of : EventData → FeeConfig → Result ℕ
bridge_fee_of event fee = do
  part ← quotient (event.amount * fee.fee_ratio) fee.fee_ratio_divisor
  ok (max_bigint (max_bigint event.bridge_fee fee.bridge_fee) part)

abbrev pub network_fee_of : EventData → FeeConfig → ℕ
network_fee_of event fee = max_bigint event.network_fee fee.network_fee

-- A watcher's share of a fee.
abbrev pub watcher_share : ℕ → ℕ → ℕ → ℕ
watcher_share fee percent watchers_len = fee * percent / 100 / watchers_len

-- What is paid of a token, if anything.
abbrev pub if_positive : String → ℤ → List TokenInfo
if_positive id value = if ltb_ℤ (pos 0) value then record { id = id; value = value } ∷ [] else []

module _ (configs : OrderConfigs) where
  abbrev pub payment_assets : Bool → Bool → EventData → ℕ → ℤ → AssetBalance
  payment_assets is_native to_ergo event min_transfer value = record {
    native_token =
        (if is_native then pos min_transfer +ℤ value else pos min_transfer)
        +ℤ pos (if to_ergo then configs.additional_erg_on_payment else 0);
    tokens =
        if is_native then [] else record { id = event.target_chain_token_id; value = value } ∷ [];
  }

  unfoldable pub event_single_payment : EventData → ℕ → FeeConfig → Result SinglePayment
  event_single_payment event chain_min_transfer fee = do
    is_native ← configs.is_native_token event.to_chain event.target_chain_token_id
    bridge_fee ← bridge_fee_of event fee
    ok (record {
      address = event.to_address;
      assets =
          payment_assets is_native (event.to_chain == configs.ergo_chain) event chain_min_transfer
            (pos event.amount -ℤ pos bridge_fee -ℤ pos (network_fee_of event fee));
      extra = none;
    })

  abbrev pub emission_payment : ℤ → List SinglePayment
  emission_payment amount =
      if ltb_ℤ (pos 0) amount
      then record {
        address = configs.emission_address;
        assets = record {
          native_token = pos configs.minimum_erg;
          tokens = record { id = configs.emission_token_id; value = amount } ∷ [];
        };
        extra = none;
      }
        ∷ []
      else []

  abbrev pub watcher_payment : String → ℕ → List TokenInfo → PermitBoxValue → SinglePayment
  watcher_payment permit_address erg_amount tokens permit = record {
    address = permit_address;
    assets = record { native_token = pos (erg_amount + permit.box_value); tokens = tokens };
    extra = some permit.wid;
  }

  -- The guards' part: the bridge fee that the watchers leave, the emission and the network fee.
  abbrev pub guards_payments :
      String → ℤ → List TokenInfo → ℤ → ℤ → List TokenInfo → List SinglePayment
  guards_payments payment_tx_id fee_erg fee_tokens emission network_erg network_tokens =
      record {
        address = configs.bridge_fee_repo_address;
        assets = record { native_token = fee_erg; tokens = fee_tokens };
        extra = some (configs.hex payment_tx_id);
      }
      ∷ (emission_payment emission
          ++ record {
            address = configs.network_fee_repo_address;
            assets = record { native_token = network_erg; tokens = network_tokens };
            extra = none;
          }
            ∷ [])

  -- The reward with the fees in ERG, for a number of watchers that is not 0.
  abbrev pub erg_rewards :
      List PermitBoxValue → ℕ → ℕ → ℕ → String → String → ℕ → String → RewardOrder
  erg_rewards out_permits bridge_fee network_fee emission_fee payment_tx_id rwt_token_id rwt_count
        permit_address =
      let n = length out_permits in
      let erg_amount = watcher_share bridge_fee configs.watchers_share_percent n in
      let emission_amount = watcher_share emission_fee configs.watchers_emission_share_percent n in
      let watcher_tokens =
        record { id = rwt_token_id; value = pos rwt_count }
        ∷ if_positive configs.emission_token_id (pos emission_amount) in
      record {
        watchers_order = map (watcher_payment permit_address erg_amount watcher_tokens) out_permits;
        guards_order =
            guards_payments payment_tx_id
              (sub_ℕ bridge_fee (n * erg_amount) +ℤ pos configs.minimum_erg) []
              (sub_ℕ emission_fee (n * emission_amount)) (pos (network_fee + configs.minimum_erg))
              [];
      }

  -- The reward with the fees in a token.
  abbrev pub token_rewards :
      List PermitBoxValue → ℕ → ℕ → ℕ → String → String → String → ℕ → String → RewardOrder
  token_rewards out_permits bridge_fee network_fee emission_fee token_id payment_tx_id rwt_token_id
        rwt_count permit_address =
      let n = length out_permits in
      let token_amount = watcher_share bridge_fee configs.watchers_share_percent n in
      let emission_amount = watcher_share emission_fee configs.watchers_emission_share_percent n in
      let watcher_tokens =
        record { id = rwt_token_id; value = pos rwt_count }
        ∷ (if_positive token_id (pos token_amount)
            ++ if_positive configs.emission_token_id (pos emission_amount)) in
      record {
        watchers_order = map (watcher_payment permit_address 0 watcher_tokens) out_permits;
        guards_order =
            guards_payments payment_tx_id (pos configs.minimum_erg)
              (if_positive token_id (sub_ℕ bridge_fee (n * token_amount)))
              (sub_ℕ emission_fee (n * emission_amount)) (pos configs.minimum_erg)
              (record { id = token_id; value = pos network_fee } ∷ []);
      }

  -- A division by the number of watchers raises where there is none.
  unfoldable pub event_erg_reward_order :
      List PermitBoxValue → ℕ → ℕ → ℕ → String → String → ℕ → String → Result RewardOrder
  event_erg_reward_order out_permits bridge_fee network_fee emission_fee payment_tx_id rwt_token_id
        rwt_count permit_address =
      if length out_permits == 0
      then err division_by_zero
      else ok (
          erg_rewards out_permits bridge_fee network_fee emission_fee payment_tx_id rwt_token_id
            rwt_count permit_address)

  unfoldable pub event_token_reward_order :
      List PermitBoxValue → ℕ → ℕ → ℕ → String → String → String → ℕ → String → Result RewardOrder
  event_token_reward_order out_permits bridge_fee network_fee emission_fee token_id payment_tx_id
        rwt_token_id rwt_count permit_address =
      if length out_permits == 0
      then err division_by_zero
      else ok (
          token_rewards out_permits bridge_fee network_fee emission_fee token_id payment_tx_id
            rwt_token_id rwt_count permit_address)

  abbrev pub permits_of : List String → ℕ → List PermitBoxValue → List PermitBoxValue
  permits_of event_wids permit_value unmerged =
      map (λ (wid : String). record { wid = wid; box_value = permit_value }) event_wids ++ unmerged

  unfoldable pub event_reward_order :
      EventData
      → List PermitBoxValue
      → FeeConfig
      → String
      → String
      → ℕ
      → ℕ
      → List String
      → Result RewardOrder
  event_reward_order event unmerged_wids fee payment_tx_id rwt_token_id rwt_count permit_value
        event_wids =
      do
        bridge_fee ← bridge_fee_of event fee
        emission_fee ← quotient (bridge_fee * fee.rsn_ratio) fee.rsn_ratio_divisor
        token_id ← configs.get_ergo_token_id event.from_chain event.source_chain_token_id
        permit_address ← configs.get_permit_address event.from_chain
        let out_permits = permits_of event_wids permit_value unmerged_wids
        if token_id == configs.erg
            then event_erg_reward_order out_permits bridge_fee (network_fee_of event fee)
                emission_fee payment_tx_id rwt_token_id rwt_count permit_address
            else event_token_reward_order out_permits bridge_fee (network_fee_of event fee)
                emission_fee token_id payment_tx_id rwt_token_id rwt_count permit_address
