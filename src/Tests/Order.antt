-- ===== src/Tests/Order.antt =====
-- The orders of an event with two watchers.
use ts_gaurd_service.Base.{
  ◌+◌, ℕ, Bool, false, true, none, ok, ◌*◌, ◌≡◌, refl, List, [], ◌∷◌, String, if◌then◌else◌, ◌==◌,
  string_eq, length, arith,
}
use ts_gaurd_service.Base.Int.{pos, ◌+ℤ◌}
use ts_gaurd_service.Constants.{pending_payment}
use ts_gaurd_service.Order.{
  PermitBoxValue, RewardOrder, erg_rewards, token_rewards, event_erg_reward_order,
  event_token_reward_order, event_single_payment, payment_assets, SinglePayment, bridge_fee_of,
}
use ts_gaurd_service.Order.Shares.{native_total, token_total, boxes_total, amount_of}
use ts_gaurd_service.Order.Parts.{whole}
use ts_gaurd_service.Order.Conservation.{
  erg_order_conserves, token_order_conserves, single_payment_conserves,
}
use ts_gaurd_service.Tests.Data.{test_configs, test_fee, event_row}

abbrev two_permits : List PermitBoxValue
two_permits = record { wid = "w0"; box_value = 20 } ∷ record { wid = "w1"; box_value = 30 } ∷ []

abbrev erg_order : RewardOrder
erg_order = erg_rewards test_configs two_permits 700 50 33 "tx" "rwt" 4 "permits"

erg_order_conserves_example :
    (native_total (whole erg_order) ≡ pos (700 + 50 + boxes_total two_permits + 3 * 1000))
    × ((id : String)
        → token_total id (whole erg_order)
          ≡ pos ((if "rwt" == id then 2 * 4 else 0) + (if "emission" == id then 33 else 0)))
unfolding event_erg_reward_order
erg_order_conserves_example =
    erg_order_conserves test_configs two_permits 700 50 33 "tx" "rwt" 4 "permits" (omega arith)
      (omega arith) {r = erg_order} refl

abbrev token_order : RewardOrder
token_order = token_rewards test_configs two_permits 700 50 33 "token" "tx" "rwt" 4 "permits"

token_order_conserves_example :
    (native_total (whole token_order) ≡ pos (boxes_total two_permits + 3 * 1000))
    × ((id : String)
        → token_total id (whole token_order)
          ≡ pos (
              (if "rwt" == id then 2 * 4 else 0)
              + ((if "token" == id then 700 else 0) + (if "emission" == id then 33 else 0))
              + (if "token" == id then 50 else 0)))
unfolding event_token_reward_order
token_order_conserves_example =
    token_order_conserves test_configs two_permits 700 50 33 "tx" "rwt" 4 "permits" (omega arith)
      (omega arith) "token" {r = token_order} refl

abbrev paid : SinglePayment
paid = record {
  address = "to";
  assets =
      payment_assets test_configs false true (event_row pending_payment).event_data 10 (pos 999250);
  extra = none;
}

single_payment_conserves_example :
    (bridge_fee : ℕ) × (bridge_fee_of (event_row pending_payment).event_data test_fee
      ≡ ok bridge_fee)
    × (is_native : Bool) × (test_configs.is_native_token "ergo" "rsada" ≡ ok is_native)
    × (paid.address ≡ (event_row pending_payment).event_data.to_address)
    × (paid.assets.native_token +ℤ amount_of "rsada" paid.assets.tokens +ℤ pos bridge_fee +ℤ pos 50
        ≡ pos (1000000 + 10 + 2000))
    × (is_native ≡ false → paid.assets.native_token ≡ pos (10 + 2000))
unfolding event_single_payment ts_gaurd_service.Base.Int.◌-ℤ◌
single_payment_conserves_example =
    single_payment_conserves test_configs (event_row pending_payment).event_data 10 test_fee
      {p = paid} refl
