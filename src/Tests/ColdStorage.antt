-- ===== src/Tests/ColdStorage.antt =====
-- A cold storage transaction of a token.
use ts_gaurd_service.Base.{◌≡◌, refl, false, Option, none, some, List, [], ◌∷◌, map, String, ok}
use ts_gaurd_service.Base.Int.{ℤ, pos, ◌-ℤ◌}
use ts_gaurd_service.Constants.{cold_storage}
use ts_gaurd_service.Database.Entities.{PaymentTransaction}
use ts_gaurd_service.Database.Actions.{get_active_cold_storage_txs_in_chain, get_events_by_statuses}
use ts_gaurd_service.Order.{TokenInfo, SinglePayment}
use ts_gaurd_service.Event.{Bridge, BridgeChain}
use ts_gaurd_service.ColdStorage.{Vault, find_token, get_waiting_events_required_tokens}
use ts_gaurd_service.ColdStorage.Verifier.{
  moves_any, verify_tokens, verify_native, verify_active, verify_amounts, verify_order,
  verify_cold_storage_transaction,
}
use ts_gaurd_service.ColdStorage.Bounds.{LeavesEnough, verify_cold_storage_transaction_bounds}
use ts_gaurd_service.Tests.Data.{test_db, test_bridge, test_bridge_chain, tx_of, empty_store}

abbrev cold_order : SinglePayment
cold_order = record {
  address = "cold";
  assets = record { native_token = pos 100; tokens = record { id = "token"; value = pos 60 } ∷ [] };
  extra = none;
}

abbrev cold_bridge : Bridge
cold_bridge = record (test_bridge) {
  get_chain = λ _.
      ok (record (test_bridge_chain) { extract_transaction_order = λ _. ok (cold_order ∷ []) });
}

abbrev value_of : Option TokenInfo → ℤ
value_of none = pos 0
value_of (some token) = token.value

abbrev pub test_vault : Vault
test_vault = record {
  get_cold_chain = λ _. ok (record {
    cold_address = "cold";
    native_token_id = "erg";
    max_native_transfer = pos 500;
    thresholds =
        record { token_id = "erg"; low = pos 1000; high = pos 10000 }
        ∷ (record { token_id = "token"; low = pos 10; high = pos 50 } ∷ []);
    get_lock_address_assets = ok (record {
      native_token = pos 5000;
      tokens = record { id = "token"; value = pos 100 } ∷ [];
    });
    generate_multiple_transactions = λ _ _ _ _ _. ok [];
  });
  subtract_asset_balance = λ a b. ok (record {
    native_token = a.native_token -ℤ b.native_token;
    tokens =
        map
          (λ (t : TokenInfo). record {
            id = t.id;
            value = t.value -ℤ value_of (find_token t.id b.tokens);
          })
          a.tokens;
  });
}

abbrev cold_tx : PaymentTransaction
cold_tx = tx_of "a" cold_storage

verify_cold_storage_transaction_bounds_example :
    (chain : BridgeChain) × (cold_bridge.get_chain "ergo" ≡ ok chain)
    × (order : SinglePayment) × (chain.extract_transaction_order cold_tx ≡ ok (order ∷ []))
    × LeavesEnough test_db cold_bridge test_vault cold_tx order
    × (forbidden : List String) × (get_waiting_events_required_tokens test_db cold_bridge test_vault
          empty_store
        ≡ ok forbidden)
    × (moves_any forbidden order.assets.tokens ≡ false)
unfolding verify_cold_storage_transaction verify_order verify_amounts verify_tokens verify_native
    verify_active get_waiting_events_required_tokens get_events_by_statuses
    get_active_cold_storage_txs_in_chain ◌-ℤ◌
verify_cold_storage_transaction_bounds_example =
    verify_cold_storage_transaction_bounds test_db cold_bridge test_vault cold_tx empty_store refl
