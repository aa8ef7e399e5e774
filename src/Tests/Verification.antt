-- ===== src/Tests/Verification.antt =====
-- A request for the payment of an event that awaits it.
use ts_gaurd_service.Base.{◌≡◌, refl, true, not, ◌&&◌, ok, some, count, ◌==◌, string_eq, arith}
use ts_gaurd_service.Constants.{payment}
use ts_gaurd_service.Database.Repository.{rows}
use ts_gaurd_service.Database.Entities.{TransactionEntity, ConfirmedEventEntity}
use ts_gaurd_service.Database.Actions.{
  get_event_by_id, get_event_valid_txs_by_type, is_valid_event_tx,
}
use ts_gaurd_service.Database.OneValid.{OneValid}
use ts_gaurd_service.Verification.{
  Checks, verify_event_transaction_request, verify_for_event, verify_confirmed, verify_among,
  is_compatible, is_event_pending_to_type,
}
use ts_gaurd_service.Verification.Requests.{verified_request_is_alone}
use ts_gaurd_service.Base.{String, Result}
use ts_gaurd_service.Base.Results.{map_result}
use ts_gaurd_service.Order.{event_single_payment, event_reward_order, event_token_reward_order}
use ts_gaurd_service.Event.{is_event_confirmed_enough, verify_event}
use ts_gaurd_service.Event.Creation.{
  create_event_payment_order, reward_order_of, verify_event_transaction,
}
use ts_gaurd_service.Verification.{ChainChecks}
use ts_gaurd_service.Verification.Chains.{PaysExpected, verified_request-PaysExpected}
use ts_gaurd_service.Tests.ColdStorage.{test_vault}
use ts_gaurd_service.Tests.Data.{test_db, test_bridge, tx_of, pending_store}

abbrev test_checks : Checks test_db
test_checks = record {
  ergo_chain = "ergo";
  get_chain = λ _. ok (record {
    verify_payment_transaction = λ _. ok true;
    verify_transaction_fee = λ _. ok true;
    verify_no_token_burned = λ _. ok true;
    verify_transaction_extra_conditions = λ _. ok true;
  });
  is_event_confirmed_enough = λ _. ok true;
  verify_event = λ _ _. ok true;
  verify_event_transaction = λ _ _ _. ok true;
  verify_cold_storage_transaction = λ _ _. ok true;
  verify_arbitrary_transaction = λ _ _. ok true;
}

pending_store-OneValid : OneValid test_db pending_store.transactions
pending_store-OneValid = record {
  by_event = λ _ _. omega arith;
  by_order = λ _. omega arith;
  exclusive = refl;
}

verified_request_is_alone_example :
    (pending_store ≡ pending_store)
    × (entity : ConfirmedEventEntity) × (get_event_by_id test_db "event" pending_store
        ≡ some entity)
    × (is_compatible test_db test_checks payment (tx_of "a" payment) entity.event_data ≡ true)
    × (count
          (λ (r : TransactionEntity). not (r.tx_id == "a") && is_valid_event_tx "event" payment r)
          (rows test_db.transactions pending_store.transactions)
        ≡ 0)
    × (count
            (is_valid_event_tx "event" payment)
            (rows test_db.transactions pending_store.transactions)
          ≡ 0
        → is_event_pending_to_type entity payment ≡ true)
unfolding verify_event_transaction_request verify_for_event verify_confirmed verify_among
    get_event_by_id get_event_valid_txs_by_type
verified_request_is_alone_example =
    verified_request_is_alone test_db test_checks (tx_of "a" payment) pending_store
      {s' = pending_store} pending_store-OneValid refl

abbrev chain_answers : String → Result ChainChecks
chain_answers = test_checks.get_chain

verified_request-PaysExpected_example :
    (entity : ConfirmedEventEntity) × (get_event_by_id test_db "event" pending_store ≡ some entity)
    × PaysExpected test_db test_bridge test_vault chain_answers
        (tx_of "a" payment)
        pending_store
        entity
unfolding verify_event_transaction_request verify_for_event verify_confirmed verify_among
    get_event_by_id get_event_valid_txs_by_type is_event_confirmed_enough verify_event
    verify_event_transaction create_event_payment_order reward_order_of event_single_payment
    event_reward_order event_token_reward_order map_result
verified_request-PaysExpected_example =
    verified_request-PaysExpected test_db test_bridge test_vault chain_answers (tx_of "a" payment)
      pending_store {s' = pending_store} refl
