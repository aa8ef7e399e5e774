-- ===== src/Tests/Synchronization.antt =====
-- An event that is synchronized, and responses of two guards with different transactions.
use ts_gaurd_service.Base.{
  ◌+◌, count, ◌≤◌, ◌≡◌, refl, ◌⊎◌, true, none, some, [], ◌∷◌, ok, length, arith, get,
}
use ts_gaurd_service.Base.Results.{map_result}
use ts_gaurd_service.Constants.{payment, approved, in_payment, TransactionStatus}
use ts_gaurd_service.Database.Repository.{rows}
use ts_gaurd_service.Database.Actions.{get_event_by_id, get_tx_by_id, is_valid_event_tx, new_tx}
use ts_gaurd_service.Order.{event_single_payment, event_reward_order, event_token_reward_order}
use ts_gaurd_service.Event.{Bridge}
use ts_gaurd_service.Event.Creation.{create_event_payment_order, reward_order_of}
use ts_gaurd_service.Transactions.{confirmed_enough}
use ts_gaurd_service.Synchronization.{ActiveSync, Syncing, SyncGuard, process_sync_queue}
use ts_gaurd_service.Synchronization.Responses.{
  process_sync_response, set_tx_as_approved, verify_synchronization_response,
}
use ts_gaurd_service.Synchronization.Active.{process_sync_queue-IsLimited}
use ts_gaurd_service.Synchronization.Approved.{
  IsPaid, noted, is_enough, process_sync_response-backed, mixed_responses_approve,
}
use ts_gaurd_service.Synchronization.Beside.{set_tx_as_approved_beside}
use ts_gaurd_service.Tests.Data.{
  test_db, test_bridge, commitment_of, tx_of, pending_store, store_with, event_row, row_of,
}

abbrev sync_bridge : Bridge
sync_bridge = record (test_bridge) { commitments = commitment_of "w2" ∷ [] }

-- The text of an object.
abbrev sync_guard : SyncGuard
sync_guard = record {
  now_floor = 1000;
  index = 2;
  guards_len = 3;
  required_sign = 3;
  parallel_sync_limit = 2;
  parallel_request_count = 2;
  event_sync_timeout = 100;
  shuffle = λ ids. ids;
  sample_size = λ is _. is;
  get_peer_id_by_index = λ _. some "peer";
  get_chain = λ _. ok (record {
    verify_payment_transaction = λ _. ok true;
    extract_transaction_order = λ _. ok [];
    get_tx_confirmation_status = λ _ _. ok confirmed_enough;
    verify_transaction_extra_conditions = λ _. ok true;
  });
  send = λ _. ok tt;
  text_of = λ _. "[object Object]";
}

-- The first guard has answered with the transaction "b".
abbrev one_response : ActiveSync
one_response = record { timestamp = 950; responses = some (tx_of "b" payment) ∷ none ∷ none ∷ [] }

abbrev syncing : Syncing test_db
syncing = record {
  store = pending_store;
  sync = record { event_queue = "other" ∷ []; active_sync_map = ("event", one_response) ∷ [] };
  sent = [];
}

process_sync_queue-IsLimited_example :
    length (process_sync_queue test_db sync_bridge sync_guard syncing).1.sync.active_sync_map ≤ 2
process_sync_queue-IsLimited_example =
    process_sync_queue-IsLimited test_db sync_bridge sync_guard syncing (omega arith)

process_sync_response-backed_example :
    ((process_sync_response test_db sync_bridge sync_guard (tx_of "a" payment) 1 syncing).1.store
      ≡ pending_store)
    ⊎ ((paid : IsPaid test_db sync_bridge sync_guard (tx_of "a" payment) syncing) × (is_enough
            test_db sync_bridge sync_guard
            (tx_of "a" payment)
            1
            paid.active
          ≡ true)
        × (process_sync_response test_db sync_bridge sync_guard (tx_of "a" payment) 1 syncing
            ≡ set_tx_as_approved test_db sync_bridge sync_guard
                (tx_of "a" payment)
                (noted test_db sync_bridge sync_guard (tx_of "a" payment) 1 paid.active syncing)))
process_sync_response-backed_example =
    process_sync_response-backed test_db sync_bridge sync_guard (tx_of "a" payment) 1 syncing

mixed_responses_approve_example :
    process_sync_response test_db sync_bridge sync_guard (tx_of "a" payment) 1 syncing
    ≡ set_tx_as_approved test_db sync_bridge sync_guard
        (tx_of "a" payment)
        (noted test_db sync_bridge sync_guard (tx_of "a" payment) 1 one_response syncing)
unfolding verify_synchronization_response get get_event_by_id create_event_payment_order
    reward_order_of event_single_payment event_reward_order event_token_reward_order map_result
mixed_responses_approve_example =
    mixed_responses_approve test_db sync_bridge sync_guard (tx_of "a" payment) 1 syncing
      one_response "[object Object]" (λ _. refl) refl refl (omega arith)

-- The event already has an approved payment.
abbrev paid_twice : Syncing test_db
paid_twice = record (syncing) { store = store_with approved }

set_tx_as_approved_beside_example :
    count (is_valid_event_tx "event" payment) (
      rows test_db.transactions
        (set_tx_as_approved test_db sync_bridge sync_guard
          (tx_of "a" payment)
          paid_twice).1.store.transactions)
    ≡ 1
      + count
          (is_valid_event_tx "event" payment)
          (rows test_db.transactions (store_with approved).transactions)
unfolding get_event_by_id get_tx_by_id
set_tx_as_approved_beside_example =
    set_tx_as_approved_beside test_db sync_bridge sync_guard (tx_of "a" payment) paid_twice
      (event_row in_payment)
      (
        new_tx test_db TransactionStatus.completed 1000 (tx_of "a" payment) (some "event") 3 none
            ∷ row_of "b" approved
            ∷ [],
        refl,
      )
      refl refl refl
