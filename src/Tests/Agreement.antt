-- ===== src/Tests/Agreement.antt =====
-- A guard that receives a request, its approval and a competing request.
use ts_gaurd_service.Base.{
  ◌≤◌, ◌≡◌, refl, ◌⊎◌, ok, some, List, [], ◌∷◌, string_eq, length, get, Bool,
}
use ts_gaurd_service.Constants.{approved, payment, reward, arbitrary}
use ts_gaurd_service.Database.OneValid.{OneValid}
use ts_gaurd_service.Agreement.{
  verify_transaction_request, verify_unique, process_transaction_request, signatures_of, approval,
  request, Peer,
}
use ts_gaurd_service.Agreement.Requests.{Answered, verify_transaction_request_cases, agrees_once}
use ts_gaurd_service.Agreement.Approve.{process_approval_message, clear_agreed_transactions}
use ts_gaurd_service.Agreement.Approve.Backed.{approval_is_backed, AllVerify}
use ts_gaurd_service.Agreement.Approve.Runs.{
  after_calls, after_calls-OneValid, order_agreed_for_good, receive, clear_agreed, Call,
}
use ts_gaurd_service.Turn.{guard_turn}
use ts_gaurd_service.Tests.Data.{
  test_db, tx_of, store_with, store_with-OneValid, pending_store, no_agreement, accepting,
  test_guard, peer_with,
}

-- A request for a payment, and its approval by both guards.
abbrev history : List (Call test_db)
history =
    receive accepting test_guard (request "a" 60) 0 "" "peer0"
    ∷ receive accepting test_guard (approval "a" ("pk0" ∷ "pk1" ∷ []) 60) 0 "" "peer0"
    ∷ clear_agreed
    ∷ []

after_calls-OneValid_example :
    OneValid test_db
      (after_calls test_db history
        (peer_with (store_with approved) no_agreement)).store.transactions
after_calls-OneValid_example =
    after_calls-OneValid test_db history (peer_with (store_with approved) no_agreement)
      (store_with-OneValid approved)

approval_is_backed_example :
    ((process_approval_message test_db accepting test_guard
        (tx_of "a" payment)
        0
        ("pk0" ∷ "pk1" ∷ [])
        60
        (peer_with pending_store no_agreement)).1
      ≡ peer_with pending_store no_agreement)
    ⊎ (2 ≤ length (signatures_of ("pk0" ∷ "pk1" ∷ [])))
      × AllVerify test_db test_guard "a" 60 0 ("pk0" ∷ "pk1" ∷ [])
approval_is_backed_example =
    approval_is_backed test_db accepting test_guard (tx_of "a" payment) 0 ("pk0" ∷ "pk1" ∷ []) 60
      (peer_with pending_store no_agreement)

verify_transaction_request_cases_example :
    Answered test_db accepting test_guard
      (tx_of "a" payment)
      (peer_with pending_store no_agreement)
      0
      (verify_transaction_request test_db accepting test_guard
        (tx_of "a" payment)
        0
        (peer_with pending_store no_agreement))
verify_transaction_request_cases_example =
    verify_transaction_request_cases test_db accepting test_guard (tx_of "a" payment)
      (peer_with pending_store no_agreement) 0

-- Agreed to "a" for the event, and for the order of the same id.
abbrev agreed_to_a : Peer test_db
agreed_to_a = peer_with pending_store (record (no_agreement) {
  event_agreed_transactions = ("event", "a") ∷ [];
  order_agreed_transactions = ("event", "a") ∷ [];
})

agrees_once_example :
    (get "event"
        (process_transaction_request test_db accepting test_guard
          (tx_of "b" payment)
          0
          60
          "peer0"
          agreed_to_a).1.agreement.event_agreed_transactions
      ≡ some "a")
    × ((tx_of "b" payment).event_id ≡ "event"
        → (payment ≡ payment) ⊎ (payment ≡ reward)
        → (verify_transaction_request test_db accepting test_guard
            (tx_of "b" payment)
            0
            agreed_to_a).0
          ≡ ok Bool.true
        → (tx_of "b" payment).tx_id ≡ "a")
unfolding get
agrees_once_example =
    agrees_once test_db accepting test_guard (tx_of "b" payment) 0 60 "peer0" "event" "a"
      agreed_to_a refl

order_agreed_for_good_example : (tx_of "a" arbitrary).tx_id ≡ "a"
unfolding get verify_transaction_request verify_unique guard_turn clear_agreed_transactions
order_agreed_for_good_example =
    order_agreed_for_good test_db (clear_agreed ∷ []) agreed_to_a accepting test_guard
      (tx_of "a" arbitrary) 0 "a" refl refl refl
