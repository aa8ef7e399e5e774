-- ===== src/Agreement/Approve/Runs.antt =====
-- Every history of calls of the agreement keeps one valid transaction for each event and order.
use ts_gaurd_service.Base.{
  ℕ, ◌≡◌, refl, sym, ap, subst⁻¹, inl, inr, Bool, true, false, Option, none, some, List, [], ◌∷◌,
  map, String, if◌then◌else◌, ◌==◌, nat_eq, string_eq, ok, err, Action, get, set, if_cases, lift,
  attempt, ◌>>=◌, ltb, impossible_behavior,
}
use ts_gaurd_service.Constants.{type_eq, tx_status_eq, arbitrary}
use ts_gaurd_service.Database.Entities.{PaymentTransaction, Database}
use ts_gaurd_service.Database.OneValid.{OneValid}
use ts_gaurd_service.Agreement.{
  Agreement, CandidateTransaction, Peer, Verifier, Guard, Message, request, response, approval,
  verify_transaction_request, process_transaction_request, send_message, change, parse,
  broadcast_transaction_request, add_transaction_to_queue, enqueue_sign_failed_txs,
  process_agreement_queue,
}
use ts_gaurd_service.Agreement.Requests.{
  verify_transaction_request_cases, verify_request-transactions, agree-keeps_order,
  agrees_to_no_other,
}
use ts_gaurd_service.Agreement.Approve.{
  process_message, set_tx_as_approved, resend_transaction_requests, resend_approval_messages,
  clear_transactions, clear_agreed_transactions, approve_known, approve_counted,
  process_approval_message, process_message_of, verified_signs, broadcast_approval_message,
}
use ts_gaurd_service.Agreement.Approve.Safe.{
  Safe, quiet, Safe-trans, IsSafe, bind-IsSafe, still, for_each-IsSafe, send_message-IsSafe,
  process_agreement_queue-IsSafe, enqueue_sign_failed_txs-IsSafe, set_tx_as_approved-IsSafe,
  broadcast_approval_message-IsSafe, process_agreement_response-IsSafe,
}

module _ (db : Database) (verifier : Verifier db) (guard : Guard) where
  verify_transaction_request-IsSafe :
      (tx : PaymentTransaction) (creator_id : ℕ)
      → IsSafe (verify_transaction_request db verifier guard tx creator_id)
  verify_transaction_request-IsSafe tx creator_id w =
      elim (verify_transaction_request_cases db verifier guard tx w creator_id) [
        | inl (same, same_txs, _, _) ↦
            quiet w _ (sym same_txs)
              (sym (ap (λ (a : Agreement). a.order_agreed_transactions) same))
        | inr (e, free, _, _, _) ↦ rw e (record {
          one_valid =
              subst⁻¹ (OneValid db) (verify_request-transactions db verifier guard tx w tx.tx_type);
          orders = λ order_id agreed h.
              agree-keeps_order tx.tx_type tx w.agreement order_id agreed free h;
        })
      ]

  process_transaction_request-IsSafe :
      (tx : PaymentTransaction) (creator_id timestamp : ℕ) (receiver : String)
      → IsSafe (process_transaction_request db verifier guard tx creator_id timestamp receiver)
  unfolding process_transaction_request
  process_transaction_request-IsSafe tx creator_id timestamp receiver =
      bind-IsSafe (verify_transaction_request db verifier guard tx creator_id) _
        (verify_transaction_request-IsSafe tx creator_id) answer
    where
      answer :
          (b : Bool)
          → IsSafe (
              if b
              then (change (λ a. record a {
                transactions =
                    set tx.tx_id (record { tx = tx; timestamp = timestamp }) a.transactions;
              })
                  >>= λ _. send_message db guard (response tx.tx_id receiver timestamp))
              else lift (ok tt))
      answer true =
          bind-IsSafe
            (change λ a. record a {
              transactions =
                  set tx.tx_id (record { tx = tx; timestamp = timestamp }) a.transactions;
            })
            (λ _. send_message db guard (response tx.tx_id receiver timestamp))
            (λ v. quiet v _ refl refl)
            (λ _. send_message-IsSafe db guard (response tx.tx_id receiver timestamp))
      answer false = still (ok tt)

  approve_known-IsSafe :
      (o : Option CandidateTransaction) (e : Option String) (tx : PaymentTransaction)
      (sender_index : ℕ)
      → IsSafe (approve_known db verifier guard o e tx sender_index)
  unfolding approve_known
  approve_known-IsSafe (some c) e tx sender_index = set_tx_as_approved-IsSafe db guard tx
  approve_known-IsSafe none none tx sender_index =
      bind-IsSafe (verify_transaction_request db verifier guard tx sender_index) _
        (verify_transaction_request-IsSafe tx sender_index)
        λ b w.
          if_cases (Safe w) b (set_tx_as_approved db guard tx) (lift (ok tt)) w
            (set_tx_as_approved-IsSafe db guard tx w) (quiet w w refl refl)
  approve_known-IsSafe none (some agreed) tx sender_index = λ w.
      if_cases (Safe w) (agreed == tx.tx_id) (lift {A = Unit {0}} (err impossible_behavior))
        (lift (ok tt)) w (quiet w w refl refl) (quiet w w refl refl)

  process_approval_message-IsSafe :
      (tx : PaymentTransaction) (sender_index : ℕ) (signatures : List String) (timestamp : ℕ)
      → IsSafe (process_approval_message db verifier guard tx sender_index signatures timestamp)
  unfolding process_approval_message approve_counted
  process_approval_message-IsSafe tx sender_index signatures timestamp =
      bind-IsSafe (lift (verified_signs db guard tx.tx_id timestamp 0 signatures))
        (λ o. approve_counted db verifier guard o tx sender_index)
        (still (verified_signs db guard tx.tx_id timestamp 0 signatures)) counted
    where
      counted : (o : Option ℕ) → IsSafe (approve_counted db verifier guard o tx sender_index)
      counted none w = quiet w w refl refl
      counted (some n) w =
          let known =
            approve_known db verifier guard (get tx.tx_id w.agreement.transactions)
              (get tx.event_id w.agreement.event_agreed_transactions) tx sender_index in
          if_cases (Safe w) (ltb n guard.required_sign) (lift (ok tt)) known w (quiet w w refl refl)
            (approve_known-IsSafe _ _ tx sender_index w)

  process_message-IsSafe :
      (m : Message) (sender_index : ℕ) (signature peer_id : String)
      → IsSafe (process_message db verifier guard m sender_index signature peer_id)
  unfolding process_message process_message_of
  process_message-IsSafe (request tx_json timestamp) sender_index signature peer_id =
      bind-IsSafe (parse db guard tx_json) _ (λ v. quiet v v refl refl)
        λ tx. process_transaction_request-IsSafe tx sender_index timestamp peer_id
  process_message-IsSafe (response tx_id _ timestamp) sender_index signature peer_id =
      process_agreement_response-IsSafe db guard tx_id sender_index signature timestamp
  process_message-IsSafe (approval tx_json signatures timestamp) sender_index signature peer_id =
      bind-IsSafe (parse db guard tx_json) _ (λ v. quiet v v refl refl)
        λ tx. process_approval_message-IsSafe tx sender_index signatures timestamp

-- A call of the agreement, by the dialer or a job.
pub data Call (db : Database) : Type 0 where
  receive : Verifier db → Guard → Message → ℕ → String → String → Call db
  enqueue : Guard → PaymentTransaction → Call db
  enqueue_failed process_queue resend_requests resend_approvals : Guard → Call db
  clear clear_agreed : Call db

module _ (db : Database) where
  abbrev pub call : Call db → Action (Peer db) (Unit {0})
  call (receive verifier guard m sender_index signature peer_id) =
      process_message db verifier guard m sender_index signature peer_id
  call (enqueue guard tx) = add_transaction_to_queue tx
  call (enqueue_failed guard) = enqueue_sign_failed_txs db guard
  call (process_queue guard) = process_agreement_queue db guard
  call (resend_requests guard) = resend_transaction_requests db guard
  call (resend_approvals guard) = resend_approval_messages db guard
  call clear = clear_transactions db
  call clear_agreed = clear_agreed_transactions db

  -- The state after the calls, each of which may end in an error.
  abbrev pub after_calls : List (Call db) → Peer db → Peer db
  after_calls [] w = w
  after_calls (c ∷ cs) w = after_calls cs (call c w).1

  pub call-IsSafe : (c : Call db) → IsSafe (call c)
  unfolding add_transaction_to_queue resend_transaction_requests resend_approval_messages
      clear_transactions clear_agreed_transactions
  call-IsSafe (receive verifier guard m sender_index signature peer_id) =
      process_message-IsSafe db verifier guard m sender_index signature peer_id
  call-IsSafe (enqueue guard tx) = λ w. quiet w _ refl refl
  call-IsSafe (enqueue_failed guard) = enqueue_sign_failed_txs-IsSafe db guard
  call-IsSafe (process_queue guard) = process_agreement_queue-IsSafe db guard
  call-IsSafe (resend_requests guard) = λ w.
      for_each-IsSafe (map (λ (e : String × CandidateTransaction). e.1) w.agreement.transactions)
        (λ c. attempt (broadcast_transaction_request db guard c.tx c.timestamp))
        (λ c. send_message-IsSafe db guard _) w
  call-IsSafe (resend_approvals guard) = λ w.
      for_each-IsSafe w.agreement.approved_transactions
        (λ a. attempt (broadcast_approval_message db guard a))
        (λ a. broadcast_approval_message-IsSafe db guard a) w
  call-IsSafe clear = λ w. quiet w _ refl refl
  call-IsSafe clear_agreed = λ w. quiet w _ refl refl

  after_calls-Safe : (cs : List (Call db)) (w : Peer db) → Safe w (after_calls cs w)
  after_calls-Safe [] w = quiet w w refl refl
  after_calls-Safe (c ∷ cs) w =
      Safe-trans w (call c w).1 (after_calls cs (call c w).1) (call-IsSafe c w)
        (after_calls-Safe cs (call c w).1)

  -- Through every history of calls of the agreement, whatever messages arrive and whichever
  -- statements fail, no event comes to have two valid transactions of a type, and no order two.
  pub after_calls-OneValid :
      (cs : List (Call db)) (w : Peer db)
      → OneValid db w.store.transactions
      → OneValid db (after_calls cs w).store.transactions
  after_calls-OneValid cs w = (after_calls-Safe cs w).one_valid

  -- Once a guard has agreed to a transaction of an order, it verifies no request for another
  -- transaction of that order, after any history of calls: approvals, and the clearing of agreed
  -- transactions, included.
  pub order_agreed_for_good :
      (cs : List (Call db)) (w : Peer db) (verifier : Verifier db) (guard : Guard)
      (tx : PaymentTransaction) (creator_id : ℕ) (agreed : String)
      → get tx.event_id w.agreement.order_agreed_transactions ≡ some agreed
      → tx.tx_type ≡ arbitrary
      → (verify_transaction_request db verifier guard tx creator_id (after_calls cs w)).0 ≡ ok true
      → tx.tx_id ≡ agreed
  order_agreed_for_good cs w verifier guard tx creator_id agreed h type =
      agrees_to_no_other db verifier guard tx creator_id agreed (after_calls cs w)
        (rw type ((after_calls-Safe cs w).orders tx.event_id agreed h))
