-- ===== src/Agreement/Approve.antt =====
-- TxAgreement of src/agreement/TxAgreement.ts, from the answers of the other guards to the
-- database: approvals are collected, announced and verified, and approved transactions inserted.
pub mod Safe
pub mod Runs
pub mod Backed
use ts_gaurd_service.Base.{
  ℕ, zero, suc, ◌+◌, Bool, true, false, not, ◌&&◌, ◌||◌, Option, none, some, List, [], ◌∷◌, ◌++◌,
  map, String, if◌then◌else◌, leb, ltb, ◌==◌, nat_eq, string_eq, length, any, select, Action,
  Result, ok, err, impossible_behavior, query_failed, chain_failed, pure, raise, gets, lift,
  or_raise, attempt, for_each, ◌>>=◌, ◌>>◌, Map, get, set, delete,
}
use ts_gaurd_service.Constants.{
  TransactionStatus, EventStatus, OrderStatus, TransactionType, tx_status_eq, type_eq, invalid,
  in_payment, in_reward, in_process, payment, reward, cold_storage, manual, arbitrary, other,
}
use ts_gaurd_service.Database.Entities.{PaymentTransaction, TransactionEntity, Database, Store}
use ts_gaurd_service.Database.Actions.{get_tx_by_id, set_event_status, set_order_status}
use ts_gaurd_service.Database.Handler.{insert_tx}
use ts_gaurd_service.Agreement.{
  CandidateTransaction, ApprovedCandidate, Agreement, Peer, Verifier, Guard, Message, request,
  response, approval, in_store, change, send_message, parse, get_elem?, array, assign_in,
  signatures_of, verify_transaction_request, broadcast_transaction_request,
  process_transaction_request,
}

-- What `setTxAsApproved` removes from memory.
abbrev pub forget : PaymentTransaction → Agreement → Agreement
forget tx a = record a {
  transactions = delete tx.tx_id a.transactions;
  transaction_approvals = delete tx.tx_id a.transaction_approvals;
  event_agreed_transactions = delete tx.event_id a.event_agreed_transactions;
  agreed_cold_storage_transactions = delete tx.network a.agreed_cold_storage_transactions;
}

-- A signature that verifies counts, and one that does not ends the loop.
abbrev pub counted_after : Result Bool → Result (Option ℕ) → Result (Option ℕ)
counted_after (err e) after = err e
counted_after (ok false) after = ok none
counted_after (ok true) (err e) = err e
counted_after (ok true) (ok none) = ok none
counted_after (ok true) (ok (some n)) = ok (some (suc n))

abbrev pub approved_with : CandidateTransaction → ℕ → ℕ → ApprovedCandidate
approved_with candidate timestamp ref = record {
  tx = candidate.tx;
  signatures = ref;
  timestamp = timestamp;
}

-- The candidate is announced once for each response that finds it approved, and kept once.
abbrev pub keep_approved : ApprovedCandidate → Agreement → Agreement
keep_approved approved a = record a {
  approved_transactions =
      if any (λ (x : ApprovedCandidate). x.tx.tx_id == approved.tx.tx_id) a.approved_transactions
      then a.approved_transactions
      else a.approved_transactions ++ approved ∷ [];
}

abbrev pub get_chain_pending_transactions : String → Agreement → List PaymentTransaction
get_chain_pending_transactions chain a =
    map (λ (e : String × CandidateTransaction). e.1.tx)
      (select (λ (e : String × CandidateTransaction). e.1.tx.network == chain) a.transactions)
    ++ select (λ (tx : PaymentTransaction). tx.network == chain) a.transaction_queue

module _ (db : Database) (guard : Guard) where
  pub update_event_or_order_of_approved_tx :
      TransactionType → PaymentTransaction → Action (Store db) (Unit {0})
  update_event_or_order_of_approved_tx payment tx =
      attempt (set_event_status db tx.event_id in_payment false)
  update_event_or_order_of_approved_tx reward tx =
      attempt (set_event_status db tx.event_id in_reward false)
  update_event_or_order_of_approved_tx arbitrary tx =
      attempt (set_order_status db guard.now tx.event_id in_process false false)
  update_event_or_order_of_approved_tx cold_storage tx = pure tt
  update_event_or_order_of_approved_tx manual tx = pure tt
  update_event_or_order_of_approved_tx other tx = pure tt

  pub insert_approved : PaymentTransaction → Option TransactionEntity → Action (Store db) (Unit {0})
  insert_approved tx none = do
    insert_tx db guard.now tx guard.required_sign false
    update_event_or_order_of_approved_tx tx.tx_type tx
  insert_approved tx (some tx_record) =
      if tx_record.status == invalid
      then pure tt
      else insert_tx db guard.now tx guard.required_sign false

  pub set_tx_as_approved : PaymentTransaction → Action (Peer db) (Unit {0})
  set_tx_as_approved tx w =
      attempt
        (do in_store (insert_approved tx (get_tx_by_id db tx.tx_id w.store)); change (forget tx)) w

  abbrev pub broadcast_approval_message : ApprovedCandidate → Action (Peer db) (Unit {0})
  broadcast_approval_message approved w =
      send_message db guard
        (approval (db.to_json approved.tx) (array approved.signatures w.agreement.arrays)
          approved.timestamp)
        w

  -- The part of `processAgreementResponse` that holds the semaphore.
  pub approve_if_enough : CandidateTransaction → ℕ → Option ℕ → Action (Peer db) (Unit {0})
  approve_if_enough candidate timestamp none w = (ok tt, w)
  approve_if_enough candidate timestamp (some ref) w =
      (if leb guard.required_sign (length (signatures_of (array ref w.agreement.arrays)))
          then (do
            broadcast_approval_message (approved_with candidate timestamp ref)
            change (keep_approved (approved_with candidate timestamp ref))
            set_tx_as_approved candidate.tx)
          else pure tt)
        w

  pub count_response :
      Option CandidateTransaction → String → ℕ → String → ℕ → Action (Peer db) (Unit {0})
  count_response none tx_id signer_index signature timestamp w = (ok tt, w)
  count_response (some candidate) tx_id signer_index signature timestamp w =
      (if candidate.timestamp == timestamp
          then (do
            ref ← or_raise (get tx_id w.agreement.transaction_approvals) impossible_behavior
            change λ a. record a { arrays = assign_in ref signer_index signature a.arrays }
            approve_if_enough candidate timestamp (some ref))
          else pure tt)
        w

  pub process_agreement_response : String → ℕ → String → ℕ → Action (Peer db) (Unit {0})
  process_agreement_response tx_id signer_index signature timestamp w =
      count_response (get tx_id w.agreement.transactions) tx_id signer_index signature timestamp w

  -- The loop over the signatures from index `i` on: how many there are, where all of them verify.
  pub verified_signs : String → ℕ → ℕ → List String → Result (Option ℕ)
  verified_signs tx_id timestamp i [] = ok (some 0)
  verified_signs tx_id timestamp i (signature ∷ rest) =
      let after = verified_signs tx_id timestamp (suc i) rest in
      if signature == ""
      then after
      else counted_after
          (guard.verify
            (record {
              tx_id = tx_id;
              timestamp = timestamp;
              guard_pk = get_elem? guard.guard_pks i;
            })
            signature (get_elem? guard.guard_pks i))
          after

  pub resend_transaction_requests : Action (Peer db) (Unit {0})
  resend_transaction_requests w =
      for_each (map (λ (e : String × CandidateTransaction). e.1) w.agreement.transactions)
        (λ c. attempt (broadcast_transaction_request db guard c.tx c.timestamp)) w

  pub resend_approval_messages : Action (Peer db) (Unit {0})
  resend_approval_messages w =
      for_each w.agreement.approved_transactions (λ a. attempt (broadcast_approval_message a)) w

module _ (db : Database) where
  pub clear_transactions : Action (Peer db) (Unit {0})
  clear_transactions = change λ a. record a {
    transaction_queue = [];
    transactions = [];
    transaction_approvals = [];
    approved_transactions = [];
  }

  unfoldable pub clear_agreed_transactions : Action (Peer db) (Unit {0})
  clear_agreed_transactions = change λ a. record a {
    transactions = [];
    event_agreed_transactions = [];
    agreed_cold_storage_transactions = [];
  }

module _ (db : Database) (verifier : Verifier db) (guard : Guard) where
  -- Enough guards agreed: so does this one, unless it agreed to another transaction for the event.
  pub approve_known :
      Option CandidateTransaction
      → Option String
      → PaymentTransaction
      → ℕ
      → Action (Peer db) (Unit {0})
  approve_known (some candidate) current tx sender_index = set_tx_as_approved db guard tx
  approve_known none none tx sender_index = do
    verified ← verify_transaction_request db verifier guard tx sender_index
    if verified then set_tx_as_approved db guard tx else pure tt
  approve_known none (some current) tx sender_index =
      if current == tx.tx_id then raise impossible_behavior else pure tt

  pub approve_counted : Option ℕ → PaymentTransaction → ℕ → Action (Peer db) (Unit {0})
  approve_counted none tx sender_index w = (ok tt, w)
  approve_counted (some signs) tx sender_index w =
      (if ltb signs guard.required_sign
          then pure tt
          else approve_known (get tx.tx_id w.agreement.transactions)
              (get tx.event_id w.agreement.event_agreed_transactions) tx sender_index)
        w

  pub process_approval_message :
      PaymentTransaction → ℕ → List String → ℕ → Action (Peer db) (Unit {0})
  process_approval_message tx sender_index signatures timestamp = do
    signs ← lift (verified_signs db guard tx.tx_id timestamp 0 signatures)
    approve_counted signs tx sender_index

  pub process_message_of : Message → ℕ → String → String → Action (Peer db) (Unit {0})
  process_message_of (request tx_json timestamp) sender_index signature peer_id = do
    tx ← parse db guard tx_json
    process_transaction_request db verifier guard tx sender_index timestamp peer_id
  process_message_of (response tx_id _ timestamp) sender_index signature peer_id =
      process_agreement_response db guard tx_id sender_index signature timestamp
  process_message_of (approval tx_json signatures timestamp) sender_index signature peer_id = do
    tx ← parse db guard tx_json
    process_approval_message tx sender_index signatures timestamp

  -- Errors are logged.
  pub process_message : Message → ℕ → String → String → Action (Peer db) (Unit {0})
  process_message m sender_index signature peer_id =
      attempt (process_message_of m sender_index signature peer_id)
