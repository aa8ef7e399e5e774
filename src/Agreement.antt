-- ===== src/Agreement.antt =====
-- TxAgreement of src/agreement/TxAgreement.ts: guards agree on a transaction before it enters the
-- database. One message, or one call from a job, is one step. What the guard reads during a step
-- is an argument: the time, the keys, the verification of requests, the encryption and whether a
-- send raises. Arrays of signatures are shared between the maps, so they stand in a store of
-- arrays, and a map holds their position in it.
pub mod Approve
pub mod Requests
use ts_gaurd_service.Base.{
  ◌≡◌, ℕ, zero, suc, ◌+◌, Bool, true, false, not, ◌&&◌, ◌||◌, Option, none, some, List, [], ◌∷◌,
  ◌++◌, map, String, if◌then◌else◌, leb, ◌==◌, nat_eq, string_eq, length, any, select, Action,
  Result, ok, err, impossible_behavior, query_failed, chain_failed, pure, raise, gets, lift,
  or_raise, attempt, for_each, ◌>>=◌, ◌>>◌, Map, get, set, delete,
}
use ts_gaurd_service.Constants.{
  TransactionStatus, EventStatus, OrderStatus, TransactionType, tx_status_eq, type_eq, invalid,
  in_payment, in_reward, in_process, payment, reward, cold_storage, manual, arbitrary, other,
}
use ts_gaurd_service.Database.Entities.{PaymentTransaction, TransactionEntity, Database, Store}
use ts_gaurd_service.Database.Actions.{
  get_tx_by_id, get_unsigned_failed_sign_txs, set_event_status, set_order_status,
}
use ts_gaurd_service.Database.Handler.{insert_tx}
use ts_gaurd_service.Turn.{guard_turn}

pub record CandidateTransaction : Type 0 where
  pub tx : PaymentTransaction
  pub timestamp : ℕ

pub record ApprovedCandidate : Type 0 where
  pub tx : PaymentTransaction
  pub signatures : ℕ
  pub timestamp : ℕ

-- What a guard signs when it agrees: `{ txId }`, the time and the key of the creator, as a text.
pub record Content : Type 0 where
  pub tx_id : String
  pub timestamp : ℕ
  pub guard_pk : Option String

-- The payloads, with the receivers of a response and the time of the message.
pub data Message : Type 0 where
  request : String → ℕ → Message
  response : String → String → ℕ → Message
  approval : String → List String → ℕ → Message

pub record Agreement : Type 0 where
  pub transaction_queue : List PaymentTransaction
  pub transactions : Map CandidateTransaction
  pub event_agreed_transactions : Map String
  pub order_agreed_transactions : Map String
  pub agreed_cold_storage_transactions : Map String
  pub transaction_approvals : Map ℕ
  pub approved_transactions : List ApprovedCandidate
  pub arrays : List (List String)

pub record Peer (db : Database) : Type 0 where
  pub store : Store db
  pub agreement : Agreement
  pub sent : List Message

-- The verifiers of a request, which read the database and the chains. That of an event's
-- transaction may set the status of the event.
pub record Verifier (db : Database) : Type 0 where
  pub verify_tx_common_conditions : PaymentTransaction → Store db → Result Bool
  pub verify_event_transaction_request : PaymentTransaction → Action (Store db) Bool
  pub verify_cold_storage_transaction_request : PaymentTransaction → Store db → Result Bool
  pub verify_arbitrary_transaction_request : PaymentTransaction → Store db → Result Bool
  pub same_transactions :
      (tx : PaymentTransaction) (s : Store db)
      → (verify_event_transaction_request tx s).1.transactions ≡ s.transactions

pub record Guard : Type 0 where
  pub now : ℕ
  pub index : ℕ
  pub guard_pks : List String
  pub required_sign : ℕ
  pub verify : Content → String → Option String → Result Bool
  pub sign : Content → Result String
  pub send : Message → Result (Unit {0})

abbrev pub get_elem? : {A : Type 0} → List A → ℕ → Option A
get_elem? [] i = none
get_elem? (x ∷ xs) zero = some x
get_elem? (x ∷ xs) (suc i) = get_elem? xs i

-- `xs[i] = x`, where what is missing before it counts as the empty text.
abbrev pub assign : ℕ → String → List String → List String
assign zero x [] = x ∷ []
assign zero x (_ ∷ xs) = x ∷ xs
assign (suc i) x [] = "" ∷ assign i x []
assign (suc i) x (y ∷ xs) = y ∷ assign i x xs

abbrev pub replicate : ℕ → List String
replicate zero = []
replicate (suc n) = "" ∷ replicate n

abbrev pub array : ℕ → List (List String) → List String
array i [] = []
array zero (xs ∷ _) = xs
array (suc i) (_ ∷ xss) = array i xss

abbrev pub assign_in : ℕ → ℕ → String → List (List String) → List (List String)
assign_in ref i x [] = []
assign_in zero i x (xs ∷ xss) = assign i x xs ∷ xss
assign_in (suc ref) i x (xs ∷ xss) = xs ∷ assign_in ref i x xss

-- The signatures that are there.
abbrev pub signatures_of : List String → List String
signatures_of = select (λ s. not (s == ""))

-- The queue is emptied from its end.
abbrev pub reverse_onto :
    List PaymentTransaction → List PaymentTransaction → List PaymentTransaction
reverse_onto [] ys = ys
reverse_onto (x ∷ xs) ys = reverse_onto xs (x ∷ ys)

module _ {db : Database} where
  abbrev pub in_store : {A : Type 0} → Action (Store db) A → Action (Peer db) A
  in_store m w = let (r, s) = m w.store in (r, record w { store = s })

  abbrev pub change : (Agreement → Agreement) → Action (Peer db) (Unit {0})
  change f w = (ok tt, record w { agreement = f w.agreement })

  abbrev pub ask : (Store db → Result Bool) → Action (Peer db) Bool
  ask question w = (question w.store, w)

  -- `transactionQueue.push`
  unfoldable pub add_transaction_to_queue : PaymentTransaction → Action (Peer db) (Unit {0})
  add_transaction_to_queue tx =
      change λ a. record a { transaction_queue = a.transaction_queue ++ tx ∷ [] }

module _ (db : Database) (guard : Guard) where
  -- A message that is not sent raises.
  abbrev pub send_message : Message → Action (Peer db) (Unit {0})
  send_message m = do lift (guard.send m); λ w. (ok tt, record w { sent = w.sent ++ m ∷ [] })

  abbrev pub parse : String → Action (Peer db) PaymentTransaction
  parse json = or_raise (db.from_json json) chain_failed

  pub enqueue_sign_failed_txs : Action (Peer db) (Unit {0})
  enqueue_sign_failed_txs w =
      for_each
        (select (λ (r : TransactionEntity). not (r.type == manual))
          (get_unsigned_failed_sign_txs db w.store))
        (λ r. do tx ← parse r.tx_json; add_transaction_to_queue tx) w

  abbrev pub broadcast_transaction_request : PaymentTransaction → ℕ → Action (Peer db) (Unit {0})
  broadcast_transaction_request tx timestamp = send_message (request (db.to_json tx) timestamp)

  abbrev pub sign_candidate_message : String → ℕ → Action (Peer db) String
  sign_candidate_message tx_id timestamp = lift (
      guard.sign (record {
        tx_id = tx_id;
        timestamp = timestamp;
        guard_pk = get_elem? guard.guard_pks guard.index;
      }))

  -- A new array of approvals, with this guard's own.
  abbrev pub become_candidate : PaymentTransaction → String → Agreement → Agreement
  become_candidate tx signature a = record a {
    transactions = set tx.tx_id (record { tx = tx; timestamp = guard.now }) a.transactions;
    transaction_approvals = set tx.tx_id (length a.arrays) a.transaction_approvals;
    arrays = a.arrays ++ assign guard.index signature (replicate (length guard.guard_pks)) ∷ [];
  }

  pub start_agreement : PaymentTransaction → Action (Peer db) (Unit {0})
  start_agreement tx = attempt do
    broadcast_transaction_request tx guard.now
    signature ← sign_candidate_message tx.tx_id guard.now
    change (become_candidate tx signature)

  pub process_agreement_queue : Action (Peer db) (Unit {0})
  process_agreement_queue w =
      for_each (reverse_onto w.agreement.transaction_queue []) start_agreement
        (record w { agreement = record (w.agreement) { transaction_queue = [] } })

-- Agreed to another transaction.
abbrev pub agreed_to_other : String → Option String → Bool
agreed_to_other tx_id none = false
agreed_to_other tx_id (some agreed) = not (agreed == tx_id)

-- The transaction agreed to for the same event, chain or order.
abbrev pub agreed_for : TransactionType → PaymentTransaction → Agreement → Option String
agreed_for payment tx a = get tx.event_id a.event_agreed_transactions
agreed_for reward tx a = get tx.event_id a.event_agreed_transactions
agreed_for cold_storage tx a = get tx.network a.agreed_cold_storage_transactions
agreed_for arbitrary tx a = get tx.event_id a.order_agreed_transactions
agreed_for manual tx a = none
agreed_for other tx a = none

abbrev pub agree : TransactionType → PaymentTransaction → Agreement → Agreement
agree payment tx a = record a {
  event_agreed_transactions = set tx.event_id tx.tx_id a.event_agreed_transactions;
}
agree reward tx a = record a {
  event_agreed_transactions = set tx.event_id tx.tx_id a.event_agreed_transactions;
}
agree cold_storage tx a = record a {
  agreed_cold_storage_transactions = set tx.network tx.tx_id a.agreed_cold_storage_transactions;
}
agree arbitrary tx a = record a {
  order_agreed_transactions = set tx.event_id tx.tx_id a.order_agreed_transactions;
}
agree manual tx a = a
agree other tx a = a

abbrev pub is_turn_of : ℕ → Option ℕ → Bool
is_turn_of creator none = false
is_turn_of creator (some turn) = turn == creator

module _ (db : Database) (verifier : Verifier db) (guard : Guard) where
  abbrev pub verify_request : TransactionType → PaymentTransaction → Action (Store db) Bool
  verify_request payment tx s = verifier.verify_event_transaction_request tx s
  verify_request reward tx s = verifier.verify_event_transaction_request tx s
  verify_request cold_storage tx s = (verifier.verify_cold_storage_transaction_request tx s, s)
  verify_request arbitrary tx s = (verifier.verify_arbitrary_transaction_request tx s, s)
  verify_request manual tx s = (ok false, s)
  verify_request other tx s = (ok false, s)

  -- The unique conditions of a type.
  unfoldable pub verify_unique : TransactionType → PaymentTransaction → Action (Peer db) Bool
  verify_unique type tx w =
      if agreed_to_other tx.tx_id (agreed_for type tx w.agreement)
      then (ok false, w)
      else (do
        verified ← in_store (verify_request type tx)
        if verified then (do change (agree type tx); pure true) else pure false)
          w

  unfoldable pub verify_transaction_request : PaymentTransaction → ℕ → Action (Peer db) Bool
  verify_transaction_request tx creator_id =
      if is_turn_of creator_id (guard_turn (length guard.guard_pks) guard.now)
      then (do
        common ← ask (verifier.verify_tx_common_conditions tx)
        if common then verify_unique tx.tx_type tx else pure false)
      else pure false

  pub process_transaction_request :
      PaymentTransaction → ℕ → ℕ → String → Action (Peer db) (Unit {0})
  process_transaction_request tx creator_id timestamp receiver = do
    verified ← verify_transaction_request tx creator_id
    if verified
        then (do
          change λ a. record a {
            transactions = set tx.tx_id (record { tx = tx; timestamp = timestamp }) a.transactions;
          }
          send_message db guard (response tx.tx_id receiver timestamp))
        else pure tt
