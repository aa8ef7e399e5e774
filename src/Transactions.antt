-- ===== src/Transactions.antt =====
-- TransactionProcessor of src/transaction/TransactionProcessor.ts: an approved transaction is sent
-- to the signer, submitted, confirmed, or found invalid. The chains are not part of this
-- repository: their answers while one transaction is processed are arguments, which may be errors.
-- What the service sends out (sign requests, submissions, notifications) is recorded in order.
pub mod Cycle
pub mod Steps
pub mod Validity
pub mod Outcomes
pub mod Confirmed
use ts_gaurd_service.Base.{
  ℕ, zero, ◌+◌, Bool, true, false, not, ◌&&◌, ◌||◌, Option, none, some, List, [], ◌∷◌, ◌++◌, String,
  if◌then◌else◌, ltb, leb, ◌==◌, string_eq, Action, Result, ok, err, null_reference, chain_failed,
  impossible_behavior, pure, raise, gets, lift, or_raise, attempt, for_each, ◌>>=◌, ◌>>◌, Eq,
  enum_eq, ◌≡◌, arith,
}
use ts_gaurd_service.Constants.{
  TransactionStatus, EventStatus, OrderStatus, TransactionType, type_eq, approved, in_sign,
  sign_failed, sent, invalid, pending_payment, pending_reward, payment, reward, cold_storage,
  manual, arbitrary, other,
}
use ts_gaurd_service.Database.Entities.{PaymentTransaction, TransactionEntity, Database, Store}
use ts_gaurd_service.Database.Actions.{
  set_tx_status, set_tx_as_sign_failed, update_with_signed_tx, update_tx_last_check,
  set_event_status, set_event_status_to_pending, set_order_status, get_active_transactions,
}

pub data ConfirmationStatus : Type 0 where
  confirmed_enough not_confirmed_enough not_found : ConfirmationStatus

pub data SigningStatus : Type 0 where
  signed unsigned : SigningStatus

pub record InvalidationDetails : Type 0 where
  pub reason : String
  pub unexpected : Bool

pub record ValidityStatus : Type 0 where
  pub is_valid : Bool
  pub details : Option InvalidationDetails

-- The answers of a chain (`AbstractChain`).
pub record Chain : Type 0 where
  pub get_height : Result ℕ
  pub get_tx_confirmation_status : String → TransactionType → Result ConfirmationStatus
  pub is_tx_in_mempool : String → Result Bool
  pub is_tx_valid : PaymentTransaction → SigningStatus → Result ValidityStatus
  pub submit_transaction : PaymentTransaction → Result (Unit {0})
  pub get_tx_required_confirmation : TransactionType → ℕ

pub record Environment : Type 0 where
  pub get_chain : String → Result Chain
  pub ergo_chain : String
  pub now : ℕ
  pub tx_sign_timeout : ℕ

pub data Output : Type 0 where
  sign_request : PaymentTransaction → ℕ → Output
  submission : PaymentTransaction → Output
  notification : String → Output

pub record World (db : Database) : Type 0 where
  pub store : Store db
  pub outputs : List Output

-- `Number(…)` of a nullable column
abbrev pub number : Option ℕ → ℕ
number none = 0
number (some n) = n

-- Known to the chain: the mempool is asked only of a transaction that is in no block.
abbrev pub is_found : Chain → String → ConfirmationStatus → Result Bool
is_found chain tx_id not_found = chain.is_tx_in_mempool tx_id
is_found chain tx_id confirmed_enough = ok true
is_found chain tx_id not_confirmed_enough = ok true

module _ (db : Database) (env : Environment) where
  abbrev pub in_store : {A : Type 0} → Action (Store db) A → Action (World db) A
  in_store m w = let (r, s) = m w.store in (r, record w { store = s })

  abbrev pub emit : Output → Action (World db) (Unit {0})
  emit o w = (ok tt, record w { outputs = w.outputs ++ o ∷ [] })

  abbrev pub from_json : String → Action (World db) PaymentTransaction
  from_json json = or_raise (db.from_json json) chain_failed

  abbrev pub set_status : String → TransactionStatus → Action (World db) (Unit {0})
  set_status tx_id status = in_store (set_tx_status db env.now tx_id status)

  pub process_approved_tx : TransactionEntity → Action (World db) (Unit {0})
  process_approved_tx tx = attempt do
    chain ← lift (env.get_chain tx.chain)
    payment_tx ← from_json tx.tx_json
    set_status tx.tx_id in_sign
    emit (sign_request payment_tx tx.required_sign)

  unfoldable pub handle_successful_sign : PaymentTransaction → Action (World db) (Unit {0})
  handle_successful_sign tx = do
    chain ← lift (env.get_chain tx.network)
    current_height ← lift chain.get_height
    in_store (update_with_signed_tx db env.now tx.tx_id (db.to_json tx) current_height)

  pub handle_failed_sign : String → Action (World db) (Unit {0})
  handle_failed_sign tx_id = in_store (set_tx_as_sign_failed db env.now tx_id)

  pub process_in_sign_tx : TransactionEntity → Action (World db) (Unit {0})
  process_in_sign_tx tx =
      if ltb (number tx.last_status_update + env.tx_sign_timeout) env.now
      then in_store (set_tx_as_sign_failed db env.now tx.tx_id)
      else pure tt

  -- The event or order whose transaction is invalid may be processed again.
  unfoldable pub reset_related :
      TransactionType → TransactionEntity → Bool → Action (World db) (Unit {0})
  reset_related payment tx unexpected = do
    event_id ← or_raise tx.event null_reference
    in_store (set_event_status db event_id pending_payment unexpected)
  reset_related reward tx unexpected = do
    event_id ← or_raise tx.event null_reference
    in_store (set_event_status db event_id pending_reward unexpected)
  reset_related arbitrary tx unexpected = do
    order_id ← or_raise tx.order null_reference
    in_store (set_order_status db env.now order_id OrderStatus.pending false unexpected)
  reset_related cold_storage tx unexpected = pure tt
  reset_related manual tx unexpected = pure tt
  reset_related other tx unexpected = pure tt

  unfoldable pub notify_if : Bool → String → Action (World db) (Unit {0})
  notify_if unexpected tx_id = if unexpected then emit (notification tx_id) else pure tt

  unfoldable pub mark_as_invalid : TransactionEntity → Bool → Action (World db) (Unit {0})
  mark_as_invalid tx unexpected = do
    set_status tx.tx_id invalid
    notify_if unexpected tx.tx_id
    reset_related tx.type tx unexpected

  -- `height - lastCheck >= required`, with the subtraction moved to the other side.
  unfoldable pub set_transaction_as_invalid :
      TransactionEntity → Chain → Option InvalidationDetails → Action (World db) (Unit {0})
  set_transaction_as_invalid tx chain none = raise impossible_behavior
  set_transaction_as_invalid tx chain (some details) = do
    height ← lift chain.get_height
    if leb (chain.get_tx_required_confirmation tx.type + tx.last_check) height
        then mark_as_invalid tx details.unexpected
        else pure tt

  -- A transaction that its chain does not know is signed again, or is invalid.
  revalidate_unsigned : Chain → TransactionEntity → Action (World db) (Unit {0})
  revalidate_unsigned chain tx = do
    payment_tx ← from_json tx.tx_json
    validity ← lift (chain.is_tx_valid payment_tx unsigned)
    if validity.is_valid
        then process_approved_tx tx
        else set_transaction_as_invalid tx chain validity.details

  pub process_sign_failed_tx : TransactionEntity → Action (World db) (Unit {0})
  process_sign_failed_tx tx = do
    chain ← lift (env.get_chain tx.chain)
    tx_confirmation ← lift (chain.get_tx_confirmation_status tx.tx_id tx.type)
    found ← lift (is_found chain tx.tx_id tx_confirmation)
    if found then set_status tx.tx_id sent else revalidate_unsigned chain tx

  abbrev pub submit : Chain → PaymentTransaction → Action (World db) (Unit {0})
  submit chain tx = do lift (chain.submit_transaction tx); emit (submission tx)

  pub process_signed_tx : TransactionEntity → Action (World db) (Unit {0})
  process_signed_tx tx = do
    chain ← lift (env.get_chain tx.chain)
    payment_tx ← from_json tx.tx_json
    submit chain payment_tx
    set_status tx.tx_id sent

  -- The event or order of a transaction that is confirmed enough proceeds.
  unfoldable pub proceed_related :
      TransactionType → TransactionEntity → Action (World db) (Unit {0})
  proceed_related payment tx = do
    event_id ← or_raise tx.event null_reference
    if tx.chain == env.ergo_chain
        then in_store (set_event_status db event_id EventStatus.completed false)
        else in_store (set_event_status_to_pending db env.now event_id pending_reward)
  proceed_related reward tx = do
    event_id ← or_raise tx.event null_reference
    in_store (set_event_status db event_id EventStatus.completed false)
  proceed_related arbitrary tx = do
    order_id ← or_raise tx.order null_reference
    in_store (set_order_status db env.now order_id OrderStatus.completed false false)
  proceed_related cold_storage tx = pure tt
  proceed_related manual tx = pure tt
  proceed_related other tx = pure tt

  pub update_last_check : Chain → TransactionEntity → Action (World db) (Unit {0})
  update_last_check chain tx = do
    height ← lift chain.get_height
    in_store (update_tx_last_check db tx.tx_id height)

  -- A transaction that has left the mempool is submitted again, or is invalid.
  pub revalidate_signed : Chain → TransactionEntity → Action (World db) (Unit {0})
  revalidate_signed chain tx = do
    payment_tx ← from_json tx.tx_json
    validity ← lift (chain.is_tx_valid payment_tx SigningStatus.signed)
    if validity.is_valid
        then submit chain payment_tx
        else set_transaction_as_invalid tx chain validity.details

  -- A transaction that was sent, by what its chain says of it.
  unfoldable pub process_sent_as :
      ConfirmationStatus → Chain → TransactionEntity → Action (World db) (Unit {0})
  process_sent_as confirmed_enough chain tx = do
    set_status tx.tx_id TransactionStatus.completed
    proceed_related tx.type tx
  process_sent_as not_confirmed_enough chain tx = update_last_check chain tx
  process_sent_as not_found chain tx = do
    in_mempool ← lift (chain.is_tx_in_mempool tx.tx_id)
    if in_mempool then update_last_check chain tx else revalidate_signed chain tx

  pub process_sent_tx : TransactionEntity → Action (World db) (Unit {0})
  process_sent_tx tx = do
    chain ← lift (env.get_chain tx.chain)
    tx_confirmation ← lift (chain.get_tx_confirmation_status tx.tx_id tx.type)
    process_sent_as tx_confirmation chain tx

  process_with_status : TransactionStatus → TransactionEntity → Action (World db) (Unit {0})
  process_with_status approved tx = process_approved_tx tx
  process_with_status in_sign tx = process_in_sign_tx tx
  process_with_status sign_failed tx = process_sign_failed_tx tx
  process_with_status TransactionStatus.signed tx = process_signed_tx tx
  process_with_status sent tx = process_sent_tx tx
  process_with_status invalid tx = pure tt
  process_with_status TransactionStatus.completed tx = pure tt

  -- One round of the loop of `processTransactions`; errors are logged.
  pub process_tx : TransactionEntity → Action (World db) (Unit {0})
  process_tx tx = attempt (process_with_status tx.status tx)

  pub process_transactions : Action (World db) (Unit {0})
  process_transactions w = for_each (get_active_transactions db w.store) process_tx w
