-- ===== src/Transactions/Steps.antt =====
-- The processor moves each transaction along the edges of its life cycle, and no other row.
use ts_gaurd_service.Base.{
  ◌≡◌, refl, subst⁻¹, Bool, true, Option, none, some, if◌then◌else◌, string_eq, arith, bind_cases,
  if_cases, pure, lift, ◌>>=◌,
}
use ts_gaurd_service.Constants.{
  TransactionStatus, TransactionType, tx_status_eq, type_eq, approved, in_sign, sign_failed, sent,
  invalid, payment, reward, arbitrary,
}
use ts_gaurd_service.Database.Entities.{PaymentTransaction, TransactionEntity, Database}
use ts_gaurd_service.Database.Evolution.{Evolves}
use ts_gaurd_service.Database.Actions.{
  update_tx_last_check, set_event_status, set_event_status_to_pending, set_order_status,
}
use ts_gaurd_service.Transactions.{
  World, Environment, Chain, ValidityStatus, InvalidationDetails, set_status, process_approved_tx,
  process_sign_failed_tx, process_signed_tx, process_sent_tx, process_sent_as, proceed_related,
  reset_related, set_transaction_as_invalid, process_with_status, process_tx, ConfirmationStatus,
  SigningStatus, confirmed_enough, not_confirmed_enough, not_found, in_store, from_json, submit,
  is_found, unsigned, notify_if, mark_as_invalid, revalidate_unsigned, revalidate_signed,
  update_last_check,
}
use ts_gaurd_service.Transactions.Cycle.{
  may_become, TxStep, At, Moves, IsFresh, still, set_status-Moves, process_approved_tx-Moves,
  update_tx_last_check-Moves, process_in_sign_tx-Moves,
}

module _ (db : Database) (env : Environment) (tx : TransactionEntity) where
  module _ (w : World db) where
    -- What follows the status change writes to other tables.
    pub reset_related-transactions :
        (type : TransactionType) (unexpected : Bool)
        → (reset_related db env type tx unexpected w).1.store.transactions ≡ w.store.transactions
    unfolding reset_related set_event_status set_order_status
    reset_related-transactions payment unexpected = ground arith
    reset_related-transactions reward unexpected = ground arith
    reset_related-transactions arbitrary unexpected = ground arith
    reset_related-transactions type unexpected = ground arith

    pub proceed_related-transactions :
        (type : TransactionType)
        → (proceed_related db env type tx w).1.store.transactions ≡ w.store.transactions
    unfolding proceed_related set_event_status set_order_status set_event_status_to_pending
    proceed_related-transactions payment = ground arith
    proceed_related-transactions reward = ground arith
    proceed_related-transactions arbitrary = ground arith
    proceed_related-transactions type = ground arith

  module _ (w : World db) (fresh : IsFresh db env tx w.store) where
    mark_as_invalid-Moves :
        (unexpected : Bool)
        → may_become tx.status invalid ≡ true
        → Moves db env tx w (mark_as_invalid db env tx unexpected w)
    unfolding mark_as_invalid notify_if
    mark_as_invalid-Moves unexpected edge =
        let marked = (set_status db env tx.tx_id invalid w).1 in
        let notify = notify_if db env unexpected tx.tx_id in
        let reset = λ (_ : Unit {0}). reset_related db env tx.type tx unexpected in
        let moved = set_status-Moves db env tx w fresh invalid edge in
        let noted : At db env tx w (notify marked).1 =
          if_cases (At db env tx w) unexpected _ (pure tt) marked moved moved in
        bind_cases (At db env tx w) (set_status db env tx.tx_id invalid) (λ _. notify >>= reset) w
          moved
          λ _. bind_cases (At db env tx w) notify reset marked noted λ _.
            subst⁻¹ (Evolves db.transactions TxStep w.store.transactions)
              (reset_related-transactions (notify marked).1 tx.type unexpected) noted

    set_transaction_as_invalid-Moves :
        (chain : Chain) (details : Option InvalidationDetails)
        → may_become tx.status invalid ≡ true
        → Moves db env tx w (set_transaction_as_invalid db env tx chain details w)
    unfolding set_transaction_as_invalid
    set_transaction_as_invalid-Moves chain none edge = still db env tx w
    set_transaction_as_invalid-Moves chain (some details) edge =
        ground (arith, mark_as_invalid-Moves details.unexpected edge, still db env tx w)

    revalidate_unsigned-Moves :
        (chain : Chain)
        → tx.status ≡ sign_failed
        → Moves db env tx w (revalidate_unsigned db env chain tx w)
    unfolding revalidate_unsigned
    revalidate_unsigned-Moves chain failed =
        let decide = λ (v : ValidityStatus).
          if v.is_valid
          then process_approved_tx db env tx
          else set_transaction_as_invalid db env tx chain v.details in
        bind_cases (At db env tx w) (from_json db env tx.tx_json)
          (λ p. lift (chain.is_tx_valid p unsigned) >>= decide) w (still db env tx w)
          λ p.
            bind_cases (At db env tx w) (lift (chain.is_tx_valid p unsigned)) decide w
              (still db env tx w)
              λ v.
                if_cases (At db env tx w) v.is_valid (process_approved_tx db env tx)
                  (set_transaction_as_invalid db env tx chain v.details) w
                  (process_approved_tx-Moves db env tx w fresh (rw failed refl))
                  (set_transaction_as_invalid-Moves chain v.details (rw failed refl))

    process_sign_failed_tx-Moves :
        tx.status ≡ sign_failed → Moves db env tx w (process_sign_failed_tx db env tx w)
    unfolding process_sign_failed_tx
    process_sign_failed_tx-Moves failed =
        let proceed = λ (chain : Chain) (found : Bool).
          if found then set_status db env tx.tx_id sent else revalidate_unsigned db env chain tx in
        let look = λ (chain : Chain) (c : ConfirmationStatus).
          lift (is_found chain tx.tx_id c) >>= proceed chain in
        let ask = λ (chain : Chain).
          lift {S = World db} (chain.get_tx_confirmation_status tx.tx_id tx.type) in
        bind_cases (At db env tx w) (lift (env.get_chain tx.chain)) (λ c. ask c >>= look c) w
          (still db env tx w)
          λ c. bind_cases (At db env tx w) (ask c) (look c) w (still db env tx w) λ found.
            bind_cases (At db env tx w) (lift (is_found c tx.tx_id found)) (proceed c) w
              (still db env tx w)
              λ b.
                if_cases (At db env tx w) b (set_status db env tx.tx_id sent)
                  (revalidate_unsigned db env c tx) w
                  (set_status-Moves db env tx w fresh sent (rw failed refl))
                  (revalidate_unsigned-Moves c failed)

    process_signed_tx-Moves :
        tx.status ≡ TransactionStatus.signed → Moves db env tx w (process_signed_tx db env tx w)
    unfolding process_signed_tx
    process_signed_tx-Moves is_signed =
        ground
          (arith, still db env tx w, set_status-Moves db env tx w fresh sent (rw is_signed refl))

    update_last_check-Moves :
        (chain : Chain) → Moves db env tx w (update_last_check db env chain tx w)
    unfolding update_last_check
    update_last_check-Moves chain =
        bind_cases (At db env tx w) (lift chain.get_height)
          (λ height. in_store db env (update_tx_last_check db tx.tx_id height)) w
          (still db env tx w) λ height. update_tx_last_check-Moves db env tx w tx.tx_id height

    revalidate_signed-Moves :
        (chain : Chain) → tx.status ≡ sent → Moves db env tx w (revalidate_signed db env chain tx w)
    unfolding revalidate_signed
    revalidate_signed-Moves chain is_sent =
        let decide = λ (p : PaymentTransaction) (v : ValidityStatus).
          if v.is_valid
          then submit db env chain p
          else set_transaction_as_invalid db env tx chain v.details in
        let ask = λ (p : PaymentTransaction).
          lift {S = World db} (chain.is_tx_valid p SigningStatus.signed) in
        bind_cases (At db env tx w) (from_json db env tx.tx_json) (λ p. ask p >>= decide p) w
          (still db env tx w)
          λ p. bind_cases (At db env tx w) (ask p) (decide p) w (still db env tx w) λ v.
            if_cases (At db env tx w) v.is_valid (submit db env chain p)
              (set_transaction_as_invalid db env tx chain v.details) w
              (ground (arith, still db env tx w))
              (set_transaction_as_invalid-Moves chain v.details (rw is_sent refl))

    process_sent_as-Moves :
        (c : ConfirmationStatus) (chain : Chain)
        → tx.status ≡ sent
        → Moves db env tx w (process_sent_as db env c chain tx w)
    unfolding process_sent_as
    process_sent_as-Moves confirmed_enough chain is_sent =
        let done = set_status db env tx.tx_id TransactionStatus.completed in
        let moved =
          set_status-Moves db env tx w fresh TransactionStatus.completed (rw is_sent refl) in
        bind_cases (At db env tx w) done (λ _. proceed_related db env tx.type tx) w moved
          λ _.
            subst⁻¹ (Evolves db.transactions TxStep w.store.transactions)
              (proceed_related-transactions (done w).1 tx.type) moved
    process_sent_as-Moves not_confirmed_enough chain is_sent = update_last_check-Moves chain
    process_sent_as-Moves not_found chain is_sent =
        bind_cases (At db env tx w) (lift (chain.is_tx_in_mempool tx.tx_id))
          (λ b. if b then update_last_check db env chain tx else revalidate_signed db env chain tx)
          w (still db env tx w)
          λ b.
            if_cases (At db env tx w) b (update_last_check db env chain tx)
              (revalidate_signed db env chain tx) w (update_last_check-Moves chain)
              (revalidate_signed-Moves chain is_sent)

    process_sent_tx-Moves : tx.status ≡ sent → Moves db env tx w (process_sent_tx db env tx w)
    unfolding process_sent_tx
    process_sent_tx-Moves is_sent =
        let ask = λ (chain : Chain).
          lift {S = World db} (chain.get_tx_confirmation_status tx.tx_id tx.type) in
        let act = λ (chain : Chain) (c : ConfirmationStatus). process_sent_as db env c chain tx in
        bind_cases (At db env tx w) (lift (env.get_chain tx.chain)) (λ c. ask c >>= act c) w
          (still db env tx w)
          λ c.
            bind_cases (At db env tx w) (ask c) (act c) w (still db env tx w)
              λ a. process_sent_as-Moves a c is_sent

    process_with_status-Moves :
        (status : TransactionStatus)
        → tx.status ≡ status
        → Moves db env tx w (process_with_status db env status tx w)
    unfolding process_with_status
    process_with_status-Moves approved e = process_approved_tx-Moves db env tx w fresh (rw e refl)
    process_with_status-Moves in_sign e = process_in_sign_tx-Moves db env tx w
    process_with_status-Moves sign_failed e = process_sign_failed_tx-Moves e
    process_with_status-Moves TransactionStatus.signed e = process_signed_tx-Moves e
    process_with_status-Moves sent e = process_sent_tx-Moves e
    process_with_status-Moves invalid e = still db env tx w
    process_with_status-Moves TransactionStatus.completed e = still db env tx w

    -- For a transaction whose row has the status with which it was read, one round of the loop of
    -- `processTransactions` leaves every transaction with its id, type, chain, JSON, event and
    -- order, and moves its status along one edge of the life cycle at most: whatever the chain
    -- answers, and whichever statement fails.
    pub process_tx-Moves : Moves db env tx w (process_tx db env tx w)
    unfolding process_tx
    process_tx-Moves = process_with_status-Moves tx.status refl
