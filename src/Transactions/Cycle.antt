-- ===== src/Transactions/Cycle.antt =====
-- The life cycle of a transaction, and the writes of the processor to the transaction table.
use ts_gaurd_service.Base.{
  ℕ, ◌≡◌, refl, ◌⊎◌, inl, inr, Bool, true, false, ◌&&◌, Option, none, some, String, ◌==◌, string_eq,
  arith, count, Result, count_congr, ◌+◌,
}
use ts_gaurd_service.Constants.{
  TransactionStatus, tx_status_eq, type_eq, approved, in_sign, sign_failed, sent, invalid,
}
use ts_gaurd_service.Database.Repository.{rows}
use ts_gaurd_service.Database.Entities.{TransactionEntity, Database, Store}
use ts_gaurd_service.Database.Evolution.{Evolves, Evolves-refl, update-Evolves}
use ts_gaurd_service.Database.Actions.{
  write_transactions, set_tx_status, set_tx_as_sign_failed, update_tx_last_check,
}
use ts_gaurd_service.Transactions.{
  World, Environment, set_status, process_approved_tx, process_in_sign_tx, handle_failed_sign,
}

-- The life cycle of a transaction in the hands of the processor.
abbrev pub may_become : TransactionStatus → TransactionStatus → Bool
may_become approved in_sign = true
may_become in_sign sign_failed = true
may_become sign_failed in_sign = true
may_become sign_failed sent = true
may_become sign_failed invalid = true
may_become TransactionStatus.signed sent = true
may_become sent TransactionStatus.completed = true
may_become sent invalid = true
may_become _ _ = false

-- A row after one step: the same transaction for the same event or order, its status as it was or
-- one edge further.
pub record TxStep (r r' : TransactionEntity) : Type 0 where
  pub same_id : r'.tx_id ≡ r.tx_id
  pub same_type : r'.type ≡ r.type
  pub same_chain : r'.chain ≡ r.chain
  pub same_event : r'.event ≡ r.event
  pub same_order : r'.order ≡ r.order
  pub same_json : r'.tx_json ≡ r.tx_json
  pub along : (r'.status ≡ r.status) ⊎ (may_become r.status r'.status ≡ true)

pub TxStep-refl : (r : TransactionEntity) → TxStep r r
TxStep-refl r = record {
  same_id = refl;
  same_type = refl;
  same_chain = refl;
  same_event = refl;
  same_order = refl;
  same_json = refl;
  along = inl refl;
}

pub write-Evolves :
    (db : Database) (o : Option db.transactions.Table) (s : Store db)
    → ((t : db.transactions.Table) → o ≡ some t → Evolves db.transactions TxStep s.transactions t)
    → Evolves db.transactions TxStep s.transactions (write_transactions db o s).1.transactions
write-Evolves db none s k = Evolves-refl db.transactions TxStep TxStep-refl s.transactions
write-Evolves db (some t) s k = k t refl

module _ (db : Database) (env : Environment) (tx : TransactionEntity) where
  abbrev pub is_it : TransactionEntity → Bool
  is_it r = r.tx_id == tx.tx_id

  -- The row of the transaction has the status with which it was read.
  abbrev pub IsFresh : Store db → Type 0
  IsFresh s =
      count (λ r. is_it r && r.status == tx.status) (rows db.transactions s.transactions)
      ≡ count is_it (rows db.transactions s.transactions)

  -- The transaction table after an action, by rows.
  abbrev pub At : World db → World db → Type 0
  At w v = Evolves db.transactions TxStep w.store.transactions v.store.transactions

  abbrev pub Moves : World db → Result (Unit {0}) × World db → Type 0
  Moves w r = At w r.1

  pub still : (w : World db) → At w w
  still w = Evolves-refl db.transactions TxStep TxStep-refl w.store.transactions

  module _ (w : World db) (fresh : IsFresh w.store) where
    pub set_status-Moves :
        (status : TransactionStatus)
        → may_become tx.status status ≡ true
        → Moves w (set_status db env tx.tx_id status w)
    unfolding set_tx_status
    set_status-Moves status edge =
        let f = λ (r : TransactionEntity). record r {
          status = status;
          last_status_update = some env.now;
        } in
        write-Evolves db (db.transactions.update is_it f w.store.transactions) w.store λ t e.
          update-Evolves db.transactions TxStep TxStep-refl w.store.transactions t is_it
            (λ r. r.status == tx.status) f e
            (λ r _ s. record {
              same_id = refl;
              same_type = refl;
              same_chain = refl;
              same_event = refl;
              same_order = refl;
              same_json = refl;
              along = inr (rw ((tx_status_eq.beq_iff r.status tx.status).0 s) edge);
            })
            fresh

    pub process_approved_tx-Moves :
        may_become tx.status in_sign ≡ true → Moves w (process_approved_tx db env tx w)
    unfolding process_approved_tx
    process_approved_tx-Moves edge = ground (arith, set_status-Moves in_sign edge, still w)

  module _ (w : World db) where
    -- Marking as sign-failed moves only a transaction that is in sign.
    pub set_tx_as_sign_failed-Moves : (tx_id : String) → Moves w (handle_failed_sign db env tx_id w)
    unfolding handle_failed_sign set_tx_as_sign_failed
    set_tx_as_sign_failed-Moves tx_id =
        let p = λ (r : TransactionEntity). r.tx_id == tx_id && r.status == in_sign in
        let f = λ (r : TransactionEntity). record r {
          status = sign_failed;
          last_status_update = some env.now;
          sign_failed_count = r.sign_failed_count + 1;
          failed_in_sign = true;
        } in
        write-Evolves db (db.transactions.update p f w.store.transactions) w.store λ t e.
          update-Evolves db.transactions TxStep TxStep-refl w.store.transactions t p p f e
            (λ r _ s. record {
              same_id = refl;
              same_type = refl;
              same_chain = refl;
              same_event = refl;
              same_order = refl;
              same_json = refl;
              along = inr (rw ((tx_status_eq.beq_iff r.status in_sign).0 (ground arith)) refl);
            })
            (count_congr _ _ (λ r. ground arith) (rows db.transactions w.store.transactions))

    pub update_tx_last_check-Moves :
        (tx_id : String) (height : ℕ)
        → Evolves db.transactions TxStep w.store.transactions
            (update_tx_last_check db tx_id height w.store).1.transactions
    unfolding update_tx_last_check
    update_tx_last_check-Moves tx_id height =
        let p = λ (r : TransactionEntity). r.tx_id == tx_id in
        let f = λ (r : TransactionEntity). record r { last_check = height } in
        write-Evolves db (db.transactions.update p f w.store.transactions) w.store λ t e.
          update-Evolves db.transactions TxStep TxStep-refl w.store.transactions t p p f e
            (λ r _ s. record {
              same_id = refl;
              same_type = refl;
              same_chain = refl;
              same_event = refl;
              same_order = refl;
              same_json = refl;
              along = inl refl;
            })
            (count_congr _ _ (λ r. ground arith) (rows db.transactions w.store.transactions))

    pub process_in_sign_tx-Moves : Moves w (process_in_sign_tx db env tx w)
    unfolding process_in_sign_tx handle_failed_sign
    process_in_sign_tx-Moves = ground (arith, set_tx_as_sign_failed-Moves tx.tx_id, still w)
