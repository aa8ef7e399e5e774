-- ===== src/Transactions/Validity.antt =====
-- The processor keeps one valid transaction for each event and type; a late signature does not.
use ts_gaurd_service.Base.{
  ◌+◌, ◌≡◌, ◌∙◌, inl, inr, Bool, true, ◌&&◌, String, ◌==◌, string_eq, arith, count, ok,
  count_and_le, count-update_gain, Action, bind_ok, lift,
}
use ts_gaurd_service.Constants.{TransactionType, tx_status_eq, event_status_eq, type_eq, invalid}
use ts_gaurd_service.Database.Repository.{rows}
use ts_gaurd_service.Database.Entities.{PaymentTransaction, TransactionEntity, Database, Store}
use ts_gaurd_service.Database.Actions.{is_valid_event_tx, is_ref, update_with_signed_tx, signed_row}
use ts_gaurd_service.Database.Lookups.{write_transactions-ok}
use ts_gaurd_service.Database.OneValid.{OneValid, NoMore, Evolves-OneValid}
use ts_gaurd_service.Transactions.{World, Environment, handle_successful_sign, process_tx, in_store}
use ts_gaurd_service.Transactions.Cycle.{may_become, TxStep, IsFresh}
use ts_gaurd_service.Transactions.Steps.{process_tx-Moves}

pub in_store-ok :
    (db : Database) (env : Environment) (m : Action (Store db) (Unit {0})) (w : World db)
    {w' : World db}
    → in_store db env m w ≡ (ok tt, w')
    → m w.store ≡ (ok tt, w'.store)
in_store-ok db env m w e = λ i. ((e i).0, (e i).1.store)

-- No edge of the life cycle leaves `invalid`.
TxStep-NoMore : (r r' : TransactionEntity) → TxStep r r' → NoMore r r'
TxStep-NoMore r r' h = record {
  same_event = h.same_event;
  same_order = h.same_order;
  same_type = inr h.same_type;
  not_revived = λ i. elim h.along [
    | inl same ↦ same ∙ i
    | inr edge ↦
        let none_leaves : may_become invalid r'.status ≡ true = rw i at edge in ground arith
  ];
}

module _ (db : Database) (env : Environment) (tx : TransactionEntity) (w : World db) where
  -- Where every event has one valid transaction of a type at most, and every order one, and no
  -- transaction belongs to both, the same holds after one round of the loop of
  -- `processTransactions` for a transaction whose row has the status with which it was read.
  pub process_tx-OneValid :
      IsFresh db env tx w.store
      → OneValid db w.store.transactions
      → OneValid db (process_tx db env tx w).1.store.transactions
  process_tx-OneValid fresh h =
      let step = process_tx-Moves db env tx w fresh in
      Evolves-OneValid db h step.change step.explains
        (λ r. TxStep-NoMore r (step.change r) (step.related r))

module _ (db : Database) (env : Environment) (tx : PaymentTransaction) (event : String)
    (type : TransactionType) where
  -- The row of the signed transaction, marked invalid, of this event and type.
  abbrev pub is_dead : TransactionEntity → Bool
  is_dead r = is_ref r.event event && r.type == type && r.status == invalid

  -- A signature that arrives for a transaction that was found invalid meanwhile revives it: when
  -- `handleSuccessfulSign` returns, its event has one valid transaction more.
  pub late_signature_revives :
      (w : World db) {w' : World db}
      → count (λ r. r.tx_id == tx.tx_id && is_dead r) (rows db.transactions w.store.transactions)
        ≡ 1
      → handle_successful_sign db env tx w ≡ (ok tt, w')
      → count (is_valid_event_tx event type) (rows db.transactions w'.store.transactions)
        ≡ count (is_valid_event_tx event type) (rows db.transactions w.store.transactions) + 1
  unfolding handle_successful_sign update_with_signed_tx
  late_signature_revives w {w'} dead e =
      let (chain, _, e') = bind_ok (lift (env.get_chain tx.network)) _ w e in
      let (height, _, written) = bind_ok (lift chain.get_height) _ w e' in
      let d = λ (r : TransactionEntity). r.tx_id == tx.tx_id in
      let v = is_valid_event_tx event type in
      let f = signed_row env.now (db.to_json tx) height in
      let (t, done, same) =
        write_transactions-ok db (db.transactions.update d f w.store.transactions) w.store
          {s' = w'.store}
          (in_store-ok db env (update_with_signed_tx db env.now tx.tx_id (db.to_json tx) height) w
            written) in
      let xs = rows db.transactions w.store.transactions in
      let all : count (λ r. d r && is_dead r) xs ≡ count d xs = omega (
        arith,
        dead,
        db.transactions.key-unique tx.tx_id w.store.transactions,
        count_and_le d is_dead xs,
      ) in
      rw (← same, db.transactions.count-update d f w.store.transactions t done v)
        (omega (
          arith,
          dead,
          all,
          count-update_gain d is_dead v f (λ r _ h. (ground arith, ground arith)) xs all,
        ))
