-- ===== src/Database/Handler/Keeps.antt =====
-- `insert_tx` keeps one valid transaction for each event and type, and for each order.
use ts_gaurd_service.Base.{
  ℕ, ◌≡◌, refl, sym, ◌∙◌, ◌⊎◌, inl, inr, Bool, true, false, not, ◌&&◌, Option, none, some, List, [],
  ◌∷◌, String, ◌==◌, string_eq, arith, count, count_congr, count-and_not, eq_iff, Option-cases,
  and_then,
}
use ts_gaurd_service.Constants.{
  TransactionType, tx_status_eq, type_eq, type_index_injective, approved, payment, reward,
  cold_storage, manual, arbitrary, other,
}
use ts_gaurd_service.Database.Repository.{rows, found-all, count-find_nil}
use ts_gaurd_service.Database.Entities.{PaymentTransaction, TransactionEntity, Database, Store}
use ts_gaurd_service.Database.Actions.{
  is_valid_event_tx, is_valid_order_tx, write_transactions, insert_new_tx, replace_tx, new_tx,
  reset_failed_in_sign, replaced, get_order_valid_txs, get_event_by_id, get_order_by_id,
  update_required_sign,
}
use ts_gaurd_service.Database.Lookups.{get_event_valid_txs_by_type_cases}
use ts_gaurd_service.Database.OneValid.{
  OneValid, NoMore, has_both, update-OneValid, insert-OneValid, write-OneValid,
}
use ts_gaurd_service.Database.Handler.{
  resolve_tx, insert_event_or_order_tx, insert_cold_storage_tx, insert_manual_tx, insert_tx_of_type,
  insert_tx,
}

slot-eq :
    (event event_id : String) (type type' : TransactionType)
    → (event == event_id && type == type' && true) ≡ true
    → (event ≡ event_id) × (type ≡ type')
slot-eq event event_id type type' v =
    ((eq_iff _ _).0 (ground arith), type_index_injective type type' (ground arith))

module _ (db : Database) (now : ℕ) (tx : PaymentTransaction) (s : Store db)
    (h : OneValid db s.transactions) where
  -- Nothing that an update leaves alone counts for more.
  same-OneValid :
      (p : TransactionEntity → Bool) (f : TransactionEntity → TransactionEntity)
      → ((r : TransactionEntity) → NoMore r (f r))
      → OneValid db
          (write_transactions db (db.transactions.update p f s.transactions) s).1.transactions
  same-OneValid p f keeps = write-OneValid db _ s h λ t e.
      update-OneValid h p (λ _. true) f e (λ r _ _. keeps r)
        (count_congr _ _ (λ r. ground arith) (rows db.transactions s.transactions))

  insert_event-OneValid :
      (event : String) (required_sign : ℕ)
      → count (is_valid_event_tx event tx.tx_type) (rows db.transactions s.transactions) ≡ 0
      → OneValid db (insert_new_tx db now tx (some event) required_sign none s).1.transactions
  unfolding insert_new_tx
  insert_event-OneValid event required_sign z =
      let r = new_tx db approved now tx (some event) required_sign none in
      write-OneValid db (db.transactions.insert r s.transactions) s h λ t e.
        insert-OneValid h r e
          (λ event_id type v.
            let (same_event, same_type) = slot-eq event event_id tx.tx_type type v in
            rw (← same_event, ← same_type) z)
          (λ order_id v. cc) refl

  insert_order-OneValid :
      (order : String) (required_sign : ℕ)
      → count (is_valid_order_tx order) (rows db.transactions s.transactions) ≡ 0
      → OneValid db (insert_new_tx db now tx none required_sign (some order) s).1.transactions
  unfolding insert_new_tx
  insert_order-OneValid order required_sign z =
      let r = new_tx db approved now tx none required_sign (some order) in
      write-OneValid db (db.transactions.insert r s.transactions) s h λ t e.
        insert-OneValid h r e (λ event_id type v. cc)
          (λ order_id v.
            let same : order ≡ order_id = (eq_iff _ _).0 (ground arith) in rw (← same) z)
          refl

  insert_free-OneValid :
      (required_sign : ℕ)
      → OneValid db (insert_new_tx db now tx none required_sign none s).1.transactions
  unfolding insert_new_tx
  insert_free-OneValid required_sign =
      let r = new_tx db approved now tx none required_sign none in
      write-OneValid db (db.transactions.insert r s.transactions) s h
        λ t e. insert-OneValid h r e (λ event_id type v. cc) (λ order_id v. cc) refl

  -- A transaction replaced by one of the same event and type.
  replace_event-OneValid :
      (event : String) (old : TransactionEntity)
      → db.transactions.find (is_valid_event_tx event tx.tx_type) s.transactions ≡ old ∷ []
      → OneValid db (replace_tx db now old.tx_id tx s).1.transactions
  unfolding replace_tx
  replace_event-OneValid event old e =
      let p = λ (r : TransactionEntity). r.tx_id == old.tx_id in
      write-OneValid db (db.transactions.update p (replaced db now tx) s.transactions) s h λ t u.
        update-OneValid h p (is_valid_event_tx event tx.tx_type) (replaced db now tx) u
          (λ r _ v. record {
            same_event = refl;
            same_order = refl;
            same_type = inr (sym (type_index_injective r.type tx.tx_type (ground arith)));
            not_revived = λ i. ground arith;
          })
          (found-all db.transactions _ old s.transactions e)

  -- A transaction replaced by one of the same order.
  replace_order-OneValid :
      (order : String) (old : TransactionEntity)
      → db.transactions.find (is_valid_order_tx order) s.transactions ≡ old ∷ []
      → OneValid db (replace_tx db now old.tx_id tx s).1.transactions
  unfolding replace_tx
  replace_order-OneValid order old e =
      let p = λ (r : TransactionEntity). r.tx_id == old.tx_id in
      write-OneValid db (db.transactions.update p (replaced db now tx) s.transactions) s h λ t u.
        update-OneValid h p (λ r. is_valid_order_tx order r && not (has_both r))
          (replaced db now tx) u
          (λ r _ v. record {
            same_event = refl;
            same_order = refl;
            same_type = inl (ground arith);
            not_revived = λ i. ground arith;
          })
          (count-and_not p _ has_both _ h.exclusive
            ∙ found-all db.transactions _ old s.transactions e)

  -- The outcome for an event or order, whatever valid transactions the query has found.
  resolve_event-OneValid :
      (event : String) (required_sign : ℕ) (txs : List TransactionEntity)
      → db.transactions.find (is_valid_event_tx event tx.tx_type) s.transactions ≡ txs
      → OneValid db (resolve_tx db now tx (some event) none required_sign txs s).1.transactions
  unfolding resolve_tx reset_failed_in_sign
  resolve_event-OneValid event required_sign [] e =
      insert_event-OneValid event required_sign (count-find_nil db.transactions _ s.transactions e)
  resolve_event-OneValid event required_sign (old ∷ []) e = ground (
    arith,
    replace_event-OneValid event old e,
    same-OneValid (λ r. r.tx_id == old.tx_id) (λ r. record r { failed_in_sign = false })
        (λ r. record {
          same_event = refl;
          same_order = refl;
          same_type = inr refl;
          not_revived = λ i. i;
        }),
  )
  resolve_event-OneValid event required_sign (_ ∷ _ ∷ _) e = h

  resolve_order-OneValid :
      (order : String) (required_sign : ℕ) (txs : List TransactionEntity)
      → db.transactions.find (is_valid_order_tx order) s.transactions ≡ txs
      → OneValid db (resolve_tx db now tx none (some order) required_sign txs s).1.transactions
  unfolding resolve_tx reset_failed_in_sign
  resolve_order-OneValid order required_sign [] e =
      insert_order-OneValid order required_sign (count-find_nil db.transactions _ s.transactions e)
  resolve_order-OneValid order required_sign (old ∷ []) e = ground (
    arith,
    replace_order-OneValid order old e,
    same-OneValid (λ r. r.tx_id == old.tx_id) (λ r. record r { failed_in_sign = false })
        (λ r. record {
          same_event = refl;
          same_order = refl;
          same_type = inr refl;
          not_revived = λ i. i;
        }),
  )
  resolve_order-OneValid order required_sign (_ ∷ _ ∷ _) e = h

  insert_event_or_order_tx-OneValid :
      (event order : Option String) (required_sign : ℕ)
      → (event ≡ none) ⊎ (order ≡ none)
      → OneValid db (insert_event_or_order_tx db now tx event order required_sign s).1.transactions
  unfolding insert_event_or_order_tx get_order_valid_txs
  insert_event_or_order_tx-OneValid none none required_sign one = h
  insert_event_or_order_tx-OneValid none (some order) required_sign one =
      resolve_order-OneValid order required_sign _ refl
  insert_event_or_order_tx-OneValid (some event) (some order) required_sign one = ground arith
  insert_event_or_order_tx-OneValid (some event) none required_sign one =
      elim (get_event_valid_txs_by_type_cases db event s tx.tx_type) [
        | inl missing ↦ rw (missing, and_then) h
        | inr found ↦ rw (found, and_then) (resolve_event-OneValid event required_sign _ refl)
      ]

  insert_cold_storage_tx-OneValid :
      (required_sign : ℕ)
      → OneValid db (insert_cold_storage_tx db now tx required_sign s).1.transactions
  unfolding insert_cold_storage_tx reset_failed_in_sign
  insert_cold_storage_tx-OneValid required_sign = ground (
    arith,
    insert_free-OneValid required_sign,
    same-OneValid (λ r. r.tx_id == tx.tx_id) (λ r. record r { failed_in_sign = false })
        (λ r. record {
          same_event = refl;
          same_order = refl;
          same_type = inr refl;
          not_revived = λ i. i;
        }),
  )

  insert_manual_tx-OneValid :
      (required_sign : ℕ) (overwrite : Bool)
      → OneValid db (insert_manual_tx db now tx required_sign overwrite s).1.transactions
  unfolding insert_manual_tx update_required_sign
  insert_manual_tx-OneValid required_sign overwrite = ground (
    arith,
    insert_free-OneValid required_sign,
    same-OneValid (λ r. r.tx_id == tx.tx_id) (λ r. record r { required_sign = required_sign })
        (λ r. record {
          same_event = refl;
          same_order = refl;
          same_type = inr refl;
          not_revived = λ i. i;
        }),
  )

  insert_tx_of_type-OneValid :
      (type : TransactionType) (required_sign : ℕ) (overwrite : Bool)
      → OneValid db (insert_tx_of_type db now type tx required_sign overwrite s).1.transactions
  unfolding insert_tx_of_type
  insert_tx_of_type-OneValid payment required_sign overwrite =
      elim (Option-cases (get_event_by_id db tx.event_id s)) [
        | inl e ↦ rw (e, and_then) h
        | inr (r, e) ↦
            rw (e, and_then)
              (insert_event_or_order_tx-OneValid (some r.id) none required_sign (inr refl))
      ]
  insert_tx_of_type-OneValid reward required_sign overwrite =
      elim (Option-cases (get_event_by_id db tx.event_id s)) [
        | inl e ↦ rw (e, and_then) h
        | inr (r, e) ↦
            rw (e, and_then)
              (insert_event_or_order_tx-OneValid (some r.id) none required_sign (inr refl))
      ]
  insert_tx_of_type-OneValid cold_storage required_sign overwrite =
      insert_cold_storage_tx-OneValid required_sign
  insert_tx_of_type-OneValid manual required_sign overwrite =
      insert_manual_tx-OneValid required_sign overwrite
  insert_tx_of_type-OneValid arbitrary required_sign overwrite =
      elim (Option-cases (get_order_by_id db tx.event_id s)) [
        | inl e ↦ rw (e, and_then) h
        | inr (r, e) ↦
            rw (e, and_then)
              (insert_event_or_order_tx-OneValid none (some r.id) required_sign (inl refl))
      ]
  insert_tx_of_type-OneValid other required_sign overwrite = h

  -- In a database where every event has at most one valid transaction of each type, and every
  -- order at most one, and no transaction belongs to both, the same holds after `insert_tx`,
  -- however it ends: with a new row, a replacement, no change, an error or a failed statement.
  pub insert_tx-OneValid :
      (required_sign : ℕ) (overwrite : Bool)
      → OneValid db (insert_tx db now tx required_sign overwrite s).1.transactions
  unfolding insert_tx
  insert_tx-OneValid required_sign overwrite =
      insert_tx_of_type-OneValid tx.tx_type required_sign overwrite
