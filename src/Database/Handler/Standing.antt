-- ===== src/Database/Handler/Standing.antt =====
-- Which approved transaction of an event stands, after each approval.
use ts_gaurd_service.Base.{
  ℕ, ◌≡◌, refl, sym, ap, ◌∙◌, ◌⊎◌, inl, inr, Bool, true, false, ◌&&◌, none, some, List, [], ◌∷◌,
  String, if◌then◌else◌, ◌==◌, string_eq, arith, count, Bool-cases, subst, ok, lower, ltb_text,
  ltb_text_irrefl, eq_iff, eq_refl, count-update_le, le-count-update, count_congr, count_mono,
}
use ts_gaurd_service.Constants.{TransactionType, tx_status_eq, type_eq, approved, payment, reward}
use ts_gaurd_service.Database.Repository.{
  rows, found-all, found-one, count-find_nil, count-find_one,
}
use ts_gaurd_service.Database.Entities.{
  PaymentTransaction, TransactionEntity, ConfirmedEventEntity, Database, Store,
}
use ts_gaurd_service.Database.Actions.{
  is_valid_event_tx, insert_new_tx, replace_tx, new_tx, replaced, reset_failed_in_sign,
  get_event_by_id, get_event_valid_txs_by_type, find_transactions,
}
use ts_gaurd_service.Database.Lookups.{get_event_by_id-id, write_transactions-ok}
use ts_gaurd_service.Database.Handler.{resolve_tx, insert_tx_of_type, insert_tx}

abbrev pub IsEventType : TransactionType → Type 0
IsEventType type = (type ≡ payment) ⊎ (type ≡ reward)

module _ (db : Database) (event_id : String) (type : TransactionType) where
  abbrev is_approved_as : String → TransactionEntity → Bool
  is_approved_as tx_id r =
      (r.tx_id == tx_id && r.status == approved) && is_valid_event_tx event_id type r

  -- The event has one valid transaction of the type, which is approved and has this id.
  abbrev pub Stands : String → Store db → Type 0
  Stands tx_id s =
      (count (is_valid_event_tx event_id type) (rows db.transactions s.transactions) ≡ 1)
      × (count (is_approved_as tx_id) (rows db.transactions s.transactions) ≡ 1)

  abbrev pub HasNone : Store db → Type 0
  HasNone s = count (is_valid_event_tx event_id type) (rows db.transactions s.transactions) ≡ 0

module _ (db : Database) (now : ℕ) (tx : PaymentTransaction) (required_sign : ℕ)
    (s : Store db) where
  insert_tx_of_type-event :
      (type : TransactionType) (overwrite : Bool) (event : ConfirmedEventEntity)
      → IsEventType type
      → get_event_by_id db tx.event_id s ≡ some event
      → insert_tx_of_type db now type tx required_sign overwrite s
        ≡ resolve_tx db now tx
            (some tx.event_id)
            none
            required_sign
            (find_transactions db (is_valid_event_tx tx.event_id tx.tx_type) s)
            s
  unfolding insert_tx_of_type get_event_valid_txs_by_type
  insert_tx_of_type-event payment overwrite event t e =
      ground (arith, get_event_by_id-id db tx.event_id s event e)
  insert_tx_of_type-event reward overwrite event t e =
      ground (arith, get_event_by_id-id db tx.event_id s event e)
  insert_tx_of_type-event type overwrite event t e = ground arith

  -- For an event that is known, `insert_tx` resolves the new transaction against the valid ones.
  pub insert_tx-event :
      (overwrite : Bool) (event : ConfirmedEventEntity)
      → IsEventType tx.tx_type
      → get_event_by_id db tx.event_id s ≡ some event
      → insert_tx db now tx required_sign overwrite s
        ≡ resolve_tx db now tx
            (some tx.event_id)
            none
            required_sign
            (find_transactions db (is_valid_event_tx tx.event_id tx.tx_type) s)
            s
  unfolding insert_tx
  insert_tx-event overwrite event t e = insert_tx_of_type-event tx.tx_type overwrite event t e

  -- The first approved transaction of an event comes to stand.
  resolve_tx-Stands_first :
      {s' : Store db}
      → HasNone db tx.event_id tx.tx_type s
      → insert_new_tx db now tx (some tx.event_id) required_sign none s ≡ (ok tt, s')
      → Stands db tx.event_id tx.tx_type tx.tx_id s'
  unfolding insert_new_tx
  resolve_tx-Stands_first {s'} z e =
      let r = new_tx db approved now tx (some tx.event_id) required_sign none in
      let (t, done, same) =
        write_transactions-ok db (db.transactions.insert r s.transactions) s e in
      rw (← same) (
        rw (db.transactions.count-insert r s.transactions t done _)
            (ground (arith, eq_refl tx.event_id, type_eq.beq_iff tx.tx_type tx.tx_type)),
        rw (db.transactions.count-insert r s.transactions t done _) (
            ground (
              arith,
              eq_refl tx.event_id,
              eq_refl tx.tx_id,
              type_eq.beq_iff tx.tx_type tx.tx_type,
              count_mono (is_approved_as db tx.event_id tx.tx_type tx.tx_id)
                  (is_valid_event_tx tx.event_id tx.tx_type) approved-valid
                  (rows db.transactions s.transactions),
            )),
      )
    where
      approved-valid :
          (r : TransactionEntity)
          → is_approved_as db tx.event_id tx.tx_type tx.tx_id r ≡ true
          → is_valid_event_tx tx.event_id tx.tx_type r ≡ true
      approved-valid r h = ground arith

  -- The replacement of the standing transaction comes to stand in its place.
  replace_tx-Stands :
      (old : TransactionEntity) {s' : Store db}
      → find_transactions db (is_valid_event_tx tx.event_id tx.tx_type) s ≡ old ∷ []
      → replace_tx db now old.tx_id tx s ≡ (ok tt, s')
      → Stands db tx.event_id tx.tx_type tx.tx_id s'
  unfolding replace_tx
  replace_tx-Stands old {s'} f e =
      let d = λ (r : TransactionEntity). r.tx_id == old.tx_id in
      let v = is_valid_event_tx tx.event_id tx.tx_type in
      let q = is_approved_as db tx.event_id tx.tx_type tx.tx_id in
      let g = replaced db now tx in
      let (t, done, same) =
        write_transactions-ok db (db.transactions.update d g s.transactions) s e in
      let xs = rows db.transactions s.transactions in
      let all = found-all db.transactions v old s.transactions f in
      let only = found-one db.transactions v old s.transactions f in
      let valid = count-find_one db.transactions v old s.transactions f in
      rw (← same) (
        rw (db.transactions.count-update d g s.transactions t done _) (
            omega (
              arith,
              valid,
              only,
              count-update_le d v v v g (λ r _ h _. h) (λ r h. h) xs all,
              le-count-update d v v g (λ r _ h. keeps-valid r h) xs,
            )),
        rw (db.transactions.count-update d g s.transactions t done _) (
            omega (
              arith,
              valid,
              only,
              count-update_le d v q v g (λ r _ h _. h) (λ r h. ground arith) xs all,
              le-count-update d v q g (λ r _ h. becomes-approved r h) xs,
            )),
      )
    where
      keeps-valid :
          (r : TransactionEntity)
          → is_valid_event_tx tx.event_id tx.tx_type r ≡ true
          → is_valid_event_tx tx.event_id tx.tx_type (replaced db now tx r) ≡ true
      keeps-valid r h = ground (arith, type_eq.beq_iff tx.tx_type tx.tx_type)

      becomes-approved :
          (r : TransactionEntity)
          → is_valid_event_tx tx.event_id tx.tx_type r ≡ true
          → is_approved_as db tx.event_id tx.tx_type tx.tx_id (replaced db now tx r) ≡ true
      becomes-approved r h = ground (arith, eq_refl tx.tx_id, type_eq.beq_iff tx.tx_type tx.tx_type)

  reset_failed_in_sign-Stands :
      (tx_id id : String) {s' : Store db}
      → Stands db tx.event_id tx.tx_type tx_id s
      → reset_failed_in_sign db id s ≡ (ok tt, s')
      → Stands db tx.event_id tx.tx_type tx_id s'
  unfolding reset_failed_in_sign
  reset_failed_in_sign-Stands tx_id id {s'} (one, is_tx) e =
      let d = λ (r : TransactionEntity). r.tx_id == id in
      let g = λ (r : TransactionEntity). record r { failed_in_sign = false } in
      let (t, done, same) =
        write_transactions-ok db (db.transactions.update d g s.transactions) s e in
      let xs = rows db.transactions s.transactions in
      let same_count =
        λ (q : TransactionEntity → Bool) (h : (r : TransactionEntity) → q (g r) ≡ q r).
          db.transactions.count-update d g s.transactions t done q
          ∙ count_congr (λ r. q (if d r then g r else r)) q (λ r. ground (arith, h r)) xs in
      rw (← same) (same_count _ (λ r. refl) ∙ one, same_count _ (λ r. refl) ∙ is_tx)

  -- The one valid transaction is the one that stands.
  found-Stands :
      (tx_id : String) (old : TransactionEntity)
      → find_transactions db (is_valid_event_tx tx.event_id tx.tx_type) s ≡ old ∷ []
      → Stands db tx.event_id tx.tx_type tx_id s
      → (old.tx_id ≡ tx_id) × ((old.status == approved) ≡ true)
  found-Stands tx_id old f (_, is_tx) =
      let q = λ (r : TransactionEntity). r.tx_id == tx_id && r.status == approved in
      let seen : (q old) ≡ true = ground (
        arith,
        is_tx,
        ap (count q) f,
        db.transactions.count-find q (is_valid_event_tx tx.event_id tx.tx_type) s.transactions,
      ) in
      ((eq_iff _ _).0 (ground arith), ground arith)

  -- Where one transaction stands, the lower of it and the newly approved one stands afterwards.
  pub resolve_tx-Stands :
      (tx_id : String) (txs : List TransactionEntity) {s' : Store db}
      → find_transactions db (is_valid_event_tx tx.event_id tx.tx_type) s ≡ txs
      → Stands db tx.event_id tx.tx_type tx_id s
      → resolve_tx db now tx (some tx.event_id) none required_sign txs s ≡ (ok tt, s')
      → Stands db tx.event_id tx.tx_type (lower tx_id tx.tx_id) s'
  unfolding resolve_tx
  resolve_tx-Stands tx_id [] f (one, _) e =
      absurd (omega (arith, one, count-find_nil db.transactions _ s.transactions f))
  resolve_tx-Stands tx_id (old ∷ []) {s'} f st e =
      let (same, is_approved) = found-Stands tx_id old f st in
      elim (Bool-cases (old.tx_id == tx.tx_id)) [
        | inl equal ↦
            rw (← same, (eq_iff _ _).0 equal, ltb_text_irrefl tx.tx_id)
              (reset_failed_in_sign-Stands tx.tx_id old.tx_id {s' = s'}
                (rw (← (eq_iff _ _).0 equal, same) st) (ground arith))
        | inr different ↦ elim (Bool-cases (ltb_text tx.tx_id old.tx_id)) [
          | inl is_lower ↦ rw (← same, is_lower) (replace_tx-Stands old {s' = s'} f (ground arith))
          | inr higher ↦
              rw (← same, higher)
                (rw same (
                  subst (Stands db tx.event_id tx.tx_type tx_id) {x = s} {y = s'} (ground arith)
                    st))
        ]
      ]
  resolve_tx-Stands tx_id (_ ∷ _ ∷ _) f st e = cc

  pub insert_tx-events :
      (overwrite : Bool) (event : ConfirmedEventEntity)
      → IsEventType tx.tx_type
      → get_event_by_id db tx.event_id s ≡ some event
      → (insert_tx db now tx required_sign overwrite s).1.events ≡ s.events
  unfolding resolve_tx insert_new_tx reset_failed_in_sign replace_tx
  insert_tx-events overwrite event t e =
      rw (insert_tx-event overwrite event t e)
        (go (find_transactions db (is_valid_event_tx tx.event_id tx.tx_type) s))
    where
      go :
          (txs : List TransactionEntity)
          → (resolve_tx db now tx (some tx.event_id) none required_sign txs s).1.events ≡ s.events
      go [] = ground arith
      go (old ∷ []) = ground arith
      go (_ ∷ _ ∷ _) = refl

  -- One approval, for an event that is known.
  pub insert_tx-first :
      (overwrite : Bool) (event : ConfirmedEventEntity) {s' : Store db}
      → IsEventType tx.tx_type
      → get_event_by_id db tx.event_id s ≡ some event
      → HasNone db tx.event_id tx.tx_type s
      → insert_tx db now tx required_sign overwrite s ≡ (ok tt, s')
      → Stands db tx.event_id tx.tx_type tx.tx_id s'
  unfolding resolve_tx
  insert_tx-first overwrite event {s'} t e z d =
      go (find_transactions db (is_valid_event_tx tx.event_id tx.tx_type) s) refl
        (sym (insert_tx-event overwrite event t e) ∙ d)
    where
      go :
          (txs : List TransactionEntity)
          → find_transactions db (is_valid_event_tx tx.event_id tx.tx_type) s ≡ txs
          → resolve_tx db now tx (some tx.event_id) none required_sign txs s ≡ (ok tt, s')
          → Stands db tx.event_id tx.tx_type tx.tx_id s'
      go [] f r = resolve_tx-Stands_first z r
      go (x ∷ xs) f r = absurd (
          omega (
            arith,
            z,
            ap (count (λ _. true)) f,
            db.transactions.count-find (λ _. true) (is_valid_event_tx tx.event_id tx.tx_type)
                s.transactions,
          ))
