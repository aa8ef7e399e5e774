-- ===== src/Agreement/Requests.antt =====
-- When a guard agrees to the request of another.
use ts_gaurd_service.Base.{
  ℕ, ◌≡◌, ◌≢◌, refl, sym, ap, ◌∙◌, ◌⊎◌, inl, inr, Bool, true, false, Option, none, some, String,
  nat_eq, string_eq, length, arith, Result, ok, err, Map, get, set, get-set, get-set_other, eq_iff,
  Bool-cases,
}
use ts_gaurd_service.Constants.{
  TransactionType, type_eq, payment, reward, cold_storage, manual, arbitrary, other,
}
use ts_gaurd_service.Database.Entities.{PaymentTransaction, Database, Store}
use ts_gaurd_service.Agreement.{
  Agreement, Peer, Verifier, Guard, verify_transaction_request, verify_unique, verify_request,
  process_transaction_request, agreed_for, agreed_to_other, agree, is_turn_of,
}
use ts_gaurd_service.Turn.{guard_turn}

module _ (db : Database) (verifier : Verifier db) (guard : Guard) (tx : PaymentTransaction)
    (w : Peer db) where
  -- The answer of the verifier of the type.
  abbrev pub verified_by : TransactionType → Result Bool × Store db
  verified_by type = verify_request db verifier guard type tx w.store

  pub verify_request-transactions :
      (type : TransactionType) → (verified_by type).1.transactions ≡ w.store.transactions
  verify_request-transactions payment = verifier.same_transactions tx w.store
  verify_request-transactions reward = verifier.same_transactions tx w.store
  verify_request-transactions cold_storage = refl
  verify_request-transactions arbitrary = refl
  verify_request-transactions manual = refl
  verify_request-transactions other = refl

  -- What became of a request: no agreement, and at most what the verifier of the type wrote, or an
  -- agreement that changes no earlier one.
  abbrev pub Agreed : TransactionType → Result Bool × Peer db → Type 0
  Agreed type r =
      (r.1.agreement ≡ w.agreement)
        × (r.1.store.transactions ≡ w.store.transactions)
        × (r.0 ≢ ok true)
        × ((r.1 ≡ w) ⊎ (r.1 ≡ record w { store = (verified_by type).1 }))
      ⊎ (r ≡ (
        ok true,
        record w { store = (verified_by type).1; agreement = agree type tx w.agreement },
      ))
        × (agreed_to_other tx.tx_id (agreed_for type tx w.agreement) ≡ false)
        × ((verified_by type).0 ≡ ok true)

  verify_unique_cases :
      (type : TransactionType) → Agreed type (verify_unique db verifier guard type tx w)
  unfolding verify_unique
  verify_unique_cases type =
      elim (Bool-cases (agreed_to_other tx.tx_id (agreed_for type tx w.agreement))) [
        | inl elsewhere ↦ inl (rw elsewhere (refl, refl, λ e. cc, inl refl))
        | inr free ↦ answered (verified_by type) refl free
      ]
    where
      answered :
          (answer : Result Bool × Store db)
          → verified_by type ≡ answer
          → agreed_to_other tx.tx_id (agreed_for type tx w.agreement) ≡ false
          → Agreed type (verify_unique db verifier guard type tx w)
      answered (ok true, s) e free = inr (rw (free, e) refl, free, ap (λ r. r.0) e)
      answered (ok false, s) e free =
          let same = ap (λ r. r.1.transactions) (sym e) ∙ verify_request-transactions type in
          inl (rw (free, e) (refl, same, λ h. cc, inr refl))
      answered (err x, s) e free =
          let same = ap (λ r. r.1.transactions) (sym e) ∙ verify_request-transactions type in
          inl (rw (free, e) (refl, same, λ h. cc, inr refl))

  -- The two ways in which `verifyTransactionRequest` ends.
  abbrev pub Answered : ℕ → Result Bool × Peer db → Type 0
  Answered creator_id r =
      (r.1.agreement ≡ w.agreement)
        × (r.1.store.transactions ≡ w.store.transactions)
        × (r.0 ≢ ok true)
        × ((r.1 ≡ w) ⊎ (r.1 ≡ record w { store = (verified_by tx.tx_type).1 }))
      ⊎ (r ≡ (
        ok true,
        record w {
          store = (verified_by tx.tx_type).1;
          agreement = agree tx.tx_type tx w.agreement;
        },
      ))
        × (agreed_to_other tx.tx_id (agreed_for tx.tx_type tx w.agreement) ≡ false)
        × ((verified_by tx.tx_type).0 ≡ ok true)
        × (guard_turn (length guard.guard_pks) guard.now ≡ some creator_id)
        × (verifier.verify_tx_common_conditions tx w.store ≡ ok true)

  turn_of : (creator_id : ℕ) (o : Option ℕ) → is_turn_of creator_id o ≡ true → o ≡ some creator_id
  turn_of creator_id none h = cc
  turn_of creator_id (some turn) h = ground arith

  -- `verifyTransactionRequest` does not answer `true` and leaves what was agreed and the transactions
  -- as they were, and changes nothing or only what the verifier of the type writes to the database,
  -- or answers `true`, which it does only in the creator's turn, for a transaction that meets the
  -- common conditions and those of its type, and where no other transaction was agreed to for the
  -- event, order or cold storage, and then it has noted this transaction there, and changed nothing
  -- else but what the verifier of the type writes to the database.
  pub verify_transaction_request_cases :
      (creator_id : ℕ)
      → Answered creator_id (verify_transaction_request db verifier guard tx creator_id w)
  unfolding verify_transaction_request
  verify_transaction_request_cases creator_id =
      elim (Bool-cases (is_turn_of creator_id (guard_turn (length guard.guard_pks) guard.now))) [
        | inl turn ↦ asked turn (verifier.verify_tx_common_conditions tx w.store) refl
        | inr no_turn ↦ inl (rw no_turn (refl, refl, λ h. cc, inl refl))
      ]
    where
      asked :
          is_turn_of creator_id (guard_turn (length guard.guard_pks) guard.now) ≡ true
          → (common : Result Bool) → verifier.verify_tx_common_conditions tx w.store ≡ common
          → Answered creator_id (verify_transaction_request db verifier guard tx creator_id w)
      asked turn (err x) c = inl (rw (turn, c) (refl, refl, λ h. cc, inl refl))
      asked turn (ok false) c = inl (rw (turn, c) (refl, refl, λ h. cc, inl refl))
      asked turn (ok true) c = elim (verify_unique_cases tx.tx_type) [
        | inl refused ↦ inl (rw (turn, c) refused)
        | inr (e, free, verified) ↦
            inr (rw (turn, c) e, free, verified, turn_of creator_id _ turn, c)
      ]

agreed_for_event :
    (type : TransactionType) (tx : PaymentTransaction) (a : Agreement)
    → (type ≡ payment) ⊎ (type ≡ reward)
    → agreed_for type tx a ≡ get tx.event_id a.event_agreed_transactions
agreed_for_event type tx a (inl e) = rw e refl
agreed_for_event type tx a (inr e) = rw e refl

-- Agreeing to a transaction leaves what was agreed to before, where it is no other transaction.
set_keeps :
    (k v : String) (m : Map String) (event_id agreed : String)
    → agreed_to_other v (get k m) ≡ false
    → get event_id m ≡ some agreed
    → get event_id (set k v m) ≡ some agreed
set_keeps k v m event_id agreed free h =
    ground (
      arith,
      get-set k v m,
      get-set_other k event_id v m,
      (eq_iff k event_id).0,
      (eq_iff agreed v).0,
    )

agree-keeps :
    (type : TransactionType) (tx : PaymentTransaction) (a : Agreement) (event_id agreed : String)
    → agreed_to_other tx.tx_id (agreed_for type tx a) ≡ false
    → get event_id a.event_agreed_transactions ≡ some agreed
    → get event_id (agree type tx a).event_agreed_transactions ≡ some agreed
agree-keeps payment tx a event_id agreed free h =
    set_keeps tx.event_id tx.tx_id a.event_agreed_transactions event_id agreed free h
agree-keeps reward tx a event_id agreed free h =
    set_keeps tx.event_id tx.tx_id a.event_agreed_transactions event_id agreed free h
agree-keeps cold_storage tx a event_id agreed free h = h
agree-keeps arbitrary tx a event_id agreed free h = h
agree-keeps manual tx a event_id agreed free h = h
agree-keeps other tx a event_id agreed free h = h

pub agree-keeps_order :
    (type : TransactionType) (tx : PaymentTransaction) (a : Agreement) (order_id agreed : String)
    → agreed_to_other tx.tx_id (agreed_for type tx a) ≡ false
    → get order_id a.order_agreed_transactions ≡ some agreed
    → get order_id (agree type tx a).order_agreed_transactions ≡ some agreed
agree-keeps_order payment tx a order_id agreed free h = h
agree-keeps_order reward tx a order_id agreed free h = h
agree-keeps_order cold_storage tx a order_id agreed free h = h
agree-keeps_order arbitrary tx a order_id agreed free h =
    set_keeps tx.event_id tx.tx_id a.order_agreed_transactions order_id agreed free h
agree-keeps_order manual tx a order_id agreed free h = h
agree-keeps_order other tx a order_id agreed free h = h

module _ (db : Database) (verifier : Verifier db) (guard : Guard) where
  process_transaction_request-agreed :
      (tx : PaymentTransaction) (creator_id timestamp : ℕ) (receiver : String) (w : Peer db)
      → (verify_transaction_request db verifier guard tx creator_id
          w).1.agreement.event_agreed_transactions
        ≡ (process_transaction_request db verifier guard tx creator_id timestamp receiver
            w).1.agreement.event_agreed_transactions
  unfolding process_transaction_request
  process_transaction_request-agreed tx creator_id timestamp receiver w = ground arith

  -- No request is verified where another transaction was agreed to.
  pub agrees_to_no_other :
      (tx : PaymentTransaction) (creator_id : ℕ) (agreed : String) (w : Peer db)
      → agreed_for tx.tx_type tx w.agreement ≡ some agreed
      → (verify_transaction_request db verifier guard tx creator_id w).0 ≡ ok true
      → tx.tx_id ≡ agreed
  agrees_to_no_other tx creator_id agreed w h verified =
      elim (verify_transaction_request_cases db verifier guard tx w creator_id) [
        | inl (_, _, refused, _) ↦ elim (refused verified) [ ]
        | inr (_, free, _, _, _) ↦ ground (arith, h, free, (eq_iff agreed tx.tx_id).0)
      ]

  -- Once a guard has agreed to a transaction of an event, its note of it stays, whatever requests
  -- arrive, and no request for another transaction of the event, in payment or reward, is verified.
  pub agrees_once :
      (tx : PaymentTransaction) (creator_id timestamp : ℕ) (receiver event_id agreed : String)
      (w : Peer db)
      → get event_id w.agreement.event_agreed_transactions ≡ some agreed
      → (get event_id
            (process_transaction_request db verifier guard tx creator_id timestamp receiver
              w).1.agreement.event_agreed_transactions
          ≡ some agreed)
        × ((tx.event_id ≡ event_id)
            → (tx.tx_type ≡ payment) ⊎ (tx.tx_type ≡ reward)
            → (verify_transaction_request db verifier guard tx creator_id w).0 ≡ ok true
            → tx.tx_id ≡ agreed)
  agrees_once tx creator_id timestamp receiver event_id agreed w h = (
    sym (ap (get event_id) (process_transaction_request-agreed tx creator_id timestamp receiver w))
        ∙ stays answer,
    λ same type. agrees_to_no_other tx creator_id agreed w (
        agreed_for_event tx.tx_type tx w.agreement type
        ∙ ap (λ e. get e w.agreement.event_agreed_transactions) same
        ∙ h),
  )
    where
      answer :
          Answered db verifier guard tx w creator_id
            (verify_transaction_request db verifier guard tx creator_id w)
      answer = verify_transaction_request_cases db verifier guard tx w creator_id

      stays :
          Answered db verifier guard tx w creator_id
            (verify_transaction_request db verifier guard tx creator_id w)
          → get event_id
              (verify_transaction_request db verifier guard tx creator_id
                w).1.agreement.event_agreed_transactions
            ≡ some agreed
      stays (inl (still, _, _, _)) =
          ap (λ (a : Agreement). get event_id a.event_agreed_transactions) still ∙ h
      stays (inr (done, free, _, _, _)) =
          ap (λ (r : Result Bool × Peer db). get event_id r.1.agreement.event_agreed_transactions)
            done
          ∙ agree-keeps tx.tx_type tx w.agreement event_id agreed free h
