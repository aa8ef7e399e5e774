-- ===== src/Verification/Requests.antt =====
-- What a verified request for an event's transaction says of the database.
use ts_gaurd_service.Base.{
  ◌≤◌, ◌≡◌, refl, sym, ap, ◌∙◌, Bool, true, false, not, ◌&&◌, some, List, [], ◌∷◌, if◌then◌else◌,
  ◌==◌, string_eq, arith, Action, ok, pure, lift, ◌>>=◌, bind_ok, count, Option-cases, and_then,
  inl, inr,
}
use ts_gaurd_service.Constants.{rejected}
use ts_gaurd_service.Database.Repository.{rows}
use ts_gaurd_service.Database.Entities.{
  PaymentTransaction, TransactionEntity, ConfirmedEventEntity, Database, Store,
}
use ts_gaurd_service.Database.Actions.{
  get_event_by_id, get_event_valid_txs_by_type, set_event_status, is_valid_event_tx,
  find_transactions,
}
use ts_gaurd_service.Database.Lookups.{get_event_valid_txs_by_type_cases}
use ts_gaurd_service.Database.OneValid.{OneValid}
use ts_gaurd_service.Agreement.{Verifier}
use ts_gaurd_service.Verification.{
  Checks, verify_event_transaction_request, verify_for_event, verify_confirmed, verify_among,
  is_compatible, may_enter, is_event_pending_to_type, verify_tx_common_conditions,
  verify_cold_storage_transaction_request, verify_arbitrary_transaction_request,
}

module _ (db : Database) (checks : Checks db) (tx : PaymentTransaction) (s : Store db) where
  -- What a request writes is the status of an event.
  pub verify_event_transaction_request-transactions :
      (verify_event_transaction_request db checks tx s).1.transactions ≡ s.transactions
  unfolding verify_event_transaction_request verify_for_event verify_confirmed verify_among
      set_event_status get_event_valid_txs_by_type
  verify_event_transaction_request-transactions = ground arith

-- The verifier of the agreement.
abbrev pub request_verifier : (db : Database) → Checks db → Verifier db
request_verifier db checks = record {
  verify_tx_common_conditions = λ tx _. verify_tx_common_conditions db checks tx;
  verify_event_transaction_request = verify_event_transaction_request db checks;
  verify_cold_storage_transaction_request = verify_cold_storage_transaction_request db checks;
  verify_arbitrary_transaction_request = verify_arbitrary_transaction_request db checks;
  same_transactions = verify_event_transaction_request-transactions db checks;
}

if_true :
    {S : Type 0} (b : Bool) (m : Action S Bool) (s : S) {s' : S}
    → (if b then m else pure false) s ≡ (ok true, s')
    → (b ≡ true) × (m s ≡ (ok true, s'))
if_true true m s e = (refl, e)
if_true false m s e = cc

module _ (db : Database) (checks : Checks db) (tx : PaymentTransaction) (s : Store db) where
  -- The valid transactions of the event and type.
  abbrev pub active : List TransactionEntity
  active = find_transactions db (is_valid_event_tx tx.event_id tx.tx_type) s

  pub among_true :
      (entity : ConfirmedEventEntity) {s' : Store db}
      → verify_among db checks entity tx s ≡ (ok true, s')
      → (s' ≡ s)
        × (may_enter entity tx active ≡ true)
        × (checks.verify_event_transaction tx entity.event_data s ≡ ok true)
  unfolding verify_among
  among_true entity {s'} e = elim (get_event_valid_txs_by_type_cases db tx.event_id s tx.tx_type) [
    | inl missing ↦ let bad = rw (missing, and_then) at e in cc
    | inr found ↦
        let check : Action (Store db) Bool =
          λ t. (checks.verify_event_transaction tx entity.event_data t, t) in
        let (enters, verified) =
          if_true (may_enter entity tx active) check s {s' = s'} (rw (found, and_then) at e) in
        (sym (ap (λ r. r.1) verified), enters, ap (λ r. r.0) verified)
  ]

  confirmed_true :
      (entity : ConfirmedEventEntity) {s' : Store db}
      → verify_confirmed db checks entity tx s ≡ (ok true, s')
      → (checks.verify_event entity.event_data s ≡ ok true)
        × (verify_among db checks entity tx s ≡ (ok true, s'))
  unfolding verify_confirmed
  confirmed_true entity {s'} e =
      let reject = set_event_status db tx.event_id rejected false in
      let (verified, answer, rest) =
        bind_ok (λ s. (checks.verify_event entity.event_data s, s))
          (λ v. if v then verify_among db checks entity tx else (reject >>= λ _. pure false)) s e in
      decide verified answer rest
    where
      decide :
          (v : Bool)
          → checks.verify_event entity.event_data s ≡ ok v
          → (if v
                then verify_among db checks entity tx
                else (set_event_status db tx.event_id rejected false >>= λ _. pure false))
              s
            ≡ (ok true, s')
          → (checks.verify_event entity.event_data s ≡ ok true)
            × (verify_among db checks entity tx s ≡ (ok true, s'))
      decide true e h = (e, h)
      decide false e h =
          let (_, _, no_answer) =
            bind_ok (set_event_status db tx.event_id rejected false) (λ _. pure false) s h in
          cc

  pub event_true :
      {s' : Store db}
      → verify_event_transaction_request db checks tx s ≡ (ok true, s')
      → (entity : ConfirmedEventEntity) × (get_event_by_id db tx.event_id s ≡ some entity)
        × (is_compatible db checks tx.tx_type tx entity.event_data ≡ true)
        × (checks.is_event_confirmed_enough entity.event_data ≡ ok true)
        × (checks.verify_event entity.event_data s ≡ ok true)
        × (verify_among db checks entity tx s ≡ (ok true, s'))
  unfolding verify_event_transaction_request verify_for_event
  event_true {s'} e = elim (Option-cases (get_event_by_id db tx.event_id s)) [
    | inl missing ↦ let bad = rw missing at e in cc
    | inr (entity, found) ↦
        let ask = lift (checks.is_event_confirmed_enough entity.event_data) in
        let next = λ (c : Bool). if c then verify_confirmed db checks entity tx else pure false in
        let (fits, asked) =
          if_true (is_compatible db checks tx.tx_type tx entity.event_data) (ask >>= next) s
            {s' = s'} (rw found at e) in
        let (enough, answer, rest) = bind_ok ask next s asked in
        let (is_enough, confirmed) =
          if_true enough (verify_confirmed db checks entity tx) s {s' = s'} rest in
        let (verified, among) = confirmed_true entity confirmed in
        (entity, found, fits, answer ∙ ap ok is_enough, verified, among)
  ]

  -- No valid transaction of the event and type but this one is in the way.
  enters-alone :
      (entity : ConfirmedEventEntity)
      → OneValid db s.transactions
      → may_enter entity tx active ≡ true
      → (count
            (λ r. not (r.tx_id == tx.tx_id) && is_valid_event_tx tx.event_id tx.tx_type r)
            (rows db.transactions s.transactions)
          ≡ 0)
        × (count (is_valid_event_tx tx.event_id tx.tx_type) (rows db.transactions s.transactions)
              ≡ 0
            → is_event_pending_to_type entity tx.tx_type ≡ true)
  enters-alone entity one enters = go active refl enters
    where
      other : TransactionEntity → Bool
      other r = not (r.tx_id == tx.tx_id)

      others :
          count other active
          ≡ count
              (λ r. not (r.tx_id == tx.tx_id) && is_valid_event_tx tx.event_id tx.tx_type r)
              (rows db.transactions s.transactions)
      others =
          db.transactions.count-find other (is_valid_event_tx tx.event_id tx.tx_type) s.transactions

      all :
          count (λ _. true) active
          ≡ count (is_valid_event_tx tx.event_id tx.tx_type) (rows db.transactions s.transactions)
      all =
          db.transactions.count-find (λ _. true) (is_valid_event_tx tx.event_id tx.tx_type)
            s.transactions

      go :
          (xs : List TransactionEntity)
          → active ≡ xs
          → may_enter entity tx xs ≡ true
          → (count
                (λ r. not (r.tx_id == tx.tx_id) && is_valid_event_tx tx.event_id tx.tx_type r)
                (rows db.transactions s.transactions)
              ≡ 0)
            × (count
                    (is_valid_event_tx tx.event_id tx.tx_type)
                    (rows db.transactions s.transactions)
                  ≡ 0
                → is_event_pending_to_type entity tx.tx_type ≡ true)
      go [] f h = (omega (arith, ap (count other) f, others), λ _. h)
      go (x ∷ []) f h = (
        ground (arith, ap (count other) f, others, h),
        λ none_valid. ground (arith, ap (count (λ _. true)) f, all, none_valid),
      )
      go (x ∷ y ∷ xs) f h =
          let two : 2 ≤ 1 =
            omega (arith, ap (count (λ _. true)) f, all, one.by_event tx.event_id tx.tx_type) in
          (omega (arith, two), λ _. ground (arith, two))

  -- In a database with one valid transaction for each event and type at most, a request for an
  -- event's transaction that verifies changes nothing; its event is known, and the chain is the one
  -- for this event and type; no other transaction of the event and type is valid; and where none is
  -- valid, the event awaits a transaction of this type.
  pub verified_request_is_alone :
      {s' : Store db}
      → OneValid db s.transactions
      → verify_event_transaction_request db checks tx s ≡ (ok true, s')
      → (s' ≡ s)
        × (entity : ConfirmedEventEntity) × (get_event_by_id db tx.event_id s ≡ some entity)
        × (is_compatible db checks tx.tx_type tx entity.event_data ≡ true)
        × (count
              (λ r. not (r.tx_id == tx.tx_id) && is_valid_event_tx tx.event_id tx.tx_type r)
              (rows db.transactions s.transactions)
            ≡ 0)
        × (count (is_valid_event_tx tx.event_id tx.tx_type) (rows db.transactions s.transactions)
              ≡ 0
            → is_event_pending_to_type entity tx.tx_type ≡ true)
  verified_request_is_alone {s'} one e =
      let (entity, found, fits, _, _, among) = event_true e in
      let (same, enters, _) = among_true entity {s' = s'} among in
      let (alone, awaits) = enters-alone entity one enters in
      (same, entity, found, fits, alone, awaits)
