-- ===== src/Transactions/Outcomes.antt =====
-- What the processor makes of an event when its transaction is confirmed or invalid.
use ts_gaurd_service.Base.{
  ℕ, ◌+◌, ◌≤◌, ◌≡◌, refl, sym, ap, ◌∙◌, Bool, true, false, Option, none, some, String,
  if◌then◌else◌, ◌==◌, string_eq, arith, count, Result, ok, count_congr, bind_ok, ◌>>=◌,
}
use ts_gaurd_service.Constants.{
  TransactionStatus, EventStatus, TransactionType, tx_status_eq, event_status_eq, type_eq, invalid,
  pending_payment, pending_reward, payment, reward,
}
use ts_gaurd_service.Database.Repository.{rows}
use ts_gaurd_service.Database.Entities.{TransactionEntity, ConfirmedEventEntity, Database, Store}
use ts_gaurd_service.Database.Actions.{set_event_status, set_tx_status}
use ts_gaurd_service.Database.Lookups.{write_transactions-ok, write_events-ok}
use ts_gaurd_service.Transactions.{
  World, Environment, Chain, InvalidationDetails, set_transaction_as_invalid, mark_as_invalid,
  set_status, notify_if, reset_related, mark_as_invalid, set_status, notify_if, reset_related,
}
use ts_gaurd_service.Transactions.Steps.{reset_related-transactions}
use ts_gaurd_service.Transactions.Validity.{in_store-ok}

-- An event row that is set to a status, its failures counted or not.
abbrev pub reset_row : EventStatus → Bool → ConfirmedEventEntity → ConfirmedEventEntity
reset_row status unexpected r = record r {
  status = status;
  unexpected_fails = r.unexpected_fails + (if unexpected then 1 else 0);
}

-- The status to which an event is set back when its transaction is invalid, by the type.
abbrev pub status_before : TransactionType → Option EventStatus
status_before payment = some pending_payment
status_before reward = some pending_reward
status_before _ = none

pub set_event_status-rows :
    (db : Database) (event : String) (status : EventStatus) (unexpected : Bool) (s : Store db)
    {s' : Store db}
    → set_event_status db event status unexpected s ≡ (ok tt, s')
    → (q : ConfirmedEventEntity → Bool)
    → count q (rows db.events s'.events)
      ≡ count
          (λ r. q (if r.id == event then reset_row status unexpected r else r))
          (rows db.events s.events)
unfolding set_event_status
set_event_status-rows db event status true s {s'} e q =
    let d = λ (r : ConfirmedEventEntity). r.id == event in
    let f = λ (r : ConfirmedEventEntity). record r {
      status = status;
      unexpected_fails = r.unexpected_fails + 1;
    } in
    let (t, done, same) = write_events-ok db (db.events.update d f s.events) s {s' = s'} e in
    rw (← same) (db.events.count-update d f s.events t done q)
set_event_status-rows db event status false s {s'} e q =
    let d = λ (r : ConfirmedEventEntity). r.id == event in
    let f = λ (r : ConfirmedEventEntity). record r { status = status } in
    let (t, done, same) = write_events-ok db (db.events.update d f s.events) s {s' = s'} e in
    rw (← same, db.events.count-update d f s.events t done q)
      (count_congr _ _ (λ r. ground (arith, same_row r)) (rows db.events s.events))
  where
    same_row : (r : ConfirmedEventEntity) → reset_row status false r ≡ record r { status = status }
    same_row r = ground arith

module _ (db : Database) (env : Environment) (tx : TransactionEntity) (w : World db) where
  pub set_status-rows :
      (status : TransactionStatus) {w' : World db}
      → set_status db env tx.tx_id status w ≡ (ok tt, w')
      → (q : TransactionEntity → Bool)
      → count q (rows db.transactions w'.store.transactions)
        ≡ count
            (λ r. q (
              if r.tx_id == tx.tx_id
              then record r { status = status; last_status_update = some env.now }
              else r))
            (rows db.transactions w.store.transactions)
  unfolding set_tx_status
  set_status-rows status {w'} e q =
      let d = λ (r : TransactionEntity). r.tx_id == tx.tx_id in
      let f = λ (r : TransactionEntity). record r {
        status = status;
        last_status_update = some env.now;
      } in
      let (t, done, same) =
        write_transactions-ok db (db.transactions.update d f w.store.transactions) w.store
          {s' = w'.store}
          (in_store-ok db env (set_tx_status db env.now tx.tx_id status) w {w' = w'} e) in
      rw (← same) (db.transactions.count-update d f w.store.transactions t done q)

  pub set_status-events :
      (status : TransactionStatus)
      → (set_status db env tx.tx_id status w).1.store.events ≡ w.store.events
  unfolding set_tx_status
  set_status-events status = ground arith

  reset_related-rows :
      (type : TransactionType) (event : String) (status : EventStatus) (unexpected : Bool)
      {w' : World db}
      → status_before type ≡ some status
      → tx.event ≡ some event
      → reset_related db env type tx unexpected w ≡ (ok tt, w')
      → (q : ConfirmedEventEntity → Bool)
      → count q (rows db.events w'.store.events)
        ≡ count
            (λ r. q (if r.id == event then reset_row status unexpected r else r))
            (rows db.events w.store.events)
  unfolding reset_related
  reset_related-rows payment event status unexpected {w'} e has done =
      let same : status ≡ pending_payment = cc in
      rw same (
        set_event_status-rows db event pending_payment unexpected w.store {s' = w'.store} (
          in_store-ok db env (set_event_status db event pending_payment unexpected) w {w' = w'}
            (rw has at done)))
  reset_related-rows reward event status unexpected {w'} e has done =
      let same : status ≡ pending_reward = cc in
      rw same (
        set_event_status-rows db event pending_reward unexpected w.store {s' = w'.store} (
          in_store-ok db env (set_event_status db event pending_reward unexpected) w {w' = w'}
            (rw has at done)))
  reset_related-rows type event status unexpected e has done = ground arith

  notify_if-store : (unexpected : Bool) → (notify_if db env unexpected tx.tx_id w).1.store ≡ w.store
  unfolding notify_if
  notify_if-store true = refl
  notify_if-store false = refl

module _ (db : Database) (env : Environment) (tx : TransactionEntity) (chain : Chain)
    (w : World db) where
  marks_when_late :
      (details : InvalidationDetails) (height : ℕ)
      → chain.get_height ≡ ok height
      → chain.get_tx_required_confirmation tx.type + tx.last_check ≤ height
      → set_transaction_as_invalid db env tx chain (some details) w
        ≡ mark_as_invalid db env tx details.unexpected w
  unfolding set_transaction_as_invalid
  marks_when_late details height e late = ground arith

  -- When `setTransactionAsInvalid` returns for a transaction of an event that its chain has not
  -- known for long enough, the transaction is invalid, its event, and no other, is set back to the
  -- status before the transaction, and its failures grow by one where the failure is unexpected.
  pub set_transaction_as_invalid_late :
      (details : InvalidationDetails) (height : ℕ) (event : String) (status : EventStatus)
      {w' : World db}
      → chain.get_height ≡ ok height
      → chain.get_tx_required_confirmation tx.type + tx.last_check ≤ height
      → tx.event ≡ some event
      → status_before tx.type ≡ some status
      → set_transaction_as_invalid db env tx chain (some details) w ≡ (ok tt, w')
      → ((q : TransactionEntity → Bool)
          → count q (rows db.transactions w'.store.transactions)
            ≡ count
                (λ r. q (
                  if r.tx_id == tx.tx_id
                  then record r { status = invalid; last_status_update = some env.now }
                  else r))
                (rows db.transactions w.store.transactions))
        × ((q : ConfirmedEventEntity → Bool)
            → count q (rows db.events w'.store.events)
              ≡ count
                  (λ r. q (if r.id == event then reset_row status details.unexpected r else r))
                  (rows db.events w.store.events))
  unfolding mark_as_invalid
  set_transaction_as_invalid_late details height event status {w'} e late has before done =
      let marked = (set_status db env tx.tx_id invalid w).1 in
      let noted = (notify_if db env details.unexpected tx.tx_id marked).1 in
      let now_marked = sym (marks_when_late details height e late) ∙ done in
      let notify = notify_if db env details.unexpected tx.tx_id in
      let reset = λ (_ : Unit {0}). reset_related db env tx.type tx details.unexpected in
      let (_, first_ok, rest) =
        bind_ok (set_status db env tx.tx_id invalid) (λ _. notify >>= reset) w now_marked in
      let (_, second_ok, reset_ok) = bind_ok notify reset marked rest in
      let kept = notify_if-store db env tx marked details.unexpected in
      let same_txs : w'.store.transactions ≡ marked.store.transactions =
        sym (ap (λ (r : Result (Unit {0}) × World db). r.1.store.transactions) reset_ok)
        ∙ reset_related-transactions db env tx (notify marked).1 tx.type details.unexpected
        ∙ ap (λ (s : Store db). s.transactions) kept in
      let same_events : (notify marked).1.store.events ≡ w.store.events =
        ap (λ (s : Store db). s.events) kept ∙ set_status-events db env tx w invalid in
      (
        λ q.
            ap (λ t. count q (rows db.transactions t)) same_txs
            ∙ set_status-rows db env tx w invalid {w' = marked} (λ i. (first_ok i, marked)) q,
        λ q.
            reset_related-rows db env tx (notify marked).1 tx.type event status details.unexpected
              {w' = w'} before has reset_ok q
            ∙ ap
                (λ t.
                  count
                    (λ r. q (if r.id == event then reset_row status details.unexpected r else r))
                    (rows db.events t))
                same_events,
      )
