-- ===== src/Transactions/Confirmed.antt =====
-- What the processor makes of an event when its transaction is confirmed.
use ts_gaurd_service.Base.{
  ◌≡◌, ap, sym, ◌∙◌, ◌⊎◌, inl, inr, Bool, false, some, String, if◌then◌else◌, ◌==◌, string_eq,
  arith, count, ok, Bool-cases, bind_ok, Result,
}
use ts_gaurd_service.Constants.{
  TransactionStatus, EventStatus, TransactionType, type_eq, pending_reward, payment, reward,
}
use ts_gaurd_service.Database.Repository.{rows}
use ts_gaurd_service.Database.Entities.{TransactionEntity, ConfirmedEventEntity, Database, Store}
use ts_gaurd_service.Database.Actions.{set_event_status, set_event_status_to_pending}
use ts_gaurd_service.Database.Lookups.{write_events-ok}
use ts_gaurd_service.Transactions.{
  World, Environment, Chain, in_store, confirmed_enough, process_sent_as, proceed_related,
  set_status,
}
use ts_gaurd_service.Transactions.Steps.{proceed_related-transactions}
use ts_gaurd_service.Transactions.Validity.{in_store-ok}
use ts_gaurd_service.Transactions.Outcomes.{
  reset_row, set_event_status-rows, set_status-rows, set_status-events,
}

-- An event's row after its transaction: a payment on another chain than Ergo leaves the reward to
-- be distributed, from now on; all else completes the event.
abbrev pub next_row :
    Environment → TransactionType → TransactionEntity → ConfirmedEventEntity → ConfirmedEventEntity
next_row env payment tx r =
    if tx.chain == env.ergo_chain
    then reset_row EventStatus.completed false r
    else record r { status = pending_reward; first_try = some env.now }
next_row env _ tx r = reset_row EventStatus.completed false r

module _ (db : Database) (env : Environment) (tx : TransactionEntity) (w : World db) where
  to_pending-rows :
      (event : String) (s : Store db) {s' : Store db}
      → set_event_status_to_pending db env.now event pending_reward s ≡ (ok tt, s')
      → (q : ConfirmedEventEntity → Bool)
      → count q (rows db.events s'.events)
        ≡ count
            (λ r. q (
              if r.id == event
              then record r { status = pending_reward; first_try = some env.now }
              else r))
            (rows db.events s.events)
  unfolding set_event_status_to_pending
  to_pending-rows event s {s'} e q =
      let d = λ (r : ConfirmedEventEntity). r.id == event in
      let f = λ (r : ConfirmedEventEntity). record r {
        status = pending_reward;
        first_try = some env.now;
      } in
      let (t, done, same) = write_events-ok db (db.events.update d f s.events) s {s' = s'} e in
      rw (← same) (db.events.count-update d f s.events t done q)

  completed-rows :
      (event : String) {w' : World db}
      → in_store db env (set_event_status db event EventStatus.completed false) w ≡ (ok tt, w')
      → (q : ConfirmedEventEntity → Bool)
      → count q (rows db.events w'.store.events)
        ≡ count
            (λ r. q (if r.id == event then reset_row EventStatus.completed false r else r))
            (rows db.events w.store.events)
  completed-rows event {w'} done =
      set_event_status-rows db event EventStatus.completed false w.store {s' = w'.store} (
        in_store-ok db env (set_event_status db event EventStatus.completed false) w {w' = w'} done)

  proceed_related-rows :
      (type : TransactionType) (event : String) {w' : World db}
      → (type ≡ payment) ⊎ (type ≡ reward)
      → tx.event ≡ some event
      → proceed_related db env type tx w ≡ (ok tt, w')
      → (q : ConfirmedEventEntity → Bool)
      → count q (rows db.events w'.store.events)
        ≡ count
            (λ r. q (if r.id == event then next_row env type tx r else r))
            (rows db.events w.store.events)
  unfolding proceed_related
  proceed_related-rows payment event {w'} t has done q =
      elim (Bool-cases (tx.chain == env.ergo_chain)) [
        | inl ergo ↦ rw ergo (completed-rows event {w' = w'} (rw (has, ergo) at done) q)
        | inr elsewhere ↦ rw elsewhere (
            to_pending-rows event w.store {s' = w'.store}
              (in_store-ok db env (set_event_status_to_pending db env.now event pending_reward) w
                {w' = w'} (rw (has, elsewhere) at done))
              q)
      ]
  proceed_related-rows reward event {w'} t has done q =
      completed-rows event {w' = w'} (rw has at done) q
  proceed_related-rows type event t has done q = ground arith

module _ (db : Database) (env : Environment) (tx : TransactionEntity) (chain : Chain)
    (w : World db) where
  -- When the step for a payment or reward that is confirmed enough returns, the transaction is
  -- completed, and its event, and no other, is completed too, unless the transaction is a payment on
  -- another chain than Ergo: then the event awaits its reward, first tried now.
  pub confirmed_proceeds :
      (event : String) {w' : World db}
      → (tx.type ≡ payment) ⊎ (tx.type ≡ reward)
      → tx.event ≡ some event
      → process_sent_as db env confirmed_enough chain tx w ≡ (ok tt, w')
      → ((q : TransactionEntity → Bool)
          → count q (rows db.transactions w'.store.transactions)
            ≡ count
                (λ r. q (
                  if r.tx_id == tx.tx_id
                  then record r {
                    status = TransactionStatus.completed;
                    last_status_update = some env.now;
                  }
                  else r))
                (rows db.transactions w.store.transactions))
        × ((q : ConfirmedEventEntity → Bool)
            → count q (rows db.events w'.store.events)
              ≡ count
                  (λ r. q (if r.id == event then next_row env tx.type tx r else r))
                  (rows db.events w.store.events))
  unfolding process_sent_as
  confirmed_proceeds event {w'} type has done =
      let status = TransactionStatus.completed in
      let marked = (set_status db env tx.tx_id status w).1 in
      let (_, first_ok, rest) =
        bind_ok (set_status db env tx.tx_id status) (λ _. proceed_related db env tx.type tx) w
          done in
      let same_txs : w'.store.transactions ≡ marked.store.transactions =
        sym (ap (λ (r : Result (Unit {0}) × World db). r.1.store.transactions) rest)
        ∙ proceed_related-transactions db env tx marked tx.type in
      (
        λ q.
            ap (λ t. count q (rows db.transactions t)) same_txs
            ∙ set_status-rows db env tx w status {w' = marked} (λ i. (first_ok i, marked)) q,
        λ q.
            proceed_related-rows db env tx marked tx.type event {w' = w'} type has rest q
            ∙ ap
                (λ t.
                  count (λ r. q (if r.id == event then next_row env tx.type tx r else r))
                    (rows db.events t))
                (set_status-events db env tx w status),
      )
