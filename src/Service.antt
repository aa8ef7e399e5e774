-- ===== src/Service.antt =====
-- The service as a sequence of steps on the database and the agreement: the calls of the agreement
-- (src/agreement/TxAgreement.ts) and the jobs of src/jobs/runProcessors.ts on events, orders and
-- cold storage. Each step has its own answers of the chains and times.
use ts_gaurd_service.Base.{
  ◌≡◌, refl, ◌∙◌, sym, Bool, true, false, List, [], ◌∷◌, String, if◌then◌else◌, Action, Result, ok,
  err, arith, bind_cases, if_cases, subst⁻¹, for_each, pure,
}
use ts_gaurd_service.Constants.{EventStatus, payment_waiting, reward_waiting, pending}
use ts_gaurd_service.Database.Entities.{
  PaymentTransaction, EventData, ConfirmedEventEntity, ArbitraryEntity, TransactionEntity, Database,
  Store,
}
use ts_gaurd_service.Database.Actions.{
  set_event_status, set_event_status_to_pending, insert_confirmed_event, set_order_status,
  get_event_by_id, get_active_cold_storage_txs_in_chain,
}
use ts_gaurd_service.Database.OneValid.{OneValid}
use ts_gaurd_service.Agreement.{Peer, in_store, add_transaction_to_queue}
use ts_gaurd_service.Agreement.Approve.Safe.{Safe, quiet, Safe-trans, IsSafe, for_each-IsSafe}
use ts_gaurd_service.Agreement.Approve.Runs.{Call, call, call-IsSafe}
use ts_gaurd_service.Event.{Bridge, has_turn}
use ts_gaurd_service.Event.Processor.{
  process_scanned_event, process_scanned_events, process_confirmed_events, timeout_leftover_events,
  timeout_event, requeue_waiting_events, requeue_with_status,
}
use ts_gaurd_service.Event.Processor.Runs.{Quiet, process_events-Quiet}
use ts_gaurd_service.Arbitrary.{
  process_order, process_orders, process_arbitrary_orders, timeout_order, timeout_leftover_orders,
  requeue_waiting_orders, set_status,
}
use ts_gaurd_service.ColdStorage.{
  Vault, cold_storage_transactions, queue_all, process_chain, chain_cold_storage_process,
}

-- A step of the service.
pub data Job (db : Database) : Type 0 where
  agree : Call db → Job db
  scan : Bridge → List EventData → Job db
  confirm time_out_events requeue_events : Bridge → Job db
  pay_orders time_out_orders requeue_orders : Bridge → Job db
  store_cold : Bridge → Vault → String → Job db

module _ (db : Database) where
  abbrev pub run : Job db → Action (Peer db) (Unit {0})
  run (agree c) = call db c
  run (scan bridge raw_events) = in_store (process_scanned_events db bridge raw_events)
  run (confirm bridge) = process_confirmed_events db bridge
  run (time_out_events bridge) = in_store (timeout_leftover_events db bridge)
  run (requeue_events bridge) = in_store (requeue_waiting_events db bridge)
  run (pay_orders bridge) = process_arbitrary_orders db bridge
  run (time_out_orders bridge) = in_store (timeout_leftover_orders db bridge)
  run (requeue_orders bridge) = in_store (requeue_waiting_orders db bridge)
  run (store_cold bridge vault chain) = chain_cold_storage_process db bridge vault chain

  -- The state after the steps, each of which may end in an error.
  abbrev pub after_jobs : List (Job db) → Peer db → Peer db
  after_jobs [] w = w
  after_jobs (j ∷ js) w = after_jobs js (run j w).1

  -- A step that leaves the transactions.
  abbrev Keeps : Action (Store db) (Unit {0}) → Type 0
  Keeps m = (s : Store db) → (m s).1.transactions ≡ s.transactions

  for_each-Keeps :
      {A : Type 0} (xs : List A) (body : A → Action (Store db) (Unit {0}))
      → ((a : A) → Keeps (body a))
      → Keeps (for_each xs body)
  unfolding for_each
  for_each-Keeps [] body h s = refl
  for_each-Keeps (x ∷ xs) body h s =
      bind_cases (λ v. v.transactions ≡ s.transactions) (body x) (λ _. for_each xs body) s (h x s)
        λ _. for_each-Keeps xs body h (body x s).1 ∙ h x s

  Keeps-IsSafe : (m : Action (Store db) (Unit {0})) → Keeps m → IsSafe (in_store m)
  Keeps-IsSafe m h w = quiet w (in_store m w).1 (sym (h w.store)) refl

  module _ (bridge : Bridge) where
    scan-Keeps :
        (event : EventData)
        → Keeps (λ s.
          process_scanned_event db bridge
            (get_event_by_id db (bridge.tx_id_to_event_id event.source_tx_id) s)
            event
            s)
    unfolding process_scanned_event insert_confirmed_event
    scan-Keeps event s = ground arith

    timeout_event-Keeps : (event : ConfirmedEventEntity) → Keeps (timeout_event db bridge event)
    unfolding set_event_status
    timeout_event-Keeps event s = ground arith

    requeue_event-Keeps :
        (status : EventStatus) (id : String) → Keeps (requeue_with_status db bridge status id)
    unfolding set_event_status_to_pending
    requeue_event-Keeps payment_waiting id s = ground arith
    requeue_event-Keeps reward_waiting id s = ground arith
    requeue_event-Keeps status id s = refl

    timeout_order-Keeps : (order : ArbitraryEntity) → Keeps (timeout_order db bridge order)
    unfolding set_order_status
    timeout_order-Keeps order s = ground arith

    requeue_order-Keeps :
        (order : ArbitraryEntity) → Keeps (set_status db bridge order.id pending true)
    unfolding set_order_status
    requeue_order-Keeps order s = ground arith

    process_order-Quiet :
        (order : ArbitraryEntity) (w : Peer db)
        → Quiet db bridge w (process_order db bridge order w).1
    unfolding process_order set_order_status add_transaction_to_queue
    process_order-Quiet order w = ground arith

    process_orders-Quiet :
        (orders : List ArbitraryEntity) (w : Peer db)
        → Quiet db bridge w (process_orders db bridge orders w).1
    unfolding process_orders
    process_orders-Quiet [] w = (refl, refl)
    process_orders-Quiet (order ∷ orders) w =
        let (t, o) = process_order-Quiet order w in
        let (t', o') = process_orders-Quiet orders (process_order db bridge order w).1 in
        ground (arith, t, o, t', o')

    added : (tx : PaymentTransaction) (v : Peer db) → Safe v (add_transaction_to_queue tx v).1
    unfolding add_transaction_to_queue
    added tx v = quiet v _ refl refl

    queue_all-Safe :
        (vault : Vault) (chain : String) (r : Result (List PaymentTransaction)) (w : Peer db)
        → Safe w (queue_all db bridge vault chain r w).1
    queue_all-Safe vault chain (err e) w = quiet w w refl refl
    queue_all-Safe vault chain (ok txs) w =
        if_cases (Safe w) (has_turn bridge (bridge.time_after chain))
          (for_each txs add_transaction_to_queue) (pure tt) w
          (for_each-IsSafe txs add_transaction_to_queue added w) (quiet w w refl refl)

    process_chain-Safe :
        (vault : Vault) (chain : String) (active : List TransactionEntity) (w : Peer db)
        → Safe w (process_chain db bridge vault chain active w).1
    unfolding process_chain
    process_chain-Safe vault chain [] w =
        queue_all-Safe vault chain (cold_storage_transactions db bridge vault chain w) w
    process_chain-Safe vault chain (_ ∷ _) w = quiet w w refl refl

    store_cold-Safe :
        (vault : Vault) (chain : String) (w : Peer db)
        → Safe w (chain_cold_storage_process db bridge vault chain w).1
    unfolding chain_cold_storage_process
    store_cold-Safe vault chain w =
        let active = get_active_cold_storage_txs_in_chain db chain w.store in
        subst⁻¹ (λ (r : Result (Unit {0}) × Peer db). Safe w r.1)
          (if_apply (has_turn bridge (bridge.time_before chain))
            (process_chain db bridge vault chain active) w)
          (if_cases (Safe w) (has_turn bridge (bridge.time_before chain))
            (process_chain db bridge vault chain active) (pure tt) w
            (process_chain-Safe vault chain active w) (quiet w w refl refl))
      where
        if_apply :
            (b : Bool) (m : Action (Peer db) (Unit {0})) (w : Peer db)
            → (if b then m w else (ok tt, w)) ≡ (if b then m else pure tt) w
        if_apply true m w = refl
        if_apply false m w = refl

  run-Safe : (j : Job db) (w : Peer db) → Safe w (run j w).1
  unfolding process_scanned_events timeout_leftover_events requeue_waiting_events
      timeout_leftover_orders requeue_waiting_orders process_confirmed_events
      process_arbitrary_orders
  run-Safe (agree c) w = call-IsSafe db c w
  run-Safe (scan bridge raw_events) w =
      Keeps-IsSafe (process_scanned_events db bridge raw_events)
        (for_each-Keeps raw_events _ λ event s. scan-Keeps bridge event s) w
  run-Safe (confirm bridge) w = let (t, o) = process_events-Quiet db bridge _ w in quiet w _ t o
  run-Safe (time_out_events bridge) w =
      Keeps-IsSafe (timeout_leftover_events db bridge)
        (λ s. for_each-Keeps _ _ (λ event s. timeout_event-Keeps bridge event s) s) w
  run-Safe (requeue_events bridge) w =
      Keeps-IsSafe (requeue_waiting_events db bridge)
        (λ s. for_each-Keeps _ _ (λ event s. requeue_event-Keeps bridge event.status event.id s) s)
        w
  run-Safe (pay_orders bridge) w = let (t, o) = process_orders-Quiet bridge _ w in quiet w _ t o
  run-Safe (time_out_orders bridge) w =
      Keeps-IsSafe (timeout_leftover_orders db bridge)
        (λ s. for_each-Keeps _ _ (λ order s. timeout_order-Keeps bridge order s) s) w
  run-Safe (requeue_orders bridge) w =
      Keeps-IsSafe (requeue_waiting_orders db bridge)
        (λ s. for_each-Keeps _ _ (λ order s. requeue_order-Keeps bridge order s) s) w
  run-Safe (store_cold bridge vault chain) w = store_cold-Safe bridge vault chain w

  after_jobs-Safe : (js : List (Job db)) (w : Peer db) → Safe w (after_jobs js w)
  after_jobs-Safe [] w = quiet w w refl refl
  after_jobs-Safe (j ∷ js) w =
      Safe-trans w (run j w).1 (after_jobs js (run j w).1) (run-Safe j w)
        (after_jobs-Safe js (run j w).1)

  -- Through every history of the service's calls of the agreement and jobs on events, orders and
  -- cold storage, whatever messages arrive, whatever the chains answer and whichever statements
  -- fail, no event comes to have two valid transactions of a type, and no order two.
  pub after_jobs-OneValid :
      (js : List (Job db)) (w : Peer db)
      → OneValid db w.store.transactions
      → OneValid db (after_jobs js w).store.transactions
  after_jobs-OneValid js w = (after_jobs-Safe js w).one_valid
