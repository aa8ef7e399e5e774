-- ===== src/Event/Processor/Runs.antt =====
-- What the jobs on events of src/event/EventProcessor.ts leave unchanged.
use ts_gaurd_service.Base.{◌≡◌, refl, List, [], ◌∷◌, arith}
use ts_gaurd_service.Constants.{EventStatus, pending_payment, pending_reward}
use ts_gaurd_service.Database.Entities.{EventData, ConfirmedEventEntity, Database}
use ts_gaurd_service.Database.Actions.{set_event_status, get_event_valid_txs_by_type}
use ts_gaurd_service.Agreement.{Peer, add_transaction_to_queue}
use ts_gaurd_service.Event.{Bridge}
use ts_gaurd_service.Event.Processor.{
  process_payment_event, process_reward_event, process_with_status, process_confirmed_event,
  process_events,
}

module _ (db : Database) (bridge : Bridge) where
  -- The transactions are as they were, and so are the notes of agreement on orders.
  abbrev pub Quiet : Peer db → Peer db → Type 0
  Quiet w v =
      (w.store.transactions ≡ v.store.transactions)
      × (w.agreement.order_agreed_transactions ≡ v.agreement.order_agreed_transactions)

  process_payment_event-Quiet :
      (event : EventData) (w : Peer db) → Quiet w (process_payment_event db bridge event w).1
  unfolding process_payment_event set_event_status add_transaction_to_queue
  process_payment_event-Quiet event w = ground arith

  process_reward_event-Quiet :
      (event : EventData) (w : Peer db) → Quiet w (process_reward_event db bridge event w).1
  unfolding process_reward_event set_event_status add_transaction_to_queue
      get_event_valid_txs_by_type
  process_reward_event-Quiet event w = ground arith

  process_with_status-Quiet :
      (status : EventStatus) (event : EventData) (w : Peer db)
      → Quiet w (process_with_status db bridge status event w).1
  process_with_status-Quiet pending_payment event w = process_payment_event-Quiet event w
  process_with_status-Quiet pending_reward event w = process_reward_event-Quiet event w
  process_with_status-Quiet status event w = (refl, refl)

  process_confirmed_event-Quiet :
      (event : ConfirmedEventEntity) (w : Peer db)
      → Quiet w (process_confirmed_event db bridge event w).1
  unfolding process_confirmed_event set_event_status
  process_confirmed_event-Quiet event w =
      ground (arith, process_with_status-Quiet event.status event.event_data w)

  pub process_events-Quiet :
      (events : List ConfirmedEventEntity) (w : Peer db)
      → Quiet w (process_events db bridge events w).1
  unfolding process_events
  process_events-Quiet [] w = (refl, refl)
  process_events-Quiet (event ∷ events) w =
      let v = (process_confirmed_event db bridge event w).1 in
      let (t, o) = process_confirmed_event-Quiet event w in
      let (t', o') = process_events-Quiet events v in ground (arith, t, o, t', o')
