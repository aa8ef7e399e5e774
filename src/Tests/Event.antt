-- ===== src/Tests/Event.antt =====
-- Events that are processed, time out and are requeued.
use ts_gaurd_service.Base.{◌≡◌, refl, [], ◌∷◌, ◌&&◌, ◌==◌, string_eq, count}
use ts_gaurd_service.Constants.{event_status_eq, pending_payment, payment_waiting}
use ts_gaurd_service.Database.Repository.{rows}
use ts_gaurd_service.Database.Entities.{Store}
use ts_gaurd_service.Database.Actions.{get_waiting_events}
use ts_gaurd_service.Event.Processor.{
  process_confirmed_event, requeue_waiting_events, timeout_leftover_events, is_left_over,
}
use ts_gaurd_service.Event.Processor.Queue.{IsDue, Queues, process_confirmed_event-Queues}
use ts_gaurd_service.Event.Processor.Sweeps.{
  timeout_leftover_events-done, requeue_waiting_events-done,
}
use ts_gaurd_service.Tests.Tables.{list_repository-Reliable}
use ts_gaurd_service.Tests.Data.{
  test_db, test_bridge, event_row, empty_store, pending_store, no_agreement, peer_with,
}

timeout_leftover_events-done_example :
    count
      (λ r. r.status == pending_payment && is_left_over test_db test_bridge r)
      (rows test_db.events (timeout_leftover_events test_db test_bridge pending_store).1.events)
    ≡ 0
timeout_leftover_events-done_example =
    timeout_leftover_events-done test_db test_bridge (list_repository-Reliable (λ r. r.id))
      pending_store

abbrev waiting_store : Store test_db
waiting_store = record (empty_store) { events = (event_row payment_waiting ∷ [], refl) }

requeue_waiting_events-done_example :
    get_waiting_events test_db (requeue_waiting_events test_db test_bridge waiting_store).1 ≡ []
requeue_waiting_events-done_example =
    requeue_waiting_events-done test_db test_bridge (list_repository-Reliable (λ r. r.id))
      waiting_store

process_confirmed_event-Queues_example :
    Queues test_db test_bridge
      (λ tx.
        IsDue test_db test_bridge
          (event_row pending_payment)
          tx
          (peer_with pending_store no_agreement))
      (peer_with pending_store no_agreement)
      (process_confirmed_event test_db test_bridge
        (event_row pending_payment)
        (peer_with pending_store no_agreement)).1
process_confirmed_event-Queues_example =
    process_confirmed_event-Queues test_db test_bridge (event_row pending_payment)
      (peer_with pending_store no_agreement)
