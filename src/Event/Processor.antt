-- ===== src/Event/Processor.antt =====
-- EventProcessor of src/event/EventProcessor.ts: scanned events become confirmed ones, and for
-- pending ones the guard whose turn it is creates a transaction and queues it for agreement. A
-- missing asset puts the event aside. Log lines and notifications are left out.
pub mod Queue
pub mod Sweeps
pub mod Runs
use ts_gaurd_service.Base.{
  ℕ, zero, ◌+◌, Bool, true, false, not, ◌&&◌, ◌||◌, Option, none, some, List, [], ◌∷◌, String,
  if◌then◌else◌, ltb, leb, ◌==◌, string_eq, Action, Result, ok, err, not_enough_assets,
  impossible_behavior, pure, raise, lift, attempt, for_each, ◌>>=◌, ◌>>◌,
}
use ts_gaurd_service.Constants.{
  EventStatus, TransactionType, event_status_eq, pending_payment, pending_reward, in_payment,
  in_reward, spent, rejected, payment_waiting, reward_waiting, payment,
}
use ts_gaurd_service.Database.Entities.{
  PaymentTransaction, EventData, ConfirmedEventEntity, TransactionEntity, Database, Store,
}
use ts_gaurd_service.Database.Actions.{
  get_event_by_id, get_events_by_statuses, get_waiting_events, set_event_status,
  set_event_status_to_pending, insert_confirmed_event, get_event_valid_txs_by_type,
}
use ts_gaurd_service.Agreement.{Peer, in_store, add_transaction_to_queue}
use ts_gaurd_service.Order.{FeeConfig}
use ts_gaurd_service.Event.{Bridge, is_event_confirmed_enough, verify_event, get_id, has_turn}
use ts_gaurd_service.Event.Creation.{
  create_event_payment, create_event_reward_distribution, the_payment,
}

abbrev pub event_unexpected_fails_limit : ℕ
event_unexpected_fails_limit = 2

-- A missing height and the height 0 are both false.
abbrev pub is_spent : Option ℕ → Bool
is_spent none = false
is_spent (some height) = ltb 0 height

-- `Number(firstTry)`
abbrev pub number : Option ℕ → ℕ
number none = 0
number (some n) = n

module _ (db : Database) (bridge : Bridge) where
  abbrev pub insert_if : Bool → EventData → Action (Store db) (Unit {0})
  insert_if true event =
      insert_confirmed_event db bridge.now (bridge.tx_id_to_event_id event.source_tx_id) event
  insert_if false event = pure tt

  unfoldable pub process_scanned_event :
      Option ConfirmedEventEntity → EventData → Action (Store db) (Unit {0})
  process_scanned_event (some confirmed_event) event = pure tt
  process_scanned_event none event = do
    confirmed ← lift (is_event_confirmed_enough db bridge event)
    insert_if confirmed event

  -- `raw_events` are the scanned events without a confirmed event.
  unfoldable pub process_scanned_events : List EventData → Action (Store db) (Unit {0})
  process_scanned_events raw_events = for_each raw_events λ event. attempt λ s.
      process_scanned_event (get_event_by_id db (bridge.tx_id_to_event_id event.source_tx_id) s)
        event s

  -- What follows the creation of a transaction, and the error that is caught.
  abbrev pub queue_or_wait :
      String → EventStatus → Result PaymentTransaction → Action (Peer db) (Unit {0})
  queue_or_wait event_id waiting (ok tx) =
      if has_turn bridge (bridge.time_after event_id) then add_transaction_to_queue tx else pure tt
  queue_or_wait event_id waiting (err not_enough_assets) =
      in_store (set_event_status db event_id waiting false)
  queue_or_wait event_id waiting (err e) = raise e

  abbrev pub pay : EventData → FeeConfig → Bool → Action (Peer db) (Unit {0})
  pay event fee_config true w =
      queue_or_wait (get_id bridge event) payment_waiting
        (create_event_payment db bridge event fee_config w) w
  pay event fee_config false w =
      in_store (set_event_status db (get_id bridge event) rejected false) w

  unfoldable pub process_payment_event : EventData → Action (Peer db) (Unit {0})
  process_payment_event event = do
    fee_config ← lift (bridge.get_event_fee_config event)
    verified ← λ w. (verify_event db bridge event fee_config w.store, w)
    pay event fee_config verified

  -- The transaction, once the payment is known.
  abbrev pub distribute : EventData → List TransactionEntity → Action (Peer db) (Unit {0})
  distribute event event_txs = do
    payment_tx_id ← lift (the_payment db bridge event_txs)
    fee_config ← lift (bridge.get_event_fee_config event)
    λ w.
        queue_or_wait (get_id bridge event) reward_waiting
          (create_event_reward_distribution db bridge event fee_config payment_tx_id w) w

  abbrev pub reward_of : EventData → Action (Peer db) (Unit {0})
  reward_of event =
      in_store (get_event_valid_txs_by_type db (get_id bridge event) payment) >>= distribute event

  unfoldable pub process_reward_event : EventData → Action (Peer db) (Unit {0})
  process_reward_event event =
      if event.to_chain == bridge.configs.ergo_chain
      then raise impossible_behavior
      else reward_of event

  abbrev pub process_with_status : EventStatus → EventData → Action (Peer db) (Unit {0})
  process_with_status pending_payment event = process_payment_event event
  process_with_status pending_reward event = process_reward_event event
  process_with_status _ event = pure tt

  -- The body of the loop on events.
  unfoldable pub process_confirmed_event : ConfirmedEventEntity → Action (Peer db) (Unit {0})
  process_confirmed_event event =
      if is_spent event.event_data.spend_height
      then in_store (set_event_status db event.id spent false)
      else if leb event_unexpected_fails_limit event.unexpected_fails
      then in_store (set_event_status db event.id EventStatus.reached_limit false)
      else process_with_status event.status event.event_data

  -- The loop ends when the turn is over.
  unfoldable pub process_events : List ConfirmedEventEntity → Action (Peer db) (Unit {0})
  process_events [] = pure tt
  process_events (event ∷ events) =
      if has_turn bridge (bridge.time_before event.id)
      then attempt (process_confirmed_event event) >> process_events events
      else pure tt

  unfoldable pub process_confirmed_events : Action (Peer db) (Unit {0})
  process_confirmed_events w =
      process_events (get_events_by_statuses db (pending_payment ∷ pending_reward ∷ []) w.store) w

  abbrev pub is_left_over : ConfirmedEventEntity → Bool
  is_left_over event = ltb (number event.first_try + bridge.event_timeout) bridge.now

  abbrev pub timeout_event : ConfirmedEventEntity → Action (Store db) (Unit {0})
  timeout_event event =
      if is_left_over event then set_event_status db event.id EventStatus.timeout false else pure tt

  unfoldable pub timeout_leftover_events : Action (Store db) (Unit {0})
  timeout_leftover_events s =
      for_each (get_events_by_statuses db (pending_payment ∷ []) s)
        (λ event. attempt (timeout_event event)) s

  abbrev pub requeue_with_status : EventStatus → String → Action (Store db) (Unit {0})
  requeue_with_status payment_waiting id =
      set_event_status_to_pending db bridge.now id pending_payment
  requeue_with_status reward_waiting id =
      set_event_status_to_pending db bridge.now id pending_reward
  requeue_with_status _ id = pure tt

  unfoldable pub requeue_waiting_events : Action (Store db) (Unit {0})
  requeue_waiting_events s =
      for_each (get_waiting_events db s)
        (λ event. attempt (requeue_with_status event.status event.id)) s
