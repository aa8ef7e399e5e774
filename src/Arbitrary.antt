-- ===== src/Arbitrary.antt =====
-- ArbitraryProcessor of src/arbitrary/ArbitraryProcessor.ts: for a pending arbitrary order the
-- guard whose turn it is creates a transaction and queues it for agreement. Log lines and
-- notifications are left out.
pub mod Sweeps
use ts_gaurd_service.Base.{
  ℕ, ◌+◌, Bool, true, false, Option, List, [], ◌∷◌, String, if◌then◌else◌, ltb, leb, Action, Result,
  ok, err, not_enough_assets, pure, raise, attempt, for_each, ◌>>=◌, ◌>>◌,
}
use ts_gaurd_service.Base.Results.{continue_with}
use ts_gaurd_service.Constants.{OrderStatus, pending, waiting}
use ts_gaurd_service.Database.Entities.{PaymentTransaction, ArbitraryEntity, Database, Store}
use ts_gaurd_service.Database.Actions.{get_orders_by_status, set_order_status}
use ts_gaurd_service.Agreement.{Peer, in_store, add_transaction_to_queue}
use ts_gaurd_service.Event.{Bridge, has_turn}
use ts_gaurd_service.Event.Creation.{create_order_payment}
use ts_gaurd_service.Event.Processor.{number}

abbrev pub order_unexpected_fails_limit : ℕ
order_unexpected_fails_limit = 1

module _ (db : Database) (bridge : Bridge) where
  abbrev pub set_status : String → OrderStatus → Bool → Action (Store db) (Unit {0})
  set_status id status update_first_try =
      set_order_status db bridge.now id status update_first_try false

  abbrev pub queue_or_wait : String → Result PaymentTransaction → Action (Peer db) (Unit {0})
  queue_or_wait id (ok tx) =
      if has_turn bridge (bridge.time_after id) then add_transaction_to_queue tx else pure tt
  queue_or_wait id (err not_enough_assets) = in_store (set_status id waiting false)
  queue_or_wait id (err e) = raise e

  -- The body of the loop on orders.
  unfoldable pub process_order : ArbitraryEntity → Action (Peer db) (Unit {0})
  process_order order w =
      if leb order_unexpected_fails_limit order.unexpected_fails
      then in_store (set_status order.id OrderStatus.reached_limit false) w
      else queue_or_wait order.id
          (continue_with (bridge.decode_order order.order_json)
            λ payment_order. create_order_payment db bridge order.id payment_order order.chain w)
          w

  -- The loop ends when the turn is over.
  unfoldable pub process_orders : List ArbitraryEntity → Action (Peer db) (Unit {0})
  process_orders [] = pure tt
  process_orders (order ∷ orders) =
      if has_turn bridge (bridge.time_before order.id)
      then attempt (process_order order) >> process_orders orders
      else pure tt

  unfoldable pub process_arbitrary_orders : Action (Peer db) (Unit {0})
  process_arbitrary_orders w = process_orders (get_orders_by_status db pending w.store) w

  abbrev pub is_left_over : ArbitraryEntity → Bool
  is_left_over order = ltb (number order.first_try + bridge.order_timeout) bridge.now

  abbrev pub timeout_order : ArbitraryEntity → Action (Store db) (Unit {0})
  timeout_order order =
      if is_left_over order then set_status order.id OrderStatus.timeout false else pure tt

  unfoldable pub timeout_leftover_orders : Action (Store db) (Unit {0})
  timeout_leftover_orders s =
      for_each (get_orders_by_status db pending s) (λ order. attempt (timeout_order order)) s

  unfoldable pub requeue_waiting_orders : Action (Store db) (Unit {0})
  requeue_waiting_orders s =
      for_each (get_orders_by_status db waiting s)
        (λ order. attempt (set_status order.id pending true)) s
