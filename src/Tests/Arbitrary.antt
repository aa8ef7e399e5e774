-- ===== src/Tests/Arbitrary.antt =====
-- Orders that time out and are requeued.
use ts_gaurd_service.Base.{◌≡◌, refl, ◌&&◌, some, [], ◌∷◌, ◌==◌, string_eq, count}
use ts_gaurd_service.Constants.{OrderStatus, order_status_eq, pending, waiting}
use ts_gaurd_service.Database.Repository.{rows}
use ts_gaurd_service.Database.Entities.{Store, ArbitraryEntity}
use ts_gaurd_service.Database.Actions.{get_orders_by_status}
use ts_gaurd_service.Arbitrary.{requeue_waiting_orders, timeout_leftover_orders, is_left_over}
use ts_gaurd_service.Arbitrary.Sweeps.{timeout_leftover_orders-done, requeue_waiting_orders-done}
use ts_gaurd_service.Tests.Tables.{list_repository-Reliable}
use ts_gaurd_service.Tests.Data.{test_db, test_bridge, empty_store}

abbrev order_row : OrderStatus → ArbitraryEntity
order_row status = record {
  id = "order";
  chain = "ergo";
  order_json = "{}";
  status = status;
  first_try = some 1;
  unexpected_fails = 0;
}

abbrev store_of : OrderStatus → Store test_db
store_of status = record (empty_store) { orders = (order_row status ∷ [], refl) }

timeout_leftover_orders-done_example :
    count
      (λ r. r.status == pending && is_left_over test_db test_bridge r)
      (rows test_db.orders
        (timeout_leftover_orders test_db test_bridge (store_of pending)).1.orders)
    ≡ 0
timeout_leftover_orders-done_example =
    timeout_leftover_orders-done test_db test_bridge (list_repository-Reliable (λ r. r.id))
      (store_of pending)

requeue_waiting_orders-done_example :
    get_orders_by_status test_db waiting
      (requeue_waiting_orders test_db test_bridge (store_of waiting)).1
    ≡ []
requeue_waiting_orders-done_example =
    requeue_waiting_orders-done test_db test_bridge (list_repository-Reliable (λ r. r.id))
      (store_of waiting)
