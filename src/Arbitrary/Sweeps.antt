-- ===== src/Arbitrary/Sweeps.antt =====
-- What the jobs on leftover and waiting orders of src/arbitrary/ArbitraryProcessor.ts leave.
use ts_gaurd_service.Base.{
  ◌≡◌, refl, ap, Bool, true, false, ◌&&◌, some, [], ◌==◌, string_eq, count, count_mono, attempt,
  for_each, pure, Action, arith, if◌then◌else◌,
}
use ts_gaurd_service.Constants.{OrderStatus, order_status_eq, pending, waiting}
use ts_gaurd_service.Database.Repository.{rows, Reliable, find_nil}
use ts_gaurd_service.Database.Entities.{ArbitraryEntity, Database, Store}
use ts_gaurd_service.Database.Actions.{get_orders_by_status, set_order_status}
use ts_gaurd_service.Database.Sweep.{Clears, Clears-of, sweep-all}
use ts_gaurd_service.Event.{Bridge}
use ts_gaurd_service.Arbitrary.{
  timeout_leftover_orders, timeout_order, is_left_over, requeue_waiting_orders, set_status,
}

module _ (db : Database) (bridge : Bridge) (reliable : Reliable db.orders) where
  abbrev orders_of : Store db → db.orders.Table
  orders_of s = s.orders

  -- The step on an order, when it is a write that leaves nothing to do.
  module _ (body : ArbitraryEntity → Action (Store db) (Unit {0}))
      (read act : ArbitraryEntity → Bool) (x : ArbitraryEntity) (s : Store db)
      (status : OrderStatus) (update_first_try : Bool) where
    abbrev new_row : ArbitraryEntity → ArbitraryEntity
    new_row r = record r {
      status = status;
      first_try = if update_first_try then some bridge.now else r.first_try;
    }

    written :
        db.orders.update (λ r. r.id == x.id) new_row s.orders
        ≡ some (attempt (set_status db bridge x.id status update_first_try) s).1.orders
    unfolding set_order_status
    written = let (t, e) = reliable (λ r. r.id == x.id) new_row (λ r. refl) s.orders in rw e refl

    set_status-Clears :
        body x s ≡ attempt (set_status db bridge x.id status update_first_try) s
        → ((r : ArbitraryEntity) → (read (new_row r) && act (new_row r)) ≡ false)
        → Clears db.orders orders_of body read act x s
    set_status-Clears h c =
        Clears-of db.orders orders_of body read act x s
          (attempt (set_status db bridge x.id status update_first_try) s).1 new_row h written c

  -- After the job on leftover orders, no pending order is past its timeout, if the statements
  -- succeed.
  pub timeout_leftover_orders-done :
      (s : Store db)
      → count
          (λ r. r.status == pending && is_left_over db bridge r)
          (rows db.orders (timeout_leftover_orders db bridge s).1.orders)
        ≡ 0
  unfolding timeout_leftover_orders get_orders_by_status
  timeout_leftover_orders-done s =
      let read = λ (r : ArbitraryEntity). r.status == pending in
      let expired = is_left_over db bridge in
      let body = λ (x : ArbitraryEntity). attempt (timeout_order db bridge x) in
      let branch = λ (x : ArbitraryEntity) (s : Store db) (b : Bool).
        attempt (if b then set_status db bridge x.id OrderStatus.timeout false else pure tt) s in
      sweep-all db.orders orders_of body read expired
        (λ x s e.
          set_status-Clears body read expired x s OrderStatus.timeout false (ap (branch x s) e)
            λ r. refl)
        (λ x s e. ap (branch x s) e) s

  -- After the job on waiting orders, no order waits for assets any more, if the statements succeed.
  pub requeue_waiting_orders-done :
      (s : Store db) → get_orders_by_status db waiting (requeue_waiting_orders db bridge s).1 ≡ []
  unfolding requeue_waiting_orders get_orders_by_status
  requeue_waiting_orders-done s =
      let read = λ (r : ArbitraryEntity). r.status == waiting in
      let body = λ (x : ArbitraryEntity). attempt (set_status db bridge x.id pending true) in
      let t = (for_each (db.orders.find read s.orders) body s).1.orders in
      let swept =
        sweep-all db.orders orders_of body read (λ _. true)
          (λ x s e. set_status-Clears body read (λ _. true) x s pending true refl λ r. refl)
          (λ x s e. cc) s in
      find_nil db.orders read t (
        omega (
          arith,
          swept,
          count_mono read (λ r. read r && true) (λ r h. ground arith) (rows db.orders t),
        ))
