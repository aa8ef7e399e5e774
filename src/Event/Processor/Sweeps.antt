-- ===== src/Event/Processor/Sweeps.antt =====
-- What the jobs on leftover and waiting events of src/event/EventProcessor.ts leave.
use ts_gaurd_service.Base.{
  ◌≡◌, refl, ap, Bool, true, false, ◌&&◌, ◌||◌, some, ◌∷◌, [], ◌==◌, string_eq, any, count, attempt,
  for_each, pure, ok, Action, count_mono, String, arith, if◌then◌else◌, count_congr, ◌∙◌,
}
use ts_gaurd_service.Constants.{
  EventStatus, event_status_eq, pending_payment, pending_reward, payment_waiting, reward_waiting,
}
use ts_gaurd_service.Database.Repository.{rows, Reliable, find_nil}
use ts_gaurd_service.Database.Entities.{ConfirmedEventEntity, Database, Store}
use ts_gaurd_service.Database.Actions.{
  get_events_by_statuses, get_waiting_events, set_event_status, set_event_status_to_pending,
  update_events,
}
use ts_gaurd_service.Database.Sweep.{Clears, Clears-of, sweep-all}
use ts_gaurd_service.Event.{Bridge}
use ts_gaurd_service.Event.Processor.{
  timeout_leftover_events, timeout_event, is_left_over, requeue_waiting_events, requeue_with_status,
}

module _ (db : Database) (bridge : Bridge) (reliable : Reliable db.events) where
  abbrev events_of : Store db → db.events.Table
  events_of s = s.events

  -- A reliable statement puts its result in place.
  written :
      (p : ConfirmedEventEntity → Bool) (f : ConfirmedEventEntity → ConfirmedEventEntity)
      → ((r : ConfirmedEventEntity) → (f r).id ≡ r.id)
      → (s : Store db)
      → db.events.update p f s.events ≡ some (attempt (update_events db p f) s).1.events
  written p f keeps s = let (t, e) = reliable p f keeps s.events in rw e refl

  timeout_event-Clears :
      (x : ConfirmedEventEntity) (s : Store db)
      → is_left_over db bridge x ≡ true
      → Clears db.events events_of
          (λ x. attempt (timeout_event db bridge x))
          (λ r. any (λ status. r.status == status) (pending_payment ∷ []))
          (is_left_over db bridge)
          x
          s
  unfolding set_event_status
  timeout_event-Clears x s e =
      let p = λ (r : ConfirmedEventEntity). r.id == x.id in
      let f = λ (r : ConfirmedEventEntity). record r { status = EventStatus.timeout } in
      Clears-of db.events events_of (λ x. attempt (timeout_event db bridge x))
        (λ r. any (λ status. r.status == status) (pending_payment ∷ [])) (is_left_over db bridge) x
        s (attempt (update_events db p f) s).1 f
        (ap (λ b. attempt (if b then update_events db p f else pure tt) s) e)
        (written p f (λ r. refl) s) (λ r. refl)

  -- After the job on leftover events, no event that waits for its payment is past its timeout, if
  -- the statements succeed.
  pub timeout_leftover_events-done :
      (s : Store db)
      → count
          (λ r. r.status == pending_payment && is_left_over db bridge r)
          (rows db.events (timeout_leftover_events db bridge s).1.events)
        ≡ 0
  unfolding timeout_leftover_events get_events_by_statuses
  timeout_leftover_events-done s =
      let read =
        λ (r : ConfirmedEventEntity). any (λ status. r.status == status) (pending_payment ∷ []) in
      let body = λ (x : ConfirmedEventEntity). attempt (timeout_event db bridge x) in
      count_congr (λ r. r.status == pending_payment && is_left_over db bridge r)
        (λ r. read r && is_left_over db bridge r) (λ r. ground arith) _
      ∙ sweep-all db.events events_of body read (is_left_over db bridge) timeout_event-Clears
          (λ x s e.
            ap
              (λ b.
                attempt (if b then set_event_status db x.id EventStatus.timeout false else pure tt)
                  s)
              e)
          s

  abbrev waits : EventStatus → Bool
  waits status = status == payment_waiting || status == reward_waiting

  abbrev is_waiting : ConfirmedEventEntity → Bool
  is_waiting r = waits r.status

  abbrev requeue : ConfirmedEventEntity → Action (Store db) (Unit {0})
  requeue x = attempt (requeue_with_status db bridge x.status x.id)

  requeue_as-Clears :
      (status : EventStatus) (x : ConfirmedEventEntity) (s : Store db)
      → requeue x s ≡ attempt (set_event_status_to_pending db bridge.now x.id status) s
      → waits status ≡ false
      → Clears db.events events_of requeue is_waiting is_waiting x s
  unfolding set_event_status_to_pending
  requeue_as-Clears status x s h e =
      let p = λ (r : ConfirmedEventEntity). r.id == x.id in
      let f =
        λ (r : ConfirmedEventEntity). record r { status = status; first_try = some bridge.now } in
      Clears-of db.events events_of requeue is_waiting is_waiting x s
        (attempt (update_events db p f) s).1 f h (written p f (λ r. refl) s)
        (λ r. ground (arith, e))

  requeue-Clears :
      (status : EventStatus) (x : ConfirmedEventEntity) (s : Store db)
      → x.status ≡ status
      → waits status ≡ true
      → Clears db.events events_of requeue is_waiting is_waiting x s
  requeue-Clears payment_waiting x s h e =
      requeue_as-Clears pending_payment x s
        (ap (λ status. attempt (requeue_with_status db bridge status x.id) s) h) refl
  requeue-Clears reward_waiting x s h e =
      requeue_as-Clears pending_reward x s
        (ap (λ status. attempt (requeue_with_status db bridge status x.id) s) h) refl
  requeue-Clears status x s h e = ground (arith, e)

  requeue-skips :
      (status : EventStatus) (id : String) (s : Store db)
      → waits status ≡ false
      → attempt (requeue_with_status db bridge status id) s ≡ (ok tt, s)
  requeue-skips payment_waiting id s e = ground (arith, e)
  requeue-skips reward_waiting id s e = ground (arith, e)
  requeue-skips status id s e = refl

  -- After the job on waiting events, no event waits for assets any more, if the statements succeed.
  pub requeue_waiting_events-done :
      (s : Store db) → get_waiting_events db (requeue_waiting_events db bridge s).1 ≡ []
  unfolding requeue_waiting_events get_waiting_events
  requeue_waiting_events-done s =
      let t = (for_each (db.events.find is_waiting s.events) requeue s).1.events in
      let swept =
        sweep-all db.events events_of requeue is_waiting is_waiting
          (λ x s e. requeue-Clears x.status x s refl e) (λ x s e. requeue-skips x.status x.id s e)
          s in
      find_nil db.events is_waiting t (
        omega (
          arith,
          swept,
          count_mono is_waiting (λ r. is_waiting r && is_waiting r) (λ r h. ground arith)
              (rows db.events t),
        ))
