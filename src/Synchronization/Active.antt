-- ===== src/Synchronization/Active.antt =====
-- The number of events that are synchronized at once.
use ts_gaurd_service.Base.{
  ◌||◌, ℕ, ◌+◌, ◌≤◌, ◌<◌, Bool, true, false, Option, none, some, List, [], ◌∷◌, String,
  if◌then◌else◌, string_eq, leb, length, arith, Action, Map, set, get, bind_cases, lift, Bool-cases,
  inl, inr, subst⁻¹, ◌>>=◌, ◌>>◌, pure,
}
use ts_gaurd_service.Database.Entities.{EventData, ConfirmedEventEntity, Database}
use ts_gaurd_service.Database.Actions.{get_event_by_id}
use ts_gaurd_service.Order.{FeeConfig}
use ts_gaurd_service.Event.{Bridge, is_event_confirmed_enough, verify_event}
use ts_gaurd_service.Synchronization.{
  is_nil, ActiveSync, Syncing, SyncGuard, reverse, change, activate, verify_and_activate,
  sync_known, sync_inactive, sync_events, process_sync_queue,
}

length-set : {V : Type 0} (k : String) (v : V) (m : Map V) → length (set k v m) ≤ length m + 1
unfolding set
length-set k v [] = omega arith
length-set k v ((k', v') ∷ m) = ground (arith, length-set k v m)

module _ (db : Database) (bridge : Bridge) (guard : SyncGuard) where
  abbrev count_of : Syncing db → ℕ
  count_of w = length w.sync.active_sync_map

  -- The limit is kept.
  abbrev IsLimited : Syncing db → Type 0
  IsLimited w = count_of w ≤ guard.parallel_sync_limit

  activate-IsLimited :
      (event_id : String) (b : Bool) (w : Syncing db)
      → count_of w < guard.parallel_sync_limit
      → IsLimited (activate db bridge guard event_id b w).1
  activate-IsLimited event_id true w h =
      omega (arith, h, length-set event_id _ w.sync.active_sync_map)
  activate-IsLimited event_id false w h = omega (arith, h)

  verify_and_activate-IsLimited :
      (event_id : String) (event : EventData) (b : Bool) (w : Syncing db)
      → count_of w < guard.parallel_sync_limit
      → IsLimited (verify_and_activate db bridge guard event_id event b w).1
  verify_and_activate-IsLimited event_id event false w h = omega (arith, h)
  verify_and_activate-IsLimited event_id event true w h =
      let ask : FeeConfig → Action (Syncing db) Bool =
        λ fee_config v. (verify_event db bridge event fee_config v.store, v) in
      bind_cases IsLimited (lift (bridge.get_event_fee_config event))
        (λ fee_config. ask fee_config >>= activate db bridge guard event_id) w (omega (arith, h))
        λ fee_config.
          bind_cases IsLimited (ask fee_config) (activate db bridge guard event_id) w
            (omega (arith, h)) λ b. activate-IsLimited event_id b w h

  sync_known-IsLimited :
      (event_id : String) (entity : Option ConfirmedEventEntity) (w : Syncing db)
      → count_of w < guard.parallel_sync_limit
      → IsLimited (sync_known db bridge guard event_id entity w).1
  sync_known-IsLimited event_id none w h = omega (arith, h)
  sync_known-IsLimited event_id (some entity) w h =
      bind_cases IsLimited (lift (is_event_confirmed_enough db bridge entity.event_data))
        (verify_and_activate db bridge guard event_id entity.event_data) w (omega (arith, h))
        λ b. verify_and_activate-IsLimited event_id entity.event_data b w h

  sync_inactive-IsLimited :
      (event_id : String) (active : Option ActiveSync) (w : Syncing db)
      → count_of w < guard.parallel_sync_limit
      → IsLimited (sync_inactive db bridge guard event_id active w).1
  sync_inactive-IsLimited event_id (some _) w h = omega (arith, h)
  sync_inactive-IsLimited event_id none w h =
      sync_known-IsLimited event_id (get_event_by_id db event_id w.store) w h

  sync_events-IsLimited :
      (ids : List String) (w : Syncing db)
      → IsLimited w
      → IsLimited (sync_events db bridge guard ids w).1
  unfolding sync_events
  sync_events-IsLimited [] w h = h
  sync_events-IsLimited (event_id ∷ ids) w h =
      let pop = change db bridge guard λ a. record a { event_queue = reverse ids [] } in
      let start = λ (v : Syncing db).
        sync_inactive db bridge guard event_id (get event_id v.sync.active_sync_map) v in
      let rest = λ (_ : Unit {0}). sync_events db bridge guard ids in
      let step = λ (b : Bool). if b then pure tt w else (pop >> (start >>= rest)) w in
      let v = (pop w).1 in
      elim (Bool-cases (leb guard.parallel_sync_limit (count_of w))) [
        | inl e ↦ subst⁻¹ (λ b. IsLimited (step b).1) e h
        | inr e ↦
            subst⁻¹ (λ b. IsLimited (step b).1) e
              (bind_cases IsLimited start rest v
                (sync_inactive-IsLimited event_id (get event_id w.sync.active_sync_map) v
                  (ground (arith, e)))
                λ _. sync_events-IsLimited ids (start v).1 (
                  sync_inactive-IsLimited event_id (get event_id w.sync.active_sync_map) v
                    (ground (arith, e))))
      ]

  -- Processing the queue starts no more synchronizations than may run at once, whichever events
  -- are in it and whatever the chains answer.
  pub process_sync_queue-IsLimited :
      (w : Syncing db)
      → length w.sync.active_sync_map ≤ guard.parallel_sync_limit
      → length (process_sync_queue db bridge guard w).1.sync.active_sync_map
        ≤ guard.parallel_sync_limit
  unfolding process_sync_queue
  process_sync_queue-IsLimited w h =
      let shuffle =
        change db bridge guard λ a. record a { event_queue = guard.shuffle a.event_queue } in
      let run = λ (v : Syncing db). sync_events db bridge guard (reverse v.sync.event_queue []) v in
      let step = λ (b : Bool). if b then pure tt w else (shuffle >> run) w in
      elim (Bool-cases (is_nil w.sync.event_queue || leb guard.parallel_sync_limit (count_of w))) [
        | inl e ↦ subst⁻¹ (λ b. IsLimited (step b).1) e h
        | inr e ↦ subst⁻¹ (λ b. IsLimited (step b).1) e (sync_events-IsLimited _ (shuffle w).1 h)
      ]
