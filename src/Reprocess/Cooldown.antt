-- ===== src/Reprocess/Cooldown.antt =====
-- How often the requests of a guard are granted.
use ts_gaurd_service.Base.{
  ℕ, ◌+◌, ◌<◌, ◌≤◌, ◌≡◌, refl, ap, ◌⊎◌, inl, inr, Bool, true, Option, none, some, List, [], ◌∷◌,
  String, string_eq, eq_refl, count, arith, ok, bind_cases, lift, Option-cases, subst⁻¹, ◌∙◌, ◌++◌,
  ◌>>◌,
}
use ts_gaurd_service.Constants.{EventStatus}
use ts_gaurd_service.Database.Entities.{ConfirmedEventEntity, Database}
use ts_gaurd_service.Database.Actions.{get_event_by_id, set_event_status_to_pending}
use ts_gaurd_service.Reprocess.{
  ReprocessEntity, Requests, Reprocessing, Reprocessor, reprocess_response, request_row, in_store,
  write_requests, insert_reprocess_requests, is_recent, get_recent_reprocess_requests_by_guard,
  send_message, status_again, process_again, process_first, process_known,
  process_reprocess_request,
}

module _ (db : Database) (requests : Requests) (guard : Reprocessor)
    (request_id event_id peer_id : String) (timestamp : ℕ) where
  abbrev rows_of : Reprocessing db requests → List ReprocessEntity
  rows_of w = requests.find (λ _. true) w.table

  first-refused :
      (xs : List ReprocessEntity) (status : EventStatus) (w : Reprocessing db requests)
      → 1 ≤ count (λ _. true) xs
      → process_first db requests guard xs status request_id event_id timestamp peer_id w
        ≡ (ok tt, w)
  first-refused [] status w h = ground (arith, h)
  first-refused (_ ∷ _) status w h = refl

  -- A guard with a recent request is refused.
  recent-refused :
      (w : Reprocessing db requests)
      → 1 ≤ count (is_recent db requests peer_id guard.now guard.reprocess_cooldown) (rows_of w)
      → process_reprocess_request db requests guard request_id event_id timestamp peer_id w
        ≡ (ok tt, w)
  unfolding process_reprocess_request get_recent_reprocess_requests_by_guard
  recent-refused w h = known (get_event_by_id db event_id w.store)
    where
      known :
          (entity : Option ConfirmedEventEntity)
          → process_known db requests guard entity request_id event_id timestamp peer_id w
            ≡ (ok tt, w)
      known none = refl
      known (some entity) =
          let recent = is_recent db requests peer_id guard.now guard.reprocess_cooldown in
          first-refused (requests.find recent w.table) entity.status w
            (omega (arith, h, requests.count-find (λ _. true) recent w.table))

  module _ (w : Reprocessing db requests) where
    -- The requests are as they were, or hold the new one.
    Noted : Reprocessing db requests → Type 0
    Noted v =
        (v.table ≡ w.table)
        ⊎ ((q : ReprocessEntity → Bool)
            → q (request_row peer_id request_id event_id timestamp guard.dialer_id) ≡ true
            → 1 ≤ count q (rows_of v))

    insert-Noted :
        (v : Reprocessing db requests)
        → v.table ≡ w.table
        → Noted
            (insert_reprocess_requests db requests peer_id request_id event_id timestamp
              (guard.dialer_id ∷ [])
              v).1
    unfolding insert_reprocess_requests Noted
    insert-Noted v same =
        let row = request_row peer_id request_id event_id timestamp guard.dialer_id in
        elim (Option-cases (requests.insert (row ∷ []) v.table)) [
          | inl e ↦ inl (ap (λ o. (write_requests db requests o v).1.table) e ∙ same)
          | inr (t, e) ↦ inr λ q h.
              subst⁻¹
                (λ (o : Option requests.Table).
                  1 ≤ count q (rows_of (write_requests db requests o v).1))
                e (ground (arith, h, requests.count-insert (row ∷ []) v.table t e q))
        ]

    again-Noted :
        (status : Option EventStatus)
        → Noted (process_again db requests guard status request_id event_id timestamp peer_id w).1
    unfolding Noted
    again-Noted none = inl refl
    again-Noted (some status) =
        let set = in_store db requests (set_event_status_to_pending db guard.now event_id status) in
        let insert =
          insert_reprocess_requests db requests peer_id request_id event_id timestamp
            (guard.dialer_id ∷ []) in
        let send =
          send_message db requests guard
            (reprocess_response request_id true (peer_id ∷ []) timestamp) in
        bind_cases Noted set (λ _. insert >> send) w (inl refl)
          λ _.
            bind_cases Noted insert (λ _. send) (set w).1 (insert-Noted (set w).1 refl)
              λ _. sent (insert (set w).1).1 (insert-Noted (set w).1 refl)
      where
        sent :
            (v : Reprocessing db requests)
            → Noted v
            → Noted
                (send_message db requests guard
                  (reprocess_response request_id true (peer_id ∷ []) timestamp)
                  v).1
        sent v h =
            bind_cases Noted
              (lift (guard.send (reprocess_response request_id true (peer_id ∷ []) timestamp)))
              (λ _ v. (
                ok tt,
                record v {
                  sent = v.sent ++ reprocess_response request_id true (peer_id ∷ []) timestamp ∷ [];
                },
              ))
              v h λ _. h

    request-Noted :
        Noted
          (process_reprocess_request db requests guard request_id event_id timestamp peer_id w).1
    unfolding process_reprocess_request Noted
    request-Noted = known (get_event_by_id db event_id w.store)
      where
        first :
            (xs : List ReprocessEntity) (status : EventStatus)
            → Noted
                (process_first db requests guard xs status request_id event_id timestamp peer_id
                  w).1
        first [] status = again-Noted (status_again db requests guard status)
        first (_ ∷ _) status = inl refl

        known :
            (entity : Option ConfirmedEventEntity)
            → Noted
                (process_known db requests guard entity request_id event_id timestamp peer_id w).1
        known none = inl refl
        known (some entity) = first _ entity.status

-- After a request of a guard, either no request was noted, or the guard's further requests change
-- nothing until the cooldown after the time of the first has passed, whichever event they are for.
pub process_reprocess_request_once :
    (db : Database) (requests : Requests) (guard : Reprocessor)
    (request_id event_id peer_id : String) (timestamp : ℕ) (w : Reprocessing db requests)
    → let w' =
        (process_reprocess_request db requests guard request_id event_id timestamp peer_id w).1 in
      (w'.table ≡ w.table)
      ⊎ ((later : Reprocessor) (request_id' event_id' : String) (timestamp' : ℕ)
          → later.now < timestamp + later.reprocess_cooldown
          → process_reprocess_request db requests later request_id' event_id' timestamp' peer_id w'
            ≡ (ok tt, w'))
unfolding Noted
process_reprocess_request_once db requests guard request_id event_id peer_id timestamp w =
    elim (request-Noted db requests guard request_id event_id peer_id timestamp w) [
      | inl h ↦ inl h
      | inr h ↦ inr λ later request_id' event_id' timestamp' soon.
          recent-refused db requests later request_id' event_id' peer_id timestamp' _ (
            h (is_recent db requests peer_id later.now later.reprocess_cooldown)
              (ground (arith, eq_refl peer_id, soon)))
    ]
