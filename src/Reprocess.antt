-- ===== src/Reprocess.antt =====
-- EventReprocess of src/reprocess/EventReprocess.ts, with the reprocess queries of
-- src/db/DatabaseAction.ts: a guard asks others to process an event again. One message, or one
-- call, is one step. The repository of the requests, random ids, the time and sends are arguments.
pub mod Cooldown
use ts_gaurd_service.Base.{
  ◌≡◌, ℕ, ◌+◌, Bool, true, false, ◌&&◌, ◌||◌, Option, none, some, List, [], ◌∷◌, ◌++◌, map, String,
  if◌then◌else◌, ltb, ◌==◌, string_eq, count, Action, Result, ok, err, not_found,
  impossible_behavior, query_failed, pure, raise, lift, attempt, ◌>>=◌, ◌>>◌,
}
use ts_gaurd_service.Constants.{
  EventStatus, event_status_eq, rejected, payment_waiting, reward_waiting, pending_payment,
  pending_reward,
}
use ts_gaurd_service.Database.Entities.{ConfirmedEventEntity, Database, Store}
use ts_gaurd_service.Database.Actions.{get_event_by_id, set_event_status_to_pending}

pub data ReprocessStatus : Type 0 where
  no_response accepted : ReprocessStatus

-- The row, less its generated id.
pub record ReprocessEntity : Type 0 where
  pub request_id : String
  pub event_id : String
  pub sender : String
  pub receiver : String
  pub status : ReprocessStatus
  pub timestamp : ℕ

-- The repository of the requests, by what its queries are documented to do.
pub record Requests : Type 1 where
  pub Table : Type 0
  pub find : (ReprocessEntity → Bool) → Table → List ReprocessEntity
  pub insert : List ReprocessEntity → Table → Option Table
  pub update : (ReprocessEntity → Bool) → (ReprocessEntity → ReprocessEntity) → Table → Option Table
  pub count-find :
      (q p : ReprocessEntity → Bool) (t : Table)
      → count q (find p t) ≡ count (λ r. q r && p r) (find (λ _. true) t)
  pub count-insert :
      (rs : List ReprocessEntity) (t t' : Table)
      → insert rs t ≡ some t'
      → (q : ReprocessEntity → Bool)
      → count q (find (λ _. true) t') ≡ count q (rs ++ find (λ _. true) t)

-- The payloads, with the receivers and the time of the message.
pub data ReprocessMessage : Type 0 where
  reprocess_request : String → String → List String → ℕ → ReprocessMessage
  reprocess_response : String → Bool → List String → ℕ → ReprocessMessage

pub record Reprocessing (db : Database) (requests : Requests) : Type 0 where
  pub store : Store db
  pub table : requests.Table
  pub sent : List ReprocessMessage

-- What a guard reads during a step.
pub record Reprocessor : Type 0 where
  pub now : ℕ
  pub reprocess_cooldown : ℕ
  pub dialer_id : String
  pub random_id : String
  pub send : ReprocessMessage → Result (Unit {0})

abbrev pub request_row : String → String → String → ℕ → String → ReprocessEntity
request_row sender_id request_id event_id timestamp peer_id = record {
  request_id = request_id;
  event_id = event_id;
  sender = sender_id;
  receiver = peer_id;
  status = no_response;
  timestamp = timestamp;
}

module _ (db : Database) (requests : Requests) where
  abbrev pub in_store : {A : Type 0} → Action (Store db) A → Action (Reprocessing db requests) A
  in_store m w = let (r, s) = m w.store in (r, record w { store = s })

  abbrev pub write_requests : Option requests.Table → Action (Reprocessing db requests) (Unit {0})
  write_requests none w = (err query_failed, w)
  write_requests (some t) w = (ok tt, record w { table = t })

  unfoldable pub insert_reprocess_requests :
      String → String → String → ℕ → List String → Action (Reprocessing db requests) (Unit {0})
  insert_reprocess_requests sender_id request_id event_id timestamp peer_ids w =
      write_requests
        (requests.insert (map (request_row sender_id request_id event_id timestamp) peer_ids)
          w.table)
        w

  -- The requests by a guard that are later than `now` less the cooldown.
  abbrev pub is_recent : String → ℕ → ℕ → ReprocessEntity → Bool
  is_recent sender_id now cooldown r = r.sender == sender_id && ltb now (r.timestamp + cooldown)

  unfoldable pub get_recent_reprocess_requests_by_guard :
      String → ℕ → ℕ → Reprocessing db requests → List ReprocessEntity
  get_recent_reprocess_requests_by_guard sender_id now cooldown w =
      requests.find (is_recent sender_id now cooldown) w.table

  unfoldable pub update_reprocess_request :
      String → String → String → ReprocessStatus → Action (Reprocessing db requests) (Unit {0})
  update_reprocess_request request_id sender_id receiver_id status w =
      write_requests
        (requests.update
          (λ r. r.request_id == request_id && (r.sender == sender_id && r.receiver == receiver_id))
          (λ r. record r { status = status }) w.table)
        w

  module _ (guard : Reprocessor) where
    abbrev pub send_message : ReprocessMessage → Action (Reprocessing db requests) (Unit {0})
    send_message m = do lift (guard.send m); λ w. (ok tt, record w { sent = w.sent ++ m ∷ [] })

    -- The status to which an event returns, if it may be processed again.
    abbrev pub status_again : EventStatus → Option EventStatus
    status_again rejected = some pending_payment
    status_again EventStatus.timeout = some pending_payment
    status_again payment_waiting = some pending_payment
    status_again reward_waiting = some pending_reward
    status_again _ = none

    abbrev pub request_again :
        Option EventStatus → String → List String → Action (Reprocessing db requests) (Unit {0})
    request_again none event_id peer_ids = raise impossible_behavior
    request_again (some status) event_id peer_ids = do
      in_store (set_event_status_to_pending db guard.now event_id status)
      insert_reprocess_requests guard.dialer_id guard.random_id event_id guard.now peer_ids
      send_message (reprocess_request guard.random_id event_id peer_ids guard.now)

    abbrev pub request_known :
        Option ConfirmedEventEntity
        → String
        → List String
        → Action (Reprocessing db requests) (Unit {0})
    request_known none event_id peer_ids = raise not_found
    request_known (some entity) event_id peer_ids =
        request_again (status_again entity.status) event_id peer_ids

    unfoldable pub send_reprocess_request :
        String → List String → Action (Reprocessing db requests) (Unit {0})
    send_reprocess_request event_id peer_ids w =
        request_known (get_event_by_id db event_id w.store) event_id peer_ids w

    abbrev pub process_again :
        Option EventStatus
        → String
        → String
        → ℕ
        → String
        → Action (Reprocessing db requests) (Unit {0})
    process_again none request_id event_id timestamp peer_id = pure tt
    process_again (some status) request_id event_id timestamp peer_id = do
      in_store (set_event_status_to_pending db guard.now event_id status)
      insert_reprocess_requests peer_id request_id event_id timestamp (guard.dialer_id ∷ [])
      send_message (reprocess_response request_id true (peer_id ∷ []) timestamp)

    abbrev pub process_first :
        List ReprocessEntity
        → EventStatus
        → String
        → String
        → ℕ
        → String
        → Action (Reprocessing db requests) (Unit {0})
    process_first [] status request_id event_id timestamp peer_id =
        process_again (status_again status) request_id event_id timestamp peer_id
    process_first (_ ∷ _) status request_id event_id timestamp peer_id = pure tt

    abbrev pub process_known :
        Option ConfirmedEventEntity
        → String
        → String
        → ℕ
        → String
        → Action (Reprocessing db requests) (Unit {0})
    process_known none request_id event_id timestamp peer_id w = (ok tt, w)
    process_known (some entity) request_id event_id timestamp peer_id w =
        process_first
          (get_recent_reprocess_requests_by_guard peer_id guard.now guard.reprocess_cooldown w)
          entity.status request_id event_id timestamp peer_id w

    unfoldable pub process_reprocess_request :
        String → String → ℕ → String → Action (Reprocessing db requests) (Unit {0})
    process_reprocess_request request_id event_id timestamp peer_id w =
        process_known (get_event_by_id db event_id w.store) request_id event_id timestamp peer_id w

    unfoldable pub process_reprocess_response :
        String → Bool → String → Action (Reprocessing db requests) (Unit {0})
    process_reprocess_response request_id false peer_id = pure tt
    process_reprocess_response request_id true peer_id =
        update_reprocess_request request_id guard.dialer_id peer_id accepted

    abbrev pub process_message_of :
        ReprocessMessage → String → Action (Reprocessing db requests) (Unit {0})
    process_message_of (reprocess_request request_id event_id _ timestamp) peer_id =
        process_reprocess_request request_id event_id timestamp peer_id
    process_message_of (reprocess_response request_id is_ok _ timestamp) peer_id =
        process_reprocess_response request_id is_ok peer_id

    unfoldable pub process_message :
        ReprocessMessage → String → Action (Reprocessing db requests) (Unit {0})
    process_message m peer_id = attempt (process_message_of m peer_id)
