-- ===== src/Synchronization.antt =====
-- EventSynchronization of src/synchronization/EventSynchronization.ts: for an event whose payment it
-- missed, a guard asks the others for the completed payment, and enters the transaction when enough
-- of them answer with it. One message, or one call from a job, is one step. What the chains, the
-- other guards and lodash answer is an argument.
pub mod Responses
pub mod Active
pub mod Approved
pub mod Beside
use ts_gaurd_service.Base.{
  ℕ, zero, suc, ◌+◌, ◌-◌, Bool, true, false, not, ◌&&◌, ◌||◌, Option, none, some, List, [], ◌∷◌,
  ◌++◌, map, String, if◌then◌else◌, leb, ◌==◌, nat_eq, string_eq, length, count, select, any,
  Action, Result, ok, err, impossible_behavior, chain_failed, pure, raise, gets, lift, or_raise,
  attempt, for_each, ◌>>=◌, ◌>>◌, Map, get, set, delete,
}
use ts_gaurd_service.Base.Results.{continue_with}
use ts_gaurd_service.Constants.{
  TransactionStatus, EventStatus, TransactionType, tx_status_eq, type_eq, payment, rejected,
  pending_reward,
}
use ts_gaurd_service.Database.Entities.{
  PaymentTransaction, EventData, TransactionEntity, ConfirmedEventEntity, Database, Store,
}
use ts_gaurd_service.Database.Actions.{
  get_event_by_id, get_tx_by_id, get_event_valid_txs_by_type, set_event_status,
  set_event_status_to_pending, insert_completed_tx,
}
use ts_gaurd_service.Transactions.{
  ConfirmationStatus, confirmed_enough, not_confirmed_enough, not_found,
}
use ts_gaurd_service.Order.{SinglePayment}
use ts_gaurd_service.Event.{Bridge, is_event_confirmed_enough, verify_event}
use ts_gaurd_service.Event.Creation.{create_event_payment_order}

pub record ActiveSync : Type 0 where
  pub timestamp : ℕ
  pub responses : List (Option PaymentTransaction)

-- The payloads, with the receivers and the time of the message.
pub data SyncMessage : Type 0 where
  sync_request : String → List String → ℕ → SyncMessage
  sync_response : String → List String → ℕ → SyncMessage

pub record Synchronization : Type 0 where
  pub event_queue : List String
  pub active_sync_map : Map ActiveSync

pub record Syncing (db : Database) : Type 0 where
  pub store : Store db
  pub sync : Synchronization
  pub sent : List SyncMessage

pub record SyncChain : Type 0 where
  pub verify_payment_transaction : PaymentTransaction → Result Bool
  pub extract_transaction_order : PaymentTransaction → Result (List SinglePayment)
  pub get_tx_confirmation_status : String → TransactionType → Result ConfirmationStatus
  pub verify_transaction_extra_conditions : PaymentTransaction → Result Bool

-- `now_floor` is the time in whole seconds, rounded down, and `text_of` the text to which a transaction object is converted when it is used as a key.
pub record SyncGuard : Type 0 where
  pub now_floor : ℕ
  pub index : ℕ
  pub guards_len : ℕ
  pub required_sign : ℕ
  pub parallel_sync_limit : ℕ
  pub parallel_request_count : ℕ
  pub event_sync_timeout : ℕ
  pub shuffle : List String → List String
  pub sample_size : List ℕ → ℕ → List ℕ
  pub get_peer_id_by_index : ℕ → Option String
  pub get_chain : String → Result SyncChain
  pub send : SyncMessage → Result (Unit {0})
  pub text_of : PaymentTransaction → String

abbrev pub reverse : List String → List String → List String
reverse [] ys = ys
reverse (x ∷ xs) ys = reverse xs (x ∷ ys)

abbrev pub is_nil : List String → Bool
is_nil [] = true
is_nil (_ ∷ _) = false

-- `xs[i] = x`, where what is missing before it is undefined.
abbrev pub assign_response :
    ℕ → PaymentTransaction → List (Option PaymentTransaction) → List (Option PaymentTransaction)
assign_response zero tx [] = some tx ∷ []
assign_response zero tx (_ ∷ xs) = some tx ∷ xs
assign_response (suc i) tx [] = none ∷ assign_response i tx []
assign_response (suc i) tx (x ∷ xs) = x ∷ assign_response i tx xs

abbrev pub undefined_responses : ℕ → List (Option PaymentTransaction)
undefined_responses zero = []
undefined_responses (suc n) = none ∷ undefined_responses n

abbrev pub present : List (Option PaymentTransaction) → List PaymentTransaction
present [] = []
present (none ∷ xs) = present xs
present (some tx ∷ xs) = tx ∷ present xs

-- The positions, from `i`, that have no response and are not the guard's own.
abbrev pub missing : ℕ → ℕ → List (Option PaymentTransaction) → List ℕ
missing own i [] = []
missing own i (none ∷ xs) = let rest = missing own (suc i) xs in if i == own then rest else i ∷ rest
missing own i (some _ ∷ xs) = missing own (suc i) xs

abbrev pub max_nat : ℕ → ℕ → ℕ
max_nat a b = if leb a b then b else a

-- The greatest number of times that one of the keys occurs.
abbrev pub max_occurrence : List String → List String → ℕ
max_occurrence keys [] = 0
max_occurrence keys (k ∷ ks) = max_nat (count (λ x. x == k) keys) (max_occurrence keys ks)

abbrev pub peers_of : (ℕ → Option String) → List ℕ → List String
peers_of peer [] = []
peers_of peer (i ∷ is) =
    let rest = peers_of peer is in elim (peer i) [ none ↦ rest | some p ↦ p ∷ rest ]

module _ (db : Database) (bridge : Bridge) (guard : SyncGuard) where
  abbrev pub in_store : {A : Type 0} → Action (Store db) A → Action (Syncing db) A
  in_store m w = let (r, s) = m w.store in (r, record w { store = s })

  abbrev pub change : (Synchronization → Synchronization) → Action (Syncing db) (Unit {0})
  change f w = (ok tt, record w { sync = f w.sync })

  abbrev pub send_message : SyncMessage → Action (Syncing db) (Unit {0})
  send_message m = do lift (guard.send m); λ w. (ok tt, record w { sent = w.sent ++ m ∷ [] })

  unfoldable pub add_event_to_queue : String → Action (Syncing db) (Unit {0})
  add_event_to_queue event_id =
      change λ a. record a { event_queue = a.event_queue ++ event_id ∷ [] }

  abbrev pub activate : String → Bool → Action (Syncing db) (Unit {0})
  activate event_id true = change λ a. record a {
    active_sync_map =
        set event_id
          (record { timestamp = guard.now_floor; responses = undefined_responses guard.guards_len })
          a.active_sync_map;
  }
  activate event_id false = in_store (set_event_status db event_id rejected false)

  abbrev pub verify_and_activate : String → EventData → Bool → Action (Syncing db) (Unit {0})
  verify_and_activate event_id event false = pure tt
  verify_and_activate event_id event true = do
    fee_config ← lift (bridge.get_event_fee_config event)
    verified ← λ w. (verify_event db bridge event fee_config w.store, w)
    activate event_id verified

  abbrev pub sync_known : String → Option ConfirmedEventEntity → Action (Syncing db) (Unit {0})
  sync_known event_id none = pure tt
  sync_known event_id (some entity) = do
    confirmed ← lift (is_event_confirmed_enough db bridge entity.event_data)
    verify_and_activate event_id entity.event_data confirmed

  abbrev pub sync_inactive : String → Option ActiveSync → Action (Syncing db) (Unit {0})
  sync_inactive event_id (some _) = pure tt
  sync_inactive event_id none = λ w. sync_known event_id (get_event_by_id db event_id w.store) w

  -- The loop on the events of the queue, the last of which is first in the argument.
  unfoldable pub sync_events : List String → Action (Syncing db) (Unit {0})
  sync_events [] w = (ok tt, w)
  sync_events (event_id ∷ ids) w =
      if leb guard.parallel_sync_limit (length w.sync.active_sync_map)
      then (ok tt, w)
      else (do
        change λ a. record a { event_queue = reverse ids [] }
        λ v. sync_inactive event_id (get event_id v.sync.active_sync_map) v
        sync_events ids)
          w

  unfoldable pub process_sync_queue : Action (Syncing db) (Unit {0})
  process_sync_queue w =
      if is_nil w.sync.event_queue || leb guard.parallel_sync_limit (length w.sync.active_sync_map)
      then (ok tt, w)
      else (do
        change λ a. record a { event_queue = guard.shuffle a.event_queue }
        λ v. sync_events (reverse v.sync.event_queue []) v)
          w

  abbrev pub send_to : String → List String → Action (Syncing db) (Unit {0})
  send_to event_id [] = pure tt
  send_to event_id (p ∷ ps) = send_message (sync_request event_id (p ∷ ps) bridge.now)

  unfoldable pub send_sync_batch : Action (Syncing db) (Unit {0})
  send_sync_batch w =
      for_each w.sync.active_sync_map
        (λ e. send_to e.0 (
          peers_of guard.get_peer_id_by_index
            (guard.sample_size (missing guard.index 0 e.1.responses) guard.parallel_request_count)))
        w

  abbrev pub answer : List TransactionEntity → ℕ → String → Action (Syncing db) (Unit {0})
  answer [] timestamp receiver = pure tt
  answer (tx ∷ []) timestamp receiver =
      if tx.status == TransactionStatus.completed
      then send_message (sync_response tx.tx_json (receiver ∷ []) timestamp)
      else pure tt
  answer (_ ∷ _ ∷ _) timestamp receiver = raise impossible_behavior

  abbrev pub request_known :
      Option ConfirmedEventEntity → String → ℕ → String → Action (Syncing db) (Unit {0})
  request_known none event_id timestamp receiver = pure tt
  request_known (some _) event_id timestamp receiver = do
    event_txs ← in_store (get_event_valid_txs_by_type db event_id payment)
    answer event_txs timestamp receiver

  unfoldable pub process_sync_request : String → ℕ → String → Action (Syncing db) (Unit {0})
  process_sync_request event_id timestamp receiver w =
      request_known (get_event_by_id db event_id w.store) event_id timestamp receiver w

  abbrev pub is_running : ActiveSync → Bool
  is_running active = not (leb (active.timestamp + guard.event_sync_timeout) guard.now_floor)

  unfoldable pub timeout_active_syncs : Action (Syncing db) (Unit {0})
  timeout_active_syncs = change λ a. record a {
    active_sync_map = select (λ (e : String × ActiveSync). is_running e.1) a.active_sync_map;
  }
