-- ===== src/Communication.antt =====
-- Dialer of src/communication/Dialer.ts: the channels, the queue of messages and its retries. What
-- libp2p does is a parameter: the peers of the node, whether a peer is reached by a stream, and
-- whether its source takes a message. A callback is its name, and the queue is kept as it is parsed.
-- One message of the queue, or one timer, is one step.
pub mod Retries
use Prim.Native.Nat.{◌^◌}
use ts_gaurd_service.Base.Results.{continue_with}
use ts_gaurd_service.Base.{
  ℕ, zero, suc, ◌*◌, Bool, true, false, not, ◌&&◌, ◌||◌, Option, none, some, List, [], ◌∷◌, ◌++◌,
  map, String, if◌then◌else◌, leb, ◌==◌, string_eq, any, select, Action, Result, ok, err, lift,
  pure, ◌>>=◌, ◌>>◌, Map, get, set,
}

pub record SendDataCommunication : Type 0 where
  pub msg : String
  pub channel : String
  pub receiver : Option String

pub record MessageQueueParsedMessage : Type 0 where
  pub peer : String
  pub message_to_send : SendDataCommunication
  pub retries_count : ℕ

pub record SubscribeChannel : Type 0 where
  pub func : String
  pub url : Option String

-- A call of a callback: with the message, the channel and the peer.
pub record Callback : Type 0 where
  pub subscriber : SubscribeChannel
  pub msg : String
  pub channel : String
  pub peer : String

-- The members of the class, the timers of the retries with their milliseconds, and what was handed
-- to a stream or a callback.
pub record Dialer : Type 0 where
  pub message_queue : List MessageQueueParsedMessage
  pub retrying : List (ℕ × MessageQueueParsedMessage)
  pub subscribed_channels : Map (List SubscribeChannel)
  pub pushed : List (String × SendDataCommunication)
  pub called : List Callback

pub record Network : Type 0 where
  pub peers : List String
  pub relays : List String
  pub create_from_string : String → Result String
  pub open_stream : String → Result (Unit {0})
  pub push : String → SendDataCommunication → Result (Unit {0})

-- `messageSendingRetriesMaxCount` and `messageSendingRetriesExponentialFactor`
pub record RetriesConfig : Type 0 where
  pub max_count : ℕ
  pub exponential_factor : ℕ

abbrev pub same_url : Option String → Option String → Bool
same_url none url = false
same_url (some u) none = false
same_url (some u) (some v) = u == v

abbrev pub is_none : Option String → Bool
is_none none = true
is_none (some _) = false

-- Without a url, one callback of the name is enough.
unfoldable pub is_redundant : SubscribeChannel → SubscribeChannel → Bool
is_redundant new sub = sub.func == new.func && (same_url sub.url new.url || is_none new.url)

unfoldable pub subscribe_channel : String → SubscribeChannel → Dialer → Dialer
subscribe_channel channel new w = elim (get channel w.subscribed_channels) [
  | none ↦ record w { subscribed_channels = set channel (new ∷ []) w.subscribed_channels }
  | some subs ↦
      if any (is_redundant new) subs
      then w
      else record w { subscribed_channels = set channel (subs ++ new ∷ []) w.subscribed_channels }
]

-- The callbacks of a message that came by a stream, in their order.
unfoldable pub handle_broadcast : String → String → String → Dialer → Dialer
handle_broadcast msg channel peer w = elim (get channel w.subscribed_channels) [
  | none ↦ w
  | some subs ↦ record w {
    called =
        w.called
        ++ map
            (λ subscriber. record {
              subscriber = subscriber;
              msg = msg;
              channel = channel;
              peer = peer;
            })
            subs;
  }
]

unfoldable pub push_message_to_message_queue : String → SendDataCommunication → Dialer → Dialer
push_message_to_message_queue peer message w = record w {
  message_queue =
      w.message_queue ++ record { peer = peer; message_to_send = message; retries_count = 0 } ∷ [];
}

abbrev pub push_to_all : List String → SendDataCommunication → Dialer → Dialer
push_to_all [] message w = w
push_to_all (peer ∷ peers) message w =
    push_to_all peers message (push_message_to_message_queue peer message w)

abbrev pub is_relay : Network → String → Bool
is_relay network peer = any (λ relay. relay == peer) network.relays

abbrev pub is_listener : Network → String → Bool
is_listener network peer = not (is_relay network peer)

unfoldable pub send_message : Network → String → String → Option String → Action Dialer (Unit {0})
send_message network channel msg none w = (
  ok tt,
  push_to_all (select (is_listener network) network.peers)
      (record { msg = msg; channel = channel; receiver = none }) w,
)
send_message network channel msg (some receiver) w =
    (do
      peer ← lift (network.create_from_string receiver)
      λ v. (
        ok tt,
        push_message_to_message_queue peer
            (record { msg = msg; channel = channel; receiver = some receiver }) v,
      ))
      w

module _ (config : RetriesConfig) where
  -- After the last retry the message is dropped.
  unfoldable pub retry_sending_message : MessageQueueParsedMessage → Dialer → Dialer
  retry_sending_message message w =
      let count : ℕ = suc message.retries_count in
      if leb count config.max_count
      then record w {
        retrying =
            w.retrying
            ++ (1000 * config.exponential_factor ^ count, record message { retries_count = count })
              ∷ [];
      }
      else w

  -- A source that takes no message loses it, since that is only logged.
  abbrev pub push_to_source : Network → MessageQueueParsedMessage → Dialer → Dialer
  push_to_source network message w = elim (network.push message.peer message.message_to_send) [
    | err _ ↦ w
    | ok _ ↦ record w { pushed = w.pushed ++ (message.peer, message.message_to_send) ∷ [] }
  ]

  abbrev pub send_to_stream : Network → MessageQueueParsedMessage → Dialer → Dialer
  send_to_stream network message w =
      elim (continue_with (network.create_from_string message.peer) network.open_stream) [
        | err _ ↦ retry_sending_message message w
        | ok _ ↦ push_to_source network message w
      ]

  abbrev pub process_first : Network → List MessageQueueParsedMessage → Dialer → Dialer
  process_first network [] w = w
  process_first network (message ∷ rest) w =
      send_to_stream network message (record w { message_queue = rest })

  unfoldable pub process_message_queue : Network → Dialer → Dialer
  process_message_queue network w = process_first network w.message_queue w

-- A timer puts its message back into the queue.
abbrev pub put_back : Option (ℕ × MessageQueueParsedMessage) → Dialer → Dialer
put_back none w = w
put_back (some (_, message)) w = record w { message_queue = w.message_queue ++ message ∷ [] }

abbrev pub nth : ℕ → List (ℕ × MessageQueueParsedMessage) → Option (ℕ × MessageQueueParsedMessage)
nth k [] = none
nth zero (x ∷ xs) = some x
nth (suc k) (x ∷ xs) = nth k xs

abbrev pub without : ℕ → List (ℕ × MessageQueueParsedMessage) → List (ℕ × MessageQueueParsedMessage)
without k [] = []
without zero (x ∷ xs) = xs
without (suc k) (x ∷ xs) = x ∷ without k xs

-- The timer that runs for the longest but so many; none if there are fewer.
unfoldable pub fire : ℕ → Dialer → Dialer
fire k w = put_back (nth k w.retrying) (record w { retrying = without k w.retrying })
