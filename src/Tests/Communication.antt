-- ===== src/Tests/Communication.antt =====
-- The retries of a message that reaches nobody.
use ts_gaurd_service.Base.{◌≡◌, ◌≤◌, refl, none, List, [], ◌∷◌, ok, err, chain_failed}
use ts_gaurd_service.Communication.{
  Dialer, Network, RetriesConfig, send_message, push_message_to_message_queue,
  process_message_queue, retry_sending_message, fire,
}
use ts_gaurd_service.Communication.Retries.{Step, process, time_out, handled, load, handled-le-load}

abbrev unreachable : Network
unreachable = record {
  peers = "relay" ∷ "guard" ∷ [];
  relays = "relay" ∷ [];
  create_from_string = λ id. ok id;
  open_stream = λ _. err chain_failed;
  push = λ _ _. ok tt;
}

abbrev two_retries : RetriesConfig
two_retries = record { max_count = 2; exponential_factor = 3 }

abbrev broadcast : Dialer
broadcast =
    (send_message unreachable "multi-sig" "message" none (record {
      message_queue = [];
      retrying = [];
      subscribed_channels = [];
      pushed = [];
      called = [];
    })).1

abbrev steps : List Step
steps =
    process unreachable
    ∷ time_out 0
    ∷ process unreachable
    ∷ time_out 0
    ∷ process unreachable
    ∷ process unreachable
    ∷ []

-- Two retries after the first attempt, and then it is dropped.
five_handled : handled two_retries steps broadcast ≡ 5
unfolding send_message push_message_to_message_queue process_message_queue retry_sending_message
    fire
five_handled = refl

handled-le-load_example : handled two_retries steps broadcast ≤ load two_retries broadcast
handled-le-load_example = handled-le-load two_retries steps broadcast
