-- ===== src/Communication/Retries.antt =====
-- The retries of src/communication/Dialer.ts, counted over the steps of the queue and of the timers.
use Prim.Native.Nat.{◌^◌}
use ts_gaurd_service.Base.{
  ℕ, zero, suc, ◌+◌, ◌-◌, ◌*◌, ◌≤◌, ◌≡◌, refl, Bool, true, false, Option, none, some, List, [], ◌∷◌,
  ◌++◌, leb, Result, ok, err, arith, bit, ap, inl, inr, Bool-cases,
}
use ts_gaurd_service.Base.Results.{continue_with}
use ts_gaurd_service.Communication.{
  MessageQueueParsedMessage, Dialer, Network, RetriesConfig, retry_sending_message, send_to_stream,
  process_first, process_message_queue, put_back, nth, without, fire,
}

-- The queue is processed for one message, or a timer runs out.
pub data Step : Type 0 where
  process : Network → Step
  time_out : ℕ → Step

abbrev is_some : Option (ℕ × MessageQueueParsedMessage) → Bool
is_some none = false
is_some (some _) = true

abbrev has_first : List MessageQueueParsedMessage → Bool
has_first [] = false
has_first (_ ∷ _) = true

-- Whether there is a message to handle.
abbrev handles : Step → Dialer → Bool
handles (process network) w = has_first w.message_queue
handles (time_out k) w = is_some (nth k w.retrying)

module _ (config : RetriesConfig) where
  abbrev pub after : Step → Dialer → Dialer
  after (process network) w = process_message_queue config network w
  after (time_out k) w = fire k w

  -- How many of the steps handle a message.
  abbrev pub handled : List Step → Dialer → ℕ
  handled [] w = 0
  handled (s ∷ ss) w = bit (handles s w) + handled ss (after s w)

  -- How often a message may still be handled, in the queue.
  abbrev pub remaining : MessageQueueParsedMessage → ℕ
  remaining message = 2 * (config.max_count - message.retries_count) + 1

  abbrev pub queue_load : List MessageQueueParsedMessage → ℕ
  queue_load [] = 0
  queue_load (m ∷ ms) = remaining m + queue_load ms

  abbrev pub timer_load : List (ℕ × MessageQueueParsedMessage) → ℕ
  timer_load [] = 0
  timer_load (e ∷ es) = remaining e.1 + 1 + timer_load es

  abbrev pub load : Dialer → ℕ
  load w = queue_load w.message_queue + timer_load w.retrying

  queue_load-append :
      (ms : List MessageQueueParsedMessage) (m : MessageQueueParsedMessage)
      → queue_load (ms ++ m ∷ []) ≡ queue_load ms + remaining m
  queue_load-append [] m = omega arith
  queue_load-append (x ∷ ms) m = omega (arith, queue_load-append ms m)

  timer_load-append :
      (es : List (ℕ × MessageQueueParsedMessage)) (e : ℕ × MessageQueueParsedMessage)
      → timer_load (es ++ e ∷ []) ≡ timer_load es + remaining e.1 + 1
  timer_load-append [] e = omega arith
  timer_load-append (x ∷ es) e = omega (arith, timer_load-append es e)

  retry_load :
      (m : MessageQueueParsedMessage) (w : Dialer)
      → load (retry_sending_message config m w) + 1 ≤ load w + remaining m
  unfolding retry_sending_message
  retry_load m w = elim (Bool-cases (leb (suc m.retries_count) config.max_count)) [
    | inl more ↦
        rw
          (
            more,
            timer_load-append w.retrying (
              1000 * config.exponential_factor ^ suc m.retries_count,
              record m { retries_count = suc m.retries_count },
            ),
          )
          (ground arith)
    | inr last ↦ rw last (omega arith)
  ]

  stream_load :
      (network : Network) (m : MessageQueueParsedMessage) (w : Dialer)
      → load (send_to_stream config network m w) + 1 ≤ load w + remaining m
  stream_load network m w =
      go (continue_with (network.create_from_string m.peer) network.open_stream)
        (network.push m.peer m.message_to_send) (retry_load m w)
    where
      go :
          (r : Result (Unit {0})) (p : Result (Unit {0}))
          → load (retry_sending_message config m w) + 1 ≤ load w + remaining m
          → load (elim r [
            | err _ ↦ retry_sending_message config m w
            | ok _ ↦ elim p [
              | err _ ↦ w
              | ok _ ↦ record w { pushed = w.pushed ++ (m.peer, m.message_to_send) ∷ [] }
            ]
          ])
              + 1
            ≤ load w + remaining m
      go (err _) p h = h
      go (ok _) (err _) h = omega arith
      go (ok _) (ok _) h = omega arith

  without_load :
      (k : ℕ) (es : List (ℕ × MessageQueueParsedMessage)) (e : ℕ × MessageQueueParsedMessage)
      → nth k es ≡ some e
      → timer_load (without k es) + remaining e.1 + 1 ≡ timer_load es
  without_load k [] e h = cc
  without_load zero (x ∷ es) e h = ground arith
  without_load (suc k) (x ∷ es) e h = omega (arith, without_load k es e h)

  without-none :
      (k : ℕ) (es : List (ℕ × MessageQueueParsedMessage)) → nth k es ≡ none → without k es ≡ es
  without-none k [] h = refl
  without-none zero (x ∷ es) h = cc
  without-none (suc k) (x ∷ es) h = ap (λ rest. x ∷ rest) (without-none k es h)

  -- A step that handles a message lowers the load.
  step_load : (s : Step) (w : Dialer) → bit (handles s w) + load (after s w) ≤ load w
  unfolding process_message_queue fire
  step_load (process network) w = first w.message_queue refl
    where
      first :
          (ms : List MessageQueueParsedMessage)
          → w.message_queue ≡ ms
          → bit (has_first ms) + load (process_first config network ms w) ≤ load w
      first [] e = omega arith
      first (m ∷ ms) e =
          let sent = stream_load network m (record w { message_queue = ms }) in
          let split : load w ≡ remaining m + queue_load ms + timer_load w.retrying =
            rw e (omega arith) in
          omega (arith, sent, split)
  step_load (time_out k) w = back (nth k w.retrying) refl
    where
      back :
          (o : Option (ℕ × MessageQueueParsedMessage))
          → nth k w.retrying ≡ o
          → bit (is_some o) + load (put_back o (record w { retrying = without k w.retrying }))
            ≤ load w
      back none h = rw (without-none k w.retrying h) (omega arith)
      back (some e) h =
          omega (arith, without_load k w.retrying e h, queue_load-append w.message_queue e.1)

  -- However the network behaves, as long as no message is added no more steps handle a message than
  -- the load: twice the retries that a message has left and one, for each in the queue, and one more
  -- for each that waits for a timer.
  pub handled-le-load : (steps : List Step) (w : Dialer) → handled steps w ≤ load w
  handled-le-load [] w = omega arith
  handled-le-load (s ∷ ss) w = omega (arith, step_load s w, handled-le-load ss (after s w))
