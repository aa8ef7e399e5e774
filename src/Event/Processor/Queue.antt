-- ===== src/Event/Processor/Queue.antt =====
-- What processing a confirmed event of src/event/EventProcessor.ts queues for agreement.
use ts_gaurd_service.Base.{
  ◌<◌, ◌≡◌, refl, ap, ◌⊎◌, inl, inr, Bool, true, false, Bool-cases, List, [], ◌∷◌, ◌++◌, String,
  ◌==◌, string_eq, Result, ok, err, arith, and_then, pure, if◌then◌else◌, not_enough_assets,
  impossible_behavior, raise, subst⁻¹, leb, ◌>>=◌,
}
use ts_gaurd_service.Constants.{
  EventStatus, pending_payment, pending_reward, payment_waiting, reward_waiting, payment, spent,
}
use ts_gaurd_service.Database.Entities.{
  PaymentTransaction, EventData, ConfirmedEventEntity, TransactionEntity, Database, Store,
}
use ts_gaurd_service.Database.Actions.{get_event_valid_txs_by_type, set_event_status}
use ts_gaurd_service.Database.Lookups.{get_event_valid_txs_by_type_cases}
use ts_gaurd_service.Agreement.{Agreement, Peer, in_store, add_transaction_to_queue}
use ts_gaurd_service.Order.{FeeConfig}
use ts_gaurd_service.Event.{Bridge, verify_event, get_id, has_turn}
use ts_gaurd_service.Event.Creation.{create_event_payment, create_event_reward_distribution}
use ts_gaurd_service.Event.Processor.{
  event_unexpected_fails_limit, is_spent, queue_or_wait, pay, process_payment_event, reward_of,
  distribute, process_reward_event, process_with_status, process_confirmed_event,
}

-- The agreement with one more transaction in its queue.
abbrev pub with_queued : PaymentTransaction → Agreement → Agreement
with_queued tx a = record a { transaction_queue = a.transaction_queue ++ tx ∷ [] }

module _ (db : Database) (bridge : Bridge) where
  -- The transaction is a payment of a verified event.
  pub record IsPayment (event : EventData) (tx : PaymentTransaction) (w : Peer db) : Type 0 where
    pub fee_config : FeeConfig
    pub fee : bridge.get_event_fee_config event ≡ ok fee_config
    pub verified : verify_event db bridge event fee_config w.store ≡ ok true
    pub created : create_event_payment db bridge event fee_config w ≡ ok tx

  -- The transaction distributes the rewards of an event whose one valid payment is known.
  pub record IsReward (event : EventData) (tx : PaymentTransaction) (w : Peer db) : Type 0 where
    pub fee_config : FeeConfig
    pub paid : TransactionEntity
    pub one_payment :
        (get_event_valid_txs_by_type db (get_id bridge event) payment w.store).0 ≡ ok (paid ∷ [])
    pub not_ergo : (event.to_chain == bridge.configs.ergo_chain) ≡ false
    pub fee : bridge.get_event_fee_config event ≡ ok fee_config
    pub created : create_event_reward_distribution db bridge event fee_config paid.tx_id w ≡ ok tx

  pub record IsDue (event : ConfirmedEventEntity) (tx : PaymentTransaction) (w : Peer db)
      : Type 0 where
    pub unspent : is_spent event.event_data.spend_height ≡ false
    pub fails : event.unexpected_fails < event_unexpected_fails_limit
    pub turn : has_turn bridge (bridge.time_after (get_id bridge event.event_data)) ≡ true
    pub made :
        (event.status ≡ pending_payment) × IsPayment event.event_data tx w
        ⊎ (event.status ≡ pending_reward) × IsReward event.event_data tx w

  -- A step leaves the agreement, or queues a transaction that meets `P`.
  abbrev pub Queues : (PaymentTransaction → Type 0) → Peer db → Peer db → Type 0
  Queues P w w' =
      (w'.agreement ≡ w.agreement)
      ⊎ ((tx : PaymentTransaction) × P tx × (w'.agreement ≡ with_queued tx w.agreement))

  module _ (P : PaymentTransaction → Type 0) (w : Peer db) where
    queue_if-Queues :
        (b : Bool) (tx : PaymentTransaction)
        → (b ≡ true → P tx)
        → Queues P w ((if b then add_transaction_to_queue tx else pure tt) w).1
    unfolding add_transaction_to_queue
    queue_if-Queues true tx h = inr (tx, h refl, refl)
    queue_if-Queues false tx h = inl refl

    queue_or_wait-Queues :
        (event_id : String) (waiting : EventStatus) (r : Result PaymentTransaction)
        → ((tx : PaymentTransaction)
            → r ≡ ok tx
            → has_turn bridge (bridge.time_after event_id) ≡ true
            → P tx)
        → Queues P w (queue_or_wait db bridge event_id waiting r w).1
    queue_or_wait-Queues event_id waiting (ok tx) h =
        queue_if-Queues (has_turn bridge (bridge.time_after event_id)) tx (h tx refl)
    queue_or_wait-Queues event_id waiting (err not_enough_assets) h = inl refl
    queue_or_wait-Queues event_id waiting (err e) h = inl refl

  module _ (event : EventData) (w : Peer db) where
    abbrev OnTurn : (PaymentTransaction → Type 0) → PaymentTransaction → Type 0
    OnTurn P tx = (has_turn bridge (bridge.time_after (get_id bridge event)) ≡ true) × P tx

    Payment : PaymentTransaction → Type 0
    Payment tx = OnTurn (λ tx. IsPayment event tx w) tx

    Reward : PaymentTransaction → Type 0
    Reward tx = OnTurn (λ tx. IsReward event tx w) tx

    pay-Queues :
        (fee_config : FeeConfig) (b : Result Bool)
        → bridge.get_event_fee_config event ≡ ok fee_config
        → verify_event db bridge event fee_config w.store ≡ b
        → Queues Payment w (and_then (b, w) (pay db bridge event fee_config)).1
    unfolding Payment
    pay-Queues fee_config (err e) f v = inl refl
    pay-Queues fee_config (ok false) f v = inl refl
    pay-Queues fee_config (ok true) f v =
        queue_or_wait-Queues Payment w (get_id bridge event) payment_waiting
          (create_event_payment db bridge event fee_config w)
          λ tx e turn.
            (turn, record { fee_config = fee_config; fee = f; verified = v; created = e })

    verify-Queues :
        (r : Result FeeConfig)
        → bridge.get_event_fee_config event ≡ r
        → Queues Payment w
            (and_then
              (r, w)
              λ fee_config.
                (λ w. (verify_event db bridge event fee_config w.store, w))
                >>= pay db bridge event fee_config).1
    verify-Queues (err e) f = inl refl
    verify-Queues (ok fee_config) f =
        pay-Queues fee_config (verify_event db bridge event fee_config w.store) f refl

    process_payment_event-Queues : Queues Payment w (process_payment_event db bridge event w).1
    unfolding process_payment_event
    process_payment_event-Queues = verify-Queues (bridge.get_event_fee_config event) refl

    module _ (not_ergo : (event.to_chain == bridge.configs.ergo_chain) ≡ false) where
      distribute-Queues :
          (r : Result FeeConfig) (paid : TransactionEntity)
          → bridge.get_event_fee_config event ≡ r
          → (get_event_valid_txs_by_type db (get_id bridge event) payment w.store).0
            ≡ ok (paid ∷ [])
          → Queues Reward w
              (and_then
                (r, w)
                λ fee_config w.
                  queue_or_wait db bridge
                    (get_id bridge event)
                    reward_waiting
                    (create_event_reward_distribution db bridge event fee_config paid.tx_id w)
                    w).1
      unfolding Reward
      distribute-Queues (err e) paid f t = inl refl
      distribute-Queues (ok fee_config) paid f t =
          queue_or_wait-Queues Reward w (get_id bridge event) reward_waiting
            (create_event_reward_distribution db bridge event fee_config paid.tx_id w)
            λ tx e turn. (
              turn,
              record {
                fee_config = fee_config;
                paid = paid;
                one_payment = t;
                not_ergo = not_ergo;
                fee = f;
                created = e;
              },
            )

      reward_of-Queues :
          (r : Result (List TransactionEntity))
          → get_event_valid_txs_by_type db (get_id bridge event) payment w.store ≡ (r, w.store)
          → Queues Reward w (reward_of db bridge event w).1
      reward_of-Queues r e =
          subst⁻¹
            (λ (o : Result (List TransactionEntity) × Store db).
              Queues Reward w
                (and_then (o.0, record w { store = o.1 }) (distribute db bridge event)).1)
            e (go r e)
        where
          go :
              (r : Result (List TransactionEntity))
              → get_event_valid_txs_by_type db (get_id bridge event) payment w.store ≡ (r, w.store)
              → Queues Reward w (and_then (r, w) (distribute db bridge event)).1
          go (err x) e = inl refl
          go (ok []) e = inl refl
          go (ok (paid ∷ [])) e =
              distribute-Queues (bridge.get_event_fee_config event) paid refl (ap (λ o. o.0) e)
          go (ok (_ ∷ _ ∷ _)) e = inl refl

    process_reward_event-Queues : Queues Reward w (process_reward_event db bridge event w).1
    unfolding process_reward_event
    process_reward_event-Queues = elim (Bool-cases (event.to_chain == bridge.configs.ergo_chain)) [
      | inl e ↦ inl (
          ap
            (λ b.
              ((if b then raise impossible_behavior else reward_of db bridge event) w).1.agreement)
            e)
      | inr e ↦
          subst⁻¹
            (λ b.
              Queues Reward w
                ((if b then raise impossible_behavior else reward_of db bridge event) w).1)
            e
            (elim (get_event_valid_txs_by_type_cases db (get_id bridge event) w.store payment) [
              | inl h ↦ reward_of-Queues e _ h
              | inr h ↦ reward_of-Queues e _ h
            ])
    ]

  Due-Queues :
      (event : ConfirmedEventEntity) (w : Peer db) (status : EventStatus)
      → event.status ≡ status
      → is_spent event.event_data.spend_height ≡ false
      → event.unexpected_fails < event_unexpected_fails_limit
      → Queues
          (λ tx. IsDue event tx w)
          w
          (process_with_status db bridge status event.event_data w).1
  unfolding Payment Reward
  Due-Queues event w pending_payment e unspent fails =
      elim (process_payment_event-Queues event.event_data w) [
        | inl h ↦ inl h
        | inr (tx, (turn, made), h) ↦
            inr (
              tx,
              record { unspent = unspent; fails = fails; turn = turn; made = inl (e, made) },
              h,
            )
      ]
  Due-Queues event w pending_reward e unspent fails =
      elim (process_reward_event-Queues event.event_data w) [
        | inl h ↦ inl h
        | inr (tx, (turn, made), h) ↦
            inr (
              tx,
              record { unspent = unspent; fails = fails; turn = turn; made = inr (e, made) },
              h,
            )
      ]
  Due-Queues event w status e unspent fails = inl refl

  -- Processing a confirmed event leaves the agreement as it is, or adds one transaction to the end
  -- of its queue, for an event that is not spent and has not failed too often, in this guard's
  -- turn: the payment of an event that is pending payment and verified, or the reward distribution
  -- of one that is pending reward, is not paid on Ergo, and has one valid payment transaction.
  pub process_confirmed_event-Queues :
      (event : ConfirmedEventEntity) (w : Peer db)
      → Queues (λ tx. IsDue event tx w) w (process_confirmed_event db bridge event w).1
  unfolding process_confirmed_event
  process_confirmed_event-Queues event w =
      let rest = process_with_status db bridge event.status event.event_data in
      let retire = λ (status : EventStatus). in_store (set_event_status db event.id status false) in
      let limited = λ (b : Bool). if b then retire EventStatus.reached_limit else rest in
      let is_gone = is_spent event.event_data.spend_height in
      let is_limited = leb event_unexpected_fails_limit event.unexpected_fails in
      elim (Bool-cases is_gone) [
        | inl e ↦ inl (ap (λ b. ((if b then retire spent else limited is_limited) w).1.agreement) e)
        | inr e ↦
            subst⁻¹
              (λ b.
                Queues (λ tx. IsDue event tx w) w
                  ((if b then retire spent else limited is_limited) w).1)
              e
              (elim (Bool-cases is_limited) [
                | inl h ↦ inl (ap (λ b. (limited b w).1.agreement) h)
                | inr h ↦
                    subst⁻¹ (λ b. Queues (λ tx. IsDue event tx w) w (limited b w).1) h
                      (Due-Queues event w event.status refl e (ground (arith, h)))
              ])
      ]
