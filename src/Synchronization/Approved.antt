-- ===== src/Synchronization/Approved.antt =====
-- When the responses of other guards enter a transaction.
use ts_gaurd_service.Base.{
  ℕ, ◌+◌, ◌-◌, ◌≤◌, ◌≡◌, refl, ap, ◌⊎◌, inl, inr, Bool, true, false, Option, some, List, [], ◌∷◌,
  map, String, if◌then◌else◌, ◌==◌, string_eq, leb, length, count, arith, eq_refl, Result, ok, err,
  get, Bool-cases, Option-cases, pure, ◌∙◌, and_then,
}
use ts_gaurd_service.Base.Results.{result_bind_ok}
use ts_gaurd_service.Constants.{type_eq, payment}
use ts_gaurd_service.Database.Entities.{PaymentTransaction, ConfirmedEventEntity, Database}
use ts_gaurd_service.Database.Actions.{get_event_by_id}
use ts_gaurd_service.Transactions.{
  ConfirmationStatus, confirmed_enough, not_confirmed_enough, not_found,
}
use ts_gaurd_service.Order.{SinglePayment, FeeConfig}
use ts_gaurd_service.Event.{Bridge}
use ts_gaurd_service.Event.Creation.{create_event_payment_order}
use ts_gaurd_service.Synchronization.{
  ActiveSync, Syncing, SyncChain, SyncGuard, assign_response, present, max_occurrence,
}
use ts_gaurd_service.Synchronization.Responses.{
  record_response, occurrences, set_tx_as_approved, count_response, respond_if,
  process_sync_response, verify_synchronization_response, verify_consistent, verify_ordered,
  is_confirmed,
}

module _ (db : Database) (bridge : Bridge) (guard : SyncGuard) (tx : PaymentTransaction) where
  -- The transaction pays what this guard computes for the event, and is confirmed enough.
  pub record IsPaid (w : Syncing db) : Type 0 where
    pub entity : ConfirmedEventEntity
    pub active : ActiveSync
    pub fee_config : FeeConfig
    pub chain : SyncChain
    pub tx_order : List SinglePayment
    pub expected : List SinglePayment
    pub is_active : get tx.event_id w.sync.active_sync_map ≡ some active
    pub known : get_event_by_id db tx.event_id w.store ≡ some entity
    pub is_payment : (tx.tx_type == payment) ≡ true
    pub chain_of : guard.get_chain tx.network ≡ ok chain
    pub consistent : chain.verify_payment_transaction tx ≡ ok true
    pub fee : bridge.get_event_fee_config entity.event_data ≡ ok fee_config
    pub extracted : chain.extract_transaction_order tx ≡ ok tx_order
    pub computed :
        create_event_payment_order db bridge entity.event_data fee_config [] w.store ≡ ok expected
    pub equal : bridge.is_equal tx_order expected ≡ true
    pub confirmed : chain.get_tx_confirmation_status tx.tx_id tx.tx_type ≡ ok confirmed_enough
    pub conditions : chain.verify_transaction_extra_conditions tx ≡ ok true

  when_true :
      (b : Bool) (r : Result Bool)
      → (if b then r else ok false) ≡ ok true
      → (b ≡ true) × (r ≡ ok true)
  when_true true r e = (refl, e)
  when_true false r e = cc

  confirmed_true :
      (status : ConfirmationStatus)
      → is_confirmed db bridge guard status ≡ true
      → status ≡ confirmed_enough
  confirmed_true confirmed_enough e = refl
  confirmed_true not_confirmed_enough e = cc
  confirmed_true not_found e = cc

  ordered_true :
      (chain : SyncChain) (b : Bool)
      → verify_ordered db bridge guard chain tx b ≡ ok true
      → (b ≡ true)
        × (chain.get_tx_confirmation_status tx.tx_id tx.tx_type ≡ ok confirmed_enough)
        × (chain.verify_transaction_extra_conditions tx ≡ ok true)
  ordered_true chain false e = cc
  ordered_true chain true e =
      let (status, asked, rest) =
        result_bind_ok (chain.get_tx_confirmation_status tx.tx_id tx.tx_type) _ e in
      let (enough, conditions) = when_true (is_confirmed db bridge guard status) _ rest in
      (refl, asked ∙ ap ok (confirmed_true status enough), conditions)

  response_true :
      (w : Syncing db) → verify_synchronization_response db bridge guard tx w ≡ ok true → IsPaid w
  unfolding verify_synchronization_response
  response_true w e = elim (Option-cases (get tx.event_id w.sync.active_sync_map)) [
    | inl h ↦ let bad = rw h at e in cc
    | inr (active, h) ↦
        let e1 = rw h at e in
        elim (Option-cases (get_event_by_id db tx.event_id w.store)) [
          | inl g ↦ let bad = rw g at e1 in cc
          | inr (entity, g) ↦
              let (is_payment, e2) = when_true (tx.tx_type == payment) _ (rw g at e1) in
              let (chain, chain_of, e3) = result_bind_ok (guard.get_chain tx.network) _ e2 in
              let (c, consistent, e4) = result_bind_ok (chain.verify_payment_transaction tx) _ e3 in
              go active entity chain c h g is_payment chain_of consistent e4
        ]
  ]
    where
      go :
          (active : ActiveSync) (entity : ConfirmedEventEntity) (chain : SyncChain) (c : Bool)
          → get tx.event_id w.sync.active_sync_map ≡ some active
          → get_event_by_id db tx.event_id w.store ≡ some entity
          → (tx.tx_type == payment) ≡ true
          → guard.get_chain tx.network ≡ ok chain
          → chain.verify_payment_transaction tx ≡ ok c
          → verify_consistent db bridge guard chain tx entity.event_data c w.store ≡ ok true
          → IsPaid w
      go active entity chain false h g p k c e = cc
      go active entity chain true h g p k c e =
          let (fee_config, fee, e1) =
            result_bind_ok (bridge.get_event_fee_config entity.event_data) _ e in
          let (tx_order, extracted, e2) =
            result_bind_ok (chain.extract_transaction_order tx) _ e1 in
          let (expected, computed, e3) =
            result_bind_ok
              (create_event_payment_order db bridge entity.event_data fee_config [] w.store) _ e2 in
          let (equal, confirmed, conditions) =
            ordered_true chain (bridge.is_equal tx_order expected) e3 in
          record {
            entity = entity;
            active = active;
            fee_config = fee_config;
            chain = chain;
            tx_order = tx_order;
            expected = expected;
            is_active = h;
            known = g;
            is_payment = p;
            chain_of = k;
            consistent = c;
            fee = fee;
            extracted = extracted;
            computed = computed;
            equal = equal;
            confirmed = confirmed;
            conditions = conditions;
          }

  -- The state in which the response is noted.
  abbrev pub noted : ℕ → ActiveSync → Syncing db → Syncing db
  noted sender_index active w = (record_response db bridge guard tx sender_index active w).1

  -- There are enough responses with one key.
  abbrev pub is_enough : ℕ → ActiveSync → Bool
  is_enough sender_index active =
      leb (guard.required_sign - 1)
        (occurrences db bridge guard (assign_response sender_index tx active.responses))

  count-noted :
      (sender_index : ℕ) (active : ActiveSync) (w : Syncing db)
      → (count_response db bridge guard tx sender_index (some active) w
          ≡ (ok tt, noted sender_index active w))
        ⊎ (is_enough sender_index active ≡ true)
          × (count_response db bridge guard tx sender_index (some active) w
              ≡ set_tx_as_approved db bridge guard tx (noted sender_index active w))
  unfolding count_response
  count-noted sender_index active w =
      let step = λ (b : Bool).
        (if b then set_tx_as_approved db bridge guard tx else pure tt)
          (noted sender_index active w) in
      elim (Bool-cases (is_enough sender_index active)) [
        | inl e ↦ inr (e, ap step e)
        | inr e ↦ inl (ap step e)
      ]

  -- A response leaves the database as it is, or its transaction is a payment of a known event whose
  -- synchronization is active, equal in its order to what this guard computes, consistent and
  -- confirmed enough on its chain, and meets the chain's conditions; and with it enough responses
  -- have one key.
  pub process_sync_response-backed :
      (sender_index : ℕ) (w : Syncing db)
      → ((process_sync_response db bridge guard tx sender_index w).1.store ≡ w.store)
        ⊎ ((paid : IsPaid w) × (is_enough sender_index paid.active ≡ true)
            × (process_sync_response db bridge guard tx sender_index w
                ≡ set_tx_as_approved db bridge guard tx (noted sender_index paid.active w)))
  unfolding process_sync_response
  process_sync_response-backed sender_index w =
      go (verify_synchronization_response db bridge guard tx w) refl
    where
      after : Result Bool → Result (Unit {0}) × Syncing db
      after r = and_then (r, w) λ b. respond_if db bridge guard b tx sender_index

      go :
          (r : Result Bool)
          → verify_synchronization_response db bridge guard tx w ≡ r
          → ((after r).1.store ≡ w.store)
            ⊎ ((paid : IsPaid w) × (is_enough sender_index paid.active ≡ true)
                × (after r
                    ≡ set_tx_as_approved db bridge guard tx (noted sender_index paid.active w)))
      go (err e) h = inl refl
      go (ok false) h = inl refl
      go (ok true) h =
          let paid = response_true w h in
          let same = ap (λ o. count_response db bridge guard tx sender_index o w) paid.is_active in
          elim (count-noted sender_index paid.active w) [
            | inl e ↦ inl (ap (λ r. r.1.store) (same ∙ e))
            | inr (enough, e) ↦ inr (paid, enough, same ∙ e)
          ]

  count-same :
      (text : String) (txs : List PaymentTransaction)
      → ((t : PaymentTransaction) → guard.text_of t ≡ text)
      → count (λ x. x == text) (map guard.text_of txs) ≡ length txs
  count-same text [] same = refl
  count-same text (t ∷ txs) same =
      rw (same t) (ground (arith, eq_refl text, count-same text txs same))

  occurrences-same :
      (text : String) (responses : List (Option PaymentTransaction))
      → ((t : PaymentTransaction) → guard.text_of t ≡ text)
      → length (present responses) ≤ occurrences db bridge guard responses
  occurrences-same text responses same = go (present responses)
    where
      go :
          (txs : List PaymentTransaction)
          → length txs ≤ max_occurrence (map guard.text_of txs) (map guard.text_of txs)
      go [] = omega arith
      go (t ∷ txs) = ground (arith, same t, count-same text (t ∷ txs) same)

  -- If all transaction objects have one text as a key, then a response that is verified enters its
  -- transaction as soon as enough responses are there, whatever transactions the others hold.
  pub mixed_responses_approve :
      (sender_index : ℕ) (w : Syncing db) (active : ActiveSync) (text : String)
      → ((t : PaymentTransaction) → guard.text_of t ≡ text)
      → verify_synchronization_response db bridge guard tx w ≡ ok true
      → get tx.event_id w.sync.active_sync_map ≡ some active
      → guard.required_sign
        ≤ length (present (assign_response sender_index tx active.responses)) + 1
      → process_sync_response db bridge guard tx sender_index w
        ≡ set_tx_as_approved db bridge guard tx (noted sender_index active w)
  unfolding process_sync_response count_response
  mixed_responses_approve sender_index w active text same verified is_active enough =
      let many : is_enough sender_index active ≡ true = ground (
        arith,
        enough,
        occurrences-same text (assign_response sender_index tx active.responses) same,
      ) in
      ap (λ r. and_then (r, w) λ b. respond_if db bridge guard b tx sender_index) verified
      ∙ ap (λ o. count_response db bridge guard tx sender_index o w) is_active
      ∙ ap
          (λ b.
            (if b then set_tx_as_approved db bridge guard tx else pure tt)
              (noted sender_index active w))
          many
