-- ===== src/Agreement/Approve/Safe.antt =====
-- The steps that a guard takes by itself, and what they keep: one valid transaction for each event
-- and order, and what was agreed to for an order.
use ts_gaurd_service.Base.{
  ℕ, ◌≡◌, refl, sym, ap, subst, subst⁻¹, ◌∙◌, false, Option, none, some, List, [], ◌∷◌, String,
  ◌==◌, nat_eq, string_eq, length, arith, Result, ok, Action, get, bind_cases, if_cases, for_each,
  lift, ◌>>=◌, leb, or_error, impossible_behavior,
}
use ts_gaurd_service.Constants.{
  TransactionType, type_eq, tx_status_eq, invalid, payment, reward, arbitrary,
}
use ts_gaurd_service.Database.Entities.{PaymentTransaction, TransactionEntity, Database, Store}
use ts_gaurd_service.Database.Actions.{get_tx_by_id, set_event_status, set_order_status}
use ts_gaurd_service.Database.OneValid.{OneValid}
use ts_gaurd_service.Database.Handler.Keeps.{insert_tx-OneValid}
use ts_gaurd_service.Database.Handler.{insert_tx}
use ts_gaurd_service.Agreement.{
  CandidateTransaction, ApprovedCandidate, Peer, Guard, Message, approval, send_message, in_store,
  change, parse, array, assign_in, signatures_of, reverse_onto, start_agreement,
  broadcast_transaction_request, sign_candidate_message, add_transaction_to_queue,
  enqueue_sign_failed_txs, process_agreement_queue,
}
use ts_gaurd_service.Agreement.Approve.{
  set_tx_as_approved, approve_if_enough, count_response, process_agreement_response, approved_with,
  keep_approved, forget, broadcast_approval_message, insert_approved,
  update_event_or_order_of_approved_tx,
}

module _ {db : Database} where
  -- From one state to the next: one valid transaction for each event and order stays so, and what
  -- was agreed to for an order stays agreed.
  pub record Safe (w v : Peer db) : Type 0 where
    pub one_valid : OneValid db w.store.transactions → OneValid db v.store.transactions
    pub orders :
        (order_id agreed : String)
        → get order_id w.agreement.order_agreed_transactions ≡ some agreed
        → get order_id v.agreement.order_agreed_transactions ≡ some agreed

  pub quiet :
      (w v : Peer db)
      → w.store.transactions ≡ v.store.transactions
      → w.agreement.order_agreed_transactions ≡ v.agreement.order_agreed_transactions
      → Safe w v
  quiet w v s o = record {
    one_valid = subst (OneValid db) s;
    orders = λ order_id agreed h. sym (ap (get order_id) o) ∙ h;
  }

  pub Safe-trans : (u v w : Peer db) → Safe u v → Safe v w → Safe u w
  Safe-trans u v w h k = record {
    one_valid = λ o. k.one_valid (h.one_valid o);
    orders = λ order_id agreed e. k.orders order_id agreed (h.orders order_id agreed e);
  }

  -- An action after which every state is safe.
  abbrev pub IsSafe : {A : Type 0} → Action (Peer db) A → Type 0
  IsSafe m = (w : Peer db) → Safe w (m w).1

  pub bind-IsSafe :
      {A B : Type 0} (m : Action (Peer db) A) (f : A → Action (Peer db) B)
      → IsSafe m
      → ((a : A) → IsSafe (f a))
      → IsSafe (m >>= f)
  bind-IsSafe m f h k w =
      bind_cases (Safe w) m f w (h w) λ a. Safe-trans w (m w).1 (f a (m w).1).1 (h w) (k a (m w).1)

  pub still : {A : Type 0} (r : Result A) → IsSafe (lift r)
  still r w = quiet w w refl refl

  pub for_each-IsSafe :
      {A : Type 0} (xs : List A) (body : A → Action (Peer db) (Unit {0}))
      → ((a : A) → IsSafe (body a))
      → IsSafe (for_each xs body)
  unfolding for_each
  for_each-IsSafe [] body h = still (ok tt)
  for_each-IsSafe (x ∷ xs) body h =
      bind-IsSafe (body x) (λ _. for_each xs body) (h x) (λ _. for_each-IsSafe xs body h)

module _ (db : Database) (guard : Guard) where
  pub send_message-IsSafe : (m : Message) → IsSafe (send_message db guard m)
  send_message-IsSafe m =
      bind-IsSafe (lift (guard.send m)) _ (still (guard.send m)) λ _ w. quiet w _ refl refl

  start_agreement-IsSafe : (tx : PaymentTransaction) → IsSafe (start_agreement db guard tx)
  unfolding start_agreement
  start_agreement-IsSafe tx =
      bind-IsSafe (broadcast_transaction_request db guard tx guard.now) _ (send_message-IsSafe _)
        λ _.
          bind-IsSafe (sign_candidate_message db guard tx.tx_id guard.now) _
            (λ w. quiet w w refl refl) λ signature w. quiet w _ refl refl

  pub process_agreement_queue-IsSafe : IsSafe (process_agreement_queue db guard)
  unfolding process_agreement_queue
  process_agreement_queue-IsSafe w =
      let emptied = record w { agreement = record (w.agreement) { transaction_queue = [] } } in
      let queue = reverse_onto w.agreement.transaction_queue [] in
      Safe-trans w emptied (for_each queue (start_agreement db guard) emptied).1
        (quiet w emptied refl refl)
        (for_each-IsSafe queue (start_agreement db guard) start_agreement-IsSafe emptied)

  pub enqueue_sign_failed_txs-IsSafe : IsSafe (enqueue_sign_failed_txs db guard)
  unfolding enqueue_sign_failed_txs add_transaction_to_queue
  enqueue_sign_failed_txs-IsSafe w =
      for_each-IsSafe _ _
        (λ r.
          bind-IsSafe (parse db guard r.tx_json) (add_transaction_to_queue)
            (λ v. quiet v v refl refl) λ _ v. quiet v _ refl refl)
        w

  update_event_or_order-transactions :
      (type : TransactionType) (tx : PaymentTransaction) (s : Store db)
      → (update_event_or_order_of_approved_tx db guard type tx s).1.transactions ≡ s.transactions
  unfolding update_event_or_order_of_approved_tx set_event_status set_order_status
  update_event_or_order-transactions payment tx s = ground arith
  update_event_or_order-transactions reward tx s = ground arith
  update_event_or_order-transactions arbitrary tx s = ground arith
  update_event_or_order-transactions type tx s = ground arith

  insert_approved-OneValid :
      (tx : PaymentTransaction) (o : Option TransactionEntity) (s : Store db)
      → OneValid db s.transactions
      → OneValid db (insert_approved db guard tx o s).1.transactions
  unfolding insert_approved
  insert_approved-OneValid tx none s h =
      let insert = insert_tx db guard.now tx guard.required_sign false in
      let update = update_event_or_order_of_approved_tx db guard tx.tx_type tx in
      let inserted = insert_tx-OneValid db guard.now tx s h guard.required_sign false in
      bind_cases (λ v. OneValid db v.transactions) insert (λ _. update) s inserted
        λ _.
          subst⁻¹ (OneValid db) (update_event_or_order-transactions tx.tx_type tx (insert s).1)
            inserted
  insert_approved-OneValid tx (some r) s h =
      if_cases (λ v. OneValid db v.transactions) (r.status == invalid) (lift (ok tt))
        (insert_tx db guard.now tx guard.required_sign false) s h
        (insert_tx-OneValid db guard.now tx s h guard.required_sign false)

  pub set_tx_as_approved-IsSafe :
      (tx : PaymentTransaction) → IsSafe (set_tx_as_approved db guard tx)
  unfolding set_tx_as_approved
  set_tx_as_approved-IsSafe tx w =
      bind-IsSafe (in_store (insert_approved db guard tx (get_tx_by_id db tx.tx_id w.store)))
        (λ _. change (forget tx))
        (λ v. record {
          one_valid = insert_approved-OneValid tx (get_tx_by_id db tx.tx_id w.store) v.store;
          orders = λ order_id agreed h. h;
        })
        (λ _ v. quiet v _ refl refl) w

  pub broadcast_approval_message-IsSafe :
      (a : ApprovedCandidate) → IsSafe (broadcast_approval_message db guard a)
  broadcast_approval_message-IsSafe a w =
      send_message-IsSafe
        (approval (db.to_json a.tx) (array a.signatures w.agreement.arrays) a.timestamp) w

  approve_if_enough-IsSafe :
      (c : CandidateTransaction) (timestamp : ℕ) (o : Option ℕ)
      → IsSafe (approve_if_enough db guard c timestamp o)
  unfolding approve_if_enough
  approve_if_enough-IsSafe c timestamp none w = quiet w w refl refl
  approve_if_enough-IsSafe c timestamp (some ref) w =
      let approved = approved_with c timestamp ref in
      if_cases (Safe w)
        (leb guard.required_sign (length (signatures_of (array ref w.agreement.arrays))))
        (broadcast_approval_message db guard approved >>= λ _.
          change (keep_approved approved) >>= λ _. set_tx_as_approved db guard c.tx)
        (lift (ok tt)) w
        (bind-IsSafe (broadcast_approval_message db guard approved) _
          (broadcast_approval_message-IsSafe approved)
          (λ _.
            bind-IsSafe (change (keep_approved approved)) (λ _. set_tx_as_approved db guard c.tx)
              (λ v. quiet v _ refl refl) λ _. set_tx_as_approved-IsSafe c.tx)
          w)
        (quiet w w refl refl)

  pub process_agreement_response-IsSafe :
      (tx_id : String) (signer_index : ℕ) (signature : String) (timestamp : ℕ)
      → IsSafe (process_agreement_response db guard tx_id signer_index signature timestamp)
  unfolding process_agreement_response count_response
  process_agreement_response-IsSafe tx_id signer_index signature timestamp w =
      counted (get tx_id w.agreement.transactions)
    where
      note : ℕ → Action (Peer db) (Unit {0})
      note ref =
          change {db = db} λ a. record a { arrays = assign_in ref signer_index signature a.arrays }

      counted :
          (o : Option CandidateTransaction)
          → Safe w (count_response db guard o tx_id signer_index signature timestamp w).1
      counted none = quiet w w refl refl
      counted (some c) =
          let act =
            λ (ref : ℕ). note ref >>= λ _. approve_if_enough db guard c timestamp (some ref) in
          let ref =
            lift (or_error (get tx_id w.agreement.transaction_approvals) impossible_behavior) in
          if_cases (Safe w) (c.timestamp == timestamp) (ref >>= act) (lift (ok tt)) w
            (bind-IsSafe ref act (λ v. quiet v v refl refl)
              (λ r.
                bind-IsSafe (note r) (λ _. approve_if_enough db guard c timestamp (some r))
                  (λ v. quiet v _ refl refl) λ _. approve_if_enough-IsSafe c timestamp (some r))
              w)
            (quiet w w refl refl)
