-- ===== src/MultiSig/Queue.antt =====
-- The queue of src/guard/multisig/MultiSigHandler.ts: getQueuedTransaction, sign,
-- generateCommitment, cleanup and handleCommitment. Whoever needs an object of the queue holds the
-- semaphore for its step; where it is held, the step waits, and is taken again when it is not.
use ts_gaurd_service.Base.{
  ℕ, zero, suc, ◌+◌, ◌*◌, Bool, true, false, Option, none, some, List, [], ◌∷◌, ◌++◌, map, String,
  if◌then◌else◌, ltb, leb, ◌==◌, nat_eq, string_eq, count, Action, Result, ok, err, pure, lift,
  for_each, ◌>>=◌, ◌>>◌, get, set, delete,
}
use ts_gaurd_service.MultiSig.{
  Sigma, Signer, Payload, Slot, hole, absent, committed, commitment, TxQueued, Outcome, timed_out,
  failed, MultiSig, Cosigner, ids_of, is_peers_initiated, send_message,
}
use ts_gaurd_service.MultiSig.Commitments.{
  PublishedCommitment, generated_commitment_to_publish_commitment,
}

-- `xs[i] = x`, where what is missing before it is filled.
abbrev pub assign : {A : Type 0} → A → ℕ → A → List A → List A
assign filler zero x [] = x ∷ []
assign filler zero x (_ ∷ xs) = x ∷ xs
assign filler (suc i) x [] = filler ∷ assign filler i x []
assign filler (suc i) x (y ∷ xs) = y ∷ assign filler i x xs

abbrev pub is_committed : Slot → Bool
is_committed hole = false
is_committed absent = false
is_committed (committed _) = true

module _ {σ : Sigma} where
  abbrev pub change : (MultiSig σ → MultiSig σ) → Action (MultiSig σ) (Unit {0})
  change f w = (ok tt, f w)

  abbrev pub put : String → TxQueued σ → Action (MultiSig σ) (Unit {0})
  put id transaction = change λ w. record w { transactions = set id transaction w.transactions }

  abbrev pub report : Outcome σ → Action (MultiSig σ) (Unit {0})
  report outcome = change λ w. record w { outcomes = w.outcomes ++ outcome ∷ [] }

  abbrev pub new_transaction : List Signer → ℕ → TxQueued σ
  new_transaction peers now = record {
    tx = none;
    boxes = [];
    data_boxes = [];
    secret = none;
    sign = none;
    commitments = map (λ _. absent) peers;
    commitment_signs = map (λ _. "") peers;
    resolve = none;
    reject = none;
    create_time = now;
    required_signer = 0;
  }

  -- What is done with the object under an id, which is there.
  abbrev pub with_transaction :
      String → (TxQueued σ → Action (MultiSig σ) (Unit {0})) → Action (MultiSig σ) (Unit {0})
  with_transaction id body w = elim (get id w.transactions) [
    | none ↦ (ok tt, w)
    | some transaction ↦ body transaction w
  ]

  -- With a commitment and its signature.
  abbrev pub commit : ℕ → PublishedCommitment → String → TxQueued σ → TxQueued σ
  commit index c sign transaction = record transaction {
    commitments = assign hole index (committed c) transaction.commitments;
    commitment_signs = assign "" index sign transaction.commitment_signs;
  }

module _ {σ : Sigma} (guard : Cosigner σ) where
  -- Waits where the semaphore is held.
  unfoldable pub get_queued_transaction :
      String → (TxQueued σ → Action (MultiSig σ) (Unit {0})) → Action (MultiSig σ) (Unit {0})
  get_queued_transaction tx_id then_do w =
      if w.held then (ok tt, w) else elim (get tx_id w.transactions) [
        | some transaction ↦ then_do transaction w
        | none ↦ then_do (new_transaction w.peers guard.now) (record w {
          transactions = set tx_id (new_transaction w.peers guard.now) w.transactions;
        })
      ]

  unfoldable pub send_to_peers :
      Payload → (List Signer → List String) → Action (MultiSig σ) (Unit {0})
  send_to_peers payload receivers w = send_message guard payload (receivers w.peers) w

  abbrev pub publish_secret :
      String → TxQueued σ → Option σ.ReducedTx → Action (MultiSig σ) (Unit {0})
  publish_secret id queued none = pure tt
  publish_secret id queued (some tx) = do
    secret ← lift (σ.generate_commitments tx)
    put id (record queued { secret = some secret })
    send_to_peers (commitment id (generated_commitment_to_publish_commitment (σ.to_json secret)))
        ids_of

  unfoldable pub generate_commitment : String → Action (MultiSig σ) (Unit {0})
  generate_commitment id =
      with_transaction id λ queued. elim queued.secret [
        | some _ ↦ pure tt
        | none ↦ publish_secret id queued queued.tx
      ]

  -- What a raise leaves behind: the promise is rejected, and the semaphore is not released.
  abbrev pub reject_unreleased : ℕ → Result (Unit {0}) × MultiSig σ → Result (Unit {0}) × MultiSig σ
  reject_unreleased promise (ok _, w) = (ok tt, w)
  reject_unreleased promise (err _, w) =
      (ok tt, record w { outcomes = w.outcomes ++ failed promise ∷ []; held = true })

  unfoldable pub sign :
      ℕ → σ.ReducedTx → ℕ → List σ.Box → Option (List σ.Box) → Action (MultiSig σ) (Unit {0})
  sign promise tx required_sign boxes data_boxes = do
    is_peers_initiated
    get_queued_transaction (σ.reduced_id tx) λ transaction w. reject_unreleased promise (
        (do
          put (σ.reduced_id tx) (record transaction {
            tx = some tx;
            boxes = boxes;
            data_boxes = elim data_boxes [ none ↦ [] | some given ↦ given ];
            resolve = some promise;
            reject = some promise;
            required_signer = required_sign;
          })
          generate_commitment (σ.reduced_id tx))
          w)

  unfoldable pub is_expired : TxQueued σ → Bool
  is_expired transaction = ltb (transaction.create_time + guard.tx_sign_timeout * 1000) guard.now

  abbrev pub time_out : Option ℕ → Action (MultiSig σ) (Unit {0})
  time_out none = pure tt
  time_out (some promise) = report (timed_out promise)

  unfoldable pub clean_entry : String × TxQueued σ → Action (MultiSig σ) (Unit {0})
  clean_entry e =
      if is_expired e.1
      then (do
        time_out e.1.reject
        change λ w. record w { transactions = delete e.0 w.transactions })
      else pure tt

  unfoldable pub cleanup : Action (MultiSig σ) (Unit {0})
  cleanup w = if w.held then (ok tt, w) else for_each w.transactions clean_entry w

  -- One commitment less than signers: the guard's own is not among them.
  abbrev pub has_enough : TxQueued σ → Bool
  has_enough transaction =
      leb transaction.required_signer (count is_committed transaction.commitments + 1)

  abbrev pub delay_sign : String → Action (MultiSig σ) (Unit {0})
  delay_sign id = change λ w. record w { delayed = w.delayed ++ id ∷ [] }

  unfoldable pub take_commitment :
      ℕ → String → PublishedCommitment → String → TxQueued σ → Action (MultiSig σ) (Unit {0})
  take_commitment index tx_id c sign transaction =
      let transaction' : TxQueued σ = commit index c sign transaction in
      do
        put tx_id transaction'
        if ltb 0 transaction'.required_signer
            then (if has_enough transaction' then delay_sign tx_id else pure tt)
            else pure tt

  unfoldable pub handle_commitment :
      ℕ → String → PublishedCommitment → String → Action (MultiSig σ) (Unit {0})
  handle_commitment index tx_id c sign =
      if tx_id == ""
      then pure tt
      else get_queued_transaction tx_id λ transaction. elim transaction.sign [
        | none ↦ take_commitment index tx_id c sign transaction
        | some _ ↦ pure tt
      ]
