-- ===== src/MultiSig/Kept.antt =====
-- What the queue keeps: a predicate of the signers of each stored signature, one of each outcome
-- and one of the guard's peers, and the steps that keep them.
use ts_gaurd_service.Base.{
  ℕ, zero, suc, ◌+◌, ◌<◌, ◌≤◌, ◌≡◌, subst, ap, ◌∙◌, inl, inr, true, false, Option, none, some, List,
  [], ◌∷◌, String, if◌then◌else◌, ltb, string_eq, ok, Result, Action, get, set, delete, arith,
  Bool-cases,
}
use ts_gaurd_service.Base.Results.{result_bind_ok}
use ts_gaurd_service.MultiSig.{
  Sigma, Signer, Payload, Sign, TxQueued, Outcome, resolved, timed_out, invalid_sign, failed,
  MultiSig, Cosigner, get_index, send_message,
}
use ts_gaurd_service.MultiSig.Commitments.{upto}
use ts_gaurd_service.MultiSig.Queue.{
  change, put, report, new_transaction, with_transaction, send_to_peers, get_queued_transaction,
}
use ts_gaurd_service.MultiSig.Signing.{includes, some_invalid}
use ts_gaurd_service.MultiSig.Messages.{guard_keys_of}
use ts_gaurd_service.MultiSig.Frames.{
  Keeps, All, All-append, AllIn, IfSome, set-AllIn, delete-AllIn, get-AllIn, option_holds, if_holds,
}

module _ (σ : Sigma) where
  -- The proof of each input verifies, in some context and with some boxes.
  abbrev pub Verifies : σ.Tx → Type 0
  Verifies tx =
      (context : σ.Context) × (boxes : List σ.Box) × (data_boxes : List σ.Box) × ((i : ℕ)
        → i < σ.inputs tx
        → σ.verify_tx_input_proof i context tx boxes data_boxes ≡ ok true)

  pub some_invalid-false :
      (context : σ.Context) (tx : σ.Tx) (boxes data_boxes : List σ.Box) (start n : ℕ)
      → some_invalid σ context tx boxes data_boxes (upto start n) ≡ ok false
      → (i : ℕ) → start ≤ i
      → i < start + n
      → σ.verify_tx_input_proof i context tx boxes data_boxes ≡ ok true
  unfolding some_invalid
  some_invalid-false context tx boxes data_boxes start zero h i from below = absurd (omega arith)
  some_invalid-false context tx boxes data_boxes start (suc n) h i from below =
      let (valid, here, rest) =
        result_bind_ok (σ.verify_tx_input_proof start context tx boxes data_boxes)
          (λ valid.
            if valid
            then some_invalid σ context tx boxes data_boxes (upto (suc start) n)
            else ok true)
          h in
      let checked : valid ≡ true = ground arith in
      elim (Bool-cases (ltb start i)) [
        | inl later ↦
            some_invalid-false context tx boxes data_boxes (suc start) n (rw checked at rest) i
              (ground arith) (omega arith)
        | inr now ↦
            subst (λ j. σ.verify_tx_input_proof j context tx boxes data_boxes ≡ ok true)
              (ground arith) (here ∙ ap ok checked)
      ]

  -- Three predicates, and what they have to hold of.
  pub record Kept : Type 1 where
    pub Signers : List String → Type 0
    pub Settled : Outcome σ → Type 0
    pub Known : List Signer → Option String → Type 0
    pub alone : (key : String) → Signers (key ∷ [])
    pub joined :
        (key : String) (keys : List String)
        → includes key keys ≡ false
        → Signers keys
        → Signers (key ∷ keys)
    pub of_guards : (peers : List Signer) (keys : List String) → Signers (guard_keys_of peers keys)
    pub on_resolved : (promise : ℕ) (tx : σ.Tx) → Verifies tx → Settled (resolved promise tx)
    pub on_timed_out : (promise : ℕ) → Settled (timed_out promise)
    pub on_invalid_sign : (promise : ℕ) (tx : σ.Tx) → Settled (invalid_sign promise tx)
    pub on_failed : (promise : ℕ) → Settled (failed promise)

module _ {σ : Sigma} (κ : Kept σ) where
  abbrev pub SignIsKept : Option (Sign σ) → Type 0
  SignIsKept none = Unit {0}
  SignIsKept (some sign) = κ.Signers sign.signed

  abbrev pub IsSigned : TxQueued σ → Type 0
  IsSigned t = SignIsKept t.sign

  abbrev pub IsKept : MultiSig σ → Type 0
  IsKept w =
      AllIn (λ (t : TxQueued σ). IsSigned t) w.transactions
      × All κ.Settled w.outcomes
      × κ.Known w.peers w.nonce

  -- A step that changes neither the queue nor the outcomes nor the peers.
  abbrev pub Quiet : {A : Type 0} → Action (MultiSig σ) A → Type 0
  Quiet m =
      (w : MultiSig σ)
      → ((m w).1.transactions ≡ w.transactions)
        × ((m w).1.outcomes ≡ w.outcomes)
        × ((m w).1.peers ≡ w.peers)
        × ((m w).1.nonce ≡ w.nonce)

  pub quiet : {A : Type 0} {m : Action (MultiSig σ) A} → Quiet m → Keeps IsKept m
  quiet q = record { keeps = λ w s. rw ((q w).0, (q w).1, (q w).2, (q w).3) s }

  pub put-Keeps : (id : String) (t : TxQueued σ) → IsSigned t → Keeps IsKept (put id t)
  put-Keeps id t h = record {
    keeps = λ w s. (set-AllIn (IsSigned) id t w.transactions s.0 h, s.1, s.2);
  }

  pub report-Keeps : (o : Outcome σ) → κ.Settled o → Keeps IsKept (report o)
  report-Keeps o h = record {
    keeps = λ w s. (s.0, All-append (κ.Settled) w.outcomes (o ∷ []) s.1 (h, tt), s.2);
  }

  pub delete-Keeps :
      (id : String)
      → Keeps IsKept (change λ w. record w { transactions = delete id w.transactions })
  delete-Keeps id = record {
    keeps = λ w s. (delete-AllIn (IsSigned) id w.transactions s.0, s.1, s.2);
  }

  found-IsSigned :
      (id : String) (w : MultiSig σ) (t : TxQueued σ)
      → IsKept w
      → get id w.transactions ≡ some t
      → IsSigned t
  found-IsSigned id w t s found =
      subst (IfSome (IsSigned)) found (get-AllIn (IsSigned) id w.transactions s.0)

  abbrev KeptAfter : Result (Unit {0}) × MultiSig σ → Type 0
  KeptAfter r = IsKept r.1

  -- What is done with an object of the queue may rely on its signers.
  pub with_transaction-Keeps :
      (id : String) (body : TxQueued σ → Action (MultiSig σ) (Unit {0}))
      → ((t : TxQueued σ) → IsSigned t → Keeps IsKept (body t))
      → Keeps IsKept (with_transaction id body)
  with_transaction-Keeps id body k = record {
    keeps = λ w s.
        option_holds KeptAfter (get id w.transactions) (λ _. s)
          λ t found. (k t (found-IsSigned id w t s found)).keeps w s;
  }

  pub get_queued_transaction-Keeps :
      (guard : Cosigner σ) (id : String) (body : TxQueued σ → Action (MultiSig σ) (Unit {0}))
      → ((t : TxQueued σ) → IsSigned t → Keeps IsKept (body t))
      → Keeps IsKept (get_queued_transaction guard id body)
  unfolding get_queued_transaction
  get_queued_transaction-Keeps guard id body k = record {
    keeps = λ w s.
        let new : TxQueued σ = new_transaction w.peers guard.now in
        if_holds KeptAfter w.held s (
          option_holds KeptAfter (get id w.transactions)
            (λ _.
              (k new tt).keeps (record w { transactions = set id new w.transactions })
                (set-AllIn (IsSigned) id new w.transactions s.0 tt, s.1, s.2))
            λ t found. (k t (found-IsSigned id w t s found)).keeps w s);
  }

module _ {σ : Sigma} (κ : Kept σ) (guard : Cosigner σ) where
  pub get_index-Keeps : Keeps (IsKept κ) (get_index guard)
  unfolding get_index
  get_index-Keeps = quiet κ λ w. ground arith

  pub send_message-Quiet : (p : Payload) (rs : List String) → Quiet κ (send_message guard p rs)
  unfolding send_message get_index
  send_message-Quiet p rs w = ground arith

  pub send_to_peers-Keeps :
      (p : Payload) (rs : List Signer → List String) → Keeps (IsKept κ) (send_to_peers guard p rs)
  unfolding send_to_peers
  send_to_peers-Keeps p rs = quiet κ λ w. send_message-Quiet p (rs w.peers) w
