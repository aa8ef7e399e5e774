-- ===== src/MultiSig/Stuck.antt =====
-- The semaphore of src/guard/multisig/MultiSigHandler.ts when no commitment can be made.
use ts_gaurd_service.Base.{
  ℕ, ◌≡◌, refl, sym, ◌∙◌, true, false, Option, none, some, List, [], ◌∷◌, ◌++◌, map, String,
  if◌then◌else◌, ◌==◌, nat_eq, string_eq, length, err, ok, Error, Result, Action, get, set, arith,
  get-set,
}
use ts_gaurd_service.MultiSig.{
  Sigma, Payload, register, approve, commitment, CommunicationMessage, TxQueued, failed, MultiSig,
  Cosigner, is_peers_initiated, verify_sign, send_register, handle_register, handle_approve,
  handle_public_keys_change, send_message, get_index, get_elem?, change_peers, unknown_peer,
}
use ts_gaurd_service.MultiSig.Queue.{
  get_queued_transaction, generate_commitment, sign, cleanup, handle_commitment,
}
use ts_gaurd_service.MultiSig.Signing.{delayed_generate_sign}
use ts_gaurd_service.MultiSig.Messages.{
  handle_sign, dispatch, is_admitted, handle_from, handle_signed, admit, handle_message,
}
use ts_gaurd_service.MultiSig.Calls.{
  Call, received, asked, timer, clean, register_again, keys_changed, call, after_calls, remove_at,
}
use ts_gaurd_service.MultiSig.Frames.{
  Keeps, >>=-Keeps, >>-Keeps, read-Keeps, gets-Keeps, lift-Keeps, if-Keeps, if_holds_of,
  option_holds,
}

-- The semaphore is held, and the queue and the outcomes are as they were.
abbrev pub IsStuck : {σ : Sigma} → MultiSig σ → MultiSig σ → Type 0
IsStuck before w =
    (w.held ≡ true) × (w.transactions ≡ before.transactions) × (w.outcomes ≡ before.outcomes)

module _ {σ : Sigma} (before : MultiSig σ) (guard : Cosigner σ) where
  abbrev Stuck : MultiSig σ → Type 0
  Stuck = IsStuck before

  -- Where the semaphore is held, the other branch is not taken.
  waits :
      (w : MultiSig σ) (x : Result (Unit {0}) × MultiSig σ)
      → Stuck w
      → Stuck (if w.held then (ok tt, w) else x).1
  waits w x s =
      if_holds_of (λ (r : Result (Unit {0}) × MultiSig σ). Stuck r.1) w.held (λ _. s)
        λ released. let impossible : true ≡ false = sym s.0 ∙ released in cc

  queued-Keeps :
      (id : String) (body : TxQueued σ → Action (MultiSig σ) (Unit {0}))
      → Keeps Stuck (get_queued_transaction guard id body)
  unfolding get_queued_transaction
  queued-Keeps id body = record { keeps = λ w s. waits w _ s }

  untouched :
      {A : Type 0} {m : Action (MultiSig σ) A}
      → ((w : MultiSig σ)
          → ((m w).1.held ≡ w.held)
            × ((m w).1.transactions ≡ w.transactions)
            × ((m w).1.outcomes ≡ w.outcomes))
      → Keeps Stuck m
  untouched h = record { keeps = λ w s. rw ((h w).0, (h w).1, (h w).2) s }

  initiated-Keeps : Keeps Stuck (is_peers_initiated {σ = σ})
  unfolding is_peers_initiated
  initiated-Keeps = untouched λ w. ground arith

  dispatch-Keeps :
      (sender : String) (index : ℕ) (s : String) (p : Payload)
      → Keeps Stuck (dispatch guard sender index s p)
  unfolding dispatch handle_register handle_approve send_message get_index handle_commitment
      handle_sign
  dispatch-Keeps sender index s (register nonce my_id) = untouched λ w. ground arith
  dispatch-Keeps sender index s (approve nonce nonce_to_sign my_id) = untouched λ w. ground arith
  dispatch-Keeps sender index s (commitment tx_id c) =
      if-Keeps (tx_id == "") read-Keeps (queued-Keeps tx_id _)
  dispatch-Keeps sender index s (Payload.sign payload) =
      if-Keeps (payload.tx_id == "") read-Keeps (queued-Keeps payload.tx_id _)

  handle_signed-Keeps :
      (sender : String) (index : ℕ) (message : CommunicationMessage)
      → Keeps Stuck (handle_signed guard sender index message)
  handle_signed-Keeps sender index message =
      >>=-Keeps
        (read-Keeps
          {f = λ w.
            verify_sign guard message.sign index (guard.stringify message.payload index message.id)
              w})
        λ verified.
          if-Keeps verified (dispatch-Keeps sender index message.sign message.payload) read-Keeps

  admit-Keeps :
      (sender : String) (message : CommunicationMessage) (index : Option ℕ)
      → Keeps Stuck (admit guard sender message index)
  admit-Keeps sender message none = read-Keeps
  admit-Keeps sender message (some index) =
      gets-Keeps (is_admitted guard index message) (handle_from guard sender index message) λ w.
        if-Keeps (is_admitted guard index message w)
          (if-Keeps (sender == message.id) (handle_signed-Keeps sender index message) read-Keeps)
          read-Keeps

  register-Keeps : Keeps Stuck (send_register guard)
  unfolding send_register send_message get_index
  register-Keeps = untouched λ w. ground arith

module _ {σ : Sigma} (before : MultiSig σ) where
  call-Keeps : (c : Call σ) → Keeps (IsStuck before) (call c)
  unfolding handle_message sign cleanup delayed_generate_sign handle_public_keys_change
  call-Keeps (received guard message_str sender) = >>-Keeps (initiated-Keeps before guard) (
      lift-Keeps (guard.parse_message message_str)
        λ message _. admit-Keeps before guard sender message message.index)
  call-Keeps (asked guard promise tx required boxes data_boxes) =
      >>-Keeps (initiated-Keeps before guard) (queued-Keeps before guard (σ.reduced_id tx) _)
  call-Keeps (timer guard k) = record {
    keeps = λ w s.
        option_holds (λ (m : Action (MultiSig σ) (Unit {0})). IsStuck before (m w).1)
          (get_elem? w.delayed k) (λ _. s)
          λ id _.
            (queued-Keeps before guard id _).keeps (record w { delayed = remove_at k w.delayed }) s;
  }
  call-Keeps (clean guard) = record { keeps = λ w s. waits before guard w _ s }
  call-Keeps (register_again guard) = register-Keeps before guard
  call-Keeps (keys_changed guard public_keys) =
      >>-Keeps
        (untouched before guard {m = change_peers guard λ _. map unknown_peer public_keys}
          λ w. (refl, refl, refl))
        (register-Keeps before guard)

  calls-IsStuck :
      (calls : List (Call σ)) (w : MultiSig σ)
      → IsStuck before w
      → IsStuck before (after_calls calls w)
  calls-IsStuck [] w s = s
  calls-IsStuck (c ∷ cs) w s = calls-IsStuck cs (call c w).1 ((call-Keeps c).keeps w s)

-- The call itself.
sign-held :
    {σ : Sigma} (guard : Cosigner σ) (promise : ℕ) (tx : σ.ReducedTx) (required : ℕ)
    (boxes : List σ.Box) (data_boxes : Option (List σ.Box)) (w : MultiSig σ) (e : Error)
    → (length w.peers == 0) ≡ false
    → w.held ≡ false
    → get (σ.reduced_id tx) w.transactions ≡ none
    → σ.generate_commitments tx ≡ err e
    → ((sign guard promise tx required boxes data_boxes w).1.outcomes
        ≡ w.outcomes ++ failed promise ∷ [])
      × ((sign guard promise tx required boxes data_boxes w).1.held ≡ true)
unfolding sign is_peers_initiated get_queued_transaction generate_commitment get set
sign-held {σ} guard promise tx required boxes data_boxes w e initiated free new fails =
    rw (initiated, free, new, get-set (σ.reduced_id tx) _ _, fails) (refl, refl)

-- Where the ledger library makes no commitment for a transaction that is new, the call of `sign`
-- rejects its promise and does not release the semaphore; and whatever is called afterwards, cleanup
-- included, the queue stays as it is and no promise is settled any more.
pub after_calls-sign-IsStuck :
    {σ : Sigma} (guard : Cosigner σ) (promise : ℕ) (tx : σ.ReducedTx) (required : ℕ)
    (boxes : List σ.Box) (data_boxes : Option (List σ.Box)) (w : MultiSig σ) (e : Error)
    (calls : List (Call σ))
    → (length w.peers == 0) ≡ false
    → w.held ≡ false
    → get (σ.reduced_id tx) w.transactions ≡ none
    → σ.generate_commitments tx ≡ err e
    → ((sign guard promise tx required boxes data_boxes w).1.outcomes
        ≡ w.outcomes ++ failed promise ∷ [])
      × IsStuck
          (sign guard promise tx required boxes data_boxes w).1
          (after_calls calls (sign guard promise tx required boxes data_boxes w).1)
after_calls-sign-IsStuck {σ} guard promise tx required boxes data_boxes w e calls initiated free new
      fails =
    let (rejected, held) =
      sign-held guard promise tx required boxes data_boxes w e initiated free new fails in
    let after : MultiSig σ = (sign guard promise tx required boxes data_boxes w).1 in
    (rejected, calls-IsStuck after calls after (held, refl, refl))
