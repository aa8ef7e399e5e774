-- ===== src/MultiSig/Histories.antt =====
-- The sound queue, for the calls and histories of src/guard/multisig/MultiSigHandler.ts.
use ts_gaurd_service.Base.{
  ℕ, ◌≡◌, refl, Bool, Option, none, some, List, [], ◌∷◌, map, String, ◌==◌, nat_eq, string_eq,
  Action, arith,
}
use ts_gaurd_service.MultiSig.{
  Sigma, Payload, register, approve, commitment, CommunicationMessage, MultiSig, Cosigner,
  send_register, handle_register, handle_approve, handle_public_keys_change, send_message,
  get_index, verify_sign, get_elem?, change_peers, unknown_peer,
}
use ts_gaurd_service.MultiSig.Messages.{
  dispatch, handle_signed, handle_message, is_admitted, handle_from, admit,
}
use ts_gaurd_service.MultiSig.Calls.{
  Call, received, asked, timer, clean, register_again, keys_changed, call, after_calls, remove_at,
}
use ts_gaurd_service.MultiSig.Frames.{
  Keeps, >>=-Keeps, >>-Keeps, read-Keeps, gets-Keeps, lift-Keeps, if-Keeps, option_holds,
}
use ts_gaurd_service.MultiSig.Sound.{sound, IsSound}
use ts_gaurd_service.MultiSig.Handlers.{
  initiated-Keeps, sign-Keeps, cleanup-Keeps, handle_commitment-Keeps, handle_sign-Keeps,
}
use ts_gaurd_service.MultiSig.Invariant.{delayed_generate_sign-Keeps}

module _ {σ : Sigma} where
  -- A step that changes neither the queue nor the outcomes.
  untouched :
      {A : Type 0} {m : Action (MultiSig σ) A}
      → ((w : MultiSig σ)
          → ((m w).1.transactions ≡ w.transactions) × ((m w).1.outcomes ≡ w.outcomes))
      → Keeps (IsSound σ) m
  untouched h = record { keeps = λ w s. rw ((h w).0, (h w).1) s }

module _ {σ : Sigma} (guard : Cosigner σ) where
  dispatch-Keeps :
      (sender : String) (index : ℕ) (s : String) (p : Payload)
      → Keeps (IsSound σ) (dispatch guard sender index s p)
  unfolding dispatch handle_register handle_approve send_message get_index
  dispatch-Keeps sender index s (register nonce my_id) = untouched λ w. ground arith
  dispatch-Keeps sender index s (approve nonce nonce_to_sign my_id) = untouched λ w. ground arith
  dispatch-Keeps sender index s (commitment tx_id c) =
      handle_commitment-Keeps (sound σ) guard index tx_id c s
  dispatch-Keeps sender index s (Payload.sign payload) = handle_sign-Keeps (sound σ) guard payload

  handle_signed-Keeps :
      (sender : String) (index : ℕ) (message : CommunicationMessage)
      → Keeps (IsSound σ) (handle_signed guard sender index message)
  handle_signed-Keeps sender index message =
      >>=-Keeps
        (read-Keeps
          {f = λ w.
            verify_sign guard message.sign index (guard.stringify message.payload index message.id)
              w})
        λ verified.
          if-Keeps verified (dispatch-Keeps sender index message.sign message.payload) read-Keeps

  handle_from-Keeps :
      (sender : String) (index : ℕ) (message : CommunicationMessage) (valid : Bool)
      → Keeps (IsSound σ) (handle_from guard sender index message valid)
  handle_from-Keeps sender index message valid =
      if-Keeps valid
        (if-Keeps (sender == message.id) (handle_signed-Keeps sender index message) read-Keeps)
        read-Keeps

  admit-Keeps :
      (sender : String) (message : CommunicationMessage) (index : Option ℕ)
      → Keeps (IsSound σ) (admit guard sender message index)
  admit-Keeps sender message none = read-Keeps
  admit-Keeps sender message (some index) =
      gets-Keeps (is_admitted guard index message) (handle_from guard sender index message)
        λ w. handle_from-Keeps sender index message (is_admitted guard index message w)

  handle_message-Keeps :
      (message_str sender : String) → Keeps (IsSound σ) (handle_message guard message_str sender)
  unfolding handle_message
  handle_message-Keeps message_str sender = >>-Keeps (initiated-Keeps (sound σ) guard) (
      lift-Keeps (guard.parse_message message_str)
        λ message _. admit-Keeps sender message message.index)

  register-Keeps : Keeps (IsSound σ) (send_register guard)
  unfolding send_register send_message get_index
  register-Keeps = untouched λ w. ground arith

  keys_changed-Keeps :
      (public_keys : List String) → Keeps (IsSound σ) (handle_public_keys_change guard public_keys)
  unfolding handle_public_keys_change
  keys_changed-Keeps public_keys =
      >>-Keeps
        (untouched {m = change_peers guard λ _. map unknown_peer public_keys} λ w. (refl, refl))
        register-Keeps

module _ {σ : Sigma} where
  call-Keeps : (c : Call σ) → Keeps (IsSound σ) (call c)
  call-Keeps (received guard message_str sender) = handle_message-Keeps guard message_str sender
  call-Keeps (asked guard promise tx required boxes data_boxes) =
      sign-Keeps (sound σ) guard promise tx required boxes data_boxes
  call-Keeps (timer guard k) = record {
    keeps = λ w s.
        option_holds (λ (m : Action (MultiSig σ) (Unit {0})). IsSound σ (m w).1)
          (get_elem? w.delayed k) (λ _. s)
          λ id _.
            (delayed_generate_sign-Keeps (sound σ) guard id).keeps
              (record w { delayed = remove_at k w.delayed }) s;
  }
  call-Keeps (clean guard) = cleanup-Keeps (sound σ) guard
  call-Keeps (register_again guard) = register-Keeps guard
  call-Keeps (keys_changed guard public_keys) = keys_changed-Keeps guard public_keys

  -- Whatever calls the handler got, in any order: in every stored signature each signer is there
  -- once, and of every transaction that resolved a promise the proofs of all inputs verified.
  pub calls-IsSound :
      (calls : List (Call σ)) (w : MultiSig σ) → IsSound σ w → IsSound σ (after_calls calls w)
  calls-IsSound [] w s = s
  calls-IsSound (c ∷ cs) w s = calls-IsSound cs (call c w).1 ((call-Keeps c).keeps w s)
