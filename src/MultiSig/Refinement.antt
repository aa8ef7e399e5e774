-- ===== src/MultiSig/Refinement.antt =====
-- The calls of src/guard/multisig/MultiSigHandler.ts as events of the directory.
use ts_gaurd_service.Base.{
  ℕ, ◌≡◌, refl, sym, ap, ◌∙◌, subst, inl, inr, true, ◌&&◌, Option, none, some, List, [], ◌∷◌,
  String, ◌==◌, nat_eq, string_eq, length, ok, err, Result, Action, arith, Bool-cases,
  null_reference,
}
use ts_gaurd_service.Base.Results.{ok-injective}
use ts_gaurd_service.MultiSig.{
  Sigma, Signer, Payload, register, approve, commitment, CommunicationMessage, TxQueued, Sign,
  Outcome, MultiSig, Cosigner, get_elem?, update_at, is_peers_initiated, verify_index, get_index,
  verify_sign, send_message, send_register, handle_register, answered, approved, is_my_nonce,
  accept_approval, handle_approve, handle_public_keys_change,
}
use ts_gaurd_service.MultiSig.Queue.{sign, cleanup, handle_commitment}
use ts_gaurd_service.MultiSig.Signing.{delayed_generate_sign}
use ts_gaurd_service.MultiSig.Messages.{
  is_admitted, handle_signed, admit, handle_sign, handle_message, dispatch,
}
use ts_gaurd_service.MultiSig.Calls.{
  Call, received, asked, timer, clean, register_again, keys_changed, call, remove_at,
}
use ts_gaurd_service.MultiSig.Frames.{
  Keeps, All, AllIn, if_holds, if_holds_of, read_holds, option_holds,
}
use ts_gaurd_service.MultiSig.Kept.{Kept, IsKept, SignIsKept, IsSigned}
use ts_gaurd_service.MultiSig.Invariant.{delayed_generate_sign-Keeps}
use ts_gaurd_service.MultiSig.Handlers.{
  sign-Keeps, cleanup-Keeps, handle_commitment-Keeps, handle_sign-Keeps,
}
use ts_gaurd_service.MultiSig.Directory.{
  Directory, claims, confirms, renews, replaces, SignedBy, Issued, view, Changes, reader,
  update_at-congr, update_at-same, accept-approved, ignored,
}

module _ {σ : Sigma} (d : Directory) where
  kept_view : Kept σ
  kept_view = record {
    Signers = λ _. Unit {0};
    Settled = λ _. Unit {0};
    Known = λ peers nonce. (peers ≡ d.peers) × (nonce ≡ d.nonce);
    alone = λ _. tt;
    joined = λ _ _ _ _. tt;
    of_guards = λ _ _. tt;
    on_resolved = λ _ _ _. tt;
    on_timed_out = λ _. tt;
    on_invalid_sign = λ _ _. tt;
    on_failed = λ _. tt;
  }

  All-kept : (m : List (String × TxQueued σ)) → AllIn (λ (t : TxQueued σ). IsSigned kept_view t) m
  unfolding kept_view
  All-kept [] = tt
  All-kept ((k, t) ∷ m) = (signed t.sign, All-kept m)
    where
      signed : (o : Option (Sign σ)) → SignIsKept kept_view o
      signed none = tt
      signed (some s) = tt

  All-settled : (os : List (Outcome σ)) → All kept_view.Settled os
  unfolding kept_view
  All-settled [] = tt
  All-settled (o ∷ os) = (tt, All-settled os)

module _ {σ : Sigma} (guard : Cosigner σ) (w : MultiSig σ) where
  abbrev Reaches : Directory → Type 0
  Reaches = Changes guard (view w)

  abbrev ReachesAfter : Result (Unit {0}) × MultiSig σ → Type 0
  ReachesAfter r = Reaches (view r.1)

  stays : {d : Directory} → (d.peers ≡ w.peers) → (d.nonce ≡ w.nonce) → Reaches d
  stays p n = ([], tt, ground (arith, p, n))

  -- A step on the queue leaves the directory.
  on_queue :
      {A : Type 0} (m : Action (MultiSig σ) A)
      → Keeps (IsKept (kept_view (view w))) m
      → Reaches (view (m w).1)
  unfolding kept_view
  on_queue m h =
      let (_, _, same) =
        h.keeps w
          (All-kept (view w) w.transactions, All-settled (view w) w.outcomes, (refl, refl)) in
      stays same.0 same.1

  module _ (sender : String) (index : ℕ) (peer : Signer)
      (there : get_elem? w.peers index ≡ some peer) where
    register-Refines :
        (nonce my_id : String)
        → SignedBy guard peer index sender (register nonce my_id)
        → Reaches (view (handle_register guard sender index nonce w).1)
    unfolding handle_register send_message get_index
    register-Refines nonce my_id signed =
        if_holds ReachesAfter (verify_index index w)
          (
            claims index sender guard.random ∷ [],
            ((peer, there, refl, nonce, my_id, signed), tt),
            ground arith,
          )
          (stays refl refl)

    -- A signed approval is a confirmation if it answers a nonce, and nothing otherwise.
    answers :
        (nonce nonce_to_sign : String) {d : Directory}
        → SignedBy guard peer index sender (approve nonce nonce_to_sign sender)
        → d.peers ≡ update_at index (accept_approval w.nonce sender nonce) w.peers
        → d.nonce ≡ w.nonce
        → Reaches d
    answers nonce nonce_to_sign {d} signed p n = elim (Bool-cases (answered sender nonce peer)) [
      | inl answer ↦ confirmed (inl answer)
      | inr stranger ↦ elim (Bool-cases (is_my_nonce w.nonce nonce)) [
        | inl mine ↦ confirmed (inr mine)
        | inr unknown ↦
            stays
              (p
                ∙ update_at-same index (accept_approval w.nonce sender nonce) w.peers there
                    (ignored w.nonce sender nonce peer stranger unknown))
              n
      ]
    ]
      where
        confirmed : Issued guard (view w) peer sender nonce → Reaches d
        confirmed issued = (
          confirms index sender nonce ∷ [],
          ((peer, there, issued, nonce_to_sign, signed), tt),
          ground (
            arith,
            p,
            n,
            update_at-congr index (accept_approval w.nonce sender nonce) (approved sender nonce)
                w.peers there (accept-approved w.nonce sender nonce peer issued),
          ),
        )

    approve-Refines :
        (nonce nonce_to_sign my_id : String)
        → SignedBy guard peer index sender (approve nonce nonce_to_sign my_id)
        → Reaches (view (handle_approve guard sender index nonce nonce_to_sign my_id w).1)
    unfolding handle_approve send_message get_index
    approve-Refines nonce nonce_to_sign my_id signed =
        if_holds_of ReachesAfter (verify_index index w && sender == my_id)
          (λ valid.
            answers nonce nonce_to_sign
              (subst (λ id. SignedBy guard peer index sender (approve nonce nonce_to_sign id))
                (sym ((string_eq.beq_iff sender my_id).0 (ground arith))) signed)
              (ground arith) (ground arith))
          (λ _. stays refl refl)

    dispatch-Refines :
        (signature : String) (payload : Payload)
        → SignedBy guard peer index sender payload
        → Reaches (view (dispatch guard sender index signature payload w).1)
    unfolding dispatch
    dispatch-Refines signature (register nonce my_id) signed = register-Refines nonce my_id signed
    dispatch-Refines signature (approve nonce nonce_to_sign my_id) signed =
        approve-Refines nonce nonce_to_sign my_id signed
    dispatch-Refines signature (commitment tx_id c) signed =
        on_queue (handle_commitment guard index tx_id c signature)
          (handle_commitment-Keeps (kept_view (view w)) guard index tx_id c signature)
    dispatch-Refines signature (Payload.sign payload) signed =
        on_queue (handle_sign guard payload) (handle_sign-Keeps (kept_view (view w)) guard payload)

  -- Inversion of a signature that verified.
  verify_sign-true :
      (signature : String) (index : ℕ) (content : String)
      → verify_sign guard signature index content w ≡ ok true
      → (peer : Signer) × (get_elem? w.peers index ≡ some peer)
        × (guard.verify_data content signature peer.pub_key ≡ true)
  unfolding verify_sign
  verify_sign-true signature index content e = go (get_elem? w.peers index) refl e
    where
      go :
          (o : Option Signer)
          → get_elem? w.peers index ≡ o
          → elim o [
            | none ↦ err null_reference
            | some peer ↦ ok (guard.verify_data content signature peer.pub_key)
          ]
            ≡ ok true
          → (peer : Signer) × (get_elem? w.peers index ≡ some peer)
            × (guard.verify_data content signature peer.pub_key ≡ true)
      go none there e = cc
      go (some peer) there e = (peer, there, ok-injective e)

  verified-Refines :
      (sender : String) (index : ℕ) (message : CommunicationMessage)
      → (sender == message.id) ≡ true
      → Reaches (view (handle_signed guard sender index message w).1)
  verified-Refines sender index message same =
      read_holds (λ v. Reaches (view v))
        (verify_sign guard message.sign index (guard.stringify message.payload index message.id) w)
        _ w (stays refl refl)
        λ verified e.
          if_holds_of (λ (m : Action (MultiSig σ) (Unit {0})). Reaches (view (m w).1)) verified
            (λ true_sign.
              let (peer, there, signed) =
                verify_sign-true message.sign index
                  (guard.stringify message.payload index message.id) (e ∙ ap ok true_sign) in
              dispatch-Refines sender index peer there message.sign message.payload (
                message.sign,
                subst
                    (λ id.
                      guard.verify_data (guard.stringify message.payload index id) message.sign
                        peer.pub_key
                      ≡ true)
                    (sym ((string_eq.beq_iff sender message.id).0 same)) signed,
              ))
            λ _. stays refl refl

  admitted-Refines :
      (sender : String) (message : CommunicationMessage) (index : Option ℕ)
      → Reaches (view (admit guard sender message index w).1)
  admitted-Refines sender message none = stays refl refl
  admitted-Refines sender message (some index) =
      if_holds (λ (m : Action (MultiSig σ) (Unit {0})). Reaches (view (m w).1))
        (is_admitted guard index message w)
        (if_holds_of (λ (m : Action (MultiSig σ) (Unit {0})). Reaches (view (m w).1))
          (sender == message.id) (verified-Refines sender index message) λ _. stays refl refl)
        (stays refl refl)

  message-Refines :
      (message_str sender : String) → Reaches (view (handle_message guard message_str sender w).1)
  unfolding handle_message is_peers_initiated
  message-Refines message_str sender = elim (Bool-cases (length w.peers == 0)) [
    | inl none_yet ↦ rw none_yet (stays refl refl)
    | inr initiated ↦ rw initiated (
        read_holds (λ v. Reaches (view v)) (guard.parse_message message_str) _ w (stays refl refl)
          λ message _. admitted-Refines sender message message.index)
  ]

-- A call changes the guards' ids, the challenges and the nonce by a sequence of events of the
-- directory, each of them allowed: an id is confirmed only if the guard's key signed an approval by
-- that id with a nonce that was given out to it or to all.
pub call-Refines :
    {σ : Sigma} (c : Call σ) (w : MultiSig σ) → Changes (reader c) (view w) (view (call c w).1)
unfolding send_register handle_public_keys_change send_message get_index
call-Refines (received guard message_str sender) w = message-Refines guard w message_str sender
call-Refines (asked guard promise tx required boxes data_boxes) w =
    on_queue guard w (sign guard promise tx required boxes data_boxes)
      (sign-Keeps (kept_view (view w)) guard promise tx required boxes data_boxes)
call-Refines (timer guard k) w =
    option_holds (λ (m : Action _ (Unit {0})). Changes guard (view w) (view (m w).1))
      (get_elem? w.delayed k) (λ _. stays guard w refl refl)
      λ id _.
        on_queue guard (record w { delayed = remove_at k w.delayed })
          (delayed_generate_sign guard id)
          (delayed_generate_sign-Keeps (kept_view (view w)) guard id)
call-Refines (clean guard) w =
    on_queue guard w (cleanup guard) (cleanup-Keeps (kept_view (view w)) guard)
call-Refines (register_again guard) w = (renews guard.random ∷ [], (refl, tt), ground arith)
call-Refines (keys_changed guard public_keys) w =
    (replaces public_keys ∷ renews guard.random ∷ [], (tt, (refl, tt)), ground arith)
