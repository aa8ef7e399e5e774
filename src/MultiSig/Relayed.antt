-- ===== src/MultiSig/Relayed.antt =====
-- Relayed commitments in handleSign of src/guard/multisig/MultiSigHandler.ts.
use ts_gaurd_service.Base.{
  arith, Result, ℕ, ◌≡◌, ◌⊎◌, Error, refl, inr, inl, ap, ◌≢◌, sym, ◌∙◌, Bool, true, false, Option,
  none, some, List, [], ◌∷◌, ◌++◌, String, if◌then◌else◌, Bool-cases, Option-cases, map,
  null_reference, ok, err,
}
use ts_gaurd_service.Base.Results.{continue_with, result_bind_ok, ok-injective}
use ts_gaurd_service.MultiSig.{
  Sigma, Signer, Slot, SignedCommitment, SignPayload, Payload, commitment, MultiSig, Cosigner,
  CommunicationMessage, Sent, send_message, signed_message, addressed, get_index, index_of_key,
  get_peer_id, get_elem?, verify_sign,
}
use ts_gaurd_service.MultiSig.Commitments.{PublishedCommitment}
use ts_gaurd_service.MultiSig.Messages.{is_new, filter_result, new_commitments, saved_at}
use ts_gaurd_service.MultiSig.Frames.{All}

append-longer : {A : Type 0} (xs : List A) (y : A) (ys : List A) → xs ≢ xs ++ y ∷ ys
append-longer [] y ys e = cc
append-longer (x ∷ xs) y ys e = append-longer xs y ys cc

append-next :
    {A : Type 0} (xs : List A) {x y : A} (ys zs : List A) → xs ++ x ∷ ys ≡ xs ++ y ∷ zs → x ≡ y
append-next [] ys zs e = cc
append-next (x ∷ xs) ys zs e = append-next xs ys zs cc

module _ {σ : Sigma} where
  -- A call of `send_message` added the message to those sent, for one receiver or for all.
  abbrev pub IsSentBy : Cosigner σ → Payload → CommunicationMessage → Type 0
  IsSentBy sender payload message =
      (receivers : List String) × (before : MultiSig σ) × (receiver : Option String) × (rest : List
        Sent)
      × ((send_message sender payload receivers before).1.sent
          ≡ before.sent ++ record { message = message; receiver = receiver } ∷ rest)

  -- The signature is that of a message with which the guard at the index sent a commitment.
  abbrev pub IsSent : (ℕ → Cosigner σ) → SignedCommitment → Type 0
  IsSent senders given =
      (message : CommunicationMessage) × (tx_id : String) × (c : PublishedCommitment) × IsSentBy
        (senders given.index) (commitment tx_id c) message
      × (given.sign ≡ message.sign)

  addressed-signed :
      (sender : Cosigner σ) (payload : Payload) (index : ℕ) (receivers : List String)
      (before : List Sent) (s : Sent) (rest : List Sent)
      → before ++ addressed sender (signed_message sender payload index) receivers
        ≡ before ++ s ∷ rest
      → signed_message sender payload index ≡ s.message
  addressed-signed sender payload index [] before s rest e =
      ap (λ (x : Sent). x.message) (append-next before [] rest e)
  addressed-signed sender payload index (r ∷ rs) before s rest e =
      ap (λ (x : Sent). x.message)
        (append-next before
          (map
            (λ receiver. record {
              message = signed_message sender payload index;
              receiver = some receiver;
            })
            rs)
          rest e)

  -- A call sends nothing, or the message that is signed with an index.
  send_message-sent :
      (sender : Cosigner σ) (payload : Payload) (receivers : List String) (before : MultiSig σ)
      → ((send_message sender payload receivers before).1.sent ≡ before.sent)
        ⊎ ((index : ℕ) × ((send_message sender payload receivers before).1.sent
              ≡ before.sent ++ addressed sender (signed_message sender payload index) receivers))
  unfolding send_message get_index
  send_message-sent sender payload receivers before = elim (Option-cases before.index) [
    | inl unset ↦ elim (Option-cases (index_of_key sender.public_key before.peers)) [
      | inl missing ↦ inl (ground (arith, unset, missing))
      | inr (i, known) ↦ inr (i, ground (arith, unset, known))
    ]
    | inr (i, set) ↦ inr (i, ground (arith, set))
  ]

  -- What is sent is signed over the payload with an index and the id.
  sent_sign :
      (sender : Cosigner σ) (payload : Payload) (message : CommunicationMessage)
      → IsSentBy sender payload message
      → (index : ℕ) × (message.sign
          ≡ sender.sign_data (sender.stringify payload index sender.dialer_id))
  unfolding get_peer_id
  sent_sign sender payload message (receivers, before, receiver, rest, e) =
      let s : Sent = record { message = message; receiver = receiver } in
      elim (send_message-sent sender payload receivers before) [
        | inl none_sent ↦ absurd (append-longer before.sent s rest (sym none_sent ∙ e))
        | inr (index, added) ↦ (
          index,
          sym (
              ap (λ (m : CommunicationMessage). m.sign)
                (addressed-signed sender payload index receivers before.sent s rest
                  (sym added ∙ e))),
        )
      ]

-- `senders` are the guards by their indexes.
module _ {σ : Sigma} (guard : Cosigner σ) (senders : ℕ → Cosigner σ) (tx_id : String)
    (slots : List Slot) (w : MultiSig σ)
    (other_text : (c : PublishedCommitment) (sender : ℕ) (p : Payload) (index : ℕ)
      → guard.stringify_relayed tx_id c
        ≢ (senders sender).stringify p index (senders sender).dialer_id)
    (keys : (i : ℕ) (peer : Signer)
      → get_elem? w.peers i ≡ some peer
      → peer.pub_key ≡ (senders i).public_key)
    (only : (i : ℕ) (text other : String)
      → guard.verify_data text ((senders i).sign_data other) (senders i).public_key ≡ true
      → text ≡ other) where
  is_new-false :
      (given : SignedCommitment) {b : Bool}
      → IsSent senders given
      → is_new guard tx_id slots w given ≡ ok b
      → b ≡ false
  unfolding verify_sign
  is_new-false given {b} (message, tx, c, sent, made) e =
      go (saved_at given.index slots) (get_elem? w.peers given.index) (keys given.index) e
    where
      go :
          (saved : Option PublishedCommitment) (o : Option Signer)
          → ((peer : Signer) → o ≡ some peer → peer.pub_key ≡ (senders given.index).public_key)
          → elim saved [
            | none ↦ elim o [
              | none ↦ err null_reference
              | some peer ↦ ok (
                  guard.verify_data
                    (guard.stringify_relayed tx_id given.commitment)
                    given.sign
                    peer.pub_key)
            ]
            | some _ ↦ ok false
          ]
            ≡ ok b
          → b ≡ false
      go (some _) o k e = sym (ok-injective e)
      go none none k e = cc
      go none (some peer) k e =
          let (index, signed) = sent_sign (senders given.index) (commitment tx c) message sent in
          elim (Bool-cases b) [
            | inl yes_sign ↦ absurd (
                other_text given.commitment given.index (commitment tx c) index (
                  only given.index _ _
                    (rw (← k peer refl, ← signed, ← made) (ok-injective e ∙ yes_sign))))
            | inr no_sign ↦ no_sign
          ]

  pub filter-nil :
      (givens : List SignedCommitment) {kept : List SignedCommitment}
      → All (IsSent senders) givens
      → filter_result guard (is_new guard tx_id slots w) givens ≡ ok kept
      → kept ≡ []
  filter-nil [] sent e = sym (ok-injective e)
  filter-nil (x ∷ xs) {kept} (here, sent) e =
      let (b, first, rest) =
        result_bind_ok (is_new guard tx_id slots w x)
          (λ b.
            continue_with (filter_result guard (is_new guard tx_id slots w) xs)
              λ rest. ok (if b then x ∷ rest else rest))
          e in
      let (ys, tail, last) =
        result_bind_ok (filter_result guard (is_new guard tx_id slots w) xs)
          (λ (rest : List SignedCommitment). ok (if b then x ∷ rest else rest)) rest in
      let skipped : b ≡ false = is_new-false x here first in
      let none_left : ys ≡ [] = filter-nil xs sent tail in ground (arith, skipped, none_left, last)

-- Of the commitments that come with a signature message none is taken over, if each has the
-- signature of a message with which `send_message` of the guard at its index sent a commitment, if
-- the peers have these guards' keys, if a signature by one of these guards verifies with its key no
-- text but the signed one, and if no text of a relayed commitment of the transaction is that of a
-- payload with an index and the id of such a guard: the filter then keeps none, or raises.
pub new_commitments-nil :
    {σ : Sigma} (guard : Cosigner σ) (senders : ℕ → Cosigner σ) (payload : SignPayload)
    (slots : List Slot) (w : MultiSig σ)
    → ((c : PublishedCommitment) (sender : ℕ) (p : Payload) (index : ℕ)
        → guard.stringify_relayed payload.tx_id c
          ≢ (senders sender).stringify p index (senders sender).dialer_id)
    → ((i : ℕ) (peer : Signer)
        → get_elem? w.peers i ≡ some peer
        → peer.pub_key ≡ (senders i).public_key)
    → ((i : ℕ) (text other : String)
        → guard.verify_data text ((senders i).sign_data other) (senders i).public_key ≡ true
        → text ≡ other)
    → All (IsSent senders) payload.commitments
    → (new_commitments guard payload slots w ≡ ok [])
      ⊎ ((e : Error) × (new_commitments guard payload slots w ≡ err e))
unfolding new_commitments
new_commitments-nil {σ} guard senders payload slots w other_text keys only sent =
    go (new_commitments guard payload slots w) refl
  where
    go :
        (r : Result (List SignedCommitment))
        → new_commitments guard payload slots w ≡ r
        → (new_commitments guard payload slots w ≡ ok [])
          ⊎ ((e : Error) × (new_commitments guard payload slots w ≡ err e))
    go (ok kept) e = inl (
        e
        ∙ ap ok (
            filter-nil guard senders payload.tx_id slots w other_text keys only payload.commitments
              sent e))
    go (err x) e = inr (x, e)
