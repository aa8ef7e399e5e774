-- ===== src/MultiSig/Messages.antt =====
-- Messages in src/guard/multisig/MultiSigHandler.ts: verifySignedPayload, handleSign and
-- handleMessage. What raises in the handling of a signature is logged, and what was written stays.
use ts_gaurd_service.Base.{
  ℕ, Bool, true, false, not, ◌&&◌, Option, none, some, List, [], ◌∷◌, map, String, if◌then◌else◌,
  ltb, ◌==◌, nat_eq, string_eq, length, select, Action, Result, ok, err, commitment_mis_match, pure,
  gets, lift, attempt, for_each, ◌>>=◌, ◌>>◌,
}
use ts_gaurd_service.Base.Results.{continue_with}
use ts_gaurd_service.MultiSig.{
  Sigma, Signer, Slot, hole, absent, committed, SignedCommitment, SignPayload, Payload, register,
  approve, commitment, CommunicationMessage, Sign, TxQueued, MultiSig, Cosigner, get_elem?, key_at,
  is_peers_initiated, get_index, verify_sign, handle_register, handle_approve,
}
use ts_gaurd_service.MultiSig.Commitments.{
  PublishedCommitment, generated_commitment_to_publish_commitment,
  compare_published_commitments_to_be_differ,
}
use ts_gaurd_service.MultiSig.Queue.{commit, put, get_queued_transaction, handle_commitment}
use ts_gaurd_service.MultiSig.Signing.{
  convert_hint_bag_to_published_commitment_for_guard, includes, extract_hints, generate_sign,
  process_resolve,
}

-- `new Set(xs)`, in the order of the first of each; what is in `seen` is left out.
unfoldable pub dedupe : List String → List String → List String
dedupe seen [] = []
dedupe seen (x ∷ xs) = if includes x seen then dedupe seen xs else x ∷ dedupe (x ∷ seen) xs

-- The keys of guards among the given, each once.
unfoldable pub guard_keys_of : List Signer → List String → List String
guard_keys_of peers keys =
    select (λ key. includes key (map (λ (peer : Signer). peer.pub_key) peers)) (dedupe [] keys)

-- `commitments[i]` as far as it is not `undefined`.
abbrev pub saved_at : ℕ → List Slot → Option PublishedCommitment
saved_at i slots = elim (get_elem? slots i) [
  | none ↦ none
  | some hole ↦ none
  | some absent ↦ none
  | some (committed c) ↦ some c
]

abbrev pub fail_if : Bool → Result (Unit {0})
fail_if true = err commitment_mis_match
fail_if false = ok tt

module _ {σ : Sigma} (guard : Cosigner σ) where
  abbrev pub differ : PublishedCommitment → PublishedCommitment → ℕ → Bool
  differ = compare_published_commitments_to_be_differ guard.is_after

  abbrev pub verify_own : SignedCommitment → ℕ → TxQueued σ → ℕ → Result (Unit {0})
  verify_own given my_index transaction n = elim transaction.secret [
    | none ↦ ok tt
    | some secret ↦ fail_if (
        given.index == my_index
        && differ given.commitment (generated_commitment_to_publish_commitment (σ.to_json secret))
            n)
  ]

  abbrev pub verify_saved : SignedCommitment → TxQueued σ → ℕ → Result (Unit {0})
  verify_saved given transaction n = elim (saved_at given.index transaction.commitments) [
    | none ↦ ok tt
    | some saved ↦ fail_if (differ given.commitment saved n)
  ]

  abbrev pub verify_extracted :
      SignedCommitment → List String → σ.Hints → String → ℕ → Result (Unit {0})
  verify_extracted given signed hints guard_pk n =
      if includes guard_pk signed
      then continue_with (convert_hint_bag_to_published_commitment_for_guard σ hints guard_pk n)
          (λ extracted. fail_if (differ given.commitment extracted n))
      else ok tt

  unfoldable pub verify_commitment :
      TxQueued σ → List String → σ.Hints → ℕ → List Signer → SignedCommitment → Result (Unit {0})
  verify_commitment transaction signed hints my_index peers given =
      continue_with (key_at peers given.index) λ guard_pk.
        continue_with (verify_own given my_index transaction (length transaction.boxes)) λ _.
          continue_with (verify_saved given transaction (length transaction.boxes))
            λ _. verify_extracted given signed hints guard_pk (length transaction.boxes)

  unfoldable pub verify_signed_payload : TxQueued σ → SignPayload → Action (MultiSig σ) (Unit {0})
  verify_signed_payload transaction payload = do
    tx ← lift (σ.parse (σ.from_base64 payload.tx))
    hints ← lift (
        extract_hints guard tx transaction.boxes transaction.data_boxes payload.signed
          payload.simulated)
    my_index ← get_index guard
    for_each payload.commitments
        λ given w. (verify_commitment transaction payload.signed hints my_index w.peers given, w)

  -- Whether a relayed commitment is new and signed by its guard.
  abbrev pub is_new : String → List Slot → MultiSig σ → SignedCommitment → Result Bool
  is_new tx_id slots w given = elim (saved_at given.index slots) [
    | some _ ↦ ok false
    | none ↦
        verify_sign guard given.sign given.index (guard.stringify_relayed tx_id given.commitment) w
  ]

  -- `filter`, where the test may raise.
  abbrev pub filter_result :
      (SignedCommitment → Result Bool) → List SignedCommitment → Result (List SignedCommitment)
  filter_result p [] = ok []
  filter_result p (x ∷ xs) =
      continue_with (p x)
        λ kept. continue_with (filter_result p xs) λ rest. ok (if kept then x ∷ rest else rest)

  abbrev pub commit_all : List SignedCommitment → TxQueued σ → TxQueued σ
  commit_all [] transaction = transaction
  commit_all (given ∷ rest) transaction =
      commit_all rest (commit given.index given.commitment given.sign transaction)

  unfoldable pub new_commitments :
      SignPayload → List Slot → MultiSig σ → Result (List SignedCommitment)
  new_commitments payload slots w = filter_result (is_new payload.tx_id slots w) payload.commitments

  -- How many signed, without this guard.
  abbrev pub others_count : String → List String → ℕ
  others_count my_pub keys = length (select (λ key. not (key == my_pub)) keys)

  unfoldable pub is_better : String → List String → Option (Sign σ) → Bool
  is_better my_pub signed none = true
  is_better my_pub signed (some sign) =
      ltb (others_count my_pub sign.signed) (others_count my_pub signed)

  abbrev pub sign_of : SignPayload → List Signer → Sign σ
  sign_of payload peers = record {
    signed = guard_keys_of peers payload.signed;
    simulated = guard_keys_of peers payload.simulated;
    transaction = σ.from_base64 payload.tx;
  }

  -- The signature of the queue after a message.
  unfoldable pub update_sign :
      String → SignPayload → List Signer → Option (Sign σ) → Option (Sign σ)
  update_sign my_pub payload peers stored =
      if is_better my_pub (guard_keys_of peers payload.signed) stored
      then some (sign_of payload peers)
      else stored

  abbrev pub needs_my_sign : String → ℕ → Option (Sign σ) → Bool
  needs_my_sign my_pub required none = false
  needs_my_sign my_pub required (some sign) =
      not (includes my_pub sign.signed)
      && not (includes my_pub sign.simulated)
      && ltb (length sign.signed) required

  abbrev pub sign_if_needed : String → String → TxQueued σ → Action (MultiSig σ) (Unit {0})
  sign_if_needed my_pub tx_id transaction =
      if needs_my_sign my_pub transaction.required_signer transaction.sign
      then generate_sign guard tx_id
      else pure tt

  unfoldable pub keep_sign :
      String → TxQueued σ → String → Option (Sign σ) → Action (MultiSig σ) (Unit {0})
  keep_sign tx_id transaction my_pub sign = do
    put tx_id (record transaction { sign = sign })
    sign_if_needed my_pub tx_id (record transaction { sign = sign })

  unfoldable pub store_sign : SignPayload → TxQueued σ → String → Action (MultiSig σ) (Unit {0})
  store_sign payload transaction my_pub = do
    sign ← gets λ w. update_sign my_pub payload w.peers transaction.sign
    keep_sign payload.tx_id transaction my_pub sign

  unfoldable pub receive_sign : SignPayload → TxQueued σ → Action (MultiSig σ) (Unit {0})
  receive_sign payload transaction = do
    verify_signed_payload transaction payload
    adopted ← λ w. (new_commitments payload transaction.commitments w, w)
    put payload.tx_id (commit_all adopted transaction)
    my_index ← get_index guard
    my_pub ← λ w. (key_at w.peers my_index, w)
    store_sign payload (commit_all adopted transaction) my_pub
    process_resolve guard payload.tx_id

  unfoldable pub handle_sign : SignPayload → Action (MultiSig σ) (Unit {0})
  handle_sign payload =
      if payload.tx_id == ""
      then pure tt
      else get_queued_transaction guard payload.tx_id
          λ transaction. attempt (receive_sign payload transaction)

  unfoldable pub dispatch : String → ℕ → String → Payload → Action (MultiSig σ) (Unit {0})
  dispatch sender index sign (register nonce my_id) = handle_register guard sender index nonce
  dispatch sender index sign (approve nonce nonce_to_sign my_id) =
      handle_approve guard sender index nonce nonce_to_sign my_id
  dispatch sender index sign (commitment tx_id c) = handle_commitment guard index tx_id c sign
  dispatch sender index sign (Payload.sign payload) = handle_sign payload

  abbrev pub handle_signed : String → ℕ → CommunicationMessage → Action (MultiSig σ) (Unit {0})
  handle_signed sender index message = do
    verified ← λ w. (
      verify_sign guard message.sign index (guard.stringify message.payload index message.id) w,
      w,
    )
    if verified then dispatch sender index message.sign message.payload else pure tt

  abbrev pub is_admitted : ℕ → CommunicationMessage → MultiSig σ → Bool
  is_admitted index message w =
      ltb index (length w.peers) && not (message.id == "") && not (message.sign == "")

  abbrev pub handle_from : String → ℕ → CommunicationMessage → Bool → Action (MultiSig σ) (Unit {0})
  handle_from sender index message valid =
      if valid
      then (if sender == message.id then handle_signed sender index message else pure tt)
      else pure tt

  abbrev pub admit : String → CommunicationMessage → Option ℕ → Action (MultiSig σ) (Unit {0})
  admit sender message none = pure tt
  admit sender message (some index) = do
    valid ← gets (is_admitted index message)
    handle_from sender index message valid

  unfoldable pub handle_message : String → String → Action (MultiSig σ) (Unit {0})
  handle_message message_str sender = do
    is_peers_initiated
    message ← lift (guard.parse_message message_str)
    admit sender message message.index
