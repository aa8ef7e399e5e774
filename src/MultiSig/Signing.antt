-- ===== src/MultiSig/Signing.antt =====
-- Signing in src/guard/multisig/MultiSigHandler.ts: generateSign, processResolve and
-- delayedGenerateSign, with the hints of MultiSigUtils.ts. A signature over the transaction grows
-- by one guard at a time; the guards that do not take part are simulated.
use ts_gaurd_service.Base.{
  ℕ, zero, suc, Bool, true, false, not, ◌&&◌, ◌||◌, Option, none, some, List, [], ◌∷◌, ◌++◌, map,
  String, if◌then◌else◌, ltb, leb, ◌==◌, nat_eq, string_eq, length, any, select, Action, Result, ok,
  err, null_reference, pure, lift, attempt, ◌>>=◌, ◌>>◌, delete,
}
use ts_gaurd_service.Base.Results.{continue_with}
use ts_gaurd_service.MultiSig.{
  Sigma, Signer, Slot, hole, absent, committed, SignedCommitment, SignPayload, Payload, Sign,
  TxQueued, Outcome, resolved, invalid_sign, MultiSig, Cosigner, key_at, ids_of, get_index,
}
use ts_gaurd_service.MultiSig.Commitments.{
  PublishedCommitment, convert_to_hint_json, convert_hint_json_to_published_commitment_for_guard,
  upto,
}
use ts_gaurd_service.MultiSig.Queue.{
  is_committed, change, put, report, with_transaction, send_to_peers, get_queued_transaction,
}

-- `indexOf(key) !== -1`
abbrev pub includes : String → List String → Bool
includes key = any λ k. k == key

abbrev pub is_absent : Slot → Bool
is_absent hole = false
is_absent absent = true
is_absent (committed _) = false

-- The keys of the peers whose element passes the test; there has to be a peer for each of those.
unfoldable pub keys_where : (Slot → Bool) → List Slot → List Signer → Result (List String)
keys_where p [] peers = ok []
keys_where p (slot ∷ slots) [] = if p slot then err null_reference else keys_where p slots []
keys_where p (slot ∷ slots) (peer ∷ peers) =
    continue_with (keys_where p slots peers)
      λ rest. ok (if p slot then peer.pub_key ∷ rest else rest)

abbrev pub others_than : String → List String → List String
others_than my_pub = select λ key. not (key == "") && not (key == my_pub)

abbrev pub drop : ℕ → List String → List String
drop zero xs = xs
drop (suc n) [] = []
drop (suc n) (x ∷ xs) = drop n xs

abbrev pub last : List String → List String
last [] = []
last (x ∷ []) = x ∷ []
last (x ∷ y ∷ ys) = last (y ∷ ys)

-- The guards that committed and are more than the signers needed; `slice(-1)` where none is needed.
abbrev pub extra_committed : ℕ → List String → List String
extra_committed zero keys = last keys
extra_committed (suc needed) keys = if ltb needed (length keys) then drop needed keys else []

module _ (σ : Sigma) where
  open σ use {ReducedTx, Tx, Box, Hints, Context, Bytes}

  -- What a guard signs with.
  pub record Start : Type 0 where
    pub hints : Hints
    pub signed : List String
    pub simulated : List String

  unfoldable pub public_key_to_proposition : List String → List σ.Proposition
  public_key_to_proposition = map σ.proposition_of_key

  abbrev pub add_hints_of : List ℕ → Hints → Hints → Hints
  add_hints_of [] current new = current
  add_hints_of (i ∷ is) current new =
      add_hints_of is (σ.add_hints_for_input i (σ.all_hints_for_input i new) current) new

  unfoldable pub add_hints : Hints → Hints → ReducedTx → Hints
  add_hints current new tx = add_hints_of (upto 0 (σ.reduced_inputs tx)) current new

  unfoldable pub convert_to_hint_bag : PublishedCommitment → String → Result Hints
  convert_to_hint_bag commitments pub_key = σ.from_json (convert_to_hint_json commitments pub_key)

  unfoldable pub convert_hint_bag_to_published_commitment_for_guard :
      Hints → String → ℕ → Result PublishedCommitment
  convert_hint_bag_to_published_commitment_for_guard extracted guard_pk input_count =
      convert_hint_json_to_published_commitment_for_guard (σ.to_json extracted) guard_pk input_count

  -- The loop over the inputs, which stops at the first that does not verify.
  unfoldable pub some_invalid : Context → Tx → List Box → List Box → List ℕ → Result Bool
  some_invalid context tx boxes data_boxes [] = ok false
  some_invalid context tx boxes data_boxes (i ∷ is) =
      let rest = some_invalid context tx boxes data_boxes is in
      continue_with (σ.verify_tx_input_proof i context tx boxes data_boxes)
        λ valid. if valid then rest else ok true

  -- The commitments of peers that neither signed nor are simulated become hints.
  unfoldable pub collect_hints :
      ReducedTx → List String → List Slot → List Signer → Hints → Result Hints
  collect_hints tx used [] peers hints = ok hints
  collect_hints tx used (slot ∷ slots) [] hints = ok hints
  collect_hints tx used (hole ∷ slots) (peer ∷ peers) hints =
      collect_hints tx used slots peers hints
  collect_hints tx used (absent ∷ slots) (peer ∷ peers) hints =
      collect_hints tx used slots peers hints
  collect_hints tx used (committed c ∷ slots) (peer ∷ peers) hints =
      continue_with
        (if includes peer.pub_key used
          then ok hints
          else continue_with (convert_to_hint_bag c peer.pub_key)
              λ new. ok (add_hints hints new tx))
        λ hints'. collect_hints tx used slots peers hints'

-- The commitments that came with a signature, with their positions from `i`.
unfoldable pub relayed : ℕ → List Slot → List String → List SignedCommitment
relayed i (committed c ∷ slots) (s ∷ signs) =
    if s == ""
    then relayed (suc i) slots signs
    else record { index = i; commitment = c; sign = s } ∷ relayed (suc i) slots signs
relayed i (hole ∷ slots) (s ∷ signs) = relayed (suc i) slots signs
relayed i (absent ∷ slots) (s ∷ signs) = relayed (suc i) slots signs
relayed i _ _ = []

module _ {σ : Sigma} (guard : Cosigner σ) where
  unfoldable pub extract_hints :
      σ.Tx → List σ.Box → List σ.Box → List String → List String → Result σ.Hints
  extract_hints tx boxes data_boxes signed simulated = continue_with guard.state_context λ context.
      σ.extract_hints tx context boxes data_boxes (public_key_to_proposition σ signed)
        (public_key_to_proposition σ simulated)

  abbrev pub continue_sign : String → TxQueued σ → Sign σ → Result (Option (Start σ))
  continue_sign my_pub transaction sign =
      if includes my_pub sign.signed
      then ok none
      else continue_with (σ.parse sign.transaction) λ tx.
        continue_with
          (extract_hints tx transaction.boxes transaction.data_boxes sign.signed sign.simulated)
          λ hints. ok (
            some
              (record { hints = hints; signed = my_pub ∷ sign.signed; simulated = sign.simulated }))

  abbrev pub first_sign : String → TxQueued σ → List Signer → Result (Option (Start σ))
  first_sign my_pub transaction peers =
      continue_with (keys_where is_absent transaction.commitments peers) λ uncommitted.
        continue_with (keys_where is_committed transaction.commitments peers) λ with_commitment.
          ok (
            some (record {
              hints = σ.no_hints;
              signed = my_pub ∷ [];
              simulated =
                  others_than my_pub uncommitted
                  ++ extra_committed transaction.required_signer
                      (guard.shuffle (others_than my_pub with_commitment));
            }))

  -- None where this guard has signed already.
  unfoldable pub start_sign : String → TxQueued σ → List Signer → Result (Option (Start σ))
  start_sign my_pub transaction peers = elim transaction.sign [
    | none ↦ first_sign my_pub transaction peers
    | some sign ↦ continue_sign my_pub transaction sign
  ]

  abbrev pub receivers : Bool → List String → List Signer → List String
  receivers completed simulated peers =
      ids_of (select (λ (peer : Signer). not (includes peer.pub_key simulated) || completed) peers)

  abbrev pub sign_payload : σ.Tx → Bool → Start σ → TxQueued σ → SignPayload
  sign_payload signed_tx completed start transaction = record {
    tx = σ.to_base64 (σ.serialize signed_tx);
    tx_id = σ.tx_id signed_tx;
    signed = start.signed;
    simulated = start.simulated;
    commitments =
        if completed then [] else relayed 0 transaction.commitments transaction.commitment_signs;
  }

  abbrev pub with_sign : σ.Tx → Start σ → TxQueued σ → TxQueued σ
  with_sign signed_tx start transaction = record transaction {
    sign = some (record {
      signed = start.signed;
      simulated = start.simulated;
      transaction = σ.serialize signed_tx;
    });
  }

  abbrev pub publish_sign : String → σ.Tx → Start σ → TxQueued σ → Action (MultiSig σ) (Unit {0})
  publish_sign id signed_tx start transaction =
      let completed = leb transaction.required_signer (length start.signed) in
      do
        send_to_peers guard (Payload.sign (sign_payload signed_tx completed start transaction))
            (receivers completed start.simulated)
        put id (with_sign signed_tx start transaction)

  -- A raise of the library's `sign` is caught.
  unfoldable pub sign_with :
      String → σ.ReducedTx → σ.Hints → TxQueued σ → Start σ → Action (MultiSig σ) (Unit {0})
  sign_with id tx secret transaction start = do
    hints ← λ w. (
      collect_hints σ tx (start.signed ++ start.simulated) transaction.commitments w.peers
          (add_hints σ start.hints secret tx),
      w,
    )
    elim (σ.sign_multi tx hints) [
      | err _ ↦ pure tt
      | ok signed_tx ↦ publish_sign id signed_tx start transaction
    ]

  unfoldable pub generate_own_sign :
      String → σ.ReducedTx → σ.Hints → TxQueued σ → Action (MultiSig σ) (Unit {0})
  generate_own_sign id tx secret transaction = do
    my_index ← get_index guard
    my_pub ← λ w. (key_at w.peers my_index, w)
    start ← λ w. (start_sign my_pub transaction w.peers, w)
    elim start [ none ↦ pure tt | some s ↦ sign_with id tx secret transaction s ]

  unfoldable pub generate_sign : String → Action (MultiSig σ) (Unit {0})
  generate_sign id = with_transaction id λ transaction. elim transaction.tx [
    | none ↦ pure tt
    | some tx ↦ elim transaction.secret [
      | none ↦ pure tt
      | some secret ↦ generate_own_sign id tx secret transaction
    ]
  ]

  abbrev pub settle : Option ℕ → (ℕ → Outcome σ) → Action (MultiSig σ) (Unit {0})
  settle none outcome = pure tt
  settle (some promise) outcome = report (outcome promise)

  abbrev pub cleared : TxQueued σ → TxQueued σ
  cleared transaction = record transaction { tx = none; sign = none; reject = none; resolve = none }

  unfoldable pub resolve_signed : String → TxQueued σ → Sign σ → Action (MultiSig σ) (Unit {0})
  resolve_signed id transaction sign = do
    signed ← lift (σ.parse sign.transaction)
    context ← lift guard.state_context
    rejected ← lift (
        some_invalid σ context signed transaction.boxes transaction.data_boxes
          (upto 0 (σ.inputs signed)))
    if rejected
        then settle transaction.reject (λ promise. invalid_sign promise signed)
        else settle transaction.resolve (λ promise. resolved promise signed)
    put id (cleared transaction)
    change λ w. record w { transactions = delete (σ.tx_id signed) w.transactions }

  unfoldable pub process_resolve : String → Action (MultiSig σ) (Unit {0})
  process_resolve id = with_transaction id λ transaction. elim transaction.sign [
    | none ↦ pure tt
    | some sign ↦
        if leb transaction.required_signer (length sign.signed)
        then resolve_signed id transaction sign
        else pure tt
  ]

  -- When the delay of a timer is over.
  unfoldable pub delayed_generate_sign : String → Action (MultiSig σ) (Unit {0})
  delayed_generate_sign id =
      get_queued_transaction guard id λ _. attempt do generate_sign id; process_resolve id
