-- ===== src/Tests/MultiSig.antt =====
-- The signing of src/guard/multisig at concrete inputs.
use ts_gaurd_service.Base.{
  err, sym, ap, ◌<◌, ◌≡◌, ◌≢◌, ◌⊎◌, Error, signing_failed, refl, ℕ, zero, suc, ◌++◌, arith, get,
  set, delete, Bool, true, false, ◌&&◌, ◌||◌, none, some, List, [], ◌∷◌, String, if◌then◌else◌,
  ◌==◌, string_eq, ok, Result,
}
use ts_gaurd_service.MultiSig.{
  Sigma, Payload, register, approve, commitment, absent, SignPayload, CommunicationMessage,
  resolved, failed, MultiSig, Cosigner, Signer, get_elem?, create, unknown_peer, is_peers_initiated,
  verify_sign, verify_index, get_index, get_peer_id, index_of_key, send_message, send_register,
  handle_approve, accept_approval,
}
use ts_gaurd_service.MultiSig.Commitments.{
  PublishedCommitment, CommitmentJson, compare_published_commitments_to_be_differ,
  convert_to_hint_json, at_input, is_nil, SingleCommitment,
  generated_commitment_to_publish_commitment,
}
use ts_gaurd_service.MultiSig.Calls.{
  clean, Call, received, asked, timer, register_again, call, after_calls,
}
use ts_gaurd_service.MultiSig.Stuck.{IsStuck, after_calls-sign-IsStuck}
use ts_gaurd_service.MultiSig.Relayed.{IsSentBy, new_commitments-nil}
use ts_gaurd_service.MultiSig.Sound.{IsSound}
use ts_gaurd_service.MultiSig.Histories.{calls-IsSound}
use ts_gaurd_service.MultiSig.Directory.{view, Changes}
use ts_gaurd_service.MultiSig.Refinement.{call-Refines}
use ts_gaurd_service.MultiSig.Handshake.{
  HasKnown, hello, reply, thanks, registering, challenging, caller, answerer, handshake-HasKnown,
}
use ts_gaurd_service.MultiSig.Comparison.{has}
use ts_gaurd_service.MultiSig.RoundTrip.{HasInputs, SameInputs, convert-convert_to_hint_bag}
use ts_gaurd_service.Base.Results.{ok-injective}
use ts_gaurd_service.MultiSig.Queue.{
  get_queued_transaction, generate_commitment, send_to_peers, take_commitment, handle_commitment,
  sign,
}
use ts_gaurd_service.MultiSig.Signing.{
  delayed_generate_sign, generate_sign, generate_own_sign, start_sign, keys_where, sign_with,
  collect_hints, add_hints, convert_to_hint_bag, convert_hint_bag_to_published_commitment_for_guard,
  relayed, process_resolve, resolve_signed, some_invalid,
}
use ts_gaurd_service.MultiSig.Messages.{handle_message, dispatch, new_commitments}

-- A ledger on which texts stand for transactions, and any transaction is proven.
abbrev test_sigma : Sigma
test_sigma = record {
  ReducedTx = String;
  Tx = String;
  Box = String;
  Hints = CommitmentJson;
  InputHints = Unit {0};
  Proposition = String;
  Context = Unit {0};
  Bytes = String;
  reduced_id = λ tx. tx;
  reduced_inputs = λ _. 1;
  generate_commitments = λ _. ok (record { secret_hints = []; public_hints = (0, []) ∷ [] });
  to_json = λ hints. hints;
  from_json = λ hints. ok hints;
  no_hints = record { secret_hints = []; public_hints = [] };
  all_hints_for_input = λ _ _. tt;
  add_hints_for_input = λ _ _ hints. hints;
  proposition_of_key = λ key. key;
  extract_hints = λ _ _ _ _ _ _. ok (record { secret_hints = []; public_hints = [] });
  sign_multi = λ tx _. ok tx;
  parse = λ bytes. ok bytes;
  serialize = λ tx. tx;
  tx_id = λ tx. tx;
  inputs = λ _. 1;
  verify_tx_input_proof = λ _ _ _ _ _. ok true;
  to_base64 = λ bytes. bytes;
  from_base64 = λ text. text;
}

-- A key's signature is that key with an `s`.
abbrev test_verify : String → String → String → Bool
test_verify text signature key = key == "a" && signature == "sa" || key == "b" && signature == "sb"

abbrev test_cosigner :
    String → String → String → String → (String → Result CommunicationMessage) → Cosigner test_sigma
test_cosigner key id random signature parse = record {
  public_key = key;
  dialer_id = id;
  now = 1000;
  random = random;
  shuffle = λ keys. keys;
  tx_sign_timeout = 60;
  state_context = ok tt;
  stringify = λ _ _ sender. sender;
  stringify_relayed = λ tx_id _. tx_id;
  parse_message = parse;
  sign_data = λ _. signature;
  verify_data = test_verify;
  is_after = λ _ _. false;
}

abbrev message : Payload → ℕ → String → String → CommunicationMessage
message payload index id signature = record {
  payload = payload;
  index = some index;
  id = id;
  sign = signature;
}

abbrev commitments : PublishedCommitment
commitments = (0, record { a = "c"; position = "0-0" } ∷ []) ∷ []

-- What two guards, at 0 and 1, receive.
abbrev parse_a : String → Result CommunicationMessage
parse_a text =
    if text == "approve"
    then ok (message (approve "ra" "rb" "B") 1 "B" "sb")
    else ok (message (commitment "tx" commitments) 1 "B" "sb")

abbrev parse_b : String → Result CommunicationMessage
parse_b text =
    if text == "register"
    then ok (message (register "ra" "A") 0 "A" "sa")
    else ok (message (approve "rb" "" "A") 0 "A" "sa")

abbrev guard_a : Cosigner test_sigma
guard_a = test_cosigner "a" "A" "ra" "sa" parse_a

abbrev guard_b : Cosigner test_sigma
guard_b = test_cosigner "b" "B" "rb" "sb" parse_b

abbrev keys : List String
keys = "a" ∷ "b" ∷ []

-- A guard is asked for a signature, gets the commitment of the other, and signs when the delay is over.
abbrev history : List (Call test_sigma)
history =
    register_again guard_a
    ∷ asked guard_a 7 "tx" 1 ("box" ∷ []) none
    ∷ received guard_a "commitment" "B"
    ∷ timer guard_a 0
    ∷ []

-- The caller is given the transaction.
history_outcomes : (after_calls history (create guard_a keys)).outcomes ≡ resolved 7 "tx" ∷ []
unfolding handle_message is_peers_initiated verify_sign dispatch handle_commitment
    get_queued_transaction take_commitment sign generate_commitment send_to_peers send_message
    get_index index_of_key generated_commitment_to_publish_commitment delayed_generate_sign
    generate_sign generate_own_sign start_sign keys_where sign_with collect_hints add_hints
    convert_to_hint_bag convert_to_hint_json relayed process_resolve resolve_signed some_invalid
    send_register get set delete get_peer_id
history_outcomes = refl

calls-IsSound_example : IsSound test_sigma (after_calls history (create guard_a keys))
calls-IsSound_example = calls-IsSound history (create guard_a keys) (tt, tt, tt)

abbrev registered : MultiSig test_sigma
registered = after_calls (register_again guard_a ∷ []) (create guard_a keys)

call-Refines_example :
    Changes guard_a (view registered) (view (call (received guard_a "approve" "B") registered).1)
call-Refines_example = call-Refines (received guard_a "approve" "B") registered

-- The approval confirms the id of the guard at 1.
confirmed_id :
    (call (received guard_a "approve" "B") registered).1.peers
    ≡ unknown_peer "a" ∷ record { id = some "B"; pub_key = "b"; unapproved = [] } ∷ []
unfolding handle_message is_peers_initiated verify_sign dispatch handle_approve accept_approval
    verify_index send_message get_index index_of_key send_register
confirmed_id = refl

abbrev wire : CommunicationMessage → String
wire m = elim m.payload [
  | register _ _ ↦ "register"
  | approve _ _ _ ↦ "approve"
  | commitment _ _ ↦ "commitment"
  | Payload.sign _ ↦ "sign"
]

abbrev state_of : ℕ → Cosigner test_sigma → MultiSig test_sigma
state_of i guard = record (create guard keys) { index = some i }

handshake-HasKnown_example :
    HasKnown (caller guard_a guard_b wire 1 (state_of 0 guard_a)) 1 "B"
    × HasKnown (answerer guard_a guard_b wire 0 (state_of 1 guard_b)) 0 "A"
    × ((registering guard_a guard_b wire (state_of 0 guard_a)).sent
        ≡ record { message = hello guard_a guard_b wire 0; receiver = none } ∷ [])
    × ((challenging guard_a guard_b wire 0 (state_of 1 guard_b)).sent
        ≡ record { message = reply guard_a guard_b wire 1; receiver = some "A" } ∷ [])
    × ((caller guard_a guard_b wire 1 (state_of 0 guard_a)).sent
        ≡ (registering guard_a guard_b wire (state_of 0 guard_a)).sent
          ++ record { message = thanks guard_a guard_b wire 0; receiver = some "B" } ∷ [])
unfolding get_peer_id
handshake-HasKnown_example =
    handshake-HasKnown guard_a guard_b wire (state_of 0 guard_a) (state_of 1 guard_b) 0 1
      (unknown_peer "a") (unknown_peer "b") refl refl refl (refl, refl, λ text. refl)
      (refl, refl, λ text. refl) refl refl refl refl (λ payload. refl) λ payload. refl

one_input : HasInputs commitments 1
unfolding at_input
one_input zero h = (record { a = "c"; position = "0-0" } ∷ [], refl)
one_input (suc i) h = absurd (omega arith)

convert-convert_to_hint_bag_example :
    (c' : PublishedCommitment) × (convert_hint_bag_to_published_commitment_for_guard test_sigma
        (convert_to_hint_json commitments "b")
        "b"
        1
      ≡ ok c')
    × SameInputs c' commitments 1
    × (compare_published_commitments_to_be_differ (λ _ _. false) commitments c' 1 ≡ false)
    × ((d : PublishedCommitment) (i : ℕ) (a : String) (ys xs : List SingleCommitment)
        → i < 1
        → at_input i d ≡ some ys
        → at_input i commitments ≡ some xs
        → has a ys ≡ true
        → has a xs ≡ false
        → has "" xs ≡ false
        → is_nil (λ _ _. false) xs ≡ false
        → compare_published_commitments_to_be_differ (λ _ _. false) d c' 1 ≡ true)
unfolding convert_to_hint_bag
convert-convert_to_hint_bag_example =
    convert-convert_to_hint_bag test_sigma (λ _ _. false) commitments "b" 1
      (convert_to_hint_json commitments "b") one_input refl
      (λ read e i.
        ap (λ (json : CommitmentJson). at_input i json.public_hints) (sym (ok-injective e)))

-- Where no commitment is made.
abbrev silent_sigma : Sigma
silent_sigma = record test_sigma { generate_commitments = λ _. err signing_failed }

abbrev silent_guard : Cosigner silent_sigma
silent_guard = record {
  public_key = "a";
  dialer_id = "A";
  now = 1000000;
  random = "ra";
  shuffle = λ keys. keys;
  tx_sign_timeout = 60;
  state_context = ok tt;
  stringify = λ _ _ sender. sender;
  stringify_relayed = λ tx_id _. tx_id;
  parse_message = parse_a;
  sign_data = λ _. "sa";
  verify_data = test_verify;
  is_after = λ _ _. false;
}

-- A job that signs, and one that cleans long after.
abbrev asking : MultiSig silent_sigma
asking = (sign silent_guard 7 "tx" 1 ("box" ∷ []) none (create silent_guard keys)).1

after_calls-sign-IsStuck_example :
    (asking.outcomes ≡ failed 7 ∷ [])
    × IsStuck asking (after_calls (clean silent_guard ∷ []) asking)
unfolding get
after_calls-sign-IsStuck_example =
    after_calls-sign-IsStuck silent_guard 7 "tx" 1 ("box" ∷ []) none (create silent_guard keys)
      signing_failed (clean silent_guard ∷ []) refl refl refl refl

abbrev relayed_text : String
relayed_text = "relayed"

abbrev signed_text : String
signed_text = "signed"

-- A guard of which a signature is the text itself.
abbrev plain_guard : String → String → Cosigner test_sigma
plain_guard key id = record guard_a {
  public_key = key;
  dialer_id = id;
  stringify = λ _ _ _. signed_text;
  stringify_relayed = λ _ _. relayed_text;
  sign_data = λ text. text;
  verify_data = λ text signature _. text == signature;
}

abbrev plain_guards : ℕ → Cosigner test_sigma
plain_guards zero = plain_guard "a" "A"
plain_guards (suc i) = plain_guard "b" "B"

abbrev sent_message : CommunicationMessage
sent_message = message (commitment "tx" commitments) 1 "B" signed_text

abbrev relaying : SignPayload
relaying = record {
  tx = "tx";
  tx_id = "tx";
  signed = "b" ∷ [];
  simulated = [];
  commitments = record { index = 1; commitment = commitments; sign = signed_text } ∷ [];
}

-- A text is not another.
relayed_is_other : relayed_text ≢ signed_text
relayed_is_other e = cc

plain_other :
    (c : PublishedCommitment) (sender : ℕ) (p : Payload) (index : ℕ)
    → relayed_text ≢ (plain_guards sender).stringify p index (plain_guards sender).dialer_id
plain_other c zero p index = relayed_is_other
plain_other c (suc i) p index = relayed_is_other

plain_keys :
    (i : ℕ) (peer : Signer)
    → get_elem? (create (plain_guard "a" "A") keys).peers i ≡ some peer
    → peer.pub_key ≡ (plain_guards i).public_key
plain_keys zero peer e = ap (λ o. elim o [ none ↦ "" | some p ↦ p.pub_key ]) (sym e)
plain_keys (suc zero) peer e = ap (λ o. elim o [ none ↦ "" | some p ↦ p.pub_key ]) (sym e)
plain_keys (suc (suc i)) peer e = cc

plain_only :
    (i : ℕ) (text other : String) → (text == (plain_guards i).sign_data other) ≡ true → text ≡ other
plain_only zero text other e = (string_eq.beq_iff text other).0 e
plain_only (suc i) text other e = (string_eq.beq_iff text other).0 e

-- The guard at 1 sends its commitment to the guard at 0.
plain_sent : IsSentBy (plain_guards 1) (commitment "tx" commitments) sent_message
unfolding send_message get_index index_of_key get_peer_id
plain_sent = ("A" ∷ [], create (plain_guard "b" "B") keys, some "A", [], refl)

new_commitments-nil_example :
    (new_commitments
        (plain_guard "a" "A")
        relaying
        (absent ∷ absent ∷ [])
        (create (plain_guard "a" "A") keys)
      ≡ ok [])
    ⊎ ((e : Error) × (new_commitments
            (plain_guard "a" "A")
            relaying
            (absent ∷ absent ∷ [])
            (create (plain_guard "a" "A") keys)
          ≡ err e))
new_commitments-nil_example =
    new_commitments-nil (plain_guard "a" "A") plain_guards relaying (absent ∷ absent ∷ [])
      (create (plain_guard "a" "A") keys) plain_other plain_keys plain_only
      ((sent_message, "tx", commitments, plain_sent, refl), tt)
