-- ===== src/MultiSig.antt =====
-- MultiSigHandler of src/guard/multisig/MultiSigHandler.ts: guards gather a transaction's
-- signatures from each other. This module has the messages and what makes guards know each other,
-- over the data of Data; Queue, Signing and Messages have the handlers of a transaction. One
-- message, call or timer is one step. An object of the queue is what stands under its id. What the
-- ledger library does is a parameter (Sigma), and so are keys, clock, encryption and JSON
-- (Cosigner). A sent message leaves the step, and whether the dialer raises is not seen.
pub mod Commitments
pub mod Queue
pub mod Signing
pub mod Messages
pub mod Calls
pub mod Frames
pub mod Kept
pub mod Sound
pub mod Invariant
pub mod Handlers
pub mod Histories
pub mod Comparison
pub mod RoundTrip
pub mod Directory
pub mod Refinement
pub mod Handshake
pub mod Stuck
pub mod Relayed
mod Data
pub use Data.*
use ts_gaurd_service.Base.{
  ℕ, zero, suc, Bool, true, false, not, ◌&&◌, Option, none, some, List, [], ◌∷◌, ◌++◌, map, String,
  if◌then◌else◌, ltb, ◌==◌, nat_eq, string_eq, length, select, Action, Result, ok, err,
  null_reference, peers_not_initiated, pure, raise, lift, or_raise, attempt, ◌>>=◌, ◌>>◌, Map,
}
use Commitments.{CommitmentJson, PublishedCommitment}

abbrev pub get_elem? : {A : Type 0} → List A → ℕ → Option A
get_elem? [] i = none
get_elem? (x ∷ xs) zero = some x
get_elem? (x ∷ xs) (suc i) = get_elem? xs i

abbrev pub update_at : {A : Type 0} → ℕ → (A → A) → List A → List A
update_at i f [] = []
update_at zero f (x ∷ xs) = f x ∷ xs
update_at (suc i) f (x ∷ xs) = x ∷ update_at i f xs

abbrev pub unknown_peer : String → Signer
unknown_peer key = record { id = none; pub_key = key; unapproved = [] }

-- The ids of peers, as a list of receivers has them.
abbrev pub id_or_empty : Option String → String
id_or_empty none = ""
id_or_empty (some id) = id

abbrev pub ids_of : List Signer → List String
ids_of peers = select (λ id. not (id == "")) (map (λ (peer : Signer). id_or_empty peer.id) peers)

unfoldable pub index_of_key : String → List Signer → Option ℕ
index_of_key key [] = none
index_of_key key (peer ∷ peers) =
    if peer.pub_key == key
    then some 0
    else elim (index_of_key key peers) [ none ↦ none | some i ↦ some (suc i) ]

abbrev pub key_at : List Signer → ℕ → Result String
key_at peers i = elim (get_elem? peers i) [
  | none ↦ err null_reference
  | some peer ↦ ok peer.pub_key
]

abbrev pub is_challenge : String → String → ApproveSigner → Bool
is_challenge sender nonce item = item.id == sender && item.challenge == nonce

-- The peer that an approval is by, if it answers one of its challenges.
abbrev pub answered : String → String → Signer → Bool
answered sender nonce peer = not (length (select (is_challenge sender nonce) peer.unapproved) == 0)

abbrev pub approved : String → String → Signer → Signer
approved sender nonce peer = record peer {
  id = some sender;
  unapproved = select (λ item. not (is_challenge sender nonce item)) peer.unapproved;
}

abbrev pub found : String → Signer → Signer
found sender peer = record peer { id = some sender }

abbrev pub is_my_nonce : Option String → String → Bool
is_my_nonce none nonce = false
is_my_nonce (some mine) nonce = mine == nonce

unfoldable pub accept_approval : Option String → String → String → Signer → Signer
accept_approval mine sender nonce peer =
    if answered sender nonce peer
    then approved sender nonce peer
    else if is_my_nonce mine nonce
    then found sender peer
    else peer

module _ {σ : Sigma} where
  unfoldable pub is_peers_initiated : Action (MultiSig σ) (Unit {0})
  is_peers_initiated w = if length w.peers == 0 then raise peers_not_initiated w else pure tt w

  unfoldable pub verify_index : ℕ → MultiSig σ → Bool
  verify_index index w = ltb index (length w.peers)

module _ {σ : Sigma} (guard : Cosigner σ) where
  abbrev pub create : List String → MultiSig σ
  create public_keys = record {
    transactions = [];
    peers = map unknown_peer public_keys;
    nonce = none;
    index = none;
    sent = [];
    outcomes = [];
    delayed = [];
    held = false;
  }

  -- Where no key is the guard's own, the code reads an element of `undefined`.
  unfoldable pub get_index : Action (MultiSig σ) ℕ
  get_index w = elim w.index [
    | some i ↦ (ok i, w)
    | none ↦ elim (index_of_key guard.public_key w.peers) [
      | none ↦ (err null_reference, w)
      | some i ↦ (ok i, record w { index = some i })
    ]
  ]

  unfoldable pub get_peer_id : String
  get_peer_id = guard.dialer_id

  unfoldable pub verify_sign : String → ℕ → String → MultiSig σ → Result Bool
  verify_sign sign_base64 guard_index content w = elim (get_elem? w.peers guard_index) [
    | none ↦ err null_reference
    | some peer ↦ ok (guard.verify_data content sign_base64 peer.pub_key)
  ]

  abbrev pub addressed : CommunicationMessage → List String → List Sent
  addressed message [] = record { message = message; receiver = none } ∷ []
  addressed message (r ∷ rs) =
      map (λ receiver. record { message = message; receiver = some receiver }) (r ∷ rs)

  abbrev pub signed_message : Payload → ℕ → CommunicationMessage
  signed_message payload index = record {
    payload = payload;
    index = some index;
    id = get_peer_id;
    sign = guard.sign_data (guard.stringify payload index get_peer_id);
  }

  -- Nobody awaits it, so nobody sees it raise.
  unfoldable pub send_message : Payload → List String → Action (MultiSig σ) (Unit {0})
  send_message payload receivers = attempt do
    index ← get_index
    λ w. (ok tt, record w { sent = w.sent ++ addressed (signed_message payload index) receivers })

  unfoldable pub send_register : Action (MultiSig σ) (Unit {0})
  send_register = do
    λ w. (ok tt, record w { nonce = some guard.random })
    send_message (register guard.random get_peer_id) []

  abbrev pub change_peers : (List Signer → List Signer) → Action (MultiSig σ) (Unit {0})
  change_peers f w = (ok tt, record w { peers = f w.peers })

  unfoldable pub handle_register : String → ℕ → String → Action (MultiSig σ) (Unit {0})
  handle_register sender index nonce w =
      if verify_index index w
      then (do
        change_peers (
            update_at index λ peer. record peer {
              unapproved = peer.unapproved ++ record { id = sender; challenge = guard.random } ∷ [];
            })
        send_message (approve nonce guard.random get_peer_id) (sender ∷ []))
          w
      else pure tt w

  unfoldable pub handle_approve :
      String → ℕ → String → String → String → Action (MultiSig σ) (Unit {0})
  handle_approve sender index nonce nonce_to_sign my_id w =
      if verify_index index w && sender == my_id
      then (do
        change_peers (update_at index (accept_approval w.nonce sender nonce))
        if nonce_to_sign == ""
            then pure tt
            else send_message (approve nonce_to_sign "" get_peer_id) (sender ∷ []))
          w
      else pure tt w

  unfoldable pub handle_public_keys_change : List String → Action (MultiSig σ) (Unit {0})
  handle_public_keys_change public_keys = do
    change_peers λ _. map unknown_peer public_keys
    send_register
