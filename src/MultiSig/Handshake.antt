-- ===== src/MultiSig/Handshake.antt =====
-- The handshake of src/guard/multisig/MultiSigHandler.ts: a registration, its answer and the answer
-- to that.
use ts_gaurd_service.Base.{
  ℕ, zero, suc, ◌≡◌, ◌⊎◌, refl, ap, subst⁻¹, ◌∙◌, inl, inr, true, false, not, none, some, List, [],
  ◌∷◌, ◌++◌, String, ltb, ◌==◌, nat_eq, string_eq, length, select, ok, arith, eq_refl,
}
use ts_gaurd_service.MultiSig.{
  Sigma, Signer, ApproveSigner, register, approve, CommunicationMessage, Payload, Sent, MultiSig,
  Cosigner, get_elem?, update_at, is_peers_initiated, verify_index, get_index, verify_sign,
  get_peer_id, send_message, signed_message, send_register, handle_register, is_challenge, answered,
  is_my_nonce, accept_approval, handle_approve,
}
use ts_gaurd_service.MultiSig.Messages.{dispatch, handle_message}
use ts_gaurd_service.MultiSig.Directory.{challenged, accept-approved}

get_elem?-update_at :
    {A : Type 0} (i : ℕ) (f : A → A) (xs : List A) {x : A}
    → get_elem? xs i ≡ some x
    → get_elem? (update_at i f xs) i ≡ some (f x)
get_elem?-update_at i f [] e = cc
get_elem?-update_at zero f (y ∷ ys) e = ap (λ o. elim o [ none ↦ none | some x ↦ some (f x) ]) e
get_elem?-update_at (suc i) f (y ∷ ys) e = get_elem?-update_at i f ys e

get_elem?-some :
    {A : Type 0} (i : ℕ) (xs : List A) {x : A} → get_elem? xs i ≡ some x → ltb i (length xs) ≡ true
get_elem?-some i [] e = cc
get_elem?-some zero (y ∷ ys) e = ground arith
get_elem?-some (suc i) (y ∷ ys) e = ground (arith, get_elem?-some i ys e)

answered-challenged :
    (id challenge : String) (peer : Signer)
    → answered id challenge (challenged id challenge peer) ≡ true
answered-challenged id challenge peer = go peer.unapproved
  where
    go :
        (items : List ApproveSigner)
        → not (
            length (
              select
                (is_challenge id challenge)
                (items ++ record { id = id; challenge = challenge } ∷ []))
            == 0)
          ≡ true
    go [] = ground (arith, eq_refl id, eq_refl challenge)
    go (x ∷ xs) = ground (arith, go xs)

module _ {σ : Sigma} (guard : Cosigner σ) (message_str : String) (message : CommunicationMessage)
    (w : MultiSig σ) where
  -- A message that is signed by the peer of its index is handled by its type.
  delivered :
      (i : ℕ) (peer : Signer)
      → guard.parse_message message_str ≡ ok message
      → message.index ≡ some i
      → get_elem? w.peers i ≡ some peer
      → (message.id == "") ≡ false
      → (message.sign == "") ≡ false
      → guard.verify_data (guard.stringify message.payload i message.id) message.sign peer.pub_key
        ≡ true
      → handle_message guard message_str message.id w
        ≡ dispatch guard message.id i message.sign message.payload w
  unfolding handle_message is_peers_initiated verify_sign
  delivered i peer parsed indexed there named signed verified =
      let inside : ltb i (length w.peers) ≡ true = get_elem?-some i w.peers there in
      let some_peer : (length w.peers == 0) ≡ false = ground arith in
      rw (some_peer, parsed, indexed, inside, named, signed, eq_refl message.id, there, verified)
        refl

module _ {σ : Sigma} (guard : Cosigner σ) (w : MultiSig σ) (i own : ℕ) (peer : Signer) where
  abbrev sent_to : List Sent → String → Payload → List Sent
  sent_to sent receiver payload =
      sent ++ record { message = signed_message guard payload own; receiver = some receiver } ∷ []

  -- The peer gets a challenge, and is sent it.
  registered :
      (sender nonce : String)
      → w.index ≡ some own
      → get_elem? w.peers i ≡ some peer
      → (get_elem? (handle_register guard sender i nonce w).1.peers i
          ≡ some (challenged sender guard.random peer))
        × ((handle_register guard sender i nonce w).1.index ≡ some own)
        × ((handle_register guard sender i nonce w).1.sent
            ≡ sent_to w.sent sender (approve nonce guard.random guard.dialer_id))
  unfolding handle_register send_message get_index verify_index get_peer_id
  registered sender nonce index there =
      let inside : ltb i (length w.peers) ≡ true = get_elem?-some i w.peers there in
      rw (inside, index)
        (get_elem?-update_at i (challenged sender guard.random) w.peers there, index, refl)

  -- The peer is known by its id.
  accepted :
      (sender nonce nonce_to_sign : String)
      → get_elem? w.peers i ≡ some peer
      → (answered sender nonce peer ≡ true) ⊎ (is_my_nonce w.nonce nonce ≡ true)
      → (known : Signer) × (get_elem?
            (handle_approve guard sender i nonce nonce_to_sign sender w).1.peers
            i
          ≡ some known)
        × (known.id ≡ some sender)
  unfolding handle_approve send_message get_index verify_index
  accepted sender nonce nonce_to_sign there issued =
      let inside : ltb i (length w.peers) ≡ true = get_elem?-some i w.peers there in
      let now = get_elem?-update_at i (accept_approval w.nonce sender nonce) w.peers there in
      (
        accept_approval w.nonce sender nonce peer,
        ground (arith, inside, eq_refl sender, now),
        ap (λ (p : Signer). p.id) (accept-approved w.nonce sender nonce peer issued),
      )

  answers :
      (sender nonce nonce_to_sign : String)
      → w.index ≡ some own
      → get_elem? w.peers i ≡ some peer
      → (nonce_to_sign == "") ≡ false
      → (handle_approve guard sender i nonce nonce_to_sign sender w).1.sent
        ≡ sent_to w.sent sender (approve nonce_to_sign "" guard.dialer_id)
  unfolding handle_approve send_message get_index verify_index get_peer_id
  answers sender nonce nonce_to_sign index there given =
      let inside : ltb i (length w.peers) ≡ true = get_elem?-some i w.peers there in
      rw (inside, eq_refl sender, given, index) refl

module _ {σ : Sigma} where
  -- A guard verifies what the other signed.
  abbrev pub Trusts : Cosigner σ → Cosigner σ → ℕ → String → Type 0
  Trusts g h k key =
      (payload : Payload)
      → g.verify_data (g.stringify payload k h.dialer_id)
          (h.sign_data (h.stringify payload k h.dialer_id)) key
        ≡ true

  -- Ids, random texts and signatures are texts.
  abbrev pub IsNamed : Cosigner σ → Type 0
  IsNamed g =
      ((g.dialer_id == "") ≡ false)
      × ((g.random == "") ≡ false)
      × ((text : String) → (g.sign_data text == "") ≡ false)

  abbrev pub HasKnown : MultiSig σ → ℕ → String → Type 0
  HasKnown w k id = (known : Signer) × (get_elem? w.peers k ≡ some known) × (known.id ≡ some id)

  module _ (a b : Cosigner σ) (wire : CommunicationMessage → String) where
    -- The messages, and the states of the two guards after each.
    abbrev pub hello : ℕ → CommunicationMessage
    hello i = signed_message a (register a.random a.dialer_id) i

    abbrev pub reply : ℕ → CommunicationMessage
    reply j = signed_message b (approve a.random b.random b.dialer_id) j

    abbrev pub thanks : ℕ → CommunicationMessage
    thanks i = signed_message a (approve b.random "" a.dialer_id) i

    abbrev pub registering : MultiSig σ → MultiSig σ
    registering u = (send_register a u).1

    abbrev pub challenging : ℕ → MultiSig σ → MultiSig σ
    challenging i v = (handle_message b (wire (hello i)) a.dialer_id v).1

    abbrev pub caller : ℕ → MultiSig σ → MultiSig σ
    caller j u = (handle_message a (wire (reply j)) b.dialer_id (registering u)).1

    abbrev pub answerer : ℕ → MultiSig σ → MultiSig σ
    answerer i v = (handle_message b (wire (thanks i)) a.dialer_id (challenging i v)).1

    module _ (named : IsNamed a) where
      challenging_lem :
          (i : ℕ) (v : MultiSig σ) (peer : Signer)
          → b.parse_message (wire (hello i)) ≡ ok (hello i)
          → Trusts b a i peer.pub_key
          → get_elem? v.peers i ≡ some peer
          → challenging i v ≡ (handle_register b a.dialer_id i a.random v).1
      unfolding get_peer_id dispatch
      challenging_lem i v peer parsed trusts there =
          ap (λ r. r.1)
            (delivered b (wire (hello i)) (hello i) v i peer parsed refl there named.0 (named.2 _)
              (trusts _))

      answerer_lem :
          (i : ℕ) (v : MultiSig σ) (peer : Signer)
          → b.parse_message (wire (thanks i)) ≡ ok (thanks i)
          → Trusts b a i peer.pub_key
          → get_elem? (challenging i v).peers i ≡ some peer
          → answerer i v
            ≡ (handle_approve b a.dialer_id i b.random "" a.dialer_id (challenging i v)).1
      unfolding get_peer_id dispatch
      answerer_lem i v peer parsed trusts there =
          ap (λ r. r.1)
            (delivered b (wire (thanks i)) (thanks i) (challenging i v) i peer parsed refl there
              named.0 (named.2 _) (trusts _))

    caller_lem :
        (j : ℕ) (u : MultiSig σ) (peer : Signer)
        → a.parse_message (wire (reply j)) ≡ ok (reply j)
        → IsNamed b
        → Trusts a b j peer.pub_key
        → get_elem? (registering u).peers j ≡ some peer
        → caller j u
          ≡ (handle_approve a b.dialer_id j a.random b.random b.dialer_id (registering u)).1
    unfolding get_peer_id dispatch
    caller_lem j u peer parsed named trusts there =
        ap (λ r. r.1)
          (delivered a (wire (reply j)) (reply j) (registering u) j peer parsed refl there named.0
            (named.2 _) (trusts _))

registering_lem :
    {σ : Sigma} (a : Cosigner σ) (u : MultiSig σ) (i : ℕ)
    → u.index ≡ some i
    → ((send_register a u).1.peers ≡ u.peers)
      × (is_my_nonce (send_register a u).1.nonce a.random ≡ true)
      × ((send_register a u).1.index ≡ some i)
      × ((send_register a u).1.sent
          ≡ u.sent
            ++ record {
              message = signed_message a (register a.random a.dialer_id) i;
              receiver = none;
            }
              ∷ [])
unfolding send_register send_message get_index get_peer_id
registering_lem a u i index = rw index (refl, eq_refl a.random, index, refl)

-- A guard registers, and another, whose answer it gets, receives that and the answer to it: then each
-- knows the id of the other, and each of the three messages was sent as it was received. Each is at its
-- index in the peers of the other, has a name, parses what it receives, and verifies what the other
-- signs.
pub handshake-HasKnown :
    {σ : Sigma} (a b : Cosigner σ) (wire : CommunicationMessage → String) (u v : MultiSig σ)
    (i j : ℕ) (caller_peer answerer_peer : Signer)
    → b.parse_message (wire (hello a b wire i)) ≡ ok (hello a b wire i)
    → a.parse_message (wire (reply a b wire j)) ≡ ok (reply a b wire j)
    → b.parse_message (wire (thanks a b wire i)) ≡ ok (thanks a b wire i)
    → IsNamed a
    → IsNamed b
    → u.index ≡ some i
    → v.index ≡ some j
    → get_elem? v.peers i ≡ some caller_peer
    → get_elem? u.peers j ≡ some answerer_peer
    → Trusts b a i caller_peer.pub_key
    → Trusts a b j answerer_peer.pub_key
    → HasKnown (caller a b wire j u) j b.dialer_id
      × HasKnown (answerer a b wire i v) i a.dialer_id
      × ((registering a b wire u).sent
          ≡ u.sent ++ record { message = hello a b wire i; receiver = none } ∷ [])
      × ((challenging a b wire i v).sent
          ≡ v.sent ++ record { message = reply a b wire j; receiver = some a.dialer_id } ∷ [])
      × ((caller a b wire j u).sent
          ≡ (registering a b wire u).sent
            ++ record { message = thanks a b wire i; receiver = some b.dialer_id } ∷ [])
handshake-HasKnown a b wire u v i j pa pb parsed_hello parsed_reply parsed_thanks named_a named_b
      index_u index_v at_v at_u trusts_b trusts_a =
    let (peers, mine, index, sent) = registering_lem a u i index_u in
    let at_r : get_elem? (registering a b wire u).peers j ≡ some pb =
      ap (λ ps. get_elem? ps j) peers ∙ at_u in
    let heard = challenging_lem a b wire named_a i v pa parsed_hello trusts_b at_v in
    let (at_c, index_c, sent_c) = registered b v i j pa a.dialer_id a.random index_v at_v in
    let at_c' : get_elem? (challenging a b wire i v).peers i
        ≡ some (challenged a.dialer_id b.random pa) =
      ap (λ (w : MultiSig _). get_elem? w.peers i) heard ∙ at_c in
    let answer = caller_lem a b wire j u pb parsed_reply named_b trusts_a at_r in
    let last =
      answerer_lem a b wire named_a i v (challenged a.dialer_id b.random pa) parsed_thanks trusts_b
        at_c' in
    (
      subst⁻¹ (λ w. HasKnown w j b.dialer_id) answer
          (accepted a (registering a b wire u) j i pb b.dialer_id a.random b.random at_r
            (inr mine)),
      subst⁻¹ (λ w. HasKnown w i a.dialer_id) last
          (accepted b (challenging a b wire i v) i j (challenged a.dialer_id b.random pa)
            a.dialer_id b.random "" at_c' (inl (answered-challenged a.dialer_id b.random pa))),
      sent,
      ap (λ (w : MultiSig _). w.sent) heard ∙ sent_c,
      ap (λ (w : MultiSig _). w.sent) answer
          ∙ answers a (registering a b wire u) j i pb b.dialer_id a.random b.random index at_r
              named_b.1,
    )
