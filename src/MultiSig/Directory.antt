-- ===== src/MultiSig/Directory.antt =====
-- A directory of the guards, the specification of their ids in src/guard/multisig/MultiSigHandler.ts:
-- the events and when each is allowed. The queue, the messages and the outcomes are forgotten.
use ts_gaurd_service.Base.{
  ℕ, zero, suc, ◌≡◌, refl, ap, ◌⊎◌, true, false, not, Option, some, List, [], ◌∷◌, ◌++◌, map,
  String, ◌==◌, nat_eq, string_eq, length, select, arith,
}
use ts_gaurd_service.MultiSig.{
  Sigma, Signer, ApproveSigner, Payload, register, approve, MultiSig, Cosigner, get_elem?,
  update_at, unknown_peer, is_challenge, answered, approved, is_my_nonce, accept_approval,
}
use ts_gaurd_service.MultiSig.Calls.{
  Call, received, asked, timer, clean, register_again, keys_changed,
}

pub record Directory : Type 0 where
  pub peers : List Signer
  pub nonce : Option String

-- What may happen to it: a peer claims to be a guard and gets a challenge, the guard of an index
-- is confirmed to have an id, the own nonce is renewed, or the guards are replaced.
pub data Event : Type 0 where
  claims : ℕ → String → String → Event
  confirms : ℕ → String → String → Event
  renews : String → Event
  replaces : List String → Event

abbrev pub challenged : String → String → Signer → Signer
challenged id challenge peer = record peer {
  unapproved = peer.unapproved ++ record { id = id; challenge = challenge } ∷ [];
}

-- Confirmed is confirmed: the challenge that was answered, if any, is used up.
abbrev pub apply : Event → Directory → Directory
apply (claims i id challenge) d = record d { peers = update_at i (challenged id challenge) d.peers }
apply (confirms i id nonce) d = record d { peers = update_at i (approved id nonce) d.peers }
apply (renews nonce) d = record d { nonce = some nonce }
apply (replaces public_keys) d = record d { peers = map unknown_peer public_keys }

abbrev pub apply_all : List Event → Directory → Directory
apply_all [] d = d
apply_all (e ∷ es) d = apply_all es (apply e d)

module _ {σ : Sigma} (guard : Cosigner σ) where
  -- The payload, with the index and the id of its sender, is signed by a peer's key.
  abbrev pub SignedBy : Signer → ℕ → String → Payload → Type 0
  SignedBy peer i id payload =
      (signature : String) × (guard.verify_data (guard.stringify payload i id) signature
          peer.pub_key
        ≡ true)

  -- The nonce was given to that id, or to all.
  abbrev pub Issued : Directory → Signer → String → String → Type 0
  Issued d peer id nonce = (answered id nonce peer ≡ true) ⊎ (is_my_nonce d.nonce nonce ≡ true)

  -- When an event may happen.
  abbrev pub Allowed : Event → Directory → Type 0
  Allowed (claims i id challenge) d =
      (peer : Signer) × (get_elem? d.peers i ≡ some peer)
      × (challenge ≡ guard.random)
      × (nonce : String) × (my_id : String) × SignedBy peer i id (register nonce my_id)
  Allowed (confirms i id nonce) d =
      (peer : Signer) × (get_elem? d.peers i ≡ some peer)
      × Issued d peer id nonce
      × (nonce_to_sign : String) × SignedBy peer i id (approve nonce nonce_to_sign id)
  Allowed (renews nonce) d = nonce ≡ guard.random
  Allowed (replaces public_keys) d = Unit {0}

  abbrev pub AllAllowed : List Event → Directory → Type 0
  AllAllowed [] d = Unit {0}
  AllAllowed (e ∷ es) d = Allowed e d × AllAllowed es (apply e d)

abbrev pub view : {σ : Sigma} → MultiSig σ → Directory
view w = record { peers = w.peers; nonce = w.nonce }

-- From the one directory to the other, by what is allowed.
abbrev pub Changes : {σ : Sigma} → Cosigner σ → Directory → Directory → Type 0
Changes guard d d' = (events : List Event) × AllAllowed guard events d × (d' ≡ apply_all events d)

-- What a call reads.
abbrev pub reader : {σ : Sigma} → Call σ → Cosigner σ
reader (received guard _ _) = guard
reader (asked guard _ _ _ _ _) = guard
reader (timer guard _) = guard
reader (clean guard) = guard
reader (register_again guard) = guard
reader (keys_changed guard _) = guard

some-injective : {A : Type 0} {x y : A} → some x ≡ some y → x ≡ y
some-injective e = cc

pub update_at-congr :
    {A : Type 0} (i : ℕ) (f g : A → A) (xs : List A) {x : A}
    → get_elem? xs i ≡ some x
    → f x ≡ g x
    → update_at i f xs ≡ update_at i g xs
update_at-congr i f g [] e h = refl
update_at-congr zero f g (y ∷ ys) e h = rw (some-injective e, h) refl
update_at-congr (suc i) f g (y ∷ ys) e h = ap (λ zs. y ∷ zs) (update_at-congr i f g ys e h)

pub update_at-same :
    {A : Type 0} (i : ℕ) (f : A → A) (xs : List A) {x : A}
    → get_elem? xs i ≡ some x
    → f x ≡ x
    → update_at i f xs ≡ xs
update_at-same i f [] e h = refl
update_at-same zero f (y ∷ ys) {x} e h = rw (some-injective e, h) refl
update_at-same (suc i) f (y ∷ ys) e h = ap (λ zs. y ∷ zs) (update_at-same i f ys e h)

-- Without an answered challenge nothing is used up.
unanswered :
    (id nonce : String) (items : List ApproveSigner)
    → (length (select (is_challenge id nonce) items) == 0) ≡ true
    → select (λ item. not (is_challenge id nonce item)) items ≡ items
unanswered id nonce [] h = refl
unanswered id nonce (x ∷ xs) h = ground (arith, unanswered id nonce xs)

pub accept-approved :
    (mine : Option String) (id nonce : String) (peer : Signer)
    → (answered id nonce peer ≡ true) ⊎ (is_my_nonce mine nonce ≡ true)
    → accept_approval mine id nonce peer ≡ approved id nonce peer
unfolding accept_approval
accept-approved mine id nonce peer h = ground (arith, unanswered id nonce peer.unapproved)

pub ignored :
    (mine : Option String) (id nonce : String) (peer : Signer)
    → answered id nonce peer ≡ false
    → is_my_nonce mine nonce ≡ false
    → accept_approval mine id nonce peer ≡ peer
unfolding accept_approval
ignored mine id nonce peer p q = rw (p, q) refl
