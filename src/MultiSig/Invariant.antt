-- ===== src/MultiSig/Invariant.antt =====
-- What the queue keeps, for the signatures and outcomes of src/guard/multisig/MultiSigHandler.ts.
use ts_gaurd_service.Base.{
  ℕ, ◌≡◌, ap, ◌∙◌, Bool, true, false, Option, none, some, List, [], ◌∷◌, String, if◌then◌else◌, leb,
  nat_eq, string_eq, length, ok, err, Result, pure, arith,
}
use ts_gaurd_service.MultiSig.{
  Sigma, Signer, Sign, TxQueued, Outcome, resolved, invalid_sign, Cosigner,
}
use ts_gaurd_service.MultiSig.Commitments.{upto}
use ts_gaurd_service.MultiSig.Signing.{
  Start, first_sign, continue_sign, some_invalid, start_sign, sign_with, generate_own_sign,
  generate_sign, resolve_signed, process_resolve, delayed_generate_sign, publish_sign, settle,
  cleared, with_sign,
}
use ts_gaurd_service.MultiSig.Frames.{
  Keeps, >>=-Keeps, >>-Keeps, read-Keeps, read-Keeps_of, lift-Keeps, attempt-Keeps, if-Keeps,
  option_holds,
}
use ts_gaurd_service.MultiSig.Kept.{
  Kept, IsKept, IsSigned, SignIsKept, some_invalid-false, put-Keeps, report-Keeps, delete-Keeps,
  with_transaction-Keeps, get_index-Keeps, send_to_peers-Keeps, get_queued_transaction-Keeps,
}

module _ {σ : Sigma} (κ : Kept σ) (guard : Cosigner σ) where
  -- The signers with whom this guard signs.
  start_sign-Signers :
      (my_pub : String) (t : TxQueued σ) (peers : List Signer) (s : Start σ)
      → IsSigned κ t
      → start_sign guard my_pub t peers ≡ ok (some s)
      → κ.Signers s.signed
  unfolding start_sign
  start_sign-Signers my_pub t peers s d h = go t.sign d h
    where
      go :
          (o : Option (Sign σ))
          → SignIsKept κ o
          → elim o [
            | none ↦ first_sign guard my_pub t peers
            | some sign ↦ continue_sign guard my_pub t sign
          ]
            ≡ ok (some s)
          → κ.Signers s.signed
      go none d h = let alone : s.signed ≡ my_pub ∷ [] = ground arith in rw alone (κ.alone my_pub)
      go (some sign) d h =
          let joined : s.signed ≡ my_pub ∷ sign.signed = ground arith in
          rw joined (κ.joined my_pub sign.signed (ground arith) d)

  publish_sign-Keeps :
      (id : String) (tx : σ.Tx) (s : Start σ) (t : TxQueued σ)
      → κ.Signers s.signed
      → Keeps (IsKept κ) (publish_sign guard id tx s t)
  publish_sign-Keeps id tx s t d =
      >>-Keeps (send_to_peers-Keeps κ guard _ _) (put-Keeps κ id (with_sign guard tx s t) d)

  sign_with-Keeps :
      (id : String) (tx : σ.ReducedTx) (secret : σ.Hints) (t : TxQueued σ) (s : Start σ)
      → κ.Signers s.signed
      → Keeps (IsKept κ) (sign_with guard id tx secret t s)
  unfolding sign_with
  sign_with-Keeps id tx secret t s d = >>=-Keeps read-Keeps λ hints. go (σ.sign_multi tx hints)
    where
      go :
          (r : Result σ.Tx)
          → Keeps
              (IsKept κ)
              (elim r [ err _ ↦ pure tt | ok signed_tx ↦ publish_sign guard id signed_tx s t ])
      go (ok signed_tx) = publish_sign-Keeps id signed_tx s t d
      go (err _) = read-Keeps

  generate_own_sign-Keeps :
      (id : String) (tx : σ.ReducedTx) (secret : σ.Hints) (t : TxQueued σ)
      → IsSigned κ t
      → Keeps (IsKept κ) (generate_own_sign guard id tx secret t)
  unfolding generate_own_sign
  generate_own_sign-Keeps id tx secret t d = >>=-Keeps (get_index-Keeps κ guard) λ my_index.
      >>=-Keeps read-Keeps λ my_pub. read-Keeps_of λ w start e.
        option_holds (Keeps (IsKept κ)) start (λ _. read-Keeps)
          λ s is.
            sign_with-Keeps id tx secret t s
              (start_sign-Signers my_pub t w.peers s d (e ∙ ap ok is))

  pub generate_sign-Keeps : (id : String) → Keeps (IsKept κ) (generate_sign guard id)
  unfolding generate_sign
  generate_sign-Keeps id = with_transaction-Keeps κ id _ λ t d.
      option_holds (Keeps (IsKept κ)) t.tx (λ _. read-Keeps)
        λ tx _.
          option_holds (Keeps (IsKept κ)) t.secret (λ _. read-Keeps)
            λ secret _. generate_own_sign-Keeps id tx secret t d

  settle-Keeps :
      (promise : Option ℕ) (outcome : ℕ → Outcome σ)
      → ((p : ℕ) → κ.Settled (outcome p))
      → Keeps (IsKept κ) (settle guard promise outcome)
  settle-Keeps none outcome h = read-Keeps
  settle-Keeps (some p) outcome h = report-Keeps κ (outcome p) (h p)

  resolve_signed-Keeps :
      (id : String) (t : TxQueued σ) (sign : Sign σ)
      → Keeps (IsKept κ) (resolve_signed guard id t sign)
  unfolding resolve_signed
  resolve_signed-Keeps id t sign = lift-Keeps (σ.parse sign.transaction) λ signed _.
      lift-Keeps guard.state_context λ context _.
        lift-Keeps (some_invalid σ context signed t.boxes t.data_boxes (upto 0 (σ.inputs signed)))
          λ rejected e.
            >>-Keeps (settled signed context rejected e)
              (>>-Keeps (put-Keeps κ id (cleared guard t) tt) (delete-Keeps κ (σ.tx_id signed)))
    where
      settled :
          (signed : σ.Tx) (context : σ.Context) (rejected : Bool)
          → some_invalid σ context signed t.boxes t.data_boxes (upto 0 (σ.inputs signed))
            ≡ ok rejected
          → Keeps (IsKept κ) (
              if rejected
              then settle guard t.reject (λ promise. invalid_sign promise signed)
              else settle guard t.resolve (λ promise. resolved promise signed))
      settled signed context true e =
          settle-Keeps t.reject _ λ promise. κ.on_invalid_sign promise signed
      settled signed context false e = settle-Keeps t.resolve _ λ promise.
          κ.on_resolved promise signed (
            context,
            t.boxes,
            t.data_boxes,
            λ i below.
                some_invalid-false σ context signed t.boxes t.data_boxes 0 (σ.inputs signed) e i
                  (omega arith) (omega arith),
          )

  pub process_resolve-Keeps : (id : String) → Keeps (IsKept κ) (process_resolve guard id)
  unfolding process_resolve
  process_resolve-Keeps id = with_transaction-Keeps κ id _ λ t _.
      option_holds (Keeps (IsKept κ)) t.sign (λ _. read-Keeps)
        λ sign _.
          if-Keeps (leb t.required_signer (length sign.signed)) (resolve_signed-Keeps id t sign)
            read-Keeps

  pub delayed_generate_sign-Keeps :
      (id : String) → Keeps (IsKept κ) (delayed_generate_sign guard id)
  unfolding delayed_generate_sign
  delayed_generate_sign-Keeps id =
      get_queued_transaction-Keeps κ guard id _
        λ _ _. attempt-Keeps (>>-Keeps (generate_sign-Keeps id) (process_resolve-Keeps id))
