-- ===== src/MultiSig/Handlers.antt =====
-- What the queue keeps, for the handlers of a transaction in src/guard/multisig/MultiSigHandler.ts.
use ts_gaurd_service.Base.{
  ℕ, refl, Option, none, some, List, [], ◌∷◌, String, ltb, ◌==◌, nat_eq, string_eq, ok, err, Result,
  Action, arith,
}
use ts_gaurd_service.MultiSig.{
  Sigma, Signer, SignPayload, SignedCommitment, Sign, TxQueued, timed_out, failed, MultiSig,
  Cosigner, is_peers_initiated,
}
use ts_gaurd_service.MultiSig.Commitments.{PublishedCommitment}
use ts_gaurd_service.MultiSig.Signing.{extract_hints}
use ts_gaurd_service.MultiSig.Queue.{
  publish_secret, generate_commitment, reject_unreleased, sign, is_expired, time_out, clean_entry,
  cleanup, has_enough, delay_sign, take_commitment, handle_commitment, commit,
}
use ts_gaurd_service.MultiSig.Messages.{
  verify_signed_payload, update_sign, is_better, guard_keys_of, commit_all, store_sign, keep_sign,
  receive_sign, handle_sign, needs_my_sign,
}
use ts_gaurd_service.MultiSig.Frames.{
  Keeps, >>=-Keeps, >>-Keeps, read-Keeps, gets-Keeps, lift-Keeps, attempt-Keeps, if-Keeps,
  for_each-Keeps, option_holds, if_holds,
}
use ts_gaurd_service.MultiSig.Kept.{
  Kept, SignIsKept, IsSigned, IsKept, quiet, put-Keeps, report-Keeps, delete-Keeps, get_index-Keeps,
  send_to_peers-Keeps, with_transaction-Keeps, get_queued_transaction-Keeps,
}
use ts_gaurd_service.MultiSig.Invariant.{generate_sign-Keeps, process_resolve-Keeps}

module _ {σ : Sigma} (κ : Kept σ) (guard : Cosigner σ) where
  pub initiated-Keeps : Keeps (IsKept κ) (is_peers_initiated {σ = σ})
  unfolding is_peers_initiated
  initiated-Keeps = quiet κ λ w. ground arith

  publish_secret-Keeps :
      (id : String) (t : TxQueued σ) (tx : Option σ.ReducedTx)
      → IsSigned κ t
      → Keeps (IsKept κ) (publish_secret guard id t tx)
  publish_secret-Keeps id t none d = read-Keeps
  publish_secret-Keeps id t (some tx) d = lift-Keeps (σ.generate_commitments tx) λ secret _.
      >>-Keeps (put-Keeps κ id (record t { secret = some secret }) d)
        (send_to_peers-Keeps κ guard _ _)

  generate_commitment-Keeps : (id : String) → Keeps (IsKept κ) (generate_commitment guard id)
  unfolding generate_commitment
  generate_commitment-Keeps id = with_transaction-Keeps κ id _ λ t d.
      option_holds (Keeps (IsKept κ)) t.secret (λ _. publish_secret-Keeps id t t.tx d)
        λ _ _. read-Keeps

  reject-IsKept :
      (promise : ℕ) (r : Result (Unit {0}) × MultiSig σ)
      → IsKept κ r.1
      → IsKept κ (reject_unreleased guard promise r).1
  reject-IsKept promise (ok _, w) s = s
  reject-IsKept promise (err _, w) s =
      (report-Keeps κ (failed promise) (κ.on_failed promise)).keeps w s

  reject-Keeps :
      (promise : ℕ) {m : Action (MultiSig σ) (Unit {0})}
      → Keeps (IsKept κ) m
      → Keeps (IsKept κ) (λ w. reject_unreleased guard promise (m w))
  reject-Keeps promise {m} h = record { keeps = λ w s. reject-IsKept promise (m w) (h.keeps w s) }

  pub sign-Keeps :
      (promise : ℕ) (tx : σ.ReducedTx) (required : ℕ) (boxes : List σ.Box)
      (data_boxes : Option (List σ.Box))
      → Keeps (IsKept κ) (sign guard promise tx required boxes data_boxes)
  unfolding sign
  sign-Keeps promise tx required boxes data_boxes = >>-Keeps initiated-Keeps (
      get_queued_transaction-Keeps κ guard (σ.reduced_id tx) _ λ t d. reject-Keeps promise (
        >>-Keeps (put-Keeps κ (σ.reduced_id tx) _ d) (generate_commitment-Keeps (σ.reduced_id tx))))

  clean_entry-Keeps : (e : String × TxQueued σ) → Keeps (IsKept κ) (clean_entry guard e)
  unfolding clean_entry
  clean_entry-Keeps e =
      if-Keeps (is_expired guard e.1) (>>-Keeps (timed e.1.reject) (delete-Keeps κ e.0)) read-Keeps
    where
      timed : (promise : Option ℕ) → Keeps (IsKept κ) (time_out guard promise)
      timed none = read-Keeps
      timed (some promise) = report-Keeps κ (timed_out promise) (κ.on_timed_out promise)

  pub cleanup-Keeps : Keeps (IsKept κ) (cleanup guard)
  unfolding cleanup
  cleanup-Keeps = record {
    keeps = λ w s.
        if_holds (λ (r : Result (Unit {0}) × MultiSig σ). IsKept κ r.1) w.held s
          ((for_each-Keeps w.transactions (λ e. clean_entry-Keeps e)).keeps w s);
  }

  take_commitment-Keeps :
      (index : ℕ) (id : String) (c : PublishedCommitment) (s : String) (t : TxQueued σ)
      → IsSigned κ t
      → Keeps (IsKept κ) (take_commitment guard index id c s t)
  unfolding take_commitment
  take_commitment-Keeps index id c s t d = >>-Keeps (put-Keeps κ id (commit index c s t) d) (
      if-Keeps (ltb 0 t.required_signer)
        (if-Keeps (has_enough guard (commit index c s t))
          (quiet κ {m = delay_sign guard id} λ w. (refl, refl, refl, refl)) read-Keeps)
        read-Keeps)

  pub handle_commitment-Keeps :
      (index : ℕ) (id : String) (c : PublishedCommitment) (s : String)
      → Keeps (IsKept κ) (handle_commitment guard index id c s)
  unfolding handle_commitment
  handle_commitment-Keeps index id c s = if-Keeps (id == "") read-Keeps (
      get_queued_transaction-Keeps κ guard id _ λ t d.
        option_holds (Keeps (IsKept κ)) t.sign (λ _. take_commitment-Keeps index id c s t d)
          λ _ _. read-Keeps)

  verify_signed_payload-Keeps :
      (t : TxQueued σ) (payload : SignPayload)
      → Keeps (IsKept κ) (verify_signed_payload guard t payload)
  unfolding verify_signed_payload
  verify_signed_payload-Keeps t payload = lift-Keeps (σ.parse (σ.from_base64 payload.tx)) λ tx _.
      lift-Keeps (extract_hints guard tx t.boxes t.data_boxes payload.signed payload.simulated)
        λ hints _.
          >>=-Keeps (get_index-Keeps κ guard)
            λ my_index. for_each-Keeps payload.commitments λ given. read-Keeps

  commit_all_sign :
      (given : List SignedCommitment) (t : TxQueued σ)
      → IsSigned κ t
      → IsSigned κ (commit_all guard given t)
  commit_all_sign [] t d = d
  commit_all_sign (x ∷ xs) t d = commit_all_sign xs (commit x.index x.commitment x.sign t) d

  update_sign-IsKept :
      (my_pub : String) (payload : SignPayload) (peers : List Signer) (o : Option (Sign σ))
      → SignIsKept κ o
      → SignIsKept κ (update_sign guard my_pub payload peers o)
  unfolding update_sign
  update_sign-IsKept my_pub payload peers o d =
      if_holds (SignIsKept κ) (is_better guard my_pub (guard_keys_of peers payload.signed) o)
        (κ.of_guards peers payload.signed) d

  store_sign-Keeps :
      (payload : SignPayload) (t : TxQueued σ) (my_pub : String)
      → IsSigned κ t
      → Keeps (IsKept κ) (store_sign guard payload t my_pub)
  unfolding store_sign keep_sign
  store_sign-Keeps payload t my_pub d = gets-Keeps _ (keep_sign guard payload.tx_id t my_pub) λ w.
      kept (update_sign guard my_pub payload w.peers t.sign)
        (update_sign-IsKept my_pub payload w.peers t.sign d)
    where
      kept :
          (sign : Option (Sign σ))
          → SignIsKept κ sign
          → Keeps (IsKept κ) (keep_sign guard payload.tx_id t my_pub sign)
      kept sign sound = >>-Keeps (put-Keeps κ payload.tx_id (record t { sign = sign }) sound) (
          if-Keeps (needs_my_sign guard my_pub t.required_signer sign)
            (generate_sign-Keeps κ guard payload.tx_id) read-Keeps)

  receive_sign-Keeps :
      (payload : SignPayload) (t : TxQueued σ)
      → IsSigned κ t
      → Keeps (IsKept κ) (receive_sign guard payload t)
  unfolding receive_sign
  receive_sign-Keeps payload t d = >>-Keeps (verify_signed_payload-Keeps t payload) (
      >>=-Keeps read-Keeps λ adopted.
        >>-Keeps
          (put-Keeps κ payload.tx_id (commit_all guard adopted t) (commit_all_sign adopted t d))
          (>>=-Keeps (get_index-Keeps κ guard) λ my_index. >>=-Keeps read-Keeps λ my_pub.
            >>-Keeps
              (store_sign-Keeps payload (commit_all guard adopted t) my_pub
                (commit_all_sign adopted t d))
              (process_resolve-Keeps κ guard payload.tx_id)))

  pub handle_sign-Keeps : (payload : SignPayload) → Keeps (IsKept κ) (handle_sign guard payload)
  unfolding handle_sign
  handle_sign-Keeps payload = if-Keeps (payload.tx_id == "") read-Keeps (
      get_queued_transaction-Keeps κ guard payload.tx_id _
        λ t d. attempt-Keeps (receive_sign-Keeps payload t d))
