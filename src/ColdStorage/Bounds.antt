-- ===== src/ColdStorage/Bounds.antt =====
-- What a cold storage transaction that verifies leaves in the lock address.
use ts_gaurd_service.Base.{
  ℕ, zero, suc, ◌≡◌, refl, ap, ◌⊎◌, inl, inr, Bool, true, false, Option, none, some, List, [], ◌∷◌,
  String, if◌then◌else◌, ◌==◌, string_eq, eq_iff, arith, Result, ok, Option-cases, subst,
}
use ts_gaurd_service.Base.Int.{ltb_ℤ}
use ts_gaurd_service.Base.Results.{result_bind_ok, ok-injective}
use ts_gaurd_service.Database.Entities.{PaymentTransaction, Database, Store}
use ts_gaurd_service.Agreement.{get_elem?}
use ts_gaurd_service.Order.{TokenInfo, AssetBalance, SinglePayment}
use ts_gaurd_service.Event.{Bridge, BridgeChain}
use ts_gaurd_service.ColdStorage.{
  Threshold, ColdChain, Vault, find_token, threshold_of, get_waiting_events_required_tokens,
}
use ts_gaurd_service.ColdStorage.Verifier.{
  is_within, moves_any, next_token, check_balance, check_token, verify_tokens, verify_native,
  check_native, is_native_above, verify_active, verify_amounts, verify_order,
  verify_cold_storage_transaction,
}

unless_ok :
    (b : Bool) (r : Result Bool)
    → (if b then ok false else r) ≡ ok true
    → (b ≡ false) × (r ≡ ok true)
unless_ok true r e = cc
unless_ok false r e = (refl, e)

when_ok :
    (b : Bool) (r : Result Bool)
    → (if b then r else ok false) ≡ ok true
    → (b ≡ true) × (r ≡ ok true)
when_ok true r e = (refl, e)
when_ok false r e = cc

module _ (cold : ColdChain) (locked remaining : AssetBalance) where
  -- A token that is above its high threshold in the lock address, and stays within its thresholds.
  pub record IsKept (token : TokenInfo) : Type 0 where
    pub balance : TokenInfo
    pub threshold : Threshold
    pub left : TokenInfo
    pub is_locked : find_token token.id locked.tokens ≡ some balance
    pub is_limited : threshold_of token.id cold.thresholds ≡ ok threshold
    pub is_above : ltb_ℤ threshold.high balance.value ≡ true
    pub stays : find_token balance.id remaining.tokens ≡ some left
    pub within : is_within threshold left.value ≡ true

  balance_true :
      (t : Threshold) (balance : TokenInfo)
      → check_balance cold locked remaining t balance ≡ true
      → (ltb_ℤ t.high balance.value ≡ true)
        × (left : TokenInfo) × (find_token balance.id remaining.tokens ≡ some left)
        × (is_within t left.value ≡ true)
  balance_true t balance e = elim (Option-cases (find_token balance.id remaining.tokens)) [
    | inl h ↦ ground (arith, e, h)
    | inr (left, h) ↦ (ground (arith, e), left, h, ground (arith, e, h))
  ]

  token_true :
      (token : TokenInfo) → check_token cold locked remaining token ≡ ok true → IsKept token
  token_true token e = elim (Option-cases (find_token token.id locked.tokens)) [
    | inl h ↦ let bad = rw h at e in cc
    | inr (balance, h) ↦
        let (t, limited, rest) =
          result_bind_ok (threshold_of token.id cold.thresholds)
            (λ t. ok (check_balance cold locked remaining t balance)) (rw h at e) in
        let (above, left, stays, within) = balance_true t balance (ok-injective rest) in
        record {
          balance = balance;
          threshold = t;
          left = left;
          is_locked = h;
          is_limited = limited;
          is_above = above;
          stays = stays;
          within = within;
        }
  ]

  tokens_true :
      (tokens : List TokenInfo) (required : Bool) {o : Bool}
      → verify_tokens cold locked remaining required tokens ≡ ok (some o)
      → (i : ℕ) (token : TokenInfo) → get_elem? tokens i ≡ some token
      → IsKept token
  unfolding verify_tokens
  tokens_true [] required e i token h = cc
  tokens_true (x ∷ xs) required {o} e i token h =
      let (passes, checked, rest) =
        result_bind_ok (check_token cold locked remaining x)
          (λ p. next_token p (verify_tokens cold locked remaining true xs)) e in
      go passes checked rest (λ r i. tokens_true xs true r i token) i h
    where
      go :
          (p : Bool)
          → check_token cold locked remaining x ≡ ok p
          → next_token p (verify_tokens cold locked remaining true xs) ≡ ok (some o)
          → (verify_tokens cold locked remaining true xs ≡ ok (some o)
              → (i : ℕ) → get_elem? xs i ≡ some token
              → IsKept token)
          → (i : ℕ) → get_elem? (x ∷ xs) i ≡ some token
          → IsKept token
      go false c r ih i h = cc
      go true c r ih zero h =
          subst IsKept (ap (λ (o : Option TokenInfo). elim o [ none ↦ x | some y ↦ y ]) h)
            (token_true x c)
      go true c r ih (suc i) h = ih r i h

  -- The native amount is above its high threshold and stays within its thresholds, or no more of
  -- it than a transfer of tokens may take is moved.
  abbrev pub IsNativeKept : AssetBalance → Type 0
  IsNativeKept moved =
      ((threshold : Threshold) × (threshold_of cold.native_token_id cold.thresholds ≡ ok threshold)
        × (is_within threshold remaining.native_token ≡ true))
      ⊎ (ltb_ℤ cold.max_native_transfer moved.native_token ≡ false)

  native_true :
      (forbidden : List String) (moved : AssetBalance) (required : Option Bool)
      → verify_native cold locked remaining forbidden moved.native_token required ≡ ok true
      → (o : Bool) × (required ≡ some o) × IsNativeKept moved
  unfolding verify_native
  native_true forbidden moved none e = cc
  native_true forbidden moved (some o) e =
      let (above, _, rest) =
        result_bind_ok (is_native_above cold locked remaining forbidden)
          (check_native cold locked remaining moved.native_token o) e in
      (o, refl, go above rest)
    where
      go :
          (b : Bool)
          → check_native cold locked remaining moved.native_token o b ≡ ok true
          → IsNativeKept moved
      go true h =
          let (t, found, within) =
            result_bind_ok (threshold_of cold.native_token_id cold.thresholds)
              (λ t. ok (is_within t remaining.native_token)) h in
          inl (t, found, ok-injective within)
      go false h = inr (ground (arith, ok-injective h))

module _ (db : Database) (bridge : Bridge) (vault : Vault) (tx : PaymentTransaction) where
  -- What a cold storage transaction leaves of the lock address.
  pub record LeavesEnough (order : SinglePayment) : Type 0 where
    pub cold : ColdChain
    pub locked : AssetBalance
    pub remaining : AssetBalance
    pub chain_of : vault.get_cold_chain tx.network ≡ ok cold
    pub to_cold : order.address ≡ cold.cold_address
    pub holds : cold.get_lock_address_assets ≡ ok locked
    pub leaves : vault.subtract_asset_balance locked order.assets ≡ ok remaining
    pub kept :
        (i : ℕ) (token : TokenInfo)
        → get_elem? order.assets.tokens i ≡ some token
        → IsKept cold locked remaining token
    pub native_kept : IsNativeKept cold locked remaining order.assets

  amounts_true :
      (cold : ColdChain) (forbidden : List String) (moved : AssetBalance)
      → verify_amounts db bridge vault tx cold forbidden moved ≡ ok true
      → (locked remaining : AssetBalance) × (cold.get_lock_address_assets ≡ ok locked)
        × (vault.subtract_asset_balance locked moved ≡ ok remaining)
        × ((i : ℕ) (token : TokenInfo)
            → get_elem? moved.tokens i ≡ some token
            → IsKept cold locked remaining token)
        × IsNativeKept cold locked remaining moved
  unfolding verify_amounts
  amounts_true cold forbidden moved e =
      let (locked, holds, e1) = result_bind_ok cold.get_lock_address_assets _ e in
      let (remaining, leaves, e2) =
        result_bind_ok (vault.subtract_asset_balance locked moved) _ e1 in
      let (required, tokens, e3) =
        result_bind_ok (verify_tokens cold locked remaining false moved.tokens) _ e2 in
      let (o, same, native) = native_true cold locked remaining forbidden moved required e3 in
      (
        locked,
        remaining,
        holds,
        leaves,
        tokens_true cold locked remaining moved.tokens false {o = o} (rw same at tokens),
        native,
      )

  order_true :
      (chain : BridgeChain) (cold : ColdChain) (order : List SinglePayment) (s : Store db)
      → vault.get_cold_chain tx.network ≡ ok cold
      → verify_order db bridge vault tx chain cold order s ≡ ok true
      → (p : SinglePayment) × (order ≡ p ∷ [])
        × LeavesEnough p
        × (forbidden : List String) × (get_waiting_events_required_tokens db bridge vault s
            ≡ ok forbidden)
        × (moves_any forbidden p.assets.tokens ≡ false)
  unfolding verify_order
  order_true chain cold [] s f e = cc
  order_true chain cold (_ ∷ _ ∷ _) s f e = cc
  order_true chain cold (p ∷ []) s f e =
      let (to_cold, e1) = when_ok (p.address == cold.cold_address) _ e in
      let (forbidden, known, e2) =
        result_bind_ok (get_waiting_events_required_tokens db bridge vault s) _ e1 in
      let (free, e3) = unless_ok (moves_any forbidden p.assets.tokens) _ e2 in
      let (b, _, e4) =
        result_bind_ok (verify_active db bridge vault tx chain cold p.assets _) _ e3 in
      let (_, e5) = when_ok b _ e4 in
      let (locked, remaining, holds, leaves, kept, native) =
        amounts_true cold forbidden p.assets e5 in
      (
        p,
        refl,
        record {
          cold = cold;
          locked = locked;
          remaining = remaining;
          chain_of = f;
          to_cold = (eq_iff _ _).0 to_cold;
          holds = holds;
          leaves = leaves;
          kept = kept;
          native_kept = native;
        },
        forbidden,
        known,
        free,
      )

  -- A cold storage transaction that verifies has one payment, to the cold address of its chain,
  -- and moves no token that a waiting event requires. Each token it moves is above its high
  -- threshold in the lock address, and what stays there is within the two thresholds; so is what
  -- stays of the native token, or no more of it is moved than a transfer of tokens may take.
  pub verify_cold_storage_transaction_bounds :
      (s : Store db)
      → verify_cold_storage_transaction db bridge vault tx s ≡ ok true
      → (chain : BridgeChain) × (bridge.get_chain tx.network ≡ ok chain)
        × (order : SinglePayment) × (chain.extract_transaction_order tx ≡ ok (order ∷ []))
        × LeavesEnough order
        × (forbidden : List String) × (get_waiting_events_required_tokens db bridge vault s
            ≡ ok forbidden)
        × (moves_any forbidden order.assets.tokens ≡ false)
  unfolding verify_cold_storage_transaction
  verify_cold_storage_transaction_bounds s e =
      let (chain, known, e1) = result_bind_ok (bridge.get_chain tx.network) _ e in
      let (order, extracted, e2) = result_bind_ok (chain.extract_transaction_order tx) _ e1 in
      let (cold, f, e3) = result_bind_ok (vault.get_cold_chain tx.network) _ e2 in
      let (p, single, enough, forbidden, required, free) = order_true chain cold order s f e3 in
      (chain, known, p, rw single at extracted, enough, forbidden, required, free)
