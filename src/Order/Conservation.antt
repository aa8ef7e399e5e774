-- ===== src/Order/Conservation.antt =====
-- What the reward order of an event distributes.
use ts_gaurd_service.Base.{
  ℕ, ◌+◌, ◌*◌, ◌≤◌, ◌≡◌, refl, sym, ap, ◌∙◌, Bool, true, false, List, [], ◌∷◌, ◌++◌, String,
  if◌then◌else◌, ltb, ◌==◌, nat_eq, string_eq, length, arith, ok, eq_refl, bit,
}
use ts_gaurd_service.Base.Int.{pos, sub_ℕ, ◌+ℤ◌, ◌-ℤ◌, int_laws}
use ts_gaurd_service.Order.{
  SinglePayment, PermitBoxValue, RewardOrder, watcher_share, OrderConfigs, if_positive, FeeConfig,
  bridge_fee_of, network_fee_of, payment_assets, event_single_payment, erg_rewards, token_rewards,
  event_erg_reward_order, event_token_reward_order,
}
use ts_gaurd_service.Order.Shares.{
  native_total, amount_of, token_total, boxes_total, amount_of-append, native_total-watchers,
  token_total-watchers, shares-le,
}
use ts_gaurd_service.Base.Results.{result_bind_ok, ok-injective}
use ts_gaurd_service.Database.Entities.{EventData}
use ts_gaurd_service.Order.Parts.{
  whole, left_over, amount_of-if_positive, sub_ℕ-le, guards-native, guards-token, pos_sum,
  native_parts, token_parts, two_and, if_ok, held, split_again,
}

module _ (configs : OrderConfigs) (permits : List PermitBoxValue)
    (bridge_fee network_fee emission_fee : ℕ) (payment_tx_id rwt_token_id : String) (rwt_count : ℕ)
    (permit_address : String) (at_most_all : configs.watchers_share_percent ≤ 100)
    (at_most_emission : configs.watchers_emission_share_percent ≤ 100) where
  abbrev pub emission_left : ℕ
  emission_left = left_over emission_fee configs.watchers_emission_share_percent (length permits)

  -- The boxes that the order adds, of the minimum ERG: two, and one for an emission.
  abbrev pub box_count : ℕ
  box_count = 2 + bit (ltb 0 emission_left)

  emission_kept :
      sub_ℕ emission_fee (
        length permits
        * watcher_share emission_fee configs.watchers_emission_share_percent (length permits))
      ≡ pos emission_left
  emission_kept = sub_ℕ-le _ _ (shares-le emission_fee _ (length permits) at_most_emission)

  fee_kept :
      sub_ℕ bridge_fee
        (length permits * watcher_share bridge_fee configs.watchers_share_percent (length permits))
      ≡ pos (left_over bridge_fee configs.watchers_share_percent (length permits))
  fee_kept = sub_ℕ-le _ _ (shares-le bridge_fee _ (length permits) at_most_all)

  -- Where both share percents are at most 100, the reward order of fees in ERG, if there is one,
  -- pays out the bridge fee, the network fee, what the permit boxes held and the minimum ERG of each
  -- box it adds, neither more nor less; and of tokens the emission fee of the emission token and for
  -- each watcher the count of the RWT token.
  pub erg_order_conserves :
      {r : RewardOrder}
      → event_erg_reward_order configs permits bridge_fee network_fee emission_fee payment_tx_id
          rwt_token_id rwt_count permit_address
        ≡ ok r
      → (native_total (whole r)
          ≡ pos (bridge_fee + network_fee + boxes_total permits + box_count * configs.minimum_erg))
        × ((id : String)
            → token_total id (whole r)
              ≡ pos (
                  (if rwt_token_id == id then length permits * rwt_count else 0)
                  + (if configs.emission_token_id == id then emission_fee else 0)))
  unfolding event_erg_reward_order
  erg_order_conserves {r} e =
      let n = length permits in
      let share = watcher_share bridge_fee configs.watchers_share_percent n in
      let emission = watcher_share emission_fee configs.watchers_emission_share_percent n in
      let order =
        erg_rewards configs permits bridge_fee network_fee emission_fee payment_tx_id rwt_token_id
          rwt_count permit_address in
      let kept = left_over bridge_fee configs.watchers_share_percent n in
      let m = configs.minimum_erg in
      let tokens =
        record { id = rwt_token_id; value = pos rwt_count }
        ∷ if_positive configs.emission_token_id (pos emission) in
      let (_, same) = if_ok (n == 0) order r e in
      let bound = shares-le bridge_fee configs.watchers_share_percent n at_most_all in
      let bound' =
        shares-le emission_fee configs.watchers_emission_share_percent n at_most_emission in
      let fee : sub_ℕ bridge_fee (n * share) +ℤ pos m ≡ pos (kept + m) =
        ap (λ z. z +ℤ pos m) fee_kept ∙ pos_sum kept m in
      rw (← same) (
        native_parts order.watchers_order order.guards_order _ _
              (native_total-watchers configs permit_address share tokens permits)
              (guards-native configs payment_tx_id _ _ (kept + m) emission_left (network_fee + m) []
                [] fee emission_kept)
            ∙ ap pos (omega (arith, two_and (ltb 0 emission_left) m, bound)),
        λ id.
            let hold : amount_of id tokens
                ≡ pos (
                    (if rwt_token_id == id then rwt_count else 0)
                    + (if configs.emission_token_id == id then emission else 0)) =
              rw
                (
                  held (rwt_token_id == id) rwt_count,
                  amount_of-if_positive id configs.emission_token_id emission,
                )
                (pos_sum _ _) in
            token_parts id order.watchers_order order.guards_order _ _
              (token_total-watchers configs permit_address share tokens id _ hold permits)
              (guards-token configs id payment_tx_id (sub_ℕ bridge_fee (n * share) +ℤ pos m) _
                (pos (network_fee + m)) emission_left 0 0 [] [] emission_kept refl refl)
            ∙ ap pos (
                omega (
                  arith,
                  split_again (rwt_token_id == id) false (configs.emission_token_id == id) n
                      rwt_count 0 0 0 emission emission_left emission_fee (omega arith)
                      (omega (arith, bound')),
                )),
      )

  -- Where both share percents are at most 100, the reward order of fees in a token, if there is one,
  -- pays out in ERG what the permit boxes held and the minimum of each box it adds, neither more nor
  -- less; and of tokens the bridge fee and the network fee in the token of the fees, the emission fee
  -- of the emission token, and for each watcher the count of the RWT token.
  pub token_order_conserves :
      (token_id : String) {r : RewardOrder}
      → event_token_reward_order configs permits bridge_fee network_fee emission_fee token_id
          payment_tx_id rwt_token_id rwt_count permit_address
        ≡ ok r
      → (native_total (whole r) ≡ pos (boxes_total permits + box_count * configs.minimum_erg))
        × ((id : String)
            → token_total id (whole r)
              ≡ pos (
                  (if rwt_token_id == id then length permits * rwt_count else 0)
                  + ((if token_id == id then bridge_fee else 0)
                      + (if configs.emission_token_id == id then emission_fee else 0))
                  + (if token_id == id then network_fee else 0)))
  unfolding event_token_reward_order
  token_order_conserves token_id {r} e =
      let n = length permits in
      let share = watcher_share bridge_fee configs.watchers_share_percent n in
      let emission = watcher_share emission_fee configs.watchers_emission_share_percent n in
      let order =
        token_rewards configs permits bridge_fee network_fee emission_fee token_id payment_tx_id
          rwt_token_id rwt_count permit_address in
      let kept = left_over bridge_fee configs.watchers_share_percent n in
      let m = configs.minimum_erg in
      let shares =
        if_positive token_id (pos share) ++ if_positive configs.emission_token_id (pos emission) in
      let tokens = record { id = rwt_token_id; value = pos rwt_count } ∷ shares in
      let (_, same) = if_ok (n == 0) order r e in
      let bound = shares-le bridge_fee configs.watchers_share_percent n at_most_all in
      let bound' =
        shares-le emission_fee configs.watchers_emission_share_percent n at_most_emission in
      rw (← same) (
        native_parts order.watchers_order order.guards_order _ _
              (native_total-watchers configs permit_address 0 tokens permits)
              (guards-native configs payment_tx_id _ _ m emission_left m
                (if_positive token_id (sub_ℕ bridge_fee (n * share)))
                (record { id = token_id; value = pos network_fee } ∷ []) refl emission_kept)
            ∙ ap pos (omega (arith, two_and (ltb 0 emission_left) m)),
        λ id.
            let hold : amount_of id tokens
                ≡ pos (
                    (if rwt_token_id == id then rwt_count else 0)
                    + ((if token_id == id then share else 0)
                        + (if configs.emission_token_id == id then emission else 0))) =
              rw
                (
                  held (rwt_token_id == id) rwt_count,
                  amount_of-append id (if_positive token_id (pos share))
                      (if_positive configs.emission_token_id (pos emission)),
                  amount_of-if_positive id token_id share,
                  amount_of-if_positive id configs.emission_token_id emission,
                )
                (omega int_laws) in
            let fee_hold : amount_of id (if_positive token_id (sub_ℕ bridge_fee (n * share)))
                ≡ pos (if token_id == id then kept else 0) =
              ap (λ z. amount_of id (if_positive token_id z)) fee_kept
              ∙ amount_of-if_positive id token_id kept in
            let network_hold : amount_of id (record { id = token_id; value = pos network_fee } ∷ [])
                ≡ pos (if token_id == id then network_fee else 0) =
              rw (held (token_id == id) network_fee) (omega int_laws) in
            token_parts id order.watchers_order order.guards_order _ _
              (token_total-watchers configs permit_address 0 tokens id _ hold permits)
              (guards-token configs id payment_tx_id (pos m) _ (pos m) emission_left _ _ _ _
                emission_kept fee_hold network_hold)
            ∙ ap pos (
                omega (
                  arith,
                  split_again (rwt_token_id == id) (token_id == id)
                      (configs.emission_token_id == id) n rwt_count share kept bridge_fee emission
                      emission_left emission_fee (omega (arith, bound)) (omega (arith, bound')),
                )),
      )

module _ (configs : OrderConfigs) (event : EventData) (m b n : ℕ) where
  assets-total :
      (is_native to_ergo : Bool)
      → let paid =
          payment_assets configs is_native to_ergo event m (pos event.amount -ℤ pos b -ℤ pos n) in
        paid.native_token +ℤ amount_of event.target_chain_token_id paid.tokens +ℤ pos b +ℤ pos n
        ≡ pos (event.amount + m + (if to_ergo then configs.additional_erg_on_payment else 0))
  assets-total true true = omega int_laws
  assets-total true false = omega int_laws
  assets-total false true = rw (eq_refl event.target_chain_token_id) (omega int_laws)
  assets-total false false = rw (eq_refl event.target_chain_token_id) (omega int_laws)

-- What a user is paid and the two fees are together the amount of the event: in the event's token,
-- or, where that is native, above the minimum transfer. On Ergo some ERG is added.
pub single_payment_conserves :
    (configs : OrderConfigs) (event : EventData) (min_transfer : ℕ) (fee : FeeConfig)
    {p : SinglePayment}
    → event_single_payment configs event min_transfer fee ≡ ok p
    → (bridge_fee : ℕ) × (bridge_fee_of event fee ≡ ok bridge_fee)
      × (is_native : Bool) × (configs.is_native_token event.to_chain event.target_chain_token_id
          ≡ ok is_native)
      × (p.address ≡ event.to_address)
      × (p.assets.native_token
            +ℤ amount_of event.target_chain_token_id p.assets.tokens
            +ℤ pos bridge_fee
            +ℤ pos (network_fee_of event fee)
          ≡ pos (
              event.amount
              + min_transfer
              + (if event.to_chain == configs.ergo_chain
                  then configs.additional_erg_on_payment
                  else 0)))
      × (is_native ≡ false
          → p.assets.native_token
            ≡ pos (
                min_transfer
                + (if event.to_chain == configs.ergo_chain
                    then configs.additional_erg_on_payment
                    else 0)))
unfolding event_single_payment
single_payment_conserves configs event min_transfer fee {p} e =
    let (is_native, native, rest) =
      result_bind_ok (configs.is_native_token event.to_chain event.target_chain_token_id) _ e in
    let (bridge_fee, known, done) = result_bind_ok (bridge_fee_of event fee) _ rest in
    let same = ok-injective done in
    (
      bridge_fee,
      known,
      is_native,
      native,
      ap (λ (q : SinglePayment). q.address) (sym same),
      rw (← same) (
          assets-total configs event min_transfer bridge_fee (network_fee_of event fee) is_native
            (event.to_chain == configs.ergo_chain)),
      λ token. rw (← same) (rw token (omega int_laws)),
    )
