-- ===== src/Order/Parts.antt =====
-- The totals of the parts of a reward order.
use ts_gaurd_service.Base.{
  ℕ, ◌+◌, ◌-◌, ◌*◌, ◌≤◌, ◌≡◌, refl, Bool, true, false, List, ◌++◌, String, if◌then◌else◌, ltb, ◌==◌,
  nat_eq, string_eq, arith, ok, err, division_by_zero, bit,
}
use ts_gaurd_service.Base.Int.{ℤ, pos, sub_ℕ, ◌+ℤ◌, int_laws}
use ts_gaurd_service.Order.{
  TokenInfo, SinglePayment, RewardOrder, watcher_share, OrderConfigs, if_positive, emission_payment,
  guards_payments,
}
use ts_gaurd_service.Order.Shares.{
  native_total, amount_of, token_total, native_total-append, token_total-append,
}

-- The whole reward order.
abbrev pub whole : RewardOrder → List SinglePayment
whole r = r.watchers_order ++ r.guards_order

pub amount_of-if_positive :
    (id token : String) (n : ℕ)
    → amount_of id (if_positive token (pos n)) ≡ pos (if token == id then n else 0)
unfolding ◌+ℤ◌
amount_of-if_positive id token n = ground arith

pub sub_ℕ-le : (a b : ℕ) → b ≤ a → sub_ℕ a b ≡ pos (a - b)
sub_ℕ-le a b h = ground arith

module _ (configs : OrderConfigs) where
  emission-native :
      (n : ℕ)
      → native_total (emission_payment configs (pos n))
        ≡ pos (if ltb 0 n then configs.minimum_erg else 0)
  unfolding ◌+ℤ◌
  emission-native n = ground arith

  emission-token :
      (id : String) (n : ℕ)
      → token_total id (emission_payment configs (pos n))
        ≡ pos (if configs.emission_token_id == id then n else 0)
  unfolding ◌+ℤ◌
  emission-token id n = ground arith

  pub guards-native :
      (payment_tx_id : String) (fee emission : ℤ) (f e k : ℕ)
      (fee_tokens network_tokens : List TokenInfo)
      → fee ≡ pos f
      → emission ≡ pos e
      → native_total
          (guards_payments configs payment_tx_id fee fee_tokens emission (pos k) network_tokens)
        ≡ pos (f + (if ltb 0 e then configs.minimum_erg else 0) + k)
  guards-native payment_tx_id fee emission f e k fee_tokens network_tokens p q =
      rw (p, q)
        (rw (native_total-append (emission_payment configs (pos e)) _, emission-native e)
          (omega int_laws))

  pub guards-token :
      (id payment_tx_id : String) (fee emission network : ℤ) (e a b : ℕ)
      (fee_tokens network_tokens : List TokenInfo)
      → emission ≡ pos e
      → amount_of id fee_tokens ≡ pos a
      → amount_of id network_tokens ≡ pos b
      → token_total id
          (guards_payments configs payment_tx_id fee fee_tokens emission network network_tokens)
        ≡ pos (a + (if configs.emission_token_id == id then e else 0) + b)
  guards-token id payment_tx_id fee emission network e a b fee_tokens network_tokens h p q = rw h (
      rw (token_total-append id (emission_payment configs (pos e)) _, emission-token id e, p, q)
        (omega int_laws))

pub pos_sum : (a b : ℕ) → pos a +ℤ pos b ≡ pos (a + b)
pos_sum a b = omega int_laws

-- Two parts of an order whose totals are known.
pub native_parts :
    (xs ys : List SinglePayment) (a b : ℕ)
    → native_total xs ≡ pos a
    → native_total ys ≡ pos b
    → native_total (xs ++ ys) ≡ pos (a + b)
native_parts xs ys a b p q = rw (native_total-append xs ys, p, q) (pos_sum a b)

pub token_parts :
    (id : String) (xs ys : List SinglePayment) (a b : ℕ)
    → token_total id xs ≡ pos a
    → token_total id ys ≡ pos b
    → token_total id (xs ++ ys) ≡ pos (a + b)
token_parts id xs ys a b p q = rw (token_total-append id xs ys, p, q) (pos_sum a b)

pub two_and : (b : Bool) (m : ℕ) → (2 + bit b) * m ≡ m + (if b then m else 0) + m
two_and true m = omega arith
two_and false m = omega arith

pub if_ok :
    (b : Bool) (x r : RewardOrder)
    → (if b then err division_by_zero else ok x) ≡ ok r
    → (b ≡ false) × (x ≡ r)
if_ok true x r e = cc
if_ok false x r e = (refl, cc)

-- Of two fees that are split among watchers, what the guards keep.
abbrev pub left_over : ℕ → ℕ → ℕ → ℕ
left_over fee percent n = fee - n * watcher_share fee percent n

-- What is held of a token by a watcher of the RWT token, a share of the fee and one of the emission.
pub held : (b : Bool) (n : ℕ) → (if b then pos n else pos 0) ≡ pos (if b then n else 0)
held true n = refl
held false n = refl

pub split_again :
    (rwt fee emission : Bool) (n r share left total kept kept_left all : ℕ)
    → n * share + left ≡ total
    → n * kept + kept_left ≡ all
    → n * ((if rwt then r else 0) + ((if fee then share else 0) + (if emission then kept else 0)))
        + ((if fee then left else 0) + (if emission then kept_left else 0))
      ≡ (if rwt then n * r else 0) + ((if fee then total else 0) + (if emission then all else 0))
split_again true true true n r share left total kept kept_left all p q = omega (arith, p, q)
split_again true true false n r share left total kept kept_left all p q = omega (arith, p)
split_again true false true n r share left total kept kept_left all p q = omega (arith, q)
split_again true false false n r share left total kept kept_left all p q = omega arith
split_again false true true n r share left total kept kept_left all p q = omega (arith, p, q)
split_again false true false n r share left total kept kept_left all p q = omega (arith, p)
split_again false false true n r share left total kept kept_left all p q = omega (arith, q)
split_again false false false n r share left total kept kept_left all p q = omega arith
