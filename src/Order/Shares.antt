-- ===== src/Order/Shares.antt =====
-- The totals of an order, and the shares of the watchers.
use native.Mathlib.Nat.{mul-div-le}
use ts_gaurd_service.Base.{
  ℕ, ◌+◌, ◌*◌, ◌/◌, ◌≤◌, ◌≡◌, List, [], ◌∷◌, ◌++◌, map, String, if◌then◌else◌, ◌==◌, string_eq,
  length, arith,
}
use ts_gaurd_service.Base.Int.{ℤ, pos, ◌+ℤ◌, int_laws}
use ts_gaurd_service.Order.{
  TokenInfo, SinglePayment, PermitBoxValue, watcher_payment, watcher_share, OrderConfigs,
}

abbrev pub native_total : List SinglePayment → ℤ
native_total [] = pos 0
native_total (p ∷ ps) = p.assets.native_token +ℤ native_total ps

-- What a list of tokens holds of one.
abbrev pub amount_of : String → List TokenInfo → ℤ
amount_of id [] = pos 0
amount_of id (t ∷ ts) = (if t.id == id then t.value else pos 0) +ℤ amount_of id ts

abbrev pub token_total : String → List SinglePayment → ℤ
token_total id [] = pos 0
token_total id (p ∷ ps) = amount_of id p.assets.tokens +ℤ token_total id ps

abbrev pub boxes_total : List PermitBoxValue → ℕ
boxes_total [] = 0
boxes_total (p ∷ ps) = p.box_value + boxes_total ps

pub native_total-append :
    (xs ys : List SinglePayment) → native_total (xs ++ ys) ≡ native_total xs +ℤ native_total ys
native_total-append [] ys = omega int_laws
native_total-append (x ∷ xs) ys = rw (native_total-append xs ys) (omega int_laws)

pub token_total-append :
    (id : String) (xs ys : List SinglePayment)
    → token_total id (xs ++ ys) ≡ token_total id xs +ℤ token_total id ys
token_total-append id [] ys = omega int_laws
token_total-append id (x ∷ xs) ys = rw (token_total-append id xs ys) (omega int_laws)

pub amount_of-append :
    (id : String) (xs ys : List TokenInfo)
    → amount_of id (xs ++ ys) ≡ amount_of id xs +ℤ amount_of id ys
amount_of-append id [] ys = omega int_laws
amount_of-append id (x ∷ xs) ys = rw (amount_of-append id xs ys) (omega int_laws)

module _ (configs : OrderConfigs) (address : String) (erg_amount : ℕ)
    (tokens : List TokenInfo) where
  pub native_total-watchers :
      (permits : List PermitBoxValue)
      → native_total (map (watcher_payment configs address erg_amount tokens) permits)
        ≡ pos (length permits * erg_amount + boxes_total permits)
  native_total-watchers [] = omega int_laws
  native_total-watchers (p ∷ ps) = rw (native_total-watchers ps) (omega int_laws)

  pub token_total-watchers :
      (id : String) (value : ℕ)
      → amount_of id tokens ≡ pos value
      → (permits : List PermitBoxValue)
      → token_total id (map (watcher_payment configs address erg_amount tokens) permits)
        ≡ pos (length permits * value)
  token_total-watchers id value h [] = omega int_laws
  token_total-watchers id value h (p ∷ ps) =
      rw (h, token_total-watchers id value h ps) (omega int_laws)

-- All watchers together get at most the fee.
pub shares-le : (fee percent n : ℕ) → percent ≤ 100 → n * watcher_share fee percent n ≤ fee
shares-le fee percent n h =
    let part : fee * percent / 100 ≤ fee = grind arith in
    omega (arith, part, mul-div-le (fee * percent / 100) n)
