-- ===== src/Turn/Schedule.antt =====
-- Each guard's turn comes within a period, and every turn ends in a gap.
use Prim.Native.Nat.{ℕ}
use native.Mathlib.Nat.{mod-lt, mod-eq_of_lt, mod-add-div, mod-add-mod, add-mod_right}
use ts_gaurd_service.Base.{
  ◌+◌, ◌-◌, ◌*◌, ◌/◌, ◌%◌, ◌≤◌, ◌<◌, ◌≡◌, sym, ap, ◌∙◌, inl, inr, none, some, arith, leb, leb→le,
  Bool-cases,
}
use ts_gaurd_service.Turn.{
  seconds_to_next_turn, seconds_to_reset, guard_turn, full_period, turns_length, up_time_length,
}

-- A remainder by the period has the remainder by the turn.
mod-period : (n x : ℕ) → 0 < n → x % (n * 180) % 180 ≡ x % 180
mod-period n x h =
    let c = x % (n * 180) in
    let split : c + (n * (x / (n * 180))) * 180 ≡ x = omega (arith, mod-add-div x (n * 180)) in
    omega (arith, split)

-- From a point of the period to another, around the end of the period where it must.
way_around :
    (period g c : ℕ)
    → c < period
    → g + 1 < period
    → (c + ((g + period - c) % period + 1)) % period ≡ g + 1
way_around period g c inside h = elim (Bool-cases (leb c g)) [
  | inl reached ↦
      let le = leb→le c g reached in
      let ahead : (g + period - c) % period ≡ g - c =
        ap (λ x. x % period) {x = g + period - c} {y = g - c + period} (omega arith)
        ∙ add-mod_right (g - c) period
        ∙ mod-eq_of_lt (omega arith) in
      ap (λ x. x % period) {y = g + 1} (omega arith) ∙ mod-eq_of_lt h
  | inr passed ↦
      let gt : g < c = ground arith in
      let ahead : (g + period - c) % period ≡ g + period - c = mod-eq_of_lt (omega arith) in
      ap (λ x. x % period) {y = g + 1 + period} (omega arith)
      ∙ add-mod_right (g + 1) period
      ∙ mod-eq_of_lt h
]

turn_begins :
    (period g now : ℕ)
    → g + 1 < period
    → (now + ((g + period - now % period) % period + 1)) % period ≡ g + 1
turn_begins period g now h =
    sym (mod-add-mod now period ((g + period - now % period) % period + 1))
    ∙ way_around period g (now % period) (mod-lt now (omega arith)) h

-- A guard that waits for `secondsToNextTurn` seconds, which are at most a period, finds that it
-- is its turn.
pub next_turn-guard_turn :
    (n id now : ℕ)
    → id < n
    → (seconds_to_next_turn n id now ≤ full_period n)
      × (guard_turn n (now + seconds_to_next_turn n id now) ≡ some id)
unfolding seconds_to_next_turn guard_turn
next_turn-guard_turn n id now h =
    let at = turn_begins (n * 180) (id * 180) now (omega arith) in
    let small : id % n ≡ id = mod-eq_of_lt h in
    (
      omega (arith, mod-lt (id * 180 + n * 180 - now % (n * 180)) {m = n * 180} (omega arith)),
      rw at (ground (arith, small)),
    )

-- A guard that waits for `secondsToReset` seconds, which are at most the length of a turn, finds
-- that it is no guard's turn.
pub reset-guard_turn :
    (n now : ℕ)
    → 0 < n
    → (seconds_to_reset now ≤ turns_length) × (guard_turn n (now + seconds_to_reset now) ≡ none)
unfolding seconds_to_reset guard_turn
reset-guard_turn n now h =
    let at : (now + ((300 - now % 180) % 180 + 1)) % 180 ≡ 121 = omega arith in
    (omega arith, ground (arith, mod-period n (now + ((300 - now % 180) % 180 + 1)) h))

-- While one turn lasts, guards whose clocks differ by less than what is left of its up time name
-- the same guard, one of the `n`, and a period later it is that guard's turn again.
pub guard_turn_agree :
    (n now d : ℕ)
    → 0 < n
    → now % turns_length + d ≤ up_time_length
    → (id : ℕ) × (id < n)
      × (guard_turn n now ≡ some id)
      × (guard_turn n (now + d) ≡ some id)
      × (guard_turn n (now + full_period n) ≡ some id)
unfolding guard_turn
guard_turn_agree n now d h short =
    let c = now % (n * 180) in
    let inside : c < n * 180 = mod-lt now (omega arith) in
    let same : c % 180 ≡ now % 180 = mod-period n now h in
    let id = c / 180 in
    let known : id < n = omega arith in
    let later : (now + d) % (n * 180) ≡ c + d =
      sym (mod-add-mod now (n * 180) d) ∙ mod-eq_of_lt (omega arith) in
    let again : (now + n * 180) % (n * 180) ≡ c = add-mod_right now (n * 180) in
    let its : id % n ≡ id = mod-eq_of_lt known in
    let its_later : (c + d) / 180 ≡ id = omega arith in
    (
      id,
      known,
      ground (arith, its),
      rw (later, its_later, its) (ground arith),
      rw (again, its) (ground arith),
    )
