-- ===== src/Turn.antt =====
-- GuardTurn of src/utils/GuardTurn.ts: the clock by which the guards take turns in creating
-- transactions. `now` is the rounded number of seconds, and `guards_len` and `guard_id` are those
-- of the key handler. `guard_turn` is `none` where the source returns -1.
pub mod Schedule
use ts_gaurd_service.Base.{ℕ, ◌+◌, ◌-◌, ◌*◌, ◌/◌, ◌%◌, Option, none, some, if◌then◌else◌, ltb}

abbrev pub turns_length : ℕ
turns_length = 180

abbrev pub up_time_length : ℕ
up_time_length = 120

abbrev pub full_period : ℕ → ℕ
full_period guards_len = guards_len * turns_length

-- The period is added before the subtraction, which thus never stops at 0.
pub seconds_to_next_turn : ℕ → ℕ → ℕ → ℕ
seconds_to_next_turn guards_len guard_id now =
    let current_turn = now % full_period guards_len in
    let guard_turn = guard_id * turns_length in
    (guard_turn + full_period guards_len - current_turn) % full_period guards_len + 1

pub seconds_to_reset : ℕ → ℕ
seconds_to_reset now =
    let current_point = now % turns_length in
    (up_time_length + turns_length - current_point) % turns_length + 1

unfoldable pub guard_turn : ℕ → ℕ → Option ℕ
guard_turn guards_len now =
    let current_turn = now % full_period guards_len in
    if ltb up_time_length (current_turn % turns_length)
    then none
    else some (current_turn / turns_length % guards_len)
