-- ===== src/Tests/Turn.antt =====
-- The turns of three guards at a given time.
use ts_gaurd_service.Base.{◌+◌, ◌≤◌, ◌<◌, ◌≡◌, ℕ, some, arith}
use ts_gaurd_service.Turn.{seconds_to_next_turn, guard_turn, full_period}
use ts_gaurd_service.Turn.Schedule.{next_turn-guard_turn, guard_turn_agree}

next_turn-guard_turn_example :
    (seconds_to_next_turn 3 1 1000 ≤ full_period 3)
    × (guard_turn 3 (1000 + seconds_to_next_turn 3 1 1000) ≡ some 1)
next_turn-guard_turn_example = next_turn-guard_turn 3 1 1000 (omega arith)

guard_turn_agree_example :
    (id : ℕ) × (id < 3)
    × (guard_turn 3 1000 ≡ some id)
    × (guard_turn 3 (1000 + 5) ≡ some id)
    × (guard_turn 3 (1000 + full_period 3) ≡ some id)
guard_turn_agree_example = guard_turn_agree 3 1000 5 (omega arith) (omega arith)
