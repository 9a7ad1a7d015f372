-- ===== src/Tests/Throttling.antt =====
-- The throttle after nine failures, and a wait.
use vops.Prelude.{◌≤◌, ◌≡◌, refl, false, [], ◌∷◌, List}
use vops.Keyring.Throttle.{Throttle, init, begin, check, score, penalty_ms}
use vops.Keyring.Throttle.Rate.{Attempt, fail_once, fail_all, begin_exclusive, guess_rate}

abbrev worn : Throttle
worn = record { failures = 9; next_allowed_at = 100; busy = false }

abbrev attempts : List Attempt
attempts = record { start = 100; end = 110 } ∷ record { start = 900110; end = 900120 } ∷ []

abbrev after : Throttle
after = record { failures = 11; next_allowed_at = 1800120; busy = false }

begin_exclusive_example : begin (begin init 5).0 6 ≡ ((begin init 5).0, false)
unfolding begin check
begin_exclusive_example = begin_exclusive init 5 6 refl

guess_rate_example : 1800100 ≤ 1800120
unfolding begin check score penalty_ms fail_once fail_all
guess_rate_example = guess_rate worn after attempts 1800120 refl refl
