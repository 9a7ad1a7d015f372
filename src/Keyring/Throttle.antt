-- ===== src/Keyring/Throttle.antt =====
-- src/lib/keyring/unlock-throttle.ts: the limit on passphrase attempts. A method takes the clock
-- reading `now` as an argument and returns the new state.
pub mod Rate
use vops.Prelude.{
  ℕ, ◌+◌, ◌-◌, ◌*◌, ◌≡◌, Bool, true, false, not, ◌&&◌, List, [], ◌∷◌, min, leb, get_or,
  if◌then◌else◌, is_zero,
}

pub record Throttle : Type 0 where
  pub failures : ℕ
  pub next_allowed_at : ℕ
  pub busy : Bool

abbrev pub init : Throttle
init = record { failures = 0; next_allowed_at = 0; busy = false }

pub record Check : Type 0 where
  pub allowed : Bool
  pub is_busy : Bool
  pub failed : ℕ
  pub retry_in_ms : ℕ

abbrev pub backoff_ms : List ℕ
backoff_ms = 0 ∷ 1000 ∷ 2000 ∷ 4000 ∷ 8000 ∷ 15000 ∷ 30000 ∷ 60000 ∷ 120000 ∷ 300000 ∷ []

abbrev pub lockout_after : ℕ
lockout_after = 10

abbrev pub lockout_ms : ℕ
lockout_ms = 15 * 60000

-- `Math.max(0, a - b)` is the subtraction of the native numbers.
unfoldable pub check : Throttle → ℕ → Check
check s now =
    let retry_in_ms = s.next_allowed_at - now in
    record {
      allowed = not s.busy && is_zero retry_in_ms;
      is_busy = s.busy;
      failed = s.failures;
      retry_in_ms = retry_in_ms;
    }

unfoldable pub begin : Throttle → ℕ → Throttle × Bool
unfolding check
begin s now = if (check s now).allowed then (record s { busy = true }, true) else (s, false)

unfoldable pub release : Throttle → Throttle
release s = record s { busy = false }

-- The table is read within its bounds, so the default of `get_or` is never taken.
unfoldable pub penalty_ms : ℕ → ℕ
penalty_ms failures =
    if leb lockout_after failures then lockout_ms else get_or backoff_ms (min failures 9) 0

unfoldable pub score : Throttle → Bool → ℕ → Throttle
score s true now = record { failures = 0; next_allowed_at = 0; busy = false }
score s false now = record {
  failures = s.failures + 1;
  next_allowed_at = now + penalty_ms (s.failures + 1);
  busy = false;
}
