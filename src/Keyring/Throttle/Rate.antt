-- ===== src/Keyring/Throttle/Rate.antt =====
-- How fast a client of the unlock throttle can guess.
use vops.Prelude.{
  ℕ, ◌+◌, ◌-◌, ◌*◌, ◌≤◌, ◌≡◌, true, false, List, [], ◌∷◌, Option, none, some, arith, leb,
  if◌then◌else◌, length, ◌&&◌, tests, leb→le, not_leb, Bool-cases, Option-cases, inl, inr,
}
use vops.Keyring.Throttle.{Throttle, check, begin, score, penalty_ms, lockout_ms}

-- An attempt that the throttle admits, and that fails: the slot is claimed at `start` and the
-- outcome reported at `end`, not earlier.
pub record Attempt : Type 0 where
  pub start : ℕ
  pub end : ℕ

unfoldable pub fail_once : Throttle → Attempt → Option Throttle
unfolding begin score
fail_once s a =
    let (s', admitted) = begin s a.start in
    if admitted && leb a.start a.end then some (score s' false a.end) else none

-- All attempts are admitted and fail.
unfoldable pub fail_all : Throttle → List Attempt → Option Throttle
fail_all s [] = some s
fail_all s (a ∷ rest) = elim (fail_once s a) [ none ↦ none | some s' ↦ fail_all s' rest ]

-- While an attempt is in flight no other is admitted, whatever the time, and the refused claim
-- changes nothing.
pub begin_exclusive :
    (s : Throttle) (t u : ℕ) → (begin s t).1 ≡ true → begin (begin s t).0 u ≡ ((begin s t).0, false)
unfolding begin check
begin_exclusive s t u h = ground arith

penalty-locked : (n : ℕ) → 10 ≤ n → penalty_ms n ≡ lockout_ms
unfolding penalty_ms
penalty-locked n h = ground arith

-- One more failure: the counter goes up, and the next attempt is not allowed before the end of
-- this one, and not for a whole lockout once nine failures stand.
fail_once_lem :
    (s s' : Throttle) (a : Attempt)
    → fail_once s a ≡ some s'
    → (s'.failures ≡ s.failures + 1) × (s.next_allowed_at ≤ s'.next_allowed_at)
unfolding fail_once begin check score
fail_once_lem s s' a e = ground arith

fail_once-locked :
    (s s' : Throttle) (a : Attempt)
    → 9 ≤ s.failures
    → fail_once s a ≡ some s'
    → s.next_allowed_at + lockout_ms ≤ s'.next_allowed_at
unfolding fail_once begin check score
fail_once-locked s s' a h e = ground (arith, penalty-locked (s.failures + 1))

-- The failures of `n` attempts beyond the first nine, each worth a lockout.
abbrev pub lockouts : ℕ → ℕ → ℕ
lockouts failures n = n - (9 - failures)

fail_all_lem :
    (s s' : Throttle) (l : List Attempt)
    → fail_all s l ≡ some s'
    → s.next_allowed_at + lockouts s.failures (length l) * lockout_ms ≤ s'.next_allowed_at
unfolding fail_all
fail_all_lem s s' [] e = ground arith
fail_all_lem s s' (a ∷ rest) e = elim (Option-cases (fail_once s a)) [
  | inl refused ↦ ground (arith, refused)
  | inr (t, accepted) ↦
      let e' : fail_all t rest ≡ some s' = rw (accepted, fail_all) at e in
      let ih = fail_all_lem t s' rest e' in
      let (counted, later) = fail_once_lem s t a accepted in
      elim (Bool-cases (leb 9 s.failures)) [
        | inl h ↦ omega (tests, fail_once-locked s t a (leb→le 9 s.failures h) accepted)
        | inr h ↦ omega (tests, not_leb 9 s.failures h)
      ]
]

-- From any state, after any run of admitted attempts that all fail, every failure beyond the
-- ninth has put the next admitted attempt a further fifteen minutes off.
pub guess_rate :
    (s s' : Throttle) (l : List Attempt) (t : ℕ)
    → fail_all s l ≡ some s'
    → (begin s' t).1 ≡ true
    → s.next_allowed_at + lockouts s.failures (length l) * lockout_ms ≤ t
unfolding begin check
guess_rate s s' l t e admitted = ground (arith, fail_all_lem s s' l e)
