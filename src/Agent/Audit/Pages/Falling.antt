-- ===== src/Agent/Audit/Pages/Falling.antt =====
-- Rows in the falling order of their sequences, and what lies before one of them.
use mathlib.Core.Path.{subst}
use vops.Prelude.{
  ℕ, zero, suc, ◌+◌, ◌≤◌, ◌<◌, String, ◌≡◌, refl, ap, ◌∙◌, Bool, Option, some, List, [], ◌∷◌, ◌++◌,
  keep, take, length, ltb, if◌then◌else◌, arith, Bool-cases, inl, inr, ltb→lt,
}
use vops.Agent.Audit.{Row}
use vops.Agent.Audit.Pages.{Entry, entries_from, in_session, is_before, last_sequence}

abbrev pub drop : ℕ → List Entry → List Entry
drop zero xs = xs
drop (suc n) [] = []
drop (suc n) (x ∷ xs) = drop n xs

-- All sequences lie below the number.
abbrev pub IsBelow : ℕ → List Entry → Type 0
IsBelow c [] = Unit
IsBelow c (x ∷ xs) = (x.sequence < c) × IsBelow c xs

abbrev pub IsFalling : List Entry → Type 0
IsFalling [] = Unit
IsFalling (x ∷ xs) = IsBelow x.sequence xs × IsFalling xs

keep-below : (c : ℕ) (xs : List Entry) → IsBelow c xs → keep (is_before (some c)) xs ≡ xs
unfolding keep is_before
keep-below c [] h = refl
keep-below c (x ∷ xs) h = ground (arith, keep-below c xs h.1)

pub IsBelow-weaken : (c d : ℕ) (xs : List Entry) → c ≤ d → IsBelow c xs → IsBelow d xs
IsBelow-weaken c d [] h b = tt
IsBelow-weaken c d (x ∷ xs) h b = (omega (arith, b.0), IsBelow-weaken c d xs h b.1)

pub keep-IsBelow :
    (p : Entry → Bool) (c : ℕ) (xs : List Entry) → IsBelow c xs → IsBelow c (keep p xs)
unfolding keep
keep-IsBelow p c [] h = tt
keep-IsBelow p c (x ∷ xs) h = elim (Bool-cases (p x)) [
  | inl y ↦ rw (y, keep) (h.0, keep-IsBelow p c xs h.1)
  | inr n ↦ rw (n, keep) (keep-IsBelow p c xs h.1)
]

pub keep-IsFalling : (p : Entry → Bool) (xs : List Entry) → IsFalling xs → IsFalling (keep p xs)
unfolding keep
keep-IsFalling p [] h = tt
keep-IsFalling p (x ∷ xs) h = elim (Bool-cases (p x)) [
  | inl y ↦ rw (y, keep) (keep-IsBelow p x.sequence xs h.0, keep-IsFalling p xs h.1)
  | inr n ↦ rw (n, keep) (keep-IsFalling p xs h.1)
]

pub entries_from-IsFalling :
    (n : ℕ) (rows : List Row) (below : List Entry)
    → IsBelow (suc n) below
    → IsFalling below
    → IsFalling (entries_from n rows below)
unfolding entries_from
entries_from-IsFalling n [] below h f = f
entries_from-IsFalling n (r ∷ rows) below h f =
    entries_from-IsFalling (suc n) rows (record { sequence = suc n; row = r } ∷ below)
      (omega arith, IsBelow-weaken (suc n) (suc (suc n)) below (omega arith) h) (h, f)

pub last-IsBelow :
    (n b c : ℕ) (xs : List Entry) → last_sequence (take n xs) ≡ some c → IsBelow b xs → c < b
unfolding last_sequence
last-IsBelow zero b c xs e h = cc
last-IsBelow (suc n) b c [] e h = cc
last-IsBelow (suc zero) b c (x ∷ xs) e h = ground arith
last-IsBelow (suc (suc n)) b c (x ∷ []) e h = ground arith
last-IsBelow (suc (suc n)) b c (x ∷ y ∷ xs) e h = last-IsBelow (suc n) b c (y ∷ xs) e h.1

-- What lies before a row of the list is the rest of the list below it.
pub keep-rest :
    (k : ℕ) (xs : List Entry) (c : ℕ)
    → IsFalling xs
    → last_sequence (take (suc k) xs) ≡ some c
    → keep (is_before (some c)) xs ≡ drop (suc k) xs
unfolding keep is_before last_sequence
keep-rest k [] c f e = refl
keep-rest zero (x ∷ xs) c f e =
    ground (arith, keep-below c xs (subst (λ n. IsBelow n xs) (ground arith) f.0))
keep-rest (suc k) (x ∷ []) c f e = ground arith
keep-rest (suc k) (x ∷ y ∷ xs) c f e =
    ground (arith, keep-rest k (y ∷ xs) c f.1 e, last-IsBelow (suc k) x.sequence c (y ∷ xs) e f.0)

pub keep_twice :
    (b c : ℕ) (xs : List Entry)
    → c ≤ b
    → keep (is_before (some c)) (keep (is_before (some b)) xs) ≡ keep (is_before (some c)) xs
unfolding keep is_before
keep_twice b c [] h = refl
keep_twice b c (x ∷ xs) h = elim (Bool-cases (ltb x.sequence b)) [
  | inl y ↦ rw (y, keep) (ap (λ l. if ltb x.sequence c then x ∷ l else l) (keep_twice b c xs h))
  | inr n ↦ ground (arith, keep_twice b c xs h)
]

pub before-IsBelow : (b : ℕ) (xs : List Entry) → IsBelow b (keep (is_before (some b)) xs)
unfolding keep is_before
before-IsBelow b [] = tt
before-IsBelow b (x ∷ xs) = elim (Bool-cases (ltb x.sequence b)) [
  | inl y ↦ rw (y, keep) (ltb→lt x.sequence b y, before-IsBelow b xs)
  | inr n ↦ rw (n, keep) (before-IsBelow b xs)
]

keep_newer :
    (s : Option String) (c : ℕ) (e : Entry) (below : List Entry)
    → c ≤ e.sequence
    → keep (is_before (some c)) (keep (in_session s) (e ∷ below))
      ≡ keep (is_before (some c)) (keep (in_session s) below)
unfolding keep is_before
keep_newer s c e below h = elim (Bool-cases (in_session s e)) [
  | inl y ↦ rw (y, keep) (ground arith)
  | inr n ↦ rw (n, keep)
]

-- Rows that arrive later lie above every cursor that has been given.
pub keep-arrivals :
    (s : Option String) (c n : ℕ) (new : List Row) (below : List Entry)
    → c ≤ suc n
    → keep (is_before (some c)) (keep (in_session s) (entries_from n new below))
      ≡ keep (is_before (some c)) (keep (in_session s) below)
unfolding entries_from
keep-arrivals s c n [] below h = refl
keep-arrivals s c n (r ∷ new) below h =
    keep-arrivals s c (suc n) new (record { sequence = suc n; row = r } ∷ below) (omega arith)
    ∙ keep_newer s c (record { sequence = suc n; row = r }) below h

pub entries_from-append :
    (n : ℕ) (rows new : List Row) (below : List Entry)
    → entries_from n (rows ++ new) below
      ≡ entries_from (n + length rows) new (entries_from n rows below)
unfolding entries_from
entries_from-append n [] new below = ap (λ m. entries_from m new below) (omega arith)
entries_from-append n (r ∷ rows) new below =
    let next : List Entry = record { sequence = suc n; row = r } ∷ below in
    entries_from-append (suc n) rows new next
    ∙ ap (λ m. entries_from m new (entries_from (suc n) rows next)) (omega arith)

pub entries_from-IsBelow :
    (n : ℕ) (rows : List Row) (below : List Entry)
    → IsBelow (suc n) below
    → IsBelow (suc (n + length rows)) (entries_from n rows below)
unfolding entries_from
entries_from-IsBelow n [] below h = IsBelow-weaken (suc n) (suc (n + 0)) below (omega arith) h
entries_from-IsBelow n (r ∷ rows) below h =
    let next : List Entry = record { sequence = suc n; row = r } ∷ below in
    IsBelow-weaken (suc (suc n + length rows)) (suc (n + suc (length rows)))
      (entries_from (suc n) rows next) (omega arith)
      (entries_from-IsBelow (suc n) rows next
        (omega arith, IsBelow-weaken (suc n) (suc (suc n)) below (omega arith) h))
