-- ===== src/Agent/Redaction/Laws.antt =====
-- Redaction is stable, reports what it did, and agrees with the test on plan inputs.
use mathlib.Core.Path.{ap₂}
use vops.Prelude.{
  ◌⊎◌, String, ◌≡◌, refl, ap, Bool, true, false, eq_iff, arith, Bool-cases, inl, inr,
}
use vops.Agent.Json.{Json, null, bool, num, str, arr, obj, Items, nil, cons, Fields, end, field}
use vops.Agent.Redaction.{
  Patterns, redacted, hides, visit, visit_items, visit_fields, redact_secrets,
  contains_secret_like_field, some_item, some_field,
}

module _ (p : Patterns) where
  -- Every text stands as the patterns leave it.
  abbrev mutual
    pub IsClean : Json → Type 0
    IsClean null = Unit
    IsClean (bool b) = Unit
    IsClean (num n) = Unit
    IsClean (str s) = p.scrub s ≡ s
    IsClean (arr xs) = AreClean xs
    IsClean (obj fs) = HasClean fs

    pub AreClean : Items → Type 0
    AreClean nil = Unit
    AreClean (cons x xs) = IsClean x × AreClean xs

    pub HasClean : Fields → Type 0
    HasClean end = Unit
    HasClean (field k v fs) = IsClean v × HasClean fs

  -- Under a key that hides its value stands the mark, and every other text is one that the patterns
  -- have been through.
  abbrev mutual
    pub IsSafe : Json → Type 0
    IsSafe null = Unit
    IsSafe (bool b) = Unit
    IsSafe (num n) = Unit
    IsSafe (str s) = (t : String) × (s ≡ p.scrub t)
    IsSafe (arr xs) = AreSafe xs
    IsSafe (obj fs) = HasSafe fs

    pub AreSafe : Items → Type 0
    AreSafe nil = Unit
    AreSafe (cons x xs) = IsSafe x × AreSafe xs

    pub HasSafe : Fields → Type 0
    HasSafe end = Unit
    HasSafe (field k v fs) =
        ((hides p k ≡ true) × (v ≡ redacted) ⊎ (hides p k ≡ false) × IsSafe v) × HasSafe fs

  hides_sensitive : (k : String) → p.is_sensitive k ≡ false → hides p k ≡ false
  unfolding hides
  hides_sensitive k h = ground arith

  mutual
    unfolding visit visit_items visit_fields contains_secret_like_field some_item some_field

    visit-clean :
        (j : Json) (a : Bool)
        → IsClean j
        → contains_secret_like_field p j ≡ false
        → visit p j a ≡ (j, a)
    visit-clean null a c n = refl
    visit-clean (bool b) a c n = refl
    visit-clean (num k) a c n = refl
    visit-clean (str s) a c n = ground (arith, eq_iff (p.scrub s) s)
    visit-clean (arr xs) a c n = ground (arith, visit_items-clean xs a c n)
    visit-clean (obj fs) a c n = ground (arith, visit_fields-clean fs a c n)

    visit_items-clean :
        (xs : Items) (a : Bool)
        → AreClean xs
        → some_item p xs ≡ false
        → visit_items p xs a ≡ (xs, a)
    visit_items-clean nil a c n = refl
    visit_items-clean (cons x xs) a c n =
        ground (arith, visit-clean x a c.0, visit_items-clean xs a c.1)

    visit_fields-clean :
        (fs : Fields) (a : Bool)
        → HasClean fs
        → some_field p fs ≡ false
        → visit_fields p fs a ≡ (fs, a)
    visit_fields-clean end a c n = refl
    visit_fields-clean (field k v fs) a c n =
        ground (arith, hides_sensitive k, visit-clean v a c.0, visit_fields-clean fs a c.1)

  mutual
    unfolding visit visit_items visit_fields

    visit-IsSafe : (j : Json) (a : Bool) → IsSafe (visit p j a).0
    visit-IsSafe null a = tt
    visit-IsSafe (bool b) a = tt
    visit-IsSafe (num k) a = tt
    visit-IsSafe (str s) a = (s, refl)
    visit-IsSafe (arr xs) a = visit_items-AreSafe xs a
    visit-IsSafe (obj fs) a = visit_fields-HasSafe fs a

    visit_items-AreSafe : (xs : Items) (a : Bool) → AreSafe (visit_items p xs a).0
    visit_items-AreSafe nil a = tt
    visit_items-AreSafe (cons x xs) a = (visit-IsSafe x a, visit_items-AreSafe xs (visit p x a).1)

    visit_fields-HasSafe : (fs : Fields) (a : Bool) → HasSafe (visit_fields p fs a).0
    visit_fields-HasSafe end a = tt
    visit_fields-HasSafe (field k v fs) a = elim (Bool-cases (hides p k)) [
      | inl h ↦ rw h (inl (refl, refl), visit_fields-HasSafe fs true)
      | inr h ↦ rw h (inr (refl, visit-IsSafe v a), visit_fields-HasSafe fs (visit p v a).1)
    ]

  mutual
    unfolding visit visit_items visit_fields

    -- the flag is never taken back, and while it is down nothing has changed
    visit-report :
        (j : Json) (a : Bool) → (visit p j a).1 ≡ false → (a ≡ false) × ((visit p j a).0 ≡ j)
    visit-report null a h = (h, refl)
    visit-report (bool b) a h = (h, refl)
    visit-report (num k) a h = (h, refl)
    visit-report (str s) a h = ground (arith, eq_iff (p.scrub s) s)
    visit-report (arr xs) a h = let (x, y) = visit_items-report xs a h in (x, ap arr y)
    visit-report (obj fs) a h = let (x, y) = visit_fields-report fs a h in (x, ap obj y)

    visit_items-report :
        (xs : Items) (a : Bool)
        → (visit_items p xs a).1 ≡ false
        → (a ≡ false) × ((visit_items p xs a).0 ≡ xs)
    visit_items-report nil a h = (h, refl)
    visit_items-report (cons x xs) a h =
        let (later, rest) = visit_items-report xs (visit p x a).1 h in
        let (now, same) = visit-report x a later in (now, ap₂ cons same rest)

    visit_fields-report :
        (fs : Fields) (a : Bool)
        → (visit_fields p fs a).1 ≡ false
        → (a ≡ false) × ((visit_fields p fs a).0 ≡ fs)
    visit_fields-report end a h = (h, refl)
    visit_fields-report (field k v fs) a h = elim (Bool-cases (hides p k)) [
      | inl e ↦
          let (later, rest) = visit_fields-report fs true (rw (e, visit_fields) at h) in
          absurd (cc later)
      | inr e ↦
          let (later, rest) = visit_fields-report fs (visit p v a).1 (rw (e, visit_fields) at h) in
          let (now, same) = visit-report v a later in
          rw (e, visit_fields) (now, ap₂ (field k) same rest)
    ]

  -- Whatever is redacted, no value is left under a sensitive key and no text that the patterns would
  -- still have to go through; and if redaction reports that it did nothing, the value is unchanged.
  pub redact_secrets-IsSafe :
      (j : Json)
      → IsSafe (redact_secrets p j).0
        × ((redact_secrets p j).1 ≡ false → (redact_secrets p j).0 ≡ j)
  unfolding redact_secrets
  redact_secrets-IsSafe j = (visit-IsSafe j false, λ h. (visit-report j false h).1)

  -- An input that passes the test on plan inputs, and whose texts the patterns leave alone, is
  -- stored as it stands.
  pub redact_secrets-clean :
      (j : Json)
      → IsClean j
      → contains_secret_like_field p j ≡ false
      → redact_secrets p j ≡ (j, false)
  unfolding redact_secrets
  redact_secrets-clean j c n = visit-clean j false c n

module _ (p : Patterns) (stable : (s : String) → p.scrub (p.scrub s) ≡ p.scrub s)
    (mark : p.scrub "[REDACTED]" ≡ "[REDACTED]") where
  mutual
    unfolding visit visit_items visit_fields

    visit-visit : (j : Json) (a b : Bool) → (visit p (visit p j a).0 b).0 ≡ (visit p j a).0
    visit-visit null a b = refl
    visit-visit (bool x) a b = refl
    visit-visit (num k) a b = refl
    visit-visit (str s) a b = ap str (stable s)
    visit-visit (arr xs) a b = ap arr (visit_items-visit xs a b)
    visit-visit (obj fs) a b = ap obj (visit_fields-visit fs a b)

    visit_items-visit :
        (xs : Items) (a b : Bool)
        → (visit_items p (visit_items p xs a).0 b).0 ≡ (visit_items p xs a).0
    visit_items-visit nil a b = refl
    visit_items-visit (cons x xs) a b =
        ap₂ cons (visit-visit x a b)
          (visit_items-visit xs (visit p x a).1 (visit p (visit p x a).0 b).1)

    visit_fields-visit :
        (fs : Fields) (a b : Bool)
        → (visit_fields p (visit_fields p fs a).0 b).0 ≡ (visit_fields p fs a).0
    visit_fields-visit end a b = refl
    visit_fields-visit (field k v fs) a b = elim (Bool-cases (hides p k)) [
      | inl e ↦ rw e (ap (field k redacted) (visit_fields-visit fs true true))
      | inr e ↦ rw e (
          ap₂ (field k) (visit-visit v a b)
            (visit_fields-visit fs (visit p v a).1 (visit p (visit p v a).0 b).1))
    ]

  -- Redacting what has been redacted changes nothing, where the patterns are stable on what they
  -- leave and on the mark.
  pub redact_secrets_idem :
      (j : Json) → (redact_secrets p (redact_secrets p j).0).0 ≡ (redact_secrets p j).0
  unfolding redact_secrets
  redact_secrets_idem j = visit-visit j false false
