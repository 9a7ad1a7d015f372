-- ===== src/Agent/Verification/Passed.antt =====
-- When an operation counts as verified.
use vops.Prelude.{
  ◌≡◌, ◌≢◌, ◌↔◌, refl, Bool, false, ◌||◌, List, [], ◌∷◌, any, is_empty, eq_iff, arith, ◌⊎◌, inl,
  inr, true, includes, ◌==◌, Bool-cases,
}
use vops.Agent.Model.{passed, Check}
use vops.Agent.Verification.{
  inherited_names, StepResult, has_failing, is_degraded, is_not_verified, verdict, overall,
  checks_of, summarise_verification,
}

-- A check that names no failing check, and whose status is "healthy" or a name that every object inherits.
abbrev pub IsAccepted : Check → Type 0
IsAccepted c =
    ((c.status ≡ "healthy") ⊎ (includes inherited_names c.status ≡ true)) × (c.failing ≡ [])

abbrev pub AllAccepted : List Check → Type 0
AllAccepted [] = Unit
AllAccepted (c ∷ cs) = IsAccepted c × AllAccepted cs

unwell : Check → Bool
unwell c = has_failing c || (is_degraded (verdict c.status) || is_not_verified (verdict c.status))

-- None of the three keys of VERDICT is inherited.
own_names :
    (includes inherited_names "degraded" ≡ false) × (includes inherited_names "unknown" ≡ false)
unfolding includes
own_names = (refl, refl)

unwell_iff : (c : Check) → (unwell c ≡ false) ↔ IsAccepted c
unfolding unwell has_failing is_degraded is_not_verified verdict
unwell_iff c = (λ h. (status_lem h, ground arith), λ h. back h)
  where
    status_lem :
        unwell c ≡ false → (c.status ≡ "healthy") ⊎ (includes inherited_names c.status ≡ true)
    status_lem h = ground (arith, eq_iff c.status "healthy")

    back : IsAccepted c → unwell c ≡ false
    back (inl e, f) = rw (e, f) refl
    back (inr e, f) = elim (Bool-cases (c.status == "degraded")) [
      | inl d ↦
          let same : includes inherited_names c.status ≡ false =
            rw ((eq_iff c.status "degraded").0 d) own_names.0 in
          ground arith
      | inr d ↦ elim (Bool-cases (c.status == "unknown")) [
        | inl u ↦
            let same : includes inherited_names c.status ≡ false =
              rw ((eq_iff c.status "unknown").0 u) own_names.1 in
            ground arith
        | inr u ↦ ground arith
      ]
    ]

none_unwell : (cs : List Check) → (any unwell cs ≡ false) ↔ AllAccepted cs
unfolding any
none_unwell [] = (λ h. tt, λ h. refl)
none_unwell (c ∷ cs) = (
  λ h. (ground (arith, unwell_iff c), ground (arith, none_unwell cs)),
  λ h. ground (arith, unwell_iff c, none_unwell cs),
)

any-unwell :
    (cs : List Check)
    → any unwell cs ≡ (
        any has_failing cs
        || (any (λ c. is_degraded (verdict c.status)) cs
            || any (λ c. is_not_verified (verdict c.status)) cs))
unfolding any unwell
any-unwell [] = refl
any-unwell (c ∷ cs) = ground (arith, any-unwell cs)

overall_iff :
    (cs : List Check) → (overall cs ≡ passed) ↔ ((is_empty cs ≡ false) × (any unwell cs ≡ false))
unfolding overall
overall_iff cs = (λ h. ground (arith, any-unwell cs), λ h. ground (arith, any-unwell cs))

-- A plan's results count as passed exactly if at least one of its steps is a health check, and every
-- health check names no failing check and reports "healthy", or else a name that every object of
-- JavaScript inherits, such as "constructor".
pub summarise_verification-passed :
    (results : List StepResult)
    → ((summarise_verification results).status ≡ passed)
      ↔ ((checks_of results ≢ []) × AllAccepted (checks_of results))
unfolding summarise_verification
summarise_verification-passed results =
    let cs = checks_of results in
    (
      λ h. (ground (arith, overall_iff cs), (none_unwell cs).0 (ground (arith, overall_iff cs))),
      λ h. (overall_iff cs).1 (ground arith, (none_unwell cs).1 h.1),
    )
