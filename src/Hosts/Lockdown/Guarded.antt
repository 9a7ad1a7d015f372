-- ===== src/Hosts/Lockdown/Guarded.antt =====
-- When src/host-ops/vops-ssh-lockdown.service.ts touches the configuration of sshd, and what it leaves.
use vops.Prelude.{
  ℕ, suc, ◌≡◌, refl, sym, ◌⊎◌, inl, inr, arith, Bool, true, false, not, ◌&&◌, Option, none, some,
  List, [], ◌∷◌, is_empty, keep, Bool-cases, if◌then◌else◌,
}
use mathlib.Core.Path.{subst}
use vops.Prelude.Result.{Result, ok, err}
use vops.Hosts.Lockdown.{
  is_hardened, after_script, RefusalCode, LockdownPreflight, LockdownResult, unchanged, applied,
  LockdownError, unreachable, not_applied, rolled_back, protected, blocked, Act, tried, probed,
  locked, cancelled, reverted, audited, State, Target, did, is_blank, is_no, add_if, refusals_of,
  is_password_logins, signals_at, verify_user_key, preflight, verify_applied, settle, lock,
  blocking, disable_from, disable,
}

-- The script was run.
abbrev pub HasLocked : List Act → Type 0
HasLocked [] = ⊥
HasLocked (locked ∷ rest) = Unit
HasLocked (tried ∷ rest) = HasLocked rest
HasLocked (probed ∷ rest) = HasLocked rest
HasLocked (cancelled done ∷ rest) = HasLocked rest
HasLocked (reverted done ∷ rest) = HasLocked rest
HasLocked (audited ∷ rest) = HasLocked rest

refusals_lem :
    (override no_root unread unverified logins : Bool) (code : RefusalCode)
    → is_password_logins code ≡ false
    → is_empty (
        keep
          (λ c. not (override && is_password_logins c))
          (add_if no_root RefusalCode.no_sudo (
            add_if unread RefusalCode.sshd_unreadable
              (add_if unverified code (add_if logins RefusalCode.password_logins [])))))
      ≡ true
    → (no_root ≡ false)
      × (unread ≡ false)
      × (unverified ≡ false)
      × ((logins ≡ false) ⊎ (override ≡ true))
unfolding keep add_if is_password_logins
refusals_lem override true unread unverified logins code other h = ground arith
refusals_lem override false true unverified logins code other h = ground arith
refusals_lem override false false true logins code other h = ground arith
refusals_lem override false false false false code other h = (refl, refl, refl, inl refl)
refusals_lem true false false false true code other h = (refl, refl, refl, inr refl)
refusals_lem false false false false true code other h = ground arith

module _ (t : Target) (override : Bool) (n : ℕ) where
  -- What the probe of the preflight, and the try of the user's key after it, have shown.
  abbrev pub IsGuarded : Type 0
  IsGuarded =
      (t.writable ≡ true)
      × (t.ready ≡ true)
      × (is_no (signals_at t n).sudo ≡ false)
      × (is_blank (signals_at t n).sshd_t ≡ false)
      × (t.has_key ≡ true)
      × (t.opens (suc n) ≡ true)
      × ((is_empty (signals_at t n).password_logins ≡ true) ⊎ (override ≡ true))

  -- How it ends once the script was run.
  abbrev pub HasSettled : Result LockdownError LockdownResult → List Act → Type 0
  HasSettled (ok unchanged) trace = ⊥
  HasSettled (ok applied) trace =
      (t.opens (suc (suc (suc n))) ≡ true)
      × (is_hardened (signals_at t (suc (suc (suc (suc n))))) ≡ true)
      × (trace
          ≡ audited
            ∷ cancelled (t.obeys (suc (suc (suc (suc (suc n))))))
            ∷ probed
            ∷ tried
            ∷ locked
            ∷ tried
            ∷ probed
            ∷ [])
  HasSettled (err unreachable) trace = trace ≡ locked ∷ tried ∷ probed ∷ []
  HasSettled (err not_applied) trace =
      trace ≡ cancelled (t.obeys (suc (suc (suc n)))) ∷ locked ∷ tried ∷ probed ∷ []
  HasSettled (err rolled_back) trace =
      ((t.opens (suc (suc (suc n))) ≡ false)
        × (trace
            ≡ reverted (t.obeys (suc (suc (suc (suc n))))) ∷ tried ∷ locked ∷ tried ∷ probed ∷ []))
      ⊎ ((is_hardened (signals_at t (suc (suc (suc (suc n))))) ≡ false)
          × (trace
              ≡ reverted (t.obeys (suc (suc (suc (suc (suc n))))))
                ∷ probed
                ∷ tried
                ∷ locked
                ∷ tried
                ∷ probed
                ∷ []))
  HasSettled (err protected) trace = ⊥
  HasSettled (err (blocked codes)) trace = ⊥

  abbrev Begun : State
  Begun = record { calls = suc (suc n); trace = tried ∷ probed ∷ [] }

  settle_lem :
      t.has_key ≡ true
      → HasSettled
          (settle t (verify_applied t (did locked Begun))).0
          (settle t (verify_applied t (did locked Begun))).1.trace
  unfolding settle verify_applied verify_user_key
  settle_lem keyed = elim (Bool-cases (t.opens (suc (suc (suc n))))) [
    | inr e ↦ simp (keyed, e) (inl (refl, refl))
    | inl e ↦ elim (Bool-cases (is_hardened (signals_at t (suc (suc (suc (suc n))))))) [
      | inl g ↦ simp (keyed, e, g) (refl, refl, refl)
      | inr g ↦ simp (keyed, e, g) (inr (refl, refl))
    ]
  ]

  script_lem :
      (answer : Option Bool)
      → t.has_key ≡ true
      → HasSettled
          (after_script t answer (did locked Begun)).0
          (after_script t answer (did locked Begun)).1.trace
  unfolding after_script
  script_lem none keyed = refl
  script_lem (some false) keyed = refl
  script_lem (some true) keyed = settle_lem keyed

  from_lem :
      (pre : LockdownPreflight) (s : State)
      → (HasLocked s.trace → ⊥)
      → HasLocked (disable_from t override pre s).1.trace
      → (is_empty (blocking t override pre.refusals) ≡ true)
        × (disable_from t override pre s ≡ lock t s)
  unfolding disable_from
  from_lem pre s untouched = elim (Bool-cases pre.already_hardened) [
    | inl e ↦ simp (e) (λ h. elim (untouched h) [ ])
    | inr e ↦ elim (Bool-cases (is_empty (blocking t override pre.refusals))) [
      | inl g ↦ simp (e, g) (λ h. (refl, refl))
      | inr g ↦ simp (e, g) (λ h. elim (untouched h) [ ])
    ]
  ]

  abbrev pub Start : State
  Start = record { calls = n; trace = [] }

  code_of : Bool → RefusalCode
  code_of named = if named then RefusalCode.user_key_unverified else RefusalCode.no_user_key

  code_other : (named : Bool) → is_password_logins (code_of named) ≡ false
  unfolding code_of is_password_logins
  code_other true = refl
  code_other false = refl

  -- The preflight that lets the script run
  guards_lem :
      (verified : Bool)
      → is_empty (blocking t override (refusals_of (signals_at t n) verified t.named)) ≡ true
      → (is_no (signals_at t n).sudo ≡ false)
        × (is_blank (signals_at t n).sshd_t ≡ false)
        × (not verified ≡ false)
        × ((not (is_empty (signals_at t n).password_logins) ≡ false) ⊎ (override ≡ true))
  unfolding blocking refusals_of code_of
  guards_lem verified h =
      refusals_lem override (is_no (signals_at t n).sudo) (is_blank (signals_at t n).sshd_t)
        (not verified) (not (is_empty (signals_at t n).password_logins)) (code_of t.named)
        (code_other t.named) h

  logins_lem : (b : Bool) → ((not b ≡ false) ⊎ (override ≡ true)) → (b ≡ true) ⊎ (override ≡ true)
  logins_lem b h = ground arith

  unready_lem : is_empty (blocking t override (RefusalCode.not_ready ∷ [])) ≡ true → ⊥
  unfolding blocking keep is_password_logins
  unready_lem h = ground arith

  -- What the preflight returns, and where it leaves the host, as it is ready and there is a key or not
  unready : t.ready ≡ false → (preflight t Start).0.refusals ≡ RefusalCode.not_ready ∷ []
  unfolding preflight
  unready e = rw e refl

  refusals :
      t.ready ≡ true
      → (preflight t Start).0.refusals
        ≡ refusals_of (signals_at t n) (verify_user_key t (did probed Start)).0 t.named
  unfolding preflight
  refusals e = rw e refl

  reached : t.ready ≡ true → t.has_key ≡ true → (preflight t Start).1 ≡ Begun
  unfolding preflight verify_user_key
  reached e k = rw (e, k) refl

  keyless : t.has_key ≡ false → (verify_user_key t (did probed Start)).0 ≡ false
  unfolding verify_user_key
  keyless k = rw k refl

  keyed : t.has_key ≡ true → (verify_user_key t (did probed Start)).0 ≡ t.opens (suc n)
  unfolding verify_user_key
  keyed k = rw k refl

  untouched : HasLocked (preflight t Start).1.trace → ⊥
  unfolding preflight verify_user_key
  untouched = elim (Bool-cases t.ready) [
    | inr e ↦ rw e (λ h. h)
    | inl e ↦ elim (Bool-cases t.has_key) [
      | inl k ↦ rw (e, k) (λ h. h)
      | inr k ↦ rw (e, k) (λ h. h)
    ]
  ]

  abbrev Passed : Type 0
  Passed =
      (t.ready ≡ true)
      × (is_no (signals_at t n).sudo ≡ false)
      × (is_blank (signals_at t n).sshd_t ≡ false)
      × (t.has_key ≡ true)
      × (t.opens (suc n) ≡ true)
      × ((is_empty (signals_at t n).password_logins ≡ true) ⊎ (override ≡ true))

  passed_ready :
      t.ready ≡ true
      → is_empty (
          blocking t override
            (refusals_of (signals_at t n) (verify_user_key t (did probed Start)).0 t.named))
        ≡ true
      → Passed
  passed_ready e h =
      let (no_root, unread, unverified, logins) =
        guards_lem (verify_user_key t (did probed Start)).0 h in
      elim (Bool-cases t.has_key) [
        | inr k ↦ let v = keyless k in ground arith
        | inl k ↦
            let v = keyed k in
            (
              e,
              no_root,
              unread,
              k,
              ground arith,
              logins_lem (is_empty (signals_at t n).password_logins) logins,
            )
      ]

  passed : is_empty (blocking t override (preflight t Start).0.refusals) ≡ true → Passed
  passed h = elim (Bool-cases t.ready) [
    | inr e ↦
        elim (unready_lem (subst (λ x. is_empty (blocking t override x) ≡ true) (unready e) h)) [ ]
    | inl e ↦ passed_ready e (subst (λ x. is_empty (blocking t override x) ≡ true) (refusals e) h)
  ]

  abbrev Settled : Result LockdownError LockdownResult × State → Type 0
  Settled x = HasSettled x.0 x.1.trace

  lock_lem : (s : State) → t.has_key ≡ true → s ≡ Begun → Settled (lock t s)
  unfolding lock
  lock_lem s k e =
      subst (λ x. Settled (after_script t (t.apply x.calls) (did locked x))) (sym e)
        (script_lem (t.apply (suc (suc n))) k)

  from_preflight :
      HasLocked (disable_from t override (preflight t Start).0 (preflight t Start).1).1.trace
      → Passed × Settled (disable_from t override (preflight t Start).0 (preflight t Start).1)
  from_preflight h =
      let (clear, same) = from_lem (preflight t Start).0 (preflight t Start).1 untouched h in
      let (ready, root, read, k, opens, logins) = passed clear in
      (
        (ready, root, read, k, opens, logins),
        subst Settled (sym same) (lock_lem (preflight t Start).1 k (reached ready k)),
      )

  -- Hypothesis: the lockdown starts on a host with nothing done yet, and runs the script that changes the
  -- configuration of sshd. Then the host may be written to and was ready; the probe before it showed that
  -- root can be had, a configuration that can be read, and no recent password logins, unless the user
  -- overrode these; and the user's own key had opened a session. It ended in one of these ways: the call
  -- of the script threw; the script did not report the change, and the host was asked to cancel the
  -- switch that undoes it; the user's key opened no session after the script, or the probe did not
  -- show the change, and the host was asked to undo it; or the key opened a session after the
  -- script, the probe showed the change in effect, and only then the host was asked to cancel the
  -- switch. That the host did what it was asked at the end is not said.
  pub disable-IsGuarded :
      HasLocked (disable t override Start).1.trace
      → IsGuarded × HasSettled (disable t override Start).0 (disable t override Start).1.trace
  unfolding disable
  disable-IsGuarded = elim (Bool-cases t.writable) [
    | inr w ↦ simp (w) (λ h. elim h [ ])
    | inl w ↦ simp (w) (λ h.
        let ((ready, root, read, k, opens, logins), settled) = from_preflight h in
        ((refl, ready, root, read, k, opens, logins), settled))
  ]
