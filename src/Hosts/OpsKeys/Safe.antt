-- ===== src/Hosts/OpsKeys/Safe.antt =====
-- What VopsHostKeysService.revokeOps of src/host-ops/vops-host-keys.service.ts leaves on a host.
use vops.Prelude.{
  ℕ, suc, String, ◌≡◌, refl, ◌⊎◌, inl, inr, arith, Bool, true, false, Option, none, some, List, [],
  ◌∷◌, Bool-cases, is_empty, keep, leb,
}
use mathlib.Core.Path.{subst}
use vops.Hosts.Lines.{
  Line, File, to_lines, cons_line, or_blank, trim, trim_start, words, split_words, second,
}
use vops.Hosts.AuthorizedKeys.{
  assess_revoke_safety, authorizes_key_data, authorizes_blob, has_other_authorized_key, key_blob,
  remove_ops_line,
}
use vops.Hosts.Triples.{HasOpened, Leads, Leads-bind, at_end}
use vops.Hosts.Ssh.{
  Event, opened, wrote, audited, Remote, State, called, try_key, written, put_file,
  read_authorized_keys, ask_home, print_file, append_audit,
}
use vops.Hosts.OpsKeys.{
  UserKey, Keys, Options, RevokeOps, assert_writable, put_if, ops_session, ops_target, try_user,
  revoke_target, remove_line, revoke_from, revoke_ops,
}

-- What the verified key still opens: the file, or a place that vops does not write.
abbrev pub Remains : File → File → Line → Type 0
Remains before after key =
    (authorizes_key_data after key ≡ true) ⊎ (authorizes_key_data before key ≡ false)

blob-Remains :
    (before after : File) (key : Line)
    → is_empty (key_blob key) ≡ false
    → (authorizes_blob after (key_blob key) ≡ true)
      ⊎ (authorizes_blob before (key_blob key) ≡ false)
    → Remains before after key
unfolding authorizes_key_data
blob-Remains before after key full (inl e) = inl (rw (full, e) refl)
blob-Remains before after key full (inr e) = inr (rw (full, e) refl)

assess_some :
    (before after : File) (tag key : Line)
    → (assess_revoke_safety before after tag (some key)).safe ≡ true
    → (has_other_authorized_key after tag ≡ true)
      ⊎ ((is_empty (key_blob key) ≡ false)
          × ((authorizes_blob after (key_blob key) ≡ true)
              ⊎ (authorizes_blob before (key_blob key) ≡ false)))
unfolding assess_revoke_safety or_blank
assess_some before after tag key e = ground arith

no_blob : key_blob [] ≡ []
unfolding key_blob trim trim_start words split_words second or_blank
no_blob = refl

assess_none :
    (before after : File) (tag : Line)
    → (assess_revoke_safety before after tag none).safe ≡ true
    → has_other_authorized_key after tag ≡ true
unfolding assess_revoke_safety or_blank
assess_none before after tag e = let blank = no_blob in ground arith

assess_lem :
    (before after : File) (tag : Line) (verified : Option Line)
    → (assess_revoke_safety before after tag verified).safe ≡ true
    → (has_other_authorized_key after tag ≡ true)
      ⊎ ((key : Line) × (verified ≡ some key) × Remains before after key)
assess_lem before after tag none e = inl (assess_none before after tag e)
assess_lem before after tag (some key) e = elim (assess_some before after tag key e) [
  | inl other ↦ inl other
  | inr (full, h) ↦ inr (key, refl, blob-Remains before after key full h)
]

module _ (r : Remote) (k : Keys) (original : File) where
  -- The file holds another key, or the user's key has opened a session and still opens one.
  abbrev pub IsSafe : File → List Event → Type 0
  IsSafe f before =
      (has_other_authorized_key f k.tag ≡ true)
      ⊎ ((u : UserKey) × (k.user_key ≡ some u)
          × HasOpened u.private_key_path before
          × Remains original f u.public_key)

  abbrev pub NeverLocked : List Event → Type 0
  NeverLocked [] = Unit
  NeverLocked (wrote f ∷ rest) = IsSafe f rest × NeverLocked rest
  NeverLocked (opened key ∷ rest) = NeverLocked rest
  NeverLocked (audited ∷ rest) = NeverLocked rest

  abbrev Inv : State → Type 0
  Inv s = NeverLocked s.trace

  abbrev Untouched : State → Type 0
  Untouched s = (s.file ≡ original) × NeverLocked s.trace

  abbrev Opened : Option Line → List Event → Type 0
  Opened none t = Unit
  Opened (some key) t =
      (u : UserKey) × (k.user_key ≡ some u) × (u.public_key ≡ key) × HasOpened u.private_key_path t

  abbrev Known : Option Line → State → Type 0
  Known verified s = Untouched s × Opened verified s.trace

  ops_session-Leads : (path : Option String) → Leads Inv Untouched (ops_session r k path) Known
  unfolding ops_session
  ops_session-Leads none s h = h.1
  ops_session-Leads (some path) s h = (h, tt)

  ops_target-Leads : Leads Inv Untouched (ops_target r k) Known
  unfolding ops_target
  ops_target-Leads = ops_session-Leads k.ops_key

  try_user-Leads : (u : UserKey) → k.user_key ≡ some u → Leads Inv Untouched (try_user r k u) Known
  unfolding try_user try_key
  try_user-Leads u same s h = elim (Bool-cases (r.opens u.private_key_path s.file s.calls)) [
    | inl e ↦ rw e (h, (u, same, refl, inl refl))
    | inr e ↦ rw e (ops_target-Leads (called s) h)
  ]

  revoke_target-Leads :
      (o : Option UserKey) → k.user_key ≡ o → Leads Inv Untouched (revoke_target r k o) Known
  unfolding revoke_target
  revoke_target-Leads none same = ops_target-Leads
  revoke_target-Leads (some u) same = elim (Bool-cases u.has_private_key) [
    | inl e ↦ rw e (try_user-Leads u same)
    | inr e ↦ rw e ops_target-Leads
  ]

  -- What was read is the file, or nothing.
  abbrev ReadAs : Option Line → File → State → Type 0
  ReadAs verified f s = ((f ≡ original) ⊎ (f ≡ [] ∷ [])) × Known verified s

  read-Leads :
      (verified : Option Line)
      → Leads Inv (Known verified) (read_authorized_keys r) (ReadAs verified)
  unfolding read_authorized_keys ask_home print_file
  read-Leads verified s h = elim (Bool-cases (r.reaches s.calls)) [
    | inl e ↦ elim (Bool-cases (r.prints (suc s.calls))) [
      | inl p ↦ rw (e, p) (inl h.0.0, h)
      | inr p ↦ rw (e, p) (inr refl, h)
    ]
    | inr e ↦ rw e h.0.1
  ]

  put_if-Leads :
      (wanted : Bool) (f : File)
      → Leads Inv
          (λ s. (wanted ≡ true → IsSafe f s.trace) × NeverLocked s.trace)
          (put_if r k wanted f)
          (λ u. Inv)
  unfolding put_if put_file written
  put_if-Leads false f s h = h.1
  put_if-Leads true f s h = elim (Bool-cases (r.takes_effect s.calls)) [
    | inl e ↦ elim (Bool-cases (r.reports s.calls)) [
      | inl g ↦ rw (e, g) (h.0 refl, h.1)
      | inr g ↦ rw (e, g) (h.0 refl, h.1)
    ]
    | inr e ↦ elim (Bool-cases (r.reports s.calls)) [
      | inl g ↦ rw (e, g) h.1
      | inr g ↦ rw (e, g) h.1
    ]
  ]

  remove_line-ends :
      (f : File) (removed : ℕ)
      → Leads Inv
          (λ s. (leb 1 removed ≡ true → IsSafe f s.trace) × NeverLocked s.trace)
          (remove_line r k f removed)
          (λ a. Inv)
  unfolding remove_line append_audit
  remove_line-ends f removed =
      Leads-bind Inv _ (λ u. Inv) (λ a. Inv) (put_if r k (leb 1 removed) f) _
        (put_if-Leads (leb 1 removed) f) (λ u s h. h)

  -- Nothing is removed from a file that was not read.
  blank_lem : (tag : Line) → (remove_ops_line ([] ∷ []) tag).1 ≡ 0
  unfolding remove_ops_line to_lines cons_line keep
  blank_lem tag = refl

  by_key :
      (verified : Option Line) (key : Line) (t : List Event)
      → Opened verified t
      → verified ≡ some key
      → Opened (some key) t
  by_key verified key t h e = subst (λ x. Opened x t) e h

  safe_write :
      (verified : Option Line) (f : File) (s : State)
      → ReadAs verified f s
      → (assess_revoke_safety f (remove_ops_line f k.tag).0 k.tag verified).safe ≡ true
      → leb 1 (remove_ops_line f k.tag).1 ≡ true
      → IsSafe (remove_ops_line f k.tag).0 s.trace
  safe_write verified f s (inl same, known) safe some_removed =
      elim (assess_lem f (remove_ops_line f k.tag).0 k.tag verified safe) [
        | inl other ↦ inl other
        | inr (key, e, remains) ↦
            let (u, mine, public, opened_it) = by_key verified key s.trace known.1 e in
            inr (u, mine, opened_it, rw (public, ← same) remains)
      ]
  safe_write verified f s (inr blank, known) safe some_removed =
      let none_removed : (remove_ops_line f k.tag).1 ≡ 0 = rw blank (blank_lem k.tag) in
      ground arith

  revoke_from-ends :
      (opts : Options)
      → opts.force ≡ false
      → (verified : Option Line) (f : File)
      → Leads Inv (ReadAs verified f) (revoke_from r k opts verified f) (λ a. Inv)
  unfolding revoke_from
  revoke_from-ends opts unforced verified f s h = elim (Bool-cases opts.dry_run) [
    | inl d ↦ rw d h.1.0.1
    | inr d ↦
        elim (Bool-cases (assess_revoke_safety f (remove_ops_line f k.tag).0 k.tag verified).safe) [
          | inl safe ↦
              rw (d, safe)
                (remove_line-ends (remove_ops_line f k.tag).0 (remove_ops_line f k.tag).1 s
                  (safe_write verified f s h safe, h.1.0.1))
          | inr unsafe ↦ rw (d, unsafe, unforced) h.1.0.1
        ]
  ]

  writable-Leads : Leads Inv Untouched (assert_writable r k) (λ u. Untouched)
  unfolding assert_writable
  writable-Leads s h = elim (Bool-cases k.writable) [ inl w ↦ simp (w) h | inr w ↦ simp (w) h.1 ]

  revoke_ops-ends :
      (opts : Options) → opts.force ≡ false → Leads Inv Untouched (revoke_ops r k opts) (λ a. Inv)
  unfolding revoke_ops
  revoke_ops-ends opts unforced =
      Leads-bind Inv Untouched (λ u. Untouched) (λ a. Inv) (assert_writable r k) _ writable-Leads
        (λ u.
          Leads-bind Inv Untouched Known (λ a. Inv) (revoke_target r k k.user_key) _
            (revoke_target-Leads k.user_key refl)
            (λ verified.
              Leads-bind Inv (Known verified) (ReadAs verified) (λ a. Inv) (read_authorized_keys r)
                _ (read-Leads verified) (revoke_from-ends opts unforced verified)))

-- Hypothesis: the revocation is not forced. It runs on a file, and whatever the host answers, wherever a call
-- fails, whichever keys there are, and whatever was read: a file that it wrote, at the moment it was
-- written, held a key other than the profile's operations key; or else the user's key had opened a session,
-- and the file that was written authorized that key, or the file at the start did not.
pub revoke_ops-NeverLocked :
    (r : Remote) (k : Keys) (opts : Options) (original : File) (known : Bool) (n : ℕ)
    → opts.force ≡ false
    → NeverLocked r k original
        (revoke_ops r k opts
          (record { file = original; installed = known; calls = n; trace = [] })).1.trace
revoke_ops-NeverLocked r k opts original known n unforced =
    let s : State = record { file = original; installed = known; calls = n; trace = [] } in
    at_end (λ t. NeverLocked r k original t.trace) {A = RevokeOps} (revoke_ops r k opts s).0
      (revoke_ops r k opts s).1 (revoke_ops-ends r k original opts unforced s (refl, tt))
