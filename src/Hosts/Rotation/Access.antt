-- ===== src/Hosts/Rotation/Access.antt =====
-- What a rotation of src/host-ops/vops-ops-rotation.service.ts leaves in the file of authorized keys, at
-- every moment.
use vops.Prelude.{
  ℕ, String, ◌≡◌, refl, inl, inr, Bool, true, false, Option, none, some, List, [], ◌∷◌, Bool-cases,
  if◌then◌else◌,
}
use vops.Hosts.Lines.{Line, File, In}
use vops.Hosts.AuthorizedKeys.{
  RotateState, remove_ops_line, upsert_ops_line, upsert-In, upsert-In_line, remove-In,
  classify_rotation,
}
use vops.Hosts.Triples
use vops.Hosts.Ssh.{
  State, Remote, called, try_key, put_file, read_authorized_keys, pick_working_target, append_audit,
}
use vops.Hosts.Rotation.{
  Rotation, RotateOutcome, temp_tag, temp_line, canonical_line, swap_to_canonical, is_mid, is_done,
  options_for, finish, swap, clean_up, append_temp, replace, rotate_from, rotate_over, rotate_host,
}
use vops.Hosts.Rotation.Held.{
  KeepsAll, KeepsOthers, AlwaysAccess, Unswapped, Verified, Leads, Ends, put-Leads, restore-Leads,
  swap-Leads, retry-Leads, Tried, verify-Leads, audit-Leads, read-Leads,
}

module _ (r : Remote) (c : Rotation) (original : File) where
  finish-Leads :
      (works : Bool)
      → Leads r c original (Ends r c original tt) (finish r c original works) (Ends r c original)
  unfolding finish
  finish-Leads true =
      Triples.Leads-bind (λ s. AlwaysAccess r c original s.trace) _ (λ u. Ends r c original tt)
        (Ends r c original) (append_audit r) _ (audit-Leads r c original) (λ u s h. h)
  finish-Leads false =
      Triples.Leads-bind (λ s. AlwaysAccess r c original s.trace) _ (λ u. Ends r c original tt)
        (Ends r c original) (put_file r original) _
        (restore-Leads r c original original (λ l full other h. h)) (λ u s h. h)

  -- The two removals and the new line.
  swapped-KeepsOthers :
      (f : File) (line : Line)
      → KeepsAll r c original f
      → KeepsOthers r c original (swap_to_canonical f c.canonical_tag (temp_tag c) line)
  unfolding swap_to_canonical
  swapped-KeepsOthers f line keeps l full no_temp other h =
      upsert-In l _ line c.canonical_tag full other (
        remove-In l _ c.canonical_tag full other
          (remove-In l f (temp_tag c) full no_temp (keeps l full no_temp h)))

  swapped-In :
      (f : File) (line : Line) → In line (swap_to_canonical f c.canonical_tag (temp_tag c) line)
  unfolding swap_to_canonical
  swapped-In f line = upsert-In_line _ line c.canonical_tag

  swap-Ends :
      (options : Line)
      → ((n : ℕ) → r.prints n ≡ true)
      → Leads r c original (Verified r c original) (swap r c original options) (Ends r c original)
  unfolding swap
  swap-Ends options printed =
      Triples.Leads-bind (λ s. AlwaysAccess r c original s.trace) (Verified r c original)
        (λ f s. KeepsAll r c original f × Verified r c original s) (Ends r c original)
        (read_authorized_keys r) _
        (read-Leads r c original (Verified r c original) (KeepsAll r c original) printed (λ s h. h)
          (λ s h. h.1) (λ s h. h.0))
        (λ f s (keeps, h).
          Triples.Leads-bind (λ s. AlwaysAccess r c original s.trace) (Verified r c original)
            (λ u. Ends r c original tt) (Ends r c original) (put_file r _) _
            (swap-Leads r c original
              (swap_to_canonical f c.canonical_tag (temp_tag c) (canonical_line r c options))
              options (swapped-KeepsOthers f _ keeps) (swapped-In f _))
            (λ u.
              Triples.Leads-bind (λ s. AlwaysAccess r c original s.trace) (Ends r c original tt)
                (λ b. Ends r c original tt) (Ends r c original) (try_key r c.next_key_path) _
                (retry-Leads r c original c.next_key_path) finish-Leads)
            s h)

  clean_up-Ends :
      ((n : ℕ) → r.prints n ≡ true)
      → Leads r c original (Unswapped r c original) (clean_up r c) (Ends r c original)
  unfolding clean_up
  clean_up-Ends printed =
      Triples.Leads-bind (λ s. AlwaysAccess r c original s.trace) (Unswapped r c original)
        (λ f s. KeepsAll r c original f × Unswapped r c original s) (Ends r c original)
        (read_authorized_keys r) _
        (read-Leads r c original (Unswapped r c original) (KeepsAll r c original) printed (λ s h. h)
          (λ s h. h.1) (λ s h. h.0))
        (λ f s (keeps, h).
          Triples.Leads-bind (λ s. AlwaysAccess r c original s.trace) (Unswapped r c original)
            (λ u. (Unswapped r c original)) (Ends r c original) (put_file r _) _
            (put-Leads r c original (remove_ops_line f (temp_tag c)).0 (λ l full other here.
              remove-In l f (temp_tag c) full other (keeps l full other here)))
            (λ u t g. g.1) s h)

  append_temp-Leads :
      (state : RotateState) (options : Line)
      → Leads r c original
          (Unswapped r c original)
          (append_temp r c state original options)
          (λ u. (Unswapped r c original))
  unfolding append_temp
  append_temp-Leads state options = elim (Bool-cases (is_mid state)) [
    | inl e ↦ rw e (λ s h. h)
    | inr e ↦ rw e (
        put-Leads r c original (upsert_ops_line original (temp_line r c options) (temp_tag c)).0
          (λ l full other h. upsert-In l original _ (temp_tag c) full other h))
  ]

  decide-Ends :
      (options : Line)
      → ((n : ℕ) → r.prints n ≡ true)
      → (works : Bool)
      → Leads r c original
          (Tried r c original works)
          (if works then swap r c original options else clean_up r c)
          (Ends r c original)
  decide-Ends options printed true = swap-Ends options printed
  decide-Ends options printed false = clean_up-Ends printed

  replace-Ends :
      (state : RotateState) (options : Line)
      → ((n : ℕ) → r.prints n ≡ true)
      → Leads r c original
          (Unswapped r c original)
          (replace r c original state options)
          (Ends r c original)
  unfolding replace
  replace-Ends state options printed =
      Triples.Leads-bind (λ s. AlwaysAccess r c original s.trace) (Unswapped r c original)
        (λ u. (Unswapped r c original)) (Ends r c original) (append_temp r c state original options)
        _ (append_temp-Leads state options)
        (λ u.
          Triples.Leads-bind (λ s. AlwaysAccess r c original s.trace) (Unswapped r c original)
            (Tried r c original) (Ends r c original) (try_key r c.next_key_path) _
            (verify-Leads r c original) (decide-Ends options printed))

  rotate_from-Ends :
      ((n : ℕ) → r.prints n ≡ true)
      → Leads r c original (Unswapped r c original) (rotate_from r c original) (Ends r c original)
  unfolding rotate_from
  rotate_from-Ends printed s h =
      let state = classify_rotation original c.canonical_tag (temp_tag c) c.next_public_key in
      elim (Bool-cases (is_done state)) [
        | inl e ↦ rw e h.1
        | inr e ↦ elim (Bool-cases c.dry_run) [
          | inl d ↦ rw (e, d) h.1
          | inr d ↦ rw (e, d) (replace-Ends state (options_for r c original) printed s h)
        ]
      ]

  -- The file has not been written so far.
  abbrev Fresh : State → Type 0
  Fresh s = (s.file ≡ original) × AlwaysAccess r c original s.trace

  pick-Leads :
      (ladder : List String) → Leads r c original Fresh (pick_working_target r ladder) (λ o. Fresh)
  unfolding pick_working_target try_key
  pick-Leads [] s h = h
  pick-Leads (key ∷ rest) s h = elim (Bool-cases (r.opens key s.file s.calls)) [
    | inl e ↦ rw e h
    | inr e ↦ rw e (pick-Leads rest (called s) h)
  ]

  rotate_over-Ends :
      ((n : ℕ) → r.prints n ≡ true)
      → (session : Option String)
      → Leads r c original Fresh (rotate_over r c session) (Ends r c original)
  unfolding rotate_over
  rotate_over-Ends printed none s h = h.1
  rotate_over-Ends printed (some key) start h =
      Triples.Leads-bind (λ s. AlwaysAccess r c original s.trace) Fresh
        (λ f s. (f ≡ original) × Fresh s) (Ends r c original) (read_authorized_keys r) _
        (read-Leads r c original Fresh (λ f. f ≡ original) printed (λ s h. h) (λ s h. h.1)
          (λ s h. h.0))
        (λ f s (same, (file, safe)).
          rw same (rotate_from-Ends printed s ((λ l full other h. rw file h), safe)))
        start h

-- Hypothesis: the host prints its file each time it is asked for it. The keys of the ladder are tried, the
-- rotation runs on a file, and whatever else the host answers, wherever a call fails, and whether or not
-- a write that is reported as failed took effect: every file that was written, at the moment it was
-- written, held every line of the file at the start but those of an earlier attempt; or else it held
-- every line but the earlier attempt's and the replaced key's, and the line of the new key, and the new
-- key had opened a session before.
pub rotate_host-AlwaysAccess :
    (r : Remote) (c : Rotation) (original : File) (known : Bool) (n : ℕ)
    → ((k : ℕ) → r.prints k ≡ true)
    → AlwaysAccess r c original
        (rotate_host r c
          (record { file = original; installed = known; calls = n; trace = [] })).1.trace
unfolding rotate_host
rotate_host-AlwaysAccess r c original known n printed =
    let s : State = record { file = original; installed = known; calls = n; trace = [] } in
    Triples.at_end (λ t. AlwaysAccess r c original t.trace) {A = RotateOutcome}
      (rotate_host r c s).0 (rotate_host r c s).1
      (Triples.Leads-bind (λ s. AlwaysAccess r c original s.trace) (Fresh r c original)
        (λ o. Fresh r c original) (Ends r c original) (pick_working_target r c.ladder)
        (rotate_over r c) (pick-Leads r c original c.ladder) (rotate_over-Ends r c original printed)
        s (refl, tt))
