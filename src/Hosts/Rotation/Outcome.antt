-- ===== src/Hosts/Rotation/Outcome.antt =====
-- What an outcome of the rotation of a host (src/host-ops/vops-ops-rotation.service.ts) tells of it.
use vops.Prelude.{
  suc, String, ◌≡◌, refl, ◌⊎◌, inl, inr, arith, Bool, true, false, Option, none, some, List, [],
  ◌∷◌, Bool-cases, if◌then◌else◌, find,
}
use vops.Hosts.Lines.{Line, File, to_lines, cons_line}
use vops.Hosts.AuthorizedKeys.{RotateState, classify_rotation, find_ops_line, has_data, is_found}
use vops.Hosts.Triples.{HasOpened, Leads, Leads-bind, Leads-any}
use vops.Hosts.Ssh.{
  State, Remote, called, try_key, put_file, ask_home, print_file, read_authorized_keys,
  pick_working_target, append_audit,
}
use vops.Hosts.Rotation.{
  Rotation, RotateOutcome, rotated, failed, already, planned, temp_tag, is_done, options_for,
  finish, swap, clean_up, append_temp, replace, rotate_from, rotate_over, rotate_host,
}

abbrev Any : State → Type 0
Any s = Unit

module _ (r : Remote) (c : Rotation) (original : File) where
  -- After `rotated` the new key has opened a session; `already`: the file had the new key's line.
  abbrev pub Reached : RotateOutcome → State → Type 0
  Reached rotated s = HasOpened c.next_key_path s.trace
  Reached already s =
      classify_rotation original c.canonical_tag (temp_tag c) c.next_public_key ≡ RotateState.done
  Reached planned s = c.dry_run ≡ true
  Reached (failed message) s = Unit

  abbrev Tried : Bool → State → Type 0
  Tried works s = works ≡ true → HasOpened c.next_key_path s.trace

  try-Leads : Leads Any Any (try_key r c.next_key_path) Tried
  unfolding try_key
  try-Leads s h = elim (Bool-cases (r.opens c.next_key_path s.file s.calls)) [
    | inl e ↦ rw e (λ yes. inl refl)
    | inr e ↦ rw e (λ yes. ground arith)
  ]

  finish-Leads : (f : File) (works : Bool) → Leads Any (Tried works) (finish r c f works) Reached
  unfolding finish append_audit
  finish-Leads f true s h = h refl
  finish-Leads f false s h =
      Leads-bind Any (Tried false) (λ u. Any) Reached (put_file r f) _
        (Leads-any Any (Tried false) (put_file r f) (λ s. tt)) (λ u s h. tt) s h

  swap-Leads : (f : File) (options : Line) → Leads Any Any (swap r c f options) Reached
  unfolding swap
  swap-Leads f options =
      Leads-bind Any Any (λ f. Any) Reached (read_authorized_keys r) _
        (Leads-any Any Any (read_authorized_keys r) (λ s. tt))
        (λ g.
          Leads-bind Any Any (λ u. Any) Reached (put_file r _) _
            (Leads-any Any Any (put_file r _) (λ s. tt))
            (λ u.
              Leads-bind Any Any Tried Reached (try_key r c.next_key_path) _ try-Leads
                (finish-Leads f)))

  clean_up-Leads : Leads Any Any (clean_up r c) Reached
  unfolding clean_up
  clean_up-Leads =
      Leads-bind Any Any (λ f. Any) Reached (read_authorized_keys r) _
        (Leads-any Any Any (read_authorized_keys r) (λ s. tt))
        (λ g.
          Leads-bind Any Any (λ u. Any) Reached (put_file r _) _
            (Leads-any Any Any (put_file r _) (λ s. tt)) (λ u s h. tt))

  replace-Leads :
      (f : File) (state : RotateState) (options : Line)
      → Leads Any Any (replace r c f state options) Reached
  unfolding replace
  replace-Leads f state options =
      Leads-bind Any Any (λ u. Any) Reached (append_temp r c state f options) _
        (Leads-any Any Any (append_temp r c state f options) (λ s. tt))
        (λ u.
          Leads-bind Any Any (λ works. Any) Reached (try_key r c.next_key_path) _
            (Leads-any Any Any (try_key r c.next_key_path) (λ s. tt)) decide)
    where
      decide :
          (works : Bool)
          → Leads Any Any (if works then swap r c f options else clean_up r c) Reached
      decide true = swap-Leads f options
      decide false = clean_up-Leads

  abbrev Unread : File → State → Type 0
  Unread f s = (f ≡ original) ⊎ (f ≡ [] ∷ [])

  -- The file that was read: the one that was there, or nothing.
  abbrev Fresh : State → Type 0
  Fresh s = s.file ≡ original

  read-Leads : Leads Any Fresh (read_authorized_keys r) Unread
  unfolding read_authorized_keys ask_home print_file
  read-Leads s h = elim (Bool-cases (r.reaches s.calls)) [
    | inl e ↦ elim (Bool-cases (r.prints (suc s.calls))) [
      | inl p ↦ rw (e, p) (inl h)
      | inr p ↦ rw (e, p) (inr refl)
    ]
    | inr e ↦ rw e tt
  ]

  done_lem : (state : RotateState) → is_done state ≡ true → state ≡ RotateState.done
  unfolding is_done
  done_lem RotateState.done e = refl
  done_lem RotateState.mid e = ground arith
  done_lem RotateState.old e = ground arith
  done_lem RotateState.absent e = ground arith

  blank_absent :
      is_done (classify_rotation ([] ∷ []) c.canonical_tag (temp_tag c) c.next_public_key) ≡ false
  unfolding is_done classify_rotation find_ops_line to_lines cons_line find has_data is_found
  blank_absent = refl

  rotate_from-Leads : (f : File) → Leads Any (Unread f) (rotate_from r c f) Reached
  unfolding rotate_from
  rotate_from-Leads f s h =
      elim (Bool-cases
        (is_done (classify_rotation f c.canonical_tag (temp_tag c) c.next_public_key))) [
          | inl e ↦ rw e (found h e)
          | inr e ↦ elim (Bool-cases c.dry_run) [
            | inl d ↦ rw (e, d) refl
            | inr d ↦
                simp (e, d)
                  (replace-Leads f
                    (classify_rotation f c.canonical_tag (temp_tag c) c.next_public_key)
                    (options_for r c f) s tt)
          ]
        ]
    where
      found :
          (f ≡ original) ⊎ (f ≡ [] ∷ [])
          → is_done (classify_rotation f c.canonical_tag (temp_tag c) c.next_public_key) ≡ true
          → classify_rotation original c.canonical_tag (temp_tag c) c.next_public_key
            ≡ RotateState.done
      found (inl same) e = done_lem _ (rw (← same) e)
      found (inr blank) e =
          let absent_then : is_done
                (classify_rotation f c.canonical_tag (temp_tag c) c.next_public_key)
              ≡ false =
            rw blank blank_absent in
          ground arith

  pick-Leads : (ladder : List String) → Leads Any Fresh (pick_working_target r ladder) (λ o. Fresh)
  unfolding pick_working_target try_key
  pick-Leads [] s h = h
  pick-Leads (key ∷ rest) s h = elim (Bool-cases (r.opens key s.file s.calls)) [
    | inl e ↦ rw e h
    | inr e ↦ rw e (pick-Leads rest (called s) h)
  ]

  rotate_over-Leads : (session : Option String) → Leads Any Fresh (rotate_over r c session) Reached
  unfolding rotate_over
  rotate_over-Leads none s h = tt
  rotate_over-Leads (some key) s h =
      Leads-bind Any Fresh Unread Reached (read_authorized_keys r) _ read-Leads rotate_from-Leads s
        h

  pub rotate_host-Leads : Leads Any Fresh (rotate_host r c) Reached
  unfolding rotate_host
  rotate_host-Leads =
      Leads-bind Any Fresh (λ o. Fresh) Reached (pick_working_target r c.ladder) _
        (pick-Leads c.ladder) rotate_over-Leads
