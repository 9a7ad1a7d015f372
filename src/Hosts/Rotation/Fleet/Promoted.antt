-- ===== src/Hosts/Rotation/Fleet/Promoted.antt =====
-- When the new key takes the place of the old one, in the rotation of the fleet of
-- src/host-ops/vops-ops-rotation.service.ts.
use vops.Prelude.{
  String, ◌≡◌, refl, ◌⊎◌, inl, inr, arith, true, false, List, [], ◌∷◌, Bool-cases, any, is_empty,
}
use vops.Prelude.Result.{Result, ok, err}
use vops.Hosts.Lines.{Line}
use vops.Hosts.AuthorizedKeys.{RotateState, classify_rotation}
use vops.Hosts.Triples.{HasOpened, Post}
use vops.Hosts.Ssh.{State, SshError}
use vops.Hosts.Rotation.{RotateOutcome, rotated, already, planned, failed, rotate_host, temp_tag}
use vops.Hosts.Rotation.Outcome.{Reached, rotate_host-Leads}
use vops.Hosts.Rotation.Fleet.{
  Host, Keystore, Fleet, RotateOptions, Results, rotation_of, is_failed, failed_hosts, add_result,
  hosts_after, rotate_hosts, report, rotate,
}

module _ (keys : Keystore) (tag : Line) (opts : RotateOptions) where
  -- The new key has opened a session on the host, or its file had the line of the new key before.
  abbrev pub IsMoved : Host → Host → Type 0
  IsMoved before after =
      HasOpened keys.next_key_path after.state.trace
      ⊎ (classify_rotation before.state.file tag (temp_tag (rotation_of keys tag opts before))
            keys.next_public_key
          ≡ RotateState.done)

  -- Host by host
  abbrev pub AllMoved : List Host → List Host → Type 0
  AllMoved [] [] = Unit
  AllMoved [] (h ∷ r) = ⊥
  AllMoved (h ∷ r) [] = ⊥
  AllMoved (h ∷ r) (h' ∷ r') = (h.state.installed ≡ true → IsMoved h h') × AllMoved r r'

  abbrev IsClean : Result SshError Results → Type 0
  IsClean (err e) = ⊥
  IsClean (ok results) = is_empty (failed_hosts results) ≡ true

  moved :
      (h : Host) (o : RotateOutcome) (s : State) (name : String) (rest : Results)
      → opts.dry_run ≡ false
      → Reached h.remote (rotation_of keys tag opts h) h.state.file o s
      → is_empty (failed_hosts ((name, o) ∷ rest)) ≡ true
      → IsMoved h (record h { state = s }) × (is_empty (failed_hosts rest) ≡ true)
  unfolding rotation_of failed_hosts is_failed
  moved h rotated s name rest run reached clean = (inl reached, clean)
  moved h already s name rest run reached clean = (inr reached, clean)
  moved h planned s name rest run reached clean = ground arith
  moved h (failed message) s name rest run reached clean = ground arith

  after_host :
      (h : Host) (rest : List Host) (x : Result SshError RotateOutcome) (s : State)
      (later : Result SshError Results × List Host)
      → opts.dry_run ≡ false
      → Post (λ t. Unit) (Reached h.remote (rotation_of keys tag opts h) h.state.file) x s
      → (IsClean later.0 → AllMoved rest later.1)
      → IsClean (add_result h.name x later)
      → IsMoved h (record h { state = s }) × AllMoved rest (hosts_after x rest later.1)
  unfolding add_result hosts_after
  after_host h rest (err e) s later run reached others clean = elim clean [ ]
  after_host h rest (ok o) s (err e, hosts) run reached others clean = elim clean [ ]
  after_host h rest (ok o) s (ok results, hosts) run reached others clean =
      let (here, there) = moved h o s h.name results run reached clean in (here, others there)

  rotate_hosts-AllMoved :
      (hosts : List Host)
      → opts.dry_run ≡ false
      → IsClean (rotate_hosts keys tag opts hosts).0
      → AllMoved hosts (rotate_hosts keys tag opts hosts).1
  unfolding rotate_hosts
  rotate_hosts-AllMoved [] run = λ clean. tt
  rotate_hosts-AllMoved (h ∷ rest) run = elim (Bool-cases h.state.installed) [
    | inl e ↦ simp (e) (λ clean.
        let (here, there) =
          after_host h rest (rotate_host h.remote (rotation_of keys tag opts h) h.state).0
            (rotate_host h.remote (rotation_of keys tag opts h) h.state).1
            (rotate_hosts keys tag opts rest) run
            (rotate_host-Leads h.remote (rotation_of keys tag opts h) h.state.file h.state refl)
            (rotate_hosts-AllMoved rest run) clean in
        ((λ has. here), there))
    | inr e ↦ simp (e) (λ clean. ((λ has. ground arith), rotate_hosts-AllMoved rest run clean))
  ]

  report_lem :
      (f : Fleet) (x : Result SshError Results) (hosts : List Host)
      → f.promoted ≡ false
      → opts.force ≡ false
      → (report opts f x hosts).1.promoted ≡ true
      → (opts.dry_run ≡ false) × IsClean x
  unfolding report
  report_lem f (err e) hosts old unforced promoted = ground arith
  report_lem f (ok results) hosts old unforced promoted = (ground arith, ground arith)

  report-hosts :
      (f : Fleet) (x : Result SshError Results) (hosts : List Host)
      → (report opts f x hosts).1.hosts ≡ hosts
  unfolding report
  report-hosts f (err e) hosts = refl
  report-hosts f (ok results) hosts = refl

  -- Hypotheses: the next key has not taken the place of the operations key yet, and the rotation is not
  -- forced. If the rotation of the fleet puts it there, it was no dry run, and on every host that had the
  -- operations key, the next key has opened a session, or the file of the host already had its line.
  pub rotate-AllMoved :
      (f : Fleet)
      → f.promoted ≡ false
      → opts.force ≡ false
      → (rotate keys tag opts f).1.promoted ≡ true
      → (opts.dry_run ≡ false) × AllMoved f.hosts (rotate keys tag opts f).1.hosts
  unfolding rotate
  rotate-AllMoved f old unforced = elim (Bool-cases (any (λ h. h.state.installed) f.hosts)) [
    | inr e ↦ simp (e) (λ promoted. ground arith)
    | inl e ↦ elim (Bool-cases f.locked) [
      | inl l ↦ simp (e, l) (λ promoted. ground arith)
      | inr l ↦
          simp (e, l)
            (λ promoted.
              let (run, clean) =
                report_lem f (rotate_hosts keys tag opts f.hosts).0
                  (rotate_hosts keys tag opts f.hosts).1 old unforced promoted in
              (
                run,
                rw
                    (report-hosts f (rotate_hosts keys tag opts f.hosts).0
                      (rotate_hosts keys tag opts f.hosts).1)
                    (rotate_hosts-AllMoved f.hosts run clean),
              ))
    ]
  ]
