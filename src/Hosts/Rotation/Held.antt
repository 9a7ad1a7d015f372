-- ===== src/Hosts/Rotation/Held.antt =====
-- What an action on a host leaves, during the rotation of src/host-ops/vops-ops-rotation.service.ts: the
-- predicates on the file and on what was done, and the calls of src/lib/ssh-exec.ts.
use vops.Prelude.{
  ℕ, suc, String, ◌≡◌, ◌≢◌, refl, ◌⊎◌, inl, inr, Bool, true, false, List, [], ◌∷◌, Bool-cases,
}
use vops.Hosts.Lines.{Line, File, In}
use vops.Hosts.AuthorizedKeys.{is_ops_line}
use vops.Hosts.Triples
use vops.Hosts.Triples.{HasOpened}
use vops.Hosts.Ssh.{
  Event, opened, wrote, audited, State, Remote, M, called, try_key, written, put_file, ask_home,
  print_file, read_authorized_keys, append_audit,
}
use vops.Hosts.Rotation.{Rotation, temp_tag, canonical_line}

module _ (r : Remote) (c : Rotation) (original : File) where
  -- Every line of the original is there but those of an earlier attempt.
  abbrev pub KeepsAll : File → Type 0
  KeepsAll f = (l : Line) → l ≢ [] → is_ops_line l (temp_tag c) ≡ false → In l original → In l f

  -- The same, but for the lines of the key that is replaced.
  abbrev pub KeepsOthers : File → Type 0
  KeepsOthers f =
      (l : Line)
      → l ≢ []
      → is_ops_line l (temp_tag c) ≡ false
      → is_ops_line l c.canonical_tag ≡ false
      → In l original
      → In l f

  -- The file holds what gave access before, or the line of a new key that has opened a session.
  abbrev pub GivesAccess : File → List Event → Type 0
  GivesAccess f before =
      KeepsAll f
      ⊎ (KeepsOthers f
          × ((options : Line) × In (canonical_line r c options) f)
          × HasOpened c.next_key_path before)

  abbrev pub AlwaysAccess : List Event → Type 0
  AlwaysAccess [] = Unit
  AlwaysAccess (wrote f ∷ rest) = GivesAccess f rest × AlwaysAccess rest
  AlwaysAccess (opened key ∷ rest) = AlwaysAccess rest
  AlwaysAccess (audited ∷ rest) = AlwaysAccess rest

  abbrev pub Unswapped : State → Type 0
  Unswapped s = KeepsAll s.file × AlwaysAccess s.trace

  abbrev pub Verified : State → Type 0
  Verified s = KeepsAll s.file × AlwaysAccess s.trace × HasOpened c.next_key_path s.trace

  -- What holds after an action: `Q` where it returns, and access in any case.
  abbrev pub Leads : {A : Type 0} → (State → Type 0) → M A → (A → State → Type 0) → Type 0
  Leads P m Q = Triples.Leads (λ s. AlwaysAccess s.trace) P m Q

  abbrev pub Ends : {A : Type 0} → A → State → Type 0
  Ends a s = AlwaysAccess s.trace

  -- A write that gives access keeps access, and what follows may rely on the file if it took effect.
  pub put-Leads : (f : File) → KeepsAll f → Leads Unswapped (put_file r f) (λ u. Unswapped)
  unfolding put_file written
  put-Leads f keeps s (file, safe) = elim (Bool-cases (r.takes_effect s.calls)) [
    | inl e ↦ elim (Bool-cases (r.reports s.calls)) [
      | inl g ↦ rw (e, g) (keeps, (inl keeps, safe))
      | inr g ↦ rw (e, g) (inl keeps, safe)
    ]
    | inr e ↦ elim (Bool-cases (r.reports s.calls)) [
      | inl g ↦ rw (e, g) (file, safe)
      | inr g ↦ rw (e, g) safe
    ]
  ]

  pub restore-Leads : (f : File) → KeepsAll f → Leads (Ends tt) (put_file r f) (λ u. Ends tt)
  unfolding put_file written
  restore-Leads f keeps s safe = elim (Bool-cases (r.takes_effect s.calls)) [
    | inl e ↦ elim (Bool-cases (r.reports s.calls)) [
      | inl g ↦ rw (e, g) (inl keeps, safe)
      | inr g ↦ rw (e, g) (inl keeps, safe)
    ]
    | inr e ↦ elim (Bool-cases (r.reports s.calls)) [
      | inl g ↦ rw (e, g) safe
      | inr g ↦ rw (e, g) safe
    ]
  ]

  -- The write of the new line, once the new key has opened a session.
  pub swap-Leads :
      (f : File) (options : Line)
      → KeepsOthers f
      → In (canonical_line r c options) f
      → Leads Verified (put_file r f) (λ u. Ends tt)
  unfolding put_file written
  swap-Leads f options keeps held s (file, safe, opened_it) =
      elim (Bool-cases (r.takes_effect s.calls)) [
        | inl e ↦ elim (Bool-cases (r.reports s.calls)) [
          | inl g ↦ rw (e, g) (inr (keeps, (options, held), opened_it), safe)
          | inr g ↦ rw (e, g) (inr (keeps, (options, held), opened_it), safe)
        ]
        | inr e ↦ elim (Bool-cases (r.reports s.calls)) [
          | inl g ↦ rw (e, g) safe
          | inr g ↦ rw (e, g) safe
        ]
      ]

  try-Leads : (key : String) → Leads Unswapped (try_key r key) (λ b. Unswapped)
  unfolding try_key
  try-Leads key s (file, safe) = elim (Bool-cases (r.opens key s.file s.calls)) [
    | inl e ↦ rw e (file, safe)
    | inr e ↦ rw e (file, safe)
  ]

  pub retry-Leads : (key : String) → Leads (Ends tt) (try_key r key) (λ b. Ends tt)
  unfolding try_key
  retry-Leads key s safe = elim (Bool-cases (r.opens key s.file s.calls)) [
    | inl e ↦ rw e safe
    | inr e ↦ rw e safe
  ]

  abbrev pub Tried : Bool → State → Type 0
  Tried true s = Verified s
  Tried false s = Unswapped s

  pub verify-Leads : Leads Unswapped (try_key r c.next_key_path) Tried
  unfolding try_key
  verify-Leads s (file, safe) = elim (Bool-cases (r.opens c.next_key_path s.file s.calls)) [
    | inl e ↦ rw e (file, safe, inl refl)
    | inr e ↦ rw e (file, safe)
  ]

  pub audit-Leads : Leads (Ends tt) (append_audit r) (λ u. Ends tt)
  unfolding append_audit
  audit-Leads s safe = safe

  pub read-Leads :
      (P : State → Type 0) (Good : File → Type 0)
      → ((n : ℕ) → r.prints n ≡ true)
      → ((s : State) → P s → P (called s))
      → ((s : State) → P s → AlwaysAccess s.trace)
      → ((s : State) → P s → Good s.file)
      → Leads P (read_authorized_keys r) (λ f s. Good f × P s)
  unfolding read_authorized_keys ask_home print_file
  read-Leads P Good printed step safe good s h = elim (Bool-cases (r.reaches s.calls)) [
    | inl e ↦ rw (e, printed (suc s.calls)) (good s h, step (called s) (step s h))
    | inr e ↦ rw e (safe s h)
  ]
