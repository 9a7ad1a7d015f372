-- ===== src/Hosts/Ssh.antt =====
-- What src/host-ops asks of a host: src/lib/ssh-exec.ts as the state of the host's file, and
-- src/host-ops/remote-ak.ts.
use vops.Prelude.{
  ℕ, suc, String, Bool, true, false, Option, none, some, List, [], ◌∷◌, if◌then◌else◌,
}
use vops.Prelude.Result.{Result, ok, err}
use vops.Hosts.Lines.{File}
use vops.Hosts.AuthorizedKeys.{RevokeSafetyReason}

-- What the source throws.
pub data SshError : Type 0 where
  unreachable not_written protected no_key not_ready not_verified : SshError
  refused : RevokeSafetyReason → SshError

pub data Event : Type 0 where
  opened : (key : String) → Event
  wrote : File → Event
  audited : Event

-- `calls` counts the calls over SSH, and `trace` holds what they did, the last first; `installed` is the
-- host's ops_key_installed in the inventory.
pub record State : Type 0 where
  pub file : File
  pub installed : Bool
  pub calls : ℕ
  pub trace : List Event

-- How the host answers the n-th call: whether a key opens a session, given the file; whether the home of
-- the user is printed; whether the file is printed, or the call ends before; and for a write whether it
-- takes effect and whether it is reported as done.
pub record Remote : Type 0 where
  pub opens : String → File → ℕ → Bool
  pub reaches : ℕ → Bool
  pub prints : ℕ → Bool
  pub takes_effect : ℕ → Bool
  pub reports : ℕ → Bool

abbrev pub M : Type 0 → Type 0
M A = State → Result SshError A × State

abbrev pub bind_result : {A B : Type 0} → Result SshError A → (A → M B) → M B
bind_result (ok a) f s = f a s
bind_result (err e) f s = (err e, s)

infixl 5 ◌>>=◌ ◌>>◌
abbrev pub ◌>>=◌ : {A B : Type 0} → M A → (A → M B) → M B
◌>>=◌ m f s = let (r, s') = m s in bind_result r f s'

abbrev pub ◌>>◌ : {A B : Type 0} → M A → M B → M B
m >> k = m >>= λ _. k

abbrev pub pure : {A : Type 0} → A → M A
pure a s = (ok a, s)

abbrev pub throw : {A : Type 0} → SshError → M A
throw e s = (err e, s)

abbrev pub called : State → State
called s = record s { calls = suc s.calls }

-- The event is noted where the call did something.
abbrev pub noted : Bool → Event → State → State
noted true e s = record s { trace = e ∷ s.trace }
noted false e s = s

module _ (r : Remote) where
  -- ssh.run(target, 'true'), whose code is 0
  unfoldable pub try_key : String → M Bool
  try_key key s =
      let answer = r.opens key s.file s.calls in (ok answer, noted answer (opened key) (called s))

  unfoldable pub written : Bool → File → State → State
  written true f s = record s { file = f; trace = wrote f ∷ s.trace }
  written false f s = s

  -- The write goes to a file beside it, which is then moved; the connection may end after the move.
  unfoldable pub put_file : File → M (Unit {0})
  unfolding written
  put_file f s =
      let t = written (r.takes_effect s.calls) f (called s) in
      if r.reports s.calls then (ok tt, t) else (err not_written, t)

  -- The second call is not checked: where it ends before the file is printed, the content is empty.
  unfoldable pub print_file : M File
  print_file s = (ok (if r.prints s.calls then s.file else ([] ∷ [])), called s)

  unfoldable pub ask_home : M (Unit {0})
  ask_home s = if r.reaches s.calls then (ok tt, called s) else (err unreachable, called s)

  unfoldable pub read_authorized_keys : M File
  unfolding ask_home print_file
  read_authorized_keys = do ask_home; print_file

  unfoldable pub pick_working_target : List String → M (Option String)
  pick_working_target [] = pure none
  pick_working_target (key ∷ rest) = do
    opened_it ← try_key key
    elim opened_it [ true ↦ pure (some key) | false ↦ pick_working_target rest ]

  unfoldable pub append_audit : M (Unit {0})
  append_audit s = (ok tt, noted true audited s)
