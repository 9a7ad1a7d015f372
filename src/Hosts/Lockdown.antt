-- ===== src/Hosts/Lockdown.antt =====
-- src/host-ops/vops-ssh-lockdown.service.ts: password login is disabled on a host, and the parts of
-- src/host-ops/ssh-lockdown.ts that read the configuration of sshd.
pub mod Guarded
use vops.Prelude.{
  ℕ, suc, String, Bool, true, false, not, ◌&&◌, ◌||◌, leb, every, keep, is_empty, Option, none,
  some, List, [], ◌∷◌, ◌++◌, ◌+◌, if◌then◌else◌,
}
use vops.Prelude.Result.{Result, ok, err}
use vops.Hosts.Lines.{Line, File, codes, same_line, trim, words}

pub record LockdownDirective : Type 0 where
  pub key : Line
  pub value : Line
  pub effective : Line

abbrev pub password_lockdown : List LockdownDirective
password_lockdown =
    record { key = codes "PasswordAuthentication"; value = codes "no"; effective = codes "no" } ∷ []

-- toLowerCase, on letters of ASCII: no other letter becomes one of the texts it is compared with.
lower : Line → Line
lower [] = []
lower (c ∷ l) = let rest = lower l in if leb 65 c && leb c 90 then (c + 32) ∷ rest else c ∷ rest

-- rest.join(' ')
join_words : List Line → Line
join_words [] = []
join_words (w ∷ []) = w
join_words (w ∷ x ∷ rest) = w ++ (32 ∷ join_words (x ∷ rest))

value_in : Line → List Line → Option Line
unfolding lower join_words
value_in key [] = none
value_in key (lk ∷ rest) =
    if same_line (lower lk) (lower key) then some (lower (join_words rest)) else none

or_else : Option Line → Option Line → Option Line
or_else none later = later
or_else (some v) later = some v

unfoldable pub sshd_effective_value : File → Line → Option Line
unfolding value_in or_else
sshd_effective_value [] key = none
sshd_effective_value (line ∷ rest) key =
    or_else (value_in key (words (trim line))) (sshd_effective_value rest key)

-- The patterns are plain words.
is_effective : Option Line → Line → Bool
is_effective none pattern = false
is_effective (some v) pattern = same_line v pattern

unfoldable pub already_applied : File → List LockdownDirective → Bool
unfolding is_effective
already_applied sshd_t directives =
    every (λ d. is_effective (sshd_effective_value sshd_t d.key) d.effective) directives

pub data Sudo : Type 0 where
  root sudo_ok sudo_no : Sudo

pub record LockdownSignals : Type 0 where
  pub sudo : Sudo
  pub sshd_t : File
  pub password_logins : List (String × ℕ)

-- What parseLockdownProbe makes of an empty text
abbrev pub no_signals : LockdownSignals
no_signals = record { sudo = sudo_no; sshd_t = [] ∷ []; password_logins = [] }

pub data RefusalCode : Type 0 where
  not_ready no_sudo sshd_unreadable user_key_unverified no_user_key password_logins : RefusalCode

pub record LockdownPreflight : Type 0 where
  pub already_hardened : Bool
  pub user_key_verified : Bool
  pub password_logins : List (String × ℕ)
  pub refusals : List RefusalCode

pub data LockdownResult : Type 0 where
  unchanged applied : LockdownResult

pub data LockdownError : Type 0 where
  protected unreachable not_applied rolled_back : LockdownError
  blocked : List RefusalCode → LockdownError

-- What was asked of the host, the last first; of the scripts that cancel and that pull the switch which
-- undoes the change, whether the host did it, which the code does not look at.
pub data Act : Type 0 where
  tried probed locked audited : Act
  cancelled reverted : Bool → Act

pub record State : Type 0 where
  pub calls : ℕ
  pub trace : List Act

-- The host, and the user's key of it: whether it has a name, and a private key; and how the n-th call is
-- answered: whether that key opens a session, what the probe reports after parseLockdownProbe, whether
-- the script reports that the change is applied, or the call throws, and whether the host runs a script
-- for the switch to its end.
pub record Target : Type 0 where
  pub writable : Bool
  pub ready : Bool
  pub named : Bool
  pub has_key : Bool
  pub opens : ℕ → Bool
  pub probe : ℕ → Option LockdownSignals
  pub apply : ℕ → Option Bool
  pub obeys : ℕ → Bool

abbrev pub did : Act → State → State
did a s = record { calls = suc s.calls; trace = a ∷ s.trace }

unfoldable pub is_blank : File → Bool
is_blank [] = true
is_blank ([] ∷ []) = true
is_blank _ = false

unfoldable pub is_hardened : LockdownSignals → Bool
unfolding is_blank already_applied
is_hardened signals =
    not (is_blank signals.sshd_t) && already_applied signals.sshd_t password_lockdown

unfoldable pub is_no : Sudo → Bool
is_no sudo_no = true
is_no _ = false

unfoldable pub add_if : Bool → RefusalCode → List RefusalCode → List RefusalCode
add_if true c rest = c ∷ rest
add_if false c rest = rest

-- The refusals, in the order in which they are pushed
unfoldable pub refusals_of : LockdownSignals → Bool → Bool → List RefusalCode
unfolding add_if is_no is_blank
refusals_of signals verified named = add_if (is_no signals.sudo) no_sudo (
    add_if (is_blank signals.sshd_t) sshd_unreadable (
      add_if (not verified) (if named then user_key_unverified else no_user_key)
        (add_if (not (is_empty signals.password_logins)) password_logins [])))

unfoldable pub is_password_logins : RefusalCode → Bool
is_password_logins password_logins = true
is_password_logins _ = false

module _ (t : Target) where
  unfoldable pub or_no_signals : Option LockdownSignals → LockdownSignals
  or_no_signals none = no_signals
  or_no_signals (some x) = x

  -- What the n-th call reports
  unfoldable pub signals_at : ℕ → LockdownSignals
  unfolding or_no_signals
  signals_at n = or_no_signals (t.probe n)

  unfoldable pub verify_user_key : State → Bool × State
  verify_user_key s = if t.has_key then (t.opens s.calls, did tried s) else (false, s)

  unfoldable pub preflight : State → LockdownPreflight × State
  unfolding refusals_of signals_at verify_user_key is_hardened
  preflight s =
      let signals = signals_at s.calls in
      let hardened = is_hardened signals in
      let (verified, after) = verify_user_key (did probed s) in
      if t.ready
      then (
        record {
          already_hardened = hardened;
          user_key_verified = verified;
          password_logins = signals.password_logins;
          refusals = refusals_of signals verified t.named;
        },
        after,
      )
      else (
        record {
          already_hardened = false;
          user_key_verified = false;
          password_logins = [];
          refusals = not_ready ∷ [];
        },
        s,
      )

  unfoldable pub verify_applied : State → Bool × State
  unfolding verify_user_key signals_at is_hardened
  verify_applied s =
      let (verified, after) = verify_user_key s in
      let signals = signals_at after.calls in
      if t.has_key && not verified then (false, after) else (is_hardened signals, did probed after)

  unfoldable pub settle : Bool × State → Result LockdownError LockdownResult × State
  settle (true, s) =
      let after = did (cancelled (t.obeys s.calls)) s in
      (ok applied, record after { trace = audited ∷ after.trace })
  settle (false, s) = (err rolled_back, did (reverted (t.obeys s.calls)) s)

  -- What follows the script: the call threw, or the script did not report the change, or it did.
  unfoldable pub after_script : Option Bool → State → Result LockdownError LockdownResult × State
  unfolding verify_applied settle
  after_script none s = (err unreachable, s)
  after_script (some false) s = (err not_applied, did (cancelled (t.obeys s.calls)) s)
  after_script (some true) s = settle (verify_applied s)

  unfoldable pub lock : State → Result LockdownError LockdownResult × State
  unfolding after_script
  lock s = after_script (t.apply s.calls) (did locked s)

  unfoldable pub blocking : Bool → List RefusalCode → List RefusalCode
  unfolding is_password_logins
  blocking override refusals = keep (λ c. not (override && is_password_logins c)) refusals

  unfoldable pub disable_from :
      Bool → LockdownPreflight → State → Result LockdownError LockdownResult × State
  unfolding lock blocking
  disable_from override pre s =
      if pre.already_hardened
      then (ok unchanged, s)
      else if is_empty (blocking override pre.refusals)
      then lock s
      else (err (blocked (blocking override pre.refusals)), s)

  unfoldable pub disable : Bool → State → Result LockdownError LockdownResult × State
  unfolding preflight disable_from
  disable override s =
      let (pre, after) = preflight s in
      if t.writable then disable_from override pre after else (err protected, s)
