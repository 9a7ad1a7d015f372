-- ===== src/Hosts/Rotation.antt =====
-- src/host-ops/vops-ops-rotation.service.ts: the operations key of a host is replaced. The session of
-- a host stays open while its file is changed.
pub mod Held
pub mod Access
pub mod Outcome
pub mod Fleet
use vops.Prelude.{
  ℕ, String, Bool, true, false, not, Option, none, some, List, [], ◌∷◌, ◌++◌, is_empty,
  if◌then◌else◌,
}
use vops.Prelude.Result.{Result, ok, err}
use vops.Hosts.Lines.{Line, File, codes, or_blank}
use vops.Hosts.AuthorizedKeys.{
  RotateState, done, mid, old, absent, build_ops_line, classify_rotation, extract_options,
  find_ops_line, remove_ops_line, upsert_ops_line,
}
use vops.Hosts.Ssh.{
  Remote, State, M, ◌>>=◌, ◌>>◌, pure, throw, try_key, put_file, read_authorized_keys,
  pick_working_target, append_audit,
}

pub data RotateOutcome : Type 0 where
  rotated already planned : RotateOutcome
  failed : (message : String) → RotateOutcome

-- The keys that are tried and the new key; `ladder` is the path of the user's key after those of the
-- operations keys.
pub record Rotation : Type 0 where
  pub ladder : List String
  pub next_key_path : String
  pub next_public_key : Line
  pub canonical_tag : Line
  pub default_options : Line
  pub dry_run : Bool

abbrev pub temp_tag : Rotation → Line
temp_tag c = c.canonical_tag ++ codes ":next"

unfoldable pub swap_to_canonical : File → Line → Line → Line → File
swap_to_canonical content canonical_tag temp new_line =
    let without_temp = (remove_ops_line content temp).0 in
    let without_old = (remove_ops_line without_temp canonical_tag).0 in
    (upsert_ops_line without_old new_line canonical_tag).0

unfoldable pub is_done : RotateState → Bool
is_done done = true
is_done _ = false

unfoldable pub is_mid : RotateState → Bool
is_mid mid = true
is_mid _ = false

module _ (r : Remote) (c : Rotation) where
  abbrev pub temp_line : Line → Line
  temp_line options = build_ops_line c.next_public_key (temp_tag c) options

  abbrev pub canonical_line : Line → Line
  canonical_line options = build_ops_line c.next_public_key c.canonical_tag options

  unfoldable pub options_for : File → Line
  options_for content =
      let found = extract_options (or_blank (find_ops_line content c.canonical_tag)) in
      if is_empty found then c.default_options else found

  unfoldable pub finish : File → Bool → M RotateOutcome
  finish original works =
      if works
      then (do append_audit r; pure rotated)
      else do put_file r original; pure (failed "post-swap verify failed; restored old key")

  unfoldable pub swap : File → Line → M RotateOutcome
  unfolding finish
  swap original options = do
    before ← read_authorized_keys r
    put_file r (swap_to_canonical before c.canonical_tag (temp_tag c) (canonical_line options))
    works ← try_key r c.next_key_path
    finish original works

  unfoldable pub clean_up : M RotateOutcome
  clean_up = do
    current ← read_authorized_keys r
    put_file r (remove_ops_line current (temp_tag c)).0
    pure (failed "new key did not authenticate; temp line removed")

  unfoldable pub append_temp : RotateState → File → Line → M (Unit {0})
  unfolding is_mid
  append_temp state original options =
      if is_mid state
      then pure tt
      else put_file r (upsert_ops_line original (temp_line options) (temp_tag c)).0

  unfoldable pub replace : File → RotateState → Line → M RotateOutcome
  unfolding append_temp clean_up swap
  replace original state options = do
    append_temp state original options
    works ← try_key r c.next_key_path
    if works then swap original options else clean_up

  unfoldable pub rotate_from : File → M RotateOutcome
  unfolding replace is_done options_for
  rotate_from original =
      let state = classify_rotation original c.canonical_tag (temp_tag c) c.next_public_key in
      if is_done state
      then pure already
      else if c.dry_run
      then pure planned
      else replace original state (options_for original)

  unfoldable pub rotate_over : Option String → M RotateOutcome
  unfolding rotate_from
  rotate_over none = pure (failed "no working ops/user key")
  rotate_over (some session) = do original ← read_authorized_keys r; rotate_from original

  unfoldable pub rotate_host : M RotateOutcome
  unfolding rotate_over
  rotate_host = do session ← pick_working_target r c.ladder; rotate_over session
