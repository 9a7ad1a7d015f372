-- ===== src/Hosts/OpsKeys.antt =====
-- src/host-ops/vops-host-keys.service.ts: the operations key is put on a host and taken off it, and which
-- keys the host authorizes.
pub mod Safe
use vops.Prelude.{
  any, ℕ, String, Bool, true, false, not, ◌&&◌, Option, none, some, List, [], ◌∷◌, leb,
  if◌then◌else◌,
}
use vops.Prelude.Result.{Result, ok, err}
use vops.Hosts.Lines.{Line, File, includes_text}
use vops.Hosts.AuthorizedKeys.{
  RevokeSafety, RevokeSafetyReason, assess_revoke_safety, authorizes_key_data, remove_ops_line,
  upsert_ops_line,
}
use vops.Hosts.Ssh.{
  Remote, State, M, ◌>>=◌, ◌>>◌, pure, throw, protected, no_key, not_ready, not_verified, refused,
  try_key, put_file, read_authorized_keys, append_audit,
}

pub record UserKey : Type 0 where
  pub private_key_path : String
  pub public_key : Line
  pub has_private_key : Bool

-- The keys of the machine that vops runs on, and what the gate and the check of the connection, which
-- stand elsewhere, say of the host: `user_key` is resolve_user_key, `ops_key` the key of that name.
pub record Keys : Type 0 where
  pub user_key : Option UserKey
  pub ops_key : Option String
  pub tag : Line
  pub writable : Bool
  pub ready : Bool

pub record Options : Type 0 where
  pub dry_run : Bool
  pub force : Bool

pub data InstallOps : Type 0 where
  would_install : (would_change : Bool) → InstallOps
  has_installed : (already_present : Bool) → InstallOps

pub data RevokeOps : Type 0 where
  would_revoke : (would_remove : ℕ) → (safe : Bool) → RevokeOps
  has_revoked : (removed : ℕ) → RevokeOps

-- A key of the keystore, and what its state on a host is
pub record LocalKey : Type 0 where
  pub name : String
  pub role : String
  pub public_key : Line

pub record KeyState : Type 0 where
  pub name : String
  pub role : String
  pub authorized : Bool

pub record KeyStatus : Type 0 where
  pub ops_tag_present : Bool
  pub keys : List KeyState

-- hosts.update
abbrev pub mark : Bool → M (Unit {0})
mark value s = (ok tt, record s { installed = value })

module _ (r : Remote) (k : Keys) where
  -- assertHostWritable
  unfoldable pub assert_writable : M (Unit {0})
  assert_writable = if k.writable then pure tt else throw protected

  unfoldable pub assert_ready : Bool → M (Unit {0})
  assert_ready dry_run = if dry_run then pure tt else (if k.ready then pure tt else throw not_ready)

  unfoldable pub put_if : Bool → File → M (Unit {0})
  put_if wanted f = if wanted then put_file r f else pure tt

  unfoldable pub ops_session : Option String → M (Option Line)
  ops_session none = throw no_key
  ops_session (some path) = pure none

  unfoldable pub ops_target : M (Option Line)
  unfolding ops_session
  ops_target = ops_session k.ops_key

  -- The session is open with the user's key where it verifies, whose public half is returned.
  unfoldable pub try_user : UserKey → M (Option Line)
  unfolding ops_target
  try_user u = do
    works ← try_key r u.private_key_path
    if works then pure (some u.public_key) else ops_target

  unfoldable pub revoke_target : Option UserKey → M (Option Line)
  unfolding ops_target try_user
  revoke_target none = ops_target
  revoke_target (some u) = if u.has_private_key then try_user u else ops_target

  unfoldable pub remove_line : File → ℕ → M RevokeOps
  unfolding put_if
  remove_line content removed = do
    put_if (leb 1 removed) content
    mark false
    append_audit r
    pure (has_revoked removed)

  unfoldable pub revoke_from : Options → Option Line → File → M RevokeOps
  unfolding remove_line
  revoke_from opts verified before =
      let (content, removed) = remove_ops_line before k.tag in
      let safety = assess_revoke_safety before content k.tag verified in
      if opts.dry_run
      then pure (would_revoke removed safety.safe)
      else if not safety.safe && not opts.force
      then throw (refused safety.reason)
      else remove_line content removed

  unfoldable pub revoke_ops : Options → M RevokeOps
  unfolding assert_writable revoke_target revoke_from
  revoke_ops opts = do
    assert_writable
    verified ← revoke_target k.user_key
    before ← read_authorized_keys r
    revoke_from opts verified before

  unfoldable pub record_install : Bool → M InstallOps
  record_install changed = do mark true; append_audit r; pure (has_installed (not changed))

  unfoldable pub roll_back : File → Bool → M InstallOps
  unfolding put_if
  roll_back before changed = do put_if changed before; throw not_verified

  unfoldable pub verify_install : String → File → Bool → M InstallOps
  unfolding record_install roll_back
  verify_install ops_path before changed = do
    works ← try_key r ops_path
    if works then record_install changed else roll_back before changed

  unfoldable pub install_from : Options → String → Line → File → M InstallOps
  unfolding put_if verify_install
  install_from opts ops_path line before =
      let (content, changed) = upsert_ops_line before line k.tag in
      if opts.dry_run
      then pure (would_install changed)
      else do put_if changed content; verify_install ops_path before changed

  unfoldable pub install_over : Options → String → Line → M InstallOps
  unfolding assert_ready install_from
  install_over opts ops_path line = do
    assert_ready opts.dry_run
    before ← read_authorized_keys r
    install_from opts ops_path line before

  -- `ops_path` is the path of ensure_ops_key, and `line` ops_authorized_keys_line.
  unfoldable pub install_ops : Options → String → Line → M InstallOps
  unfolding assert_writable install_over
  install_ops opts ops_path line = do
    assert_writable
    elim k.user_key [
      | none ↦ throw no_key
      | some u ↦ (if u.has_private_key then install_over opts ops_path line else throw no_key)
    ]

  -- The session that reads: the user's key where there is a private one
  unfoldable pub read_target : Option UserKey → M (Option Line)
  unfolding ops_target
  read_target none = ops_target
  read_target (some u) = if u.has_private_key then pure none else ops_target

  unfoldable pub statuses : File → List LocalKey → List KeyState
  statuses content [] = []
  statuses content (x ∷ rest) =
      record { name = x.name; role = x.role; authorized = authorizes_key_data content x.public_key }
      ∷ statuses content rest

  -- The tag is in the text exactly if it is in one of its lines.
  unfoldable pub key_status : List LocalKey → M KeyStatus
  unfolding read_target statuses
  key_status local_keys = do
    read_target k.user_key
    content ← read_authorized_keys r
    pure (record {
      ops_tag_present = any (λ l. includes_text l k.tag) content;
      keys = statuses content local_keys;
    })
