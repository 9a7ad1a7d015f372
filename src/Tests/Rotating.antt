-- ===== src/Tests/Rotating.antt =====
-- A host, its file of authorized keys, and the keys of the machine.
use vops.Prelude.{
  leb, if◌then◌else◌, ◌≡◌, refl, true, false, some, List, [], ◌∷◌, any, find, every, keep,
}
use vops.Hosts.Lines.{
  Line, File, codes, first, trim, trim_start, starts_with, ends_with, same_line, includes_text,
  second, words, to_lines, is_space,
}
use vops.Hosts.AuthorizedKeys.{
  is_ops_line, is_comment, is_key_line, has_other_authorized_key, find_ops_line, classify_rotation,
}
use vops.Hosts.AuthorizedKeys.View.{view, Step, set, unset, changes, changes_view, changes-refines}
use vops.Hosts.Ssh.{
  Remote, pick_working_target, try_key, read_authorized_keys, put_file, append_audit,
}
use vops.Hosts.Rotation.{Rotation, rotate_host}
use vops.Hosts.Rotation.Held.{AlwaysAccess}
use vops.Hosts.Rotation.Access.{rotate_host-AlwaysAccess}
use vops.Hosts.Rotation.Fleet.{
  Host, Keystore, Fleet, RotateOptions, rotate, rotate_hosts, report, rotation_of, add_result,
  hosts_after, failed_hosts, is_failed,
}
use vops.Hosts.Rotation.Fleet.Promoted.{AllMoved, rotate-AllMoved}
use vops.Hosts.Crontab.{block_end, upsert_cron_block, remove_cron_block, has_cron_block}
use vops.Hosts.Crontab.Blocks.{NoEnd, remove-upsert}
use vops.Hosts.Lockdown.{sshd_effective_value, LockdownSignals, Target, root, disable}
use vops.Hosts.Lockdown.Guarded.{HasLocked, IsGuarded, HasSettled, Start, disable-IsGuarded}
use vops.Hosts.OpsKeys.{UserKey, Keys, Options, revoke_ops}
use vops.Hosts.OpsKeys.Safe.{NeverLocked, revoke_ops-NeverLocked}

abbrev host : Remote
host = record {
  opens = λ key f n. true;
  reaches = λ n. true;
  prints = λ n. true;
  takes_effect = λ n. true;
  reports = λ n. true;
}

abbrev tag : Line
tag = codes "vops-ops:p1"

abbrev own_line : Line
own_line = codes "ssh-ed25519 AAAA vops-ops:p1"

abbrev file : File
file = codes "ssh-ed25519 BBBB me@home" ∷ own_line ∷ [] ∷ []

abbrev rotation : Rotation
rotation = record {
  ladder = "ops" ∷ "me" ∷ [];
  next_key_path = "next";
  next_public_key = codes "ssh-ed25519 CCCC";
  canonical_tag = tag;
  default_options = codes "restrict";
  dry_run = false;
}

rotate_host_example :
    AlwaysAccess host rotation file
      (rotate_host host rotation
        (record { file = file; installed = true; calls = 0; trace = [] })).1.trace
rotate_host_example = rotate_host-AlwaysAccess host rotation file true 0 (λ n. refl)

abbrev user_key : UserKey
user_key = record {
  private_key_path = "me";
  public_key = codes "ssh-ed25519 BBBB";
  has_private_key = true;
}

abbrev keys : Keys
keys = record {
  user_key = some user_key;
  ops_key = some "ops";
  tag = tag;
  writable = true;
  ready = true;
}

abbrev asked : Options
asked = record { dry_run = false; force = false }

revoke_ops_example :
    NeverLocked host keys file
      (revoke_ops host keys asked
        (record { file = file; installed = true; calls = 0; trace = [] })).1.trace
revoke_ops_example = revoke_ops-NeverLocked host keys asked file true 0 refl

abbrev steps : List Step
steps = unset ∷ set own_line ∷ []

own_line-IsOwn : is_ops_line own_line tag ≡ true
unfolding is_ops_line is_comment trim trim_start starts_with ends_with
own_line-IsOwn = refl

changes_example :
    (view tag (changes tag steps file) ≡ changes_view steps (view tag file))
    × (has_other_authorized_key (changes tag steps file) tag
        ≡ any (λ l. is_key_line l) (changes_view steps (view tag file)).others)
    × (find_ops_line (changes tag steps file) tag ≡ first (changes_view steps (view tag file)).own)
changes_example = changes-refines tag steps file (own_line-IsOwn, tt)

abbrev keystore : Keystore
keystore = record {
  ops_ladder = "ops" ∷ [];
  next_key_path = "next";
  next_public_key = codes "ssh-ed25519 CCCC";
  ops_key_options = codes "restrict";
}

abbrev open_host : Host
open_host = record {
  name = "web";
  remote = host;
  state = record { file = file; installed = true; calls = 0; trace = [] };
  user_key_path = some "me";
}

-- A host that the rotation leaves aside.
abbrev plain_host : Host
plain_host = record open_host {
  name = "db";
  state = record { file = file; installed = false; calls = 0; trace = [] };
}

abbrev fleet : Fleet
fleet = record { hosts = open_host ∷ plain_host ∷ []; locked = false; promoted = false }

abbrev unforced : RotateOptions
unforced = record { dry_run = false; force = false }

fleet_is_promoted : (rotate keystore tag unforced fleet).1.promoted ≡ true
unfolding rotate rotate_hosts report rotation_of add_result hosts_after failed_hosts is_failed
    rotate_host any pick_working_target try_key read_authorized_keys classify_rotation find_ops_line
    find to_lines is_ops_line trim starts_with ends_with same_line includes_text second words
    put_file append_audit
fleet_is_promoted = refl

rotate_example :
    (unforced.dry_run ≡ false)
    × AllMoved keystore tag unforced fleet.hosts (rotate keystore tag unforced fleet).1.hosts
rotate_example = rotate-AllMoved keystore tag unforced fleet refl refl fleet_is_promoted

abbrev cron_body : List Line
cron_body = codes "*/5 * * * * vops monitor" ∷ []

cron_body-NoEnd : NoEnd tag cron_body
unfolding trim trim_start is_space same_line block_end
cron_body-NoEnd = (refl, tt)

remove-upsert_example :
    (has_cron_block (upsert_cron_block file tag cron_body) tag ≡ true)
    × (remove_cron_block (upsert_cron_block file tag cron_body) tag
        ≡ ((remove_cron_block file tag).0, true))
    × (upsert_cron_block (upsert_cron_block file tag cron_body) tag []
        ≡ upsert_cron_block file tag [])
remove-upsert_example = remove-upsert file tag cron_body [] cron_body-NoEnd

abbrev signals : LockdownSignals
signals = record {
  sudo = root;
  sshd_t = codes "passwordauthentication yes" ∷ [];
  password_logins = [];
}

-- The probe shows the change from the fifth call on.
abbrev target : Target
target = record {
  writable = true;
  ready = true;
  named = true;
  has_key = true;
  opens = λ n. true;
  probe = λ n.
      if leb 4 n
      then some (record signals { sshd_t = codes "passwordauthentication no" ∷ [] })
      else some signals;
  apply = λ n. some true;
  obeys = λ n. false;
}

target-HasLocked : HasLocked (disable target false (Start target false 0)).1.trace
unfolding disable every sshd_effective_value words trim same_line keep
target-HasLocked = tt

disable-IsGuarded_example :
    IsGuarded target false 0
    × HasSettled target false 0
        (disable target false (Start target false 0)).0
        (disable target false (Start target false 0)).1.trace
disable-IsGuarded_example = disable-IsGuarded target false 0 target-HasLocked
