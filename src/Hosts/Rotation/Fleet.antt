-- ===== src/Hosts/Rotation/Fleet.antt =====
-- src/host-ops/vops-ops-rotation.service.ts: the rotation of the whole fleet, its lock, and the promotion
-- of the new key.
pub mod Promoted
use vops.Prelude.{
  ℕ, String, Bool, true, false, not, ◌&&◌, ◌||◌, Option, none, some, List, [], ◌∷◌, ◌++◌, any, keep,
  is_empty, if◌then◌else◌,
}
use vops.Prelude.Result.{Result, ok, err}
use vops.Hosts.Lines.{Line}
use vops.Hosts.Ssh.{Remote, State, SshError}
use vops.Hosts.Rotation.{Rotation, RotateOutcome, failed, rotate_host}

-- A host of the inventory, and the path of its user's key where there is a private one.
pub record Host : Type 0 where
  pub name : String
  pub remote : Remote
  pub state : State
  pub user_key_path : Option String

-- The keys of the machine: the ladder of operations keys, the next one, and the options of its lines.
pub record Keystore : Type 0 where
  pub ops_ladder : List String
  pub next_key_path : String
  pub next_public_key : Line
  pub ops_key_options : Line

-- `promoted`: the next key has taken the place of the operations key.
pub record Fleet : Type 0 where
  pub hosts : List Host
  pub locked : Bool
  pub promoted : Bool

pub record RotateOptions : Type 0 where
  pub dry_run : Bool
  pub force : Bool

pub data FleetError : Type 0 where
  nothing_to_rotate in_progress : FleetError
  on_host : SshError → FleetError

pub record RotationReport : Type 0 where
  pub dry_run : Bool
  pub promoted : Bool
  pub failed : List String
  pub results : List (String × RotateOutcome)

unfoldable pub user_path : Option String → List String
user_path none = []
user_path (some path) = path ∷ []

unfoldable pub rotation_of : Keystore → Line → RotateOptions → Host → Rotation
unfolding user_path
rotation_of keys tag opts h = record {
  ladder = keys.ops_ladder ++ user_path h.user_key_path;
  next_key_path = keys.next_key_path;
  next_public_key = keys.next_public_key;
  canonical_tag = tag;
  default_options = keys.ops_key_options;
  dry_run = opts.dry_run;
}

abbrev pub Results : Type 0
Results = List (String × RotateOutcome)

unfoldable pub is_failed : RotateOutcome → Bool
is_failed (failed message) = true
is_failed _ = false

unfoldable pub failed_hosts : Results → List String
unfolding is_failed
failed_hosts [] = []
failed_hosts ((name, outcome) ∷ rest) =
    let names = failed_hosts rest in if is_failed outcome then name ∷ names else names

unfoldable pub add_result :
    String
    → Result SshError RotateOutcome
    → Result SshError Results × List Host
    → Result SshError Results
add_result name (err e) later = err e
add_result name (ok outcome) (err e, hosts) = err e
add_result name (ok outcome) (ok results, hosts) = ok ((name, outcome) ∷ results)

-- An exception leaves the hosts after it as they are.
unfoldable pub hosts_after : Result SshError RotateOutcome → List Host → List Host → List Host
hosts_after (err e) untouched rotated_hosts = untouched
hosts_after (ok outcome) untouched rotated_hosts = rotated_hosts

-- The loop, over the hosts that have the key
unfoldable pub rotate_hosts :
    Keystore → Line → RotateOptions → List Host → Result SshError Results × List Host
unfolding rotation_of add_result hosts_after
rotate_hosts keys tag opts [] = (ok [], [])
rotate_hosts keys tag opts (h ∷ rest) =
    let later = rotate_hosts keys tag opts rest in
    let (result, s) = rotate_host h.remote (rotation_of keys tag opts h) h.state in
    if h.state.installed
    then (add_result h.name result later, record h { state = s } ∷ hosts_after result rest later.1)
    else (later.0, h ∷ later.1)

unfoldable pub report :
    RotateOptions
    → Fleet
    → Result SshError Results
    → List Host
    → Result FleetError RotationReport × Fleet
unfolding failed_hosts
report opts f (err e) hosts = (err (on_host e), record f { hosts = hosts })
report opts f (ok results) hosts =
    let names = failed_hosts results in
    let promotes = not opts.dry_run && (is_empty names || opts.force) in
    (
      ok (record {
        dry_run = opts.dry_run;
        promoted = promotes;
        failed = names;
        results = results;
      }),
      record f { hosts = hosts; promoted = f.promoted || promotes },
    )

-- The lock is taken, and released in any case.
unfoldable pub rotate :
    Keystore → Line → RotateOptions → Fleet → Result FleetError RotationReport × Fleet
unfolding rotate_hosts report
rotate keys tag opts f =
    if not (any (λ h. h.state.installed) f.hosts)
    then (err nothing_to_rotate, f)
    else if f.locked
    then (err in_progress, f)
    else let (results, hosts) = rotate_hosts keys tag opts f.hosts in report opts f results hosts
