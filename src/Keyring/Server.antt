-- ===== src/Keyring/Server.antt =====
-- src/lib/keyring/keyring-server.ts, with constant-time.ts, the guard of derive.ts and the messages
-- of protocol.ts. The functions of node:crypto are parameters; an exception is a value of `Thrown`.
pub mod Laws
pub mod Release
use Prim.Native.Nat.{bit_and}
use vops.Prelude.{
  ℕ, ◌+◌, ◌-◌, ◌*◌, ◌≡◌, Bool, true, false, not, ◌&&◌, ◌||◌, Option, none, some, String, ◌==◌, leb,
  ltb, eqb, if◌then◌else◌, List, [], ◌∷◌,
}
use vops.Prelude.Result.{Result, ok, err}

-- derive.ts
pub data KeyDomain : Type 0 where
  vault session dymmi : KeyDomain

pub record KdfParams : Type 0 where
  pub cost : ℕ
  pub block : ℕ
  pub parallel : ℕ

abbrev pub default_kdf : KdfParams
default_kdf = record { cost = 65536; block = 8; parallel = 1 }

-- An exception: a `VaultAuthError`, or any other.
pub data Thrown : Type 0 where
  auth_error other_error : (message : String) → Thrown

unfoldable pub assert_params : KdfParams → Option Thrown
assert_params p =
    let power_of_two = ltb 1 p.cost && eqb (bit_and p.cost (p.cost - 1)) 0 in
    if not power_of_two || (ltb p.cost 16384 || ltb 1048576 p.cost)
    then some (other_error "Unsupported scrypt cost")
    else if ltb p.block 1 || (ltb 32 p.block || (ltb p.parallel 1 || ltb 16 p.parallel))
    then some (other_error "Unsupported scrypt parameters")
    else none

-- The vault's header: the salt, in hex, and the parameters.
pub record Header : Type 0 where
  pub salt : String
  pub kdf : KdfParams

-- What the server uses of node:crypto and of its options. `derive` is `hkdfSync`, which throws if
-- the domain is undefined; `verify` is absent, or says what it throws.
pub record Crypto : Type 1 where
  pub Master : Type 0
  pub Key : Type 0
  pub nfkc : String → String
  pub scrypt : String → String → KdfParams → Master
  pub derive : Master → Option KeyDomain → String → Result Thrown Key
  pub sha256 : String → String
  pub verify : Option (Master → Option Thrown)

-- protocol.ts
pub data KeyringOp : Type 0 where
  status unlock key lock unknown : KeyringOp

pub record KeyringRequest : Type 0 where
  pub op : KeyringOp
  pub cookie : String
  pub passphrase : Option String
  pub domain : Option KeyDomain

pub data ErrorCode : Type 0 where
  locked unauthorized bad_request bad_passphrase internal : ErrorCode

module _ (c : Crypto) where
  pub data Reply : Type 0 where
    status_is : (unlocked : Bool) (expires_at : Option ℕ) → Reply
    unlock_done lock_done : Reply
    key_is : c.Key → Reply
    failed : ErrorCode → (error : String) → Reply
    -- the exception leaves `handle`
    threw : Thrown → Reply

  -- `locks` counts the calls of `onLock`.
  pub record Server : Type 0 where
    pub master : Option c.Master
    pub expires_at : Option ℕ
    pub locks : ℕ

  abbrev pub init : Server
  init = record { master = none; expires_at = none; locks = 0 }

  unfoldable pub secret_equals : String → String → Bool
  secret_equals provided expected =
      if provided == "" || expected == "" then false else c.sha256 provided == c.sha256 expected

  unfoldable pub derive_master : String → Header → Result Thrown c.Master
  unfolding assert_params
  derive_master passphrase header = elim (assert_params header.kdf) [
    | some e ↦ err e
    | none ↦ ok (c.scrypt (c.nfkc passphrase) header.salt header.kdf)
  ]

  -- lock()
  unfoldable pub locked_now : Server → Server
  locked_now s = record { master = none; expires_at = none; locks = s.locks + 1 }

  unfoldable pub expired : Option c.Master → Option ℕ → ℕ → Bool
  expired (some m) (some e) now = leb e now
  expired (some m) none now = false
  expired none e now = false

  unfoldable pub expire_if_due : Server → ℕ → Server
  unfolding locked_now expired
  expire_if_due s now = if expired s.master s.expires_at now then locked_now s else s

  code_of : Thrown → Reply
  code_of (auth_error m) = failed bad_passphrase m
  code_of (other_error m) = failed internal m

  message_of : Thrown → String
  message_of (auth_error m) = m
  message_of (other_error m) = m

  check_master : Option (c.Master → Option Thrown) → c.Master → Option Thrown
  check_master none m = none
  check_master (some f) m = f m

  unfoldable pub verify : c.Master → Option Thrown
  unfolding check_master
  verify = check_master c.verify

  unfoldable pub derive_with :
      Result Thrown Header → c.Master → Option KeyDomain → Result Thrown c.Key
  derive_with (err e) m domain = err e
  derive_with (ok header) m domain = c.derive m domain header.salt

  or_empty : Option String → String
  or_empty none = ""
  or_empty (some p) = p

  is_some_master : Option c.Master → Bool
  is_some_master none = false
  is_some_master (some m) = true

  module _ (cookie : String) (ttl_ms : ℕ) where
    unfoldable pub touch : Server → ℕ → Server
    touch s now = record s { expires_at = some (now + ttl_ms) }

    -- The candidate replaces the master only after it has been verified.
    install : Result Thrown c.Master → Server → ℕ → Reply × Server
    unfolding touch verify code_of
    install (err e) s now = (code_of e, s)
    install (ok m) s now = elim (verify m) [
      | some e ↦ (code_of e, s)
      | none ↦ (unlock_done, touch (record s { master = some m }) now)
    ]

    try_unlock : Result Thrown Header → String → Server → ℕ → Reply × Server
    unfolding install message_of
    try_unlock (err e) passphrase s now = (failed internal (message_of e), s)
    try_unlock (ok header) passphrase s now = install (derive_master passphrase header) s now

    unfoldable pub give : Result Thrown c.Key → Server → ℕ → Reply × Server
    unfolding touch
    give (err e) s now = (threw e, s)
    give (ok k) s now = (key_is k, touch s now)

    unfoldable pub get_key :
        Option c.Master → Result Thrown Header → Option KeyDomain → Server → ℕ → Reply × Server
    unfolding give derive_with
    get_key none header domain s now = (failed locked "Keyring is locked.", s)
    get_key (some m) header domain s now = give (derive_with header m domain) s now

    unfoldable pub dispatch :
        KeyringOp → KeyringRequest → Result Thrown Header → Server → ℕ → Reply × Server
    unfolding try_unlock get_key or_empty is_some_master locked_now
    dispatch status req header s now = (status_is (is_some_master s.master) s.expires_at, s)
    dispatch unlock req header s now = try_unlock header (or_empty req.passphrase) s now
    dispatch key req header s now = get_key s.master header req.domain s now
    dispatch lock req header s now = (lock_done, locked_now s)
    dispatch unknown req header s now = (failed bad_request "Unknown op.", s)

    -- `header` is what `readHeader` returns or throws during this request.
    unfoldable pub handle : Server → KeyringRequest → Result Thrown Header → ℕ → Reply × Server
    unfolding secret_equals expire_if_due dispatch
    handle s req header now =
        if secret_equals req.cookie cookie
        then dispatch req.op req header (expire_if_due s now) now
        else (failed unauthorized "Bad keyring cookie.", s)

    -- `get unlocked()`
    unfoldable pub unlocked : Server → ℕ → Bool × Server
    unfolding expire_if_due is_some_master
    unlocked s now = let s' = expire_if_due s now in (is_some_master s'.master, s')
