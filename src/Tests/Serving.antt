-- ===== src/Tests/Serving.antt =====
-- A keyring server that holds a master, asked for a key.
use vops.Prelude.{◌≡◌, ◌≢◌, refl, String, ◌==◌, none, some, [], ◌∷◌, if◌then◌else◌, arith, eq_iff}
use vops.Prelude.Result.{ok}
use vops.Keyring.Server.{
  Crypto, Header, default_kdf, auth_error, KeyringRequest, KeyringOp, KeyDomain, Server, handle,
  dispatch, get_key, give, secret_equals, expire_if_due, expired, derive_with, derive_master,
  assert_params, verify,
}
use vops.Keyring.Server.Release.{Released, handle_releases}
use vops.Keyring.Server.Laws.{IsValid, run, run-IsValid}

abbrev crypto : Crypto
crypto = record {
  Master = String;
  Key = String;
  nfkc = λ s. s;
  scrypt = λ p salt k. p;
  derive = λ m d salt. ok m;
  sha256 = λ s. s;
  verify = some (λ m. if m == "pw" then none else some (auth_error "Wrong passphrase."));
}

abbrev header : Header
header = record { salt = "00"; kdf = default_kdf }

abbrev unlocking : KeyringRequest
unlocking = record { op = KeyringOp.unlock; cookie = "c"; passphrase = some "pw"; domain = none }

abbrev asking : KeyringRequest
asking = record {
  op = KeyringOp.key;
  cookie = "c";
  passphrase = none;
  domain = some KeyDomain.vault;
}

abbrev opened : Server crypto
opened = record { master = some "pw"; expires_at = some 500; locks = 0 }

opened-IsValid : IsValid crypto opened
unfolding derive_master assert_params verify
opened-IsValid = record { genuine = ("pw", header, refl, refl); paired = tt }

run-IsValid_example :
    IsValid crypto
      (run crypto "c" 100 opened ((unlocking, ok header, 10) ∷ (asking, ok header, 60) ∷ []))
run-IsValid_example =
    run-IsValid crypto "c" 100 opened ((unlocking, ok header, 10) ∷ (asking, ok header, 60) ∷ [])
      opened-IsValid

handle_releases_example :
    Released crypto "c" 100 opened asking (ok header) 60 "pw"
    × ((handle crypto "c" 100 opened asking (ok header) 60).1
        ≡ record opened { expires_at = some 160 })
unfolding handle secret_equals expire_if_due expired dispatch get_key give derive_with
handle_releases_example =
    handle_releases crypto "c" 100 opened asking (ok header) 60 "pw" opened-IsValid refl

abbrev stranger : KeyringRequest
stranger = record asking { cookie = "d" }

other_cookie : crypto.sha256 stranger.cookie ≢ crypto.sha256 "c"
other_cookie = ground (arith, eq_iff "d" "c")
