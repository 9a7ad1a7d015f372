-- ===== src/Keyring/Server/Release.antt =====
-- When a key leaves the keyring server, and whom it refuses.
use vops.Prelude.{
  ℕ, ◌+◌, ◌<◌, ◌≡◌, ◌≢◌, refl, ap, ◌∙◌, true, false, Option, none, some, String, arith, not_leb,
  Bool-cases, inl, inr,
}
use mathlib.Core.Path.{subst}
use vops.Prelude.Result.{Result, ok, err}
use vops.Keyring.Server.{
  Crypto, Header, KeyringRequest, KeyringOp, status, unlock, key, lock, unknown, Server, Thrown,
  auth_error, other_error, key_is, secret_equals, derive_master, derive_with, touch, install,
  try_unlock, give, get_key, dispatch, expired, expire_if_due, handle, KeyDomain,
}
use vops.Keyring.Server.Laws.{IsPaired, IsValid}

module _ (c : Crypto) where
  module _ (cookie : String) (ttl_ms : ℕ) where
    give_lem :
        (r : Result Thrown c.Key) (s : Server c) (now : ℕ) (k : c.Key)
        → (give c cookie ttl_ms r s now).0 ≡ key_is k
        → (r ≡ ok k) × ((give c cookie ttl_ms r s now).1 ≡ touch c cookie ttl_ms s now)
    unfolding give
    give_lem (err e) s now k h = cc
    give_lem (ok k') s now k h = (cc, refl)

    get_key_lem :
        (o : Option c.Master) (h : Result Thrown Header) (d : Option KeyDomain) (s : Server c)
        (now : ℕ) (k : c.Key)
        → (get_key c cookie ttl_ms o h d s now).0 ≡ key_is k
        → (m : c.Master) × (o ≡ some m)
          × (derive_with c h m d ≡ ok k)
          × ((get_key c cookie ttl_ms o h d s now).1 ≡ touch c cookie ttl_ms s now)
    unfolding get_key
    get_key_lem none h d s now k e = cc
    get_key_lem (some m) h d s now k e =
        let (made, same) = give_lem (derive_with c h m d) s now k e in (m, refl, made, same)

    install_no_key :
        (r : Result Thrown c.Master) (s : Server c) (now : ℕ) (k : c.Key)
        → (install c cookie ttl_ms r s now).0 ≢ key_is k
    unfolding install
    install_no_key (err (auth_error m)) s now k = cc
    install_no_key (err (other_error m)) s now k = cc
    install_no_key (ok m) s now k = ground arith

    try_unlock_no_key :
        (h : Result Thrown Header) (p : String) (s : Server c) (now : ℕ) (k : c.Key)
        → (try_unlock c cookie ttl_ms h p s now).0 ≢ key_is k
    unfolding try_unlock
    try_unlock_no_key (err e) p s now k = cc
    try_unlock_no_key (ok h) p s now k = install_no_key (derive_master c p h) s now k

    -- What has happened when a key is handed out.
    pub record Released (s : Server c) (req : KeyringRequest) (h : Result Thrown Header) (now : ℕ)
        (k : c.Key) : Type 0 where
      pub held : c.Master
      pub expiry : ℕ
      pub authorized : secret_equals c req.cookie cookie ≡ true
      pub asked : req.op ≡ key
      pub holds : s.master ≡ some held
      pub set : s.expires_at ≡ some expiry
      pub in_time : now < expiry
      pub derived : derive_with c h held req.domain ≡ ok k

    dispatch_key :
        (op : KeyringOp) (req : KeyringRequest) (h : Result Thrown Header) (s : Server c) (now : ℕ)
        (k : c.Key)
        → (dispatch c cookie ttl_ms op req h s now).0 ≡ key_is k
        → (op ≡ key)
          × (m : c.Master) × (s.master ≡ some m)
          × (derive_with c h m req.domain ≡ ok k)
          × ((dispatch c cookie ttl_ms op req h s now).1 ≡ touch c cookie ttl_ms s now)
    unfolding dispatch
    dispatch_key status req h s now k e = cc
    dispatch_key unlock req h s now k e = absurd (try_unlock_no_key h _ s now k e)
    dispatch_key key req h s now k e =
        let (m, held, made, same) = get_key_lem s.master h req.domain s now k e in
        (refl, m, held, made, same)
    dispatch_key lock req h s now k e = cc
    dispatch_key unknown req h s now k e = cc

    live :
        (o : Option c.Master) (e : Option ℕ) (now : ℕ) (m : c.Master)
        → IsPaired c o e
        → o ≡ some m
        → expired c o e now ≡ false
        → (t : ℕ) × (e ≡ some t) × (now < t)
    unfolding expired
    live none e now m paired held still = cc
    live (some m') none now m paired held still = absurd paired
    live (some m') (some t) now m paired held still = (t, refl, not_leb t now still)

    not_expired :
        (s : Server c) (now : ℕ) (m : c.Master)
        → (expire_if_due c s now).master ≡ some m
        → (expire_if_due c s now ≡ s) × (expired c s.master s.expires_at now ≡ false)
    unfolding expire_if_due
    not_expired s now m held = ground arith

    release_lem :
        (op : KeyringOp) (s : Server c) (req : KeyringRequest) (h : Result Thrown Header) (now : ℕ)
        (k : c.Key)
        → IsValid c s
        → secret_equals c req.cookie cookie ≡ true
        → req.op ≡ op
        → (dispatch c cookie ttl_ms op req h (expire_if_due c s now) now).0 ≡ key_is k
        → Released s req h now k
          × ((dispatch c cookie ttl_ms op req h (expire_if_due c s now) now).1
              ≡ touch c cookie ttl_ms s now)
    release_lem op s req h now k v authorized same e =
        let s' : Server c = expire_if_due c s now in
        let (asked, m, held, made, after) = dispatch_key op req h s' now k e in
        let (unchanged, still) = not_expired s now m held in
        let held' : s.master ≡ some m =
          subst (λ (x : Server c). x.master ≡ some m) unchanged held in
        let (t, set, in_time) = live s.master s.expires_at now m v.paired held' still in
        (
          record {
            held = m;
            expiry = t;
            authorized = authorized;
            asked = same ∙ asked;
            holds = held';
            set = set;
            in_time = in_time;
            derived = made;
          },
          after ∙ ap (λ x. touch c cookie ttl_ms x now) unchanged,
        )

    -- A key leaves a valid server only in answer to a `key` request with the right cookie, before
    -- the expiry, for the master that is held and the domain that is asked for; and the expiry is
    -- then the lifetime after this use, and nothing else has changed.
    pub handle_releases :
        (s : Server c) (req : KeyringRequest) (h : Result Thrown Header) (now : ℕ) (k : c.Key)
        → IsValid c s
        → (handle c cookie ttl_ms s req h now).0 ≡ key_is k
        → Released s req h now k
          × ((handle c cookie ttl_ms s req h now).1 ≡ record s { expires_at = some (now + ttl_ms) })
    unfolding handle touch
    handle_releases s req h now k v e = elim (Bool-cases (secret_equals c req.cookie cookie)) [
      | inl y ↦ rw (y, handle) (release_lem req.op s req h now k v y refl (rw (y, handle) at e))
      | inr n ↦ absurd (cc (rw (n, handle) at e))
    ]
