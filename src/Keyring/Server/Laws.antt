-- ===== src/Keyring/Server/Laws.antt =====
-- What the keyring server promises to the owner of the vault.
use vops.Prelude.{
  ℕ, ◌+◌, ◌≡◌, refl, sym, Option, none, some, String, List, [], ◌∷◌, Bool-cases, Option-cases, inl,
  inr,
}
use mathlib.Core.Path.{subst}
use vops.Prelude.Result.{Result, ok, err}
use vops.Keyring.Server.{
  Crypto, Header, KeyringRequest, KeyringOp, status, unlock, key, lock, unknown, Server, init,
  Thrown, secret_equals, derive_master, derive_with, verify, install, try_unlock, give, get_key,
  dispatch, expired, expire_if_due, handle, KeyDomain,
}

module _ (c : Crypto) where
  -- A master that some passphrase yields, and that opened the vault.
  abbrev pub IsGenuine : c.Master → Type 0
  IsGenuine m = (p : String) × (h : Header) × (derive_master c p h ≡ ok m) × (verify c m ≡ none)

  abbrev pub HasGenuine : Option c.Master → Type 0
  HasGenuine none = Unit
  HasGenuine (some m) = IsGenuine m

  -- A master is held exactly while a time of expiry is set.
  abbrev pub IsPaired : Option c.Master → Option ℕ → Type 0
  IsPaired none none = Unit
  IsPaired (some m) (some e) = Unit
  IsPaired none (some e) = ⊥
  IsPaired (some m) none = ⊥

  pub record IsValid (s : Server c) : Type 0 where
    pub genuine : HasGenuine s.master
    pub paired : IsPaired s.master s.expires_at

  IsValid-init : IsValid (init c)
  IsValid-init = record { genuine = tt; paired = tt }

  expire_if_due-IsValid : (s : Server c) (now : ℕ) → IsValid s → IsValid (expire_if_due c s now)
  unfolding expire_if_due
  expire_if_due-IsValid s now v = elim (Bool-cases (expired c s.master s.expires_at now)) [
    | inl e ↦ rw e (record { genuine = tt; paired = tt })
    | inr e ↦ rw e v
  ]

  module _ (cookie : String) (ttl_ms : ℕ) where
    install-IsValid :
        (r : Result Thrown c.Master) (s : Server c) (now : ℕ)
        → ((m : c.Master) → r ≡ ok m → (p : String) × (h : Header) × (derive_master c p h ≡ ok m))
        → IsValid s
        → IsValid (install c cookie ttl_ms r s now).1
    unfolding install
    install-IsValid (err e) s now made v = v
    install-IsValid (ok m) s now made v = elim (Option-cases (verify c m)) [
      | inl passed ↦
          let (p, h, derived) = made m refl in
          rw (passed, install) (record { genuine = (p, h, derived, passed); paired = tt })
      | inr (e, refused) ↦ rw (refused, install) v
    ]

    try_unlock-IsValid :
        (h : Result Thrown Header) (p : String) (s : Server c) (now : ℕ)
        → IsValid s
        → IsValid (try_unlock c cookie ttl_ms h p s now).1
    unfolding try_unlock
    try_unlock-IsValid (err e) p s now v = v
    try_unlock-IsValid (ok h) p s now v =
        install-IsValid (derive_master c p h) s now (λ m e. (p, h, e)) v

    give-IsValid :
        (r : Result Thrown c.Key) (m : c.Master) (s : Server c) (now : ℕ)
        → s.master ≡ some m
        → IsValid s
        → IsValid (give c cookie ttl_ms r s now).1
    unfolding give
    give-IsValid (err e) m s now held v = v
    give-IsValid (ok k) m s now held v = record {
      genuine = v.genuine;
      paired = subst (λ o. IsPaired o (some (now + ttl_ms))) (sym held) tt;
    }

    get_key-IsValid :
        (o : Option c.Master) (h : Result Thrown Header) (d : Option KeyDomain) (s : Server c)
        (now : ℕ)
        → s.master ≡ o
        → IsValid s
        → IsValid (get_key c cookie ttl_ms o h d s now).1
    unfolding get_key
    get_key-IsValid none h d s now held v = v
    get_key-IsValid (some m) h d s now held v = give-IsValid (derive_with c h m d) m s now held v

    dispatch-IsValid :
        (op : KeyringOp) (req : KeyringRequest) (h : Result Thrown Header) (s : Server c) (now : ℕ)
        → IsValid s
        → IsValid (dispatch c cookie ttl_ms op req h s now).1
    unfolding dispatch
    dispatch-IsValid status req h s now v = v
    dispatch-IsValid unlock req h s now v = try_unlock-IsValid h _ s now v
    dispatch-IsValid key req h s now v = get_key-IsValid s.master h req.domain s now refl v
    dispatch-IsValid lock req h s now v = record { genuine = tt; paired = tt }
    dispatch-IsValid unknown req h s now v = v

    handle-IsValid :
        (s : Server c) (req : KeyringRequest) (h : Result Thrown Header) (now : ℕ)
        → IsValid s
        → IsValid (handle c cookie ttl_ms s req h now).1
    unfolding handle
    handle-IsValid s req h now v = elim (Bool-cases (secret_equals c req.cookie cookie)) [
      | inl e ↦ rw e (
          dispatch-IsValid req.op req h (expire_if_due c s now) now (expire_if_due-IsValid s now v))
      | inr e ↦ rw e v
    ]

    -- A request as it arrives, with the header that is read and the time of the clock.
    abbrev pub Arrival : Type 0
    Arrival = KeyringRequest × Result Thrown Header × ℕ

    unfoldable pub run : Server c → List Arrival → Server c
    run s [] = s
    run s ((req, h, now) ∷ rest) = run (handle c cookie ttl_ms s req h now).1 rest

    -- Whatever requests arrive at a valid server, in whatever order and at whatever times, the
    -- master that it then holds, if any, comes from a passphrase and has opened the vault, and it
    -- holds one exactly while a time of expiry is set.
    pub run-IsValid : (s : Server c) (l : List Arrival) → IsValid s → IsValid (run s l)
    unfolding run
    run-IsValid s [] v = v
    run-IsValid s ((req, h, now) ∷ rest) v =
        run-IsValid (handle c cookie ttl_ms s req h now).1 rest (handle-IsValid s req h now v)
