-- ===== src/Startup/Runs.antt =====
-- src/main.rs, `run`: how a run of the service ends.
use idcat.Common.{
  ◌∙◌, suc, Option, none, some, Result-cases, ap, subst, Bool-cases, inl, inr, ◌≡◌, ◌↔◌, ◌⊎◌, inl,
  inr, refl, Bool, true, false, ℕ, Text, Result, ok, err, >>=-eq-ok, map_err, arith,
}
use idcat.Authzoo.{Authzoo}
use idcat.Startup.Serving.{await, map_ready, listen}
use idcat.Config.{Config}
use idcat.Config.Load.{load}
use idcat.Config.Validate.{validate, validate_iff, IsValid}
use idcat.Service.{AppState, build_app_state}
use idcat.Startup.Ending.{listen_ends}
use idcat.Startup.{
  Cli, RunError, failed, invalid, Surroundings, load_valid, prepare, sockets, serve, start, run,
}

module _ (Z : Authzoo) (S : Surroundings Z) (kms_built : Bool) where
  -- The service was started on an address, with a state that was built, and ended well within so many
  -- polls.
  pub record IsServed (polls : ℕ) (cli : Cli) (config : Config Z) : Type 0 where
    pub bind_address : S.SocketAddr
    pub parsed : S.parse_address config.bind_address ≡ ok bind_address
    pub state : AppState Z
    pub built : build_app_state Z S.connect S.client config cli.disable_auth ≡ ok state
    pub served :
        await polls 0 (
          listen S.SocketAddr S.RustlsConfig
            (sockets Z S kms_built state)
            S.signals
            bind_address
            config.tls)
        ≡ some (ok tt)

  map_err_iff {ℓ κ μ} :
      {E : Type ℓ} {F : Type κ} {A : Type μ} (r : Result E A) (f : E → F) (a : A)
      → (map_err f r ≡ ok a) ↔ (r ≡ ok a)
  map_err_iff (ok b) f a = ground arith
  map_err_iff (err x) f a = (λ h. cc, λ h. cc)

  load_valid_iff :
      (path : Text) (disable_auth : Bool) (config : Config Z)
      → (load_valid Z S kms_built path disable_auth ≡ ok config)
        ↔ ((load Z S.files path ≡ ok config) × IsValid Z kms_built disable_auth config)
  unfolding load_valid
  load_valid_iff path disable_auth config = (to, from)
    where
      to :
          load_valid Z S kms_built path disable_auth ≡ ok config
          → (load Z S.files path ≡ ok config) × IsValid Z kms_built disable_auth config
      to h =
          let (c, loaded, rest) = >>=-eq-ok (map_err failed (load Z S.files path)) _ h in
          let (u, valid, same) =
            >>=-eq-ok (map_err invalid (validate Z kms_built disable_auth c)) _ rest in
          let e : c ≡ config = ground arith in
          (
            subst (λ x. load Z S.files path ≡ ok x) e
                ((map_err_iff (load Z S.files path) failed c).0 loaded),
            subst (λ x. IsValid Z kms_built disable_auth x) e
                ((validate_iff Z kms_built disable_auth c).0
                  ((map_err_iff (validate Z kms_built disable_auth c) invalid tt).0 valid)),
          )

      from :
          (load Z S.files path ≡ ok config) × IsValid Z kms_built disable_auth config
          → load_valid Z S kms_built path disable_auth ≡ ok config
      from (loaded, valid) =
          let accepted = (validate_iff Z kms_built disable_auth config).1 valid in ground arith

  prepare-eq-ok :
      (cli : Cli) (config : Config Z) (address : S.SocketAddr) (state : AppState Z)
      → prepare Z S kms_built cli config ≡ ok (address, state)
      → (S.parse_address config.bind_address ≡ ok address)
        × (build_app_state Z S.connect S.client config cli.disable_auth ≡ ok state)
  unfolding prepare
  prepare-eq-ok cli config address state h =
      let (a, parsed, rest) =
        >>=-eq-ok (map_err failed (S.parse_address config.bind_address)) _ h in
      let (t, built, same) =
        >>=-eq-ok (map_err failed (build_app_state Z S.connect S.client config cli.disable_auth)) _
          rest in
      let a_same : a ≡ address = ap (λ (p : S.SocketAddr × AppState Z). p.0) (ok_inj same) in
      let t_same : t ≡ state = ap (λ (p : S.SocketAddr × AppState Z). p.1) (ok_inj same) in
      (
        subst (λ x. S.parse_address config.bind_address ≡ ok x) a_same
            ((map_err_iff (S.parse_address config.bind_address) failed a).0 parsed),
        subst (λ x. build_app_state Z S.connect S.client config cli.disable_auth ≡ ok x) t_same
            ((map_err_iff (build_app_state Z S.connect S.client config cli.disable_auth) failed t).0
              built),
      )
    where
      ok_inj :
          {x y : S.SocketAddr × AppState Z}
          → ◌≡◌ {A = Result RunError (S.SocketAddr × AppState Z)} (ok x) (ok y)
          → x ≡ y
      ok_inj e = cc

  prepare_ready :
      (cli : Cli) (config : Config Z) (address : S.SocketAddr) (state : AppState Z)
      → S.parse_address config.bind_address ≡ ok address
      → build_app_state Z S.connect S.client config cli.disable_auth ≡ ok state
      → prepare Z S kms_built cli config ≡ ok (address, state)
  unfolding prepare
  prepare_ready cli config address state parsed built = rw (parsed, built) refl

  map_ready-ok :
      (o : Option (Result Text (Unit {0})))
      → map_ready (map_err failed) o ≡ some (ok tt)
      → o ≡ some (ok tt)
  map_ready-ok none h = absurd (cc)
  map_ready-ok (some (err e)) h = absurd (ground arith)
  map_ready-ok (some (ok tt)) h = refl

  start_iff :
      (polls : ℕ) (cli : Cli) (config : Config Z)
      → (start Z S kms_built polls cli config ≡ some (ok tt)) ↔ IsServed polls cli config
  unfolding start serve
  start_iff polls cli config = (to, from)
    where
      to : start Z S kms_built polls cli config ≡ some (ok tt) → IsServed polls cli config
      to h = elim (Result-cases (prepare Z S kms_built cli config)) [
        | inl (e, bad) ↦ absurd (ground arith)
        | inr ((address, state), good) ↦
            let (parsed, built) = prepare-eq-ok cli config address state good in
            record {
              bind_address = address;
              parsed = parsed;
              state = state;
              built = built;
              served = map_ready-ok _ (rw (good, start) at h);
            }
      ]

      from : IsServed polls cli config → start Z S kms_built polls cli config ≡ some (ok tt)
      from h =
          let good = prepare_ready cli config h.bind_address h.state h.parsed h.built in
          let ended = h.served in rw (start, good, serve, ended) refl

  -- A run has ended well, within so many polls of the server, exactly when the configuration is loaded
  -- and valid and, unless it was only to be checked, its address is one, the state of the service is
  -- built, and the service, which listens on the address and waits for a signal, has ended well within
  -- those polls. A run that only checks neither parses the address nor connects to anything.
  pub run_iff :
      (polls : ℕ) (cli : Cli)
      → (run Z S kms_built polls cli ≡ some (ok tt)) ↔ (
          (config : Config Z) × (load Z S.files cli.config_path ≡ ok config)
          × IsValid Z kms_built cli.disable_auth config
          × ((cli.validate_config ≡ true)
              ⊎ ((cli.validate_config ≡ false) × IsServed polls cli config)))
  unfolding run
  run_iff polls cli = (to, from)
    where
      to :
          run Z S kms_built polls cli ≡ some (ok tt)
          → (config : Config Z) × (load Z S.files cli.config_path ≡ ok config)
            × IsValid Z kms_built cli.disable_auth config
            × ((cli.validate_config ≡ true)
                ⊎ ((cli.validate_config ≡ false) × IsServed polls cli config))
      to h = elim (Result-cases (load_valid Z S kms_built cli.config_path cli.disable_auth)) [
        | inl (e, refused) ↦ absurd (ground arith)
        | inr (config, accepted) ↦
            let (loaded, valid) =
              (load_valid_iff cli.config_path cli.disable_auth config).0 accepted in
            let rest = rw (accepted, run) at h in
            (
              config,
              loaded,
              valid,
              (elim (Bool-cases cli.validate_config) [
                | inl only ↦ inl only
                | inr more ↦ inr (more, (start_iff polls cli config).0 (rw more at rest))
              ]),
            )
      ]

      from :
          ((config : Config Z) × (load Z S.files cli.config_path ≡ ok config)
            × IsValid Z kms_built cli.disable_auth config
            × ((cli.validate_config ≡ true)
                ⊎ ((cli.validate_config ≡ false) × IsServed polls cli config)))
          → run Z S kms_built polls cli ≡ some (ok tt)
      from (config, loaded, valid, inl only) =
          rw (run, (load_valid_iff cli.config_path cli.disable_auth config).1 (loaded, valid), only)
            refl
      from (config, loaded, valid, inr (more, served)) =
          rw (run, (load_valid_iff cli.config_path cli.disable_auth config).1 (loaded, valid), more)
            ((start_iff polls cli config).1 served)

  run_starts :
      (polls : ℕ) (cli : Cli) (config : Config Z)
      → load_valid Z S kms_built cli.config_path cli.disable_auth ≡ ok config
      → cli.validate_config ≡ false
      → run Z S kms_built polls cli ≡ start Z S kms_built polls cli config
  unfolding run
  run_starts polls cli config accepted more = ground arith

  started_ends :
      (n : ℕ) (cli : Cli) (config : Config Z)
      → S.signals.sigterm n ≡ some tt
      → (r : Result RunError (Unit {0})) × (start Z S kms_built (suc n) cli config ≡ some r)
  unfolding start serve
  started_ends n cli config came = elim (Result-cases (prepare Z S kms_built cli config)) [
    | inl (e, bad) ↦ (err e, rw (bad, start) refl)
    | inr ((address, state), good) ↦
        let (poll, r, early, awaited, here, cause) =
          listen_ends (sockets Z S kms_built state) S.signals address config.tls n came in
        (map_err failed r, rw (good, start, awaited) refl)
  ]

  -- Once a SIGTERM comes, every run has ended, with a success or an error, by the poll of the server that
  -- sees the signal.
  pub run_ends :
      (n : ℕ) (cli : Cli)
      → S.signals.sigterm n ≡ some tt
      → (r : Result RunError (Unit {0})) × (run Z S kms_built (suc n) cli ≡ some r)
  unfolding run
  run_ends n cli came =
      elim (Result-cases (load_valid Z S kms_built cli.config_path cli.disable_auth)) [
        | inl (e, refused) ↦ (err e, rw (refused, run) refl)
        | inr (config, accepted) ↦ elim (Bool-cases cli.validate_config) [
          | inl only ↦ (ok tt, rw (accepted, only, run) refl)
          | inr more ↦
              let (r, ended) = started_ends n cli config came in
              (r, run_starts (suc n) cli config accepted more ∙ ended)
        ]
      ]
