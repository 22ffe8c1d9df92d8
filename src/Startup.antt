-- ===== src/Startup.antt =====
-- src/main.rs, `run`: from the command line to the end of the service. What a socket does and when
-- signals come are parameters, as are the configuration file and the parser of socket addresses.
pub mod Serving
pub mod Ending
pub mod Runs
use idcat.Common.{
  Option, none, some, Result-cases, ap, if◌then◌else◌, subst, Bool-cases, inl, inr, ◌≡◌, ◌↔◌, ◌⊎◌,
  inl, inr, refl, Bool, true, false, ℕ, codes, Text, Result, ok, err, ◌>>=◌, ◌>>◌, >>=-eq-ok,
  map_err, arith,
}
use idcat.Authzoo.{Authzoo}
use idcat.Startup.Serving.{Future, await, map_ready, Signals, Sockets, listen}
use idcat.Config.{Config, NatsConfig, TlsConfig}
use idcat.Config.Load.{Files, load}
use idcat.Config.Errors.{ConfigError}
use idcat.Config.Validate.{validate, validate_iff, IsValid}
use idcat.Service.{AppState, WebhookPublisher, build_app_state}

pub record Cli : Type 0 where
  pub config_path : Text
  pub disable_auth : Bool
  pub validate_config : Bool
  pub debug : Bool

-- The filter of the log that `main` installs
unfoldable pub log_filter : Cli → Text
log_filter cli =
    if cli.debug
    then codes "idcat=debug,tower_http=info,axum::rejection=trace"
    else codes "idcat=info,tower_http=info,axum::rejection=info"

pub data RunError : Type 0 where
  failed : Text → RunError
  invalid : ConfigError → RunError

-- What a start uses of the outside.
pub record Surroundings (Z : Authzoo) : Type 1 where
  -- what `Config::load` uses
  pub files : Files Z
  -- `SocketAddr`, and its parser
  pub SocketAddr : Type 0
  pub parse_address : Text → Result Text SocketAddr
  -- `WebhookPublisher::connect` and `GithubClient::new`
  pub connect : NatsConfig → Result Text WebhookPublisher
  pub client : Result Text (Unit {0})
  -- `RustlsConfig::from_pem_file`
  pub RustlsConfig : Type 0
  pub from_pem_file : TlsConfig → Result Text RustlsConfig
  -- the routes with their state, served on an address, with or without TLS: what each poll gives
  pub server : AppState Z → SocketAddr → Option RustlsConfig → Future (Result Text (Unit {0}))
  -- what the process is told from outside
  pub signals : Signals

module _ (Z : Authzoo) (S : Surroundings Z) (kms_built : Bool) where
  -- `Config::load(path)?` and `config.validate(disable_auth)?`
  unfoldable pub load_valid : Text → Bool → Result RunError (Config Z)
  load_valid path disable_auth = do
    config ← map_err failed (load Z S.files path)
    map_err invalid (validate Z kms_built disable_auth config)
    ok config

  -- the address and the state of the service
  unfoldable pub prepare : Cli → Config Z → Result RunError (S.SocketAddr × AppState Z)
  prepare cli config = do
    bind_address ← map_err failed (S.parse_address config.bind_address)
    state ← map_err failed (build_app_state Z S.connect S.client config cli.disable_auth)
    ok (bind_address, state)

  abbrev pub sockets : AppState Z → Sockets S.SocketAddr S.RustlsConfig
  sockets state = record { from_pem_file = S.from_pem_file; server = S.server state }

  -- the end of `run`, over so many polls of the server
  unfoldable pub serve : ℕ → Config Z → S.SocketAddr × AppState Z → Option (Result Text (Unit {0}))
  serve polls config (bind_address, state) =
      await polls 0
        (listen S.SocketAddr S.RustlsConfig (sockets state) S.signals bind_address config.tls)

  -- the part of `run` after the configuration is accepted; none while the service still runs
  unfoldable pub start : ℕ → Cli → Config Z → Option (Result RunError (Unit {0}))
  unfolding prepare serve
  start polls cli config = elim (prepare cli config) [
    | err e ↦ some (err e)
    | ok prepared ↦ map_ready (map_err failed) (serve polls config prepared)
  ]

  unfoldable pub run : ℕ → Cli → Option (Result RunError (Unit {0}))
  unfolding load_valid start
  run polls cli = elim (load_valid cli.config_path cli.disable_auth) [
    | err e ↦ some (err e)
    | ok config ↦ if cli.validate_config then some (ok tt) else start polls cli config
  ]

  -- `main`: the exit code of the process, once it has ended
  unfoldable pub exit_code : ℕ → Cli → Option ℕ
  exit_code polls cli = map_ready (λ r. elim r [ ok _ ↦ 0 | err _ ↦ 1 ]) (run polls cli)
