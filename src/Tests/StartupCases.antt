-- ===== src/Tests/StartupCases.antt =====
-- The theorem on a run of the service, at the small world's configuration.
use native.Mathlib.Decide.{ℕ_discrete}
use idcat.Common.{
  ℕ, ◌≤◌, ◌≡◌, ◌↔◌, ◌⊎◌, refl, true, false, if◌then◌else◌, ◌==◌, nat_eq, some, none, [], Result, ok,
  err, codes, Text, text_eq,
}
use idcat.Config.Server.{any_nats_webhook_target}
use idcat.Config.Warnings.{warnings, IsNatsUsed, RecognisedPolicies, warnings-nil_iff}
use idcat.Startup.Serving.{Signals, Sockets, await, listen}
use idcat.Startup.Ending.{Cause, listen_ends}
use idcat.Config.{Config}
use idcat.Config.Load.{load}
use idcat.Config.Validate.{IsValid}
use idcat.Startup.{Cli, Surroundings, RunError, run}
use idcat.Startup.Runs.{run_iff, run_ends, IsServed}
use idcat.Tests.Zoo.{zoo}
use idcat.Tests.World.{a_config}

-- SIGTERM comes at poll 3, and the server runs on.
abbrev signals : Signals
signals = record {
  installed = ok tt;
  sigterm = λ poll. if poll == 3 then some tt else none;
  ctrl_c = λ poll. none;
  server_first = λ poll. true;
  sigterm_first = λ poll. false;
}

abbrev surroundings : Surroundings zoo
surroundings = record {
  files = record { read_to_string = λ path. ok path; parse = λ content. ok a_config };
  SocketAddr = Text;
  parse_address = λ t. ok t;
  connect = λ n. err (codes "no broker");
  client = ok tt;
  RustlsConfig = Text;
  from_pem_file = λ tls. ok tls.certificate_file;
  server = λ state address tls poll. none;
  signals = signals;
}

abbrev cli : Cli
cli = record {
  config_path = codes "/config/idcat.toml";
  disable_auth = false;
  validate_config = false;
  debug = false;
}

run_iff_example : (run zoo surroundings false 4 cli ≡ some (ok tt)) ↔ (
    (config : Config zoo) × (load zoo surroundings.files (codes "/config/idcat.toml") ≡ ok config)
    × IsValid zoo false false config
    × ((cli.validate_config ≡ true)
        ⊎ ((cli.validate_config ≡ false) × IsServed zoo surroundings false 4 cli config)))
run_iff_example = run_iff zoo surroundings false 4 cli

run_ends_example : (r : Result RunError (Unit {0})) × (run zoo surroundings false 4 cli ≡ some r)
unfolding ℕ_discrete
run_ends_example = run_ends zoo surroundings false 3 cli refl

abbrev sockets : Sockets Text Text
sockets = record {
  from_pem_file = λ tls. ok tls.certificate_file;
  server = λ address tls poll. none;
}

listen_ends_example :
    (poll : ℕ) × (r : Result Text (Unit {0})) × (poll ≤ 3)
    × (await 4 0 (listen Text Text sockets signals (codes "0.0.0.0:80") none) ≡ some r)
    × (listen Text Text sockets signals (codes "0.0.0.0:80") none poll ≡ some r)
    × Cause sockets signals (codes "0.0.0.0:80") none poll r
unfolding ℕ_discrete
listen_ends_example = listen_ends sockets signals (codes "0.0.0.0:80") none 3 refl

-- The configuration grants only what GitHub knows.
warnings-nil_iff_example : (warnings zoo false a_config ≡ []) ↔ (
    IsNatsUsed zoo (any_nats_webhook_target a_config.github_apps) none
    × RecognisedPolicies zoo false a_config)
warnings-nil_iff_example = warnings-nil_iff zoo false a_config
