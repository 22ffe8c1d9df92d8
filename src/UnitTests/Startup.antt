-- ===== src/UnitTests/Startup.antt =====
-- src/main.rs, the module `tests`: the tests of `validate_config`. The file of a test is its path, and
-- what the parser gives for it is looked up by that.
use native.Mathlib.Decide.{dec_le, ℕ_discrete}
use idcat.Common.{
  some, none, true, ◌≡◌, refl, Bool, true, false, ◌&&◌, if◌then◌else◌, [], ◌∷◌, Text, codes,
  text_eq, text_dec, ◌==◌, lookup, contains_text, starts_with, strip_prefix, contains_char,
  is_absolute, any, contains, for_each, find?, Result, ok, err,
}
use idcat.Config.{Config, default_bind_address, default_private_key_directory}
use idcat.Config.Load.{load}
use idcat.Config.Messages.{to_string}
use idcat.Config.Server.{
  validate_listener, validate_key_source, validate_nats, any_nats_webhook_target,
}
use idcat.Config.Apps.{validate_apps}
use idcat.Config.Validate.{
  validate, validate_server, validate_with, validate_access, check_reachable,
  has_installation_policy, has_owner_policy,
}
use idcat.Startup.{RunError, failed, invalid, Surroundings, load_valid}
use idcat.UnitTests.{unwrapped, unwrapped_err, pass}
use idcat.UnitTests.StubAuthzoo.{stub_authzoo, github_workflow_role, by_name, ensure}
use idcat.UnitTests.ConfigFiles.{config_with, an_app}

-- `VALID`
abbrev valid : Config stub_authzoo
valid =
    config_with (github_workflow_role ∷ [])
      (an_app (codes "deployments") (codes "github-workflow" ∷ []) ∷ [])

abbrev missing_file : Text
missing_file = codes "/nonexistent/idcat.toml"

abbrev valid_file : Text
valid_file = codes "/tmp/idcat-valid.toml"

abbrev no_github_app_file : Text
no_github_app_file = codes "/tmp/idcat-no-github-app.toml"

abbrev no_roles_file : Text
no_roles_file = codes "/tmp/idcat-no-roles.toml"

unfoldable read_to_string : Text → Result Text Text
read_to_string path = if path == missing_file then err (codes "No such file") else ok path

unfoldable parse : Text → Result Text (Config stub_authzoo)
parse content =
    if content == valid_file
    then ok valid
    else (if content == no_github_app_file
        then ok (record valid { github_apps = [] })
        else ok (config_with [] valid.github_apps))

abbrev surroundings : Surroundings stub_authzoo
surroundings = record {
  files = record { read_to_string = read_to_string; parse = parse };
  SocketAddr = Text;
  parse_address = λ address. ok address;
  connect = λ config. err (codes "no broker");
  client = ok tt;
  RustlsConfig = Text;
  from_pem_file = λ tls. ok tls.certificate_file;
  server = λ state address tls poll. some (ok tt);
  signals = record {
    installed = ok tt;
    sigterm = λ poll. none;
    ctrl_c = λ poll. none;
    server_first = λ poll. true;
    sigterm_first = λ poll. true;
  };
}

-- `error.to_string()`
unfoldable error_text : RunError → Text
error_text (failed message) = message
error_text (invalid error) = to_string error

-- `validate_config(path, disable_auth)`
abbrev validate_config : Text → Bool → Result RunError (Config stub_authzoo)
validate_config path disable_auth = load_valid stub_authzoo surroundings false path disable_auth

abbrev validate_config_accepts_a_valid_config : Bool
validate_config_accepts_a_valid_config =
    unwrapped (validate_config valid_file false) (λ config. true)

abbrev validate_config_rejects_a_config_with_no_github_app : Bool
validate_config_rejects_a_config_with_no_github_app =
    unwrapped_err (validate_config no_github_app_file false)
      (λ error. contains_text (error_text error) (codes "github-app"))

abbrev validate_config_reports_where_a_missing_file_was_looked_for : Bool
validate_config_reports_where_a_missing_file_was_looked_for =
    unwrapped_err (validate_config missing_file false)
      (λ error. contains_text (error_text error) (codes "/nonexistent/idcat.toml"))

abbrev validate_config_accepts_a_roleless_config_only_with_auth_disabled : Bool
validate_config_accepts_a_roleless_config_only_with_auth_disabled =
    unwrapped_err (validate_config no_roles_file false) (λ error. true)
    && unwrapped (validate_config no_roles_file true) (λ config. true)

tests_pass :
    pass (
      validate_config_accepts_a_valid_config ∷ validate_config_rejects_a_config_with_no_github_app
      ∷ validate_config_reports_where_a_missing_file_was_looked_for
      ∷ validate_config_accepts_a_roleless_config_only_with_auth_disabled ∷ [])
    ≡ true
unfolding pass unwrapped unwrapped_err read_to_string parse error_text load load_valid to_string
    codes text_dec ℕ_discrete dec_le lookup contains_text starts_with strip_prefix contains_char
    is_absolute any contains for_each find? validate validate_server validate_with validate_access
    validate_listener validate_key_source validate_nats any_nats_webhook_target validate_apps
    check_reachable has_installation_policy has_owner_policy by_name ensure default_bind_address
    default_private_key_directory
tests_pass = refl
