-- ===== src/Helper.antt =====
-- git-credential-helper/src/config.rs and token_source.rs: the helper that gives git an installation
-- token of the service. The children read git's request and answer it.
pub mod Credential
pub mod Repository
pub mod Fetch
pub mod Run
pub mod Outputs
pub mod Failures
pub mod Runs
pub mod Settings
pub mod Load
use idcat.Common.{
  ℕ, Option, none, some, List, [], ◌∷◌, zero, suc, to_decimal, ◌++◌, Text, codes, trim, is_nil,
  Result, ok, err, ◌>>=◌, ◌>>◌, bail_if, map_err,
}

pub data TokenSource : Type 0 where
  path command : Text → TokenSource

pub record RawHelperConfig : Type 0 where
  pub github_app : Text
  pub idcat_endpoint : Text
  pub token_path : Option Text
  pub token_command : Option Text

pub record HelperConfig : Type 0 where
  pub github_app : Text
  pub idcat_endpoint : Text
  pub token_source : TokenSource

-- `match (config.token_path, config.token_command)`
unfoldable pub choose_source : Option Text → Option Text → Result Text TokenSource
choose_source (some p) none = ok (path p)
choose_source none (some c) = ok (command c)
choose_source none none = err (codes "configuration must set either token-path or token-command")
choose_source (some p) (some c) =
    err (codes "configuration must not set both token-path and token-command")

-- `TryFrom<RawConfig>`
unfoldable pub config_of : RawHelperConfig → Result Text HelperConfig
unfolding choose_source
config_of raw = do
  source ← choose_source raw.token_path raw.token_command
  ok (record {
    github_app = raw.github_app;
    idcat_endpoint = raw.idcat_endpoint;
    token_source = source;
  })

unfoldable pub trim_token : Text → Text → Result Text Text
trim_token token empty_message = do bail_if (is_nil (trim token)) empty_message; ok (trim token)

-- What the files and the shell give: the text of a file, and of a command whether it could be run,
-- its exit code, if it was not killed (0 is success), and its output, if that is UTF-8.
pub record Sources : Type 0 where
  pub read_to_string : Text → Result Text Text
  pub output : Text → Option (Option ℕ × Option Text)

module _ (S : Sources) where
  unfoldable pub read_token_path : Text → Result Text Text
  unfolding trim_token
  read_token_path p = do
    token ← map_err (λ e. codes "failed to read token-path: " ++ p) (S.read_to_string p)
    trim_token token (codes "token-path produced an empty token")

  -- what a command's exit status and output become
  unfoldable pub token_of_output : Option ℕ × Option Text → Result Text Text
  unfolding trim_token
  token_of_output (some zero, none) = err (codes "token-command output was not UTF-8")
  token_of_output (some zero, some text) =
      trim_token text (codes "token-command produced an empty token")
  token_of_output (none, text) = err (codes "token-command exited with status unknown")
  token_of_output (some (suc n), text) =
      err (codes "token-command exited with status " ++ to_decimal (suc n))

  unfoldable pub run_token_command : Text → Result Text Text
  unfolding token_of_output
  run_token_command c = elim (S.output c) [
    | none ↦ err (codes "failed to execute token-command: " ++ c)
    | some result ↦ token_of_output result
  ]

  unfoldable pub read_token : TokenSource → Result Text Text
  read_token (path p) = read_token_path p
  read_token (command c) = run_token_command c
