-- ===== src/UnitTests/Helper.antt =====
-- git-credential-helper/src: the tests of credential.rs, config.rs and idcat.rs.
use native.Mathlib.Decide.{dec_le, ℕ_discrete}
use idcat.Common.{
  ◌≡◌, refl, Bool, true, false, not, ◌&&◌, Option, some, none, List, [], ◌∷◌, ◌++◌, Text, codes,
  text_eq, text_dec, ◌==◌, Eq, Map, lookup, insert, or_insert, split, split_once, join,
  strip_prefix, strip_suffix, trim_start_matches, trim_start_by, contains_text, to_ascii_lowercase,
}
use idcat.Helper.{TokenSource, path, command, RawHelperConfig, choose_source, config_of}
use idcat.Helper.Credential.{
  Urls, parse_credential, read_credential, read_lines, lines, parse_line, parse_lines,
  host_with_port, merge_host, merge_path, merge_url_credential, is_github_https_request,
  eq_ignore_ascii_case,
}
use idcat.Helper.Repository.{
  Repo, repo_from_path, repo_from_credential, repo_of_components, components, without_git,
}
use idcat.Helper.Fetch.{installation_token_url}
use idcat.UnitTests.{unwrapped, unwrapped_err, pass}

-- An address `https://host/path`, which is all that the tests parse.
record Url : Type 0 where
  host : Text
  path : Text

unfoldable parse_url : Text → Option Url
parse_url text = elim (strip_prefix text (codes "https://")) [
  | none ↦ none
  | some rest ↦ elim (split_once rest b'/') [
    | none ↦ some (record { host = rest; path = codes "/" })
    | some (host, tail) ↦ some (record { host = host; path = b'/' ∷ tail })
  ]
]

-- `path_segments_mut`, `pop_if_empty` and `extend`
unfoldable extend_path : Url → List Text → Option Url
unfolding join
extend_path url parts = some (record url {
  path = url.path ++ (elim (strip_suffix url.path (codes "/")) [
    | none ↦ b'/' ∷ join parts (codes "/")
    | some kept ↦ join parts (codes "/")
  ]);
})

abbrev urls : Urls
urls = record {
  Url = Url;
  parse = parse_url;
  scheme = λ url. codes "https";
  host_str = λ url. some url.host;
  port = λ url. none;
  path = λ url. url.path;
  extend_path = extend_path;
}

unfoldable as_str : Url → Text
as_str url = codes "https://" ++ (url.host ++ url.path)

unfoldable repo_dec : Discrete (Option Repo)
repo_dec = hlevel text_dec

instance abbrev repo_eq : Eq (Option Repo)
repo_eq = record { dec = repo_dec }

unfoldable value_dec : Discrete (Option Text)
value_dec = hlevel text_dec

instance abbrev value_eq : Eq (Option Text)
value_eq = record { dec = value_dec }

abbrev has : Map Text Text → Text → Text → Bool
has credential key value = lookup key credential == some value

abbrev idcat_repo : Repo
idcat_repo = record { owner = codes "noa"; name = codes "idcat" }

abbrev parses_blank_line_terminated_credential : Bool
parses_blank_line_terminated_credential =
    unwrapped
      (parse_credential urls (codes "protocol=https\nhost=github.com\npath=noa/idcat.git\n\n"))
      (λ c.
        has c (codes "protocol") (codes "https")
        && has c (codes "host") (codes "github.com")
        && has c (codes "path") (codes "noa/idcat.git"))

abbrev expands_url_attribute : Bool
expands_url_attribute =
    unwrapped (parse_credential urls (codes "url=https://github.com/noa/idcat.git\n\n"))
      (λ c. is_github_https_request c && repo_from_credential c == some idcat_repo)

abbrev ignores_non_github_https_requests : Bool
ignores_non_github_https_requests =
    unwrapped
      (parse_credential urls (codes "protocol=ssh\nhost=github.com\npath=noa/idcat.git\n\n"))
      (λ ssh. not (is_github_https_request ssh))
    && unwrapped
        (parse_credential urls (codes "protocol=https\nhost=example.com\npath=noa/idcat.git\n\n"))
        (λ other_host. not (is_github_https_request other_host))

abbrev derives_owner_and_repo_from_path : Bool
derives_owner_and_repo_from_path =
    repo_from_path (codes "/noa/idcat.git/info/refs") == some idcat_repo

abbrev stops_reading_credential_at_blank_line : Bool
stops_reading_credential_at_blank_line =
    unwrapped
      (read_credential urls (
        some (codes "protocol=https\n")
        ∷ some (codes "host=github.com\n")
        ∷ some (codes "\n")
        ∷ some (codes "this-is-not-a-credential-line\n")
        ∷ []))
      (λ c. has c (codes "protocol") (codes "https") && has c (codes "host") (codes "github.com"))

-- `raw_config`, with the two sources of the token
abbrev raw_config : Option Text → Option Text → RawHelperConfig
raw_config token_path token_command = record {
  github_app = codes "deployments";
  idcat_endpoint = codes "https://idcat.example.test";
  token_path = token_path;
  token_command = token_command;
}

abbrev token_file : Option Text
token_file = some (codes "/var/run/secrets/tokens/idcat")

abbrev token_program : Option Text
token_program = some (codes "cat /var/run/secrets/tokens/idcat")

unfoldable is_path : TokenSource → Bool
is_path (path p) = true
is_path (command c) = false

abbrev accepts_token_path : Bool
accepts_token_path =
    unwrapped (config_of (raw_config token_file none)) (λ config. is_path config.token_source)

abbrev accepts_token_command : Bool
accepts_token_command =
    unwrapped (config_of (raw_config none token_program))
      (λ config. not (is_path config.token_source))

abbrev rejects_missing_token_source : Bool
rejects_missing_token_source =
    unwrapped_err (config_of (raw_config none none))
      (λ error. contains_text error (codes "must set either token-path or token-command"))

abbrev rejects_multiple_token_sources : Bool
rejects_multiple_token_sources =
    unwrapped_err (config_of (raw_config token_file token_program))
      (λ error. contains_text error (codes "must not set both token-path and token-command"))

abbrev builds_installation_token_url : Bool
builds_installation_token_url =
    unwrapped
      (installation_token_url urls
        (record {
          github_app = codes "deployments";
          idcat_endpoint = codes "https://idcat.example.test/base";
          token_source = command (codes "unused");
        })
        idcat_repo)
      (λ url.
        as_str url
        == codes "https://idcat.example.test/base/installation-token/deployments/noa/idcat")

tests_pass :
    pass (
      parses_blank_line_terminated_credential ∷ expands_url_attribute
      ∷ ignores_non_github_https_requests ∷ derives_owner_and_repo_from_path
      ∷ stops_reading_credential_at_blank_line ∷ accepts_token_path ∷ accepts_token_command
      ∷ rejects_missing_token_source ∷ rejects_multiple_token_sources
      ∷ builds_installation_token_url ∷ [])
    ≡ true
unfolding pass unwrapped unwrapped_err parse_url extend_path as_str repo_dec value_dec is_path codes
    text_dec ℕ_discrete dec_le lookup insert or_insert split split_once join strip_prefix
    strip_suffix trim_start_matches trim_start_by contains_text choose_source config_of
    parse_credential read_credential read_lines lines parse_line parse_lines host_with_port
    merge_host merge_path merge_url_credential is_github_https_request eq_ignore_ascii_case
    repo_from_path repo_from_credential repo_of_components components without_git
    installation_token_url to_ascii_lowercase
tests_pass = refl
