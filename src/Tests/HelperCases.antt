-- ===== src/Tests/HelperCases.antt =====
-- The theorems on the credential helper, at one request of git.
use idcat.Common.{
  Result, err, ◌≡◌, ◌≢◌, ◌↔◌, ◌⊎◌, refl, Option, none, some, List, [], ◌∷◌, ◌++◌, Text, codes,
  text_eq, text_dec, ok, Free, map, extend, insert, lookup, split, split_once, trim_start_matches,
  trim_start_by, strip_suffix, strip_prefix, trim, trim_end_by, is_whitespace, to_ascii_lowercase,
  arith,
}
use native.Mathlib.Decide.{ℕ_discrete, dec_le, dec_lt}
use idcat.Helper.{
  path, RawHelperConfig, HelperConfig, config_of, read_token, read_token_path, trim_token,
}
use idcat.Helper.Credential.{
  Urls, read_lines, lines, parse_line, parse_lines, parse_credential, read_credential,
  is_github_https_request, eq_ignore_ascii_case,
}
use idcat.Helper.Repository.{
  components, without_git, repo_of_components, repo_from_path, repo_from_credential,
  repo_from_path_git,
}
use idcat.Helper.Fetch.{installation_token_url, token_of_response}
use idcat.Helper.Run.{
  get, asked, posted, Host, fetch_installation_token, printed, answer_with, answer_repo,
  answer_credential, run,
}
use idcat.Helper.Load.{Files, load, IsConfigPath, load_iff}
use idcat.Helper.Outputs.{IsAnswer}
use idcat.Helper.Failures.{IsFailure}
use idcat.Helper.Runs.{run_outcome}
use idcat.Helper.Settings.{config_of_iff, IsSource, parse_lines-line_of, line_of}

abbrev urls : Urls
urls = record {
  Url = Text;
  parse = λ t. some t;
  scheme = λ u. codes "https";
  host_str = λ u. some (codes "github.com");
  port = λ u. none;
  path = λ u. codes "/o/r";
  extend_path = λ u parts. some u;
}

abbrev host : Host
host = record {
  urls = urls;
  sources = record { read_to_string = λ p. ok (codes "bearer"); output = λ c. none };
  display_status = λ status. [];
  post = λ url bearer. some (200, some (codes "ghs"));
}

abbrev a_config : HelperConfig
a_config = record {
  github_app = codes "app";
  idcat_endpoint = codes "https://idcat/";
  token_source = path (codes "/token");
}

abbrev stdin : List (Option Text)
stdin =
    some (codes "protocol=https\n")
    ∷ some (codes "host=GitHub.com\n")
    ∷ some (codes "path=o/r.git\n")
    ∷ []

answered : run host get (ok a_config) stdin [] ≡ (
  ok (printed host (codes "ghs")),
  posted (codes "https://idcat/") (codes "bearer") ∷ asked (path (codes "/token")) ∷ [],
)
unfolding codes text_dec ℕ_discrete dec_le run answer_credential answer_repo answer_with
    fetch_installation_token installation_token_url token_of_response read_token read_token_path
    trim_token trim trim_end_by is_whitespace read_credential read_lines parse_credential lines
    parse_lines parse_line insert lookup split split_once trim_start_matches trim_start_by
    strip_suffix strip_prefix is_github_https_request eq_ignore_ascii_case to_ascii_lowercase
    repo_from_credential repo_from_path components repo_of_components without_git dec_lt
answered = refl

run_outcome_example :
    ((◌≡◌ {A = Result Text Text} (ok (printed host (codes "ghs"))) (ok []))
      × (posted (codes "https://idcat/") (codes "bearer") ∷ asked (path (codes "/token")) ∷ []
          ≡ []))
    ⊎ ((output : Text) × (◌≡◌ {A = Result Text Text} (ok (printed host (codes "ghs"))) (ok output))
        × IsAnswer host get
            (ok a_config)
            stdin
            output
            (posted (codes "https://idcat/") (codes "bearer") ∷ asked (path (codes "/token")) ∷ []))
    ⊎ ((error : Text) × (◌≡◌ {A = Result Text Text} (ok (printed host (codes "ghs"))) (err error))
        × (get ≡ get)
        × IsFailure host
            (ok a_config)
            stdin
            error
            (posted (codes "https://idcat/") (codes "bearer") ∷ asked (path (codes "/token")) ∷ []))
run_outcome_example =
    run_outcome host get (ok a_config) stdin (ok (printed host (codes "ghs")))
      (posted (codes "https://idcat/") (codes "bearer") ∷ asked (path (codes "/token")) ∷ [])
      answered

nonempty : codes "o" ≢ []
unfolding codes
nonempty e = cc

no_slash : Free b'/' (codes "o")
unfolding codes
no_slash = ((λ e. omega arith), tt)

no_slash_git : Free b'/' (codes "o" ++ codes ".git")
unfolding codes
no_slash_git = (
  (λ e. omega arith),
  ((λ e. omega arith), ((λ e. omega arith), ((λ e. omega arith), ((λ e. omega arith), tt)))),
)

repo_from_path_git_example :
    (repo_from_path (codes "o" ++ b'/' ∷ (codes "o" ++ codes ".git"))
      ≡ some (record { owner = codes "o"; name = codes "o" }))
    × (repo_from_path (b'/' ∷ (codes "o" ++ b'/' ∷ (codes "o" ++ codes ".git")))
        ≡ some (record { owner = codes "o"; name = codes "o" }))
repo_from_path_git_example =
    repo_from_path_git (codes "o") (codes "o") nonempty nonempty no_slash no_slash_git

abbrev raw_config : RawHelperConfig
raw_config = record {
  github_app = codes "app";
  idcat_endpoint = codes "https://idcat/";
  token_path = some (codes "/token");
  token_command = none;
}

config_of_iff_example : (config_of raw_config ≡ ok a_config) ↔ (
    IsSource (some (codes "/token")) none (path (codes "/token"))
    × (codes "app" ≡ codes "app")
    × (codes "https://idcat/" ≡ codes "https://idcat/"))
config_of_iff_example = config_of_iff raw_config a_config

no_equals : Free b'=' (codes "o")
unfolding codes
no_equals = ((λ e. omega arith), tt)

parse_lines-line_of_example :
    parse_lines (map line_of ((codes "o", codes "v") ∷ [])) []
    ≡ ok (extend [] ((codes "o", codes "v") ∷ []))
parse_lines-line_of_example =
    parse_lines-line_of ((codes "o", codes "v") ∷ []) [] ((nonempty, no_equals), tt)

-- The file in the home directory holds the configuration.
abbrev files : Files
files = record {
  home = some (codes "/home/git");
  read_to_string = λ p. ok p;
  parse = λ content. ok raw_config;
}

load_iff_example : (load files none ≡ ok a_config) ↔ (
    (path content : Text) × (raw : RawHelperConfig) × IsConfigPath files none path
    × (files.read_to_string path ≡ ok content)
    × (files.parse content ≡ ok raw)
    × (config_of raw ≡ ok a_config))
load_iff_example = load_iff files none a_config
