-- ===== src/Helper/Run.antt =====
-- git-credential-helper/src/main.rs: one run of the helper.
use idcat.Common.{
  ℕ, Option, none, some, List, [], ◌∷◌, ◌++◌, Text, codes, Map, Result, if◌then◌else◌,
}
use idcat.Common.Exec.{Exec, pure, lift, ◌>>=◌}
use idcat.Helper.{HelperConfig, TokenSource, Sources, read_token}
use idcat.Helper.Credential.{Urls, read_credential, is_github_https_request}
use idcat.Helper.Repository.{Repo, repo_from_credential}
use idcat.Helper.Fetch.{installation_token_url, token_of_response}

pub data Action : Type 0 where
  get store erase : Action

-- What the helper does to the outside: it reads a token, or posts a request with one.
pub data Call {ℓ} (Url : Type ℓ) : Type ℓ where
  asked : TokenSource → Call Url
  posted : Url → Text → Call Url

pub record Host : Type 1 where
  pub urls : Urls
  pub sources : Sources
  -- how a status is written, its code and its reason
  pub display_status : ℕ → Text
  -- the service's answer to a request with a bearer token
  pub post : urls.Url → Text → Option (ℕ × Option Text)

module _ (H : Host) where
  abbrev pub Calls : Type 0
  Calls = List (Call H.urls.Url)

  -- `fetch_installation_token`
  unfoldable pub fetch_installation_token : HelperConfig → Repo → Text → Exec Calls Text Text
  fetch_installation_token config repo bearer_token = do
    url ← lift (installation_token_url H.urls config repo)
    λ calls. (
      token_of_response H.display_status (H.post url bearer_token),
      posted url bearer_token ∷ calls,
    )

  abbrev pub printed : Text → Text
  printed installation_token =
      codes "username=x-access-token\n"
      ++ (codes "password=" ++ (installation_token ++ codes "\n\n"))

  unfoldable pub answer_with : HelperConfig → Repo → Exec Calls Text Text
  unfolding fetch_installation_token
  answer_with config repo = do
    bearer ← λ calls. (read_token H.sources config.token_source, asked config.token_source ∷ calls)
    token ← fetch_installation_token config repo bearer
    pure (printed token)

  unfoldable pub answer_repo : HelperConfig → Option Repo → Exec Calls Text Text
  answer_repo config none = pure []
  answer_repo config (some repo) = answer_with config repo

  unfoldable pub answer_credential : HelperConfig → Map Text Text → Exec Calls Text Text
  unfolding answer_repo
  answer_credential config credential =
      if is_github_https_request credential
      then answer_repo config (repo_from_credential credential)
      else pure []

  -- `run`, given the outcome of `Config::load` and the lines of the standard input: what is printed
  unfoldable pub run : Action → Result Text HelperConfig → List (Option Text) → Exec Calls Text Text
  unfolding answer_credential
  run store load stdin = pure []
  run erase load stdin = pure []
  run get load stdin = do
    config ← lift load
    credential ← lift (read_credential H.urls stdin)
    answer_credential config credential
