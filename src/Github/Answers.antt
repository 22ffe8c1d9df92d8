-- ===== src/Github/Answers.antt =====
-- src/github.rs: how the client reads GitHub's answers.
use idcat.Common.{
  ℕ, Option, none, some, ◌∷◌, ◌++◌, Text, text_eq, nat_eq, ◌==◌, codes, Result, ok, err, ◌>>=◌,
  if◌then◌else◌, ok_or,
}
use idcat.Github.{InstallationTarget, display_target, InstallationTokenResponse}
use idcat.Github.Shared.{ApiResponse, Env}

-- the parts of the messages of `with_context`
abbrev pub quoted : Text → Text
quoted s = b'\'' ∷ (s ++ codes "'")

abbrev pub about : InstallationTarget → Text → Text
about target app = display_target target ++ (codes " with github_app " ++ quoted app)

module _ (E : Env) where
  -- `response.error_for_status().with_context(context)`
  unfoldable pub error_for_status : ApiResponse → Text → Result Text ApiResponse
  error_for_status response context =
      if E.is_error_status response.status then err context else ok response

  -- the answer to a lookup of a repository
  unfoldable pub read_repository : Text → ApiResponse → Result Text ℕ
  read_repository repo response = do
    checked ← error_for_status response (
        codes "GitHub App installation lookup for "
        ++ (quoted repo ++ codes " returned an error status"))
    ok_or (E.parse_installation checked.body)
        (codes "failed to parse GitHub App installation lookup response for " ++ quoted repo)

  -- the answer to a lookup by path: no installation if the status is 404
  unfoldable pub read_lookup : Text → ApiResponse → Result Text (Option ℕ)
  read_lookup path response =
      if response.status == 404
      then ok none
      else if E.is_error_status response.status
      then err (
          codes "GitHub App installation lookup "
          ++ (quoted path ++ codes " returned an error status"))
      else elim (E.parse_installation response.body) [
        | none ↦
            err
              (codes "failed to parse GitHub App installation lookup response for " ++ quoted path)
        | some id ↦ ok (some id)
      ]

  -- the answer to a request for a token
  unfoldable pub read_token :
      Text → InstallationTarget → ApiResponse → Result Text InstallationTokenResponse
  read_token app target response = do
    checked ← error_for_status response (
        codes "GitHub installation access token request for "
        ++ (about target app ++ codes " returned an error status"))
    ok_or (E.parse_token checked.body)
        (codes "failed to parse GitHub installation access token response for " ++ about target app)
