-- ===== src/Helper/Fetch.antt =====
-- git-credential-helper/src/idcat.rs: how the helper asks the service for an installation token. The
-- HTTP client is a parameter.
use idcat.Common.{
  ℕ, Bool, ◌&&◌, Option, none, some, [], ◌∷◌, ◌++◌, Text, codes, nat_eq, ◌==◌, if◌then◌else◌, leb,
  ltb, not, false, is_nil, trim, reverse, Result, ok, err, ◌>>=◌, ◌>>◌, bail_if, ok_or,
}
use idcat.Helper.{HelperConfig}
use idcat.Helper.Credential.{Urls}
use idcat.Helper.Repository.{Repo}

-- `s.ends_with('/')`
ends_with_slash : Text → Bool
ends_with_slash s = elim (reverse s) [ [] ↦ false | c ∷ rest ↦ c == b'/' ]

-- What the answer of the service becomes; `display_status` writes a status. The answer: none if there is none, else its status and its text, if it can be read.
unfoldable pub token_of_response : (ℕ → Text) → Option (ℕ × Option Text) → Result Text Text
token_of_response display_status none =
    err (codes "failed to request installation token from idcat")
token_of_response display_status (some (status, none)) =
    err (codes "failed to read idcat installation token response")
token_of_response display_status (some (status, some body)) = do
  bail_if (not (leb 200 status && ltb status 300))
      (codes "idcat returned HTTP " ++ (display_status status ++ (codes ": " ++ body)))
  bail_if (is_nil (trim body)) (codes "idcat returned an empty installation token")
  ok (trim body)

module _ (U : Urls) where
  unfoldable pub installation_token_url : HelperConfig → Repo → Result Text U.Url
  unfolding ends_with_slash
  installation_token_url config repo = do
    url ←
        ok_or
          (U.parse (
            if ends_with_slash config.idcat_endpoint
            then config.idcat_endpoint
            else config.idcat_endpoint ++ codes "/"))
          (codes "idcat-endpoint is not a valid URL")
    ok_or
        (U.extend_path url
          (codes "installation-token" ∷ config.github_app ∷ repo.owner ∷ repo.name ∷ []))
        (codes "idcat-endpoint cannot be used as a base URL")
