-- ===== src/UnitTests/StubGithubApi.antt =====
-- src/github.rs, the module `tests`: the stub of GitHub's API as an environment of the client, whose
-- state is the log of the exchanges, and the values that its tests share.
use idcat.Common.{
  ℕ, ◌&&◌, if◌then◌else◌, Option, some, none, List, [], ◌∷◌, ◌++◌, Text, codes, text_eq, nat_eq,
  ◌==◌, ltb, ◌+◌, split, strip_prefix, to_decimal, Map, any, ok,
}
use idcat.Common.Exec.{Exec}
use idcat.Config.{GithubAppConfig}
use idcat.Service.{only_requested, all, TokenScope}
use idcat.Github.{
  InstallationTarget, repository, owner, InstallationTokenResponse, CreateInstallationTokenRequest,
}
use idcat.Github.Shared.{ApiRequest, get, post_token, forward, ApiResponse, Exchange, Shared, Env}
use idcat.Github.New.{default_cache}
use idcat.Github.Client.{create_installation_token}
use idcat.Tests.World.{encoding}

-- `StubSigner`
abbrev pub stub_sign : Text → Option (List ℕ)
stub_sign message = some (1 ∷ 2 ∷ 3 ∷ [])

abbrev pub stub_repository_installation_id : ℕ
stub_repository_installation_id = 123

abbrev pub stub_organization_installation_id : ℕ
stub_organization_installation_id = 456

abbrev pub stub_user_installation_id : ℕ
stub_user_installation_id = 789

-- One recorded call to the stub's access-token endpoint: the number in its path, as text, and its body
-- before it became JSON.
pub record StubTokenRequest : Type 0 where
  pub installation_id : Text
  pub body : CreateInstallationTokenRequest

-- `StubGithubApi::url`
abbrev pub stub_url : Text
stub_url = codes "http://127.0.0.1:50000"

-- The segments of an address of the stub; there are none where another server is addressed.
unfoldable pub segments : Text → List Text
segments url = elim (strip_prefix url (stub_url ++ codes "/")) [
  | none ↦ []
  | some path ↦ split path b'/'
]

-- `/app/installations/{id}/access_tokens`
unfoldable pub token_request : List Text → CreateInstallationTokenRequest → Option StubTokenRequest
token_request (a ∷ b ∷ id ∷ c ∷ []) body =
    if a == codes "app" && b == codes "installations" && c == codes "access_tokens"
    then some (record { installation_id = id; body = body })
    else none
token_request _ body = none

-- `token_requests`, the latest first
unfoldable pub token_requests : List Exchange → List StubTokenRequest
unfolding token_request segments
token_requests [] = []
token_requests (e ∷ log) = elim e.request [
  | get url jwt ↦ token_requests log
  | post_token url jwt body ↦ elim (token_request (segments url) body) [
    | none ↦ token_requests log
    | some r ↦ r ∷ token_requests log
  ]
  | forward method url body ↦ token_requests log
]

unfoldable pub count : List StubTokenRequest → ℕ
count [] = 0
count (r ∷ rs) = count rs + 1

-- `mint_count`
unfoldable pub mint_count : List Exchange → ℕ
unfolding count
mint_count log = count (token_requests log)

abbrev pub found : ℕ → ApiResponse
found id = record { status = 200; body = id ∷ [] }

abbrev pub not_found_response : ApiResponse
not_found_response = record { status = 404; body = [] }

-- The stub's routes for GET. The body of an answer is the number in it.
unfoldable pub resolve : List Text → List Text → ApiResponse
unfolding any
resolve organizations (kind ∷ name ∷ last ∷ []) =
    if kind == codes "orgs" && last == codes "installation"
    then (if any (λ o. o == name) organizations
        then found stub_organization_installation_id
        else not_found_response)
    else (if kind == codes "users" && last == codes "installation"
        then found stub_user_installation_id
        else not_found_response)
resolve organizations (kind ∷ name ∷ repo ∷ last ∷ []) =
    if kind == codes "repos" && last == codes "installation"
    then found stub_repository_installation_id
    else not_found_response
resolve organizations _ = not_found_response

unfoldable pub mint : List Exchange → Option StubTokenRequest → ApiResponse
mint log none = not_found_response
mint log (some r) = found (mint_count log + 1)

-- `spawn_stub_github_api`
unfoldable pub stub_respond : List Text → List Exchange → ApiRequest → Option ApiResponse
unfolding resolve mint segments token_request
stub_respond organizations log (get url jwt) = some (resolve organizations (segments url))
stub_respond organizations log (post_token url jwt body) =
    some (mint log (token_request (segments url) body))
stub_respond organizations log (forward method url body) = none

unfoldable pub stub_token : List ℕ → Option InstallationTokenResponse
stub_token [] = none
stub_token (n ∷ rest) = some (record {
  token = codes "ghs_token_" ++ to_decimal n;
  expires_at = codes "2099-01-01T00:00:00Z";
  permissions = [];
  repository_selection = none;
})

unfoldable pub stub_id : List ℕ → Option ℕ
stub_id [] = none
stub_id (n ∷ rest) = some n

-- The client of a test is alone, and a test takes no time.
abbrev pub stub_env : List Text → Env
stub_env organizations = record {
  respond = stub_respond organizations;
  clock = λ n. 0;
  system_time = λ log. ok 1_000_000;
  others = λ s. s;
  is_error_status = λ status. ltb 399 status;
  parse_installation = stub_id;
  parse_token = stub_token;
  encoding = encoding;
}

-- `test_github_app`
abbrev pub test_github_app : GithubAppConfig
test_github_app = record {
  name = codes "default";
  app_id = 42;
  secret_key = codes "private-key.pem";
  webhook_target = none;
  webhook_validation_secret_file = none;
  allowed_roles = [];
}

abbrev pub broad_scope : TokenScope
broad_scope = record { repositories = all; permissions = [] }

abbrev pub narrow_scope : Map Text Text → TokenScope
narrow_scope permissions = record { repositories = only_requested; permissions = permissions }

abbrev pub repository_target : InstallationTarget
repository_target = repository (codes "myorg/alfa")

abbrev pub owner_target : InstallationTarget
owner_target = owner (codes "myorg")

-- A new client whose `api_url` is the stub's makes tokens of the app for a target and a scope.
unfoldable pub stub_client :
    InstallationTarget → TokenScope → Exec Shared Text InstallationTokenResponse
stub_client =
    create_installation_token (stub_env (codes "myorg" ∷ [])) stub_url stub_sign test_github_app

abbrev pub fresh : Shared
fresh = record { cache = default_cache; log = []; readings = 0 }
