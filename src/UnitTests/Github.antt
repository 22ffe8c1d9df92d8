-- ===== src/UnitTests/Github.antt =====
-- src/github.rs, the module `tests`: the tests of the two caches, of the lookups and of the requests for
-- tokens.
use idcat.Common.{
  ◌≡◌, refl, Bool, true, false, not, ◌&&◌, Option, some, none, List, [], ◌∷◌, Text, codes, text_eq,
  text_dec, nat_eq, ◌==◌, Eq, split, split_once, strip_prefix, contains_text, to_decimal, Map,
  lookup, insert,
}
use idcat.Common.Exec.{Exec, pure, ◌>>=◌}
use native.Mathlib.Decide.{dec_le, dec_lt, ℕ_discrete}
use idcat.Service.{all, TokenScope}
use idcat.Github.{
  key_dec, target_cache_key, InstallationTarget, owner, CreateInstallationTokenRequest,
  build_create_installation_token_request,
}
use idcat.Github.Shared.{
  id_cache_key, find_id, store_id, read_clock, lock, put_cache, send, respond_with,
  cached_installation_token, cache_installation_token, find_token, store_token, Shared,
}
use idcat.Jwt.{
  build_github_app_jwt, build_github_app_jwt_at, encode_jwt_part, signing_input, claims_at,
}
use idcat.Github.Answers.{error_for_status, read_repository, read_lookup, read_token}
use idcat.Github.Client.{
  repository_url, access_tokens_url, path_url, org_path, user_path, lookup_repository,
  repository_installation_id, owner_installation_id, or_user_installation,
  installation_id_from_path, installation_id, or_lookup_id, cached_installation_id,
  mint_installation_token, or_mint, create_installation_token,
}
use idcat.UnitTests.{unwrapped, unwrapped_err, pass}
use idcat.UnitTests.StubGithubApi.{
  stub_organization_installation_id, stub_user_installation_id, StubTokenRequest, segments,
  token_request, token_requests, count, mint_count, resolve, mint, stub_respond, stub_token,
  stub_id, broad_scope, narrow_scope, repository_target, owner_target, stub_client, fresh,
}

unfoldable request_dec : Discrete CreateInstallationTokenRequest
request_dec = hlevel text_dec

-- Bodies are compared as what is made into JSON, which leaves out the fields that are none.
instance abbrev request_eq : Eq CreateInstallationTokenRequest
request_eq = record { dec = request_dec }

-- Two tokens in turn.
unfoldable two_tokens :
    InstallationTarget × TokenScope
    → InstallationTarget × TokenScope
    → Exec Shared Text (Text × Text)
unfolding stub_client
two_tokens (target, scope) (target', scope') = do
  first ← stub_client target scope
  second ← stub_client target' scope'
  pure (first.token, second.token)

-- The tokens differ, and the stub made both.
unfoldable minted_apart : InstallationTarget × TokenScope → InstallationTarget × TokenScope → Bool
unfolding unwrapped two_tokens
minted_apart asked asked' =
    let run = two_tokens asked asked' fresh in
    unwrapped run.0 (λ tokens. not (tokens.0 == tokens.1) && mint_count run.1.log == 2)

abbrev narrow_caller_is_not_served_a_cached_broad_token : Bool
narrow_caller_is_not_served_a_cached_broad_token =
    minted_apart (repository_target, broad_scope) (repository_target, narrow_scope [])

abbrev caller_is_not_served_a_cached_token_with_different_permissions : Bool
caller_is_not_served_a_cached_token_with_different_permissions =
    minted_apart (repository_target, narrow_scope ((codes "contents", codes "read") ∷ []))
      (repository_target, narrow_scope ((codes "contents", codes "write") ∷ []))

abbrev owner_and_repository_targets_do_not_share_a_cache_entry : Bool
owner_and_repository_targets_do_not_share_a_cache_entry =
    minted_apart (repository_target, broad_scope) (owner_target, broad_scope)

-- The token is made, and the stub recorded one request, of which the assertions hold.
unfoldable minted_once : InstallationTarget → TokenScope → (StubTokenRequest → Bool) → Bool
unfolding unwrapped stub_client
minted_once target scope holds =
    let run = stub_client target scope fresh in
    unwrapped run.0 (λ token. only (token_requests run.1.log))
  where
    only : List StubTokenRequest → Bool
    only (r ∷ []) = holds r
    only _ = false

abbrev owner_target_resolves_the_organization_installation : Bool
owner_target_resolves_the_organization_installation =
    let permissions : Map Text Text = (codes "packages", codes "read") ∷ [] in
    let scope : TokenScope = record { repositories = all; permissions = permissions } in
    let body : CreateInstallationTokenRequest = record {
      repositories = none;
      permissions = some permissions;
    } in
    minted_once owner_target scope
      (λ r. r.installation_id == to_decimal stub_organization_installation_id && r.body == body)

abbrev owner_target_falls_back_to_the_user_installation : Bool
owner_target_falls_back_to_the_user_installation =
    minted_once (owner (codes "noa")) broad_scope
      (λ r. r.installation_id == to_decimal stub_user_installation_id)

-- The request for a scope and a target has these parts.
unfoldable builds :
    TokenScope → InstallationTarget → Option (List Text) → Option (Map Text Text) → Bool
unfolding unwrapped
builds scope target repositories permissions =
    unwrapped (build_create_installation_token_request scope target)
      (λ request. request == record { repositories = repositories; permissions = permissions })

abbrev request_broad_omits_repositories : Bool
request_broad_omits_repositories = builds broad_scope repository_target none none

abbrev request_narrow_sets_repository_by_name : Bool
request_narrow_sets_repository_by_name =
    builds (narrow_scope []) repository_target (some (codes "alfa" ∷ [])) none

abbrev request_narrow_includes_permissions : Bool
request_narrow_includes_permissions =
    let permissions : Map Text Text = (codes "contents", codes "read") ∷ [] in
    builds (narrow_scope permissions) repository_target (some (codes "alfa" ∷ []))
      (some permissions)

abbrev request_rejects_a_repo_scope_on_an_owner_target : Bool
request_rejects_a_repo_scope_on_an_owner_target =
    unwrapped_err (build_create_installation_token_request (narrow_scope []) owner_target)
      (λ error. contains_text error (codes "no repository was requested"))

tests_pass :
    pass (
      narrow_caller_is_not_served_a_cached_broad_token
      ∷ caller_is_not_served_a_cached_token_with_different_permissions
      ∷ owner_and_repository_targets_do_not_share_a_cache_entry
      ∷ owner_target_resolves_the_organization_installation
      ∷ owner_target_falls_back_to_the_user_installation ∷ request_broad_omits_repositories
      ∷ request_narrow_sets_repository_by_name ∷ request_narrow_includes_permissions
      ∷ request_rejects_a_repo_scope_on_an_owner_target ∷ [])
    ≡ true
unfolding codes lookup insert split_once text_dec ℕ_discrete dec_le build_github_app_jwt
    build_github_app_jwt_at encode_jwt_part signing_input claims_at cached_installation_token
    cache_installation_token find_token store_token find_id store_id read_clock lock put_cache send
    respond_with error_for_status read_repository read_lookup read_token lookup_repository
    repository_installation_id owner_installation_id or_user_installation installation_id_from_path
    installation_id or_lookup_id cached_installation_id mint_installation_token or_mint
    build_create_installation_token_request create_installation_token pass minted_apart minted_once
    builds request_dec two_tokens stub_client stub_id stub_token stub_respond mint resolve
    mint_count count token_requests token_request segments unwrapped unwrapped_err dec_lt
    strip_prefix repository_url split access_tokens_url to_decimal key_dec id_cache_key
    target_cache_key path_url org_path user_path contains_text
tests_pass = refl
