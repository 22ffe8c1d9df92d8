-- ===== src/Tests/HandlerCases.antt =====
-- The theorems on the handlers, at the small world.
use idcat.Common.{
  ◌≡◌, ◌==◌, refl, false, List, ◌∷◌, [], Text, codes, text_eq, text_dec, ok, ◌++◌, lookup, insert,
  extend, contains_text, split_once, find?, any, is_absolute, starts_with, strip_prefix, Bool,
}
use native.Mathlib.Decide.{ℕ_discrete, dec_le}
use idcat.Jwt.{
  build_github_app_jwt, build_github_app_jwt_at, encode_jwt_part, signing_input, claims_at,
}
use idcat.Secret.{join_path, path_for_key, private_key_pem}
use idcat.Signer.{from_rsa_pem, local_sign, signer}
use idcat.Service.{
  auth_enabled, github_app, validate as validate_token, validate_role_with_claims,
  claims_for_request, claims_for_owner_request,
}
use idcat.Service.Authorize.{
  allowed_role_match, installation_policy_admits, owner_policy_admits, authorize_repo_token,
  authorize_github_app, authorize_owner_token, authorize_owner,
}
use idcat.Service.Safety.{IsGrantForRepo, IsGrantForOwner}
use idcat.Github.{repository, owner, build_create_installation_token_request, key_eq}
use idcat.Github.Shared.{
  find_token, store_token, find_id, store_id, read_clock, lock, put_cache, send, respond_with,
  cached_installation_token, cache_installation_token,
}
use idcat.Github.Answers.{error_for_status, read_repository, read_lookup, read_token}
use idcat.Github.Client.{
  lookup_repository, repository_installation_id, installation_id_from_path, owner_installation_id,
  or_user_installation, installation_id, or_lookup_id, cached_installation_id,
  mint_installation_token, or_mint, create_installation_token as client_token,
}
use idcat.Nats.{connect}
use idcat.Handlers.Bearer.{extract_bearer_token, bearer_token}
use idcat.Handlers.Tokens.{
  converted, signer_of, create_installation_token, create_installation_token_for_repo,
  create_installation_token_for_owner, installation_token, owner_installation_token,
}
use idcat.Handlers.Issue.{sign_of}
use idcat.Handlers.Safety.{IsAnswered}
use idcat.Handlers.Answers.{installation_token_safe, owner_installation_token_safe}
use idcat.Tests.Zoo.{zoo, zoo-IsLawful}
use idcat.Tests.World.{world, start, a_config, alone, start-IsSound, broker}
use idcat.Tests.Accepted.{a_config_accepted, a_state, a_state_built}

abbrev headers : List (Text × Text)
headers = (codes "authorization", codes "Bearer o/r") ∷ []

abbrev same : Text → Text → Bool
same pattern text = pattern == text

after_repo :
    installation_token world (codes "app") (codes "o") (codes "r") a_state headers start ≡ (
      ok (codes "ghs"),
      (installation_token world (codes "app") (codes "o") (codes "r") a_state headers start).1,
    )
unfolding codes lookup insert extend split_once text_dec ℕ_discrete dec_le contains_text find? any
    is_absolute starts_with strip_prefix build_github_app_jwt build_github_app_jwt_at
    encode_jwt_part signing_input claims_at cached_installation_token cache_installation_token
    find_token store_token find_id store_id read_clock lock put_cache send respond_with
    error_for_status read_token installation_id or_lookup_id cached_installation_id
    mint_installation_token or_mint build_create_installation_token_request client_token join_path
    path_for_key private_key_pem from_rsa_pem local_sign signer auth_enabled github_app
    validate_token validate_role_with_claims allowed_role_match extract_bearer_token bearer_token
    converted signer_of create_installation_token lookup_repository read_repository
    repository_installation_id claims_for_request installation_policy_admits authorize_repo_token
    authorize_github_app create_installation_token_for_repo installation_token
after_repo = refl

after_owner : owner_installation_token world (codes "app") (codes "o") a_state headers start ≡ (
  ok (codes "ghs"),
  (owner_installation_token world (codes "app") (codes "o") a_state headers start).1,
)
unfolding codes lookup insert extend split_once text_dec ℕ_discrete dec_le contains_text find? any
    is_absolute starts_with strip_prefix build_github_app_jwt build_github_app_jwt_at
    encode_jwt_part signing_input claims_at cached_installation_token cache_installation_token
    find_token store_token find_id store_id read_clock lock put_cache send respond_with
    error_for_status read_token installation_id or_lookup_id cached_installation_id
    mint_installation_token or_mint build_create_installation_token_request client_token join_path
    path_for_key private_key_pem from_rsa_pem local_sign signer auth_enabled github_app
    validate_token validate_role_with_claims allowed_role_match extract_bearer_token bearer_token
    converted signer_of create_installation_token read_lookup installation_id_from_path
    owner_installation_id or_user_installation claims_for_owner_request owner_policy_admits
    authorize_owner_token authorize_owner create_installation_token_for_owner
    owner_installation_token
after_owner = refl

installation_token_safe_example :
    IsAnswered world a_config a_state
      (codes "app")
      (repository (codes "o" ++ (codes "/" ++ codes "r")))
      headers
      (λ app bearer scope.
        IsGrantForRepo zoo zoo-IsLawful same
          (connect broker)
          (ok tt)
          a_config
          false
          app
          (codes "o" ++ (codes "/" ++ codes "r"))
          bearer
          scope)
      start
      (installation_token world (codes "app") (codes "o") (codes "r") a_state headers start).1
      (codes "ghs")
installation_token_safe_example =
    installation_token_safe world zoo-IsLawful (ok tt) a_config false a_config_accepted a_state
      a_state_built (alone (sign_of world a_state)) start (start-IsSound (sign_of world a_state))
      ((tt, tt), tt) (codes "app") (codes "o") (codes "r") headers
      (installation_token world (codes "app") (codes "o") (codes "r") a_state headers start).1
      (codes "ghs") after_repo

owner_installation_token_safe_example :
    IsAnswered world a_config a_state
      (codes "app")
      (owner (codes "o"))
      headers
      (λ app bearer scope.
        IsGrantForOwner zoo zoo-IsLawful same
          (connect broker)
          (ok tt)
          a_config
          false
          app
          (codes "o")
          bearer
          scope)
      start
      (owner_installation_token world (codes "app") (codes "o") a_state headers start).1
      (codes "ghs")
owner_installation_token_safe_example =
    owner_installation_token_safe world zoo-IsLawful (ok tt) a_config false a_config_accepted
      a_state a_state_built (alone (sign_of world a_state)) start
      (start-IsSound (sign_of world a_state)) ((tt, tt), tt) (codes "app") (codes "o") headers
      (owner_installation_token world (codes "app") (codes "o") a_state headers start).1
      (codes "ghs") after_owner
