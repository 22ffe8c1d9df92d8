-- ===== src/Tests/Replies.antt =====
-- What the service replies in the small world: the requests to which the theorems on it are applied are
-- answered with tokens, also in a state that it reached and while another request is answered.
use idcat.Common.{
  ◌≡◌, refl, codes, text_eq, text_dec, lookup, insert, extend, contains_text, split_once, find?,
  any, is_absolute, starts_with, strip_prefix,
}
use native.Mathlib.Decide.{ℕ_discrete, dec_le}
use idcat.Jwt.{
  build_github_app_jwt, build_github_app_jwt_at, encode_jwt_part, signing_input, claims_at,
}
use idcat.Secret.{join_path, path_for_key, private_key_pem}
use idcat.Signer.{from_rsa_pem, local_sign, signer}
use idcat.Service.{
  auth_enabled, github_app, validate as validate_token, validate_role_with_claims,
  claims_for_request, claims_for_owner_request,
}
use idcat.Service.Authorize.{
  allowed_role_match, installation_policy_admits, owner_policy_admits, authorize_repo_token,
  authorize_github_app, authorize_owner_token, authorize_owner,
}
use idcat.Github.{build_create_installation_token_request, key_eq}
use idcat.Github.Shared.{
  find_token, store_token, find_id, store_id, read_clock, lock, put_cache, send, respond_with,
  cached_installation_token, cache_installation_token,
}
use idcat.Github.Answers.{error_for_status, read_repository, read_lookup, read_token}
use idcat.Github.Client.{
  lookup_repository, repository_installation_id, installation_id_from_path, owner_installation_id,
  or_user_installation, installation_id, or_lookup_id, cached_installation_id,
  mint_installation_token, or_mint, create_installation_token as client_token,
}
use idcat.Handlers.Bearer.{extract_bearer_token, bearer_token}
use idcat.Handlers.Tokens.{
  converted, signer_of, create_installation_token, create_installation_token_for_repo,
  create_installation_token_for_owner, installation_token, owner_installation_token,
}
use idcat.Tests.World.{world}
use idcat.Tests.Accepted.{a_state}
use native.Mathlib.Decide.{dec_lt}
use idcat.Github.{key_dec, target_cache_key}
use idcat.Github.Shared.{id_cache_key}
use idcat.Server.{
  answer, text, dispatch, handle, reply_of, handle_or_status, select_handler, extract,
}
use idcat.Server.Concurrent.{during}
use idcat.Server.Reach.{cold}
use idcat.Tests.ServerCases.{a_router, for_repo, for_owner, after_owner, owner_meanwhile}

-- A request for the repository, with one for the owner meanwhile, gets a token, and so does the first
-- request for the owner; the second is answered from the cache, and nothing is sent for it.
replies :
    ((answer (during world owner_meanwhile) a_router a_state for_repo after_owner).0
      ≡ text (codes "ghs"))
    × ((answer (during world (λ s. s)) a_router a_state for_owner cold).0 ≡ text (codes "ghs"))
    × ((answer (during world (λ s. s)) a_router a_state for_owner after_owner).0
        ≡ text (codes "ghs"))
    × ((answer (during world (λ s. s)) a_router a_state for_owner after_owner).1.shared.log
        ≡ after_owner.shared.log)
unfolding allowed_role_match answer any auth_enabled authorize_github_app authorize_owner
    authorize_owner_token authorize_repo_token bearer_token build_create_installation_token_request
    build_github_app_jwt build_github_app_jwt_at cache_installation_token cached_installation_id
    cached_installation_token claims_at claims_for_owner_request claims_for_request client_token
    codes contains_text converted create_installation_token create_installation_token_for_owner
    create_installation_token_for_repo dec_le dec_lt dispatch encode_jwt_part error_for_status
    extend extract extract_bearer_token find? find_id find_token from_rsa_pem github_app handle
    handle_or_status id_cache_key insert installation_id installation_id_from_path
    installation_policy_admits installation_token is_absolute join_path key_dec local_sign lock
    lookup lookup_repository mint_installation_token or_lookup_id or_mint or_user_installation
    owner_installation_id owner_installation_token owner_policy_admits path_for_key private_key_pem
    put_cache read_clock read_lookup read_repository read_token reply_of repository_installation_id
    respond_with select_handler send signer signer_of signing_input split_once starts_with store_id
    store_token strip_prefix target_cache_key text_dec validate_role_with_claims validate_token
    ℕ_discrete
replies = (refl, refl, refl, refl)
