-- ===== src/Github/Issue.antt =====
-- src/github.rs: `create_installation_token`, from its start to its end.
use idcat.Common.{arith, ℕ, ◌≡◌, Option, List, Text, ok, text_eq, Free}
use idcat.Config.{GithubAppConfig}
use idcat.Service.{TokenScope}
use idcat.Github.{InstallationTarget, InstallationTokenCacheKey, InstallationTokenResponse}
use idcat.Github.Shared.{Shared, Env}
use idcat.Github.Client.{create_installation_token}
use idcat.Github.Sound.{Grows, IsSound}
use idcat.Github.Rules.{IsRely, Post}
use idcat.Github.Tokens.{Issued}
use idcat.Github.Minting.{token_found}

module _ (E : Env) (api_url : Text) (sign_of : GithubAppConfig → Text → Option (List ℕ))
    (rely : IsRely E api_url sign_of) (app : GithubAppConfig) (plain : Free b'/' app.name)
    (target : InstallationTarget) (scope : TokenScope) (s : Shared)
    (sound : IsSound E api_url sign_of s) where
  abbrev key : InstallationTokenCacheKey
  key = record { github_app = app.name; target = target; scope = scope }

  after :
      Post E api_url sign_of
        (λ t token. Issued E api_url sign_of s.readings t key token)
        s
        (create_installation_token E api_url (sign_of app) app target scope s)
  after =
      (token_found E api_url sign_of rely s.readings app plain target scope).at s sound
        (omega arith)

  -- A token that the client returns was made by GitHub for exactly this app, target and scope, on
  -- the installation to which GitHub resolved the target, whether it comes from the cache or is new.
  -- The cache holds it at the end, and a reading of the clock by this request came before the end of
  -- the time for which the cache keeps it. So the client never returns a token that was made for
  -- another key, nor one that this request found out of date.
  -- The conditions: the app has no slash in its name, the caches were sound before, and the other
  -- requests keep them sound.
  pub create_installation_token_issued :
      (token : InstallationTokenResponse)
      → (create_installation_token E api_url (sign_of app) app target scope s).0 ≡ ok token
      → Issued E api_url sign_of s.readings
          (create_installation_token E api_url (sign_of app) app target scope s).1
          (record { github_app = app.name; target = target; scope = scope })
          token
  create_installation_token_issued token e = after.result token e

  -- Whether the client returns a token or an error, the caches are sound afterwards, and what was
  -- sent and answered is only added to. The conditions: the app has no slash in its name, the caches
  -- were sound before, and the other requests keep them sound.
  pub create_installation_token_kept :
      IsSound E api_url sign_of
        (create_installation_token E api_url (sign_of app) app target scope s).1
      × Grows s (create_installation_token E api_url (sign_of app) app target scope s).1
  create_installation_token_kept = (after.sound, after.grows)
