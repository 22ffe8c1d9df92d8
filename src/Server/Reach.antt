-- ===== src/Server/Reach.antt =====
-- src/main.rs: the states that the service reaches, and the caches in them.
use mathlib.Core.List.{Memᴰ}
use idcat.Common.{◌≡◌, [], Text, text_eq, Free, ok}
use idcat.Config.{GithubAppConfig}
use idcat.Service.{AppState, github_app}
use idcat.Github.Client.{github_api_url}
use idcat.Github.Sound.{Speaks}
use idcat.Handlers.Issue.{sign_of}
use idcat.Handlers.Speaking.{IsJwtOf, Speaks-IsJwtOf}
use idcat.Github.New.{default_cache}
use idcat.Github.Shared.{Shared}
use idcat.Platform.{Platform}
use idcat.Server.{Router, ServerRequest, ServerState, answer}
use idcat.Server.Concurrent.{during, IsConcurrent, request_kept, Sound}

-- The state in which the service starts: nothing is cached, and nothing was sent or published.
abbrev pub cold : ServerState
cold = record { shared = record { cache = default_cache; log = []; readings = 0 }; published = [] }

module _ (W : Platform) (router : Router) (state : AppState W.authzoo) where
  -- The states between requests: each request was answered while others were.
  pub data Reachable : ServerState → Type 0 where
    start : Reachable cold
    next :
        {s : ServerState} {others : Shared → Shared}
        → Reachable s
        → IsConcurrent W router state others
        → (r : ServerRequest W.http) → Reachable (answer (during W others) router state r s).1

  module _ (plain : (app : GithubAppConfig) → Memᴰ app state.github_apps → Free b'/' app.name) where
    pub holds_throughout : {s : ServerState} → Reachable s → Sound W router state (λ s. s) s.shared
    holds_throughout start = record { ids = tt; tokens = tt }
    holds_throughout (next {s} {others} r c request) =
        request_kept W router state plain c request s (holds_throughout r)

    -- The caches are sound in every state that the service reaches from its start: each cached token was
    -- made for the app, the target and the scope of its key, on an installation that GitHub gave
    -- to that app for that target, and each cached id was given so. Whoever speaks for an app that the
    -- service is configured with has a JWT of just that app: with its id, and signed by the signer of
    -- its key. The condition: no app of the service has a slash in its name.
    pub Reachable-IsSound :
        {s : ServerState}
        → Reachable s
        → Sound W router state (λ s. s) s.shared
          × ((app : GithubAppConfig) (jwt : Text)
              → github_app W.authzoo state app.name ≡ ok app
              → Speaks W.env github_api_url (sign_of W state) app.name jwt
              → IsJwtOf W state app jwt)
    Reachable-IsSound r = (holds_throughout r, Speaks-IsJwtOf W state)
