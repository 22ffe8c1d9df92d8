-- ===== src/Tests/ServerCases.antt =====
-- The theorems on the service as a whole, at the small world.
use idcat.Common.{
  ℕ, ◌≡◌, ◌↔◌, ◌⊎◌, false, if◌then◌else◌, ◌==◌, none, some, List, [], ◌∷◌, Text, codes, text_eq, ok,
  err,
}
use idcat.Github.Shared.{Shared}
use idcat.Github.Client.{github_api_url}
use idcat.Github.Swap.{amid}
use idcat.Github.Rules.{IsRely}
use idcat.Service.Built.{plain_names}
use idcat.Nats.{connect}
use idcat.Handlers.Issue.{sign_of}
use idcat.Server.{routes, Router, Call, ServerRequest, ServerState, status, dispatch, answer}
use idcat.Server.Concurrent.{during, IsConcurrent, IsConcurrent-IsRely, Sound}
use idcat.Config.{GithubAppConfig}
use idcat.Service.{github_app}
use idcat.Github.Sound.{Speaks}
use idcat.Handlers.Speaking.{IsJwtOf}
use idcat.Server.Reach.{cold, Reachable, Reachable-IsSound}
use idcat.Server.Safety.{IsJustified}
use idcat.Server.Served.{answer-IsJustified}
use idcat.Server.Routes.{IsRoute}
use idcat.Server.Dispatch.{dispatch_iff}
use idcat.Tests.Zoo.{zoo, zoo-IsLawful}
use idcat.Tests.World.{world, maps, maps-IsHeaderMaps, a_config, broker, env}
use idcat.Tests.Accepted.{a_config_accepted, a_state, a_state_built}

-- The router knows two paths.
abbrev pub a_router : Router
a_router = record {
  match_route = λ table path.
      if path == codes "/installation-token/app/o/r"
      then some (
        codes "/installation-token/{github_app}/{owner}/{repo}",
        codes "app" ∷ codes "o" ∷ codes "r" ∷ [],
      )
      else if path == codes "/installation-token/app/o"
      then some (codes "/installation-token/{github_app}/{owner}", codes "app" ∷ codes "o" ∷ [])
      else none;
}

abbrev post_to : Text → ServerRequest maps
post_to path = record {
  method = codes "POST";
  path = path;
  query = none;
  headers = (codes "authorization", codes "Bearer o/r") ∷ [];
  body = [];
}

abbrev pub for_repo : ServerRequest maps
for_repo = post_to (codes "/installation-token/app/o/r")

abbrev pub for_owner : ServerRequest maps
for_owner = post_to (codes "/installation-token/app/o")

-- The state after a request for the owner, and another such request while one waits.
abbrev pub after_owner : ServerState
after_owner = (answer (during world (λ s. s)) a_router a_state for_owner cold).1

abbrev pub owner_meanwhile : Shared → Shared
owner_meanwhile s =
    (answer (during world (λ t. t)) a_router a_state for_owner
      (record { shared = s; published = [] })).1.shared

owner_reached : Reachable world a_router a_state after_owner
owner_reached = Reachable.next Reachable.start IsConcurrent.idle for_owner

owner-IsConcurrent : IsConcurrent world a_router a_state owner_meanwhile
owner-IsConcurrent = IsConcurrent.request IsConcurrent.idle for_owner []

answer-IsJustified_example :
    ((call : Call) × (dispatch a_router (codes "POST") (codes "/installation-token/app/o/r")
        ≡ ok call)
      × IsJustified
          (during world owner_meanwhile)
          zoo-IsLawful
          (ok tt)
          a_config
          false
          a_state
          call
          for_repo
          after_owner.shared
          (answer (during world owner_meanwhile) a_router a_state for_repo after_owner).1.shared
          (answer (during world owner_meanwhile) a_router a_state for_repo after_owner).0)
    ⊎ ((code : ℕ) × (dispatch a_router (codes "POST") (codes "/installation-token/app/o/r")
          ≡ err code)
        × (answer (during world owner_meanwhile) a_router a_state for_repo after_owner
            ≡ (status code, after_owner)))
answer-IsJustified_example =
    answer-IsJustified world zoo-IsLawful maps-IsHeaderMaps (ok tt) a_config false a_config_accepted
      a_state a_state_built a_router ((tt, tt), tt) ((tt, tt), tt) owner_reached owner-IsConcurrent
      for_repo

Reachable-IsSound_example :
    Sound world a_router a_state (λ s. s) after_owner.shared
    × ((app : GithubAppConfig) (jwt : Text)
        → github_app zoo a_state app.name ≡ ok app
        → Speaks env github_api_url (sign_of world a_state) app.name jwt
        → IsJwtOf world a_state app jwt)
Reachable-IsSound_example =
    Reachable-IsSound world a_router a_state
      (plain_names zoo (connect broker) (ok tt) a_config false false a_state a_config_accepted
        a_state_built)
      owner_reached

IsConcurrent-IsRely_example :
    IsRely (amid env owner_meanwhile) github_api_url (sign_of world a_state)
IsConcurrent-IsRely_example =
    IsConcurrent-IsRely world a_router a_state
      (plain_names zoo (connect broker) (ok tt) a_config false false a_state a_config_accepted
        a_state_built)
      owner-IsConcurrent

dispatch_iff_example :
    (dispatch a_router (codes "POST") (codes "/installation-token/app/o")
      ≡ ok (Call.owner_installation_token (codes "app") (codes "o")))
    ↔ ((pattern : Text) × (params : List Text) × (a_router.match_route routes
            (codes "/installation-token/app/o")
          ≡ some (pattern, params))
        × IsRoute pattern
            (codes "POST")
            params
            (Call.owner_installation_token (codes "app") (codes "o")))
dispatch_iff_example =
    dispatch_iff a_router (codes "POST") (codes "/installation-token/app/o")
      (Call.owner_installation_token (codes "app") (codes "o"))
