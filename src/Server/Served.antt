-- ===== src/Server/Served.antt =====
-- src/main.rs with the layers below: every reply of the service, from its start on and while it answers
-- other requests.
use idcat.Common.{
  Bool, ◌≡◌, ◌⊎◌, inl, inr, refl, subst, sym, false, text_eq, All, IsMap, Result, Result-cases, ok,
  err, ℕ, Text,
}
use idcat.Http.{IsHeaderMaps}
use idcat.Authzoo.{IsLawful}
use idcat.Config.{Config}
use idcat.Config.Validate.{validate}
use idcat.Service.{AppState, build_app_state}
use idcat.Service.Built.{plain_names}
use idcat.Nats.{connect}
use idcat.Github.Shared.{Shared}
use idcat.Github.Client.{github_api_url}
use idcat.Github.Sound.{IsSound}
use idcat.Github.Swap.{amid, IsSound-swap}
use idcat.Github.Rules.{IsRely}
use idcat.Platform.{Platform}
use idcat.Handlers.Issue.{sign_of}
use idcat.Server.{
  Call, Router, ServerRequest, ServerState, status, dispatch, handle_or_status, answer,
}
use idcat.Server.Concurrent.{during, IsConcurrent, IsConcurrent-IsRely, sign_of-during}
use idcat.Server.Reach.{Reachable, holds_throughout}
use idcat.Server.Safety.{IsJustified, handle-IsJustified}

module _ (W : Platform) (L : IsLawful W.authzoo) (laws : IsHeaderMaps W.http)
    (client : Result Text (Unit {0})) (c : Config W.authzoo) (kms_built : Bool)
    (valid : validate W.authzoo kms_built false c ≡ ok tt) (state : AppState W.authzoo)
    (made : build_app_state W.authzoo (connect W.broker) client c false ≡ ok state)
    (router : Router) where
  -- The service was built, with authorization on, from a configuration that was accepted and whose maps
  -- have no key twice. Then, in every state that it reaches from its start, and whatever other requests
  -- it answers while this one waits, it answers a request in one of two ways. Either the table of routes
  -- has no call for it: the reply is the status of that alone, and nothing changes. Or the table makes a
  -- call of it, and what the reply discloses is justified: a token as a text is the reply only of the two
  -- token calls, and an answer of GitHub only of the two proxy calls; for both, the request carried a
  -- bearer token to which the configuration grants a scope for the app and the repository or owner in
  -- the path, and GitHub made the token for just that app, target and scope, and it is not out of date.
  pub answer-IsJustified :
      (repo_maps : All (λ p. IsMap p.required_claims) c.installation_policies)
      (owner_maps : All (λ p. IsMap p.required_claims) c.owner_policies) {s : ServerState}
      {others : Shared → Shared} (reached : Reachable W router state s)
      (concurrent : IsConcurrent W router state others) (request : ServerRequest W.http)
      → ((call : Call) × (dispatch router request.method request.path ≡ ok call)
          × IsJustified
              (during W others)
              L
              client
              c
              kms_built
              state
              call
              request
              s.shared
              (answer (during W others) router state request s).1.shared
              (answer (during W others) router state request s).0)
        ⊎ ((code : ℕ) × (dispatch router request.method request.path ≡ err code)
            × (answer (during W others) router state request s ≡ (status code, s)))
  unfolding answer handle_or_status
  answer-IsJustified repo_maps owner_maps {s} {others} reached concurrent request =
      let plain =
        plain_names W.authzoo (connect W.broker) client c kms_built false state valid made in
      let signs = sym (sign_of-during W router state others) in
      let rely =
        subst (λ f. IsRely (amid W.env others) github_api_url f) signs
          (IsConcurrent-IsRely W router state plain concurrent) in
      let sound =
        subst (λ f. IsSound (amid W.env others) github_api_url f s.shared) signs
          (IsSound-swap W.env (λ s. s) others github_api_url (sign_of W state) s.shared
            (holds_throughout W router state plain reached)) in
      elim (Result-cases (dispatch router request.method request.path)) [
        | inl (code, none_found) ↦ inr (code, none_found, rw none_found refl)
        | inr (call, found) ↦ inl (
          call,
          found,
          subst
              (λ d.
                IsJustified (during W others) L client c kms_built state call request s.shared
                  (handle_or_status (during W others) state d request s).1.shared
                  (handle_or_status (during W others) state d request s).0)
              (sym found)
              (handle-IsJustified (during W others) L client c kms_built state valid made laws
                repo_maps owner_maps rely s sound call request),
        )
      ]
