-- ===== src/Server/Kept.antt =====
-- src/main.rs: whatever the service answers, the state that all requests share is sound afterwards.
use mathlib.Core.List.{Memᴰ}
use idcat.Common.{text_eq, Free, Result, ok, err, ℕ}
use idcat.Config.{GithubAppConfig}
use idcat.Service.{AppState}
use idcat.Github.Client.{github_api_url}
use idcat.Github.Sound.{IsSound, Grows-refl}
use idcat.Github.Rules.{IsRely}
use idcat.Platform.{Platform}
use idcat.Handlers.Issue.{sign_of}
use idcat.Handlers.Proxy
use idcat.Handlers.Kept.{
  Kept, installation_token-Kept, owner_installation_token-Kept, proxy_repo_request-Kept,
}
use idcat.Server.{
  Call, Router, ServerRequest, ServerState, dispatch, handle, handle_or_status, answer,
}

module _ (W : Platform) (state : AppState W.authzoo)
    (plain : (app : GithubAppConfig) → Memᴰ app state.github_apps → Free b'/' app.name)
    (rely : IsRely W.env github_api_url (sign_of W state)) (s : ServerState)
    (sound : IsSound W.env github_api_url (sign_of W state) s.shared) where
  handle-Kept :
      (call : Call) (request : ServerRequest W.http)
      → Kept W state plain rely s.shared (handle W state call request s).1.shared
  unfolding handle Proxy.proxy_repo_root Proxy.proxy_repo_path
  handle-Kept Call.healthz request = record { sound = sound; grows = Grows-refl s.shared }
  handle-Kept (Call.webhook app) request = record { sound = sound; grows = Grows-refl s.shared }
  handle-Kept (Call.owner_installation_token app owner) request =
      owner_installation_token-Kept W state plain rely s.shared sound app owner request.headers
  handle-Kept (Call.installation_token app owner repo) request =
      installation_token-Kept W state plain rely s.shared sound app owner repo request.headers
  handle-Kept (Call.proxy_repo_root app owner repo) request =
      proxy_repo_request-Kept W state plain rely s.shared sound _
  handle-Kept (Call.proxy_repo_path app owner repo path) request =
      proxy_repo_request-Kept W state plain rely s.shared sound _

  handle_or_status-Kept :
      (call : Result ℕ Call) (request : ServerRequest W.http)
      → Kept W state plain rely s.shared (handle_or_status W state call request s).1.shared
  unfolding handle_or_status
  handle_or_status-Kept (ok call) request = handle-Kept call request
  handle_or_status-Kept (err code) request = record { sound = sound; grows = Grows-refl s.shared }

  pub answer-Kept :
      (router : Router) (request : ServerRequest W.http)
      → Kept W state plain rely s.shared (answer W router state request s).1.shared
  unfolding answer
  answer-Kept router request =
      handle_or_status-Kept (dispatch router request.method request.path) request
