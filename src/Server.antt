-- ===== src/Server.antt =====
-- src/main.rs: the table of routes in `run`, and how the service answers a request and a sequence of
-- them. The router of the crate axum is a parameter.
pub mod Kept
pub mod Concurrent
pub mod Reach
pub mod Safety
pub mod Served
pub mod Routes
pub mod Dispatch
use idcat.Common.{
  ℕ, if◌then◌else◌, ◌||◌, Option, none, some, List, [], ◌∷◌, Text, codes, text_eq, ◌==◌, Map,
  lookup, Result, ok, err, ok_or, ◌>>=◌,
}
use idcat.AppError.{AppError, ErrorResponse, into_response}
use idcat.Service.{AppState}
use idcat.Github.Shared.{Shared}
use idcat.Http.{HeaderMaps}
use idcat.Platform.{Platform}
use idcat.Handlers.Tokens
use idcat.Handlers.Proxy
use idcat.Handlers.Proxy.{ProxyResponse}
use idcat.Handlers.Webhook
use idcat.Handlers.Webhook.{Publication}

pub data Handler : Type 0 where
  healthz webhook owner_installation_token installation_token : Handler
  proxy_repo_root proxy_repo_path : Handler

-- `get(handler)`, `post(handler)` and `any(handler)`
pub data MethodRouter : Type 0 where
  get post any : Handler → MethodRouter

-- `Router::new()` with its routes
unfoldable pub routes : Map Text MethodRouter
routes =
    (codes "/healthz", get Handler.healthz)
    ∷ (codes "/webhook/{github_app}", post Handler.webhook)
    ∷ (codes "/installation-token/{github_app}/{owner}", post Handler.owner_installation_token)
    ∷ (codes "/installation-token/{github_app}/{owner}/{repo}", post Handler.installation_token)
    ∷ (codes "/proxy/{github_app}/repos/{owner}/{repo}", any Handler.proxy_repo_root)
    ∷ (codes "/proxy/{github_app}/repos/{owner}/{repo}/{*repo_path}", any Handler.proxy_repo_path)
    ∷ []

-- The pattern of the route that a path matches, with the decoded values of its parameters.
pub record Router : Type 0 where
  pub match_route : Map Text MethodRouter → Text → Option (Text × List Text)

-- The handler for a method; `get` serves HEAD too.
unfoldable pub select_handler : MethodRouter → Text → Option Handler
select_handler (get handler) method =
    if method == codes "GET" || method == codes "HEAD" then some handler else none
select_handler (post handler) method = if method == codes "POST" then some handler else none
select_handler (any handler) method = some handler

-- A handler with the parameters that it extracts from the path.
pub data Call : Type 0 where
  healthz : Call
  webhook : (github_app : Text) → Call
  owner_installation_token : (github_app owner : Text) → Call
  installation_token : (github_app owner repo : Text) → Call
  proxy_repo_root : (github_app owner repo : Text) → Call
  proxy_repo_path : (github_app owner repo repo_path : Text) → Call

-- The extractor `Path` of each handler
unfoldable pub extract : Handler → List Text → Option Call
extract Handler.healthz params = some Call.healthz
extract Handler.webhook (a ∷ []) = some (Call.webhook a)
extract Handler.owner_installation_token (a ∷ o ∷ []) = some (Call.owner_installation_token a o)
extract Handler.installation_token (a ∷ o ∷ r ∷ []) = some (Call.installation_token a o r)
extract Handler.proxy_repo_root (a ∷ o ∷ r ∷ []) = some (Call.proxy_repo_root a o r)
extract Handler.proxy_repo_path (a ∷ o ∷ r ∷ p ∷ []) = some (Call.proxy_repo_path a o r p)
extract _ params = none

-- What the table makes of a request; a number of parameters that is not the handler's is answered with
-- 500, as by the extractor.
unfoldable pub dispatch : Router → Text → Text → Result ℕ Call
unfolding routes select_handler extract
dispatch router method path = do
  (pattern, params) ← ok_or (router.match_route routes path) 404
  methods ← ok_or (lookup pattern routes) 404
  handler ← ok_or (select_handler methods method) 405
  ok_or (extract handler params) 500

pub record ServerRequest (H : HeaderMaps) : Type 0 where
  pub method : Text
  pub path : Text
  pub query : Option Text
  pub headers : H.HeaderMap
  pub body : List ℕ

-- What the handlers share: the client's caches and traffic, and what was published.
pub record ServerState : Type 0 where
  pub shared : Shared
  pub published : List Publication

module _ (W : Platform) where
  pub data Reply : Type 0 where
    -- `Json(json!({ "status": … }))`, with status 200
    json_status : Text → Reply
    -- a status alone, as for a path or a method that has no route
    status : ℕ → Reply
    -- a text, with status 200
    text : Text → Reply
    proxied : ProxyResponse W → Reply
    error : ErrorResponse → Reply

  -- `IntoResponse` of what a handler returns
  unfoldable pub reply_of : {A : Type 0} → (A → Reply) → Result AppError A → Reply
  reply_of f (ok a) = f a
  reply_of f (err e) = error (into_response e)

  abbrev pub in_shared :
      {A : Type 0} → (A → Reply) → ServerState → Result AppError A × Shared → Reply × ServerState
  in_shared f s r = (reply_of f r.0, record s { shared = r.1 })

  abbrev pub in_published : ServerState → Result AppError ℕ × List Publication → Reply × ServerState
  in_published s r = (reply_of status r.0, record s { published = r.1 })

  unfoldable pub handle :
      AppState W.authzoo → Call → ServerRequest W.http → ServerState → Reply × ServerState
  handle state Call.healthz request s = (json_status (codes "ok"), s)
  handle state (Call.webhook github_app) request s =
      in_published s (Webhook.webhook W state github_app request.headers request.body s.published)
  handle state (Call.owner_installation_token github_app owner) request s =
      in_shared text s
        (Tokens.owner_installation_token W github_app owner state request.headers s.shared)
  handle state (Call.installation_token github_app owner repo) request s =
      in_shared text s
        (Tokens.installation_token W github_app owner repo state request.headers s.shared)
  handle state (Call.proxy_repo_root github_app owner repo) request s = in_shared proxied s (
      Proxy.proxy_repo_root W github_app owner repo state request.query request.method
        request.headers request.body s.shared)
  handle state (Call.proxy_repo_path github_app owner repo repo_path) request s =
      in_shared proxied s (
        Proxy.proxy_repo_path W github_app owner repo repo_path state request.query request.method
          request.headers request.body s.shared)

  unfoldable pub handle_or_status :
      AppState W.authzoo → Result ℕ Call → ServerRequest W.http → ServerState → Reply × ServerState
  handle_or_status state (err code) request s = (status code, s)
  handle_or_status state (ok call) request s = handle state call request s

  unfoldable pub answer :
      Router → AppState W.authzoo → ServerRequest W.http → ServerState → Reply × ServerState
  unfolding handle_or_status
  answer router state request s =
      handle_or_status state (dispatch router request.method request.path) request s

  -- The service after a sequence of requests.
  unfoldable pub serve_all :
      Router → AppState W.authzoo → List (ServerRequest W.http) → ServerState → ServerState
  serve_all router state [] s = s
  serve_all router state (request ∷ requests) s =
      serve_all router state requests (answer router state request s).1
