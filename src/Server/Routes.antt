-- ===== src/Server/Routes.antt =====
-- src/main.rs, the table of routes in `run`: which call a request becomes.
use idcat.Common.{
  ◌≡◌, ◌⊎◌, inl, inr, refl, Bool-cases, some, List, [], ◌∷◌, Text, codes, text_eq, ◌==◌, eq_of_test,
  arith,
}
use idcat.Server.{Handler, MethodRouter, get, post, any, select_handler, Call, extract}

-- The call that a route makes of a request: its pattern, the methods that it takes, and the values of
-- the parameters in its pattern, in their order.
pub data IsRoute (pattern method : Text) (params : List Text) (call : Call) : Type 0 where
  healthz :
      pattern ≡ codes "/healthz"
      → (method ≡ codes "GET") ⊎ (method ≡ codes "HEAD")
      → call ≡ Call.healthz
      → IsRoute pattern method params call
  webhook :
      (github_app : Text)
      → pattern ≡ codes "/webhook/{github_app}"
      → method ≡ codes "POST"
      → params ≡ github_app ∷ []
      → call ≡ Call.webhook github_app
      → IsRoute pattern method params call
  owner_installation_token :
      (github_app owner : Text)
      → pattern ≡ codes "/installation-token/{github_app}/{owner}"
      → method ≡ codes "POST"
      → params ≡ github_app ∷ owner ∷ []
      → call ≡ Call.owner_installation_token github_app owner
      → IsRoute pattern method params call
  installation_token :
      (github_app owner repo : Text)
      → pattern ≡ codes "/installation-token/{github_app}/{owner}/{repo}"
      → method ≡ codes "POST"
      → params ≡ github_app ∷ owner ∷ repo ∷ []
      → call ≡ Call.installation_token github_app owner repo
      → IsRoute pattern method params call
  proxy_repo_root :
      (github_app owner repo : Text)
      → pattern ≡ codes "/proxy/{github_app}/repos/{owner}/{repo}"
      → params ≡ github_app ∷ owner ∷ repo ∷ []
      → call ≡ Call.proxy_repo_root github_app owner repo
      → IsRoute pattern method params call
  proxy_repo_path :
      (github_app owner repo repo_path : Text)
      → pattern ≡ codes "/proxy/{github_app}/repos/{owner}/{repo}/{*repo_path}"
      → params ≡ github_app ∷ owner ∷ repo ∷ repo_path ∷ []
      → call ≡ Call.proxy_repo_path github_app owner repo repo_path
      → IsRoute pattern method params call

-- What a handler extracts, as an equation for its parameters.
abbrev pub Fits : Handler → List Text → Call → Type 0
Fits Handler.healthz params call = call ≡ Call.healthz
Fits Handler.webhook params call = (a : Text) × (params ≡ a ∷ []) × (call ≡ Call.webhook a)
Fits Handler.owner_installation_token params call =
    (a : Text) × (o : Text) × (params ≡ a ∷ o ∷ []) × (call ≡ Call.owner_installation_token a o)
Fits Handler.installation_token params call =
    (a : Text) × (o : Text) × (r : Text) × (params ≡ a ∷ o ∷ r ∷ [])
    × (call ≡ Call.installation_token a o r)
Fits Handler.proxy_repo_root params call =
    (a : Text) × (o : Text) × (r : Text) × (params ≡ a ∷ o ∷ r ∷ [])
    × (call ≡ Call.proxy_repo_root a o r)
Fits Handler.proxy_repo_path params call =
    (a : Text) × (o : Text) × (r : Text) × (p : Text) × (params ≡ a ∷ o ∷ r ∷ p ∷ [])
    × (call ≡ Call.proxy_repo_path a o r p)

pub extract-Fits :
    (handler : Handler) (params : List Text) (call : Call)
    → extract handler params ≡ some call
    → Fits handler params call
unfolding extract
extract-Fits Handler.healthz params call e = ground arith
extract-Fits Handler.webhook (a ∷ []) call e = (a, refl, ground arith)
extract-Fits Handler.webhook [] call e = cc
extract-Fits Handler.webhook (a ∷ b ∷ rest) call e = cc
extract-Fits Handler.owner_installation_token (a ∷ o ∷ []) call e = (a, o, refl, ground arith)
extract-Fits Handler.owner_installation_token [] call e = cc
extract-Fits Handler.owner_installation_token (a ∷ []) call e = cc
extract-Fits Handler.owner_installation_token (a ∷ o ∷ b ∷ rest) call e = cc
extract-Fits Handler.installation_token (a ∷ o ∷ r ∷ []) call e = (a, o, r, refl, ground arith)
extract-Fits Handler.installation_token [] call e = cc
extract-Fits Handler.installation_token (a ∷ []) call e = cc
extract-Fits Handler.installation_token (a ∷ o ∷ []) call e = cc
extract-Fits Handler.installation_token (a ∷ o ∷ r ∷ b ∷ rest) call e = cc
extract-Fits Handler.proxy_repo_root (a ∷ o ∷ r ∷ []) call e = (a, o, r, refl, ground arith)
extract-Fits Handler.proxy_repo_root [] call e = cc
extract-Fits Handler.proxy_repo_root (a ∷ []) call e = cc
extract-Fits Handler.proxy_repo_root (a ∷ o ∷ []) call e = cc
extract-Fits Handler.proxy_repo_root (a ∷ o ∷ r ∷ b ∷ rest) call e = cc
extract-Fits Handler.proxy_repo_path (a ∷ o ∷ r ∷ p ∷ []) call e = (a, o, r, p, refl, ground arith)
extract-Fits Handler.proxy_repo_path [] call e = cc
extract-Fits Handler.proxy_repo_path (a ∷ []) call e = cc
extract-Fits Handler.proxy_repo_path (a ∷ o ∷ []) call e = cc
extract-Fits Handler.proxy_repo_path (a ∷ o ∷ r ∷ []) call e = cc
extract-Fits Handler.proxy_repo_path (a ∷ o ∷ r ∷ p ∷ b ∷ rest) call e = cc

-- The method that a method router takes for its handler.
abbrev pub Takes : MethodRouter → Text → Handler → Type 0
Takes (get h) method handler = ((method ≡ codes "GET") ⊎ (method ≡ codes "HEAD")) × (h ≡ handler)
Takes (post h) method handler = (method ≡ codes "POST") × (h ≡ handler)
Takes (any h) method handler = h ≡ handler

pub select_handler-Takes :
    (methods : MethodRouter) (method : Text) (handler : Handler)
    → select_handler methods method ≡ some handler
    → Takes methods method handler
unfolding select_handler
select_handler-Takes (get h) method handler e = elim (Bool-cases (method == codes "GET")) [
  | inl yes_get ↦ (inl (eq_of_test method (codes "GET") yes_get), ground arith)
  | inr no_get ↦ elim (Bool-cases (method == codes "HEAD")) [
    | inl yes_head ↦ (inr (eq_of_test method (codes "HEAD") yes_head), ground arith)
    | inr no_head ↦ absurd (ground arith)
  ]
]
select_handler-Takes (post h) method handler e = elim (Bool-cases (method == codes "POST")) [
  | inl yes_post ↦ (eq_of_test method (codes "POST") yes_post, ground arith)
  | inr no_post ↦ absurd (ground arith)
]
select_handler-Takes (any h) method handler e = ground arith
