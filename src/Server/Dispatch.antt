-- ===== src/Server/Dispatch.antt =====
-- src/main.rs, the table of routes in `run`: what the whole table makes of a request.
use native.Mathlib.Decide.{ℕ_discrete}
use idcat.Common.{
  ◌≡◌, ◌↔◌, ◌⊎◌, inl, inr, refl, sym, subst, Bool-cases, Option, some, none, List, Text, codes,
  text_eq, text_dec, ◌==◌, test_self, lookup, lookup_All, All, ok, ok_or, >>=-eq-ok, arith, ℕ,
}
use idcat.Server.{
  Handler, MethodRouter, get, post, any, routes, Router, select_handler, Call, extract, dispatch,
}
use idcat.Server.Routes.{
  IsRoute, healthz, webhook, owner_installation_token, installation_token, proxy_repo_root,
  proxy_repo_path, Fits, extract-Fits, Takes, select_handler-Takes,
}

select_any : (h : Handler) (method : Text) → select_handler (any h) method ≡ some h
unfolding select_handler
select_any h method = refl

of_ok_or {ℓ} : {A : Type ℓ} (o : Option A) (code : ℕ) (a : A) → ok_or o code ≡ ok a → o ≡ some a
of_ok_or none code a e = absurd (ground arith)
of_ok_or (some b) code a e = ground arith

-- What an entry of the table makes of a request.
record Entry (entry : Text × MethodRouter) : Type 0 where
  made :
      (method : Text) (handler : Handler) (params : List Text) (call : Call)
      → Takes entry.1 method handler
      → Fits handler params call
      → IsRoute entry.0 method params call

Fits-of :
    (h handler : Handler) (params : List Text) (call : Call)
    → h ≡ handler
    → Fits handler params call
    → Fits h params call
Fits-of h handler params call e f = subst (λ x. Fits x params call) (sym e) f

routes-Entry : All Entry routes
unfolding routes
routes-Entry = (
  record {
    made =
        λ method handler params call (m, e) f. healthz refl m (Fits-of _ handler params call e f);
  },
  (
    record {
      made = λ method handler params call (m, e) f.
          let (a, p, q) = Fits-of Handler.webhook handler params call e f in webhook a refl m p q;
    },
    (
      record {
        made = λ method handler params call (m, e) f.
            let (a, o, p, q) = Fits-of Handler.owner_installation_token handler params call e f in
            owner_installation_token a o refl m p q;
      },
      (
        record {
          made = λ method handler params call (m, e) f.
              let (a, o, r, p, q) = Fits-of Handler.installation_token handler params call e f in
              installation_token a o r refl m p q;
        },
        (
          record {
            made = λ method handler params call e f.
                let (a, o, r, p, q) = Fits-of Handler.proxy_repo_root handler params call e f in
                proxy_repo_root a o r refl p q;
          },
          (
            record {
              made = λ method handler params call e f.
                  let (a, o, r, t, p, q) =
                    Fits-of Handler.proxy_repo_path handler params call e f in
                  proxy_repo_path a o r t refl p q;
            },
            tt,
          ),
        ),
      ),
    ),
  ),
)

table :
    (lookup (codes "/healthz") routes ≡ some (get Handler.healthz))
    × (lookup (codes "/webhook/{github_app}") routes ≡ some (post Handler.webhook))
    × (lookup (codes "/installation-token/{github_app}/{owner}") routes
        ≡ some (post Handler.owner_installation_token))
    × (lookup (codes "/installation-token/{github_app}/{owner}/{repo}") routes
        ≡ some (post Handler.installation_token))
    × (lookup (codes "/proxy/{github_app}/repos/{owner}/{repo}") routes
        ≡ some (any Handler.proxy_repo_root))
    × (lookup (codes "/proxy/{github_app}/repos/{owner}/{repo}/{*repo_path}") routes
        ≡ some (any Handler.proxy_repo_path))
unfolding routes codes lookup text_dec ℕ_discrete
table = (refl, refl, refl, refl, refl, refl)

select_post :
    (h : Handler) (method : Text) → method ≡ codes "POST" → select_handler (post h) method ≡ some h
unfolding select_handler
select_post h method e = let same = test_self (codes "POST") in rw (e, same) refl

select_get :
    (h : Handler) (method : Text)
    → (method ≡ codes "GET") ⊎ (method ≡ codes "HEAD")
    → select_handler (get h) method ≡ some h
unfolding select_handler
select_get h method (inl e) = let same = test_self (codes "GET") in rw (e, same) refl
select_get h method (inr e) =
    let same = test_self (codes "HEAD") in
    elim (Bool-cases (codes "HEAD" == codes "GET")) [
      | inl equal ↦ rw (e, equal) refl
      | inr other ↦ rw (e, other, same) refl
    ]

module _ (router : Router) (method path : Text) where
  dispatch_of :
      (pattern : Text) (params : List Text) (methods : MethodRouter) (handler : Handler)
      (call : Call)
      → router.match_route routes path ≡ some (pattern, params)
      → lookup pattern routes ≡ some methods
      → select_handler methods method ≡ some handler
      → extract handler params ≡ some call
      → dispatch router method path ≡ ok call
  unfolding dispatch
  dispatch_of pattern params methods handler call matched found selected extracted =
      rw (matched, found, selected, extracted) refl

  dispatched :
      (pattern : Text) (params : List Text) (call : Call)
      → router.match_route routes path ≡ some (pattern, params)
      → IsRoute pattern method params call
      → dispatch router method path ≡ ok call
  unfolding extract
  dispatched pattern params call matched (healthz at m q) =
      dispatch_of pattern params (get Handler.healthz) Handler.healthz call matched (rw at table.0)
        (select_get Handler.healthz method m) (rw q refl)
  dispatched pattern params call matched (webhook a at m p q) =
      dispatch_of pattern params (post Handler.webhook) Handler.webhook call matched (rw at table.1)
        (select_post Handler.webhook method m) (rw (p, q) refl)
  dispatched pattern params call matched (owner_installation_token a o at m p q) =
      dispatch_of pattern params (post Handler.owner_installation_token)
        Handler.owner_installation_token call matched (rw at table.2)
        (select_post Handler.owner_installation_token method m) (rw (p, q) refl)
  dispatched pattern params call matched (installation_token a o r at m p q) =
      dispatch_of pattern params (post Handler.installation_token) Handler.installation_token call
        matched (rw at table.3) (select_post Handler.installation_token method m) (rw (p, q) refl)
  dispatched pattern params call matched (proxy_repo_root a o r at p q) =
      dispatch_of pattern params (any Handler.proxy_repo_root) Handler.proxy_repo_root call matched
        (rw at table.4) (select_any Handler.proxy_repo_root method) (rw (p, q) refl)
  dispatched pattern params call matched (proxy_repo_path a o r t at p q) =
      dispatch_of pattern params (any Handler.proxy_repo_path) Handler.proxy_repo_path call matched
        (rw at table.5) (select_any Handler.proxy_repo_path method) (rw (p, q) refl)

  -- A request becomes a call exactly when the router matches its path to a pattern of the table, with
  -- values for the parameters, and the route of that pattern makes this call: installation tokens are
  -- only given for POST, the health of the service only shown for GET and HEAD, webhooks only taken by
  -- POST, while the proxy takes every method; and the values are the app, the owner, the repository and
  -- the rest of the path, in that order.
  pub dispatch_iff :
      (call : Call)
      → (dispatch router method path ≡ ok call) ↔ (
          (pattern : Text) × (params : List Text) × (router.match_route routes path
            ≡ some (pattern, params))
          × IsRoute pattern method params call)
  unfolding dispatch
  dispatch_iff call =
      (to, λ (pattern, params, matched, route). dispatched pattern params call matched route)
    where
      to :
          dispatch router method path ≡ ok call
          → (pattern : Text) × (params : List Text) × (router.match_route routes path
              ≡ some (pattern, params))
            × IsRoute pattern method params call
      to e =
          let (found, matched, e1) = >>=-eq-ok (ok_or (router.match_route routes path) 404) _ e in
          let (methods, known, e2) = >>=-eq-ok (ok_or (lookup found.0 routes) 404) _ e1 in
          let (handler, selected, e3) =
            >>=-eq-ok (ok_or (select_handler methods method) 405) _ e2 in
          let entry =
            lookup_All Entry found.0 methods routes routes-Entry (of_ok_or _ _ methods known) in
          (
            found.0,
            found.1,
            of_ok_or _ _ found matched,
            entry.made method handler found.1 call
                (select_handler-Takes methods method handler (of_ok_or _ _ handler selected))
                (extract-Fits handler found.1 call (of_ok_or _ _ call e3)),
          )
