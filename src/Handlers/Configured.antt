-- ===== src/Handlers/Configured.antt =====
-- src/service.rs, `AppState::github_app`: which apps a service speaks for.
use mathlib.Core.List.{Memᴰ}
use idcat.Common.{
  ◌≡◌, sym, subst, Bool, true, false, Text, text_eq, text_dec, Eq, ◌==◌, eq_of_test, test_self,
  ℕ_discrete, find?, find?_member, Option-cases, Result-cases, inl, inr, ok, err, arith,
}
use idcat.Config.{GithubAppConfig}
use idcat.Service.{AppState, github_app}
use idcat.Service.Built.{member_of_split}
use idcat.Platform.{Platform}

unfoldable pub app_dec : Discrete GithubAppConfig
app_dec = hlevel (text_dec, ℕ_discrete)

instance abbrev pub app_eq : Eq GithubAppConfig
app_eq = record { dec = app_dec }

module _ (W : Platform) where
  -- An app that is found is a configured one of that name.
  pub github_app_member :
      (state : AppState W.authzoo) (name : Text) (app : GithubAppConfig)
      → github_app W.authzoo state name ≡ ok app
      → Memᴰ app state.github_apps × (app.name ≡ name)
  unfolding github_app
  github_app_member state name app e =
      elim (Option-cases (find? (λ (a : GithubAppConfig). a.name == name) state.github_apps)) [
        | inl missing ↦ absurd (ground arith)
        | inr (a, found) ↦
            let same : a ≡ app = ground arith in
            let (before, after, split, fails, passes) = find?_member _ state.github_apps found in
            (
              subst (λ x. Memᴰ x state.github_apps) same (member_of_split _ before after a split),
              subst (λ (x : GithubAppConfig). x.name ≡ name) same (eq_of_test a.name name passes),
            )
      ]

  -- The service finds just this app under the app's name.
  unfoldable pub is_configured : AppState W.authzoo → GithubAppConfig → Bool
  is_configured state app = elim (github_app W.authzoo state app.name) [
    | err e ↦ false
    | ok found ↦ found == app
  ]

  pub found-is_configured :
      (state : AppState W.authzoo) (name : Text) (app : GithubAppConfig)
      → github_app W.authzoo state name ≡ ok app
      → is_configured state app ≡ true
  unfolding is_configured
  found-is_configured state name app e =
      let same = (github_app_member state name app e).1 in
      let found = subst (λ n. github_app W.authzoo state n ≡ ok app) (sym same) e in
      let itself = test_self app in ground arith

  pub is_configured-found :
      (state : AppState W.authzoo) (app : GithubAppConfig)
      → is_configured state app ≡ true
      → github_app W.authzoo state app.name ≡ ok app
  unfolding is_configured
  is_configured-found state app h = elim (Result-cases (github_app W.authzoo state app.name)) [
    | inl (e, missing) ↦ absurd (ground arith)
    | inr (other, found) ↦
        let same : (other == app) ≡ true = ground arith in
        subst (λ a. github_app W.authzoo state app.name ≡ ok a) (eq_of_test other app same) found
  ]
