-- ===== src/Helper/Outputs.antt =====
-- git-credential-helper/src/main.rs: what a run prints, and what it does for that.
use idcat.Common.{
  ◌≡◌, ◌⊎◌, inl, inr, refl, ap, sym, true, Bool-cases, Option, none, some, List, [], ◌∷◌, Text, Map,
  Result, ok, ◌∙◌,
}
use idcat.Common.Exec.{continue-eq-ok, run-eq-ok}
use idcat.Helper.{HelperConfig, read_token}
use idcat.Helper.Credential.{read_credential, is_github_https_request}
use idcat.Helper.Repository.{Repo, repo_from_credential}
use idcat.Helper.Fetch.{installation_token_url, token_of_response}
use idcat.Helper.Run.{
  Action, get, store, erase, asked, posted, Host, Calls, fetch_installation_token, printed,
  answer_with, answer_repo, answer_credential, run,
}

module _ (H : Host) where
  -- What a run that prints a credential went through: git asked for one of a repository at
  -- https://github.com, a bearer token was read from the configured source, and the service answered
  -- the one request that was posted, for that repository and with that token, with what is printed.
  pub record IsAnswer (action : Action) (load : Result Text HelperConfig)
      (stdin : List (Option Text)) (output : Text) (calls : Calls H) : Type 0 where
    pub asks : action ≡ get
    pub config : HelperConfig
    pub loaded : load ≡ ok config
    pub credential : Map Text Text
    pub read : read_credential H.urls stdin ≡ ok credential
    pub for_github : is_github_https_request credential ≡ true
    pub repo : Repo
    pub names_repo : repo_from_credential credential ≡ some repo
    pub bearer : Text
    pub source : read_token H.sources config.token_source ≡ ok bearer
    pub url : H.urls.Url
    pub addressed : installation_token_url H.urls config repo ≡ ok url
    pub token : Text
    pub answered : token_of_response H.display_status (H.post url bearer) ≡ ok token
    pub prints : output ≡ printed H token
    pub did : calls ≡ posted url bearer ∷ asked config.token_source ∷ []

  -- What `answer_with` went through.
  answer_with_parts :
      (config : HelperConfig) (repo : Repo) (output : Text) (calls : Calls H)
      → answer_with H config repo [] ≡ (ok output, calls)
      → (bearer token : Text) × (url : H.urls.Url) × (read_token H.sources config.token_source
          ≡ ok bearer)
        × (installation_token_url H.urls config repo ≡ ok url)
        × (token_of_response H.display_status (H.post url bearer) ≡ ok token)
        × (output ≡ printed H token)
        × (calls ≡ posted url bearer ∷ asked config.token_source ∷ [])
  unfolding answer_with fetch_installation_token
  answer_with_parts config repo output calls e =
      let (bearer, source, e1) =
        continue-eq-ok (read_token H.sources config.token_source) _ (asked config.token_source ∷ [])
          calls output e in
      let (token, u, fetched, e2) =
        run-eq-ok (fetch_installation_token H config repo bearer) _ (asked config.token_source ∷ [])
          calls output e1 in
      let (url, addressed, e3) =
        continue-eq-ok (installation_token_url H.urls config repo) _
          (asked config.token_source ∷ []) u token fetched in
      let answer = ap (λ (p : Result Text Text × Calls H). p.0) e3 in
      let posts = ap (λ (p : Result Text Text × Calls H). p.1) e3 in
      let ends = ap (λ (p : Result Text Text × Calls H). p.1) e2 in
      (
        bearer,
        token,
        url,
        source,
        addressed,
        answer,
        printed_of (ap (λ (p : Result Text Text × Calls H). p.0) e2),
        sym ends ∙ sym posts,
      )
    where
      printed_of : {o : Text} → ◌≡◌ {A = Result Text Text} (ok o) (ok output) → output ≡ o
      printed_of h = cc

  quiet :
      (output : Text) (calls : Calls H)
      → ◌≡◌ {A = Result Text Text × Calls H} (ok [], []) (ok output, calls)
      → (output ≡ []) × (calls ≡ [])
  quiet output calls e = (
    sym (ok_inj (ap (λ (p : Result Text Text × Calls H). p.0) e)),
    sym (ap (λ (p : Result Text Text × Calls H). p.1) e),
  )
    where
      ok_inj : ◌≡◌ {A = Result Text Text} (ok []) (ok output) → [] ≡ output
      ok_inj h = cc

  answer_repo_parts :
      (config : HelperConfig) (r : Option Repo) (output : Text) (calls : Calls H)
      → answer_repo H config r [] ≡ (ok output, calls)
      → ((output ≡ []) × (calls ≡ []))
        ⊎ ((repo : Repo) × (r ≡ some repo) × (answer_with H config repo [] ≡ (ok output, calls)))
  unfolding answer_repo
  answer_repo_parts config none output calls e = inl (quiet output calls e)
  answer_repo_parts config (some repo) output calls e = inr (repo, refl, e)

  pub run_printed :
      (action : Action) (load : Result Text HelperConfig) (stdin : List (Option Text))
      (output : Text) (calls : Calls H)
      → run H action load stdin [] ≡ (ok output, calls)
      → ((output ≡ []) × (calls ≡ [])) ⊎ IsAnswer action load stdin output calls
  unfolding run answer_credential
  run_printed store load stdin output calls e = inl (quiet output calls e)
  run_printed erase load stdin output calls e = inl (quiet output calls e)
  run_printed get load stdin output calls e =
      let (config, loaded, e1) = continue-eq-ok load _ [] calls output e in
      let (credential, read, e2) =
        continue-eq-ok (read_credential H.urls stdin) _ [] calls output e1 in
      elim (Bool-cases (is_github_https_request credential)) [
        | inr other ↦ inl (quiet output calls (rw other at e2))
        | inl github ↦
            elim (answer_repo_parts config (repo_from_credential credential) output calls
              (rw github at e2)) [
                | inl nothing ↦ inl nothing
                | inr (repo, names, e3) ↦
                    let (bearer, token, url, source, addressed, answered, prints, did) =
                      answer_with_parts config repo output calls e3 in
                    inr (record {
                      asks = refl;
                      config = config;
                      loaded = loaded;
                      credential = credential;
                      read = read;
                      for_github = github;
                      repo = repo;
                      names_repo = names;
                      bearer = bearer;
                      source = source;
                      url = url;
                      addressed = addressed;
                      token = token;
                      answered = answered;
                      prints = prints;
                      did = did;
                    })
              ]
      ]
