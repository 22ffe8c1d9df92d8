-- ===== src/Helper/Failures.antt =====
-- git-credential-helper/src/main.rs: a run that fails, and what it has done by then.
use idcat.Common.{
  ◌≡◌, ◌⊎◌, inl, inr, refl, ap, sym, subst, true, Bool-cases, Option, none, some, List, [], ◌∷◌,
  Text, Map, Result, ok, err,
}
use idcat.Common.Exec.{continue-eq-err, run-eq-err}
use idcat.Helper.{HelperConfig, read_token}
use idcat.Helper.Credential.{read_credential, is_github_https_request}
use idcat.Helper.Repository.{Repo, repo_from_credential}
use idcat.Helper.Fetch.{installation_token_url, token_of_response}
use idcat.Helper.Run.{
  Action, get, store, erase, asked, posted, Host, Calls, fetch_installation_token, answer_with,
  answer_repo, answer_credential, run,
}

module _ (H : Host) where
  -- Git asked for the credential of a repository at https://github.com.
  pub record IsAskedFor (load : Result Text HelperConfig) (stdin : List (Option Text))
      (config : HelperConfig) (repo : Repo) : Type 0 where
    pub loaded : load ≡ ok config
    pub credential : Map Text Text
    pub read : read_credential H.urls stdin ≡ ok credential
    pub for_github : is_github_https_request credential ≡ true
    pub names_repo : repo_from_credential credential ≡ some repo

  -- A request for a repository that fails, with the calls made by then.
  pub data IsUnanswered (config : HelperConfig) (repo : Repo) : Text → Calls H → Type 0 where
    no_bearer :
        {error : Text}
        → read_token H.sources config.token_source ≡ err error
        → IsUnanswered config repo error (asked config.token_source ∷ [])
    no_address :
        {error bearer : Text}
        → read_token H.sources config.token_source ≡ ok bearer
        → installation_token_url H.urls config repo ≡ err error
        → IsUnanswered config repo error (asked config.token_source ∷ [])
    no_answer :
        {error bearer : Text} {url : H.urls.Url}
        → read_token H.sources config.token_source ≡ ok bearer
        → installation_token_url H.urls config repo ≡ ok url
        → token_of_response H.display_status (H.post url bearer) ≡ err error
        → IsUnanswered config repo error (posted url bearer ∷ asked config.token_source ∷ [])

  pub data IsFailure (load : Result Text HelperConfig) (stdin : List (Option Text))
      : Text → Calls H → Type 0 where
    not_loaded : {error : Text} → load ≡ err error → IsFailure load stdin error []
    not_read :
        {error : Text} {config : HelperConfig}
        → load ≡ ok config
        → read_credential H.urls stdin ≡ err error
        → IsFailure load stdin error []
    unanswered :
        {error : Text} {config : HelperConfig} {repo : Repo} {calls : Calls H}
        → IsAskedFor load stdin config repo
        → IsUnanswered config repo error calls
        → IsFailure load stdin error calls

  unfailed :
      {output error : Text} {s t : Calls H}
      → ◌≡◌ {A = Result Text Text × Calls H} (ok output, s) (err error, t)
      → ⊥
  unfailed {output} {error} e = clash (ap (λ (p : Result Text Text × Calls H). p.0) e)
    where
      clash : ◌≡◌ {A = Result Text Text} (ok output) (err error) → ⊥
      clash h = absurd (cc)

  fetch_failed :
      (config : HelperConfig) (repo : Repo) (bearer error : Text) (before calls : Calls H)
      → fetch_installation_token H config repo bearer before ≡ (err error, calls)
      → ((installation_token_url H.urls config repo ≡ err error) × (calls ≡ before))
        ⊎ ((url : H.urls.Url) × (installation_token_url H.urls config repo ≡ ok url)
            × (token_of_response H.display_status (H.post url bearer) ≡ err error)
            × (calls ≡ posted url bearer ∷ before))
  unfolding fetch_installation_token
  fetch_failed config repo bearer error before calls e =
      elim (continue-eq-err (installation_token_url H.urls config repo) _ before calls error e) [
        | inl nowhere ↦ inl nowhere
        | inr (url, addressed, e1) ↦ inr (
          url,
          addressed,
          ap (λ (p : Result Text Text × Calls H). p.0) e1,
          sym (ap (λ (p : Result Text Text × Calls H). p.1) e1),
        )
      ]

  answer_with_failed :
      (config : HelperConfig) (repo : Repo) (error : Text) (calls : Calls H)
      → answer_with H config repo [] ≡ (err error, calls)
      → IsUnanswered config repo error calls
  unfolding answer_with
  answer_with_failed config repo error calls e =
      elim (continue-eq-err (read_token H.sources config.token_source) _
        (asked config.token_source ∷ []) calls error e) [
          | inl (unread, same) ↦
              subst (λ c. IsUnanswered config repo error c) (sym same) (no_bearer unread)
          | inr (bearer, source, e1) ↦
              elim (run-eq-err (fetch_installation_token H config repo bearer) _
                (asked config.token_source ∷ []) calls error e1) [
                  | inr (token, u, fetched, e2) ↦ absurd (unfailed e2)
                  | inl failed ↦
                      elim (fetch_failed config repo bearer error (asked config.token_source ∷ [])
                        calls failed) [
                          | inl (nowhere, same) ↦
                              subst (λ c. IsUnanswered config repo error c) (sym same)
                                (no_address source nowhere)
                          | inr (url, addressed, refused, same) ↦
                              subst (λ c. IsUnanswered config repo error c) (sym same)
                                (no_answer source addressed refused)
                        ]
                ]
        ]

  answer_repo_failed :
      (config : HelperConfig) (r : Option Repo) (error : Text) (calls : Calls H)
      → answer_repo H config r [] ≡ (err error, calls)
      → (repo : Repo) × (r ≡ some repo) × IsUnanswered config repo error calls
  unfolding answer_repo
  answer_repo_failed config none error calls e = absurd (unfailed e)
  answer_repo_failed config (some repo) error calls e =
      (repo, refl, answer_with_failed config repo error calls e)

  pub run_failed :
      (action : Action) (load : Result Text HelperConfig) (stdin : List (Option Text))
      (error : Text) (calls : Calls H)
      → run H action load stdin [] ≡ (err error, calls)
      → (action ≡ get) × IsFailure load stdin error calls
  unfolding run answer_credential
  run_failed store load stdin error calls e = absurd (unfailed e)
  run_failed erase load stdin error calls e = absurd (unfailed e)
  run_failed get load stdin error calls e = elim (continue-eq-err load _ [] calls error e) [
    | inl (bad, same) ↦
        (refl, subst (λ c. IsFailure load stdin error c) (sym same) (not_loaded bad))
    | inr (config, loaded, e1) ↦
        elim (continue-eq-err (read_credential H.urls stdin) _ [] calls error e1) [
          | inl (unread, same) ↦
              (refl, subst (λ c. IsFailure load stdin error c) (sym same) (not_read loaded unread))
          | inr (credential, read, e2) ↦ elim (Bool-cases (is_github_https_request credential)) [
            | inr other ↦ absurd (unfailed (rw other at e2))
            | inl github ↦
                let (repo, names, why) =
                  answer_repo_failed config (repo_from_credential credential) error calls
                    (rw github at e2) in
                (
                  refl,
                  unanswered
                      (record {
                        loaded = loaded;
                        credential = credential;
                        read = read;
                        for_github = github;
                        names_repo = names;
                      })
                      why,
                )
          ]
        ]
  ]
