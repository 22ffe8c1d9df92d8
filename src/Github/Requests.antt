-- ===== src/Github/Requests.antt =====
-- src/github.rs: what a request for a token asks for.
use idcat.Common.{
  ◌≡◌, ◌↔◌, ◌⊎◌, inl, inr, ◌∷◌, [], refl, Option, none, some, List, Text, ok, arith, not, is_nil,
  if◌then◌else◌, Free, IsCut, split_once, split_once-eq-some, split_once-eq-none, split_once-append,
  split_once-Free, Option-cases, Map, sym, subst,
}
use idcat.Service.{RepoScope, only_requested, all, TokenScope}
use idcat.Github.{
  InstallationTarget, repository, owner, CreateInstallationTokenRequest, requested_repositories,
  build_create_installation_token_request,
}

-- The name of a repository is what follows the owner's, or all of it where there is no owner.
unfoldable pub IsNameOf : Text → Text → Type 0
IsNameOf repo name = ((o : Text) × IsCut repo b'/' (o, name)) ⊎ (Free b'/' repo × (name ≡ repo))

-- The repositories of a request: no list for all of them, else the requested one alone. None will do
-- for an owner.
unfoldable pub AsksForRepositories : RepoScope → InstallationTarget → Option (List Text) → Type 0
unfolding IsNameOf
AsksForRepositories all target r = r ≡ none
AsksForRepositories only_requested (repository repo) r =
    (name : Text) × IsNameOf repo name × (r ≡ some (name ∷ []))
AsksForRepositories only_requested (owner name) r = ⊥

named_of_requested :
    (repo : Text) (r : Option (List Text))
    → requested_repositories only_requested (repository repo) ≡ ok r
    → AsksForRepositories only_requested (repository repo) r
unfolding requested_repositories AsksForRepositories IsNameOf
named_of_requested repo r e = elim (Option-cases (split_once repo b'/')) [
  | inl missing ↦ (repo, inr (split_once-eq-none repo b'/' missing, refl), ground arith)
  | inr (p, found) ↦ (p.1, inl (p.0, split_once-eq-some repo b'/' p found), ground arith)
]

requested_of_named :
    (repo : Text) (r : Option (List Text))
    → AsksForRepositories only_requested (repository repo) r
    → requested_repositories only_requested (repository repo) ≡ ok r
unfolding requested_repositories AsksForRepositories IsNameOf
requested_of_named repo r (name, inl (o, (whole, free)), e) =
    let cut =
      subst (λ s. split_once s b'/' ≡ some (o, name)) (sym whole)
        (split_once-append o name b'/' free) in
    ground arith
requested_of_named repo r (name, inr (free, same), e) =
    let uncut = split_once-Free repo b'/' free in ground arith

requested_repositories_iff :
    (scope : RepoScope) (target : InstallationTarget) (r : Option (List Text))
    → (requested_repositories scope target ≡ ok r) ↔ AsksForRepositories scope target r
unfolding requested_repositories AsksForRepositories
requested_repositories_iff all target r = (λ e. cc, λ e. cc)
requested_repositories_iff only_requested (owner name) r = (λ e. cc, λ e. absurd e)
requested_repositories_iff only_requested (repository repo) r =
    (named_of_requested repo r, requested_of_named repo r)

-- The permissions of a request: those of the scope, left out where there are none.
unfoldable pub AsksForPermissions : Map Text Text → Option (Map Text Text) → Type 0
AsksForPermissions [] r = r ≡ none
AsksForPermissions (p ∷ permissions) r = r ≡ some (p ∷ permissions)

permissions_iff :
    (permissions : Map Text Text) (r : Option (Map Text Text))
    → ((if not (is_nil permissions) then some permissions else none) ≡ r)
      ↔ AsksForPermissions permissions r
unfolding AsksForPermissions
permissions_iff [] r = (λ e. sym e, λ e. sym e)
permissions_iff (p ∷ permissions) r = (λ e. sym e, λ e. sym e)

fields_iff :
    (scope : TokenScope) (target : InstallationTarget) (request : CreateInstallationTokenRequest)
    → (build_create_installation_token_request scope target ≡ ok request) ↔ (
        (requested_repositories scope.repositories target ≡ ok request.repositories)
        × ((if not (is_nil scope.permissions) then some scope.permissions else none)
            ≡ request.permissions))
unfolding build_create_installation_token_request
fields_iff scope target request = ground arith

-- A request is built exactly when it asks for what the scope allows. Its repositories: no list for
-- a scope of all repositories; for a scope of the requested repository, the name of that repository
-- alone, and so no request at all for an owner. Its permissions: those of the scope, left out where
-- it has none.
pub build_create_installation_token_request_iff :
    (scope : TokenScope) (target : InstallationTarget) (request : CreateInstallationTokenRequest)
    → (build_create_installation_token_request scope target ≡ ok request) ↔ (
        AsksForRepositories scope.repositories target request.repositories
        × AsksForPermissions scope.permissions request.permissions)
build_create_installation_token_request_iff scope target request =
    let (to, from) = fields_iff scope target request in
    let (named, asked) =
      requested_repositories_iff scope.repositories target request.repositories in
    let (kept, built) = permissions_iff scope.permissions request.permissions in
    (λ e. (named (to e).0, kept (to e).1), λ h. from (asked h.0, built h.1))
