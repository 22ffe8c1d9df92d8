-- ===== src/Github/Lookups.antt =====
-- src/github.rs: what a lookup of an installation id stands for.
use idcat.Common.{
  ℕ, ◌≡◌, Option, none, some, List, Text, ok, arith, subst, inl, inr, text_eq, nat_eq, false, ok_or,
}
use idcat.Config.{GithubAppConfig}
use idcat.Github.{InstallationTarget, repository, owner}
use idcat.Github.Shared.{get, ApiResponse, Shared, Env}
use idcat.Github.Client.{
  repository_url, path_url, org_path, user_path, lookup_repository, repository_installation_id,
  installation_id_from_path, or_user_installation, owner_installation_id, installation_id,
}
use idcat.Github.Answers.{error_for_status, read_repository, read_lookup}
use idcat.Github.Sound.{Answered, Speaks, Found, NotFound, NotFound-Grows, Resolved}
use idcat.Github.Rules.{
  IsRely, any_state, Triple, IsStable, Triple-bind, Triple-lift, Triple-bind-lift, Triple-weaken,
  Triple-strengthen, Triple-pure,
}
use idcat.Github.Steps.{Triple-send}

module _ (E : Env) (api_url : Text) (sign_of : GithubAppConfig → Text → Option (List ℕ))
    (rely : IsRely E api_url sign_of) (app jwt : Text)
    (speaks : Speaks E api_url sign_of app jwt) where
  -- What an answer to `GET url` with the JWT, not an error, with a body that is read, stands for.
  found :
      (s : Shared) (url : Text) (response : ApiResponse) (id : ℕ)
      → Answered s.log (get url jwt) response
      → E.is_error_status response.status ≡ false
      → E.parse_installation response.body ≡ some id
      → Found E api_url sign_of s.log app url id
  found s url response id m fine parsed = record {
    jwt = jwt;
    speaks = speaks;
    response = response;
    answered = m;
    succeeded = fine;
    parsed = parsed;
  }

  ok_or_ok :
      {A : Type 0} (o : Option A) (context : Text) (a : A) → ok_or o context ≡ ok a → o ≡ some a
  ok_or_ok none context a e = cc
  ok_or_ok (some b) context a e = ground arith

  read_repository_found :
      (s : Shared) (repo url : Text) (response : ApiResponse) (id : ℕ)
      → Answered s.log (get url jwt) response
      → read_repository E repo response ≡ ok id
      → Found E api_url sign_of s.log app url id
  unfolding read_repository error_for_status
  read_repository_found s repo url response id m e =
      found s url response id m (ground arith) (ground arith)

  lookup_repository_found :
      (repo : Text) (parts : Text × Text)
      → Triple E api_url sign_of
          (λ s. Unit {0})
          (lookup_repository E api_url jwt repo parts)
          (λ s id. Found E api_url sign_of s.log app (repository_url E api_url parts.0 parts.1) id)
  unfolding lookup_repository
  lookup_repository_found repo (o, n) =
      Triple-bind E api_url sign_of _ _
        (Triple-send E api_url sign_of rely (any_state E api_url sign_of)
          (get (repository_url E api_url o n) jwt) _)
        λ response.
          Triple-lift E api_url sign_of _ λ s id e h.
            read_repository_found s repo (repository_url E api_url o n) response id h.0 e

  repository_found :
      (repo : Text)
      → Triple E api_url sign_of
          (λ s. Unit {0})
          (repository_installation_id E api_url jwt repo)
          (λ s id. Resolved E api_url sign_of s.log app (repository repo) id)
  unfolding repository_installation_id
  repository_found repo = Triple-bind-lift E api_url sign_of _ _ λ parts cut.
      Triple-weaken E api_url sign_of (lookup_repository_found repo parts)
        (λ s id f. (parts, ok_or_ok _ _ parts cut, f))

  -- What a lookup by path found out.
  IsLookedUp : Shared → Text → Option ℕ → Type 0
  IsLookedUp s path none = NotFound E api_url sign_of s.log app (path_url E api_url path)
  IsLookedUp s path (some id) = Found E api_url sign_of s.log app (path_url E api_url path) id

  read_lookup_found :
      (s : Shared) (path : Text) (response : ApiResponse) (r : Option ℕ)
      → Answered s.log (get (path_url E api_url path) jwt) response
      → read_lookup E path response ≡ ok r
      → IsLookedUp s path r
  unfolding read_lookup IsLookedUp
  read_lookup_found s path response none m e = record {
    jwt = jwt;
    speaks = speaks;
    response = response;
    answered = m;
    missing = ground arith;
  }
  read_lookup_found s path response (some id) m e =
      found s (path_url E api_url path) response id m (ground arith) (ground arith)

  module _ {P : Shared → Type 0} (stable : IsStable E api_url sign_of P) where
    path_found :
        (path : Text)
        → Triple E api_url sign_of P
            (installation_id_from_path E api_url jwt path)
            (λ s r. IsLookedUp s path r × P s)
    unfolding installation_id_from_path
    path_found path =
        Triple-bind E api_url sign_of _ _
          (Triple-send E api_url sign_of rely stable (get (path_url E api_url path) jwt) _)
          λ response.
            Triple-lift E api_url sign_of _
              λ s r e h. (read_lookup_found s path response r h.0 e, h.1)

  NotFound-stable :
      (url : Text) → IsStable E api_url sign_of (λ s. NotFound E api_url sign_of s.log app url)
  NotFound-stable url s t g h = NotFound-Grows E api_url sign_of g app url h

  or_user_found :
      (name : Text) (r : Option ℕ)
      → Triple E api_url sign_of
          (λ s. IsLookedUp s (org_path E api_url name) r × Unit {0})
          (or_user_installation E api_url jwt name r)
          (λ s id. Resolved E api_url sign_of s.log app (owner name) id)
  unfolding or_user_installation IsLookedUp
  or_user_found name (some id) = Triple-pure E api_url sign_of id (λ s _ h. inl h.0)
  or_user_found name none =
      Triple-bind E api_url sign_of _ _
        (Triple-strengthen E api_url sign_of
          (path_found (NotFound-stable (path_url E api_url (org_path E api_url name)))
            (user_path E api_url name))
          (λ s h. h.0))
        λ r.
          Triple-lift E api_url sign_of _
            λ s id e h. inr (h.1, user_of s name r id h.0 (ok_or_ok r _ id e))
    where
      user_of :
          (s : Shared) (name : Text) (r : Option ℕ) (id : ℕ)
          → IsLookedUp s (user_path E api_url name) r
          → r ≡ some id
          → Found E api_url sign_of s.log app (path_url E api_url (user_path E api_url name)) id
      user_of s name none id h e = absurd (cc)
      user_of s name (some i) id h e =
          let same : i ≡ id = cc in
          subst
            (λ j.
              Found E api_url sign_of s.log app (path_url E api_url (user_path E api_url name)) j)
            same h

  owner_found :
      (name : Text)
      → Triple E api_url sign_of
          (λ s. Unit {0})
          (owner_installation_id E api_url jwt name)
          (λ s id. Resolved E api_url sign_of s.log app (owner name) id)
  unfolding owner_installation_id
  owner_found name =
      Triple-bind E api_url sign_of _ _
        (path_found (any_state E api_url sign_of) (org_path E api_url name)) (or_user_found name)

  -- An id that the client looks up is the one to which GitHub resolved the target.
  pub installation_id_found :
      (target : InstallationTarget)
      → Triple E api_url sign_of
          (λ s. Unit {0})
          (installation_id E api_url jwt target)
          (λ s id. Resolved E api_url sign_of s.log app target id)
  unfolding installation_id
  installation_id_found (repository repo) = repository_found repo
  installation_id_found (owner name) = owner_found name
