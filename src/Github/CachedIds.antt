-- ===== src/Github/CachedIds.antt =====
-- src/github.rs: the cache of installation ids, read and written under its key.
use idcat.Common.{
  ℕ, ◌≡◌, Option, none, some, List, Text, arith, subst, sym, refl, ap, [], text_eq, Free, All,
  All-map, lookup_All, insert_All,
}
use idcat.Config.{GithubAppConfig}
use idcat.Github.{InstallationTarget, GithubCache}
use idcat.Github.Shared.{Shared, Env, id_cache_key, find_id, store_id}
use idcat.Github.Client.{or_lookup_id, cached_installation_id}
use idcat.Github.Keys.{id_cache_key-injective}
use idcat.Github.Sound.{
  Grows, Speaks, Resolved, Resolved-Grows, IsIdEntry, IsTokenEntry, IsTokenEntry-Grows, IsSound,
}
use idcat.Github.Rules.{
  IsRely, IsStable, any_state, Triple, Triple-bind, Triple-pure, Triple-strengthen,
}
use idcat.Github.Steps.{Triple-lock, Triple-put}
use idcat.Github.Lookups.{installation_id_found}

module _ (E : Env) (api_url : Text) (sign_of : GithubAppConfig → Text → Option (List ℕ)) where
  pub Resolved-stable :
      (app : Text) (target : InstallationTarget) (id : ℕ)
      → IsStable E api_url sign_of (λ s. Resolved E api_url sign_of s.log app target id)
  Resolved-stable app target id s t g r = Resolved-Grows E api_url sign_of g app target id r

  -- An entry of the cache under the key of an app and a target is one for them.
  find_id_found :
      (s : Shared) (app : Text) (target : InstallationTarget) (id : ℕ)
      → Free b'/' app
      → IsSound E api_url sign_of s
      → find_id s.cache (id_cache_key app target) ≡ some id
      → Resolved E api_url sign_of s.log app target id
  unfolding find_id
  find_id_found s app target id plain sound hit =
      let entry =
        lookup_All (IsIdEntry E api_url sign_of s.log) (id_cache_key app target) id
          s.cache.installation_ids sound.ids hit in
      let (same_app, same_target) =
        id_cache_key-injective entry.app app entry.target target entry.no_slash plain
          (sym entry.keyed) in
      subst (λ a. Resolved E api_url sign_of s.log a target id) same_app
        (subst (λ t. Resolved E api_url sign_of s.log entry.app t id) same_target entry.resolved)

  store_id-IsSound :
      (s : Shared) (cache : GithubCache) (app : Text) (target : InstallationTarget) (id : ℕ)
      → Free b'/' app
      → IsSound E api_url sign_of s
      → cache ≡ s.cache
      → Resolved E api_url sign_of s.log app target id
      → IsSound E api_url sign_of (record s { cache = store_id cache (id_cache_key app target) id })
  unfolding store_id
  store_id-IsSound s cache app target id plain sound same r =
      let ids =
        subst (λ c. All (IsIdEntry E api_url sign_of s.log) c.installation_ids) (sym same)
          sound.ids in
      let tokens =
        subst (λ c. All (IsTokenEntry E api_url sign_of s) c.installation_tokens) (sym same)
          sound.tokens in
      let g : Grows s (record s { cache = store_id cache (id_cache_key app target) id }) = record {
        since = [];
        extends = refl;
        read = omega arith;
      } in
      record {
        ids =
            insert_All (IsIdEntry E api_url sign_of s.log) (id_cache_key app target) id
              cache.installation_ids
              (record { app = app; no_slash = plain; target = target; keyed = refl; resolved = r })
              ids;
        tokens = All-map cache.installation_tokens (IsTokenEntry-Grows E api_url sign_of g) tokens;
      }

  module _ (rely : IsRely E api_url sign_of) (app jwt : Text)
      (speaks : Speaks E api_url sign_of app jwt) (plain : Free b'/' app) where
    or_lookup_found :
        (target : InstallationTarget) (found : Option ℕ)
        → Triple E api_url sign_of
            (λ s. find_id s.cache (id_cache_key app target) ≡ found)
            (or_lookup_id E api_url jwt (id_cache_key app target) target found)
            (λ s id. Resolved E api_url sign_of s.log app target id)
    unfolding or_lookup_id
    or_lookup_found target (some id) =
        Triple-pure E api_url sign_of id
          (λ s sound hit. find_id_found s app target id plain sound hit)
    or_lookup_found target none =
        Triple-bind E api_url sign_of _ _
          (Triple-strengthen E api_url sign_of
            (installation_id_found E api_url sign_of rely app jwt speaks target) (λ s h. tt))
          λ id.
            Triple-bind E api_url sign_of _ _
              (Triple-lock E api_url sign_of rely (Resolved-stable app target id))
              λ cache.
                Triple-bind E api_url sign_of _ _
                  (Triple-put E api_url sign_of
                    {Q = λ s _. Resolved E api_url sign_of s.log app target id}
                    (store_id cache (id_cache_key app target) id)
                    (λ s sound h.
                      (store_id-IsSound s cache app target id plain sound h.0 h.1, h.1)))
                  λ _. Triple-pure E api_url sign_of id (λ s _ r. r)

    -- The id is one to which GitHub resolved the target for this app, cached or not.
    pub cached_installation_id_found :
        (target : InstallationTarget)
        → Triple E api_url sign_of
            (λ s. Unit {0})
            (cached_installation_id E api_url jwt app target)
            (λ s id. Resolved E api_url sign_of s.log app target id)
    unfolding cached_installation_id
    cached_installation_id_found target =
        Triple-bind E api_url sign_of _ _
          (Triple-lock E api_url sign_of rely (any_state E api_url sign_of))
          λ cache.
            Triple-strengthen E api_url sign_of
              (or_lookup_found target (find_id cache (id_cache_key app target)))
              (λ s h. ap (λ c. find_id c (id_cache_key app target)) (sym h.0))
