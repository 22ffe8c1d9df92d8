-- ===== src/Github/View.antt =====
-- src/github.rs: the two caches as what they answer, whatever the order of their entries.
use mathlib.Core.Path.{fun_ext}
use idcat.Common.{
  ℕ, ◌≡◌, refl, Option, none, some, if◌then◌else◌, ◌==◌, Text, text_eq, lookup, lookup-insert, ltb,
}
use idcat.Github.{InstallationTokenCacheKey, key_eq, InstallationTokenResponse, GithubCache}
use idcat.Github.Shared.{find_token, store_token, find_id, store_id}
use idcat.Github.Caches.{find_token-store_token}
use idcat.Github.New.{default_cache}

-- The specification: the token that is given for a key at an instant, and the id for a cache key.
pub record View : Type 0 where
  pub token_at : InstallationTokenCacheKey → ℕ → Option InstallationTokenResponse
  pub id_of : Text → Option ℕ

pub view : GithubCache → View
view cache = record { token_at = find_token cache; id_of = find_id cache }

abbrev pub nothing : View
nothing = record { token_at = λ key now. none; id_of = λ key. none }

-- From now on this key gives the token before its end, and nothing from then on.
abbrev pub with_token : View → InstallationTokenCacheKey → InstallationTokenResponse → ℕ → View
with_token v key token refresh_after = record v {
  token_at = λ other now.
      if key == other
      then (if ltb now refresh_after then some token else none)
      else v.token_at other now;
}

abbrev pub with_id : View → Text → ℕ → View
with_id v key id = record v { id_of = λ other. if key == other then some id else v.id_of other }

find_id-store_id :
    (cache : GithubCache) (key other : Text) (id : ℕ)
    → find_id (store_id cache key id) other
      ≡ (if key == other then some id else find_id cache other)
unfolding find_id store_id
find_id-store_id cache key other id = lookup-insert other key id cache.installation_ids

find_id-store_token :
    (cache : GithubCache) (key : InstallationTokenCacheKey) (token : InstallationTokenResponse)
    (refresh_after : ℕ)
    → find_id (store_token cache key token refresh_after) ≡ find_id cache
unfolding find_id store_token
find_id-store_token cache key token refresh_after = refl

find_token-store_id :
    (cache : GithubCache) (key : Text) (id : ℕ)
    → find_token (store_id cache key id) ≡ find_token cache
unfolding find_token store_id
find_token-store_id cache key id = refl

view_default : view default_cache ≡ nothing
unfolding view find_token find_id lookup
view_default = refl

view-store_token :
    (cache : GithubCache) (key : InstallationTokenCacheKey) (token : InstallationTokenResponse)
    (refresh_after : ℕ)
    → view (store_token cache key token refresh_after)
      ≡ with_token (view cache) key token refresh_after
unfolding view
view-store_token cache key token refresh_after = λ i. record {
  token_at =
      fun_ext
        (λ other. fun_ext (λ now. find_token-store_token cache key other token refresh_after now))
        i;
  id_of = find_id-store_token cache key token refresh_after i;
}

view-store_id :
    (cache : GithubCache) (key : Text) (id : ℕ)
    → view (store_id cache key id) ≡ with_id (view cache) key id
unfolding view
view-store_id cache key id = λ i. record {
  token_at = find_token-store_id cache key id i;
  id_of = fun_ext (λ other. find_id-store_id cache key other id) i;
}

-- The caches of the client implement the specification: at the start nothing is given; to store a token
-- or an id changes what is given for its key alone and as specified, and never what is given by the
-- other cache.
pub cache_refines :
    (cache : GithubCache) (key : InstallationTokenCacheKey) (token : InstallationTokenResponse)
    (refresh_after : ℕ) (id_key : Text) (id : ℕ)
    → (view default_cache ≡ nothing)
      × (view (store_token cache key token refresh_after)
          ≡ with_token (view cache) key token refresh_after)
      × (view (store_id cache id_key id) ≡ with_id (view cache) id_key id)
cache_refines cache key token refresh_after id_key id =
    (view_default, view-store_token cache key token refresh_after, view-store_id cache id_key id)
