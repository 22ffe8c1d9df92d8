-- ===== src/Github/Proxy.antt =====
-- src/github.rs: what `proxy_request` sends on, `proxy_url` and `proxy_headers`.
use idcat.Common.{
  Bool, ◌≡◌, refl, not, if◌then◌else◌, Option, none, some, List, [], ◌∷◌, ◌++◌, Text, codes,
  text_eq, ◌==◌, is_nil, contains, Result, ok, ◌>>=◌, ok_or, trim_start_matches, arith,
  Option-cases, inl, inr,
}
use idcat.Http.{HeaderMaps, IsHeaderMaps}

-- The names of header constants of the crate `http`, in lower case as all its names are.
abbrev pub authorization : Text
authorization = codes "authorization"

abbrev hop_by_hop : List Text
hop_by_hop =
    codes "connection"
    ∷ codes "proxy-authenticate"
    ∷ codes "proxy-authorization"
    ∷ codes "te"
    ∷ codes "trailer"
    ∷ codes "transfer-encoding"
    ∷ codes "upgrade"
    ∷ []

-- The names of headers that are not sent on.
abbrev pub kept_back : List Text
kept_back =
    codes "authorization"
    ∷ codes "host"
    ∷ codes "content-length"
    ∷ codes "connection"
    ∷ codes "proxy-authenticate"
    ∷ codes "proxy-authorization"
    ∷ codes "te"
    ∷ codes "trailer"
    ∷ codes "transfer-encoding"
    ∷ codes "upgrade"
    ∷ []

unfoldable pub should_forward_header : Text → Bool
should_forward_header name =
    not (contains (authorization ∷ codes "host" ∷ codes "content-length" ∷ hop_by_hop) name)

forwarded_unless_kept_back :
    (name : Text) → should_forward_header name ≡ not (contains kept_back name)
unfolding should_forward_header
forwarded_unless_kept_back name = refl

-- `should_return_proxy_header` of src/main.rs
unfoldable pub should_return_proxy_header : Text → Bool
should_return_proxy_header name = not (contains hop_by_hop name)

-- `proxy_url`, of the API at `api_url`
unfoldable pub proxy_url : Text → Text → Option Text → Text
proxy_url api_url github_path none = api_url ++ (codes "/" ++ trim_start_matches github_path b'/')
proxy_url api_url github_path (some query) =
    if not (is_nil query)
    then api_url ++ (codes "/" ++ (trim_start_matches github_path b'/' ++ (codes "?" ++ query)))
    else api_url ++ (codes "/" ++ trim_start_matches github_path b'/')

module _ (H : HeaderMaps) where
  -- `for (name, value) in headers { … }`
  unfoldable pub forward_all : List (Text × H.HeaderValue) → H.HeaderMap → H.HeaderMap
  forward_all [] proxied = proxied
  forward_all ((name, value) ∷ rest) proxied =
      forward_all rest (if should_forward_header name then H.insert proxied name value else proxied)

  unfoldable pub proxy_headers : H.HeaderMap → Text → Result Text H.HeaderMap
  unfolding forward_all
  proxy_headers headers installation_token = do
    value ←
        ok_or (H.from_str (codes "Bearer " ++ installation_token))
          (codes "failed to build proxied GitHub Authorization header")
    ok (H.insert (forward_all (H.entries headers) H.empty) authorization value)

  -- The last of the values that a name has.
  unfoldable pub last_value : Text → List (Text × H.HeaderValue) → Option H.HeaderValue
  last_value name [] = none
  last_value name ((n, value) ∷ rest) = elim (last_value name rest) [
    | some later ↦ some later
    | none ↦ if n == name then some value else none
  ]

  module _ (L : IsHeaderMaps H) where
    get-forward_all :
        (name : Text) (entries : List (Text × H.HeaderValue)) (m : H.HeaderMap)
        → H.get (forward_all entries m) name ≡ (
            if should_forward_header name
            then (elim (last_value name entries) [ some value ↦ some value | none ↦ H.get m name ])
            else H.get m name)
    unfolding forward_all last_value
    get-forward_all name [] m = ground arith
    get-forward_all name ((n, value) ∷ rest) m = ground (
      arith,
      get-forward_all name rest (if should_forward_header n then H.insert m n value else m),
      L.get-insert m n name value,
    )

    -- The headers that are sent on, by name. The one for authorization holds the installation token,
    -- so that of the caller is never sent on. Of the others, the names `host` and `content-length` and
    -- those of headers for one connection are not there, and each other name has the last value that
    -- the caller gave it, or none. The condition: `insert` replaces what a name has.
    pub get-proxy_headers :
        (headers out : H.HeaderMap) (installation_token name : Text)
        → proxy_headers headers installation_token ≡ ok out
        → (value : H.HeaderValue) × (H.from_str (codes "Bearer " ++ installation_token)
            ≡ some value)
          × (H.get out name ≡ (
              if authorization == name
              then some value
              else (if contains kept_back name then none else last_value name (H.entries headers))))
    unfolding proxy_headers
    get-proxy_headers headers out installation_token name e =
        elim (Option-cases (H.from_str (codes "Bearer " ++ installation_token))) [
          | inl missing ↦ absurd (ground arith)
          | inr (value, found) ↦ (
            value,
            found,
            ground (
              arith,
              L.get-insert (forward_all (H.entries headers) H.empty) authorization name value,
              get-forward_all name (H.entries headers) H.empty,
              forwarded_unless_kept_back name,
              L.get-empty name,
            ),
          )
        ]
