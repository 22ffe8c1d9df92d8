-- ===== src/Handlers/Addresses.antt =====
-- src/github.rs and src/main.rs, the proxy: the address of what is sent on, and the headers that are
-- not returned.
use mathlib.Core.List.{Memᴰ, append_assoc, append-nil}
use idcat.Common.{
  ◌≡◌, refl, ap, sym, ◌∙◌, Bool-cases, inl, inr, Option, none, some, List, [], ◌∷◌, ◌++◌, Text,
  codes, text_eq, contains, contains_member, contains_of_member, trim_start_matches, trim_start_by,
  nat_eq, true, false,
}
use native.Mathlib.Decide.{ℕ_discrete}
use idcat.Github.Client.{github_api_url}
use idcat.Github.Proxy.{proxy_url, should_return_proxy_header}
use idcat.Platform.{Platform}
use idcat.Handlers.Proxy.{github_path, returned_headers}

-- The rest of the path of a request, as it stands behind the repository.
abbrev pub rest_of : Option Text → Text
rest_of none = []
rest_of (some path) = codes "/" ++ path

-- The query, where there is one.
abbrev pub query_of : Option Text → Text
query_of none = []
query_of (some []) = []
query_of (some (c ∷ query)) = codes "?" ++ c ∷ query

-- The names of headers that are for one connection.
abbrev pub for_one_connection : List Text
for_one_connection =
    codes "connection"
    ∷ codes "proxy-authenticate"
    ∷ codes "proxy-authorization"
    ∷ codes "te"
    ∷ codes "trailer"
    ∷ codes "transfer-encoding"
    ∷ codes "upgrade"
    ∷ []

-- The second list is the first, in its order, less the headers that have one of the names.
pub data IsWithout {ℓ} {V : Type ℓ} (names : List Text)
    : List (Text × V) → List (Text × V) → Type ℓ where
  nil : IsWithout names [] []
  dropped :
      {name : Text} {value : V} {headers left : List (Text × V)}
      → Memᴰ name names
      → IsWithout names headers left
      → IsWithout names ((name, value) ∷ headers) left
  kept :
      {name : Text} {value : V} {headers left : List (Text × V)}
      → ¬ Memᴰ name names
      → IsWithout names headers left
      → IsWithout names ((name, value) ∷ headers) ((name, value) ∷ left)

module _ (W : Platform) where
  pub returned_headers-IsWithout :
      (headers : List (Text × W.http.HeaderValue))
      → IsWithout for_one_connection headers (returned_headers W headers)
  unfolding returned_headers should_return_proxy_header
  returned_headers-IsWithout [] = nil
  returned_headers-IsWithout ((name, value) ∷ headers) =
      let rest = returned_headers-IsWithout headers in
      elim (Bool-cases (contains for_one_connection name)) [
        | inl among ↦ rw among (dropped (contains_member for_one_connection name among) rest)
        | inr other ↦
            rw other (kept (λ m. absurd (clash (sym (contains_of_member m) ∙ other))) rest)
      ]
    where
      clash : true ≡ false → ⊥
      clash e = absurd (cc)

  at :
      {x y : Text}
      → x ≡ y
      → codes "https://api.github.com/repos/" ++ x ≡ codes "https://api.github.com/repos/" ++ y
  at e = ap (λ x. codes "https://api.github.com/repos/" ++ x) e

  -- The address that the code builds, by its parts.
  pub proxy_url_parts :
      (repo : Text) (path query : Option Text)
      → proxy_url github_api_url (github_path W repo path) query
        ≡ codes "https://api.github.com/repos/" ++ (repo ++ (rest_of path ++ query_of query))
  unfolding proxy_url github_path codes trim_start_matches trim_start_by ℕ_discrete
  proxy_url_parts repo none none = at (sym (append-nil repo))
  proxy_url_parts repo none (some []) = at (sym (append-nil repo))
  proxy_url_parts repo none (some (c ∷ query)) = refl
  proxy_url_parts repo (some path) none =
      at (ap (λ x. repo ++ x) (sym (append-nil (codes "/" ++ path))))
  proxy_url_parts repo (some path) (some []) =
      at (ap (λ x. repo ++ x) (sym (append-nil (codes "/" ++ path))))
  proxy_url_parts repo (some path) (some (c ∷ query)) =
      at (append_assoc repo (codes "/" ++ path) (codes "?" ++ c ∷ query))
