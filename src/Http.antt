-- ===== src/Http.antt =====
-- What the program uses of HTTP: header maps, and the exchanges of the GitHub client. Both come from
-- crates (`http`, `reqwest`), so header maps are an interface, and the network is an oracle.
use idcat.Common.{◌≡◌, if◌then◌else◌, Option, none, some, List, Text, text_eq, ◌==◌}

pub record HeaderMaps : Type 1 where
  pub HeaderMap : Type 0
  pub HeaderValue : Type 0
  pub empty : HeaderMap
  -- `map.insert(name, value)`
  pub insert : HeaderMap → Text → HeaderValue → HeaderMap
  -- `map.get(name)`, the first value
  pub get : HeaderMap → Text → Option HeaderValue
  -- the pairs over which `for (name, value) in map` runs
  pub entries : HeaderMap → List (Text × HeaderValue)
  -- `value.to_str()`, and `HeaderValue::from_str`
  pub to_str : HeaderValue → Option Text
  pub from_str : Text → Option HeaderValue

-- `insert` replaces whatever the name had.
pub record IsHeaderMaps (H : HeaderMaps) : Type 0 where
  pub get-empty : (name : Text) → H.get H.empty name ≡ none
  pub get-insert :
      (m : H.HeaderMap) (n name : Text) (value : H.HeaderValue)
      → H.get (H.insert m n value) name ≡ (if n == name then some value else H.get m name)

-- `headers.get(name).and_then(|value| value.to_str().ok())`
unfoldable pub header_text : (H : HeaderMaps) → H.HeaderMap → Text → Option Text
header_text H headers name = elim (H.get headers name) [ none ↦ none | some value ↦ H.to_str value ]
