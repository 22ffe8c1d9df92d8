-- ===== src/Helper/Credential.antt =====
-- git-credential-helper/src/credential.rs: git's request for a credential. The crate `url` is a
-- parameter.
use idcat.Common.{
  ℕ, Bool, false, ◌&&◌, ◌||◌, Option, none, some, List, [], ◌∷◌, ◌++◌, Text, codes, text_eq, nat_eq,
  ◌==◌, if◌then◌else◌, Map, lookup, insert, or_insert, is_nil, map, reverse, split, split_once,
  trim_start_matches, to_ascii_lowercase, to_decimal, Result, ok, err, ◌>>=◌,
}

pub record Urls : Type 1 where
  pub Url : Type 0
  pub parse : Text → Option Url
  pub scheme : Url → Text
  pub host_str : Url → Option Text
  -- the port, unless it is the scheme's own
  pub port : Url → Option ℕ
  pub path : Url → Text
  -- `path_segments_mut`, if the URL can be a base, `pop_if_empty` and `extend`
  pub extend_path : Url → List Text → Option Url

-- `read_line` until the input ends or a line is blank; a line is none where reading fails.
unfoldable pub read_lines : List (Option Text) → Result Text Text
read_lines [] = ok []
read_lines (none ∷ rest) = err (codes "failed to read credential request from stdin")
read_lines (some line ∷ rest) =
    let more = read_lines rest in
    if line == codes "\n" || line == codes "\r\n"
    then ok []
    else (more >>= λ text. ok (line ++ text))

-- a line without its carriage return at the end
strip_return : Text → Text
strip_return line = go (reverse line)
  where
    go : Text → Text
    go [] = []
    go (c ∷ s) = if c == b'\r' then reverse s else reverse (c ∷ s)

-- The parts between line feeds: each but the last is a line that was ended; the last is one if it is
-- not empty.
ended_lines : List Text → List Text
ended_lines [] = []
ended_lines (last ∷ []) = if is_nil last then [] else last ∷ []
ended_lines (line ∷ next ∷ rest) = strip_return line ∷ ended_lines (next ∷ rest)

-- `input.lines()`
unfoldable pub lines : Text → List Text
unfolding ended_lines strip_return
lines input = ended_lines (split input b'\n')

-- One line: its key and value, or none where the request ends.
unfoldable pub parse_line : Text → Result Text (Option (Text × Text))
parse_line [] = ok none
parse_line (c ∷ line) = elim (split_once (c ∷ line) b'=') [
  | none ↦ err (codes "credential line is missing '=': " ++ c ∷ line)
  | some (key, value) ↦
      if is_nil key then err (codes "credential line has an empty key") else ok (some (key, value))
]

-- `for line in input.lines() { … }`
unfoldable pub parse_lines : List Text → Map Text Text → Result Text (Map Text Text)
unfolding parse_line
parse_lines [] credential = ok credential
parse_lines (line ∷ rest) credential = elim (parse_line line) [
  | err e ↦ err e
  | ok none ↦ ok credential
  | ok (some (key, value)) ↦ parse_lines rest (insert key value credential)
]

module _ (U : Urls) where
  unfoldable pub host_with_port : Text → Option ℕ → Text
  host_with_port host none = host
  host_with_port host (some port) = host ++ (codes ":" ++ to_decimal port)

  -- each part of the URL where the request does not say it
  unfoldable pub merge_host : U.Url → Map Text Text → Map Text Text
  unfolding host_with_port
  merge_host url credential = elim (U.host_str url) [
    | none ↦ credential
    | some host ↦ or_insert (codes "host") (host_with_port host (U.port url)) credential
  ]

  unfoldable pub merge_path : Text → Map Text Text → Map Text Text
  merge_path path credential =
      if is_nil path then credential else or_insert (codes "path") path credential

  unfoldable pub merge_url_credential : Map Text Text → Text → Map Text Text
  unfolding merge_host merge_path
  merge_url_credential credential raw_url = elim (U.parse raw_url) [
    | none ↦ credential
    | some url ↦
        merge_path (trim_start_matches (U.path url) b'/')
          (merge_host url (or_insert (codes "protocol") (U.scheme url) credential))
  ]

  unfoldable pub parse_credential : Text → Result Text (Map Text Text)
  parse_credential input = do
    credential ← parse_lines (lines input) []
    ok (elim (lookup (codes "url") credential) [
      | none ↦ credential
      | some url ↦ merge_url_credential credential url
    ])

  unfoldable pub read_credential : List (Option Text) → Result Text (Map Text Text)
  read_credential reader = do input ← read_lines reader; parse_credential input

-- `eq_ignore_ascii_case`
unfoldable pub eq_ignore_ascii_case : Text → Text → Bool
eq_ignore_ascii_case a b = map to_ascii_lowercase a == map to_ascii_lowercase b

unfoldable pub is_github_https_request : Map Text Text → Bool
is_github_https_request credential =
    (elim (lookup (codes "protocol") credential) [
      | none ↦ false
      | some value ↦ value == codes "https"
    ])
    && (elim (lookup (codes "host") credential) [
      | none ↦ false
      | some value ↦ eq_ignore_ascii_case value (codes "github.com")
    ])
