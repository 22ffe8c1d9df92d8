-- ===== src/Helper/Settings.antt =====
-- git-credential-helper/src/config.rs and credential.rs: which configurations are accepted, and how
-- the lines of a request are read.
use idcat.Common.{
  ◌≡◌, ◌≢◌, ◌↔◌, refl, Option, none, some, [], ◌∷◌, ◌++◌, Text, text_eq, Map, insert, extend, map,
  All, Free, split_once-append, ok, >>=-eq-ok, arith, subst,
}
use idcat.Helper.{
  TokenSource, path, command, RawHelperConfig, HelperConfig, choose_source, config_of,
}
use idcat.Helper.Credential.{parse_line, parse_lines}

-- The configuration names exactly one source, and this is it.
abbrev pub IsSource : Option Text → Option Text → TokenSource → Type 0
IsSource token_path token_command (path p) = (token_path ≡ some p) × (token_command ≡ none)
IsSource token_path token_command (command c) = (token_path ≡ none) × (token_command ≡ some c)

choose_source_iff :
    (token_path token_command : Option Text) (source : TokenSource)
    → (choose_source token_path token_command ≡ ok source)
      ↔ IsSource token_path token_command source
unfolding choose_source
choose_source_iff (some p) (some c) (path q) = (λ h. cc, λ h. absurd (cc))
choose_source_iff (some p) (some c) (command q) = (λ h. cc, λ h. absurd (cc))
choose_source_iff (some p) none (path q) = ground arith
choose_source_iff (some p) none (command q) = ground arith
choose_source_iff none (some c) (path q) = ground arith
choose_source_iff none (some c) (command q) = ground arith
choose_source_iff none none (path q) = (λ h. cc, λ h. absurd (cc))
choose_source_iff none none (command q) = (λ h. cc, λ h. absurd (cc))

-- A configuration of the helper is accepted exactly when it names one source of tokens and not the
-- other; it keeps the app, the endpoint and that source.
pub config_of_iff :
    (raw : RawHelperConfig) (config : HelperConfig)
    → (config_of raw ≡ ok config) ↔ (
        IsSource raw.token_path raw.token_command config.token_source
        × (raw.github_app ≡ config.github_app)
        × (raw.idcat_endpoint ≡ config.idcat_endpoint))
unfolding config_of
config_of_iff raw config =
    let (to, from) = choose_source_iff raw.token_path raw.token_command config.token_source in
    (
      λ h.
          let (source, chosen, built) =
            >>=-eq-ok (choose_source raw.token_path raw.token_command) _ h in
          let same : source ≡ config.token_source = ground arith in
          (
            to (subst (λ s. choose_source raw.token_path raw.token_command ≡ ok s) same chosen),
            ground arith,
            ground arith,
          ),
      λ (source, app, endpoint). let chosen = from source in ground arith,
    )

-- A key that can be told from its value.
abbrev pub IsKey : Text × Text → Type 0
IsKey entry = (entry.0 ≢ []) × Free b'=' entry.0

-- `key=value`
abbrev pub line_of : Text × Text → Text
line_of (key, value) = key ++ b'=' ∷ value

parse_line-line_of :
    (entry : Text × Text) → IsKey entry → parse_line (line_of entry) ≡ ok (some entry)
unfolding parse_line
parse_line-line_of ([], value) h = absurd (h.0 refl)
parse_line-line_of (c ∷ key, value) h =
    let cut = split_once-append (c ∷ key) value b'=' h.1 in ground arith

-- Lines that are written from keys and values give these back: they are put in the map in their
-- order, so the last value of a key stands. The condition: no key is empty or has an equals sign.
pub parse_lines-line_of :
    (entries credential : Map Text Text)
    → All IsKey entries
    → parse_lines (map line_of entries) credential ≡ ok (extend credential entries)
unfolding parse_lines extend
parse_lines-line_of [] credential h = refl
parse_lines-line_of ((key, value) ∷ entries) credential h =
    rw (parse_lines, parse_line-line_of (key, value) h.0)
      (parse_lines-line_of entries (insert key value credential) h.1)
