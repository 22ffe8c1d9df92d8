-- ===== src/Helper/Load.antt =====
-- git-credential-helper/src/config.rs, `Config::load`, and git-credential-helper/src/main.rs, `main`. The
-- file system, the environment and the TOML parser are parameters.
use idcat.Common.{
  ◌≡◌, ◌↔◌, inl, inr, refl, Option, none, some, ◌++◌, Text, codes, Result, ok, err, ◌>>=◌,
  >>=-eq-ok, map_err, map_err_ok, ok_or, arith, ℕ, Option-cases,
}
use idcat.Secret.{join_path}
use idcat.Helper.{RawHelperConfig, HelperConfig, config_of}

-- Why a file cannot be read, as far as the code looks at it.
pub data ReadError : Type 0 where
  file_not_found : ReadError
  unreadable : Text → ReadError

pub record Files : Type 0 where
  -- `env::var_os("HOME")`
  pub home : Option Text
  pub read_to_string : Text → Result ReadError Text
  -- `toml::from_str`
  pub parse : Text → Result Text RawHelperConfig

abbrev pub read_message : Text → ReadError → Text
read_message path file_not_found = codes "configuration file not found: " ++ path
read_message path (unreadable e) = codes "failed to read " ++ path

module _ (F : Files) where
  unfoldable pub default_config_path : Result Text Text
  default_config_path = do
    home ← ok_or F.home (codes "HOME is not set")
    ok (
        join_path (join_path (join_path home (codes ".config")) (codes "idcat"))
          (codes "credential-helper.toml"))

  -- `match path`
  unfoldable pub config_path : Option Text → Result Text Text
  config_path none = default_config_path
  config_path (some path) = ok path

  -- `Config::load`
  unfoldable pub load : Option Text → Result Text HelperConfig
  unfolding config_path default_config_path
  load given = do
    path ← config_path given
    content ← map_err (read_message path) (F.read_to_string path)
    raw ← map_err (λ e. codes "failed to parse " ++ path) (F.parse content)
    config_of raw

  -- The file that is read: the one that was given, else the one in the home directory.
  abbrev pub IsConfigPath : Option Text → Text → Type 0
  IsConfigPath (some given) path = given ≡ path
  IsConfigPath none path =
      (home : Text) × (F.home ≡ some home)
      × (join_path (join_path (join_path home (codes ".config")) (codes "idcat"))
            (codes "credential-helper.toml")
          ≡ path)

  config_path_iff :
      (given : Option Text) (path : Text) → (config_path given ≡ ok path) ↔ IsConfigPath given path
  unfolding config_path default_config_path
  config_path_iff (some given) path = ground arith
  config_path_iff none path = elim (Option-cases F.home) [
    | inl unset ↦ (λ e. absurd (ground arith), λ (home, e, same). absurd (ground arith))
    | inr (home, set) ↦ (
      λ e. (home, set, ground arith),
      λ (h, e, same). let eq : h ≡ home = ground arith in rw (set, ← eq, same) refl,
    )
  ]

  -- A configuration is loaded exactly when its file, the given one or else the one in the home directory,
  -- can be read and parsed, and the table in it is accepted.
  pub load_iff :
      (given : Option Text) (config : HelperConfig)
      → (load given ≡ ok config) ↔ (
          (path content : Text) × (raw : RawHelperConfig) × IsConfigPath given path
          × (F.read_to_string path ≡ ok content)
          × (F.parse content ≡ ok raw)
          × (config_of raw ≡ ok config))
  unfolding load
  load_iff given config = (to, from)
    where
      to :
          load given ≡ ok config
          → (path content : Text) × (raw : RawHelperConfig) × IsConfigPath given path
            × (F.read_to_string path ≡ ok content)
            × (F.parse content ≡ ok raw)
            × (config_of raw ≡ ok config)
      to e =
          let (path, chosen, e1) = >>=-eq-ok (config_path given) _ e in
          let (content, read, e2) =
            >>=-eq-ok (map_err (read_message path) (F.read_to_string path)) _ e1 in
          let (raw, parsed, e3) = >>=-eq-ok (map_err _ (F.parse content)) _ e2 in
          (
            path,
            content,
            raw,
            (config_path_iff given path).0 chosen,
            map_err_ok (F.read_to_string path) _ content read,
            map_err_ok (F.parse content) _ raw parsed,
            e3,
          )

      from :
          ((path content : Text) × (raw : RawHelperConfig) × IsConfigPath given path
            × (F.read_to_string path ≡ ok content)
            × (F.parse content ≡ ok raw)
            × (config_of raw ≡ ok config))
          → load given ≡ ok config
      from (path, content, raw, chosen, read, parsed, accepted) =
          let at = (config_path_iff given path).1 chosen in rw (at, read, parsed, accepted) refl

-- `main`: the exit code of a run
unfoldable pub exit_code : {A : Type 0} → Result Text A → ℕ
exit_code (ok _) = 0
exit_code (err _) = 1
