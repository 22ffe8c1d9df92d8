-- ===== src/Config/Load.antt =====
-- src/config.rs, `Config::load`. The file system and the TOML parser, with the two hand-written
-- deserializers behind it, are parameters.
use idcat.Common.{◌++◌, Text, codes, Result, ◌>>=◌, map_err}
use idcat.Authzoo.{Authzoo}
use idcat.Config.{Config}

module _ (Z : Authzoo) where
  pub record Files : Type 0 where
    pub read_to_string : Text → Result Text Text
    pub parse : Text → Result Text (Config Z)

  unfoldable pub load : Files → Text → Result Text (Config Z)
  load F path = do
    content ←
        map_err (λ e. codes "Could not read config file '" ++ (path ++ codes "'"))
          (F.read_to_string path)
    map_err (λ e. codes "Could not parse config file '" ++ (path ++ (codes "': " ++ e)))
        (F.parse content)
