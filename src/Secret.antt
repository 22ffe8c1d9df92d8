-- ===== src/Secret.antt =====
-- src/secret.rs: where the private key of an app is read from. The file system is the parameter
-- `read_to_string`, of a path.
use mathlib.Core.List.{Memᴰ, reverse-reverse, reverse-append}
use idcat.Common.{
  ◌≡◌, ◌≢◌, ◌⊎◌, ◌∙◌, refl, sym, ap, inl, inr, ◌||◌, Bool, true, false, Bool-cases, if◌then◌else◌,
  [], ◌∷◌, ◌++◌, Text, codes, text_eq, nat_eq, ◌==◌, contains_text, is_absolute, is_nil, Result, ok,
  ◌>>=◌, ◌>>◌, bail_if, arith, split, split_avoids, All, All_member, reverse, map_err, subst,
}
use idcat.Authzoo.{Authzoo}
use idcat.Config.{local, GithubAppConfig, Config}
use idcat.Config.Apps.{IsSecretKey}
use idcat.Config.Validate.{validate, validate_iff}

ends_with_slash : Text → Bool
ends_with_slash [] = false
ends_with_slash (c ∷ s) = c == b'/'

-- `directory.join(secret_key)`, of `std::path` on Unix: an absolute path replaces the directory.
unfoldable pub join_path : Text → Text → Text
unfolding is_absolute ends_with_slash
join_path directory key =
    if is_absolute key
    then key
    else if is_nil directory || ends_with_slash (reverse directory)
    then directory ++ key
    else directory ++ b'/' ∷ key

unfoldable pub path_for_key : Text → Text → Result Text Text
unfolding join_path
path_for_key directory secret_key = do
  bail_if (is_absolute secret_key || contains_text secret_key (codes ".."))
      (codes "secret_key must be a relative file name")
  ok (join_path directory secret_key)

-- `private_key_pem`: the text of the key's file
unfoldable pub private_key_pem : (Text → Result Text Text) → Text → Text → Result Text Text
unfolding path_for_key
private_key_pem read_to_string directory secret_key = do
  path ← path_for_key directory secret_key
  map_err (λ e. codes "failed to read GitHub App private key from '" ++ (path ++ codes "'"))
      (read_to_string path)

-- The path leads from the directory to `below`: where the directory is empty, or its text ends in a
-- slash, `below` follows it; and a slash may stand between them where the directory is not empty.
abbrev pub IsJoined : (directory below path : Text) → Type 0
IsJoined directory below path =
    ((directory ≡ []) × (path ≡ below))
    ⊎ (((parent : Text) × (directory ≡ parent ++ b'/' ∷ []) × (path ≡ directory ++ below))
        ⊎ ((directory ≢ []) × (path ≡ directory ++ b'/' ∷ below)))

-- The path leads from the directory to `below`, a relative path in which no part leads upwards.
pub record IsInside (directory below path : Text) : Type 0 where
  pub joined : IsJoined directory below path
  pub relative : is_absolute below ≡ false
  pub never_up : All (λ part. part ≢ codes "..") (split below b'/')

ends_with_slash_parent :
    (directory reversed : Text)
    → reverse directory ≡ reversed
    → ends_with_slash reversed ≡ true
    → (parent : Text) × (directory ≡ parent ++ b'/' ∷ [])
unfolding ends_with_slash
ends_with_slash_parent directory [] e h = absurd (ground arith)
ends_with_slash_parent directory (c ∷ s) e h =
    let slash : c ≡ b'/' = ground arith in
    (
      reverse s,
      sym (reverse-reverse directory)
          ∙ ap reverse e
          ∙ reverse-append (c ∷ []) s
          ∙ ap (λ d. reverse s ++ d ∷ []) slash,
    )

two_dots : codes ".." ≢ []
unfolding codes
two_dots e = cc

join_path-IsJoined :
    (directory key : Text)
    → is_absolute key ≡ false
    → IsJoined directory key (join_path directory key)
unfolding join_path
join_path-IsJoined [] key relative = inl (refl, ground arith)
join_path-IsJoined (c ∷ s) key relative = elim (Bool-cases (ends_with_slash (reverse (c ∷ s)))) [
  | inl ends ↦
      let (parent, split_off) = ends_with_slash_parent (c ∷ s) (reverse (c ∷ s)) refl ends in
      inr (inl (parent, split_off, rw (relative, ends) refl))
  | inr other ↦ inr (inr ((λ e. cc), rw (relative, other) refl))
]

path_for_key_relative :
    (directory key : Text)
    → is_absolute key ≡ false
    → contains_text key (codes "..") ≡ false
    → path_for_key directory key ≡ ok (join_path directory key)
unfolding path_for_key
path_for_key_relative directory key relative plain = ground arith

-- A key for which there is a path stays inside the directory: the path is the directory and then the
-- key, which is relative and has no part `..`.
pub path_for_key-IsInside :
    (directory secret_key path : Text)
    → path_for_key directory secret_key ≡ ok path
    → IsInside directory secret_key path
unfolding path_for_key
path_for_key-IsInside directory secret_key path e =
    let relative : is_absolute secret_key ≡ false = ground arith in
    let plain : contains_text secret_key (codes "..") ≡ false = ground arith in
    let same : join_path directory secret_key ≡ path = ground arith in
    record {
      joined =
          subst (IsJoined directory secret_key) same
            (join_path-IsJoined directory secret_key relative);
      relative = relative;
      never_up = split_avoids secret_key b'/' (codes "..") two_dots plain;
    }

module _ (Z : Authzoo) (kms_built disable_auth : Bool) (c : Config Z) where
  -- With keys in local files, each app of an accepted configuration has a path for its key: the
  -- configured directory and then the key, with a slash between them where the directory does not end
  -- in one; and the key is relative, with no part `..`.
  pub validate-path_for_key :
      (app : GithubAppConfig)
      → validate Z kms_built disable_auth c ≡ ok tt
      → c.key_source ≡ local
      → Memᴰ app c.github_apps
      → (path : Text) × (path_for_key c.private_key_directory app.secret_key ≡ ok path)
        × IsInside c.private_key_directory app.secret_key path
  validate-path_for_key app valid source member =
      let accepted = (validate_iff Z kms_built disable_auth c).0 valid in
      let h = All_member _ accepted.apps member in
      let key =
        subst (λ k. IsSecretKey Z accepted.validator disable_auth c.key_source k app.secret_key)
          source h.relative in
      let found : path_for_key c.private_key_directory app.secret_key
          ≡ ok (join_path c.private_key_directory app.secret_key) =
        path_for_key_relative c.private_key_directory app.secret_key key.0 key.1 in
      (_, found, path_for_key-IsInside c.private_key_directory app.secret_key _ found)
