-- ===== src/Config/Apps.antt =====
-- src/config.rs, `Config::validate`: the checks of the `github-app` entries.
use idcat.Common.{
  ◌≡◌, ◌≢◌, ◌↔◌, refl, sym, Bool, true, false, ◌&&◌, ◌||◌, if◌then◌else◌, some, List, [], ◌∷◌, map,
  Text, codes, text_eq, nat_eq, ◌==◌, Result, ok, err, ◌>>=◌, ◌>>◌, bail_if, map_err, for_each,
  for_each_iff, >>_iff, >>=-eq-ok, is_nil, All, All-map, All-fresh, subst, sym, >>=-eq-ok, refl,
  Distinct, contains, contains_char, contains_char-Free, Free-contains_char, Free, contains_text,
  is_absolute, arith,
}
use mathlib.Core.List.{reverse_aux}
use idcat.Authzoo.{Authzoo}
use idcat.Config.{KeySource, local, kms, GithubAppConfig}
use idcat.Config.Errors.{
  ConfigError, empty_app_name, slash_in_app_name, zero_app_id, no_secret_key,
  secret_key_not_relative, empty_webhook_secret_file, duplicate_app, empty_allowed_role, authzoo,
}
use idcat.Config.Server.{is_empty_some}

abbrev is_local : KeySource → Bool
is_local local = true
is_local kms = false

module _ (Z : Authzoo) (v : Z.TokenValidator) (disable_auth : Bool) (key_source : KeySource) where
  check_allowed_role : Text → Text → Result ConfigError (Unit {0})
  check_allowed_role app role = bail_if (is_nil role) (empty_allowed_role app)

  validate_allowed_roles : GithubAppConfig → Result ConfigError (Unit {0})
  unfolding check_allowed_role
  validate_allowed_roles app = do
    for_each (check_allowed_role app.name) app.allowed_roles
    map_err authzoo (Z.ensure_roles_exist v app.allowed_roles)

  -- The checks of one entry that come before its name joins the set.
  validate_app_fields : GithubAppConfig → Result ConfigError (Unit {0})
  validate_app_fields app = do
    bail_if (is_nil app.name) empty_app_name
    bail_if (contains_char app.name b'/') (slash_in_app_name app.name)
    bail_if (app.app_id == 0) (zero_app_id app.name)
    bail_if (is_nil app.secret_key) (no_secret_key app.name)
    bail_if
        (is_local key_source
          && (is_absolute app.secret_key || contains_text app.secret_key (codes "..")))
        (secret_key_not_relative app.name)
    bail_if (is_empty_some app.webhook_validation_secret_file) (empty_webhook_secret_file app.name)

  -- One round of the loop: the names before it, and the names after it.
  validate_app : List Text → GithubAppConfig → Result ConfigError (List Text)
  validate_app seen app = do
    validate_app_fields app
    bail_if (contains seen app.name) (duplicate_app app.name)
    if disable_auth then ok tt else validate_allowed_roles app
    ok (app.name ∷ seen)

  unfoldable pub validate_apps : List Text → List GithubAppConfig → Result ConfigError (List Text)
  unfolding validate_app validate_app_fields validate_allowed_roles
  validate_apps seen [] = ok seen
  validate_apps seen (app ∷ apps) = validate_app seen app >>= λ names. validate_apps names apps

  abbrev pub IsSecretKey : KeySource → Text → Type 0
  IsSecretKey local key = (is_absolute key ≡ false) × (contains_text key (codes "..") ≡ false)
  IsSecretKey kms key = Unit

  abbrev pub AreAllowedRoles : Bool → List Text → Type 0
  AreAllowedRoles true roles = Unit
  AreAllowedRoles false roles = All (λ r. r ≢ []) roles × (Z.ensure_roles_exist v roles ≡ ok tt)

  pub record IsApp (app : GithubAppConfig) : Type 0 where
    pub named : app.name ≢ []
    pub no_slash : Free b'/' app.name
    pub app_id : app.app_id ≢ 0
    pub has_key : app.secret_key ≢ []
    pub relative : IsSecretKey key_source app.secret_key
    pub secret_file : app.webhook_validation_secret_file ≢ some []
    pub allowed_roles : AreAllowedRoles disable_auth app.allowed_roles

  check_allowed_role_iff : (app r : Text) → (check_allowed_role app r ≡ ok tt) ↔ (r ≢ [])
  unfolding check_allowed_role
  check_allowed_role_iff app r = ground arith

  map_err_iff : (r : Result Text (Unit {0})) → (map_err authzoo r ≡ ok tt) ↔ (r ≡ ok tt)
  map_err_iff (ok tt) = ground arith
  map_err_iff (err e) = ground arith

  validate_allowed_roles_iff :
      (app : GithubAppConfig)
      → (validate_allowed_roles app ≡ ok tt) ↔ AreAllowedRoles false app.allowed_roles
  unfolding validate_allowed_roles
  validate_allowed_roles_iff app =
      let (to, from) = >>_iff _ _ tt in
      let (each, back) = for_each_iff (check_allowed_role app.name) app.allowed_roles in
      let (plain, mapped) = map_err_iff (Z.ensure_roles_exist v app.allowed_roles) in
      let role = check_allowed_role_iff app.name in
      (
        λ h. (All-map _ (λ r. (role r).0) (each (to h).0), plain (to h).1),
        λ h. from (back (All-map _ (λ r. (role r).1) h.0), mapped h.1),
      )

  validate_app_fields_iff :
      (app : GithubAppConfig)
      → (validate_app_fields app ≡ ok tt) ↔ (
          (app.name ≢ [])
          × Free b'/' app.name
          × (app.app_id ≢ 0)
          × (app.secret_key ≢ [])
          × IsSecretKey key_source app.secret_key
          × (app.webhook_validation_secret_file ≢ some []))
  unfolding validate_app_fields
  validate_app_fields_iff app =
      ground (arith, contains_char-Free app.name b'/', Free-contains_char app.name b'/')

  roles_step_iff :
      (d : Bool) (app : GithubAppConfig)
      → ((if d then ok tt else validate_allowed_roles app) ≡ ok tt)
        ↔ AreAllowedRoles d app.allowed_roles
  roles_step_iff true app = ground arith
  roles_step_iff false app = validate_allowed_roles_iff app

  validate_app_iff :
      (seen : List Text) (app : GithubAppConfig) (names : List Text)
      → (validate_app seen app ≡ ok names)
        ↔ (IsApp app × (contains seen app.name ≡ false) × (app.name ∷ seen ≡ names))
  unfolding validate_app
  validate_app_iff seen app names =
      let fields = validate_app_fields_iff app in
      let roles = roles_step_iff disable_auth app in
      let (to, from) = >>_iff (validate_app_fields app) _ names in
      let (to', from') =
        >>_iff (bail_if (contains seen app.name) (duplicate_app app.name)) _ names in
      let (to'', from'') =
        >>_iff (if disable_auth then ok tt else validate_allowed_roles app) (ok (app.name ∷ seen))
          names in
      (
        λ h.
            let a = fields.0 (to h).0 in
            let h' = to' (to h).1 in
            let h'' = to'' h'.1 in
            let r = roles.0 h''.0 in (ground arith, ground arith, ground arith),
        λ h. from (
          fields.1 (ground arith),
          from' (ground arith, from'' (roles.1 h.0.allowed_roles, ground arith)),
        ),
      )

  -- The loop accepts the entries exactly when each is well formed, none is named like one before
  -- the loop, and no two share a name; and it ends with the names of all.
  pub validate_apps_iff :
      (seen : List Text) (apps : List GithubAppConfig) (names : List Text)
      → (validate_apps seen apps ≡ ok names) ↔ (
          All IsApp apps
          × All (λ n. contains seen n ≡ false) (map (λ a. a.name) apps)
          × Distinct (map (λ a. a.name) apps)
          × (reverse_aux (map (λ a. a.name) apps) seen ≡ names))
  unfolding validate_apps
  validate_apps_iff seen [] names = ground arith
  validate_apps_iff seen (app ∷ apps) names =
      let (to, from) = validate_apps_iff (app.name ∷ seen) apps names in
      let (apart, back) = All-fresh seen app.name (map (λ a. a.name) apps) in
      (
        λ h.
            let (names', first, rest) = >>=-eq-ok (validate_app seen app) _ h in
            let (a, fresh, same) = (validate_app_iff seen app names').0 first in
            let (all, later, distinct, end) =
              to (subst (λ n. validate_apps n apps ≡ ok names) (sym same) rest) in
            let (absent, other) = apart later in
            ((a, all), (fresh, absent), (other, distinct), end),
        λ h.
            rw ((validate_app_iff seen app (app.name ∷ seen)).1 (h.0.0, h.1.0, refl))
              (from (h.0.1, back (h.1.1, h.2.0), h.2.1, h.3)),
      )
