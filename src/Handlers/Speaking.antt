-- ===== src/Handlers/Speaking.antt =====
-- src/main.rs with src/jwt.rs: whose JWT it is with which the service speaks for an app.
use idcat.Common.{
  ℕ, ◌≡◌, refl, subst, ap, Bool-cases, Option-cases, inl, inr, none, Text, text_eq, Result, ok, err,
  arith, sym, ◌∙◌,
}
use idcat.Config.{GithubAppConfig}
use idcat.AppError.{AppError}
use idcat.Service.{AppState, github_app}
use idcat.Signer.{Signer}
use idcat.Jwt.{Encoding, build_github_app_jwt_at, encode_jwt_part, github_app_header, claims_at}
use idcat.Github.Client.{github_api_url}
use idcat.Github.Sound.{Speaks}
use idcat.Platform.{Platform}
use idcat.Handlers.Configured.{is_configured, is_configured-found}
use idcat.Handlers.Tokens.{signer_of}
use idcat.Handlers.Issue.{or_mute, sign_of}

-- Without a signature there is no JWT.
unsigned :
    (C : Encoding) (id now : ℕ) (jwt : Text)
    → build_github_app_jwt_at C id (λ message. none) now ≡ ok jwt
    → ⊥
unfolding build_github_app_jwt_at encode_jwt_part
unsigned C id now jwt e = elim (Option-cases (C.header_json github_app_header)) [
  | inl missing ↦ ground arith
  | inr (header, found) ↦ elim (Option-cases (C.claims_json (claims_at id now))) [
    | inl missing ↦ ground arith
    | inr (claims, found') ↦ ground arith
  ]
]

module _ (W : Platform) (state : AppState W.authzoo) where
  -- The JWT has the id of this app and was signed by its own signer, that of its secret key.
  pub record IsJwtOf (app : GithubAppConfig) (jwt : Text) : Type 0 where
    pub sign : Signer
    pub signer : signer_of W state app ≡ ok sign
    pub seconds : ℕ
    pub built : build_github_app_jwt_at W.env.encoding app.app_id sign seconds ≡ ok jwt

  signed_by :
      (app : GithubAppConfig) (r : Result Text Signer) (seconds : ℕ) (jwt : Text)
      → signer_of W state app ≡ r
      → build_github_app_jwt_at W.env.encoding app.app_id (or_mute W state r) seconds ≡ ok jwt
      → IsJwtOf app jwt
  signed_by app (ok sign) seconds jwt same e = record {
    sign = sign;
    signer = same;
    seconds = seconds;
    built = e;
  }
  signed_by app (err x) seconds jwt same e =
      absurd (unsigned W.env.encoding app.app_id seconds jwt e)

  same_app :
      (a b : GithubAppConfig) → ◌≡◌ {A = Result AppError GithubAppConfig} (ok a) (ok b) → a ≡ b
  same_app a b e = cc

  -- Who speaks for the name of a configured app has a JWT of just that app.
  pub Speaks-IsJwtOf :
      (app : GithubAppConfig) (jwt : Text)
      → github_app W.authzoo state app.name ≡ ok app
      → Speaks W.env github_api_url (sign_of W state) app.name jwt
      → IsJwtOf app jwt
  unfolding sign_of
  Speaks-IsJwtOf app jwt found s = elim (Bool-cases (is_configured W state s.config)) [
    | inl configured ↦
        let there = is_configured-found W state s.config configured in
        let same : s.config ≡ app =
          same_app s.config app
            (sym there ∙ (ap (λ n. github_app W.authzoo state n) s.named ∙ found)) in
        subst (λ a. IsJwtOf a jwt) same
          (signed_by s.config (signer_of W state s.config) s.seconds jwt refl
            (rw configured at s.made))
    | inr other ↦
        absurd (unsigned W.env.encoding s.config.app_id s.seconds jwt (rw other at s.made))
  ]
