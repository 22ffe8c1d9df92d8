-- ===== src/Jwt.antt =====
-- src/jwt.rs: the token by which the service speaks for a GitHub App. JSON, base64 and the system
-- clock are parameters.
use idcat.Common.{
  ℕ, ◌+◌, ◌-◌, ◌%◌, ◌^◌, ◌≤◌, ◌<◌, ◌≡◌, Option, some, List, [], ◌∷◌, ◌++◌, Text, codes, Free, split,
  split-append, split-Free, to_decimal, Result, ok, ◌>>=◌, ok_or, arith, ap, ◌∙◌, map_err,
  Option-cases, inl, inr, subst,
}
use mathlib.Core.List.{append_assoc}

-- `GITHUB_APP_JWT_TTL_SECONDS`, `CLOCK_SKEW_SECONDS`
abbrev pub github_app_jwt_ttl_seconds : ℕ
github_app_jwt_ttl_seconds = 540

abbrev pub clock_skew_seconds : ℕ
clock_skew_seconds = 60

pub record GithubAppClaims : Type 0 where
  pub iat : ℕ
  pub exp : ℕ
  pub iss : Text

pub record GithubAppHeader : Type 0 where
  pub alg : Text
  pub typ : Text

-- `serde_json::to_vec` of the two parts, and `URL_SAFE_NO_PAD.encode`
pub record Encoding : Type 0 where
  pub header_json : GithubAppHeader → Option (List ℕ)
  pub claims_json : GithubAppClaims → Option (List ℕ)
  pub base64 : List ℕ → Text

-- The claims at the time `now`. A `u64` sum wraps; `saturating_sub` stops at 0.
unfoldable pub claims_at : ℕ → ℕ → GithubAppClaims
claims_at github_app_id now =
    let issued_at = now - clock_skew_seconds in
    record {
      iat = issued_at;
      exp = (issued_at + github_app_jwt_ttl_seconds) % 2 ^ 64;
      iss = to_decimal github_app_id;
    }

abbrev pub github_app_header : GithubAppHeader
github_app_header = record { alg = codes "RS256"; typ = codes "JWT" }

module _ (C : Encoding) where
  -- `encode_jwt_part`, of JSON that may have failed
  unfoldable pub encode_jwt_part : Option (List ℕ) → Text → Result Text Text
  encode_jwt_part json context = do bytes ← ok_or json context; ok (C.base64 bytes)

  unfoldable pub signing_input : Text → Text → Text
  signing_input encoded_header encoded_claims = encoded_header ++ b'.' ∷ encoded_claims

  -- `build_github_app_jwt_at`; `sign` is the signer, whose own error the context replaces
  unfoldable pub build_github_app_jwt_at : ℕ → (Text → Option (List ℕ)) → ℕ → Result Text Text
  build_github_app_jwt_at github_app_id sign now = do
    encoded_header ←
        encode_jwt_part (C.header_json github_app_header)
          (codes "failed to encode GitHub App JWT header")
    encoded_claims ←
        encode_jwt_part (C.claims_json (claims_at github_app_id now))
          (codes "failed to encode GitHub App JWT claims")
    signature ←
        ok_or (sign (signing_input encoded_header encoded_claims))
          (codes "failed to sign GitHub App JWT")
    ok (signing_input encoded_header encoded_claims ++ b'.' ∷ C.base64 signature)

  -- `build_github_app_jwt`; `now` is the system time in seconds, or why it cannot be had
  unfoldable pub build_github_app_jwt :
      ℕ → (Text → Option (List ℕ)) → Result Text ℕ → Result Text Text
  build_github_app_jwt github_app_id sign now = do
    seconds ← map_err (λ error. codes "system time error: " ++ error) now
    build_github_app_jwt_at github_app_id sign seconds

-- The token is issued in the past and ends in the future, nine minutes later and never more than
-- ten minutes from now, at any time after the first minute of the epoch that leaves `u64` room for
-- the sum.
pub claims_at_window :
    (app now : ℕ)
    → clock_skew_seconds ≤ now
    → now < 2 ^ 64 - github_app_jwt_ttl_seconds
    → let c = claims_at app now in
      (c.iat < now)
      × (now < c.exp)
      × (c.exp ≡ c.iat + github_app_jwt_ttl_seconds)
      × (c.exp < now + 600)
unfolding claims_at
claims_at_window app now early late = omega arith

split_two_dots :
    (a b c : Text)
    → Free b'.' a
    → Free b'.' b
    → Free b'.' c
    → split ((a ++ b'.' ∷ b) ++ b'.' ∷ c) b'.' ≡ a ∷ b ∷ c ∷ []
split_two_dots a b c ha hb hc = rw append_assoc (
    split-append a (b ++ b'.' ∷ c) b'.' ha
    ∙ ap (λ l. a ∷ l) (split-append b c b'.' hb ∙ ap (λ l. b ∷ l) (split-Free c b'.' hc)))

module _ (C : Encoding) (plain : (bytes : List ℕ) → Free b'.' (C.base64 bytes)) where
  -- If base64 writes no dot, a token has exactly three parts between its dots: the header, the
  -- claims of this app at this time, and the signature of the first two joined by a dot.
  pub build_github_app_jwt_at-parts :
      (app : ℕ) (sign : Text → Option (List ℕ)) (now : ℕ) (token : Text)
      → build_github_app_jwt_at C app sign now ≡ ok token
      → (header claims signature : List ℕ) × (C.header_json github_app_header ≡ some header)
        × (C.claims_json (claims_at app now) ≡ some claims)
        × (sign (C.base64 header ++ b'.' ∷ C.base64 claims) ≡ some signature)
        × (split token b'.' ≡ C.base64 header ∷ C.base64 claims ∷ C.base64 signature ∷ [])
  unfolding build_github_app_jwt_at encode_jwt_part signing_input
  build_github_app_jwt_at-parts app sign now token h =
      elim (Option-cases (C.header_json github_app_header)) [
        | inl missing ↦ absurd (ground arith)
        | inr (header, eh) ↦ elim (Option-cases (C.claims_json (claims_at app now))) [
          | inl missing ↦ absurd (ground arith)
          | inr (claims, ec) ↦
              elim (Option-cases (sign (C.base64 header ++ b'.' ∷ C.base64 claims))) [
                | inl missing ↦ absurd (ground arith)
                | inr (signature, es) ↦
                    let same : (C.base64 header ++ b'.' ∷ C.base64 claims)
                          ++ b'.' ∷ C.base64 signature
                        ≡ token =
                      ground arith in
                    (
                      header,
                      claims,
                      signature,
                      eh,
                      ec,
                      es,
                      subst
                          (λ t.
                            split t b'.'
                            ≡ C.base64 header ∷ C.base64 claims ∷ C.base64 signature ∷ [])
                          same
                          (split_two_dots _ _ _ (plain header) (plain claims) (plain signature)),
                    )
              ]
        ]
      ]
