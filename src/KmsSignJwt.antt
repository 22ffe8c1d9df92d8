-- ===== src/KmsSignJwt.antt =====
-- examples/kms_sign_jwt.rs: a program that shows a KMS key and signs two tokens with it. KMS, JSON, base64
-- and the system clock are parameters.
pub mod Main
pub mod Pem
use idcat.Common.{
  ℕ, zero, suc, ◌+◌, ◌-◌, ◌%◌, ◌^◌, Bool, if◌then◌else◌, Option, none, some, List, [], ◌∷◌, ◌++◌,
  Text, codes, length, is_nil, starts_with, Result, ok, err, ◌>>=◌, map_err,
}

pub record TestClaims : Type 0 where
  pub iss : Text
  pub sub : Text
  pub aud : Text
  pub iat : ℕ
  pub exp : ℕ

pub record Tools : Type 0 where
  -- `serde_json::to_vec` of the header for RS256 and of claims
  pub header_json : Option (List ℕ)
  pub claims_json : TestClaims → Option (List ℕ)
  -- `URL_SAFE_NO_PAD.encode` and `STANDARD.encode`
  pub url_safe : List ℕ → Text
  pub standard : List ℕ → Text
  -- KMS's answers: none if the request fails, else what was asked for, if the answer has it
  pub sign : Text → Text → Option (Option (List ℕ))
  pub get_public_key : Text → Option (Option (List ℕ))
  -- the seconds since the epoch, or why they cannot be had
  pub system_time : Result Text ℕ

abbrev pub take {ℓ} : {A : Type ℓ} → ℕ → List A → List A
take zero xs = []
take (suc n) [] = []
take (suc n) (x ∷ xs) = x ∷ take n xs

abbrev pub drop {ℓ} : {A : Type ℓ} → ℕ → List A → List A
drop zero xs = xs
drop (suc n) [] = []
drop (suc n) (x ∷ xs) = drop n xs

-- `chunks(size)`, in at most so many chunks
unfoldable pub chunks : ℕ → ℕ → Text → List Text
chunks zero size s = []
chunks (suc fuel) size [] = []
chunks (suc fuel) size (c ∷ s) = take size (c ∷ s) ∷ chunks fuel size (drop size (c ∷ s))

-- The loop of `pem`
unfoldable pub push_lines : Text → List Text → Text
push_lines out [] = out
push_lines out (chunk ∷ rest) = push_lines (out ++ (chunk ++ codes "\n")) rest

-- `pem`, of what base64 made; each chunk has a character at least, so there are no more than those.
unfoldable pub pem : Text → Text → Text
unfolding chunks push_lines
pem label encoded =
    push_lines (codes "-----BEGIN " ++ (label ++ codes "-----\n"))
      (chunks (length encoded) 64 encoded)
    ++ (codes "-----END " ++ (label ++ codes "-----"))

unfoldable pub key_alias : Text → Text
key_alias alias = if starts_with alias (codes "alias/") then alias else codes "alias/" ++ alias

module _ (T : Tools) where
  -- `encode_jwt_part`, of JSON that may have failed
  unfoldable pub encode_jwt_part : Option (List ℕ) → Text → Result Text Text
  encode_jwt_part none context = err context
  encode_jwt_part (some json) context = ok (T.url_safe json)

  -- the answer to a request for a signature or a key
  unfoldable pub answer_of : Option (Option (List ℕ)) → Text → Text → Result Text (List ℕ)
  answer_of none context missing = err context
  answer_of (some none) context missing = err missing
  answer_of (some (some bytes)) context missing = ok bytes

  unfoldable pub sign_jwt : Text → TestClaims → Result Text Text
  unfolding encode_jwt_part answer_of
  sign_jwt key_id claims = do
    encoded_header ← encode_jwt_part T.header_json (codes "failed to encode JWT header")
    encoded_claims ← encode_jwt_part (T.claims_json claims) (codes "failed to encode JWT claims")
    signature ←
        answer_of (T.sign key_id (encoded_header ++ b'.' ∷ encoded_claims))
          (codes "failed to sign JWT with AWS KMS")
          (codes "AWS KMS sign response did not include a signature")
    ok ((encoded_header ++ b'.' ∷ encoded_claims) ++ b'.' ∷ T.url_safe signature)

  unfoldable pub public_key_pem : Text → Result Text Text
  unfolding answer_of
  public_key_pem key_id = do
    public_key ←
        answer_of (T.get_public_key key_id) (codes "failed to get public key from AWS KMS")
          (codes "AWS KMS get-public-key response did not include a key")
    ok (pem (codes "PUBLIC KEY") (T.standard public_key))

  -- `now`
  unfoldable pub now : Result Text ℕ
  now = map_err (λ error. codes "system time error: " ++ error) T.system_time

  unfoldable pub test_claims : Text → ℕ → TestClaims
  test_claims subject seconds = record {
    iss = codes "idcat-kms-example";
    sub = subject;
    aud = codes "idcat";
    iat = seconds;
    exp = (seconds + 600) % 2 ^ 64;
  }

  -- the key that the arguments after the program's name choose
  unfoldable pub key_of : List Text → Result Text Text
  key_of [] = err (codes "usage: cargo run --features kms --example kms_sign_jwt -- <key-alias>")
  key_of (alias ∷ rest) = ok (key_alias alias)
