-- ===== src/Signer.antt =====
-- src/signer.rs, src/kms.rs and `AppState::signer` of src/service.rs: what signs for an app. RSA,
-- the file system and AWS KMS are parameters.
use idcat.Common.{
  ℕ, ◌≡◌, ◌⊎◌, inl, inr, Bool, true, if◌then◌else◌, Option, some, none, Option-cases, List, Text,
  codes, ◌++◌, starts_with, starts_with-append, Result, ok, err, ◌>>=◌, map_err_ok, >>=-eq-ok,
  ok_or, arith, text_eq,
}
use idcat.Config.{KeySource, local, kms}
use idcat.Secret.{private_key_pem, path_for_key, path_for_key-IsInside, IsInside}

-- What the crates `rsa` and `aws-sdk-kms` and the file system do.
pub record Crypto : Type 1 where
  pub RsaPrivateKey : Type 0
  pub from_pkcs8_pem : Text → Option RsaPrivateKey
  pub from_pkcs1_pem : Text → Option RsaPrivateKey
  -- the PKCS #1 v1.5 signature with SHA-256
  pub rsa_sign : RsaPrivateKey → List ℕ → List ℕ
  pub read_to_string : Text → Result Text Text
  -- KMS's answer to a request to sign with a key: none if the request fails, else the signature, if
  -- it has one
  pub kms_sign : Text → List ℕ → Option (Option (List ℕ))

-- A signer: the signature of a message, if it can sign.
abbrev pub Signer : Type 0
Signer = List ℕ → Option (List ℕ)

-- `key_alias_for_secret_key` of src/kms.rs
unfoldable pub key_alias_for_secret_key : Text → Text
key_alias_for_secret_key secret_key =
    if starts_with secret_key (codes "alias/") then secret_key else codes "alias/" ++ secret_key

module _ (C : Crypto) where
  -- `LocalSigner::from_rsa_pem`
  unfoldable pub from_rsa_pem : Text → Result Text C.RsaPrivateKey
  from_rsa_pem private_key_pem = elim (C.from_pkcs8_pem private_key_pem) [
    | some key ↦ ok key
    | none ↦
        ok_or (C.from_pkcs1_pem private_key_pem)
          (codes "failed to parse GitHub App RSA private key")
  ]

  -- `sign` of `LocalSigner` and of `KmsSigner`
  unfoldable pub local_sign : C.RsaPrivateKey → Signer
  local_sign private_key message = some (C.rsa_sign private_key message)

  unfoldable pub kms_signer_sign : Text → Signer
  kms_signer_sign key_id message = elim (C.kms_sign key_id message) [
    | none ↦ none
    | some signature ↦ signature
  ]

  -- `KmsSignerFactory::signer_for_secret_key`
  unfoldable pub signer_for_secret_key : Text → Signer
  signer_for_secret_key secret_key = kms_signer_sign (key_alias_for_secret_key secret_key)

  -- `AppState::signer`: whether the feature `kms` is built in, and whether there is a factory
  unfoldable pub signer : Bool → Bool → KeySource → Text → Text → Result Text Signer
  unfolding private_key_pem from_rsa_pem
  signer kms_built kms_signers local directory secret_key = do
    pem ← private_key_pem C.read_to_string directory secret_key
    private_key ← from_rsa_pem pem
    ok (local_sign private_key)
  signer kms_built kms_signers kms directory secret_key =
      if kms_built
      then (if kms_signers
          then ok (signer_for_secret_key secret_key)
          else err (codes "AWS KMS signer factory not initialized"))
      else err (codes "key_source 'kms' requires idcat to be built with the 'kms' feature")

  -- A key is read from PKCS #8 or, failing that, from PKCS #1.
  from_rsa_pem_parsed :
      (pem : Text) (key : C.RsaPrivateKey)
      → from_rsa_pem pem ≡ ok key
      → (C.from_pkcs8_pem pem ≡ some key)
        ⊎ ((C.from_pkcs8_pem pem ≡ none) × (C.from_pkcs1_pem pem ≡ some key))
  unfolding from_rsa_pem
  from_rsa_pem_parsed pem key e = elim (Option-cases (C.from_pkcs8_pem pem)) [
    | inl missing ↦ elim (Option-cases (C.from_pkcs1_pem pem)) [
      | inl absent ↦ absurd (ground arith)
      | inr (k, found) ↦ inr (missing, ground arith)
    ]
    | inr (k, found) ↦ inl (ground arith)
  ]

  -- A local signer signs with a key that was read from the file of the given name inside the directory:
  -- in PKCS #8 or, failing that, in PKCS #1.
  pub signer_local :
      (kms_built kms_signers : Bool) (directory secret_key : Text) (sign : Signer)
      → signer kms_built kms_signers local directory secret_key ≡ ok sign
      → (path pem : Text) × (key : C.RsaPrivateKey) × IsInside directory secret_key path
        × (C.read_to_string path ≡ ok pem)
        × ((C.from_pkcs8_pem pem ≡ some key)
            ⊎ ((C.from_pkcs8_pem pem ≡ none) × (C.from_pkcs1_pem pem ≡ some key)))
        × (sign ≡ local_sign key)
  unfolding signer private_key_pem
  signer_local kms_built kms_signers directory secret_key sign e =
      let (pem, read, e') = >>=-eq-ok (private_key_pem C.read_to_string directory secret_key) _ e in
      let (key, parsed, e'') = >>=-eq-ok (from_rsa_pem pem) _ e' in
      let (path, found, read') = >>=-eq-ok (path_for_key directory secret_key) _ read in
      (
        path,
        pem,
        key,
        path_for_key-IsInside directory secret_key path found,
        map_err_ok (C.read_to_string path) _ pem read',
        from_rsa_pem_parsed pem key parsed,
        ground arith,
      )

-- A key name becomes an alias once: one that is an alias stays as it is, and the result is one.
pub key_alias_for_secret_key_idem :
    (secret_key : Text)
    → (key_alias_for_secret_key (key_alias_for_secret_key secret_key)
        ≡ key_alias_for_secret_key secret_key)
      × (starts_with (key_alias_for_secret_key secret_key) (codes "alias/") ≡ true)
unfolding key_alias_for_secret_key
key_alias_for_secret_key_idem k = ground (arith, starts_with-append (codes "alias/") k)
