-- ===== src/Webhook.antt =====
-- src/webhook.rs: when a webhook delivery is genuine. The crates `hmac`, `sha2` and `hex` and the file
-- system are parameters.
use idcat.Common.{
  ℕ, ◌≡◌, ◌≢◌, ◌↔◌, Bool, true, false, if◌then◌else◌, Option, some, none, Option-cases, inl, inr,
  List, [], Text, codes, ◌++◌, text_eq, ◌==◌, strip_prefix, strip_prefix-append,
  strip_prefix-eq-some, is_nil, trim, Result, ok, err, ◌>>=◌, ◌>>◌, bail_if, ok_or, map_err, arith,
  refl, subst, sym,
}
use idcat.Http.{HeaderMaps, header_text}
use idcat.AppError.{AppError, unauthorized, internal}

abbrev pub signature_header : Text
signature_header = codes "x-hub-signature-256"

-- The parts of the crates that are used.
pub record Macs : Type 0 where
  -- HMAC with SHA-256 of a body, under a secret
  pub hmac_sha256 : (secret body : List ℕ) → List ℕ
  -- `hex::decode`
  pub hex_decode : Text → Option (List ℕ)
  -- the bytes of a text in UTF-8
  pub as_bytes : Text → List ℕ
  pub read_to_string : Text → Result Text Text

module _ (M : Macs) where
  -- `verify_slice` compares all of the two codes.
  unfoldable pub verify_signature : List ℕ → List ℕ → Text → Bool
  verify_signature secret body header = elim (strip_prefix header (codes "sha256=")) [
    | none ↦ false
    | some hex_signature ↦ elim (M.hex_decode hex_signature) [
      | none ↦ false
      | some expected ↦ M.hmac_sha256 secret body == expected
    ]
  ]

  unfoldable pub validate_delivery :
      (H : HeaderMaps) → Text → H.HeaderMap → List ℕ → Result AppError (Unit {0})
  unfolding verify_signature header_text
  validate_delivery H secret_file headers body = do
    content ←
        map_err
          (λ error. internal (
            codes "failed to read webhook validation secret from '"
            ++ (secret_file ++ (codes "': " ++ error))))
          (M.read_to_string secret_file)
    bail_if (is_nil (trim content))
        (internal (codes "webhook validation secret file '" ++ (secret_file ++ codes "' is empty")))
    signature ←
        ok_or (header_text H headers signature_header)
          (unauthorized (codes "missing " ++ (signature_header ++ codes " header")))
    if verify_signature (M.as_bytes (trim content)) body signature
        then ok tt
        else err (unauthorized (codes "webhook signature validation failed"))

  -- The text is `sha256=` and the code of the body under the secret in hexadecimal.
  pub record IsSignature (secret body : List ℕ) (header : Text) : Type 0 where
    pub hex : Text
    pub prefixed : header ≡ codes "sha256=" ++ hex
    pub decoded : M.hex_decode hex ≡ some (M.hmac_sha256 secret body)

  verify_signature_iff :
      (secret body : List ℕ) (header : Text)
      → (verify_signature secret body header ≡ true) ↔ IsSignature secret body header
  unfolding verify_signature
  verify_signature_iff secret body header = (to, from)
    where
      to : verify_signature secret body header ≡ true → IsSignature secret body header
      to h = elim (Option-cases (strip_prefix header (codes "sha256="))) [
        | inl missing ↦ absurd (ground arith)
        | inr (hex, found) ↦ elim (Option-cases (M.hex_decode hex)) [
          | inl bad ↦ absurd (ground arith)
          | inr (expected, decoded) ↦ record {
            hex = hex;
            prefixed = strip_prefix-eq-some header (codes "sha256=") {r = hex} found;
            decoded = ground arith;
          }
        ]
      ]

      from : IsSignature secret body header → verify_signature secret body header ≡ true
      from h =
          let decoded = h.decoded in
          let stripped = strip_prefix-append (codes "sha256=") h.hex in
          let cut =
            subst (λ s. strip_prefix s (codes "sha256=") ≡ some h.hex) (sym h.prefixed) stripped in
          ground arith

  -- What makes a delivery genuine: there is a secret, not blank, and the delivery has the signature of
  -- its body under the trimmed secret.
  pub record IsGenuine (H : HeaderMaps) (secret_file : Text) (headers : H.HeaderMap) (body : List ℕ)
      : Type 0 where
    pub content : Text
    pub read : M.read_to_string secret_file ≡ ok content
    pub nonblank : trim content ≢ []
    pub signature : Text
    pub sent : header_text H headers signature_header ≡ some signature
    pub signed : IsSignature (M.as_bytes (trim content)) body signature

  -- A delivery is accepted exactly when it is genuine.
  pub validate_delivery_iff :
      (H : HeaderMaps) (secret_file : Text) (headers : H.HeaderMap) (body : List ℕ)
      → (validate_delivery H secret_file headers body ≡ ok tt)
        ↔ IsGenuine H secret_file headers body
  unfolding validate_delivery
  validate_delivery_iff H secret_file headers body = (to (M.read_to_string secret_file) refl, from)
    where
      to :
          (r : Result Text Text)
          → M.read_to_string secret_file ≡ r
          → validate_delivery H secret_file headers body ≡ ok tt
          → IsGenuine H secret_file headers body
      to (err e) read h = absurd (ground arith)
      to (ok content) read h = elim (Option-cases (header_text H headers signature_header)) [
        | inl missing ↦ absurd (ground arith)
        | inr (signature, sent) ↦ record {
          content = content;
          read = read;
          nonblank = ground arith;
          signature = signature;
          sent = sent;
          signed =
              (verify_signature_iff (M.as_bytes (trim content)) body signature).0 (ground arith);
        }
      ]

      from :
          IsGenuine H secret_file headers body
          → validate_delivery H secret_file headers body ≡ ok tt
      from h =
          let signed =
            (verify_signature_iff (M.as_bytes (trim h.content)) body h.signature).1 h.signed in
          ground arith
