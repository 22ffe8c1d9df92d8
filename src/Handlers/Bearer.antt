-- ===== src/Handlers/Bearer.antt =====
-- src/main.rs: the bearer token of a request.
use idcat.Common.{
  ◌≡◌, ◌≢◌, ◌↔◌, Bool, true, false, Option, some, none, Option-cases, inl, inr, [], ◌++◌, Text,
  codes, text_eq, is_nil, strip_prefix, strip_prefix-append, strip_prefix-eq-some, Result, ok, err,
  ◌>>=◌, ◌>>◌, bail_if, ok_or, arith,
}
use idcat.Http.{HeaderMaps, header_text}
use idcat.AppError.{AppError, unauthorized}
use idcat.Github.Proxy.{authorization}

module _ (H : HeaderMaps) where
  unfoldable pub extract_bearer_token : H.HeaderMap → Result AppError Text
  extract_bearer_token headers = do
    value ←
        ok_or (H.get headers authorization) (unauthorized (codes "missing Authorization header"))
    text ← ok_or (H.to_str value) (unauthorized (codes "invalid Authorization header"))
    token ←
        ok_or (strip_prefix text (codes "Bearer ")) (unauthorized (codes "expected a Bearer token"))
    bail_if (is_nil token) (unauthorized (codes "empty bearer token"))
    ok token

  -- The first step of `create_installation_token`: without authorization, a request needs no token.
  unfoldable pub bearer_token : Bool → Result AppError Text → Result AppError (Option Text)
  bearer_token auth_enabled (ok token) = ok (some token)
  bearer_token true (err error) = err error
  bearer_token false (err error) = ok none

  -- A bearer token is extracted exactly when the header for authorization is a text, `Bearer `
  -- followed by that token, and the token is not empty.
  pub extract_bearer_token_iff :
      (headers : H.HeaderMap) (token : Text)
      → (extract_bearer_token headers ≡ ok token)
        ↔ ((header_text H headers authorization ≡ some (codes "Bearer " ++ token)) × (token ≢ []))
  unfolding extract_bearer_token header_text
  extract_bearer_token_iff headers token = (to, from)
    where
      to :
          extract_bearer_token headers ≡ ok token
          → (header_text H headers authorization ≡ some (codes "Bearer " ++ token)) × (token ≢ [])
      to h = elim (Option-cases (H.get headers authorization)) [
        | inl missing ↦ absurd (ground arith)
        | inr (value, found) ↦ elim (Option-cases (H.to_str value)) [
          | inl bad ↦ absurd (ground arith)
          | inr (text, read) ↦ elim (Option-cases (strip_prefix text (codes "Bearer "))) [
            | inl other ↦ absurd (ground arith)
            | inr (t, cut) ↦
                let same : t ≡ token = ground arith in
                let whole = strip_prefix-eq-some text (codes "Bearer ") {r = t} cut in
                (ground arith, ground arith)
          ]
        ]
      ]

      from :
          (header_text H headers authorization ≡ some (codes "Bearer " ++ token)) × (token ≢ [])
          → extract_bearer_token headers ≡ ok token
      from (e, nonempty) =
          let cut = strip_prefix-append (codes "Bearer ") token in
          elim (Option-cases (H.get headers authorization)) [
            | inl missing ↦ absurd (ground arith)
            | inr (value, found) ↦
                let read : H.to_str value ≡ some (codes "Bearer " ++ token) = ground arith in
                ground arith
          ]
