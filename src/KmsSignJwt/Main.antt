-- ===== src/KmsSignJwt/Main.antt =====
-- examples/kms_sign_jwt.rs: what the program prints.
use idcat.Common.{ℕ, ◌≡◌, ap, List, [], ◌∷◌, ◌++◌, Text, codes, Result, ok, text_eq}
use idcat.Common.Exec.{Exec, lift, ◌>>=◌, ◌>>◌, continue-eq-ok}
use idcat.KmsSignJwt.{Tools, sign_jwt, public_key_pem, now, test_claims, key_of}

-- `println!`
abbrev pub print : Text → Exec (List Text) Text (Unit {0})
print line printed = (ok tt, line ∷ printed)

module _ (T : Tools) where
  -- `main`, over the lines printed so far, the latest first
  unfoldable pub main : List Text → Exec (List Text) Text (Unit {0})
  main args = do
    key_id ← lift (key_of T args)
    print (codes "KMS key: " ++ key_id)
    print []
    key ← lift (public_key_pem T key_id)
    print key
    seconds ← lift (now T)
    first ← lift (sign_jwt T key_id (test_claims T (codes "test-subject-one") seconds))
    print first
    second ← lift (sign_jwt T key_id (test_claims T (codes "test-subject-two") seconds))
    print second

  -- A run that succeeds has printed the name of the key that the first argument chooses, an empty line,
  -- the PEM text of its public key, and two tokens that the key signed, for the two subjects and the same
  -- time; and nothing else.
  pub main_prints :
      (args printed after : List Text)
      → main args printed ≡ (ok tt, after)
      → (key_id key first second : Text) × (seconds : ℕ) × (key_of T args ≡ ok key_id)
        × (public_key_pem T key_id ≡ ok key)
        × (now T ≡ ok seconds)
        × (sign_jwt T key_id (test_claims T (codes "test-subject-one") seconds) ≡ ok first)
        × (sign_jwt T key_id (test_claims T (codes "test-subject-two") seconds) ≡ ok second)
        × (second ∷ first ∷ key ∷ [] ∷ (codes "KMS key: " ++ key_id) ∷ printed ≡ after)
  unfolding main
  main_prints args printed after e =
      let (key_id, chosen, e1) = continue-eq-ok (key_of T args) _ printed after tt e in
      let (key, shown, e2) = continue-eq-ok (public_key_pem T key_id) _ _ after tt e1 in
      let (seconds, timed, e3) = continue-eq-ok (now T) _ _ after tt e2 in
      let (first, one, e4) =
        continue-eq-ok (sign_jwt T key_id (test_claims T (codes "test-subject-one") seconds)) _ _
          after tt e3 in
      let (second, two, e5) =
        continue-eq-ok (sign_jwt T key_id (test_claims T (codes "test-subject-two") seconds)) _ _
          after tt e4 in
      (
        key_id,
        key,
        first,
        second,
        seconds,
        chosen,
        shown,
        timed,
        one,
        two,
        ap (λ (p : Result Text (Unit {0}) × List Text). p.1) e5,
      )
