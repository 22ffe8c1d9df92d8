-- ===== src/UnitTests/Deliveries.antt =====
-- The tests of src/webhook.rs and src/nats.rs, those of the handler `webhook` of src/main.rs, and that
-- of src/kms.rs.
use native.Mathlib.Decide.{dec_le, ℕ_discrete}
use idcat.Common.{
  ℕ, ◌≡◌, refl, ◌+◌, ◌-◌, ◌*◌, Bool, true, false, not, ◌&&◌, if◌then◌else◌, Option, some, none,
  List, [], ◌∷◌, ◌++◌, Text, codes, text_eq, text_dec, nat_eq, leb, ◌==◌, Eq, lookup, find?, split,
  join, strip_prefix, starts_with, trim, trim_end_matches, is_whitespace, Result, ok,
}
use idcat.Http.{header_text}
use idcat.AppError.{AppError, not_found}
use idcat.Service.{github_app}
use idcat.Signer.{key_alias_for_secret_key}
use idcat.Webhook.{Macs, verify_signature, validate_delivery}
use idcat.Nats.{
  Broker, is_subject_character, subject_character, subject_token, then_get, then_str, both_named,
  repository_name, header_or_unknown, subject_segments, subject_for_github_webhook,
}
use idcat.Platform.{Platform}
use idcat.Handlers.Webhook.{webhook, check_delivery, publish_to}
use idcat.Tests.World.{world, maps}
use idcat.UnitTests.{unwrapped, unwrapped_err, pass}
use idcat.UnitTests.StubAuthzoo.{stub_authzoo}
use idcat.UnitTests.ServiceStates.{app_with, test_state, is_unauthorized}

-- `SECRET`, `BODY` and `SIGNATURE`, the example of GitHub's documentation
abbrev secret : Text
secret = codes "It's a Secret to Everybody"

abbrev hello : Text
hello = codes "Hello, World!"

abbrev signature_digits : Text
signature_digits = codes "757107ea0eb2509fc211221cce984b8a37570b6d7586c22c46f4379c8b043e17"

abbrev signature : Text
signature = codes "sha256=" ++ signature_digits

unfoldable hex_digit : ℕ → Option ℕ
hex_digit c =
    if leb b'0' c && leb c b'9'
    then some (c - b'0')
    else (if leb b'a' c && leb c b'f'
        then some (c - b'a' + 10)
        else (if leb b'A' c && leb c b'F' then some (c - b'A' + 10) else none))

unfoldable hex_byte : Option ℕ → Option ℕ → Option (List ℕ) → Option (List ℕ)
hex_byte (some high) (some low) (some rest) = some ((16 * high + low) ∷ rest)
hex_byte _ _ _ = none

unfoldable hex_decode : Text → Option (List ℕ)
unfolding hex_digit hex_byte
hex_decode [] = some []
hex_decode (c ∷ []) = none
hex_decode (c ∷ d ∷ rest) = hex_byte (hex_digit c) (hex_digit d) (hex_decode rest)

-- HMAC as far as the example knows it: the code of its body under its secret, and other codes for all
-- else.
unfoldable example_hmac : (key body : List ℕ) → List ℕ
unfolding hex_decode
example_hmac key body = elim (hex_decode signature_digits) [
  | none ↦ []
  | some code ↦ if key == secret && body == hello then code else []
]

-- Every secret file has the secret.
abbrev example_macs : Macs
example_macs = record {
  hmac_sha256 = example_hmac;
  hex_decode = hex_decode;
  as_bytes = λ t. t;
  read_to_string = λ path. ok secret;
}

abbrev accepts_valid_signature : Bool
accepts_valid_signature = verify_signature example_macs secret hello signature

abbrev rejects_signature_computed_with_wrong_secret : Bool
rejects_signature_computed_with_wrong_secret =
    not (verify_signature example_macs (codes "wrong secret") hello signature)

abbrev rejects_signature_for_tampered_body : Bool
rejects_signature_for_tampered_body =
    not (verify_signature example_macs secret (codes "Goodbye, World!") signature)

abbrev rejects_signature_without_sha256_prefix : Bool
rejects_signature_without_sha256_prefix =
    not (verify_signature example_macs secret hello signature_digits)

abbrev rejects_non_hex_signature : Bool
rejects_non_hex_signature =
    not (verify_signature example_macs secret hello (codes "sha256=not-hex"))

abbrev zen : Text
zen = codes "{\"zen\":\"Keep it logically awesome.\"}"

abbrev push : Text
push = codes "{\"repository\":{\"owner\":{\"name\":\"nresare\"},\"name\":\"idcat\"}}"

-- The JSON of the two bodies of the tests.
unfoldable text_at : Text → Option Text
text_at path =
    if path == codes "/repository/owner/name"
    then some (codes "nresare")
    else (if path == codes "/repository/name" then some (codes "idcat") else none)

abbrev stub_broker : Broker
stub_broker = record {
  Value = Text;
  from_slice = λ body. if body == push then some [] else none;
  get = λ path key. some (path ++ (codes "/" ++ key));
  as_str = text_at;
  read_to_string = λ path. ok path;
  connect_to = λ endpoint token. ok tt;
}

abbrev subject_token_preserves_github_event_names : Bool
subject_token_preserves_github_event_names =
    subject_token (codes "pull_request") == codes "pull_request"
    && subject_token (codes "workflow-run") == codes "workflow-run"

abbrev subject_token_replaces_nats_subject_special_characters : Bool
subject_token_replaces_nats_subject_special_characters =
    subject_token (codes "bad.event > name") == codes "bad_event___name"

unfoldable names_dec : Discrete (Option (Text × Text))
names_dec = hlevel text_dec

instance abbrev names_eq : Eq (Option (Text × Text))
names_eq = record { dec = names_dec }

abbrev repository_name_reads_owner_and_repo : Bool
repository_name_reads_owner_and_repo =
    repository_name stub_broker push == some (codes "nresare", codes "idcat")

abbrev subject_of : Text → Text
subject_of body =
    subject_for_github_webhook stub_broker maps (codes "idcat.github.webhook")
      ((codes "x-github-event", codes "push") ∷ []) body

abbrev subject_includes_github_event_owner_and_repo_when_present : Bool
subject_includes_github_event_owner_and_repo_when_present =
    subject_of push == codes "idcat.github.webhook.push.nresare.idcat"

abbrev subject_omits_owner_and_repo_when_payload_has_no_full_name : Bool
subject_omits_owner_and_repo_when_payload_has_no_full_name =
    subject_of zen == codes "idcat.github.webhook.push"

abbrev platform : Platform
platform = record world { authzoo = stub_authzoo; macs = example_macs; broker = stub_broker }

-- `test_github_app`, in its state
abbrev deliver : Option Text → Text → List (Text × Text) → Text → Result AppError ℕ
deliver secret_file name headers body =
    (webhook platform
      (test_state (record (app_with []) { webhook_validation_secret_file = secret_file } ∷ []) [] []
        none)
      name headers body []).0

unfoldable is_not_found : AppError → Bool
is_not_found (not_found message) = true
is_not_found _ = false

abbrev webhook_accepts_github_payload : Bool
webhook_accepts_github_payload =
    unwrapped (deliver none (codes "default") [] zen) (λ status. status == 202)

abbrev webhook_rejects_unknown_github_app : Bool
webhook_rejects_unknown_github_app =
    unwrapped_err (deliver none (codes "missing") [] zen) is_not_found

abbrev webhook_rejects_delivery_with_missing_signature : Bool
webhook_rejects_delivery_with_missing_signature =
    unwrapped_err (deliver (some (codes "/tmp/secret")) (codes "default") [] hello) is_unauthorized

abbrev webhook_accepts_delivery_with_valid_signature : Bool
webhook_accepts_delivery_with_valid_signature =
    unwrapped
      (deliver (some (codes "/tmp/secret")) (codes "default")
        ((codes "x-hub-signature-256", signature) ∷ []) hello)
      (λ status. status == 202)

abbrev builds_kms_alias_from_secret_key : Bool
builds_kms_alias_from_secret_key =
    key_alias_for_secret_key (codes "deployments") == codes "alias/deployments"
    && key_alias_for_secret_key (codes "alias/deployments") == codes "alias/deployments"

tests_pass :
    pass (
      accepts_valid_signature ∷ rejects_signature_computed_with_wrong_secret
      ∷ rejects_signature_for_tampered_body ∷ rejects_signature_without_sha256_prefix
      ∷ rejects_non_hex_signature ∷ subject_token_preserves_github_event_names
      ∷ subject_token_replaces_nats_subject_special_characters
      ∷ repository_name_reads_owner_and_repo
      ∷ subject_includes_github_event_owner_and_repo_when_present
      ∷ subject_omits_owner_and_repo_when_payload_has_no_full_name ∷ webhook_accepts_github_payload
      ∷ webhook_rejects_unknown_github_app ∷ webhook_rejects_delivery_with_missing_signature
      ∷ webhook_accepts_delivery_with_valid_signature ∷ builds_kms_alias_from_secret_key ∷ [])
    ≡ true
unfolding pass unwrapped unwrapped_err hex_digit hex_byte hex_decode example_hmac text_at names_dec
    is_not_found is_unauthorized codes text_dec ℕ_discrete dec_le lookup find? split join
    strip_prefix trim trim_end_matches is_whitespace header_text github_app key_alias_for_secret_key
    verify_signature validate_delivery is_subject_character subject_character subject_token then_get
    then_str both_named repository_name header_or_unknown subject_segments
    subject_for_github_webhook webhook check_delivery publish_to starts_with
tests_pass = refl
