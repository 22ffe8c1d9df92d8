-- ===== src/Config/Messages.antt =====
-- src/config.rs: the messages of the errors of a configuration.
use idcat.Common.{List, [], ◌∷◌, ◌++◌, Text, codes}
use idcat.Config.{self_access_owner_claim}
use idcat.Config.Errors
use idcat.Config.Tables.{TableError, both_forms, neither_form}

-- the parts of a message in a row
unfoldable message_of : List Text → Text
message_of [] = []
message_of (part ∷ parts) = part ++ message_of parts

-- the name of the table, and what it calls its patterns
unfoldable table_of : Errors.PolicyKind → Text
table_of Errors.installation = codes "installation-policy"
table_of Errors.owner = codes "owner-policy"

unfoldable pattern_of : Errors.PolicyKind → Text
pattern_of Errors.installation = codes "repository"
pattern_of Errors.owner = codes "owner"

unfoldable pattern_form : Errors.PolicyKind → Text
pattern_form Errors.installation = codes "repository as owner/name or a glob like 'owner/*' or '*'"
pattern_form Errors.owner =
    codes "owner as an account name or a glob like 'myorg-*' or '*', without a '/'"

-- the claim that self access adds, and what it is then constrained to
unfoldable self_access_claim_of : Errors.PolicyKind → Text
self_access_claim_of Errors.installation = codes "repository"
self_access_claim_of Errors.owner = self_access_owner_claim

unfoldable requested_of : Errors.PolicyKind → Text
requested_of Errors.installation = codes "repo"
requested_of Errors.owner = codes "owner"

unfoldable permission_rule : Errors.PolicyKind → Text
permission_rule Errors.installation = codes "must define at least one permission"
permission_rule Errors.owner =
    codes
      "must define at least one permission under [owner-policy.permissions]; an owner-wide token without narrowed permissions is what allowed-roles already grants"

-- `{table} for github-app '{}'`, and with the label, and with the role
unfoldable for_app : Errors.PolicyKind → Text → Text
unfolding table_of
for_app kind app = table_of kind ++ (codes " for github-app '" ++ (app ++ codes "' "))

unfoldable for_label : Errors.PolicyKind → Text → Text → Text
unfolding for_app pattern_of
for_label kind app label =
    for_app kind app ++ (pattern_of kind ++ (codes " '" ++ (label ++ codes "' ")))

unfoldable for_role : Errors.PolicyKind → Text → Text → Text → Text
unfolding for_label
for_role kind app label role = for_label kind app label ++ (codes "role '" ++ (role ++ codes "' "))

unfoldable policy_message : Errors.PolicyKind → Errors.PolicyError → Text
unfolding for_role message_of pattern_form self_access_claim_of requested_of permission_rule
policy_message kind Errors.empty_app = table_of kind ++ codes " github-app must not be empty"
policy_message kind (Errors.unknown_app app) =
    message_of (table_of kind ∷ codes " references unknown github-app '" ∷ app ∷ codes "'" ∷ [])
policy_message kind (Errors.no_pattern app) =
    message_of (for_app kind app ∷ codes "must define at least one " ∷ pattern_of kind ∷ [])
policy_message kind (Errors.bad_pattern app) =
    message_of (for_app kind app ∷ codes "must define " ∷ pattern_form kind ∷ [])
policy_message kind (Errors.no_role app label) =
    for_label kind app label ++ codes "must define role"
policy_message kind (Errors.no_claims app label role) =
    for_role kind app label role
    ++ codes "must define at least one required-claim (or set allow-self-access)"
policy_message kind (Errors.empty_claim app label role) =
    for_role kind app label role ++ codes "required-claim names must not be empty"
policy_message kind (Errors.duplicate_claim app label role claim) = message_of (
    for_role kind app label role
    ∷ codes "required-claim '"
    ∷ claim
    ∷ codes "' duplicates a role claim"
    ∷ [])
policy_message kind (Errors.self_access_claim app label role) = message_of (
    for_role kind app label role
    ∷ codes "sets allow-self-access; required-claims must not also define '"
    ∷ self_access_claim_of kind
    ∷ codes "' (allow-self-access already constrains it to the requested "
    ∷ requested_of kind
    ∷ codes ")"
    ∷ [])
policy_message kind (Errors.role_has_self_access_claim app label role) = message_of (
    for_role kind app label role
    ∷ codes "sets allow-self-access, but role '"
    ∷ role
    ∷ codes "' already constrains the '"
    ∷ self_access_claim_of kind
    ∷ codes "' claim"
    ∷ [])
policy_message kind (Errors.no_permissions app label role) =
    for_role kind app label role ++ permission_rule kind

unfoldable app_message : Text → Text → Text
app_message app rule = codes "github-app '" ++ (app ++ (codes "' " ++ rule))

-- `error.to_string()`. The process that panics has no message; what it prints is not an error of
-- `validate`.
unfoldable pub to_string : Errors.ConfigError → Text
unfolding policy_message app_message
to_string Errors.empty_bind_address = codes "bind-address must not be empty"
to_string Errors.empty_certificate_file = codes "tls certificate-file must not be empty"
to_string Errors.empty_private_key_file = codes "tls private-key-file must not be empty"
to_string Errors.empty_private_key_directory = codes "private-key-directory must not be empty"
to_string Errors.kms_not_built =
    codes "key-source 'kms' requires idcat to be built with the 'kms' feature"
to_string Errors.no_nats_block = codes "webhook-target 'nats' requires a [nats] config block"
to_string Errors.empty_endpoint = codes "nats endpoint must not be empty"
to_string Errors.empty_subject_base = codes "nats subject-base must not be empty"
to_string Errors.subject_base_whitespace = codes "nats subject-base must not contain whitespace"
to_string Errors.empty_token_path = codes "nats token-path must not be empty when set"
to_string Errors.no_roles = codes "at least one [[role]] entry is required"
to_string Errors.no_github_apps = codes "at least one [[github-app]] entry is required"
to_string Errors.empty_app_name = codes "github-app names must not be empty"
to_string (Errors.slash_in_app_name app) = app_message app (codes "name must not contain '/'")
to_string (Errors.zero_app_id app) = app_message app (codes "app-id must be greater than 0")
to_string (Errors.no_secret_key app) = app_message app (codes "must define secret-key")
to_string (Errors.secret_key_not_relative app) =
    app_message app (codes "secret-key must be a relative file name")
to_string (Errors.empty_webhook_secret_file app) =
    app_message app (codes "webhook-validation-secret-file must not be empty when set")
to_string (Errors.duplicate_app app) = codes "duplicate github-app '" ++ (app ++ codes "'")
to_string (Errors.empty_allowed_role app) =
    app_message app (codes "allowed-roles must not contain empty entries")
to_string (Errors.policy kind error) = policy_message kind error
to_string (Errors.unreachable_app app) =
    app_message app
      (codes "must define at least one allowed-role, installation-policy or owner-policy")
to_string (Errors.authzoo message) = message
to_string Errors.panicked = []

unfoldable forms_of : Errors.PolicyKind → Text
forms_of Errors.installation = codes "repository or repositories"
forms_of Errors.owner = codes "owner or owners"

-- The message of `de::Error::custom`, to which the TOML crate adds where in the text it is.
unfoldable pub table_message : Errors.PolicyKind → TableError → Text
unfolding table_of forms_of
table_message kind neither_form = table_of kind ++ (codes " must specify either " ++ forms_of kind)
table_message kind both_forms =
    table_of kind ++ (codes " must specify either " ++ (forms_of kind ++ codes ", not both"))
