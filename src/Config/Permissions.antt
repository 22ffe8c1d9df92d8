-- ===== src/Config/Permissions.antt =====
-- src/github-permissions.toml, the data file of src/config.rs: the permissions that GitHub knows.
use idcat.Common.{List, [], ◌∷◌, Text, codes}

-- `KNOWN_GITHUB_PERMISSIONS`, of src/github-permissions.toml
unfoldable pub known_github_permissions : List Text
known_github_permissions =
    codes "actions"
    ∷ codes "administration"
    ∷ codes "artifact_metadata"
    ∷ codes "attestations"
    ∷ codes "checks"
    ∷ codes "code_quality"
    ∷ codes "codespaces"
    ∷ codes "contents"
    ∷ codes "dependabot_secrets"
    ∷ codes "deployments"
    ∷ codes "discussions"
    ∷ codes "environments"
    ∷ codes "interaction_limits"
    ∷ codes "issues"
    ∷ codes "merge_queues"
    ∷ codes "metadata"
    ∷ codes "packages"
    ∷ codes "pages"
    ∷ codes "pull_requests"
    ∷ codes "repository_custom_properties"
    ∷ codes "repository_hooks"
    ∷ codes "repository_projects"
    ∷ codes "secret_scanning_alerts"
    ∷ codes "secrets"
    ∷ codes "security_events"
    ∷ codes "single_file"
    ∷ codes "statuses"
    ∷ codes "vulnerability_alerts"
    ∷ codes "workflows"
    ∷ codes "custom_properties_for_organizations"
    ∷ codes "members"
    ∷ codes "organization_administration"
    ∷ codes "organization_announcement_banners"
    ∷ codes "organization_copilot_agent_settings"
    ∷ codes "organization_copilot_seat_management"
    ∷ codes "organization_custom_org_roles"
    ∷ codes "organization_custom_properties"
    ∷ codes "organization_custom_roles"
    ∷ codes "organization_events"
    ∷ codes "organization_hooks"
    ∷ codes "organization_packages"
    ∷ codes "organization_personal_access_token_requests"
    ∷ codes "organization_personal_access_tokens"
    ∷ codes "organization_plan"
    ∷ codes "organization_projects"
    ∷ codes "organization_secrets"
    ∷ codes "organization_self_hosted_runners"
    ∷ codes "organization_user_blocking"
    ∷ codes "email_addresses"
    ∷ codes "followers"
    ∷ codes "git_ssh_keys"
    ∷ codes "gpg_keys"
    ∷ codes "profile"
    ∷ codes "starring"
    ∷ codes "enterprise_custom_properties_for_organizations"
    ∷ []
