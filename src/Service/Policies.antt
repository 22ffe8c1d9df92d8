-- ===== src/Service/Policies.antt =====
-- src/service.rs with src/config.rs: what a request must bring to be admitted by a policy of a
-- configuration that was accepted.
use idcat.Common.{
  ◌≡◌, inl, inr, sym, Bool, true, false, if◌then◌else◌, none, some, List, Text, codes, text_eq, Map,
  IsMap, lookup, insert, lookup-insert, lookup-insert_self, lookup_All, contains_key, Option-cases,
  All, arith, subst,
}
use idcat.Authzoo.{Authzoo, IsLawful}
use idcat.Config.{InstallationPolicyConfig, OwnerPolicyConfig, self_access_owner_claim}
use idcat.Config.Claims.{IsClaim, IsSelfAccess}
use idcat.Config.InstallationPolicies.{IsInstallationPolicy}
use idcat.Config.OwnerPolicies.{IsOwnerPolicy}
use idcat.Service.{
  TokenValidator, validate_role_with_claims, claims_for_request, claims_for_owner_request,
}
use idcat.Service.Fences.{
  MeetsAll, validate_role_with_claims_sound, claims_for_request-IsMap,
  claims_for_owner_request-IsMap,
}

contains_key-some {ℓ} :
    {V : Type ℓ} (k : Text) (m : Map Text V) {v : V} → lookup k m ≡ some v → contains_key k m ≡ true
unfolding contains_key
contains_key-some k m e = rw (e, contains_key)

module _ (Z : Authzoo) (L : IsLawful Z) (w : Z.TokenValidator) where
  -- The token meets all that the role requires, all that the policy requires, and, where the policy
  -- has self access, its claim `claim` is the requested `value`.
  pub record IsFenced (token role : Text) (required : Map Text Z.ClaimRequirement) (allow : Bool)
      (claim value : Text) : Type 0 where
    pub role_config : Z.RoleConfig
    pub role_found : lookup role (Z.roles w) ≡ some role_config
    pub role_claims : MeetsAll Z L token (Z.claims role_config)
    pub policy_claims : MeetsAll Z L token required
    pub self_access : allow ≡ true → L.claim_of token claim ≡ some value

  with_self : Text → Text → Map Text Z.ClaimRequirement → Bool → Map Text Z.ClaimRequirement
  with_self claim value required allow =
      if allow then insert claim (Z.equals value) required else required

  module _ (claim value role : Text) (required : Map Text Z.ClaimRequirement) (r : Z.RoleConfig)
      (claims : All (IsClaim Z role (Z.claims r)) required) where
    with_self_keeps :
        (allow : Bool)
        → IsSelfAccess Z role (Z.claims r) claim allow required
        → (c : Text) (q : Z.ClaimRequirement) → lookup c required ≡ some q
        → lookup c (with_self claim value required allow) ≡ some q
    unfolding with_self
    with_self_keeps false self c q e = e
    with_self_keeps true self c q e =
        ground
          (arith, lookup-insert c claim (Z.equals value) required, contains_key-some c required e)

    -- A claim of the role is required by neither the policy nor self access.
    with_self_apart :
        (allow : Bool)
        → IsSelfAccess Z role (Z.claims r) claim allow required
        → (c : Text) (q : Z.ClaimRequirement) → lookup c (Z.claims r) ≡ some q
        → lookup c (with_self claim value required allow) ≡ none
    unfolding with_self
    with_self_apart allow self c q e = elim (Option-cases (lookup c required)) [
      | inl missing ↦ without allow self missing
      | inr (q', found) ↦
          let apart =
            (lookup_All (IsClaim Z role (Z.claims r)) c q' required claims found).open_in_role in
          let taken = contains_key-some c (Z.claims r) e in cc
    ]
      where
        without :
            (allow : Bool)
            → IsSelfAccess Z role (Z.claims r) claim allow required
            → lookup c required ≡ none
            → lookup c (with_self claim value required allow) ≡ none
        without false self missing = missing
        without true self missing = ground (
          arith,
          lookup-insert c claim (Z.equals value) required,
          contains_key-some c (Z.claims r) e,
        )

  self_required :
      (claim value : Text) (required : Map Text Z.ClaimRequirement) (allow : Bool)
      → allow ≡ true
      → lookup claim (with_self claim value required allow) ≡ some (Z.equals value)
  unfolding with_self
  self_required claim value required allow on =
      rw on (lookup-insert_self claim (Z.equals value) required)

  module _ (v : TokenValidator Z) (inner : v.inner ≡ some w) (token : Text) where
    fenced :
        (claim value role : Text) (required : Map Text Z.ClaimRequirement) (allow : Bool)
        (r : Z.RoleConfig)
        → lookup role (Z.roles w) ≡ some r
        → All (IsClaim Z role (Z.claims r)) required
        → IsSelfAccess Z role (Z.claims r) claim allow required
        → IsMap (with_self claim value required allow)
        → validate_role_with_claims Z v role (with_self claim value required allow) token ≡ true
        → IsFenced token role required allow claim value
    fenced claim value role required allow r found claims self u holds =
        let (r', found', all, rest) =
          validate_role_with_claims_sound Z L token v w role _ inner u holds in
        let same : r' ≡ r = cc in
        record {
          role_config = r;
          role_found = found;
          role_claims = λ c q e.
              rest c q (with_self_apart claim value role required r claims allow self c q e)
                (subst (λ x. lookup c (Z.claims x) ≡ some q) (sym same) e);
          policy_claims = λ c q e.
              all c q (with_self_keeps claim value role required r claims allow self c q e);
          self_access = λ on.
              L.Meets-equals token claim value
                (all claim (Z.equals value) (self_required claim value required allow on));
        }

    module _ (names : List Text) where
      -- An accepted installation policy fences a request for a repository.
      pub installation_policy-IsFenced :
          (p : InstallationPolicyConfig Z) (repo : Text)
          → IsInstallationPolicy Z w names p
          → IsMap p.required_claims
          → validate_role_with_claims Z v p.role (claims_for_request Z p repo) token ≡ true
          → IsFenced token p.role p.required_claims p.allow_self_access (codes "repository") repo
      unfolding claims_for_request with_self
      installation_policy-IsFenced p repo h u holds =
          fenced (codes "repository") repo p.role p.required_claims p.allow_self_access
            h.grant.role_config h.grant.role_found h.grant.claims h.grant.self_access
            (claims_for_request-IsMap Z L token p repo u) holds

      -- An accepted owner policy fences a request for an owner.
      pub owner_policy-IsFenced :
          (p : OwnerPolicyConfig Z) (owner : Text)
          → IsOwnerPolicy Z w names p
          → IsMap p.required_claims
          → validate_role_with_claims Z v p.role (claims_for_owner_request Z p owner) token ≡ true
          → IsFenced token p.role p.required_claims p.allow_self_access self_access_owner_claim
              owner
      unfolding claims_for_owner_request with_self
      owner_policy-IsFenced p owner h u holds =
          fenced self_access_owner_claim owner p.role p.required_claims p.allow_self_access
            h.grant.role_config h.grant.role_found h.grant.claims h.grant.self_access
            (claims_for_owner_request-IsMap Z L token p owner u) holds
