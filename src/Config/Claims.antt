-- ===== src/Config/Claims.antt =====
-- src/config.rs, `Config::validate`: the checks of required claims and of self access, which the
-- two kinds of policy share, and the index of the role map, which panics on a missing role.
use idcat.Common.{
  ◌≡◌, ◌≢◌, ◌↔◌, Bool, true, false, none, some, [], Text, text_eq, Map, lookup, contains_key,
  Result, ok, err, ◌>>◌, bail_if, map_err, for_each, for_each_iff, is_nil, All, All-map, arith,
}
use idcat.Authzoo.{Authzoo}
use idcat.Config.Errors.{
  PolicyKind, empty_claim, duplicate_claim, self_access_claim, role_has_self_access_claim,
  ConfigError, policy, authzoo, panicked,
}

-- `roles()[&role]`
unfoldable pub index_role {ℓ} : {R : Type ℓ} → Text → Map Text R → Result ConfigError R
index_role role roles = elim (lookup role roles) [ none ↦ err panicked | some r ↦ ok r ]

pub map_err_iff : (r : Result Text (Unit {0})) → (map_err authzoo r ≡ ok tt) ↔ (r ≡ ok tt)
map_err_iff (ok tt) = ground arith
map_err_iff (err e) = ground arith

module _ (Z : Authzoo) (kind : PolicyKind) (app label role : Text) where
  check_claim :
      Map Text Z.ClaimRequirement → Text × Z.ClaimRequirement → Result ConfigError (Unit {0})
  check_claim role_claims (claim, requirement) = do
    bail_if (is_nil claim) (policy kind (empty_claim app label role))
    map_err authzoo (Z.check requirement role claim)
    bail_if (contains_key claim role_claims) (policy kind (duplicate_claim app label role claim))

  -- the loop over `required_claims`
  unfoldable pub check_claims :
      Map Text Z.ClaimRequirement → Map Text Z.ClaimRequirement → Result ConfigError (Unit {0})
  unfolding check_claim for_each contains_key
  check_claims role_claims required = for_each (check_claim role_claims) required

  -- `if policy.allow_self_access { … }`, for the claim that self access adds
  unfoldable pub check_self_access :
      Text
      → Bool
      → Map Text Z.ClaimRequirement
      → Map Text Z.ClaimRequirement
      → Result ConfigError (Unit {0})
  unfolding contains_key
  check_self_access claim false role_claims required = ok tt
  check_self_access claim true role_claims required = do
    bail_if (contains_key claim required) (policy kind (self_access_claim app label role))
    bail_if (contains_key claim role_claims)
        (policy kind (role_has_self_access_claim app label role))

module _ (Z : Authzoo) (role : Text) (role_claims : Map Text Z.ClaimRequirement) where
  -- A required claim that is named, whose requirement `authzoo` accepts, and which the role
  -- leaves open.
  pub record IsClaim (entry : Text × Z.ClaimRequirement) : Type 0 where
    pub named : entry.0 ≢ []
    pub checked : Z.check entry.1 role entry.0 ≡ ok tt
    pub open_in_role : contains_key entry.0 role_claims ≡ false

  -- Self access adds a claim that neither the policy nor the role constrains.
  abbrev pub IsSelfAccess : Text → Bool → Map Text Z.ClaimRequirement → Type 0
  IsSelfAccess claim false required = Unit
  IsSelfAccess claim true required =
      (contains_key claim required ≡ false) × (contains_key claim role_claims ≡ false)

  module _ (kind : PolicyKind) (app label : Text) where
    check_claim_iff :
        (entry : Text × Z.ClaimRequirement)
        → (check_claim Z kind app label role role_claims entry ≡ ok tt) ↔ IsClaim entry
    unfolding check_claim
    check_claim_iff (claim, q) =
        let (plain, mapped) = map_err_iff (Z.check q role claim) in
        (
          λ h. record {
            named = ground arith;
            checked = plain (ground arith);
            open_in_role = ground arith;
          },
          λ h. let m = mapped h.checked in ground arith,
        )

    pub check_claims_iff :
        (required : Map Text Z.ClaimRequirement)
        → (check_claims Z kind app label role role_claims required ≡ ok tt) ↔ All IsClaim required
    unfolding check_claims
    check_claims_iff required =
        let (to, from) = for_each_iff (check_claim Z kind app label role role_claims) required in
        (
          λ h. All-map required (λ e. (check_claim_iff e).0) (to h),
          λ h. from (All-map required (λ e. (check_claim_iff e).1) h),
        )

    pub check_self_access_iff :
        (claim : Text) (allow : Bool) (required : Map Text Z.ClaimRequirement)
        → (check_self_access Z kind app label role claim allow role_claims required ≡ ok tt)
          ↔ IsSelfAccess claim allow required
    unfolding check_self_access
    check_self_access_iff claim false required = ground arith
    check_self_access_iff claim true required = ground arith
