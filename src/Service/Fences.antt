-- ===== src/Service/Fences.antt =====
-- src/service.rs, `validate_role_with_claims`: what the claims of a role and of a policy force on a
-- token, given what `authzoo` documents.
use idcat.Common.{
  ◌≡◌, inl, inr, refl, ◌∙◌, true, none, some, [], ◌∷◌, Text, codes, text_eq, ◌==◌, Map, IsMap,
  lookup, extend, lookup-extend, insert-IsMap, Result, ok, err, any_member, Bool-cases,
  Option-cases, arith,
}
use idcat.Authzoo.{Authzoo, IsLawful}
use idcat.Config.{InstallationPolicyConfig, OwnerPolicyConfig, self_access_owner_claim}
use idcat.Service.{
  TokenValidator, with_required, role_matches, validate_role_with_claims, claims_for_request,
  claims_for_owner_request,
}

module _ (Z : Authzoo) (L : IsLawful Z) (token : Text) where
  -- The token meets every requirement of the map.
  abbrev pub MeetsAll : Map Text Z.ClaimRequirement → Type 0
  MeetsAll m = (c : Text) (q : Z.ClaimRequirement) → lookup c m ≡ some q → L.Meets token c q

  role_matches_sound :
      (r : Z.RoleConfig) (name : Text)
      → role_matches Z (Z.new (r ∷ [])) name token ≡ true
      → MeetsAll (Z.claims r)
  unfolding role_matches
  role_matches_sound r name h = go (Z.new (r ∷ [])) refl h
    where
      go :
          (made : Result Text Z.TokenValidator)
          → Z.new (r ∷ []) ≡ made
          → role_matches Z made name token ≡ true
          → MeetsAll (Z.claims r)
      go (err _) e h = cc
      go (ok w) e h =
          let (found, m, same) = any_member (λ role. role == name) (Z.validate w token) h in
          L.validate_sound r w token found e m

  -- A role checked with more claims: the token meets these, and those of the role that they do not
  -- replace.
  pub validate_role_with_claims_sound :
      (v : TokenValidator Z) (w : Z.TokenValidator) (name : Text)
      (required : Map Text Z.ClaimRequirement)
      → v.inner ≡ some w
      → IsMap required
      → validate_role_with_claims Z v name required token ≡ true
      → (r : Z.RoleConfig) × (lookup name (Z.roles w) ≡ some r)
        × MeetsAll required
        × ((c : Text) (q : Z.ClaimRequirement)
            → lookup c required ≡ none
            → lookup c (Z.claims r) ≡ some q
            → L.Meets token c q)
  unfolding validate_role_with_claims with_required
  validate_role_with_claims_sound v w name required inner u h =
      elim (Option-cases (lookup name (Z.roles w))) [
        | inl missing ↦ absurd (ground arith)
        | inr (r, found) ↦
            let role = Z.with_claims r (extend (Z.claims r) required) in
            let all : MeetsAll (Z.claims role) = role_matches_sound role name (ground arith) in
            let claims = L.claims-with_claims r (extend (Z.claims r) required) in
            (
              r,
              found,
              λ c q e. all c q (rw claims (lookup-extend c (Z.claims r) required u ∙ (rw e))),
              λ c q e e'. all c q (rw claims (lookup-extend c (Z.claims r) required u ∙ (rw e e'))),
            )
      ]

  pub claims_for_request-IsMap :
      (p : InstallationPolicyConfig Z) (repo : Text)
      → IsMap p.required_claims
      → IsMap (claims_for_request Z p repo)
  unfolding claims_for_request
  claims_for_request-IsMap p repo u = elim (Bool-cases p.allow_self_access) [
    | inl on ↦ rw on (insert-IsMap (codes "repository") (Z.equals repo) p.required_claims u)
    | inr off ↦ rw off u
  ]

  pub claims_for_owner_request-IsMap :
      (p : OwnerPolicyConfig Z) (owner : Text)
      → IsMap p.required_claims
      → IsMap (claims_for_owner_request Z p owner)
  unfolding claims_for_owner_request
  claims_for_owner_request-IsMap p owner u = elim (Bool-cases p.allow_self_access) [
    | inl on ↦ rw on (insert-IsMap self_access_owner_claim (Z.equals owner) p.required_claims u)
    | inr off ↦ rw off u
  ]
