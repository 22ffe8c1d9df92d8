-- ===== src/Authzoo.antt =====
-- The interface of the crate `authzoo`, which checks bearer tokens: what config.rs and service.rs
-- call of it. The crate is not part of the repository, so it is a parameter of the model.
use mathlib.Core.List.{Memᴰ}
use idcat.Common.{◌≡◌, Option, some, List, [], ◌∷◌, Text, text_eq, Map, lookup, Result, ok}

pub record Authzoo : Type 1 where
  pub RoleConfig : Type 0
  pub ClaimRequirement : Type 0
  pub TokenValidator : Type 0
  -- `ClaimRequirement::equals(value)`
  pub equals : Text → ClaimRequirement
  -- `requirement.validate(role, claim)`
  pub check : ClaimRequirement → Text → Text → Result Text (Unit {0})
  -- the field `claims` of a role, read and written
  pub claims : RoleConfig → Map Text ClaimRequirement
  pub with_claims : RoleConfig → Map Text ClaimRequirement → RoleConfig
  -- `TokenValidator::new(roles)`
  pub new : List RoleConfig → Result Text TokenValidator
  -- `validator.validate(token)`: the names of the roles that the token has
  pub validate : TokenValidator → Text → List Text
  pub roles : TokenValidator → Map Text RoleConfig
  pub ensure_roles_exist : TokenValidator → List Text → Result Text (Unit {0})

-- What the program relies on: a role that was found to exist can be read, and a token is given a
-- role only if it meets each of the role's claims.
pub record IsLawful (Z : Authzoo) : Type 1 where
  -- the token `t` meets the requirement `q` on its claim `c`
  pub Meets : (t c : Text) → Z.ClaimRequirement → Type 0
  -- the value of the claim `c` that the token `t` carries
  pub claim_of : (t c : Text) → Option Text
  pub roles_of_exist :
      (v : Z.TokenValidator) (name : Text)
      → Z.ensure_roles_exist v (name ∷ []) ≡ ok tt
      → (r : Z.RoleConfig) × (lookup name (Z.roles v) ≡ some r)
  pub claims-with_claims :
      (r : Z.RoleConfig) (m : Map Text Z.ClaimRequirement) → Z.claims (Z.with_claims r m) ≡ m
  pub validate_sound :
      (r : Z.RoleConfig) (v : Z.TokenValidator) (t name : Text)
      → Z.new (r ∷ []) ≡ ok v
      → Memᴰ name (Z.validate v t)
      → (c : Text) (q : Z.ClaimRequirement) → lookup c (Z.claims r) ≡ some q
      → Meets t c q
  pub Meets-equals : (t c value : Text) → Meets t c (Z.equals value) → claim_of t c ≡ some value
