-- ===== src/UnitTests/StubAuthzoo.antt =====
-- src/service.rs, the module `tests`: the tokens of its tests, and what checks them. A token is written
-- as the lines `claim=value`, a claim that is an array as a line `claim[]=value` for each element; the
-- key and the expiry, which are good in all the tests, are left out.
use idcat.Common.{
  Bool, true, false, ◌&&◌, ◌||◌, if◌then◌else◌, some, none, List, [], ◌∷◌, ◌++◌, Text, codes,
  text_eq, nat_eq, ◌==◌, any, is_nil, split, join, split_once, Map, lookup, Result, ok, err,
}
use idcat.Authzoo.{Authzoo}

pub data Requirement : Type 0 where
  equals contains : Text → Requirement
  any_of : List Text → Requirement

pub record Role : Type 0 where
  pub name : Text
  pub audience : Text
  pub issuer : Text
  pub claims : Map Text Requirement

unfoldable pub line_of : Text → Text → Text
line_of claim value = claim ++ b'=' ∷ value

unfoldable pub element_of : Text → Text → Text
element_of claim value = claim ++ (codes "[]=" ++ value)

unfoldable pub has_line : Text → Text → Bool
unfolding any
has_line token line = any (λ l. l == line) (split token b'\n')

unfoldable pub meets : Text → Text → Requirement → Bool
unfolding has_line line_of element_of any
meets token claim (equals value) = has_line token (line_of claim value)
meets token claim (contains value) = has_line token (element_of claim value)
meets token claim (any_of values) = any (λ value. has_line token (line_of claim value)) values

unfoldable pub meets_all : Text → Map Text Requirement → Bool
unfolding meets
meets_all token [] = true
meets_all token ((claim, q) ∷ rest) = meets token claim q && meets_all token rest

unfoldable pub has_role : Text → Role → Bool
unfolding meets_all
has_role token role =
    meets token (codes "iss") (equals role.issuer)
    && meets token (codes "aud") (equals role.audience)
    && meets_all token role.claims

unfoldable pub role_names : List Role → Text → List Text
unfolding has_role
role_names [] token = []
role_names (role ∷ roles) token =
    let rest = role_names roles token in if has_role token role then role.name ∷ rest else rest

unfoldable pub by_name : List Role → Map Text Role
by_name [] = []
by_name (role ∷ roles) = (role.name, role) ∷ by_name roles

unfoldable pub ensure : List Role → List Text → Result Text (Unit {0})
ensure roles [] = ok tt
ensure roles (name ∷ names) = elim (lookup name (by_name roles)) [
  | none ↦ err (codes "unknown role '" ++ (name ++ codes "'"))
  | some role ↦ ensure roles names
]

abbrev pub stub_authzoo : Authzoo
stub_authzoo = record {
  RoleConfig = Role;
  ClaimRequirement = Requirement;
  TokenValidator = List Role;
  equals = equals;
  check = λ requirement role claim. ok tt;
  claims = λ role. role.claims;
  with_claims = λ role claims. record role { claims = claims };
  new = λ roles. ok roles;
  validate = role_names;
  roles = by_name;
  ensure_roles_exist = ensure;
}

-- A pattern with the wildcards `*` and `?`, as `wildmatch` reads it.
unfoldable pub from_here : (Text → Bool) → Text → Bool
from_here rest [] = rest []
from_here rest (c ∷ s) = rest (c ∷ s) || from_here rest s

unfoldable pub wild_match : Text → Text → Bool
unfolding from_here
wild_match [] s = is_nil s
wild_match (p ∷ pattern) s =
    let rest = wild_match pattern in
    if p == b'*'
    then from_here rest s
    else elim s [ [] ↦ false | c ∷ s' ↦ (p == b'?' || p == c) && rest s' ]

-- `github_workflow_role`
abbrev pub github_workflow_role : Role
github_workflow_role = record {
  name = codes "github-workflow";
  audience = codes "idcat";
  issuer = codes "https://token.actions.githubusercontent.com";
  claims = [];
}

unfoldable pub owner_part : Text → Text
owner_part repository = elim (split_once repository b'/') [
  | none ↦ repository
  | some (owner, name) ↦ owner
]

-- `github_workflow_token`
unfoldable pub github_workflow_token : Text → Text
unfolding owner_part join line_of
github_workflow_token repository =
    join
      (line_of (codes "sub") (codes "repo:myorg/gamma:ref:refs/heads/main")
        ∷ line_of (codes "aud") (codes "idcat")
        ∷ line_of (codes "iss") (codes "https://token.actions.githubusercontent.com")
        ∷ line_of (codes "repository") repository
        ∷ line_of (codes "repository_owner") (owner_part repository)
        ∷ [])
      (codes "\n")

-- `array_roles_role`
abbrev pub array_roles_role : Role
array_roles_role = record {
  name = codes "teleport";
  audience = codes "https://idcat.teleport.example";
  issuer = codes "teleport.example";
  claims = [];
}

-- `array_roles_token`, given the lines of its claim `roles`
unfoldable pub array_roles_token : List Text → Text
unfolding join line_of
array_roles_token roles =
    join
      (line_of (codes "sub") (codes "someone@example.com")
        ∷ line_of (codes "aud") (codes "https://idcat.teleport.example")
        ∷ line_of (codes "iss") (codes "teleport.example")
        ∷ roles)
      (codes "\n")
