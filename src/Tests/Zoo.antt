-- ===== src/Tests/Zoo.antt =====
-- A crate `authzoo` whose tokens are their own claims, and its laws.
use mathlib.Core.List.{Memᴰ}
use idcat.Common.{
  ◌≡◌, refl, ap, sym, subst, Bool, true, false, Bool-cases, inl, inr, if◌then◌else◌, Option, some,
  none, List, [], ◌∷◌, Text, text_eq, ◌==◌, Map, lookup, lookup_All, All, Result, ok, err, arith,
}
use idcat.Authzoo.{Authzoo, IsLawful}

-- A role is its name and, for each claim, the value that it requires.
pub record Role : Type 0 where
  pub name : Text
  pub claims : Map Text Text

-- Every claim of a token has the token itself for its value.
abbrev pub meets_all : Map Text Text → Text → Bool
meets_all [] token = true
meets_all ((c, q) ∷ claims) token = if q == token then meets_all claims token else false

abbrev pub role_names : List Role → Text → List Text
role_names [] token = []
role_names (r ∷ roles) token =
    let rest = role_names roles token in if meets_all r.claims token then r.name ∷ rest else rest

abbrev pub by_name : List Role → Map Text Role
by_name [] = []
by_name (r ∷ roles) = (r.name, r) ∷ by_name roles

abbrev pub exist : List Role → List Text → Result Text (Unit {0})
exist roles [] = ok tt
exist roles (n ∷ names) = elim (lookup n (by_name roles)) [
  | none ↦ err n
  | some _ ↦ exist roles names
]

abbrev pub zoo : Authzoo
zoo = record {
  RoleConfig = Role;
  ClaimRequirement = Text;
  TokenValidator = List Role;
  equals = λ value. value;
  check = λ q role claim. ok tt;
  claims = λ r. r.claims;
  with_claims = λ r m. record r { claims = m };
  new = λ roles. ok roles;
  validate = role_names;
  roles = by_name;
  ensure_roles_exist = exist;
}

meets_all_sound :
    (claims : Map Text Text) (token : Text)
    → meets_all claims token ≡ true
    → All (λ (p : Text × Text). p.1 ≡ token) claims
meets_all_sound [] token h = tt
meets_all_sound ((c, q) ∷ claims) token h =
    (ground arith, meets_all_sound claims token (ground arith))

exist_one :
    (roles : List Role) (name : Text)
    → exist roles (name ∷ []) ≡ ok tt
    → (r : Role) × (lookup name (by_name roles) ≡ some r)
exist_one roles name h = found (lookup name (by_name roles)) refl h
  where
    found :
        (o : Option Role)
        → lookup name (by_name roles) ≡ o
        → exist roles (name ∷ []) ≡ ok tt
        → (r : Role) × (lookup name (by_name roles) ≡ some r)
    found none e h = absurd (ground arith)
    found (some r) e h = (r, e)

given_role :
    (r : Role) (v : List Role) (t name : Text)
    → ◌≡◌ {A = Result Text (List Role)} (ok (r ∷ [])) (ok v)
    → Memᴰ name (role_names v t)
    → meets_all r.claims t ≡ true
given_role r v t name made member = elim (Bool-cases (meets_all r.claims t)) [
  | inl met ↦ met
  | inr unmet ↦
      let same : v ≡ r ∷ [] = cc in
      let empty : role_names (r ∷ []) t ≡ [] = rw unmet refl in
      let nowhere =
        subst (λ l. Memᴰ name l) empty (subst (λ w. Memᴰ name (role_names w t)) same member) in
      absurd (no_member nowhere)
]
  where
    no_member : Memᴰ name [] → ⊥
    no_member m = elim m [ ]

pub zoo-IsLawful : IsLawful zoo
zoo-IsLawful = record {
  Meets = λ t c q. q ≡ t;
  claim_of = λ t c. some t;
  roles_of_exist = exist_one;
  claims-with_claims = λ r m. refl;
  validate_sound = λ r v t name made member c q found.
      lookup_All (λ (p : Text × Text). p.1 ≡ t) c q r.claims
        (meets_all_sound r.claims t (given_role r v t name made member)) found;
  Meets-equals = λ t c value e. ap some (sym e);
}
