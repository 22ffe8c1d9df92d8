-- ===== src/Github/Keys.antt =====
-- src/github.rs: the keys of the installation id cache.
use idcat.Common.{
  ℕ, [], ◌∷◌, arith, ◌≡◌, ◌≢◌, refl, ◌++◌, Text, codes, Free, split_once, split_once-append,
  strip_prefix, strip_prefix-append, ap, sym, ◌∙◌,
}
use mathlib.Core.Option.{some-injective}
use idcat.Github.{InstallationTarget, repository, owner, target_cache_key}
use idcat.Github.Shared.{id_cache_key}

append-cancel : (p s t : Text) → p ++ s ≡ p ++ t → s ≡ t
append-cancel p s t e =
    some-injective s t
      (sym (strip_prefix-append p s) ∙ ap (λ l. strip_prefix l p) e ∙ strip_prefix-append p t)

abbrev first : Text → ℕ
first [] = 0
first (c ∷ s) = c

kinds_apart : (s t : Text) → codes "repo:" ++ s ≢ codes "owner:" ++ t
unfolding codes
kinds_apart s t e =
    let heads : first (codes "repo:" ++ s) ≡ first (codes "owner:" ++ t) = ap first e in
    absurd (omega arith)

-- A repository and an owner never share a key, whatever they are called.
target_cache_key-injective :
    (a b : InstallationTarget) → target_cache_key a ≡ target_cache_key b → a ≡ b
unfolding target_cache_key
target_cache_key-injective (repository r) (repository s) e =
    ap repository (append-cancel (codes "repo:") r s e)
target_cache_key-injective (owner r) (owner s) e = ap owner (append-cancel (codes "owner:") r s e)
target_cache_key-injective (repository r) (owner s) e = absurd (kinds_apart r s e)
target_cache_key-injective (owner r) (repository s) e = absurd (kinds_apart s r (sym e))

-- For apps without a slash in their names, the key of the installation id cache determines the app
-- and the target: no two apps, no two repositories, no two owners, and no repository and owner
-- share an entry.
pub id_cache_key-injective :
    (app app' : Text) (a b : InstallationTarget)
    → Free b'/' app
    → Free b'/' app'
    → id_cache_key app a ≡ id_cache_key app' b
    → (app ≡ app') × (a ≡ b)
unfolding id_cache_key
id_cache_key-injective app app' a b h h' e =
    let cut = split_once-append app (target_cache_key a) b'/' h in
    let cut' = split_once-append app' (target_cache_key b) b'/' h' in
    let pair = some-injective _ _ (sym cut ∙ ap (λ l. split_once l b'/') e ∙ cut') in
    (
      ap (λ (p : Text × Text). p.0) pair,
      target_cache_key-injective a b (ap (λ (p : Text × Text). p.1) pair),
    )

-- The names need the check that a configuration makes of them: with a slash in a name, two apps
-- can share a key.
id_cache_key_collision :
    id_cache_key (codes "a") (repository (codes "x/repo:y"))
    ≡ id_cache_key (codes "a/repo:x") (repository (codes "y"))
unfolding id_cache_key target_cache_key codes
id_cache_key_collision = refl
