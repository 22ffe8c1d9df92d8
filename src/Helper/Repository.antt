-- ===== src/Helper/Repository.antt =====
-- git-credential-helper/src/credential.rs: the repository of a request.
use idcat.Common.{
  ◌≡◌, ◌≢◌, refl, ap, ◌∙◌, ◌||◌, Option, none, some, List, [], ◌∷◌, ◌++◌, Text, codes, text_eq,
  if◌then◌else◌, Map, lookup, is_nil, split, split-append, split-Free, Free, trim_start_by,
  trim_start_matches, strip_suffix, strip_suffix-append, arith, nat_eq,
}

pub record Repo : Type 0 where
  pub owner : Text
  pub name : Text

-- `filter(|component| !component.is_empty())`
unfoldable pub components : List Text → List Text
components [] = []
components (c ∷ rest) = let others = components rest in if is_nil c then others else c ∷ others

-- `repo.strip_suffix(".git").unwrap_or(repo)`
unfoldable pub without_git : Text → Text
without_git repo = elim (strip_suffix repo (codes ".git")) [ none ↦ repo | some name ↦ name ]

unfoldable pub repo_of_components : List Text → Option Repo
unfolding without_git
repo_of_components [] = none
repo_of_components (owner ∷ []) = none
repo_of_components (owner ∷ repo ∷ rest) =
    if is_nil owner || is_nil (without_git repo)
    then none
    else some (record { owner = owner; name = without_git repo })

unfoldable pub repo_from_path : Text → Option Repo
unfolding components repo_of_components
repo_from_path path = repo_of_components (components (split (trim_start_matches path b'/') b'/'))

unfoldable pub repo_from_credential : Map Text Text → Option Repo
repo_from_credential credential = elim (lookup (codes "path") credential) [
  | none ↦ none
  | some path ↦ repo_from_path path
]

trim_kept :
    (owner rest : Text)
    → owner ≢ []
    → Free b'/' owner
    → trim_start_matches (owner ++ b'/' ∷ rest) b'/' ≡ owner ++ b'/' ∷ rest
unfolding trim_start_matches trim_start_by
trim_kept [] rest h free = absurd (h refl)
trim_kept (c ∷ owner) rest h free = let other = free.0 in ground arith

trim_slash :
    (owner rest : Text)
    → owner ≢ []
    → Free b'/' owner
    → trim_start_matches (b'/' ∷ (owner ++ b'/' ∷ rest)) b'/' ≡ owner ++ b'/' ∷ rest
unfolding trim_start_matches trim_start_by
trim_slash [] rest h free = absurd (h refl)
trim_slash (c ∷ owner) rest h free = let other = free.0 in ground arith

repo_of_two :
    (owner name : Text)
    → owner ≢ []
    → name ≢ []
    → repo_of_components (components (owner ∷ (name ++ codes ".git") ∷ []))
      ≡ some (record { owner = owner; name = name })
unfolding repo_of_components components without_git
repo_of_two [] name h h' = absurd (h refl)
repo_of_two (c ∷ owner) [] h h' = absurd (h' refl)
repo_of_two (c ∷ owner) (d ∷ name) h h' =
    ground (arith, strip_suffix-append (d ∷ name) (codes ".git"))

repo_of_parts :
    (owner name : Text)
    → owner ≢ []
    → name ≢ []
    → Free b'/' owner
    → Free b'/' (name ++ codes ".git")
    → repo_of_components (components (split (owner ++ b'/' ∷ (name ++ codes ".git")) b'/'))
      ≡ some (record { owner = owner; name = name })
repo_of_parts owner name h h' free free' =
    ap (λ parts. repo_of_components (components parts))
      (split-append owner (name ++ codes ".git") b'/' free
        ∙ ap (λ l. owner ∷ l) (split-Free (name ++ codes ".git") b'/' free'))
    ∙ repo_of_two owner name h h'

-- The path `owner/name.git` gives the repository of that owner and name, where neither is empty or
-- has a slash, also behind a slash at the start.
pub repo_from_path_git :
    (owner name : Text)
    → owner ≢ []
    → name ≢ []
    → Free b'/' owner
    → Free b'/' (name ++ codes ".git")
    → (repo_from_path (owner ++ b'/' ∷ (name ++ codes ".git"))
        ≡ some (record { owner = owner; name = name }))
      × (repo_from_path (b'/' ∷ (owner ++ b'/' ∷ (name ++ codes ".git")))
          ≡ some (record { owner = owner; name = name }))
unfolding repo_from_path
repo_from_path_git owner name h h' free free' =
    let parts = repo_of_parts owner name h h' free free' in
    (
      ap (λ s. repo_of_components (components (split s b'/')))
            (trim_kept owner (name ++ codes ".git") h free)
          ∙ parts,
      ap (λ s. repo_of_components (components (split s b'/')))
            (trim_slash owner (name ++ codes ".git") h free)
          ∙ parts,
    )
