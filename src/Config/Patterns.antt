-- ===== src/Config/Patterns.antt =====
-- src/config.rs: what the patterns that `is_valid_repo_pattern` and `is_valid_owner_pattern`
-- accept look like.
use idcat.Common.{
  ◌≡◌, ◌≢◌, ◌↔◌, ◌⊎◌, inl, inr, refl, true, [], ◌∷◌, ◌++◌, Text, codes, text_eq, ◌==◌, Free,
  contains_char-Free, Free-contains_char, split_once, split_once-eq-some, split_once-append,
  Bool-cases, Option-cases, eq_of_test, arith,
}
use idcat.Config.{is_valid_repo_pattern, valid_halves, is_valid_owner_pattern}

-- A pattern of owners: some characters, none of them a slash.
abbrev pub IsOwnerPattern : Text → Type 0
IsOwnerPattern pattern = (pattern ≢ []) × Free b'/' pattern

-- A pattern of repositories: `*`, or two such parts with one slash between them.
abbrev pub IsRepoPattern : Text → Type 0
IsRepoPattern pattern =
    (pattern ≡ codes "*")
    ⊎ ((owner name : Text) × (pattern ≡ owner ++ b'/' ∷ name)
        × IsOwnerPattern owner
        × IsOwnerPattern name)

-- `is_valid_owner_pattern` accepts exactly the non-empty texts without a slash.
pub is_valid_owner_pattern_iff :
    (pattern : Text) → (is_valid_owner_pattern pattern ≡ true) ↔ IsOwnerPattern pattern
unfolding is_valid_owner_pattern
is_valid_owner_pattern_iff p = ground (arith, contains_char-Free p b'/', Free-contains_char p b'/')

valid_halves_iff :
    (h : Text × Text)
    → Free b'/' h.0
    → (valid_halves h ≡ true) ↔ (IsOwnerPattern h.0 × IsOwnerPattern h.1)
unfolding valid_halves
valid_halves_iff (owner, name) free =
    ground (arith, contains_char-Free name b'/', Free-contains_char name b'/')

IsRepoPattern-sound : (s : Text) → is_valid_repo_pattern s ≡ true → IsRepoPattern s
unfolding is_valid_repo_pattern
IsRepoPattern-sound [] h = cc
IsRepoPattern-sound (c ∷ s) h = elim (Bool-cases ((c ∷ s) == codes "*")) [
  | inl star ↦ inl (eq_of_test (c ∷ s) (codes "*") star)
  | inr other ↦ elim (Option-cases (split_once (c ∷ s) b'/')) [
    | inl uncut ↦ absurd (ground arith)
    | inr (halves, cut) ↦
        let (e, free) = split_once-eq-some (c ∷ s) b'/' halves cut in
        let (owner, name) = (valid_halves_iff halves free).0 (ground arith) in
        inr (halves.0, halves.1, e, owner, name)
  ]
]

halves_valid :
    (owner name : Text)
    → IsOwnerPattern owner
    → IsOwnerPattern name
    → is_valid_repo_pattern (owner ++ b'/' ∷ name) ≡ true
unfolding is_valid_repo_pattern
halves_valid [] name o n = absurd (o.0 refl)
halves_valid (c ∷ owner) name o n = ground (
  arith,
  split_once-append (c ∷ owner) name b'/' o.1,
  (valid_halves_iff (c ∷ owner, name) o.1).1 (o, n),
)

repo_pattern_complete : (s : Text) → IsRepoPattern s → is_valid_repo_pattern s ≡ true
unfolding is_valid_repo_pattern codes
repo_pattern_complete [] (inl e) = cc
repo_pattern_complete (c ∷ s) (inl e) = ground arith
repo_pattern_complete _ (inr (owner, name, e, o, n)) = rw e (halves_valid owner name o n)

-- `is_valid_repo_pattern` accepts exactly `*` and two non-empty parts with one slash between them.
pub is_valid_repo_pattern_iff :
    (pattern : Text) → (is_valid_repo_pattern pattern ≡ true) ↔ IsRepoPattern pattern
is_valid_repo_pattern_iff pattern = (IsRepoPattern-sound pattern, repo_pattern_complete pattern)
