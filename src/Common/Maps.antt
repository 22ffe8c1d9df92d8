-- ===== src/Common/Maps.antt =====
-- Rust's maps as association lists in order of insertion. Nothing the program does with a map
-- after an insertion depends on the order of its entries.
use mathlib.Core.Logic.{if_pos, if_neg}
use mathlib.Core.Path.{subst₂}
use idcat.Common.Lists.{All, Distinct}
use idcat.Common.Base.{
  sym, subst, ◌≢◌, ◌≡◌, refl, ◌≢◌, Bool, true, false, Option, none, some, List, [], ◌∷◌,
  if◌then◌else◌, arith, subst, Eq, ◌==◌,
}

abbrev pub Map {ℓ κ} : Type ℓ → Type κ → Type (ℓ ⊔ κ)
Map K V = List (K × V)

module _ {ℓ κ} {K : Type ℓ} {V : Type κ} ⦃e : Eq K⦄ where
  unfoldable pub lookup : K → Map K V → Option V
  lookup key [] = none
  lookup key ((name, value) ∷ rest) = if name == key then some value else lookup key rest

  -- in the place of the entry with the key, or at the end
  unfoldable pub insert : K → V → Map K V → Map K V
  insert key value [] = (key, value) ∷ []
  insert key value ((name, old) ∷ rest) =
      if name == key then (key, value) ∷ rest else (name, old) ∷ insert key value rest

  unfoldable pub contains_key : K → Map K V → Bool
  unfolding lookup
  contains_key k m = elim (lookup k m) [ none ↦ false | some _ ↦ true ]

  -- `m.entry(k).or_insert(v)`
  unfoldable pub or_insert : K → V → Map K V → Map K V
  unfolding insert lookup
  or_insert k v m = elim (lookup k m) [ none ↦ insert k v m | some _ ↦ m ]

  -- `m.extend(entries)`
  unfoldable pub extend : Map K V → Map K V → Map K V
  unfolding insert
  extend m [] = m
  extend m ((k, v) ∷ entries) = extend (insert k v m) entries

  pub lookup-insert :
      (asked key : K) (value : V) (m : Map K V)
      → lookup asked (insert key value m) ≡ (if key == asked then some value else lookup asked m)
  unfolding lookup insert
  lookup-insert asked key value [] = refl
  lookup-insert asked key value ((name, old) ∷ rest) =
      ground (arith, lookup-insert asked key value rest)

  pub lookup-insert_self : (k : K) (v : V) (m : Map K V) → lookup k (insert k v m) ≡ some v
  lookup-insert_self k v m = ground (arith, lookup-insert k k v m)

  pub lookup-insert_ne :
      (j k : K) (v : V) (m : Map K V) → k ≢ j → lookup j (insert k v m) ≡ lookup j m
  lookup-insert_ne j k v m h = ground (arith, lookup-insert j k v m)

  pub lookup-or_insert :
      (j k : K) (v : V) (m : Map K V)
      → lookup j (or_insert k v m) ≡ (elim (lookup k m) [
        | none ↦ (if k == j then some v else lookup j m)
        | some _ ↦ lookup j m
      ])
  unfolding or_insert
  lookup-or_insert j k v m = ground (arith, lookup-insert j k v m)

module _ {ℓ κ} {K : Type ℓ} {V : Type κ} ⦃e : Eq K⦄ where
  abbrev pub keys : Map K V → List K
  keys [] = []
  keys ((k, v) ∷ m) = k ∷ keys m

  -- No key twice, as in every map of Rust.
  abbrev pub IsMap : Map K V → Type ℓ
  IsMap m = Distinct (keys m)

  pub lookup_absent : (k : K) (m : Map K V) → All (λ j. j ≢ k) (keys m) → lookup k m ≡ none
  unfolding lookup
  lookup_absent k [] h = refl
  lookup_absent k ((j, v) ∷ m) h = let ih = lookup_absent k m h.1 in ground arith

  pub lookup_All {μ} :
      (P : K × V → Type μ) (k : K) (v : V) (m : Map K V) → All P m → lookup k m ≡ some v → P (k, v)
  unfolding lookup
  lookup_All P k v [] h found = absurd (ground arith)
  lookup_All P k v ((j, w) ∷ m) h found = elim (e.dec j k) [
    | yes same ↦ let value : w ≡ v = ground arith in subst₂ (λ a b. P (a, b)) same value h.0
    | no other ↦ lookup_All P k v m h.1 (ground arith)
  ]

  pub lookup-extend :
      (c : K) (m es : Map K V)
      → IsMap es
      → lookup c (extend m es) ≡ (elim (lookup c es) [ none ↦ lookup c m | some q ↦ some q ])
  unfolding extend lookup
  lookup-extend c m [] h = refl
  lookup-extend c m ((k, v) ∷ es) h =
      ground (arith, lookup-extend c (insert k v m) es h.1, lookup-insert c k v m, absent)
    where
      absent : k ≡ c → lookup c es ≡ none
      absent same = lookup_absent c es (subst (λ d. All (λ j. j ≢ d) (keys es)) same h.0)

  keys_insert_All {μ} :
      (P : K → Type μ) (k : K) (v : V) (m : Map K V)
      → P k
      → All P (keys m)
      → All P (keys (insert k v m))
  unfolding insert
  keys_insert_All P k v [] p h = (p, tt)
  keys_insert_All P k v ((j, w) ∷ m) p h = elim (e.dec j k) [
    | yes same ↦ rw (if_pos (e.dec j k) same true false) (p, h.1)
    | no other ↦ rw (if_neg (e.dec j k) other true false) (h.0, keys_insert_All P k v m p h.1)
  ]

  pub insert-IsMap : (k : K) (v : V) (m : Map K V) → IsMap m → IsMap (insert k v m)
  unfolding insert
  insert-IsMap k v [] h = (tt, tt)
  insert-IsMap k v ((j, w) ∷ m) h = elim (e.dec j k) [
    | yes same ↦
        rw (if_pos (e.dec j k) same true false)
          (subst (λ d. All (λ i. i ≢ d) (keys m)) same h.0, h.1)
    | no other ↦
        rw (if_neg (e.dec j k) other true false)
          (keys_insert_All (λ i. i ≢ j) k v m (λ p. other (sym p)) h.0, insert-IsMap k v m h.1)
  ]

  pub insert_All {μ} :
      (P : K × V → Type μ) (k : K) (v : V) (m : Map K V) → P (k, v) → All P m → All P (insert k v m)
  unfolding insert
  insert_All P k v [] p h = (p, tt)
  insert_All P k v ((j, w) ∷ m) p h = elim (e.dec j k) [
    | yes same ↦ rw (if_pos (e.dec j k) same true false) (p, h.1)
    | no other ↦ rw (if_neg (e.dec j k) other true false) (h.0, insert_All P k v m p h.1)
  ]
