-- ===== src/Common/Lists.antt =====
-- Loops over lists: `any`, `all`, `find`, and what they say of the members.
use mathlib.Core.List.{Memᴰ}
use idcat.Common.Base.{
  ◌≡◌, ◌≢◌, ◌↔◌, refl, ap, sym, inl, inr, Bool, true, false, ◌&&◌, ◌||◌, Option, none, some, List,
  [], ◌∷◌, ◌++◌, if◌then◌else◌, arith, ℕ, suc, Eq, ◌==◌, Bool-cases, subst, eq_of_test,
}

module _ {ℓ} {A : Type ℓ} where
  abbrev pub is_nil : List A → Bool
  is_nil [] = true
  is_nil (x ∷ xs) = false

  abbrev pub length : List A → ℕ
  length [] = 0
  length (x ∷ xs) = suc (length xs)

  unfoldable pub any : (A → Bool) → List A → Bool
  any p [] = false
  any p (x ∷ xs) = p x || any p xs

  unfoldable pub all : (A → Bool) → List A → Bool
  all p [] = true
  all p (x ∷ xs) = p x && all p xs

  unfoldable pub find? : (A → Bool) → List A → Option A
  find? p [] = none
  find? p (x ∷ xs) = if p x then some x else find? p xs

  pub any_member :
      (p : A → Bool) (xs : List A) → any p xs ≡ true → (x : A) × Memᴰ x xs × (p x ≡ true)
  unfolding any
  any_member p [] h = cc
  any_member p (x ∷ xs) h = elim (Bool-cases (p x)) [
    | inl here ↦ (x, Memᴰ.head refl, here)
    | inr other ↦ let (y, m, e) = any_member p xs (ground arith) in (y, Memᴰ.tail m, e)
  ]

  pub any_of_member :
      (p : A → Bool) {x : A} {xs : List A} → Memᴰ x xs → p x ≡ true → any p xs ≡ true
  unfolding any
  any_of_member p {x} (Memᴰ.head {x = y} e) h =
      let h' : p y ≡ true = subst (λ z. p z ≡ true) e h in ground arith
  any_of_member p (Memᴰ.tail {x = y} m) h =
      let h' = any_of_member p m h in
      elim (Bool-cases (p y)) [ inl here ↦ ground arith | inr other ↦ ground arith ]

  -- `find` gives a member that passes, and everything before it fails.
  pub find?_member :
      (p : A → Bool) (xs : List A) {x : A}
      → find? p xs ≡ some x
      → (before after : List A) × (xs ≡ before ++ x ∷ after) × (any p before ≡ false) × (p x ≡ true)
  unfolding find? any
  find?_member p [] h = cc
  find?_member p (y ∷ ys) {x} h = elim (Bool-cases (p y)) [
    | inl here ↦ ([], ys, ground arith, refl, ground arith)
    | inr other ↦
        let (before, after, split, earlier, passed) = find?_member p ys {x = x} (ground arith) in
        (y ∷ before, after, ap (λ l. y ∷ l) split, ground arith, passed)
  ]

  pub find?_first :
      (p : A → Bool) (before after : List A) (x : A)
      → any p before ≡ false
      → p x ≡ true
      → find? p (before ++ x ∷ after) ≡ some x
  unfolding find? any
  find?_first p [] after x h t = ground arith
  find?_first p (y ∷ before) after x h t = ground (arith, find?_first p before after x)

  pub find?-none : (p : A → Bool) (xs : List A) → any p xs ≡ false → find? p xs ≡ none
  unfolding find? any
  find?-none p [] h = refl
  find?-none p (x ∷ xs) h = ground (arith, find?-none p xs)

  pub any_of_none : (p : A → Bool) (xs : List A) → find? p xs ≡ none → any p xs ≡ false
  unfolding find? any
  any_of_none p [] h = refl
  any_of_none p (x ∷ xs) h = ground (arith, any_of_none p xs)

module _ {ℓ κ} {A : Type ℓ} where
  abbrev pub All : (A → Type κ) → List A → Type κ
  All P [] = Unit
  All P (x ∷ xs) = P x × All P xs

module _ {ℓ} {A : Type ℓ} (p : A → Bool) where
  pub any-false_iff : (xs : List A) → (any p xs ≡ false) ↔ All (λ x. p x ≡ false) xs
  unfolding any
  any-false_iff [] = ((λ h. tt), (λ h. refl))
  any-false_iff (x ∷ xs) =
      let (to, from) = any-false_iff xs in
      (
        (λ h. (ground arith, to (ground arith))),
        (λ h. let rest = from h.1 in let here = h.0 in ground arith),
      )

module _ {ℓ κ} {A : Type ℓ} (P : A → Type κ) where
  pub All_member : {x : A} {xs : List A} → All P xs → Memᴰ x xs → P x
  All_member h (Memᴰ.head e) = subst P (sym e) h.0
  All_member h (Memᴰ.tail m) = All_member h.1 m

  pub All-of : (xs : List A) → ((x : A) → P x) → All P xs
  All-of [] f = tt
  All-of (x ∷ xs) f = (f x, All-of xs f)

  pub All-append : (xs ys : List A) → All P xs → All P ys → All P (xs ++ ys)
  All-append [] ys _ k = k
  All-append (x ∷ xs) ys (p, h) k = (p, All-append xs ys h k)

  pub All-left : (xs ys : List A) → All P (xs ++ ys) → All P xs
  All-left [] ys h = tt
  All-left (x ∷ xs) ys (p, h) = (p, All-left xs ys h)

  pub All-right : (xs ys : List A) → All P (xs ++ ys) → All P ys
  All-right [] ys h = h
  All-right (x ∷ xs) ys (p, h) = All-right xs ys h

module _ {ℓ} {A : Type ℓ} ⦃e : Eq A⦄ where
  -- `xs.contains(&a)`
  unfoldable pub contains : List A → A → Bool
  contains [] a = false
  contains (x ∷ xs) a = x == a || contains xs a

  pub contains_member : (xs : List A) (a : A) → contains xs a ≡ true → Memᴰ a xs
  unfolding contains
  contains_member [] a h = cc
  contains_member (x ∷ xs) a h = elim (Bool-cases (x == a)) [
    | inl here ↦ Memᴰ.head (sym (eq_of_test x a here))
    | inr other ↦ Memᴰ.tail (contains_member xs a (ground arith))
  ]

  pub contains_of_member : {a : A} {xs : List A} → Memᴰ a xs → contains xs a ≡ true
  unfolding contains
  contains_of_member {a} (Memᴰ.head {x = y} p) = ground arith
  contains_of_member {a} (Memᴰ.tail {x = y} m) = let h = contains_of_member m in ground arith

module _ {ℓ} {A : Type ℓ} where
  -- No two members are equal.
  abbrev pub Distinct : List A → Type ℓ
  Distinct [] = Unit
  Distinct (x ∷ xs) = All (λ y. y ≢ x) xs × Distinct xs

module _ {ℓ κ μ} {A : Type ℓ} {P : A → Type κ} {Q : A → Type μ} where
  pub All-map : (xs : List A) → ((x : A) → P x → Q x) → All P xs → All Q xs
  All-map [] f h = tt
  All-map (x ∷ xs) f h = (f x h.0, All-map xs f h.1)

module _ {ℓ} {A : Type ℓ} ⦃e : Eq A⦄ where
  pub contains-append :
      (xs ys : List A) (a : A) → contains (xs ++ ys) a ≡ (contains xs a || contains ys a)
  unfolding contains
  contains-append [] ys a = refl
  contains-append (x ∷ xs) ys a = ground (arith, contains-append xs ys a)

  pub contains_of_All : (xs : List A) (a : A) → All (λ x. x ≢ a) xs → contains xs a ≡ false
  unfolding contains
  contains_of_All [] a h = refl
  contains_of_All (x ∷ xs) a h = ground (arith, contains_of_All xs a h.1)

  pub All-of_contains : (xs : List A) (a : A) → contains xs a ≡ false → All (λ x. x ≢ a) xs
  unfolding contains
  All-of_contains [] a h = tt
  All-of_contains (x ∷ xs) a h = (ground arith, All-of_contains xs a (ground arith))

module _ {ℓ} {A : Type ℓ} ⦃e : Eq A⦄ where
  -- To be absent from `x ∷ seen` is to be absent from `seen` and not to be `x`.
  pub All-fresh :
      (seen : List A) (x : A) (ns : List A)
      → All (λ n. contains (x ∷ seen) n ≡ false) ns
        ↔ (All (λ n. contains seen n ≡ false) ns × All (λ n. n ≢ x) ns)
  unfolding contains
  All-fresh seen x [] = ((λ h. (tt, tt)), (λ h. tt))
  All-fresh seen x (n ∷ ns) =
      let (to, from) = All-fresh seen x ns in
      (
        λ h. let (a, b) = to h.1 in ((ground arith, a), (ground arith, b)),
        λ h. (ground arith, from (h.0.1, h.1.1)),
      )

module _ {ℓ κ} {A : Type ℓ} (p : A → Bool) (P : A → Type κ)
    (test : (x : A) → (p x ≡ true) ↔ P x) where
  pub any_none : (xs : List A) → any p xs ≡ false → All (λ x. ¬ P x) xs
  unfolding any
  any_none [] h = tt
  any_none (x ∷ xs) h =
      (λ a. let e = (test x).1 a in cc (or_false (p x) (any p xs) h), any_none xs (ground arith))
    where
      or_false : (b c : Bool) → (b || c) ≡ false → b ≡ false
      or_false b c e = ground arith

  pub none_any : (xs : List A) → All (λ x. ¬ P x) xs → any p xs ≡ false
  unfolding any
  none_any [] h = refl
  none_any (x ∷ xs) h = elim (Bool-cases (p x)) [
    | inl yes' ↦ absurd (h.0 ((test x).0 yes'))
    | inr other ↦ let rest = none_any xs h.1 in ground arith
  ]

  pub any_some_iff : (xs : List A) → (any p xs ≡ true) ↔ ((x : A) × Memᴰ x xs × P x)
  any_some_iff xs = (
    λ h. let (x, m, e) = any_member p xs h in (x, m, (test x).0 e),
    λ (x, m, h). any_of_member p m ((test x).1 h),
  )

  -- `find` gives the first member with `P`.
  pub find?_iff :
      (xs : List A) (x : A)
      → (find? p xs ≡ some x) ↔ (
          (before : List A) × (after : List A) × (xs ≡ before ++ x ∷ after)
          × All (λ y. ¬ P y) before
          × P x)
  find?_iff xs x = (
    λ h.
        let (before, after, split, fails, passes) = find?_member p xs h in
        (before, after, split, any_none before fails, (test x).0 passes),
    λ (before, after, split, fails, passes).
        rw split (find?_first p before after x (none_any before fails) ((test x).1 passes)),
  )
