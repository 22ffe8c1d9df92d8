-- ===== src/Common/Fallible.antt =====
-- Rust's `Result`, with `?`, `bail!`, `map_err` and loops that may stop early.
use idcat.Common.Lists.{All}
use idcat.Common.Base.{
  ◌↔◌, ◌⊎◌, inl, inr, List, [], ◌∷◌, ◌≡◌, refl, Option, none, some, Bool, true, false, arith,
}

pub data Result {ℓ κ} (E : Type ℓ) (A : Type κ) : Type (ℓ ⊔ κ) where
  err : E → Result E A
  ok : A → Result E A

module _ {ℓ} {E : Type ℓ} where
  -- `if refused { bail!(e) }`
  abbrev pub bail_if : Bool → E → Result E (Unit {0})
  bail_if false refusal = ok tt
  bail_if true refusal = err refusal

  infixl 5 ◌>>=◌ ◌>>◌
  -- `?` on the first result
  abbrev pub ◌>>=◌ {κ μ} : {A : Type κ} → {B : Type μ} → Result E A → (A → Result E B) → Result E B
  err refusal >>= next = err refusal
  ok value >>= next = next value

  -- `ok_or_else`
  abbrev pub ok_or {κ} : {A : Type κ} → Option A → E → Result E A
  ok_or none refusal = err refusal
  ok_or (some value) refusal = ok value

  abbrev pub ◌>>◌ {κ} : {B : Type κ} → Result E (Unit {0}) → Result E B → Result E B
  check >> next = check >>= λ _. next

  pub >>=-eq-ok {κ μ} :
      {A : Type κ} {B : Type μ} (first : Result E A) (next : A → Result E B) {end : B}
      → (first >>= next) ≡ ok end
      → (value : A) × (first ≡ ok value) × (next value ≡ ok end)
  >>=-eq-ok (err refusal) next passed = cc
  >>=-eq-ok (ok value) next passed = (value, refl, passed)

-- `map_err`
abbrev pub map_err {ℓ κ μ} :
    {E : Type ℓ} {F : Type κ} {A : Type μ} → (E → F) → Result E A → Result F A
map_err f (ok a) = ok a
map_err f (err e) = err (f e)

pub map_err_ok {ℓ κ μ} :
    {E : Type ℓ} {F : Type κ} {A : Type μ} (r : Result E A) (f : E → F) (a : A)
    → map_err f r ≡ ok a
    → r ≡ ok a
map_err_ok (ok b) f a e = ground arith
map_err_ok (err x) f a e = cc

pub Result-cases {ℓ κ} :
    {E : Type ℓ} {A : Type κ} (r : Result E A) → ((e : E) × (r ≡ err e)) ⊎ ((a : A) × (r ≡ ok a))
Result-cases (ok a) = inr (a, refl)
Result-cases (err e) = inl (e, refl)

-- `for x in xs { f(x)?; }`
unfoldable pub for_each {ℓ κ} :
    {E : Type ℓ} {A : Type κ} → (A → Result E (Unit {0})) → List A → Result E (Unit {0})
for_each f [] = ok tt
for_each f (x ∷ xs) = f x >> for_each f xs

pub >>_iff {ℓ κ} :
    {E : Type ℓ} {B : Type κ} (m : Result E (Unit {0})) (k : Result E B) (b : B)
    → ((m >> k) ≡ ok b) ↔ ((m ≡ ok tt) × (k ≡ ok b))
>>_iff (ok tt) k b = (λ h. (refl, h), λ h. h.1)
>>_iff (err e) k b = (λ h. cc, λ h. cc)

-- The loop succeeds exactly when its body does on every member.
pub for_each_iff {ℓ κ} :
    {E : Type ℓ} {A : Type κ} (f : A → Result E (Unit {0})) (xs : List A)
    → (for_each f xs ≡ ok tt) ↔ All (λ x. f x ≡ ok tt) xs
unfolding for_each
for_each_iff f [] = (λ h. tt, λ h. refl)
for_each_iff f (x ∷ xs) =
    let (to, from) = >>_iff (f x) (for_each f xs) tt in
    let (to', from') = for_each_iff f xs in
    (λ h. ((to h).0, to' (to h).1), λ h. from (h.0, from' h.1))
