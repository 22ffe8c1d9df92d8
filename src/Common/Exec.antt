-- ===== src/Common/Exec.antt =====
-- Code that changes a state and may fail. What was done before a failure stays done, so the state
-- comes back beside an error too.
use idcat.Common.Base.{◌≡◌, refl, ap, sym, ◌⊎◌, inl, inr}
use idcat.Common.Fallible.{Result, ok, err}

abbrev pub Exec {ℓ κ μ} : Type ℓ → Type κ → Type μ → Type (ℓ ⊔ κ ⊔ μ)
Exec S E A = S → Result E A × S

module _ {ℓ κ} {S : Type ℓ} {E : Type κ} where
  abbrev pub pure {μ} : {A : Type μ} → A → Exec S E A
  pure a s = (ok a, s)

  -- a computation that leaves the state alone
  abbrev pub lift {μ} : {A : Type μ} → Result E A → Exec S E A
  lift r s = (r, s)

  abbrev pub continue {μ ν} : {A : Type μ} {B : Type ν} → Result E A → (A → Exec S E B) → Exec S E B
  continue (ok a) f s = f a s
  continue (err e) f s = (err e, s)

  infixl 5 ◌>>=◌ ◌>>◌
  abbrev pub ◌>>=◌ {μ ν} : {A : Type μ} {B : Type ν} → Exec S E A → (A → Exec S E B) → Exec S E B
  ◌>>=◌ m f s = continue (m s).0 f (m s).1

  abbrev pub ◌>>◌ {μ ν} : {A : Type μ} {B : Type ν} → Exec S E A → Exec S E B → Exec S E B
  m >> k = m >>= λ _. k

  -- What a successful chain did: its first part succeeded, and the rest did from there.
  pub continue-eq-ok {μ ν} :
      {A : Type μ} {B : Type ν} (r : Result E A) (f : A → Exec S E B) (s t : S) (b : B)
      → continue r f s ≡ (ok b, t)
      → (a : A) × (r ≡ ok a) × (f a s ≡ (ok b, t))
  continue-eq-ok (ok a) f s t b h = (a, refl, h)
  continue-eq-ok {B} (err e) f s t b h =
      let e' : ◌≡◌ {A = Result E B} (err e) (ok b) = ap (λ (p : Result E B × S). p.0) h in cc

  -- What a successful chain did, where its first part may change the state.
  pub run-eq-ok {μ ν} :
      {A : Type μ} {B : Type ν} (m : Exec S E A) (f : A → Exec S E B) (s t : S) (b : B)
      → (m >>= f) s ≡ (ok b, t)
      → (a : A) × (u : S) × (m s ≡ (ok a, u)) × (f a u ≡ (ok b, t))
  run-eq-ok m f s t b h =
      let (a, e, rest) = continue-eq-ok (m s).0 f (m s).1 t b h in
      (a, (m s).1, ap (λ r. (r, (m s).1)) e, rest)

  -- What a chain that failed did: its first part failed, or the rest did after it.
  pub continue-eq-err {μ ν} :
      {A : Type μ} {B : Type ν} (r : Result E A) (f : A → Exec S E B) (s t : S) (x : E)
      → continue r f s ≡ (err x, t)
      → ((r ≡ err x) × (t ≡ s)) ⊎ ((a : A) × (r ≡ ok a) × (f a s ≡ (err x, t)))
  continue-eq-err (ok a) f s t x h = inr (a, refl, h)
  continue-eq-err {A} {B} (err e) f s t x h =
      let e' : ◌≡◌ {A = Result E B} (err e) (err x) = ap (λ (p : Result E B × S). p.0) h in
      let same : e ≡ x = cc in inl (ap (λ y. err y) same, sym (ap (λ (p : Result E B × S). p.1) h))

  pub run-eq-err {μ ν} :
      {A : Type μ} {B : Type ν} (m : Exec S E A) (f : A → Exec S E B) (s t : S) (x : E)
      → (m >>= f) s ≡ (err x, t)
      → (m s ≡ (err x, t)) ⊎ ((a : A) × (u : S) × (m s ≡ (ok a, u)) × (f a u ≡ (err x, t)))
  run-eq-err {A} m f s t x h = elim (continue-eq-err (m s).0 f (m s).1 t x h) [
    | inl (failed, same) ↦ inl (λ i. (failed i, sym same i))
    | inr (a, e, rest) ↦ inr (a, (m s).1, ap (λ r. (r, (m s).1)) e, rest)
  ]

  -- What holds before a chain and is kept by each of its parts holds after it, whatever comes of it.
  pub continue_kept {μ ν ρ} :
      {A : Type μ} {B : Type ν} (P : S → Type ρ) (r : Result E A) (f : A → Exec S E B) (s : S)
      → P s
      → ((a : A) → r ≡ ok a → P (f a s).1)
      → P (continue r f s).1
  continue_kept P (ok a) f s h keep = keep a refl
  continue_kept P (err e) f s h keep = h
