-- ===== src/Github/Rules.antt =====
-- src/github.rs: rules for the operations of the client that keep the invariant of the shared state,
-- while other requests keep it too.
use idcat.Common.{ℕ, ◌≡◌, refl, Option, List, Text, Result, ok, err, subst, text_eq}
use idcat.Common.Exec.{Exec, pure, lift, continue, ◌>>=◌}
use idcat.Config.{GithubAppConfig}
use idcat.Github.{key_eq}
use idcat.Github.Shared.{Shared, Env}
use idcat.Github.Sound.{Grows, Grows-refl, Grows-trans, IsSound}

module _ (E : Env) (api_url : Text) (sign_of : GithubAppConfig → Text → Option (List ℕ)) where
  -- The other requests keep the invariant, and the log and the clock only grow under them.
  pub record IsRely : Type 0 where
    pub sound : (s : Shared) → IsSound E api_url sign_of s → IsSound E api_url sign_of (E.others s)
    pub grows : (s : Shared) → IsSound E api_url sign_of s → Grows s (E.others s)

  -- What holds after a step from `s`: the invariant, and `Q` if the step succeeded.
  pub record Post {A : Type 0} (Q : Shared → A → Type 0) (s : Shared)
      (after : Result Text A × Shared) : Type 0 where
    pub sound : IsSound E api_url sign_of after.1
    pub grows : Grows s after.1
    pub result : (a : A) → after.0 ≡ ok a → Q after.1 a

  pub record Triple {A : Type 0} (P : Shared → Type 0) (m : Exec Shared Text A)
      (Q : Shared → A → Type 0) : Type 0 where
    pub at : (s : Shared) → IsSound E api_url sign_of s → P s → Post Q s (m s)

  -- `P` is kept by whatever happens meanwhile.
  abbrev pub IsStable : (Shared → Type 0) → Type 0
  IsStable P = (s t : Shared) → Grows s t → P s → P t

  pub any_state : IsStable (λ s. Unit {0})
  any_state s t g h = tt

  continue-Post :
      {A B : Type 0} {Q : Shared → A → Type 0} {R : Shared → B → Type 0}
      (f : A → Exec Shared Text B) (s : Shared) (r : Result Text A) (s' : Shared)
      → ((a : A) → Triple (λ t. Q t a) (f a) R)
      → Post Q s (r, s')
      → Post R s (continue r f s')
  continue-Post f s (ok a) s' rest p =
      let q = (rest a).at s' p.sound (p.result a refl) in
      record { sound = q.sound; grows = Grows-trans p.grows q.grows; result = q.result }
  continue-Post f s (err e) s' rest p = record {
    sound = p.sound;
    grows = p.grows;
    result = λ b h. absurd (cc);
  }

  pub Triple-bind :
      {A B : Type 0} {P : Shared → Type 0} {Q : Shared → A → Type 0} {R : Shared → B → Type 0}
      (m : Exec Shared Text A) (f : A → Exec Shared Text B)
      → Triple P m Q
      → ((a : A) → Triple (λ t. Q t a) (f a) R)
      → Triple P (m >>= f) R
  Triple-bind m f first rest = record {
    at = λ s h p. continue-Post f s (m s).0 (m s).1 rest (first.at s h p);
  }

  -- A result that needs no state.
  pub Triple-lift :
      {A : Type 0} {P : Shared → Type 0} {Q : Shared → A → Type 0} (r : Result Text A)
      → ((s : Shared) (a : A) → r ≡ ok a → P s → Q s a)
      → Triple P (lift r) Q
  Triple-lift r f = record {
    at = λ s h p. record { sound = h; grows = Grows-refl s; result = λ a e. f s a e p };
  }

  pub Triple-weaken :
      {A : Type 0} {P : Shared → Type 0} {Q R : Shared → A → Type 0} {m : Exec Shared Text A}
      → Triple P m Q
      → ((s : Shared) (a : A) → Q s a → R s a)
      → Triple P m R
  Triple-weaken {m} h f = record {
    at = λ s sound p.
        let q = h.at s sound p in
        record { sound = q.sound; grows = q.grows; result = λ a e. f (m s).1 a (q.result a e) };
  }

  pub Triple-strengthen :
      {A : Type 0} {P P' : Shared → Type 0} {Q : Shared → A → Type 0} {m : Exec Shared Text A}
      → Triple P m Q
      → ((s : Shared) → P' s → P s)
      → Triple P' m Q
  Triple-strengthen h f = record { at = λ s sound p. h.at s sound (f s p) }

  -- A step that needs no state, and what follows it if it succeeds.
  pub Triple-bind-lift :
      {A B : Type 0} {P : Shared → Type 0} {R : Shared → B → Type 0} (r : Result Text A)
      (f : A → Exec Shared Text B)
      → ((a : A) → r ≡ ok a → Triple P (f a) R)
      → Triple P (λ s. continue r f s) R
  Triple-bind-lift (ok a) f rest = rest a refl
  Triple-bind-lift (err e) f rest = record {
    at = λ s h p. record { sound = h; grows = Grows-refl s; result = λ b h. absurd (cc) };
  }

  pub Triple-pure :
      {A : Type 0} {P : Shared → Type 0} {Q : Shared → A → Type 0} (a : A)
      → ((s : Shared) → IsSound E api_url sign_of s → P s → Q s a)
      → Triple P (pure a) Q
  Triple-pure {A} {Q} a f = record {
    at = λ s h p. record {
      sound = h;
      grows = Grows-refl s;
      result = λ b e. subst (λ x. Q s x) (ok_inj a b e) (f s h p);
    };
  }
    where
      ok_inj : (a b : A) → ◌≡◌ {A = Result Text A} (ok a) (ok b) → a ≡ b
      ok_inj a b e = cc

  -- What is kept by whatever happens is kept by a step.
  pub Triple-frame :
      {A : Type 0} {P F : Shared → Type 0} {Q : Shared → A → Type 0} {m : Exec Shared Text A}
      → IsStable F
      → Triple P m Q
      → Triple (λ s. P s × F s) m (λ s a. Q s a × F s)
  Triple-frame {m} stable h = record {
    at = λ s sound p.
        let q = h.at s sound p.0 in
        record {
          sound = q.sound;
          grows = q.grows;
          result = λ a e. (q.result a e, stable s (m s).1 q.grows p.1);
        };
  }

  -- What needs no state can be taken out of what holds before.
  pub Triple-assume :
      {A H : Type 0} {P : Shared → Type 0} {Q : Shared → A → Type 0} {m : Exec Shared Text A}
      → (H → Triple P m Q)
      → Triple (λ s. H × P s) m Q
  Triple-assume f = record { at = λ s h p. (f p.0).at s h p.1 }

  -- A value that depends on the state but leaves it alone.
  pub Triple-read :
      {A : Type 0} {P : Shared → Type 0} {Q : Shared → A → Type 0} (r : Shared → Result Text A)
      → ((s : Shared) (a : A) → r s ≡ ok a → P s → Q s a)
      → Triple P (λ s. (r s, s)) Q
  Triple-read r f = record {
    at = λ s h p. record { sound = h; grows = Grows-refl s; result = λ a e. f s a e p };
  }
