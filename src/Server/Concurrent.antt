-- ===== src/Server/Concurrent.antt =====
-- src/main.rs with src/github.rs: requests that are answered while others wait keep what those rely on.
use mathlib.Core.List.{Memᴰ}
use idcat.Common.{◌≡◌, refl, sym, subst, text_eq, Free, List}
use idcat.Config.{GithubAppConfig}
use idcat.Service.{AppState}
use idcat.Github.Shared.{Shared}
use idcat.Github.Client.{github_api_url}
use idcat.Github.Sound.{IsSound, Grows, Grows-refl, Grows-trans}
use idcat.Github.Swap.{amid, IsSound-swap}
use idcat.Github.Rules.{IsRely}
use idcat.Platform.{Platform}
use idcat.Handlers.Configured.{is_configured}
use idcat.Handlers.Tokens.{signer_of}
use idcat.Handlers.Issue.{sign_of}
use idcat.Handlers.Webhook.{Publication}
use idcat.Server.{Router, ServerRequest, ServerState, answer}
use idcat.Server.Kept.{answer-Kept}

-- The same service, while the others do this whenever it waits.
abbrev pub during : Platform → (Shared → Shared) → Platform
during W others = record W { env = amid W.env others }

module _ (W : Platform) (router : Router) (state : AppState W.authzoo) where
  -- What may happen while a request waits: nothing, another request from its start to its end, which
  -- itself waits while such things happen, several of these in turn, or one that depends on what
  -- happened so far, so that each wait may see other requests.
  pub data IsConcurrent : (Shared → Shared) → Type 0 where
    idle : IsConcurrent (λ s. s)
    request :
        {others : Shared → Shared}
        → IsConcurrent others
        → (r : ServerRequest W.http) (published : List Publication)
        → IsConcurrent (λ s.
          (answer
            (during W others)
            router
            state
            r
            (record { shared = s; published = published })).1.shared)
    both : {f g : Shared → Shared} → IsConcurrent f → IsConcurrent g → IsConcurrent (λ s. g (f s))
    depending :
        {choose : Shared → Shared → Shared}
        → ((s : Shared) → IsConcurrent (choose s))
        → IsConcurrent (λ s. choose s s)

  pub sign_of-during :
      (others : Shared → Shared) → sign_of (during W others) state ≡ sign_of W state
  unfolding sign_of signer_of is_configured
  sign_of-during others = refl

  abbrev pub Sound : (Shared → Shared) → Shared → Type 0
  Sound others = IsSound (amid W.env others) github_api_url (sign_of W state)

  -- What a request that waits relies on, of what the others do, whatever they rely on themselves.
  record Keeps (f : Shared → Shared) : Type 0 where
    sound : (s : Shared) → Sound (λ s. s) s → Sound (λ s. s) (f s)
    grows : (s : Shared) → Sound (λ s. s) s → Grows s (f s)

  rely_of : (f : Shared → Shared) → Keeps f → IsRely (amid W.env f) github_api_url (sign_of W state)
  rely_of f h = record {
    sound = λ s sound.
        IsSound-swap W.env (λ s. s) f github_api_url (sign_of W state) (f s)
          (h.sound s (IsSound-swap W.env f (λ s. s) github_api_url (sign_of W state) s sound));
    grows = λ s sound.
        h.grows s (IsSound-swap W.env f (λ s. s) github_api_url (sign_of W state) s sound);
  }

  module _ (plain : (app : GithubAppConfig) → Memᴰ app state.github_apps → Free b'/' app.name) where
    request-Keeps :
        (others : Shared → Shared) (r : ServerRequest W.http) (s : ServerState)
        → Keeps others
        → Sound (λ s. s) s.shared
        → Sound (λ s. s) (answer (during W others) router state r s).1.shared
          × Grows s.shared (answer (during W others) router state r s).1.shared
    request-Keeps others r s h sound =
        let e = sym (sign_of-during others) in
        let rely = subst (λ f. IsRely (amid W.env others) github_api_url f) e (rely_of others h) in
        let before =
          subst (λ f. IsSound (amid W.env others) github_api_url f s.shared) e
            (IsSound-swap W.env (λ s. s) others github_api_url (sign_of W state) s.shared sound) in
        let kept = answer-Kept (during W others) state plain rely s before router r in
        (
          IsSound-swap W.env others (λ s. s) github_api_url (sign_of W state) _
              (subst
                (λ f.
                  IsSound (amid W.env others) github_api_url f
                    (answer (during W others) router state r s).1.shared)
                (sign_of-during others) kept.sound),
          kept.grows,
        )

    IsConcurrent-Keeps : {f : Shared → Shared} → IsConcurrent f → Keeps f
    IsConcurrent-Keeps idle = record { sound = λ s h. h; grows = λ s h. Grows-refl s }
    IsConcurrent-Keeps (request {others} inner r published) =
        let h = IsConcurrent-Keeps inner in
        record {
          sound = λ s sound.
              (request-Keeps others r (record { shared = s; published = published }) h sound).0;
          grows = λ s sound.
              (request-Keeps others r (record { shared = s; published = published }) h sound).1;
        }
    IsConcurrent-Keeps (both {f} {g} first second) =
        let h = IsConcurrent-Keeps first in
        let k = IsConcurrent-Keeps second in
        record {
          sound = λ s sound. k.sound (f s) (h.sound s sound);
          grows = λ s sound. Grows-trans (h.grows s sound) (k.grows (f s) (h.sound s sound));
        }
    IsConcurrent-Keeps (depending {choose} each) = record {
      sound = λ s sound. (IsConcurrent-Keeps (each s)).sound s sound;
      grows = λ s sound. (IsConcurrent-Keeps (each s)).grows s sound;
    }

    -- What other requests of the service do while one waits is what it relies on: each of them, with
    -- whatever it answers, keeps the caches sound, with ids and tokens that GitHub gave to the very apps
    -- of the service under whose names they are cached, and forgets nothing that was sent and answered. The
    -- condition: no app of the service has a slash in its name.
    pub IsConcurrent-IsRely :
        {others : Shared → Shared}
        → IsConcurrent others
        → IsRely (amid W.env others) github_api_url (sign_of W state)
    IsConcurrent-IsRely {others} h = rely_of others (IsConcurrent-Keeps h)

    pub request_kept :
        {others : Shared → Shared}
        → IsConcurrent others
        → (r : ServerRequest W.http) (s : ServerState) → Sound (λ s. s) s.shared
        → Sound (λ s. s) (answer (during W others) router state r s).1.shared
    request_kept {others} c r s sound = (request-Keeps others r s (IsConcurrent-Keeps c) sound).0
