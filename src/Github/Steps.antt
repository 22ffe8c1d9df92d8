-- ===== src/Github/Steps.antt =====
-- src/github.rs: rules for the steps of the client that other requests may run between.
use mathlib.Core.List.{Memᴰ}
use idcat.Common.{
  ℕ, ◌≡◌, refl, Option, none, some, List, [], ◌∷◌, Text, ok, arith, text_eq, ◌<◌, ◌+◌,
}
use idcat.Config.{GithubAppConfig}
use idcat.Github.{GithubCache, key_eq}
use idcat.Github.Shared.{
  ApiRequest, ApiResponse, Exchange, Shared, Env, send, respond_with, lock, put_cache, read_clock,
}
use idcat.Github.Sound.{Answered, Grows, Grows-trans, IsSound, IsSound-Grows}
use idcat.Github.Rules.{IsRely, Triple, IsStable}

module _ (E : Env) (api_url : Text) (sign_of : GithubAppConfig → Text → Option (List ℕ)) where
  -- The state after a request is sent.
  sent : Shared → ApiRequest → Shared
  sent s request = record s {
    log = record { request = request; response = E.respond s.log request } ∷ s.log;
  }

  Grows-sent_only : (s : Shared) (request : ApiRequest) → Grows s (sent s request)
  unfolding sent
  Grows-sent_only s request = record {
    since = record { request = request; response = E.respond s.log request } ∷ [];
    extends = refl;
    read = omega arith;
  }

  Grows-sent :
      (s : Shared) (request : ApiRequest)
      → Grows s (E.others s)
      → Grows s (sent (E.others s) request)
  Grows-sent s request g = Grows-trans g (Grows-sent_only (E.others s) request)

  Answered-of_sent :
      (request : ApiRequest) (context : Text) (response : Option ApiResponse) (log : List Exchange)
      (a : ApiResponse)
      → respond_with E response context ≡ ok a
      → Answered (record { request = request; response = response } ∷ log) request a
  unfolding respond_with
  Answered-of_sent request context none log a e = absurd (cc)
  Answered-of_sent request context (some response) log a e = Memᴰ.head (ground arith)

  module _ (rely : IsRely E api_url sign_of) where
    module _ {P : Shared → Type 0} (stable : IsStable E api_url sign_of P) where
      -- A request that is sent is in the log with its answer.
      pub Triple-send :
          (request : ApiRequest) (context : Text)
          → Triple E api_url sign_of P
              (send E request context)
              (λ s response. Answered s.log request response × P s)
      unfolding send sent
      Triple-send request context = record {
        at = λ s h p.
            let grown = Grows-sent s request (rely.grows s h) in
            record {
              sound =
                  IsSound-Grows E api_url sign_of (Grows-sent_only (E.others s) request) refl
                    (rely.sound s h);
              grows = grown;
              result = λ a e. (
                Answered-of_sent request context (E.respond (E.others s).log request)
                    (E.others s).log a e,
                stable s _ grown p,
              );
            };
      }

      -- The lock shows a cache of a state in which the invariant holds; `P` is about that state.
      pub Triple-lock : Triple E api_url sign_of P (lock E) (λ s cache. (cache ≡ s.cache) × P s)
      unfolding lock
      Triple-lock = record {
        at = λ s h p. record {
          sound = rely.sound s h;
          grows = rely.grows s h;
          result = λ c e. (ground arith, stable s (E.others s) (rely.grows s h) p);
        };
      }

      -- The clock is read, and the reading is one of the past.
      pub Triple-clock :
          Triple E api_url sign_of P
            (read_clock E)
            (λ s now. ((n : ℕ) × (n < s.readings) × (now ≡ E.clock n)) × P s)
      unfolding read_clock
      Triple-clock = record {
        at = λ s h p.
            let g : Grows s (record s { readings = s.readings + 1 }) = record {
              since = [];
              extends = refl;
              read = omega arith;
            } in
            record {
              sound = IsSound-Grows E api_url sign_of g refl h;
              grows = g;
              result = λ now e. ((s.readings, omega arith, ground arith), stable s _ g p);
            };
      }

  -- A new cache that keeps the invariant where it is put.
  pub Triple-put :
      {P : Shared → Type 0} {Q : Shared → Unit {0} → Type 0} (cache : GithubCache)
      → ((s : Shared)
          → IsSound E api_url sign_of s
          → P s
          → IsSound E api_url sign_of (record s { cache = cache })
            × Q (record s { cache = cache }) tt)
      → Triple E api_url sign_of P (put_cache E cache) Q
  unfolding put_cache
  Triple-put cache keep = record {
    at = λ s h p.
        let (sound, q) = keep s h p in
        record {
          sound = sound;
          grows = record { since = []; extends = refl; read = omega arith };
          result = λ _ e. q;
        };
  }
