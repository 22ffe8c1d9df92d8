-- ===== src/Startup/Ending.antt =====
-- src/main.rs: when and why the service ends.
use idcat.Common.{
  ℕ, zero, suc, ◌+◌, ◌≤◌, ◌<◌, ◌≡◌, ◌⊎◌, inl, inr, refl, Bool, true, false, Option, none, some,
  Text, codes, Result, ok, err, arith, Option-cases, subst, ap, sym, ◌∙◌,
}
use idcat.Config.{TlsConfig}
use idcat.Startup.Serving.{
  Future, await, poll_both, map_ready, select, Signals, signal_name, signal_after,
  termination_signal, outcome, serve_until_termination, Sockets, serve_tls, listen,
}

-- What is awaited for long enough gives what its first ready poll gives.
await_ready :
    {A : Type 0} (polls poll n : ℕ) (future : Future A) (a : A)
    → future (poll + n) ≡ some a
    → n < polls
    → (m : ℕ) × (r : A) × (m ≤ poll + n) × (future m ≡ some r) × (await polls poll future ≡ some r)
unfolding await
await_ready zero poll n future a ready h = absurd (omega arith)
await_ready (suc polls) poll zero future a ready h =
    let e : poll + 0 ≡ poll = omega arith in
    let now : future poll ≡ some a = subst (λ k. future k ≡ some a) e ready in
    (poll, a, omega arith, now, rw (now, await) refl)
await_ready (suc polls) poll (suc n) future a ready h = elim (Option-cases (future poll)) [
  | inr (r, now) ↦ (poll, r, omega arith, now, rw (now, await) refl)
  | inl pending ↦
      let e : poll + suc n ≡ suc poll + n = omega arith in
      let (m, r, before, then_ready, awaited) =
        await_ready polls (suc poll) n future a (subst (λ k. future k ≡ some a) e ready)
          (omega arith) in
      (m, r, omega arith, then_ready, rw (pending, awaited, await) refl)
]

module _ {SocketAddr RustlsConfig : Type 0} (N : Sockets SocketAddr RustlsConfig) (S : Signals)
    (address : SocketAddr) where
  -- The TLS configuration of the server is the one that was loaded, if one is wanted.
  abbrev pub Loaded : Option TlsConfig → Option RustlsConfig → Type 0
  Loaded none none = Unit
  Loaded (some tls) (some config) = N.from_pem_file tls ≡ ok config
  Loaded _ _ = ⊥

  -- Why the service ends at a poll, and with what: the certificate cannot be loaded, the server ended
  -- by itself, the handler of SIGTERM cannot be installed, a signal came, or waiting for SIGINT failed.
  pub data Cause (tls : Option TlsConfig) (poll : ℕ) (r : Result Text (Unit {0})) : Type 0 where
    not_loaded :
        (config : TlsConfig) (e : Text)
        → tls ≡ some config
        → N.from_pem_file config ≡ err e
        → r ≡ err (codes "failed to load TLS certificate and private key")
        → Cause tls poll r
    server_ended :
        (config : Option RustlsConfig)
        → Loaded tls config
        → N.server address config poll ≡ some r
        → Cause tls poll r
    not_installed : (e : Text) → S.installed ≡ err e → r ≡ err e → Cause tls poll r
    sigterm : S.sigterm poll ≡ some tt → r ≡ ok tt → Cause tls poll r
    sigint : S.ctrl_c poll ≡ some (ok tt) → r ≡ ok tt → Cause tls poll r
    no_sigint : (e : Text) → S.ctrl_c poll ≡ some (err e) → r ≡ err e → Cause tls poll r

  -- Why waiting for a signal ended.
  data SignalCause (poll : ℕ) : Result Text Text → Type 0 where
    not_installed : (e : Text) → S.installed ≡ err e → SignalCause poll (err e)
    sigterm : (name : Text) → S.sigterm poll ≡ some tt → SignalCause poll (ok name)
    sigint : (name : Text) → S.ctrl_c poll ≡ some (ok tt) → SignalCause poll (ok name)
    no_sigint : (e : Text) → S.ctrl_c poll ≡ some (err e) → SignalCause poll (err e)

  -- One of two branches that are polled was ready, and one ready branch is enough.
  select_cases :
      {A B : Type 0} (first : ℕ → Bool) (a : Future A) (b : Future B) (n : ℕ) (which : A ⊎ B)
      → select first a b n ≡ some which
      → ((x : A) × (a n ≡ some x) × (which ≡ inl x)) ⊎ ((y : B) × (b n ≡ some y) × (which ≡ inr y))
  unfolding select
  select_cases {A} {B} first a b n which = polled (first n) (a n) (b n)
    where
      polled :
          (f : Bool) (o : Option A) (p : Option B)
          → poll_both f o p ≡ some which
          → ((x : A) × (o ≡ some x) × (which ≡ inl x)) ⊎ ((y : B) × (p ≡ some y) × (which ≡ inr y))
      polled f (some x) none e = inl (x, refl, cc)
      polled f none (some y) e = inr (y, refl, cc)
      polled f none none e = absurd (ground arith)
      polled true (some x) (some y) e = inl (x, refl, cc)
      polled false (some x) (some y) e = inr (y, refl, cc)

  select_ready :
      {A B : Type 0} (first : ℕ → Bool) (a : Future A) (b : Future B) (n : ℕ)
      → ((x : A) × (a n ≡ some x)) ⊎ ((y : B) × (b n ≡ some y))
      → (which : A ⊎ B) × (select first a b n ≡ some which)
  unfolding select
  select_ready {A} {B} first a b n h = polled (first n) (a n) (b n) h
    where
      polled :
          (f : Bool) (o : Option A) (p : Option B)
          → ((x : A) × (o ≡ some x)) ⊎ ((y : B) × (p ≡ some y))
          → (which : A ⊎ B) × (poll_both f o p ≡ some which)
      polled f (some x) none h = (inl x, refl)
      polled f none (some y) h = (inr y, refl)
      polled f none none (inl (x, e)) = absurd (ground arith)
      polled f none none (inr (y, e)) = absurd (ground arith)
      polled true (some x) (some y) h = (inl x, refl)
      polled false (some x) (some y) h = (inr y, refl)

  map_ready-some :
      {A B : Type 0} (f : A → B) (o : Option A) (b : B)
      → map_ready f o ≡ some b
      → (a : A) × (o ≡ some a) × (b ≡ f a)
  map_ready-some f none b e = absurd (ground arith)
  map_ready-some f (some a) b e = (a, refl, cc)

  signal_ready :
      (installed : Result Text (Unit {0})) (n : ℕ)
      → S.sigterm n ≡ some tt
      → (r : Result Text Text) × (signal_after S installed n ≡ some r)
  unfolding signal_after
  signal_ready (err e) n h = (err e, refl)
  signal_ready (ok u) n h =
      let (which, e) = select_ready S.sigterm_first S.sigterm S.ctrl_c n (inl (tt, h)) in
      (signal_name which, ap (map_ready signal_name) e)

  signal_cause :
      (installed : Result Text (Unit {0})) (n : ℕ) (r : Result Text Text)
      → S.installed ≡ installed
      → signal_after S installed n ≡ some r
      → SignalCause n r
  unfolding signal_after signal_name
  signal_cause (err e) n r same h = subst (SignalCause n) (some_inj h) (not_installed e same)
    where
      some_inj : {A : Type 0} {a b : A} → ◌≡◌ {A = Option A} (some a) (some b) → a ≡ b
      some_inj e = cc
  signal_cause (ok u) n r same h =
      let (which, e, named) = map_ready-some signal_name _ r h in
      elim (select_cases S.sigterm_first S.sigterm S.ctrl_c n which e) [
        | inl (x, came, w) ↦
            let named' : r ≡ ok (codes "SIGTERM") = named ∙ ap signal_name w in
            subst (SignalCause n) (sym named') (sigterm _ came)
        | inr (ok u, came, w) ↦
            let named' : r ≡ ok (codes "SIGINT") = named ∙ ap signal_name w in
            subst (SignalCause n) (sym named') (sigint _ came)
        | inr (err e, came, w) ↦
            let named' : r ≡ err e = named ∙ ap signal_name w in
            subst (SignalCause n) (sym named') (no_sigint e came)
      ]

  serve_ready :
      (server : Future (Result Text (Unit {0}))) (n : ℕ)
      → S.sigterm n ≡ some tt
      → (r : Result Text (Unit {0})) × (serve_until_termination S server n ≡ some r)
  unfolding serve_until_termination termination_signal
  serve_ready server n h =
      let (_, ready) = signal_ready S.installed n h in
      let (which, e) =
        select_ready S.server_first server (termination_signal S) n (inr (_, ready)) in
      (outcome which, ap (map_ready outcome) e)

  of_signal :
      (tls : Option TlsConfig) (n : ℕ) (signal : Result Text Text) (r : Result Text (Unit {0}))
      → SignalCause n signal
      → r ≡ outcome (inr signal)
      → Cause tls n r
  unfolding outcome
  of_signal tls n _ r (SignalCause.not_installed e failed) same = Cause.not_installed e failed same
  of_signal tls n _ r (SignalCause.sigterm name came) same = Cause.sigterm came same
  of_signal tls n _ r (SignalCause.sigint name came) same = Cause.sigint came same
  of_signal tls n _ r (SignalCause.no_sigint e failed) same = Cause.no_sigint e failed same

  serve-Cause :
      (tls : Option TlsConfig) (config : Option RustlsConfig) (n : ℕ) (r : Result Text (Unit {0}))
      → Loaded tls config
      → serve_until_termination S (N.server address config) n ≡ some r
      → Cause tls n r
  unfolding serve_until_termination termination_signal outcome
  serve-Cause tls config n r loaded h =
      let (which, e, same) = map_ready-some outcome _ r h in
      elim (select_cases S.server_first (N.server address config) (termination_signal S) n which
        e) [
          | inl (result, ended, w) ↦
              let same' : r ≡ result = same ∙ ap outcome w in
              server_ended config loaded (ended ∙ ap some (sym same'))
          | inr (signal, ended, w) ↦
              of_signal tls n signal r (signal_cause S.installed n signal refl ended)
                (same ∙ ap outcome w)
        ]

  listen_ready :
      (tls : Option TlsConfig) (n : ℕ)
      → S.sigterm n ≡ some tt
      → (r : Result Text (Unit {0})) × (listen SocketAddr RustlsConfig N S address tls n ≡ some r)
  unfolding listen
  listen_ready none n h = serve_ready (N.server address none) n h
  listen_ready (some tls) n h = loaded (N.from_pem_file tls)
    where
      loaded :
          (config : Result Text RustlsConfig)
          → (r : Result Text (Unit {0})) × (serve_tls SocketAddr RustlsConfig N S address config n
              ≡ some r)
      loaded (err e) = (_, refl)
      loaded (ok config) = serve_ready (N.server address (some config)) n h

  listen-Cause :
      (tls : Option TlsConfig) (n : ℕ) (r : Result Text (Unit {0}))
      → listen SocketAddr RustlsConfig N S address tls n ≡ some r
      → Cause tls n r
  unfolding listen serve_tls
  listen-Cause none n r h = serve-Cause none none n r tt h
  listen-Cause (some tls) n r h = loaded (N.from_pem_file tls) refl h
    where
      loaded :
          (config : Result Text RustlsConfig)
          → N.from_pem_file tls ≡ config
          → serve_tls SocketAddr RustlsConfig N S address config n ≡ some r
          → Cause (some tls) n r
      loaded (err e) same h = not_loaded tls e refl same (cc)
      loaded (ok config) same h = serve-Cause (some tls) (some config) n r same h

  -- Once a SIGTERM comes, the service ends: it has ended by the poll that sees the signal, however the
  -- two calls of `select!` order their branches. It then ends with the result of a poll that was
  -- ready, and that has a cause: the certificate could not be loaded, the server ended by itself, the
  -- handler of SIGTERM could not be installed, SIGTERM or SIGINT came, for which the result is a success,
  -- or waiting for SIGINT failed.
  pub listen_ends :
      (tls : Option TlsConfig) (n : ℕ)
      → S.sigterm n ≡ some tt
      → (poll : ℕ) × (r : Result Text (Unit {0})) × (poll ≤ n)
        × (await (suc n) 0 (listen SocketAddr RustlsConfig N S address tls) ≡ some r)
        × (listen SocketAddr RustlsConfig N S address tls poll ≡ some r)
        × Cause tls poll r
  listen_ends tls n h =
      let (a, ready) = listen_ready tls n h in
      let future = listen SocketAddr RustlsConfig N S address tls in
      let (poll, r, early, here, awaited) =
        await_ready (suc n) 0 n future a (subst (λ k. future k ≡ some a) zero_add ready)
          (omega arith) in
      (poll, r, omega arith, awaited, here, listen-Cause tls poll r here)
    where
      zero_add : n ≡ 0 + n
      zero_add = omega arith
