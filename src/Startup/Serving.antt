-- ===== src/Startup/Serving.antt =====
-- src/main.rs: `serve_until_termination` and `termination_signal`, and the end of `run` that calls them.
-- A future is what each poll of it gives; `tokio::select!` polls its branches in an order that it picks
-- at random at each poll, and ends with the first branch that is ready.
use idcat.Common.{
  ℕ, zero, suc, ◌⊎◌, inl, inr, Bool, if◌then◌else◌, Option, none, some, Text, codes, Result, ok,
  err,
}
use idcat.Config.{TlsConfig}

abbrev pub Future : Type 0 → Type 0
Future A = ℕ → Option A

-- `.await`, over at most so many polls from the given one on
unfoldable pub await : {A : Type 0} → ℕ → ℕ → Future A → Option A
await zero poll future = none
await (suc polls) poll future =
    let later = await polls (suc poll) future in
    elim (future poll) [ some a ↦ some a | none ↦ later ]

-- What follows an `.await` without another, at one poll.
abbrev pub map_ready : {A B : Type 0} → (A → B) → Option A → Option B
map_ready f none = none
map_ready f (some a) = some (f a)

-- One poll of two branches, where `first` says whether the first branch is polled first.
unfoldable pub poll_both : {A B : Type 0} → Bool → Option A → Option B → Option (A ⊎ B)
poll_both first (some a) none = some (inl a)
poll_both first none (some b) = some (inr b)
poll_both first none none = none
poll_both first (some a) (some b) = if first then some (inl a) else some (inr b)

-- `tokio::select!` of two branches
unfoldable pub select : {A B : Type 0} → (ℕ → Bool) → Future A → Future B → Future (A ⊎ B)
unfolding poll_both
select first a b poll = poll_both (first poll) (a poll) (b poll)

-- What the process is told from outside: whether the handler of SIGTERM could be installed, when a
-- SIGTERM comes, and when `ctrl_c()` ends.
pub record Signals : Type 0 where
  pub installed : Result Text (Unit {0})
  pub sigterm : Future (Unit {0})
  pub ctrl_c : Future (Result Text (Unit {0}))
  -- the orders in which the two calls of `select!` poll
  pub server_first : ℕ → Bool
  pub sigterm_first : ℕ → Bool

unfoldable pub signal_name : Unit {0} ⊎ Result Text (Unit {0}) → Result Text Text
signal_name (inl _) = ok (codes "SIGTERM")
signal_name (inr (ok _)) = ok (codes "SIGINT")
signal_name (inr (err e)) = err e

unfoldable pub signal_after : Signals → Result Text (Unit {0}) → Future (Result Text Text)
unfolding signal_name select
signal_after S (err e) poll = some (err e)
signal_after S (ok _) poll = map_ready signal_name (select S.sigterm_first S.sigterm S.ctrl_c poll)

-- `termination_signal`, on unix
unfoldable pub termination_signal : Signals → Future (Result Text Text)
unfolding signal_after
termination_signal S = signal_after S S.installed

unfoldable pub outcome : Result Text (Unit {0}) ⊎ Result Text Text → Result Text (Unit {0})
outcome (inl result) = result
outcome (inr (ok signal)) = ok tt
outcome (inr (err e)) = err e

unfoldable pub serve_until_termination :
    Signals → Future (Result Text (Unit {0})) → Future (Result Text (Unit {0}))
unfolding outcome select termination_signal
serve_until_termination S server poll =
    map_ready outcome (select S.server_first server (termination_signal S) poll)

module _ (SocketAddr RustlsConfig : Type 0) where
  -- `RustlsConfig::from_pem_file`, and the server on an address, with or without TLS
  pub record Sockets : Type 0 where
    pub from_pem_file : TlsConfig → Result Text RustlsConfig
    pub server : SocketAddr → Option RustlsConfig → Future (Result Text (Unit {0}))

  unfoldable pub serve_tls :
      Sockets → Signals → SocketAddr → Result Text RustlsConfig → Future (Result Text (Unit {0}))
  serve_tls N S address (err e) poll =
      some (err (codes "failed to load TLS certificate and private key"))
  serve_tls N S address (ok tls) poll = serve_until_termination S (N.server address (some tls)) poll

  -- the end of `run`
  unfoldable pub listen :
      Sockets → Signals → SocketAddr → Option TlsConfig → Future (Result Text (Unit {0}))
  unfolding serve_tls
  listen N S address none = serve_until_termination S (N.server address none)
  listen N S address (some tls) = serve_tls N S address (N.from_pem_file tls)
