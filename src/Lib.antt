-- ===== src/Lib.antt =====
-- A model of idcat, a service that gives callers short-lived GitHub App installation tokens, and
-- proofs of what it promises. A caller shows an OIDC bearer token. The service decides from its
-- configuration whether the token's roles and claims allow what is asked, signs a JWT as the GitHub
-- App, finds the app's installation, and asks GitHub for an installation token of the granted scope;
-- or it sends the caller's request on to GitHub with such a token. It also checks webhooks and
-- publishes them to NATS.
--
-- The parts, and the code of each by its path in the repository:
--   Common    lists, texts, maps, results and code with a state, as the Rust code uses them
--   Authzoo   the interface of the crate authzoo, which checks bearer tokens: a parameter
--   Http      the interface of header maps, of the crate http: a parameter
--   Config    src/config.rs: the configuration, `Config::validate`, its messages, the patterns, the policies
--   AppError  src/error.rs
--   Service   src/service.rs: `AppState`, `TokenValidator`, `authorize_github_app`, `authorize_owner`
--   Jwt       src/jwt.rs: `build_github_app_jwt`
--   Secret    src/secret.rs: `path_for_key`, `private_key_pem`
--   Signer    src/signer.rs, src/kms.rs, and `AppState::signer`
--   Github    src/github.rs: the caches, the lookups, `create_installation_token`, the proxy's request
--   Webhook   src/webhook.rs: `validate_delivery`
--   Nats      src/nats.rs: `subject_for_github_webhook`, `connect`
--   Platform  the parameters of the handlers, in one record
--   Handlers  src/main.rs: the handlers of the routes
--   Server    src/main.rs: the table of routes, and the service over sequences of requests
--   Startup   src/main.rs: `main`, `run`, `serve_until_termination` and `termination_signal`; a run ends
--             in the poll of the server that gives its result
--   Helper    git-credential-helper/src: the credential helper, which asks the service for git
--   KmsSignJwt  examples/kms_sign_jwt.rs, a program that shows and tries a KMS key
--   Tests     a small world in which the theorems are applied
--   UnitTests  the modules `tests` of the Rust files: the repository's own tests, run on the model
--
-- Texts are lists of code points. Fallible code returns a `Result`; of an `anyhow` error the model
-- keeps the outermost message, which is what a response shows. The client of GitHub is code over a
-- state (`Github.Shared.Shared`) that holds the two caches, what was sent and answered, also of the
-- requests that are sent on for callers, and how often the clock was read. Each await lets the other
-- requests act on that state, as an arbitrary function about which the theorems only suppose that it
-- keeps the invariant and forgets nothing; the lock is let go between a lookup and an insertion, as in
-- the code. `Server.Concurrent` instantiates that function: whatever whole requests of the service run
-- inside an await, and inside theirs, however they depend on what happened, they keep the invariant;
-- so the theorems on the service as a whole suppose nothing of the other requests but that each runs
-- from its start to its end while another waits. GitHub's answers are an arbitrary function of all
-- that went before. The signatures by which an app speaks to GitHub are `Handlers.Issue.sign_of`: that
-- of an app is made by the signer of its key, and there is none for an app that the service is not
-- configured with just so. Instants are numbers of nanoseconds, and reading the clock need not give
-- later instants.
--
-- What comes from crates or from outside is a parameter: authzoo, wildmatch, http, reqwest with its
-- parser of addresses, JSON, base64, hex, HMAC, RSA, KMS, NATS, files and clocks. What the theorems
-- rely on is stated as a record of laws (`IsLawful` of authzoo, `IsHeaderMaps` of header maps) or as a
-- hypothesis. A file has one content.
--
-- Loops are recursion on the lists over which they run, so nothing here runs out of fuel, but for
-- three: `to_decimal`, whose fuel is one more than the number, and a number has no more digits than
-- that; the chunks of a PEM text, whose fuel is the length of the text, and each chunk takes a
-- character at least; and `await`, which polls a future so many times, with the number of polls in the
-- theorem. A future is what each poll of it gives, and `select!` polls its branches in an arbitrary
-- order. The JWT's expiry is computed modulo 2 ^ 64.
--
-- Not modelled: the TOML parsers, axum's router and extractors, TLS and sockets, logging but for the
-- warnings of `Config::validate`, and the parsers of the command lines. Of the unit tests, the two of
-- the GitHub App JWT, which sign with RSA and record what is signed, and that of a missing field,
-- which TOML reports, are left out.
pub mod Common
pub mod Authzoo
pub mod Config
pub mod AppError
pub mod Service
pub mod Http
pub mod Jwt
pub mod Github
pub mod Secret
pub mod Signer
pub mod Webhook
pub mod Nats
pub mod Platform
pub mod Handlers
pub mod Server
pub mod Startup
pub mod KmsSignJwt
pub mod Tests
pub mod UnitTests
pub mod Helper
