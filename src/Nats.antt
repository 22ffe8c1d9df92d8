-- ===== src/Nats.antt =====
-- src/nats.rs: where a webhook is published. The crates `async-nats` and `serde_json` and the file
-- system are parameters.
use idcat.Common.{
  ℕ, ◌≡◌, ◌≢◌, false, Bool, true, false, ◌&&◌, ◌||◌, if◌then◌else◌, Option, some, none, List, [],
  ◌∷◌, ◌++◌, Text, codes, text_eq, nat_eq, leb, ◌==◌, is_nil, trim, trim_end_matches, split,
  split-join, join, Free, All, All-map, split-append_parts, map, Result, ok, ◌>>=◌, ◌>>◌, bail_if,
  arith, refl, subst, ap, ◌∙◌,
}
use native.Mathlib.Decide.{dec_le, ℕ_discrete}
use idcat.Http.{HeaderMaps, header_text}
use idcat.Config.{NatsConfig}
use idcat.Service.{WebhookPublisher}

-- The crates and the file system.
pub record Broker : Type 1 where
  -- `serde_json::Value`, with its `from_slice`, `get` of a key, and `as_str`
  pub Value : Type 0
  pub from_slice : List ℕ → Option Value
  pub get : Value → Text → Option Value
  pub as_str : Value → Option Text
  pub read_to_string : Text → Result Text Text
  -- the outcome of a connection to an endpoint, given how the client authenticates: the outcome of
  -- its callback, if it has one
  pub connect_to : Text → Option (Result Text Text) → Result Text (Unit {0})

unfoldable pub is_subject_character : ℕ → Bool
is_subject_character c =
    leb b'a' c && leb c b'z'
    || leb b'A' c && leb c b'Z'
    || leb b'0' c && leb c b'9'
    || c == b'_'
    || c == b'-'

unfoldable pub subject_character : ℕ → ℕ
unfolding is_subject_character
subject_character c = if is_subject_character c then c else b'_'

unfoldable pub subject_token : Text → Text
unfolding subject_character
subject_token [] = codes "unknown"
subject_token (c ∷ s) = map subject_character (c ∷ s)

-- `github_header(headers, name).unwrap_or("unknown")`
unfoldable pub header_or_unknown : (H : HeaderMaps) → H.HeaderMap → Text → Text
unfolding header_text
header_or_unknown H headers name = elim (header_text H headers name) [
  | none ↦ codes "unknown"
  | some text ↦ text
]

-- `subject_for_github_webhook`, given the event and the repository
unfoldable pub subject_segments : Text → Option (Text × Text) → List Text
unfolding subject_token
subject_segments event none = subject_token event ∷ []
subject_segments event (some (owner, repo)) =
    subject_token event ∷ subject_token owner ∷ subject_token repo ∷ []

module _ (B : Broker) where
  -- What the callback of `connect_options` gives: the token, or why there is none.
  unfoldable pub auth_token : Text → Result Text Text
  auth_token token_path = do
    content ← B.read_to_string token_path
    bail_if (is_nil (trim content)) (codes "nats token file is empty")
    ok (trim content)

  -- `connect_options`
  unfoldable pub connect_options : Option Text → Option (Result Text Text)
  unfolding auth_token
  connect_options none = none
  connect_options (some token_path) = some (auth_token token_path)

  -- `WebhookPublisher::connect`
  unfoldable pub connect : NatsConfig → Result Text WebhookPublisher
  unfolding connect_options
  connect config = do
    B.connect_to config.endpoint (connect_options config.token_path)
    ok (record { subject_base = trim_end_matches config.subject_base b'.' })

  -- `.get(key)?` and `.as_str()?` after a step that may have given nothing
  unfoldable pub then_get : Option B.Value → Text → Option B.Value
  then_get none key = none
  then_get (some value) key = B.get value key

  unfoldable pub then_str : Option B.Value → Option Text
  then_str none = none
  then_str (some value) = B.as_str value

  unfoldable pub both_named : Option Text → Option Text → Option (Text × Text)
  both_named (some owner) (some repo) =
      if is_nil owner || is_nil repo then none else some (owner, repo)
  both_named _ _ = none

  unfoldable pub repository_name : List ℕ → Option (Text × Text)
  unfolding then_get then_str both_named
  repository_name body =
      let repository = then_get (B.from_slice body) (codes "repository") in
      both_named (then_str (then_get (then_get repository (codes "owner")) (codes "name")))
        (then_str (then_get repository (codes "name")))

  unfoldable pub subject_for_github_webhook : (H : HeaderMaps) → Text → H.HeaderMap → List ℕ → Text
  unfolding subject_segments repository_name header_or_unknown
  subject_for_github_webhook H subject_base headers body =
      join
        (trim_end_matches subject_base b'.'
          ∷ subject_segments (header_or_unknown H headers (codes "x-github-event"))
              (repository_name body))
        (codes ".")

-- A text that can stand for one level of a subject: not empty, and of safe characters only, so
-- neither a dot nor a wildcard.
abbrev pub IsToken : Text → Type 0
IsToken s = (s ≢ []) × All (λ c. is_subject_character c ≡ true) s

subject_character_safe : (c : ℕ) → is_subject_character (subject_character c) ≡ true
unfolding subject_character is_subject_character
subject_character_safe c = ground arith

map_safe : (s : Text) → All (λ c. is_subject_character c ≡ true) (map subject_character s)
map_safe [] = tt
map_safe (c ∷ s) = (subject_character_safe c, map_safe s)

unknown_safe : All (λ c. is_subject_character c ≡ true) (codes "unknown")
unfolding codes is_subject_character dec_le
unknown_safe = (refl, (refl, (refl, (refl, (refl, (refl, (refl, tt)))))))

-- Whatever the text, its token can stand for one level of a subject.
pub subject_token-IsToken : (value : Text) → IsToken (subject_token value)
unfolding subject_token codes
subject_token-IsToken [] = ((λ e. cc), unknown_safe)
subject_token-IsToken (c ∷ s) = ((λ e. cc), map_safe (c ∷ s))

undotted : (c : ℕ) → is_subject_character c ≡ true → c ≢ b'.'
unfolding is_subject_character dec_le ℕ_discrete
undotted c h e =
    let impossible : ◌≡◌ {A = Bool} false true = subst (λ d. is_subject_character d ≡ true) e h in
    cc

IsToken-Free : (s : Text) → IsToken s → Free b'.' s
IsToken-Free s (nonempty, safe) = All-map s undotted safe

segments-IsToken :
    (event : Text) (repository : Option (Text × Text))
    → All IsToken (subject_segments event repository)
unfolding subject_segments
segments-IsToken event none = (subject_token-IsToken event, tt)
segments-IsToken event (some (owner, repo)) =
    (subject_token-IsToken event, (subject_token-IsToken owner, (subject_token-IsToken repo, tt)))

segments-Free :
    (event : Text) (repository : Option (Text × Text))
    → All (Free b'.') (subject_segments event repository)
segments-Free event repository = All-map _ IsToken-Free (segments-IsToken event repository)

dot : codes "." ≡ b'.' ∷ []
unfolding codes
dot = refl

join_base :
    (base event : Text) (repository : Option (Text × Text))
    → split (join (base ∷ subject_segments event repository) (codes ".")) b'.'
      ≡ split base b'.' ++ subject_segments event repository
unfolding subject_segments join
join_base base event none = rw dot (
    split-append_parts base _ b'.'
    ∙ ap (λ l. split base b'.' ++ l) (split-join b'.' _ _ (segments-Free event none)))
join_base base event (some (owner, repo)) = rw dot (
    split-append_parts base _ b'.'
    ∙ ap (λ l. split base b'.' ++ l)
        (split-join b'.' _ _ (segments-Free event (some (owner, repo)))))

module _ (B : Broker) where
  -- The subject of a webhook has the levels of the base, without dots at its end, and then those of
  -- the webhook: the event's token alone, or with those of the repository's owner and name. Each of
  -- these is a token, so no header or body can add a level, a wildcard or an empty level.
  pub split-subject_for_github_webhook :
      (H : HeaderMaps) (subject_base : Text) (headers : H.HeaderMap) (body : List ℕ)
      → let event = header_or_unknown H headers (codes "x-github-event") in
        let added = subject_segments event (repository_name B body) in
        (split (subject_for_github_webhook B H subject_base headers body) b'.'
          ≡ split (trim_end_matches subject_base b'.') b'.' ++ added)
        × All IsToken added
  unfolding subject_for_github_webhook
  split-subject_for_github_webhook H subject_base headers body =
      (join_base (trim_end_matches subject_base b'.') _ _, segments-IsToken _ _)
