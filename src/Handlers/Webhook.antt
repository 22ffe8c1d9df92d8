-- ===== src/Handlers/Webhook.antt =====
-- src/main.rs, the handler `webhook`: a delivery is checked and then published.
use idcat.Common.{
  ◌≡◌, ◌↔◌, refl, ap, subst, Option, some, none, List, [], ◌∷◌, ◌++◌, Text, text_eq, ℕ, Result, ok,
  err, Result-cases, inl, inr, arith,
}
use idcat.Common.Exec.{Exec, pure, lift, continue, continue-eq-ok, ◌>>=◌, ◌>>◌}
use idcat.Config.{GithubAppConfig, WebhookTarget, nats}
use idcat.AppError.{AppError}
use idcat.Service.{AppState, WebhookPublisher, github_app}
use idcat.Webhook.{validate_delivery, IsGenuine, validate_delivery_iff}
use idcat.Nats.{subject_for_github_webhook}
use idcat.Platform.{Platform}

-- A message that was handed to the broker.
pub record Publication : Type 0 where
  pub subject : Text
  pub payload : List ℕ

module _ (W : Platform) where
  unfoldable pub check_delivery :
      Option Text → W.http.HeaderMap → List ℕ → Result AppError (Unit {0})
  check_delivery none headers body = ok tt
  check_delivery (some secret_file) headers body =
      validate_delivery W.macs W.http secret_file headers body

  -- `publish_github_webhook`: the message goes to the broker, and whether it was taken is only logged.
  unfoldable pub publish_github_webhook :
      WebhookPublisher → W.http.HeaderMap → List ℕ → Exec (List Publication) AppError (Unit {0})
  publish_github_webhook publisher headers body sent = (
    ok tt,
    record {
      subject = subject_for_github_webhook W.broker W.http publisher.subject_base headers body;
      payload = body;
    }
        ∷ sent,
  )

  unfoldable pub publish_to :
      Option WebhookTarget
      → Option WebhookPublisher
      → W.http.HeaderMap
      → List ℕ
      → Exec (List Publication) AppError (Unit {0})
  unfolding publish_github_webhook
  publish_to (some nats) (some publisher) headers body =
      publish_github_webhook publisher headers body
  publish_to _ _ headers body = pure tt

  -- The handler, over the messages handed to the broker so far, the latest first; 202 is ACCEPTED.
  unfoldable pub webhook :
      AppState W.authzoo → Text → W.http.HeaderMap → List ℕ → Exec (List Publication) AppError ℕ
  unfolding publish_to check_delivery
  webhook state github_app_name headers body = do
    app ← lift (github_app W.authzoo state github_app_name)
    lift (check_delivery app.webhook_validation_secret_file headers body)
    publish_to app.webhook_target state.webhook_publisher headers body
    pure 202

  -- A delivery is trusted without a secret file, and else if it is genuine.
  abbrev pub IsTrusted : Option Text → W.http.HeaderMap → List ℕ → Type 0
  IsTrusted none headers body = Unit
  IsTrusted (some secret_file) headers body = IsGenuine W.macs W.http secret_file headers body

  -- The message that a delivery to an app becomes: one if the app's target is NATS and there is a
  -- publisher, else none.
  abbrev pub published :
      Option WebhookTarget → Option WebhookPublisher → W.http.HeaderMap → List ℕ → List Publication
  published (some nats) (some publisher) headers body =
      record {
        subject = subject_for_github_webhook W.broker W.http publisher.subject_base headers body;
        payload = body;
      }
      ∷ []
  published _ _ headers body = []

  check_delivery_iff :
      (secret : Option Text) (headers : W.http.HeaderMap) (body : List ℕ)
      → (check_delivery secret headers body ≡ ok tt) ↔ IsTrusted secret headers body
  unfolding check_delivery
  check_delivery_iff none headers body = ground arith
  check_delivery_iff (some secret_file) headers body =
      validate_delivery_iff W.macs W.http secret_file headers body

  publish_to-published :
      (target : Option WebhookTarget) (publisher : Option WebhookPublisher)
      (headers : W.http.HeaderMap) (body : List ℕ) (sent : List Publication)
      → publish_to target publisher headers body sent
        ≡ (ok tt, published target publisher headers body ++ sent)
  unfolding publish_to publish_github_webhook
  publish_to-published (some nats) (some publisher) headers body sent = refl
  publish_to-published (some nats) none headers body sent = refl
  publish_to-published none publisher headers body sent = refl

  -- The handler accepts a delivery exactly when the app is configured and the delivery is trusted, and
  -- then it has handed to the broker the one message that the delivery becomes, or none.
  pub webhook_iff :
      (state : AppState W.authzoo) (name : Text) (headers : W.http.HeaderMap) (body : List ℕ)
      (sent after : List Publication)
      → (webhook state name headers body sent ≡ (ok 202, after)) ↔ (
          (app : GithubAppConfig) × (github_app W.authzoo state name ≡ ok app)
          × IsTrusted app.webhook_validation_secret_file headers body
          × (published app.webhook_target state.webhook_publisher headers body ++ sent ≡ after))
  unfolding webhook
  webhook_iff state name headers body sent after = (to, from)
    where
      to :
          webhook state name headers body sent ≡ (ok 202, after)
          → (app : GithubAppConfig) × (github_app W.authzoo state name ≡ ok app)
            × IsTrusted app.webhook_validation_secret_file headers body
            × (published app.webhook_target state.webhook_publisher headers body ++ sent ≡ after)
      to e =
          let (app, found, e1) = continue-eq-ok _ _ sent after 202 e in
          let (_, checked, e2) = continue-eq-ok _ _ sent after 202 e1 in
          let handed =
            publish_to-published app.webhook_target state.webhook_publisher headers body sent in
          (
            app,
            found,
            (check_delivery_iff app.webhook_validation_secret_file headers body).0 checked,
            ap (λ (p : Result AppError ℕ × List Publication). p.1)
                (subst
                  (λ (r : Result AppError (Unit {0}) × List Publication).
                    continue {B = ℕ} r.0 (λ _. pure 202) r.1 ≡ (ok 202, after))
                  handed e2),
          )

      from :
          ((app : GithubAppConfig) × (github_app W.authzoo state name ≡ ok app)
            × IsTrusted app.webhook_validation_secret_file headers body
            × (published app.webhook_target state.webhook_publisher headers body ++ sent ≡ after))
          → webhook state name headers body sent ≡ (ok 202, after)
      from (app, found, trusted, same) =
          let checked =
            (check_delivery_iff app.webhook_validation_secret_file headers body).1 trusted in
          let handed =
            publish_to-published app.webhook_target state.webhook_publisher headers body sent in
          rw (found, checked, handed, same) refl

  -- A delivery that is not accepted publishes nothing.
  pub webhook_refused :
      (state : AppState W.authzoo) (name : Text) (headers : W.http.HeaderMap) (body : List ℕ)
      (sent : List Publication) (error : AppError)
      → (webhook state name headers body sent).0 ≡ err error
      → (webhook state name headers body sent).1 ≡ sent
  unfolding webhook publish_to publish_github_webhook
  webhook_refused state name headers body sent error e =
      elim (Result-cases (github_app W.authzoo state name)) [
        | inl (x, missing) ↦ rw missing refl
        | inr (app, found) ↦
            elim (Result-cases (check_delivery app.webhook_validation_secret_file headers body)) [
              | inl (x, bad) ↦ rw (found, bad) refl
              | inr (u, good) ↦
                  let handed =
                    publish_to-published app.webhook_target state.webhook_publisher headers body
                      sent in
                  absurd (cc (rw (found, good, handed) at e))
            ]
      ]
