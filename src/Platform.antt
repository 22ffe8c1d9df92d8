-- ===== src/Platform.antt =====
-- What the handlers of src/main.rs use of crates and of the outside, gathered in one record.
use idcat.Common.{ℕ, Bool, Option, List, Text, Result}
use idcat.Authzoo.{Authzoo}
use idcat.Http.{HeaderMaps}
use idcat.Signer.{Crypto}
use idcat.Webhook.{Macs}
use idcat.Nats.{Broker}
use idcat.Github.Shared.{Shared, Env}

-- A request that is sent on to GitHub, and its answer, with the body or why it cannot be read.
pub record UpstreamRequest (H : HeaderMaps) : Type 0 where
  pub method : Text
  pub url : Text
  pub headers : H.HeaderMap
  pub body : List ℕ

pub record UpstreamResponse (H : HeaderMaps) : Type 0 where
  pub status : ℕ
  pub headers : List (Text × H.HeaderValue)
  pub body : Result Text (List ℕ)

pub record Platform : Type 1 where
  pub authzoo : Authzoo
  -- the crate `wildmatch`: a pattern and a text
  pub matches : Text → Text → Bool
  pub http : HeaderMaps
  pub macs : Macs
  pub crypto : Crypto
  pub broker : Broker
  pub env : Env
  -- the crate was built with the feature `kms`
  pub kms_built : Bool
  -- `reqwest::Method::from_bytes`: whether it accepts the method
  pub check_method : Text → Result Text (Unit {0})
  -- `Url::parse` as reqwest applies it: the normalised address to which a request for a text goes
  pub parse_url : Text → Option Text
  -- GitHub's answer to a request that is sent on
  pub upstream : Shared → UpstreamRequest http → Option (UpstreamResponse http)
