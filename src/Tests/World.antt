-- ===== src/Tests/World.antt =====
-- A small world in which the theorems are applied: one app, one role, and a GitHub that knows the app.
use idcat.Common.{
  ℕ, refl, false, Option, some, none, List, [], ◌∷◌, ◌++◌, Text, codes, text_eq, ◌==◌, Map, lookup,
  ok,
}
use idcat.Config.{GithubAppConfig, Config, local, InstallationPolicyConfig, OwnerPolicyConfig}
use idcat.Http.{HeaderMaps, IsHeaderMaps}
use idcat.Jwt.{Encoding}
use idcat.Github.{InstallationTokenResponse}
use idcat.Github.Shared.{ApiRequest, get, post_token, forward, ApiResponse, Exchange, Shared, Env}
use idcat.Github.Sound.{IsSound, Grows-refl}
use idcat.Github.Rules.{IsRely}
use idcat.Github.Client.{github_api_url}
use idcat.Signer.{Crypto}
use idcat.Webhook.{Macs}
use idcat.Nats.{Broker}
use idcat.Platform.{Platform}
use idcat.Tests.Zoo.{Role, zoo}

-- Header maps as lists of names and values, the latest first.
abbrev pub maps : HeaderMaps
maps = record {
  HeaderMap = Map Text Text;
  HeaderValue = Text;
  empty = [];
  insert = λ m n v. (n, v) ∷ m;
  get = λ m n. lookup n m;
  entries = λ m. m;
  to_str = λ v. some v;
  from_str = λ t. some t;
}

pub maps-IsHeaderMaps : IsHeaderMaps maps
unfolding lookup
maps-IsHeaderMaps = record { get-empty = λ name. refl; get-insert = λ m n name value. refl }

abbrev pub encoding : Encoding
encoding = record {
  header_json = λ h. some (1 ∷ []);
  claims_json = λ c. some (c.iat ∷ []);
  base64 = λ bytes. codes "x";
}

abbrev pub a_token : InstallationTokenResponse
a_token = record {
  token = codes "ghs";
  expires_at = codes "later";
  permissions = [];
  repository_selection = none;
}

-- GitHub knows installation 7 and gives one token.
abbrev pub answer : List Exchange → ApiRequest → Option ApiResponse
answer log (get url jwt) = some (record { status = 200; body = 7 ∷ [] })
answer log (post_token url jwt request) = some (record { status = 201; body = 1 ∷ [] })
answer log (forward method url body) = none

abbrev pub env : Env
env = record {
  respond = answer;
  clock = λ n. n;
  system_time = λ log. ok 1_000_000;
  others = λ s. s;
  is_error_status = λ status. false;
  parse_installation = λ body. some 7;
  parse_token = λ body. some a_token;
  encoding = encoding;
}

abbrev pub start : Shared
start = record {
  cache = record { installation_ids = []; installation_tokens = [] };
  log = [];
  readings = 0;
}

module _ (sign_of : GithubAppConfig → Text → Option (List ℕ)) where
  -- Nobody else uses the client.
  pub alone : IsRely env github_api_url sign_of
  alone = record { sound = λ s h. h; grows = λ s h. Grows-refl s }

  pub start-IsSound : IsSound env github_api_url sign_of start
  start-IsSound = record { ids = tt; tokens = tt }

abbrev pub crypto : Crypto
crypto = record {
  RsaPrivateKey = Text;
  from_pkcs8_pem = λ pem. some pem;
  from_pkcs1_pem = λ pem. none;
  rsa_sign = λ key message. message;
  read_to_string = λ path. ok path;
  kms_sign = λ key message. none;
}

abbrev pub macs : Macs
macs = record {
  hmac_sha256 = λ secret body. secret ++ body;
  hex_decode = λ t. some t;
  as_bytes = λ t. t;
  read_to_string = λ path. ok path;
}

abbrev pub broker : Broker
broker = record {
  Value = Unit {0};
  from_slice = λ body. none;
  get = λ value key. none;
  as_str = λ value. none;
  read_to_string = λ path. ok path;
  connect_to = λ endpoint token. ok tt;
}

abbrev pub world : Platform
world = record {
  authzoo = zoo;
  matches = λ pattern text. pattern == text;
  http = maps;
  macs = macs;
  crypto = crypto;
  broker = broker;
  env = env;
  kms_built = false;
  check_method = λ m. ok tt;
  parse_url = λ url. some url;
  upstream = λ s request. some (record { status = 200; headers = []; body = ok [] });
}

abbrev pub reader : Role
reader = record { name = codes "reader"; claims = [] }

abbrev pub an_app : GithubAppConfig
an_app = record {
  name = codes "app";
  app_id = 1;
  secret_key = codes "key";
  webhook_target = none;
  webhook_validation_secret_file = none;
  allowed_roles = [];
}

-- A token of the role may read the repository `o/r` if its claim `repository` is that.
abbrev pub a_policy : InstallationPolicyConfig zoo
a_policy = record {
  github_app = codes "app";
  repositories = codes "o/r" ∷ [];
  role = codes "reader";
  required_claims = (codes "repository", codes "o/r") ∷ [];
  allow_self_access = false;
  permissions = (codes "contents", codes "read") ∷ [];
}

abbrev pub an_owner_policy : OwnerPolicyConfig zoo
an_owner_policy = record {
  github_app = codes "app";
  owners = codes "o" ∷ [];
  role = codes "reader";
  required_claims = (codes "repository_owner", codes "o/r") ∷ [];
  allow_self_access = false;
  permissions = (codes "contents", codes "read") ∷ [];
}

abbrev pub a_config : Config zoo
a_config = record {
  bind_address = codes "0.0.0.0:8080";
  tls = none;
  key_source = local;
  private_key_directory = codes "/keys";
  nats = none;
  roles = reader ∷ [];
  github_apps = an_app ∷ [];
  installation_policies = a_policy ∷ [];
  owner_policies = an_owner_policy ∷ [];
}
