-- ===== src/AppError.antt =====
-- src/error.rs: the errors of a request and the response that each becomes.
use idcat.Common.{ℕ, Text}

pub data AppError : Type 0 where
  not_found unauthorized internal : (message : Text) → AppError

pub record ErrorResponse : Type 0 where
  pub status : ℕ
  pub error : Text

-- `to_string()`: the message alone
abbrev pub message_of : AppError → Text
message_of (not_found m) = m
message_of (unauthorized m) = m
message_of (internal m) = m

abbrev pub status_of : AppError → ℕ
status_of (not_found m) = 404
status_of (unauthorized m) = 401
status_of (internal m) = 500

-- `into_response`, less its log output
unfoldable pub into_response : AppError → ErrorResponse
into_response e = record { status = status_of e; error = message_of e }

-- `From<anyhow::Error>`: an error of the layers below is an internal one. The model keeps of an
-- `anyhow` error what `to_string()` shows, the outermost message.
abbrev pub from_anyhow : Text → AppError
from_anyhow m = internal m
