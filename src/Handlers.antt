-- ===== src/Handlers.antt =====
-- src/main.rs: the handlers of the routes.
pub mod Bearer
pub mod Tokens
pub mod Configured
pub mod Issue
pub mod Speaking
pub mod Safety
pub mod Answers
pub mod Refusals
pub mod Proxy
pub mod Addresses
pub mod Forwarded
pub mod Proxied
pub mod Kept
pub mod Webhook
