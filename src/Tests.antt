-- ===== src/Tests.antt =====
-- A small world in which the theorems are applied: one app, one role, and a GitHub that knows the app.
pub mod Zoo
pub mod World
pub mod Accepted
pub mod ServiceCases
pub mod GithubCases
pub mod HandlerCases
pub mod RouteCases
pub mod OtherCases
pub mod HelperCases
pub mod StartupCases
pub mod ServerCases
pub mod Replies
