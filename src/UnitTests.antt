-- ===== src/UnitTests.antt =====
-- The repository's own unit tests, translated: each is a Boolean that says whether all its assertions
-- hold of the model. The stubs of the tests are instances of the model's parameters.
pub mod StubGithubApi
pub mod Github
pub mod StubAuthzoo
pub mod ServiceStates
pub mod Service
pub mod ConfigFiles
pub mod Config
pub mod InstallationPolicies
pub mod OwnerPolicies
pub mod Startup
pub mod Helper
pub mod Deliveries
use idcat.Common.{Bool, true, false, ◌&&◌, List, [], ◌∷◌, Result, ok, err}

-- `result.unwrap()` and then the assertions on the value: a test that panics fails.
unfoldable pub unwrapped {ℓ κ} : {A : Type ℓ} {E : Type κ} → Result E A → (A → Bool) → Bool
unwrapped (ok a) holds = holds a
unwrapped (err e) holds = false

-- `result.unwrap_err()`
unfoldable pub unwrapped_err {ℓ κ} : {A : Type ℓ} {E : Type κ} → Result E A → (E → Bool) → Bool
unwrapped_err (ok a) holds = false
unwrapped_err (err e) holds = holds e

-- All tests of a list pass.
unfoldable pub pass : List Bool → Bool
pass [] = true
pass (test ∷ tests) = test && pass tests
