-- ===== src/Helper/Runs.antt =====
-- git-credential-helper/src/main.rs: all the ways in which a run of the helper ends.
use idcat.Common.{◌≡◌, ◌⊎◌, inl, inr, refl, Option, List, [], Text, Result, ok, err}
use idcat.Helper.{HelperConfig}
use idcat.Helper.Run.{Action, get, Host, Calls, run}
use idcat.Helper.Outputs.{IsAnswer, run_printed}
use idcat.Helper.Failures.{IsFailure, run_failed}

module _ (H : Host) where
  -- A run ends in one of three ways. It prints nothing and does nothing; or it prints the credential
  -- for the repository at https://github.com that git asked about, after it read one bearer token from
  -- the configured source and posted one request with it, which the service answered with what is
  -- printed; or it was to get a credential, fails and prints nothing. A run that fails did nothing where
  -- its configuration or its input is unusable; it read the bearer token, for a repository that git asked
  -- about, where that or the address fails; and it also posted the one request where the answer is no token.
  pub run_outcome :
      (action : Action) (load : Result Text HelperConfig) (stdin : List (Option Text))
      (outcome : Result Text Text) (calls : Calls H)
      → run H action load stdin [] ≡ (outcome, calls)
      → ((outcome ≡ ok []) × (calls ≡ []))
        ⊎ ((output : Text) × (outcome ≡ ok output) × IsAnswer H action load stdin output calls)
        ⊎ ((error : Text) × (outcome ≡ err error)
            × (action ≡ get)
            × IsFailure H load stdin error calls)
  run_outcome action load stdin (ok output) calls e =
      elim (run_printed H action load stdin output calls e) [
        | inl (nothing, none_made) ↦ inl (λ i. ok (nothing i), none_made)
        | inr answer ↦ inr (inl (output, refl, answer))
      ]
  run_outcome action load stdin (err error) calls e =
      let (asked, failure) = run_failed H action load stdin error calls e in
      inr (inr (error, refl, asked, failure))
