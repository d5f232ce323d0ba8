-- ===== src/SetupWizard/Summary.antt =====
-- SetupWizard.tsx: what the summary says after a run of the checks.
use wormhole.SetupWizard.{
  SystemCheck, Wizard, Backend, perform_check, settled, every, is_passed, is_pending,
  run_system_checks,
}
use wormhole.SetupWizard.Checks.{run_system_checks-settled}
use wormhole.SetupWizard.Guide.{is_failed, all_passed, need_attention, summary}
use wormhole.Common.{
  ℕ, ◌≡◌, ◌≢◌, refl, true, not, ◌&&◌, ◌||◌, some, List, [], ◌∷◌, map, nat_eq, length, filter, any,
  if◌then◌else◌, arith,
}

module _ (backend : Backend) where
  -- The checks that succeed, and the required ones that do not.
  abbrev pub succeeding : List SystemCheck → ℕ
  succeeding checks = length (filter (λ c. perform_check backend c.id) checks)

  abbrev pub failing : List SystemCheck → ℕ
  failing checks = length (filter (λ c. c.required && not (perform_check backend c.id)) checks)

  passed_count :
      (checks : List SystemCheck)
      → length (filter (λ c. is_passed c.status) (map (settled backend) checks)) ≡ succeeding checks
  unfolding settled
  passed_count [] = refl
  passed_count (c ∷ cs) = ground (arith, passed_count cs)

  failed_count :
      (checks : List SystemCheck)
      → length (filter (λ c. is_failed c.status) (map (settled backend) checks)) ≡ failing checks
  unfolding settled
  failed_count [] = refl
  failed_count (c ∷ cs) = ground (arith, failed_count cs)

  every-failing :
      (checks : List SystemCheck)
      → every (λ c. not c.required || perform_check backend c.id) checks ≡ nat_eq (failing checks) 0
  every-failing [] = refl
  every-failing (c ∷ cs) = ground (arith, every-failing cs)

  none_pending :
      (checks : List SystemCheck)
      → checks ≢ []
      → any (λ c. not (is_pending c.status)) (map (settled backend) checks) ≡ true
  unfolding settled
  none_pending [] h = absurd (h refl)
  none_pending (c ∷ cs) h = ground arith

  -- After a run of at least one check the summary says how many checks succeeded if every required
  -- one did, and else how many of the required ones did not, which is then not 0.
  pub run_system_checks-summary :
      (w : Wizard)
      → w.checks ≢ []
      → summary (run_system_checks backend w)
        ≡ some (
            if nat_eq (failing w.checks) 0
            then all_passed (succeeding w.checks)
            else need_attention (failing w.checks))
  unfolding summary
  run_system_checks-summary w there =
      let (checks, (idle, all)) = run_system_checks-settled backend w in
      rw
        (
          idle,
          all,
          checks,
          none_pending w.checks there,
          passed_count w.checks,
          failed_count w.checks,
          every-failing w.checks,
        )
        refl
