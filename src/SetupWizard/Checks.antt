-- ===== src/SetupWizard/Checks.antt =====
-- SetupWizard.tsx: what a run of the checks gives, and that it is run once.
use wormhole.SetupWizard.{
  SystemCheck, is_pending, is_passed, Wizard, every, runs_checks, Backend, perform_check, settled,
  shown_checks, last_or, all_required, run_system_checks,
}
use mathlib.Core.List.{append_assoc}
use wormhole.Common.{ℕ, ◌≡◌, refl, sym, ap, ◌∙◌, false, not, ◌||◌, List, [], ◌∷◌, ◌++◌, map, arith}

shown_checks-last :
    (backend : Backend) (done left : List SystemCheck)
    → last_or (done ++ left) (shown_checks backend done left) ≡ done ++ map (settled backend) left
unfolding shown_checks
shown_checks-last backend done [] = refl
shown_checks-last backend done (c ∷ rest) =
    ap (λ xs. last_or xs (shown_checks backend (done ++ settled backend c ∷ []) rest))
      (sym (append_assoc done (settled backend c ∷ []) rest))
    ∙ shown_checks-last backend (done ++ settled backend c ∷ []) rest
    ∙ append_assoc done (settled backend c ∷ []) (map (settled backend) rest)

settled-passed :
    (backend : Backend) (c : SystemCheck)
    → is_passed (settled backend c).status ≡ perform_check backend c.id
unfolding settled
settled-passed backend c = ground arith

settled-required : (backend : Backend) (c : SystemCheck) → (settled backend c).required ≡ c.required
unfolding settled
settled-required backend c = refl

all_required-settled :
    (backend : Backend) (checks : List SystemCheck)
    → all_required (map (settled backend) checks)
      ≡ every (λ c. not c.required || perform_check backend c.id) checks
all_required-settled backend [] = refl
all_required-settled backend (c ∷ cs) =
    ground
      (arith, settled-passed backend c, settled-required backend c, all_required-settled backend cs)

-- A run settles every check, in order, and the checks count as passed exactly if each required one
-- succeeded.
pub run_system_checks-settled :
    (backend : Backend) (w : Wizard)
    → ((run_system_checks backend w).checks ≡ map (settled backend) w.checks)
      × (((run_system_checks backend w).is_running_checks ≡ false)
          × ((run_system_checks backend w).all_checks_passed
              ≡ every (λ c. not c.required || perform_check backend c.id) w.checks))
unfolding run_system_checks
run_system_checks-settled backend w =
    let shown = shown_checks-last backend [] w.checks in
    (shown, (refl, ap all_required shown ∙ all_required-settled backend w.checks))

settled-pending :
    (backend : Backend) (c : SystemCheck) → is_pending (settled backend c).status ≡ false
unfolding settled
settled-pending backend c = ground arith

runs_checks-settled :
    (backend : Backend) (checks : List SystemCheck) (w : Wizard)
    → w.checks ≡ map (settled backend) checks
    → runs_checks w ≡ false
unfolding runs_checks
runs_checks-settled backend [] w e = rw e (ground arith)
runs_checks-settled backend (c ∷ cs) w e = rw e (ground (arith, settled-pending backend c))

-- After a run of the checks the condition of the effect that runs them is false, at whatever step
-- the wizard is.
pub runs_checks-run_system_checks :
    (backend : Backend) (w : Wizard) (step : ℕ)
    → runs_checks (record (run_system_checks backend w) { current_step = step }) ≡ false
runs_checks-run_system_checks backend w step =
    runs_checks-settled backend w.checks _ ((run_system_checks-settled backend w).0)
