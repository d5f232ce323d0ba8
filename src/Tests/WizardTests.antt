-- ===== src/Tests/WizardTests.antt =====
-- The wizard on Linux, where FUSE is missing.
use wormhole.SetupWizard.{
  linux, unknown, relevant_checks, Wizard, runs_checks, Backend, run_system_checks, detect_platform,
}
use wormhole.SetupWizard.Catalog.{platform_checks}
use wormhole.SetupWizard.Guide.{summary, all_passed, need_attention}
use wormhole.SetupWizard.Summary.{succeeding, failing, run_system_checks-summary}
use wormhole.SetupWizard.Checks.{runs_checks-run_system_checks}
use wormhole.Common.{◌≡◌, ◌≢◌, nat_eq, if◌then◌else◌, refl, true, false, none, some, [], ◌∷◌, map}

abbrev without_fuse : Backend
without_fuse = record { local_ips = some ("10.0.0.2" ∷ []); fuse_installed = λ id. none }

abbrev fresh : Wizard
fresh = record {
  current_step = 1;
  checks = relevant_checks linux platform_checks;
  is_running_checks = false;
  all_checks_passed = false;
}

only_network : map (λ c. c.id) (relevant_checks unknown platform_checks) ≡ "network" ∷ []
unfolding relevant_checks
only_network = refl

starts_by_itself : runs_checks fresh ≡ true
unfolding runs_checks relevant_checks
starts_by_itself = refl

on_linux : detect_platform "mozilla/5.0 (x11; linux x86_64)" ≡ linux
unfolding detect_platform
on_linux = refl

some_check : fresh.checks ≢ []
unfolding relevant_checks
some_check e = cc

-- FUSE and nothing else is missing.
run_system_checks-summary_example :
    summary (run_system_checks without_fuse fresh)
    ≡ some (
        if nat_eq (failing without_fuse fresh.checks) 0
        then all_passed (succeeding without_fuse fresh.checks)
        else need_attention (failing without_fuse fresh.checks))
run_system_checks-summary_example = run_system_checks-summary without_fuse fresh some_check

runs_checks-run_system_checks_example :
    runs_checks (record (run_system_checks without_fuse fresh) { current_step = 1 }) ≡ false
runs_checks-run_system_checks_example = runs_checks-run_system_checks without_fuse fresh 1
