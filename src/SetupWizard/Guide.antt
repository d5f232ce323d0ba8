-- ===== src/SetupWizard/Guide.antt =====
-- SetupWizard.tsx: the buttons of the wizard, which commands it shows as copied and the details that it
-- shows. `took` says whether the clipboard takes a text.
use wormhole.Paths.{split_on}
use wormhole.SetupWizard.{
  CheckStatus, failed, SystemCheck, Wizard, Backend, run_system_checks, is_passed, is_pending,
}
use wormhole.Common.{
  ℕ, suc, ◌-◌, String, Bool, true, false, not, ◌&&◌, ◌||◌, ◌==◌, Option, none, some, List, [], ◌∷◌,
  nat_eq, ltb, length, filter, any, if◌then◌else◌, is_some, truthy,
}

-- `clipboard` is the text that the wizard copied last.
pub record Guide : Type 0 where
  pub wizard : Wizard
  pub copied_command : Option String
  pub expanded_check : Option String
  pub is_auto_installing : Option String
  pub copy_timeout : Bool
  pub clipboard : Option String

abbrev pub first_guide : List SystemCheck → Guide
first_guide checks = record {
  wizard = record {
    current_step = 0;
    checks = checks;
    is_running_checks = false;
    all_checks_passed = false;
  };
  copied_command = none;
  expanded_check = none;
  is_auto_installing = none;
  copy_timeout = false;
  clipboard = none;
}

-- The identifiers of the steps.
abbrev pub steps : List String
steps = "welcome" ∷ "requirements" ∷ "security" ∷ "ready" ∷ []

abbrev pub with_step : ℕ → Guide → Guide
with_step n g = record g { wizard = record g.wizard { current_step = n } }

abbrev pub is_ready : Guide → Bool
is_ready g = nat_eq g.wizard.current_step 3

abbrev pub is_requirements : Guide → Bool
is_requirements g = nat_eq g.wizard.current_step 1

-- The buttons of the footer, each where it is shown and enabled.
unfoldable pub back : Guide → Guide
back g =
    if is_ready g || nat_eq g.wizard.current_step 0
    then g
    else with_step (g.wizard.current_step - 1) g

unfoldable pub skip_for_now : Guide → Guide
skip_for_now g =
    if is_requirements g && not g.wizard.all_checks_passed
    then with_step (suc g.wizard.current_step) g
    else g

-- `Math.min(steps.length - 1, s + 1)`
abbrev pub step_after : ℕ → ℕ
step_after n = if ltb 3 (suc n) then 3 else suc n

unfoldable pub continue_on : Guide → Guide
continue_on g =
    if is_ready g || (is_requirements g && g.wizard.is_running_checks)
    then g
    else with_step (step_after g.wizard.current_step) g

-- The run of the checks, by the effect or by the button that is disabled during a run.
unfoldable pub start_checks : Guide → Guide
start_checks g = record g { wizard = record g.wizard { is_running_checks = true } }

unfoldable pub checks_done : Backend → Guide → Guide
unfolding run_system_checks
checks_done backend g = record g { wizard = run_system_checks backend g.wizard }

-- The details of a check are shown, or hidden if they are.
abbrev pub is_expanded : Option String → String → Bool
is_expanded none id = false
is_expanded (some other) id = other == id

unfoldable pub toggle_expanded : String → Guide → Guide
toggle_expanded id g = record g {
  expanded_check = if is_expanded g.expanded_check id then none else some id;
}

unfoldable pub handle_copy_command : String → Bool → Guide → Guide
handle_copy_command command true g = record g {
  copied_command = some command;
  copy_timeout = true;
  clipboard = some command;
}
handle_copy_command command false g = g

unfoldable pub copy_timeout_ends : Guide → Guide
copy_timeout_ends g =
    if g.copy_timeout then record g { copied_command = none; copy_timeout = false } else g

abbrev pub is_given : Option Bool → Bool
is_given none = false
is_given (some b) = b

-- `installCommand.split('\n')[0]`
abbrev pub first_line : String → String
first_line command = elim (split_on (λ c. nat_eq c 10) command) [ [] ↦ "" | line ∷ lines ↦ line ]

-- `handleAutoInstall` up to the clipboard; the command, if there is one to copy.
unfoldable pub auto_install_command : SystemCheck → Option String
auto_install_command check =
    if is_given check.can_auto_install then truthy check.install_command else none

unfoldable pub start_auto_install : SystemCheck → Guide → Guide
unfolding auto_install_command
start_auto_install check g =
    if is_some (auto_install_command check)
    then record g { is_auto_installing = some check.id }
    else g

-- `handleAutoInstall` after the clipboard, which may have refused.
unfoldable pub auto_installed : String → Bool → Guide → Guide
auto_installed command took g = record g {
  copied_command = some command;
  is_auto_installing = none;
  clipboard = if took then some (first_line command) else g.clipboard;
}

abbrev pub is_failed : CheckStatus → Bool
is_failed failed = true
is_failed _ = false

-- The summary of the checks, with the number that it names.
pub data Summary : Type 0 where
  all_passed need_attention : ℕ → Summary

abbrev pub summary_of : Bool → List SystemCheck → Summary
summary_of all_checks_passed checks =
    if all_checks_passed
    then all_passed (length (filter (λ c. is_passed c.status) checks))
    else need_attention (length (filter (λ c. is_failed c.status) checks))

unfoldable pub summary : Wizard → Option Summary
summary w =
    if not w.is_running_checks && any (λ c. not (is_pending c.status)) w.checks
    then some (summary_of w.all_checks_passed w.checks)
    else none
