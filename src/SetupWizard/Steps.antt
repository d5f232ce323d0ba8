-- ===== src/SetupWizard/Steps.antt =====
-- SetupWizard.tsx: the steps of the wizard in every run, and what it shows as copied.
use wormhole.SetupWizard.{SystemCheck, Backend, run_system_checks}
use wormhole.SetupWizard.Guide.{
  Guide, back, skip_for_now, continue_on, start_checks, checks_done, toggle_expanded,
  handle_copy_command, copy_timeout_ends, start_auto_install, auto_installed,
}
use wormhole.Common.{
  ◌<◌, String, ◌≡◌, refl, Bool, true, false, not, some, List, [], ◌∷◌, arith, All,
}

pub data Action : Type 0 where
  goes_back skips continues starts_checks : Action
  finishes_checks : Backend → Action
  expands : String → Action
  copies : String → Bool → Action
  timeout_ends : Action
  starts_install : SystemCheck → Action
  installs : String → Bool → Action

abbrev pub act : Action → Guide → Guide
act goes_back g = back g
act skips g = skip_for_now g
act continues g = continue_on g
act starts_checks g = start_checks g
act (finishes_checks backend) g = checks_done backend g
act (expands id) g = toggle_expanded id g
act (copies command took) g = handle_copy_command command took g
act timeout_ends g = copy_timeout_ends g
act (starts_install check) g = start_auto_install check g
act (installs command took) g = auto_installed command took g

abbrev pub run : List Action → Guide → Guide
run [] g = g
run (a ∷ actions) g = run actions (act a g)

-- The index of the step is one of the four steps.
abbrev pub IsStep : Guide → Type 0
IsStep g = g.wizard.current_step < 4

act-IsStep : (a : Action) (g : Guide) → IsStep g → IsStep (act a g)
unfolding back skip_for_now continue_on start_checks checks_done toggle_expanded handle_copy_command
    copy_timeout_ends start_auto_install auto_installed run_system_checks
act-IsStep goes_back g h = ground arith
act-IsStep skips g h = ground arith
act-IsStep continues g h = ground arith
act-IsStep starts_checks g h = h
act-IsStep (finishes_checks backend) g h = h
act-IsStep (expands id) g h = h
act-IsStep (copies command true) g h = h
act-IsStep (copies command false) g h = h
act-IsStep timeout_ends g h = ground arith
act-IsStep (starts_install check) g h = ground arith
act-IsStep (installs command took) g h = h

-- However the buttons of the wizard are used and the checks end, the wizard is at one of its four
-- steps, if it starts at one.
run-IsStep : (actions : List Action) (g : Guide) → IsStep g → IsStep (run actions g)
run-IsStep [] g h = h
run-IsStep (a ∷ actions) g h = run-IsStep actions (act a g) (act-IsStep a g h)

-- The actions that show no other command as copied.
abbrev pub is_other : Action → Bool
is_other (copies command took) = not took
is_other (installs command took) = false
is_other _ = true

-- A command is shown as copied with no timer that ends this.
abbrev pub Stays : String → Guide → Type 0
Stays command g = (g.copied_command ≡ some command) × (g.copy_timeout ≡ false)

act-Stays :
    (command : String) (a : Action) (g : Guide)
    → is_other a ≡ true
    → Stays command g
    → Stays command (act a g)
unfolding back skip_for_now continue_on start_checks checks_done toggle_expanded handle_copy_command
    copy_timeout_ends start_auto_install auto_installed run_system_checks
act-Stays command goes_back g o h = ground arith
act-Stays command skips g o h = ground arith
act-Stays command continues g o h = ground arith
act-Stays command starts_checks g o h = h
act-Stays command (finishes_checks backend) g o h = h
act-Stays command (expands id) g o h = h
act-Stays command (copies other true) g o h = cc
act-Stays command (copies other false) g o h = h
act-Stays command timeout_ends g o h = ground arith
act-Stays command (starts_install check) g o h = ground arith
act-Stays command (installs other took) g o h = cc

run-Stays :
    (command : String) (actions : List Action) (g : Guide)
    → All (λ a. is_other a ≡ true) actions
    → Stays command g
    → Stays command (run actions g)
run-Stays command [] g o h = h
run-Stays command (a ∷ actions) g o h =
    run-Stays command actions (act a g) o.1 (act-Stays command a g o.0 h)

-- The button that installs a requirement shows its command as copied also if the clipboard refused
-- it, and goes on doing so until another command is copied, if no timer was set before.
auto_installed-Stays :
    (command : String) (actions : List Action) (g : Guide)
    → g.copy_timeout ≡ false
    → All (λ a. is_other a ≡ true) actions
    → ((auto_installed command false g).clipboard ≡ g.clipboard)
      × ((run actions (auto_installed command false g)).copied_command ≡ some command)
unfolding auto_installed
auto_installed-Stays command actions g idle others =
    (refl, (run-Stays command actions (auto_installed command false g) others (refl, idle)).0)
