-- ===== src/SetupWizard.antt =====
-- apps/desktop/src/components/SetupWizard.tsx: the checks of the first start, their run and the steps
-- of the wizard; its buttons are in SetupWizard/Guide. Links that are opened are left out.
pub mod Catalog
pub mod Checks
pub mod Guide
pub mod Steps
pub mod Summary
use wormhole.Texts.{includes}
use wormhole.Common.{
  ℕ, String, Bool, true, false, ◌&&◌, ◌||◌, Option, none, some, List, [], ◌∷◌, ◌++◌, ◌==◌, ltb,
  nat_eq, if◌then◌else◌, length, filter,
}

pub data Platform : Type 0 where
  macos windows linux unknown : Platform

pub data CheckStatus : Type 0 where
  pending checking passed failed warning skipped : CheckStatus

-- The platforms of a check; `everywhere` is "all".
pub data CheckPlatform : Type 0 where
  everywhere : CheckPlatform
  only : Platform → CheckPlatform

pub record SystemCheck : Type 0 where
  pub id : String
  pub name : String
  pub description : String
  pub status : CheckStatus
  pub required : Bool
  pub help_url : Option String
  pub help_text : Option String
  pub install_command : Option String
  pub platform : CheckPlatform
  pub why_needed : Option String
  pub security_note : Option String
  pub steps : Option (List String)
  pub can_auto_install : Option Bool

-- `lowered` is the browser's user agent in lower case.
unfoldable pub detect_platform : String → Platform
detect_platform lowered =
    if includes lowered "mac"
    then macos
    else if includes lowered "win"
    then windows
    else if includes lowered "linux"
    then linux
    else unknown

abbrev pub same_platform : Platform → Platform → Bool
same_platform macos macos = true
same_platform windows windows = true
same_platform linux linux = true
same_platform unknown unknown = true
same_platform _ _ = false

abbrev pub is_for : Platform → CheckPlatform → Bool
is_for p everywhere = true
is_for p (only q) = same_platform q p

-- `platformChecks.filter(…)` on the wizard's own checks.
unfoldable pub relevant_checks : Platform → List SystemCheck → List SystemCheck
relevant_checks platform = filter (λ c. is_for platform c.platform)

abbrev pub is_pending : CheckStatus → Bool
is_pending pending = true
is_pending _ = false

abbrev pub is_passed : CheckStatus → Bool
is_passed passed = true
is_passed _ = false

pub record Wizard : Type 0 where
  pub current_step : ℕ
  pub checks : List SystemCheck
  pub is_running_checks : Bool
  pub all_checks_passed : Bool

-- `xs.every(p)`
abbrev pub every {ℓ} : {A : Type ℓ} → (A → Bool) → List A → Bool
every p [] = true
every p (x ∷ xs) = p x && every p xs

-- The condition of the effect that runs the checks by itself.
unfoldable pub runs_checks : Wizard → Bool
runs_checks w =
    nat_eq w.current_step 1
    && (ltb 0 (length w.checks) && every (λ c. is_pending c.status) w.checks)

-- The answers of `get_local_ip` and, for the check of an identifier, of `check_fuse_installed`;
-- `none` if the call throws.
pub record Backend : Type 0 where
  pub local_ips : Option (List String)
  pub fuse_installed : String → Option Bool

abbrev pub is_there : Option (List String) → Bool
is_there none = false
is_there (some []) = false
is_there (some (ip ∷ ips)) = true

abbrev pub is_true : Option Bool → Bool
is_true none = false
is_true (some b) = b

unfoldable pub perform_check : Backend → String → Bool
perform_check backend id =
    if id == "network"
    then is_there backend.local_ips
    else if id == "fuse-macos"
        || (id == "kernel-extensions" || (id == "winfsp" || id == "fuse-linux"))
    then is_true (backend.fuse_installed id)
    else true

-- The check after its turn in the loop.
unfoldable pub settled : Backend → SystemCheck → SystemCheck
settled backend c = record c {
  status = if perform_check backend c.id then passed else if c.required then failed else warning;
}

-- The values that the loop of `runSystemChecks` gives to `setChecks`, one after another, from the
-- checks that are done and those that are left.
unfoldable pub shown_checks :
    Backend → List SystemCheck → List SystemCheck → List (List SystemCheck)
shown_checks backend done [] = []
shown_checks backend done (c ∷ rest) =
    (done ++ record c { status = checking } ∷ rest)
    ∷ (done ++ settled backend c ∷ rest)
    ∷ shown_checks backend (done ++ settled backend c ∷ []) rest

-- The last value of a list, or what was there before.
abbrev pub last_or {ℓ} : {A : Type ℓ} → A → List A → A
last_or a [] = a
last_or a (b ∷ bs) = last_or b bs

abbrev pub all_required : List SystemCheck → Bool
all_required checks = every (λ c. is_passed c.status) (filter (λ c. c.required) checks)

unfoldable pub run_system_checks : Backend → Wizard → Wizard
run_system_checks backend w =
    let updated = last_or w.checks (shown_checks backend [] w.checks) in
    record w {
      checks = updated;
      is_running_checks = false;
      all_checks_passed = all_required updated;
    }
