-- ===== src/SettingsPage.antt =====
-- The component `SettingsPage` of apps/desktop/src/App.tsx with the search for updates of the backend,
-- `check_for_updates` of apps/desktop/src-tauri/src/commands.rs. Of the crate `semver`, `parse` reads
-- a version or says why it cannot, and `newer` is its `>`; `show_status` is the text of an HTTP status.
pub mod Updates
pub mod OptIn
use Prim.Native.Char.{Char, code}
use Prim.Native.String
use wormhole.Telemetry.{State, SettingsPatch, update_settings, enable_all, disable_all}
use wormhole.Common.{
  ℕ, String, Bool, true, false, not, ◌&&◌, ◌⊎◌, inl, inr, Option, none, some, is_some, nat_eq, leb,
  ltb, or_default, option_or_default, truthy, if◌then◌else◌,
}

pub record UpdateInfo : Type 0 where
  pub version : String
  pub release_url : String
  pub release_notes : Option String
  pub published_at : Option String

-- What the backend reads of a release; `none` where the field is missing or no text.
pub record LatestRelease : Type 0 where
  pub tag_name : Option String
  pub html_url : Option String
  pub body : Option String
  pub published_at : Option String

-- How the request for the newest release ends.
pub data Response : Type 0 where
  no_client unreachable unreadable : String → Response
  refused : ℕ → Response
  released : LatestRelease → Response

-- `trim_start_matches('v')`
abbrev pub trim_v : String → String
trim_v String.[] = ""
trim_v (String.◌∷◌ c s) =
    let rest = trim_v s in if nat_eq (code c) b'v' then rest else String.◌∷◌ c s

abbrev pub text_or_empty : Option String → String
text_or_empty none = ""
text_or_empty (some s) = s

abbrev pub update_of : String → LatestRelease → UpdateInfo
update_of tag release = record {
  version = tag;
  release_url = text_or_empty release.html_url;
  release_notes = release.body;
  published_at = release.published_at;
}

abbrev pub invalid_version : (which text reason : String) → String
invalid_version which text reason =
    String.◌++◌ "Invalid "
      (String.◌++◌ which (String.◌++◌ " version '" (String.◌++◌ text (String.◌++◌ "': " reason))))

module _ {Version : Type 0} (parse : String → String ⊎ Version) (newer : Version → Version → Bool)
    (show_status : ℕ → String) where
  -- The comparison, from the two versions as they are read.
  abbrev pub compared :
      LatestRelease
      → (tag current_version : String) → String ⊎ Version
      → String ⊎ Version
      → String ⊎ Option UpdateInfo
  compared release tag current_version (inl e) current =
      inl (invalid_version "latest" (trim_v tag) e)
  compared release tag current_version (inr latest) (inl e) =
      inl (invalid_version "current" (trim_v current_version) e)
  compared release tag current_version (inr latest) (inr current) =
      if newer latest current then inr (some (update_of tag release)) else inr none

  abbrev pub of_release : String → LatestRelease → Option String → String ⊎ Option UpdateInfo
  of_release current_version release none = inl "No tag name in release"
  of_release current_version release (some tag) =
      compared release tag current_version (parse (trim_v tag)) (parse (trim_v current_version))

  unfoldable pub check_for_updates : String → Response → String ⊎ Option UpdateInfo
  check_for_updates current_version (no_client e) =
      inl (String.◌++◌ "Failed to create HTTP client: " e)
  check_for_updates current_version (unreachable e) =
      inl (String.◌++◌ "Failed to fetch releases: " e)
  check_for_updates current_version (unreadable e) = inl (String.◌++◌ "Failed to parse release: " e)
  check_for_updates current_version (refused status) =
      if nat_eq status 404
      then inr none
      else inl (String.◌++◌ "GitHub API error: " (show_status status))
  check_for_updates current_version (released release) =
      of_release current_version release release.tag_name

abbrev pub app_version : String
app_version = "0.1.0"

-- The states of the page, with that of the telemetry hook.
pub record Settings : Type 0 where
  pub checking_update : Bool
  pub update_info : Option UpdateInfo
  pub update_error : Option String
  pub last_checked : Option ℕ
  pub show_telemetry_details : Bool
  pub telemetry : State

abbrev pub first_settings : State → Settings
first_settings telemetry = record {
  checking_update = false;
  update_info = none;
  update_error = none;
  last_checked = none;
  show_telemetry_details = false;
  telemetry = telemetry;
}

-- `checkForUpdates` up to the call of the backend; the button is disabled during a check.
unfoldable pub check_clicked : Settings → Settings
check_clicked s =
    if s.checking_update then s else record s { checking_update = true; update_error = none }

-- What `checkForUpdates` does with the answer, at the time `now`.
unfoldable pub update_answered : String ⊎ Option UpdateInfo → ℕ → Settings → Settings
update_answered (inl message) now s = record s {
  update_error = some message;
  checking_update = false;
}
update_answered (inr result) now s = record s {
  update_info = result;
  last_checked = some now;
  checking_update = false;
}

-- The line under the title: the version that is available, the time of the last check or neither.
pub data Headline : Type 0 where
  available : String → Headline
  checked_at : ℕ → Headline
  click_to_check : Headline

unfoldable pub headline : Settings → Headline
headline s = elim s.update_info [
  | some info ↦ available info.version
  | none ↦ elim s.last_checked [
    | none ↦ click_to_check
    | some t ↦ if nat_eq t 0 then click_to_check else checked_at t
  ]
]

abbrev pub is_set : Option ℕ → Bool
is_set none = false
is_set (some t) = not (nat_eq t 0)

-- Whether the page says "You're running the latest version!".
unfoldable pub says_latest : Settings → Bool
says_latest s =
    is_set s.last_checked && (not (is_some s.update_info) && not (is_some (truthy s.update_error)))

-- `openReleasePage`: the path with which `open_file` is called.
unfoldable pub open_release_page : Settings → Option String
open_release_page s = elim s.update_info [
  | none ↦ none
  | some info ↦ truthy (some info.release_url)
]

-- The buttons of the telemetry section, each where it is shown.
unfoldable pub toggle_details : Settings → Settings
toggle_details s = record s { show_telemetry_details = not s.show_telemetry_details }

unfoldable pub opt_in : (now clock : ℕ) (platform session_id : String) → Settings → Settings
unfolding enable_all
opt_in now clock platform session_id s =
    if s.telemetry.settings.enabled
    then s
    else record s { telemetry = enable_all now clock platform session_id s.telemetry }

unfoldable pub opt_out : ℕ → Settings → Settings
unfolding disable_all
opt_out now s =
    if s.telemetry.settings.enabled then record s { telemetry = disable_all now s.telemetry } else s

abbrev pub flags_patch : Option Bool → Option Bool → SettingsPatch
flags_patch usage errors = record {
  enabled = none;
  share_usage_data = usage;
  share_error_reports = errors;
  consent_given_at = none;
}

unfoldable pub toggle_usage_data : ℕ → Settings → Settings
unfolding update_settings
toggle_usage_data now s =
    if s.telemetry.settings.enabled
    then record s {
      telemetry =
          update_settings now (flags_patch (some (not s.telemetry.settings.share_usage_data)) none)
            s.telemetry;
    }
    else s

unfoldable pub toggle_error_reports : ℕ → Settings → Settings
unfolding update_settings
toggle_error_reports now s =
    if s.telemetry.settings.enabled
    then record s {
      telemetry =
          update_settings now
            (flags_patch none (some (not s.telemetry.settings.share_error_reports))) s.telemetry;
    }
    else s
