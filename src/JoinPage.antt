-- ===== src/JoinPage.antt =====
-- The page of a join link on the web site, apps/web/src/app/j/[code]/page.tsx. `upper` and `lower`
-- are `toUpperCase` of a character outside ASCII and `toLowerCase`.
pub mod Codes
pub mod Attempts
pub mod Downloads
use Prim.Native.Char.{Char, code}
use Prim.Native.String
use wormhole.Paths.{text_length}
use wormhole.Texts.{
  includes, contains, strip_prefix, is_empty, trim, keep, all_chars, take_chars, drop_chars,
  to_upper_case,
}
use wormhole.Texts.Laws.{is_alnum, is_code_char}
use wormhole.JoinCode.{first_of}
use wormhole.Common.{
  ℕ, suc, ◌-◌, String, Bool, true, false, ◌&&◌, ◌||◌, not, Option, none, some, List, [], ◌∷◌, ◌++◌,
  nat_eq, is_some, leb, ltb, if◌then◌else◌, any, find,
}

pub data Platform : Type 0 where
  mac windows linux unknown : Platform

pub record Asset : Type 0 where
  pub name : String
  pub browser_download_url : String

pub record GitHubRelease : Type 0 where
  pub tag_name : String
  pub assets : List Asset

abbrev pub wormhole_base_url : String
wormhole_base_url = "https://wormhole.byronwade.com"

abbrev pub latest_release_url : String
latest_release_url = "https://github.com/byronwade/wormhole/releases/latest"

-- `none` stands for a page that is rendered without a window.
unfoldable pub detect_platform : (String → String) → Option String → Platform
detect_platform lower none = unknown
detect_platform lower (some user_agent) =
    if includes (lower user_agent) "mac"
    then mac
    else if includes (lower user_agent) "win"
    then windows
    else if includes (lower user_agent) "linux"
    then linux
    else unknown

abbrev pub patterns : Platform → List (List String)
patterns mac = (".dmg" ∷ []) ∷ ("macos" ∷ "darwin" ∷ "aarch64" ∷ "arm64" ∷ []) ∷ []
patterns windows = ("-setup.exe" ∷ ".msi" ∷ []) ∷ (".exe" ∷ []) ∷ []
patterns linux = (".appimage" ∷ []) ∷ (".deb" ∷ []) ∷ (".rpm" ∷ []) ∷ []
patterns unknown = []

abbrev pub matches : (String → String) → List String → Asset → Bool
matches lower pattern_group asset = any (λ p. includes (lower asset.name) (lower p)) pattern_group

abbrev pub asset_or : Option Asset → Option Asset → Option Asset
asset_or none later = later
asset_or (some asset) later = some asset

-- The loops over the groups and over the assets.
abbrev pub first_asset : (String → String) → List Asset → List (List String) → Option Asset
first_asset lower assets [] = none
first_asset lower assets (group ∷ groups) =
    asset_or (find (matches lower group) assets) (first_asset lower assets groups)

unfoldable pub get_asset_for_platform : (String → String) → List Asset → Platform → Option Asset
get_asset_for_platform lower assets platform = first_asset lower assets (patterns platform)

unfoldable pub get_download_url : (String → String) → Option GitHubRelease → Platform → String
unfolding get_asset_for_platform
get_download_url lower none target_platform = latest_release_url
get_download_url lower (some release) target_platform =
    elim (get_asset_for_platform lower release.assets target_platform) [
      | none ↦ latest_release_url
      | some asset ↦ asset.browser_download_url
    ]

-- The text behind `[^/]+`.
abbrev pub behind_host : String → String
behind_host String.[] = ""
behind_host (String.◌∷◌ c s) =
    let rest = behind_host s in if nat_eq (code c) b'/' then String.◌∷◌ c s else rest

-- The text behind the host and `/J/`; the host is not empty.
abbrev pub behind_link : Option String → Option String
behind_link none = none
behind_link (some s) =
    if is_empty s || is_some (strip_prefix s "/") then none else strip_prefix (behind_host s) "/J/"

-- `/^HTTPS?:\/\/[^/]+\/J\//i` replaced by nothing; the text has no small letters.
abbrev pub drop_link : String → String
drop_link s = elim (behind_link (first_of (strip_prefix s "HTTPS://") (strip_prefix s "HTTP://"))) [
  | none ↦ s
  | some rest ↦ rest
]

abbrev pub with_dash : String → String
with_dash normalized =
    if nat_eq (text_length normalized) 6 && not (contains normalized "-")
    then String.◌++◌ (take_chars 3 normalized) (String.◌++◌ "-" (drop_chars 3 normalized))
    else normalized

unfoldable pub normalize_join_code : (Char → String) → String → String
normalize_join_code upper code =
    with_dash (keep is_code_char (drop_link (trim (to_upper_case upper code))))

unfoldable pub is_valid_join_code : String → Bool
is_valid_join_code code =
    let normalized = keep (λ c. not (nat_eq c b'-')) code in
    leb 6 (text_length normalized)
    && (leb (text_length normalized) 12 && all_chars is_alnum normalized)

-- The states of the page with its timers: the attempt that is about to be made, the checks and the
-- resets that are due. `tried` holds the links that have been opened without a click.
pub record Page : Type 0 where
  pub platform : Platform
  pub mounted : Bool
  pub copied : Bool
  pub clipboard : Option String
  pub attempted_deep_link : Bool
  pub deep_link_failed : Bool
  pub release : Option GitHubRelease
  pub attempt_due : Bool
  pub checks_due : ℕ
  pub resets_due : ℕ
  pub tried : List String

abbrev pub first_page : Page
first_page = record {
  platform = unknown;
  mounted = false;
  copied = false;
  clipboard = none;
  attempted_deep_link = false;
  deep_link_failed = false;
  release = none;
  attempt_due = false;
  checks_due = 0;
  resets_due = 0;
  tried = [];
}

abbrev pub deep_link_url : String → String
deep_link_url join_code = String.◌++◌ "wormhole://join/" join_code

-- The effect on `mounted`, `attemptedDeepLink` and the code: its clean-up clears the old timer.
abbrev pub attempt_effect : Page → Page
attempt_effect s = record s { attempt_due = s.mounted && not s.attempted_deep_link }

unfoldable pub on_mount : Platform → Page → Page
on_mount platform s = attempt_effect (record s { mounted = true; platform = platform })

-- The answer of GitHub: the release, or `null` with another status than that of success.
unfoldable pub on_release : Option GitHubRelease → Page → Page
on_release latest s = record s { release = latest }

-- The timer of 500 ms. Setting the state runs the effect again.
unfoldable pub try_deep_link : String → Page → Page
try_deep_link join_code s =
    if s.attempt_due
    then attempt_effect (record s {
      attempted_deep_link = true;
      tried = deep_link_url join_code ∷ s.tried;
      checks_due = suc s.checks_due;
      attempt_due = false;
    })
    else s

-- The timer of 1500 ms, `elapsed` ms after it was set.
unfoldable pub check_deep_link : Bool → ℕ → Page → Page
check_deep_link has_focus elapsed s =
    if leb 1 s.checks_due
    then record s {
      deep_link_failed = s.deep_link_failed || (has_focus && ltb elapsed 2000);
      checks_due = s.checks_due - 1;
    }
    else s

abbrev copied_text : String → Page → Page
copied_text text s = record s {
  copied = true;
  clipboard = some text;
  resets_due = suc s.resets_due;
}

unfoldable pub handle_copy_code : String → Page → Page
handle_copy_code = copied_text

abbrev pub page_link : String → String
page_link join_code = String.◌++◌ wormhole_base_url (String.◌++◌ "/j/" join_code)

unfoldable pub handle_copy_link : String → Page → Page
handle_copy_link join_code = copied_text (page_link join_code)

unfoldable pub on_copy_reset : Page → Page
on_copy_reset s =
    if leb 1 s.resets_due then record s { copied = false; resets_due = s.resets_due - 1 } else s
