-- ===== src/Downloads.antt =====
-- The downloads that the web site offers: the home page (apps/web/src/app/page.tsx) and the pages of
-- the platforms (apps/web/src/app/download). `lower` is `toLowerCase`.
pub mod Agreement
use wormhole.Texts.{includes}
use wormhole.JoinPage.{Platform, mac, windows, linux, unknown}
use wormhole.Common.{
  ℕ, String, Bool, true, false, not, ◌&&◌, ◌||◌, Option, none, some, List, [], ◌∷◌, if◌then◌else◌,
  any, find, filter,
}

pub record ReleaseAsset : Type 0 where
  pub name : String
  pub browser_download_url : String
  pub size : ℕ

pub record HomeRelease : Type 0 where
  pub tag_name : String
  pub name : String
  pub published_at : String
  pub html_url : String
  pub assets : List ReleaseAsset

-- `.filter(() => true)` is part of the source.
abbrev pub home_patterns : Platform → List (List String)
home_patterns mac =
    (".dmg" ∷ []) ∷ filter (λ p. true) ("macos" ∷ "darwin" ∷ "aarch64" ∷ "arm64" ∷ []) ∷ []
home_patterns windows = ("-setup.exe" ∷ ".msi" ∷ []) ∷ (".exe" ∷ []) ∷ []
home_patterns linux = (".appimage" ∷ []) ∷ (".deb" ∷ []) ∷ (".rpm" ∷ []) ∷ []
home_patterns unknown = []

-- `a || b` on assets.
abbrev pub or_asset : Option ReleaseAsset → Option ReleaseAsset → Option ReleaseAsset
or_asset none later = later
or_asset (some asset) later = some asset

abbrev pub named : (String → String) → String → ReleaseAsset → Bool
named lower part asset = includes (lower asset.name) part

abbrev pub matches_group : (String → String) → List String → ReleaseAsset → Bool
matches_group lower group asset = any (λ p. includes (lower asset.name) (lower p)) group

abbrev pub first_of_groups :
    (String → String) → List ReleaseAsset → List (List String) → Option ReleaseAsset
first_of_groups lower assets [] = none
first_of_groups lower assets (group ∷ groups) =
    or_asset (find (matches_group lower group) assets) (first_of_groups lower assets groups)

unfoldable pub home_asset_for_platform :
    (String → String) → List ReleaseAsset → Platform → Option ReleaseAsset
home_asset_for_platform lower assets platform =
    first_of_groups lower assets (home_patterns platform)

-- The name and the text of the size; `format_bytes` is floating point.
unfoldable pub get_platform_asset_info :
    (String → String) → (ℕ → String) → Option HomeRelease → Platform → Option (String × String)
unfolding home_asset_for_platform
get_platform_asset_info lower format_bytes none target_platform = none
get_platform_asset_info lower format_bytes (some release) target_platform =
    elim (home_asset_for_platform lower release.assets target_platform) [
      | none ↦ none
      | some asset ↦ some (format_bytes asset.size, asset.name)
    ]

unfoldable pub get_platform_download_url : Platform → String
get_platform_download_url mac = "/download/macos"
get_platform_download_url windows = "/download/windows"
get_platform_download_url linux = "/download/linux"
get_platform_download_url unknown = "#download"

abbrev pub is_universal : (String → String) → ReleaseAsset → Bool
is_universal lower a =
    named lower "universal" a || (named lower "aarch64" a || named lower "arm64" a)

-- `dmgAsset` of the page for macOS.
unfoldable pub dmg_asset : (String → String) → List ReleaseAsset → Option ReleaseAsset
dmg_asset lower assets =
    or_asset (find (λ a. named lower ".dmg" a && is_universal lower a) assets)
      (find (named lower ".dmg") assets)

-- `installerAsset` of the page for Windows.
unfoldable pub installer_asset : (String → String) → List ReleaseAsset → Option ReleaseAsset
installer_asset lower assets =
    or_asset (find (named lower "-setup.exe") assets)
      (or_asset (find (named lower ".msi") assets) (find (named lower ".exe") assets))

-- `appImageAsset` and `debAsset` of the page for Linux.
unfoldable pub app_image_asset : (String → String) → List ReleaseAsset → Option ReleaseAsset
app_image_asset lower assets = find (named lower ".appimage") assets

unfoldable pub deb_asset : (String → String) → List ReleaseAsset → Option ReleaseAsset
deb_asset lower assets = find (named lower ".deb") assets
