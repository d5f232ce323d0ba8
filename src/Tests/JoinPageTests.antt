-- ===== src/Tests/JoinPageTests.antt =====
-- The join page with a typed-in code, and a release without an image for the Mac.
use Prim.Native.Char.{Char}
use wormhole.JoinCode.{extract_join_code}
use wormhole.JoinPage.{
  mac, linux, Asset, latest_release_url, detect_platform, get_asset_for_platform, get_download_url,
  normalize_join_code, is_valid_join_code, deep_link_url, page_link, first_page, on_mount,
  try_deep_link, check_deep_link, handle_copy_link, on_copy_reset,
}
use wormhole.JoinPage.Attempts.{
  mounts, attempt_fires, check_fires, copies_link, reset_fires, run, TriesOnce, run-TriesOnce,
}
use wormhole.JoinPage.Codes.{extract_join_code-normalize_join_code}
use wormhole.Common.{String, ◌≡◌, refl, true, false, none, some, [], ◌∷◌}

abbrev sharp_s : Char → String
sharp_s c = "SS"

abbrev same_case : String → String
same_case s = s

from_link : normalize_join_code sharp_s "https://x.y/j/abc-123" ≡ "ABC-123"
unfolding normalize_join_code
from_link = refl

of_twelve : is_valid_join_code "ABCDEF123456" ≡ true
unfolding is_valid_join_code
of_twelve = refl

of_thirteen : is_valid_join_code "ABCDEF1234567" ≡ false
unfolding is_valid_join_code
of_thirteen = refl

abbrev linux_asset : Asset
linux_asset = record { name = "wormhole-aarch64.deb"; browser_download_url = "u" }

-- A Mac is offered a package for Linux if the release has no image for the Mac.
package_for_mac :
    get_download_url same_case (some (record { tag_name = "v1"; assets = linux_asset ∷ [] })) mac
    ≡ "u"
unfolding get_download_url get_asset_for_platform
package_for_mac = refl

no_release : get_download_url same_case none linux ≡ latest_release_url
unfolding get_download_url
no_release = refl

phone : detect_platform same_case (some "iphone like mac os x") ≡ mac
unfolding detect_platform
phone = refl

tried_once :
    (run "ABC-123"
      (mounts mac ∷ attempt_fires ∷ attempt_fires ∷ check_fires true 1500 ∷ [])
      first_page).tried
    ≡ "wormhole://join/ABC-123" ∷ []
unfolding on_mount try_deep_link check_deep_link
tried_once = refl

copied_back :
    (run "ABC-123" (copies_link ∷ reset_fires ∷ []) first_page).clipboard
    ≡ some "https://wormhole.byronwade.com/j/ABC-123"
unfolding handle_copy_link on_copy_reset
copied_back = refl

run-TriesOnce_example :
    TriesOnce "ABC-123" (run "ABC-123" (mounts mac ∷ attempt_fires ∷ []) first_page)
run-TriesOnce_example = run-TriesOnce "ABC-123" (mounts mac ∷ attempt_fires ∷ [])

valid_code : is_valid_join_code (normalize_join_code sharp_s "abc-123") ≡ true
unfolding is_valid_join_code normalize_join_code
valid_code = refl

extract_join_code-normalize_join_code_example :
    (extract_join_code sharp_s (deep_link_url (normalize_join_code sharp_s "abc-123"))
      ≡ some (normalize_join_code sharp_s "abc-123"))
    × (extract_join_code sharp_s (page_link (normalize_join_code sharp_s "abc-123"))
        ≡ some (normalize_join_code sharp_s "abc-123"))
extract_join_code-normalize_join_code_example =
    extract_join_code-normalize_join_code sharp_s "abc-123" valid_code
