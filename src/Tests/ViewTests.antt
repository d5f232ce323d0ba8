-- ===== src/Tests/ViewTests.antt =====
-- The view of all files, the texts of times, the icons, the downloads and an opened link.
use Prim.Native.Char.{Char}
use wormhole.Paths.{text_length}
use wormhole.Texts.{glue, keep}
use wormhole.Texts.Laws.{is_alnum}
use wormhole.JoinPage.{
  mac, windows, linux, normalize_join_code, is_valid_join_code, deep_link_url,
  get_asset_for_platform,
}
use wormhole.FileBrowser.{FileEntry}
use wormhole.FileIndex.{IndexEntry}
use wormhole.Favorites.{is_favorite, toggle_favorite, cleanup_favorites}
use wormhole.Sources.{connection}
use wormhole.Session.{Session, connect_dialog}
use wormhole.AllFiles.{
  all_root_folders, connection_folder, handle_search_result_click, starred_file,
}
use wormhole.AllFiles.Clicks.{Opens, handle_root_folder_click-Opens, starred_file-cleanup}
use wormhole.Times.{expired_text, hours_minutes, Countdown, expiration_countdown, format_date}
use wormhole.Times.Bounds.{Fits, expiration_countdown-Fits}
use wormhole.FileIcons.{film, code_file, get_file_icon}
use wormhole.Downloads.{ReleaseAsset, installer_asset, app_image_asset, deb_asset, dmg_asset}
use wormhole.Downloads.Agreement.{offers, to_asset, get_asset_for_platform-pages}
use wormhole.ConnectDialog.{
  Connecting, first_connect_dialog, is_open, initial_code_effect, is_valid_code,
}
use wormhole.DeepLinks.{on_open_url}
use wormhole.DeepLinks.HandOver.{
  shown_address, deep_link_url-initial_code_effect, deep_link_url-initial_code_effect_again,
}
use wormhole.Tests.Data.{remote}
use wormhole.Tests.SessionTests.{opened}
use wormhole.Common.{
  ℕ, String, get_elem?, ◌≡◌, refl, true, false, none, some, is_some, [], ◌∷◌, ◌||◌, map, ◌≤◌, ◌<◌,
  ◌-◌, ◌⊎◌, arith, nat_eq, inl,
}

abbrev same_case : String → String
same_case s = s

abbrev letter_n : ℕ → String
letter_n n = "n"

abbrev sharp_s : Char → String
sharp_s c = "SS"

listed_first :
    get_elem? (all_root_folders opened.history.shares opened.history.connections) 0
    ≡ some (connection_folder remote)
unfolding all_root_folders
listed_first = refl

not_starred : is_favorite [] "/mnt/remote/inner/notes.txt" ≡ false
unfolding is_favorite
not_starred = refl

-- A click on the mounted folder opens it as that of the connection.
handle_root_folder_click-Opens_example : Opens opened (connection_folder remote)
handle_root_folder_click-Opens_example =
    handle_root_folder_click-Opens opened 0 (connection_folder remote) tt (tt, tt) listed_first

abbrev found : IndexEntry
found = record {
  name = "inner";
  name_lower = "inner";
  path = "/mnt/remote/inner";
  is_dir = true;
  size = 0;
  modified = none;
  root_path = "/mnt/remote";
  root_name = "remote";
  root_type = connection;
}

abbrev notes : FileEntry
notes = record {
  name = "notes.txt";
  path = "/mnt/remote/inner/notes.txt";
  is_dir = false;
  size = 3;
  modified = none;
}

starred_file-cleanup_example :
    ((handle_search_result_click found opened).current_folder ≡ "/mnt/remote/inner")
    × (is_favorite
          (toggle_favorite (starred_file (handle_search_result_click found opened) notes) "f1" 7 [])
          "/mnt/remote/inner/notes.txt"
        ≡ true)
    × (is_favorite
          (cleanup_favorites [] (remote ∷ []) (
            toggle_favorite
              (starred_file (handle_search_result_click found opened) notes)
              "f1"
              7
              []))
          "/mnt/remote/inner/notes.txt"
        ≡ false)
starred_file-cleanup_example =
    starred_file-cleanup opened found notes "f1" 7 [] [] (remote ∷ []) refl refl refl refl refl
      not_starred

two_hours : expiration_countdown (some 9000000) 1000000 ≡ some (hours_minutes 2 13)
unfolding expiration_countdown
two_hours = refl

expiration_countdown-Fits_example :
    ((9000000 ≤ 1000000) × (expiration_countdown (some 9000000) 1000000 ≡ some expired_text))
    ⊎ ((1000000 < 9000000)
        × ((c : Countdown) × ((expiration_countdown (some 9000000) 1000000 ≡ some c)
              × Fits (9000000 - 1000000) c)))
expiration_countdown-Fits_example = expiration_countdown-Fits 9000000 1000000 (omega arith)

-- A file that is newer than the clock.
ahead : format_date letter_n letter_n (some 2000) 1000 ≡ "-n days ago"
unfolding format_date
ahead = refl

icon_of_film : get_file_icon same_case (glue "a.b" (glue "." "mkv")) false ≡ film
unfolding get_file_icon
icon_of_film = refl

abbrev arm_package : ReleaseAsset
arm_package = record { name = "wormhole-aarch64.deb"; browser_download_url = "u"; size = 9 }

get_asset_for_platform-pages_example :
    (is_some (get_asset_for_platform same_case (map to_asset (arm_package ∷ [])) windows)
      ≡ is_some (installer_asset same_case (arm_package ∷ [])))
    × (is_some (get_asset_for_platform same_case (map to_asset (arm_package ∷ [])) linux) ≡ (
        is_some (app_image_asset same_case (arm_package ∷ []))
        || (is_some (deb_asset same_case (arm_package ∷ []))
            || offers same_case (arm_package ∷ []) (".rpm" ∷ []))))
    × (is_some (get_asset_for_platform same_case (map to_asset (arm_package ∷ [])) mac) ≡ (
        is_some (dmg_asset same_case (arm_package ∷ []))
        || offers same_case (arm_package ∷ []) ("macos" ∷ "darwin" ∷ "aarch64" ∷ "arm64" ∷ [])))
get_asset_for_platform-pages_example =
    get_asset_for_platform-pages same_case (arm_package ∷ [])
      (refl, (refl, (refl, (refl, (refl, (refl, (refl, (refl, (refl, (refl, (refl, tt)))))))))))

script : get_file_icon same_case "x.tsx" false ≡ code_file
unfolding get_file_icon
script = refl

-- The page for macOS has nothing to offer of this release, the join page has.
no_image : dmg_asset same_case (arm_package ∷ []) ≡ none
unfolding dmg_asset
no_image = refl

valid_long : is_valid_join_code (normalize_join_code sharp_s "abcdef12") ≡ true
unfolding is_valid_join_code normalize_join_code
valid_long = refl

abbrev waiting : Connecting
waiting = record { session = opened; dialog = first_connect_dialog; clients = [] }

-- The application after the link with a code of eight letters and digits.
abbrev linked : Session
linked = on_open_url sharp_s (deep_link_url (normalize_join_code sharp_s "abcdef12") ∷ []) opened

deep_link_url-initial_code_effect_example :
    (linked.pending_join_code ≡ some (normalize_join_code sharp_s "abcdef12"))
    × (is_open linked ≡ true)
    × (shown_address (initial_code_effect opened (record waiting { session = linked }))
        ≡ normalize_join_code sharp_s "abcdef12")
    × (is_valid_code sharp_s (normalize_join_code sharp_s "abcdef12")
        ≡ nat_eq (text_length (keep is_alnum (normalize_join_code sharp_s "abcdef12"))) 6)
deep_link_url-initial_code_effect_example =
    deep_link_url-initial_code_effect sharp_s "abcdef12" valid_long opened waiting (inl refl)

-- The address `XYZ` has been typed over the code of the link.
abbrev typed_over : Connecting
typed_over = record waiting {
  session = record opened {
    active_dialog = some connect_dialog;
    pending_join_code = some (normalize_join_code sharp_s "abcdef12");
  };
  dialog = record first_connect_dialog { host_address = "XYZ" };
}

deep_link_url-initial_code_effect_again_example :
    initial_code_effect typed_over.session (record typed_over {
      session =
          on_open_url sharp_s
            (deep_link_url (normalize_join_code sharp_s "abcdef12") ∷ [])
            typed_over.session;
    })
    ≡ typed_over
deep_link_url-initial_code_effect_again_example =
    deep_link_url-initial_code_effect_again sharp_s "abcdef12" valid_long typed_over refl refl
