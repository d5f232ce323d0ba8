-- ===== src/FileIcons.antt =====
-- The icon of a file in apps/desktop/src/App.tsx, `getFileIcon`. `lower` is `toLowerCase`.
pub mod Filter
use wormhole.Paths.{split_on, last_part}
use wormhole.AllFiles.{listed}
use wormhole.Common.{
  ℕ, String, Bool, true, false, Option, none, some, List, [], ◌∷◌, nat_eq, if◌then◌else◌,
}

pub data Icon : Type 0 where
  folder image film music archive code_file file_text plain_file : Icon

abbrev pub is_dot : ℕ → Bool
is_dot c = nat_eq c b'.'

abbrev pub image_icons : List String
image_icons = "jpg" ∷ "jpeg" ∷ "png" ∷ "gif" ∷ "svg" ∷ "webp" ∷ "ico" ∷ []

abbrev pub film_icons : List String
film_icons = "mp4" ∷ "mov" ∷ "avi" ∷ "mkv" ∷ "webm" ∷ []

abbrev pub music_icons : List String
music_icons = "mp3" ∷ "wav" ∷ "flac" ∷ "aac" ∷ "m4a" ∷ []

abbrev pub archive_icons : List String
archive_icons = "zip" ∷ "tar" ∷ "gz" ∷ "rar" ∷ "7z" ∷ []

abbrev pub code_icons : List String
code_icons = "js" ∷ "ts" ∷ "tsx" ∷ "jsx" ∷ "py" ∷ "rs" ∷ "go" ∷ "java" ∷ "cpp" ∷ "c" ∷ "h" ∷ []

abbrev pub text_icons : List String
text_icons = "txt" ∷ "md" ∷ "json" ∷ "yaml" ∷ "yml" ∷ "xml" ∷ "html" ∷ "css" ∷ []

abbrev pub icon_of : String → Icon
icon_of ext =
    if listed image_icons ext
    then image
    else if listed film_icons ext
    then film
    else if listed music_icons ext
    then music
    else if listed archive_icons ext
    then archive
    else if listed code_icons ext
    then code_file
    else if listed text_icons ext
    then file_text
    else plain_file

-- `name.split(".").pop()?.toLowerCase() || ""`
abbrev pub extension : (String → String) → String → String
extension lower name = elim (last_part (split_on is_dot name)) [ none ↦ "" | some ext ↦ lower ext ]

unfoldable pub get_file_icon : (String → String) → String → Bool → Icon
get_file_icon lower name true = folder
get_file_icon lower name false = icon_of (extension lower name)
