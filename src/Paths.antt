-- ===== src/Paths.antt =====
-- Paths as the desktop client takes them apart: `path.split(…)` and the helpers at the top of
-- apps/desktop/src/App.tsx. Texts are sequences of code points.
pub mod Segments
pub mod Folders
use Prim.Native.Char.{Char, code}
use Prim.Native.String
use wormhole.Texts.{remove_first}
use wormhole.Common.{
  ℕ, String, Bool, Option, none, some, List, [], ◌∷◌, nat_eq, if◌then◌else◌, option_or_default, ◌+◌,
  leb, ltb, not, filter, any, length, ◌==◌, ◌&&◌, ◌||◌, false,
}

-- `s.split(sep)` at single characters: always at least one part.
abbrev prepend : Char → List String → List String
prepend c [] = String.◌∷◌ c "" ∷ []
prepend c (w ∷ ws) = String.◌∷◌ c w ∷ ws

abbrev pub split_on : (ℕ → Bool) → String → List String
split_on sep String.[] = "" ∷ []
split_on sep (String.◌∷◌ c s) =
    let rest = split_on sep s in if sep (code c) then "" ∷ rest else prepend c rest

-- `parts.pop()`; an empty array gives undefined.
abbrev pub last_part : List String → Option String
last_part [] = none
last_part (w ∷ []) = some w
last_part (w ∷ v ∷ ws) = last_part (v ∷ ws)

abbrev pub is_slash : ℕ → Bool
is_slash c = nat_eq c b'/'

-- `path.split("/").pop() || fallback`
unfoldable pub folder_name : String → String → String
folder_name path fallback = option_or_default (last_part (split_on is_slash path)) fallback

abbrev pub is_separator : ℕ → Bool
is_separator c = nat_eq c b'/' || nat_eq c 92

-- `path.split(/[/\\]/).filter(Boolean)`
abbrev pub path_parts : String → List String
path_parts path = filter (λ w. not (w == "")) (split_on is_separator path)

-- `parts[parts.length - 1] || path`
unfoldable pub get_file_name : String → String
get_file_name path = option_or_default (last_part (path_parts path)) path

-- `/^[a-zA-Z]:/.test(path)`
abbrev is_letter : ℕ → Bool
is_letter c = (leb b'A' c && leb c b'Z') || (leb b'a' c && leb c b'z')

abbrev pub has_drive : String → Bool
has_drive (String.◌∷◌ c (String.◌∷◌ d s)) = is_letter (code c) && nat_eq (code d) b':'
has_drive _ = false

-- `parts.join(separator)`
abbrev pub join_with : String → List String → String
join_with separator [] = ""
join_with separator (w ∷ []) = w
join_with separator (w ∷ v ∷ ws) =
    String.◌++◌ w (String.◌++◌ separator (join_with separator (v ∷ ws)))

unfoldable pub join_path : List String → String
join_path parts =
    join_with (if any has_drive parts then "\\" else "/") (filter (λ w. not (w == "")) parts)

abbrev pub pop : List String → List String
pop [] = []
pop (w ∷ []) = []
pop (w ∷ v ∷ ws) = w ∷ pop (v ∷ ws)

-- JavaScript's length of a text: the code points from U+10000 on count two.
abbrev pub text_length : String → ℕ
text_length String.[] = 0
text_length (String.◌∷◌ c s) = (if leb 65536 (code c) then 2 else 1) + text_length s

unfoldable pub get_parent_path : String → String → String
get_parent_path path root_path =
    if leb (length (path_parts path)) 1
    then root_path
    else let parent : String =
        String.◌++◌ (if has_drive path then "" else "/")
          (join_with (if has_drive path then "\\" else "/") (pop (path_parts path))) in
      if ltb (text_length parent) (text_length root_path) then root_path else parent

unfoldable pub get_relative_path : String → String → List String
get_relative_path full_path root_path = path_parts (remove_first full_path root_path)
