-- ===== src/AllFiles.antt =====
-- The component `AllFilesView` of apps/desktop/src/App.tsx with the media filter: the root folders of
-- the active shares and connections, the search results, and what a click on either does to the
-- application. `lower` is `toLowerCase`.
pub mod Media
pub mod Clicks
use Prim.Native.Char.{Char, code}
use Prim.Native.String
use wormhole.History.{ShareHistoryItem, ConnectionHistoryItem}
use wormhole.HistoryHook.{is_active, is_connected}
use wormhole.Paths.{get_file_name}
use wormhole.Sources.{SourceType, share, connection}
use wormhole.FileBrowser.{FileEntry}
use wormhole.FileIndex.{IndexEntry}
use wormhole.Favorites.{FavoriteFile}
use wormhole.Session.{Session, SourceRef, on_browse_share, on_browse_connection}
use wormhole.Common.{
  ℕ, zero, ◌+◌, ◌-◌, String, Bool, true, false, ◌||◌, Option, none, some, List, [], ◌∷◌, ◌++◌, map,
  ◌==◌, leb, nat_eq, if◌then◌else◌, or_default, filter, any, take,
}

pub data MediaFilter : Type 0 where
  all video image audio : MediaFilter

abbrev pub video_extensions : List String
video_extensions =
    ".mp4" ∷ ".mov" ∷ ".avi" ∷ ".mkv" ∷ ".webm" ∷ ".m4v" ∷ ".wmv" ∷ ".flv" ∷ ".mpg" ∷ ".mpeg" ∷ []

abbrev pub image_extensions : List String
image_extensions =
    ".jpg" ∷ ".jpeg" ∷ ".png" ∷ ".gif" ∷ ".bmp" ∷ ".webp" ∷ ".svg" ∷ ".tiff" ∷ ".tif" ∷ ".ico"
    ∷ ".heic" ∷ ".heif" ∷ []

abbrev pub audio_extensions : List String
audio_extensions =
    ".mp3" ∷ ".wav" ∷ ".flac" ∷ ".aac" ∷ ".ogg" ∷ ".m4a" ∷ ".wma" ∷ ".aiff" ∷ ".alac" ∷ []

-- The length of a character in UTF-16.
abbrev pub units : ℕ → ℕ
units c = if leb 65536 c then 2 else 1

-- `s.lastIndexOf(".")`; -1 is `none`.
abbrev pub last_dot : String → Option ℕ
last_dot String.[] = none
last_dot (String.◌∷◌ c s) = elim (last_dot s) [
  | some i ↦ some (units (code c) + i)
  | none ↦ if nat_eq (code c) b'.' then some 0 else none
]

-- `s.slice(n)`; where the index lies inside a character, the character stands for its second half,
-- and neither is the start of an extension.
abbrev pub drop_units : ℕ → String → String
drop_units n String.[] = ""
drop_units n (String.◌∷◌ c s) =
    let rest = drop_units (n - units (code c)) s in
    if leb (units (code c)) n then rest else String.◌∷◌ c s

-- `s.slice(-1)`
abbrev pub last_char : String → String
last_char String.[] = ""
last_char (String.◌∷◌ c String.[]) = String.◌∷◌ c ""
last_char (String.◌∷◌ c (String.◌∷◌ d s)) = last_char (String.◌∷◌ d s)

abbrev pub slice_at : Option ℕ → String → String
slice_at none s = last_char s
slice_at (some n) s = drop_units n s

abbrev pub listed : List String → String → Bool
listed extensions ext = any (λ e. e == ext) extensions

abbrev pub media_of : String → MediaFilter
media_of ext =
    if listed video_extensions ext
    then video
    else if listed image_extensions ext
    then image
    else if listed audio_extensions ext
    then audio
    else all

-- The index is one in the name, the slice is one of the name in lower case.
unfoldable pub get_media_type : (String → String) → String → MediaFilter
get_media_type lower file_name = media_of (slice_at (last_dot file_name) (lower file_name))

abbrev pub media_eq : MediaFilter → MediaFilter → Bool
media_eq all all = true
media_eq video video = true
media_eq image image = true
media_eq audio audio = true
media_eq _ _ = false

unfoldable pub filtered_search_results :
    (String → String) → MediaFilter → List IndexEntry → List IndexEntry
unfolding get_media_type
filtered_search_results lower all results = results
filtered_search_results lower media_filter results =
    filter (λ e. e.is_dir || media_eq (get_media_type lower e.name) media_filter) results

-- What the list of the results shows.
abbrev pub shown_results : (String → String) → MediaFilter → List IndexEntry → List IndexEntry
shown_results lower media_filter results =
    take 100 (filtered_search_results lower media_filter results)

pub record RootFolder : Type 0 where
  pub id : String
  pub name : String
  pub path : String
  pub root_type : SourceType
  pub code : String

abbrev pub share_folder : ShareHistoryItem → RootFolder
share_folder s = record {
  id = s.id;
  name = or_default (get_file_name s.path) "Shared Folder";
  path = s.path;
  root_type = share;
  code = s.join_code;
}

abbrev pub connection_folder : ConnectionHistoryItem → RootFolder
connection_folder c = record {
  id = c.id;
  name = or_default (get_file_name c.mount_point) "Remote Share";
  path = c.mount_point;
  root_type = connection;
  code = c.join_code;
}

unfoldable pub all_root_folders :
    List ShareHistoryItem → List ConnectionHistoryItem → List RootFolder
all_root_folders shares connections =
    map share_folder (filter (λ s. is_active s.status) shares)
    ++ map connection_folder (filter (λ c. is_connected c.status) connections)

unfoldable pub handle_root_folder_click : RootFolder → Session → Session
unfolding on_browse_share on_browse_connection
handle_root_folder_click folder s = elim folder.root_type [
  | share ↦ on_browse_share folder.path s
  | connection ↦ on_browse_connection folder.path s
]

-- A file is opened by the backend, which changes no state.
unfoldable pub handle_search_result_click : IndexEntry → Session → Session
unfolding on_browse_share on_browse_connection
handle_search_result_click entry s =
    if entry.is_dir
    then (elim entry.root_type [
      | share ↦ on_browse_share entry.path s
      | connection ↦ on_browse_connection entry.path s
    ])
    else s

abbrev pub source_id_of : Option SourceRef → String
source_id_of none = ""
source_id_of (some source) = source.id

abbrev pub source_type_of : Option SourceRef → SourceType
source_type_of none = share
source_type_of (some source) = source.source_type

-- What the menu of a file in the file browser passes to `toggleFavorite`, with the browser's props
-- `currentFolderSource?.id || ""` and `currentFolderSource?.type || "share"`.
unfoldable pub starred_file : Session → FileEntry → FavoriteFile
starred_file s file = record {
  path = file.path;
  name = file.name;
  source_id = source_id_of s.current_folder_source;
  source_type = source_type_of s.current_folder_source;
  is_dir = file.is_dir;
  size = some file.size;
}
