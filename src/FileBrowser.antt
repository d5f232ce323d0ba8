-- ===== src/FileBrowser.antt =====
-- The component `FileBrowser` of apps/desktop/src/App.tsx: the folder that is open below the root of
-- a share or connection, its listing, the selection and the deletion of a file. A call of
-- `list_directory` is two actions, the request and the answer, so that the answers of overlapping
-- requests may come in any order. `lower` is `toLowerCase`.
pub mod Names
pub mod Runs
pub mod Safety
pub mod Selection
use wormhole.Paths.{text_length, get_parent_path, get_relative_path, join_path}
use wormhole.Texts.{includes}
use wormhole.Common.{
  ℕ, String, Bool, true, false, ◌==◌, Option, none, some, List, [], ◌∷◌, ◌++◌, leb, not,
  if◌then◌else◌, filter, any, take,
}

pub record FileEntry : Type 0 where
  pub name : String
  pub path : String
  pub is_dir : Bool
  pub size : ℕ
  pub modified : Option ℕ

pub record Browser : Type 0 where
  pub current_path : String
  pub files : List FileEntry
  pub loading : Bool
  pub error : Option String
  pub search_query : String
  pub selected_files : List String
  pub delete_confirm : Option FileEntry

-- What a call of the backend comes back with.
pub data Answer : Type 0 where
  answered : List FileEntry → Answer
  threw : String → Answer

abbrev pub first_render : String → Browser
first_render root_path = record {
  current_path = root_path;
  files = [];
  loading = false;
  error = none;
  search_query = "";
  selected_files = [];
  delete_confirm = none;
}

-- `loadDirectory` up to the call of the backend.
unfoldable pub load_directory : Browser → Browser
load_directory s = record s { loading = true; error = none }

-- What `loadDirectory` does with the answer.
unfoldable pub directory_loaded : String → Answer → Browser → Browser
directory_loaded path (answered entries) s = record s {
  files = entries;
  current_path = path;
  selected_files = [];
  loading = false;
}
directory_loaded path (threw message) s = record s {
  error = some message;
  files = [];
  loading = false;
}

-- The effect on `rootPath`: after the first rendering, and after one with another root. There the
-- component is kept, with its folder, its selection and the requests that are not answered yet.
unfoldable pub root_path_effect : String → Browser → Browser × Option String
unfolding load_directory
root_path_effect root_path s =
    if root_path == "" then (s, none) else (load_directory s, some root_path)

-- `has`, and `delete` or `add`, of a set of texts.
abbrev pub set_has : String → List String → Bool
set_has a s = any (λ b. b == a) s

abbrev pub toggle_in : String → List String → List String
toggle_in a s = if set_has a s then filter (λ b. not (b == a)) s else s ++ a ∷ []

-- A handler's new state, and the folder that it asks the backend for.
abbrev pub Outcome : Type 0
Outcome = Browser × Option String

-- `open_file`, for a file that is clicked twice, changes no state.
unfoldable pub handle_file_click : FileEntry → Bool → Browser → Outcome
unfolding load_directory
handle_file_click file true s =
    if file.is_dir then (load_directory s, some file.path) else (s, none)
handle_file_click file false s =
    (record s { selected_files = toggle_in file.path s.selected_files }, none)

unfoldable pub go_up : String → Browser → Outcome
unfolding load_directory
go_up root_path s =
    let parent = get_parent_path s.current_path root_path in
    if leb (text_length root_path) (text_length parent)
    then (load_directory s, some parent)
    else (s, none)

-- The answer of `delete_path`, with the message if it throws; the folder to load is that of the
-- rendering that asked.
unfoldable pub file_deleted : String → Option String → Browser → Outcome
unfolding load_directory
file_deleted current_path none s =
    (record (load_directory s) { delete_confirm = none }, some current_path)
file_deleted current_path (some message) s = (record s { error = some message }, none)

abbrev pub set_delete_confirm : Option FileEntry → Browser → Browser
set_delete_confirm file s = record s { delete_confirm = file }

abbrev pub set_search_query : String → Browser → Browser
set_search_query query s = record s { search_query = query }

unfoldable pub path_parts_of : String → Browser → List String
path_parts_of root_path s = get_relative_path s.current_path root_path

-- The breadcrumb `i` opens the root and the first `i + 1` names below it.
unfoldable pub breadcrumb_path : String → ℕ → Browser → String
breadcrumb_path root_path n s =
    join_path (root_path ∷ take n (get_relative_path s.current_path root_path))

unfoldable pub filtered_files : (String → String) → Browser → List FileEntry
filtered_files lower s = filter (λ file. includes (lower file.name) (lower s.search_query)) s.files
