-- ===== src/FileIndex.antt =====
-- apps/desktop/src/hooks/useFileIndex.ts: the search index over the active shares and connections. A
-- refresh asks the backend for one directory after another; the effect's refresh is cancelled when the
-- sources change. `toLowerCase` and `trim` are the arguments `lower` and `trim`.
pub mod Refresh
use wormhole.History.{ShareHistoryItem, ConnectionHistoryItem}
use wormhole.HistoryHook.{is_active, is_connected}
use wormhole.Sources.{SourceType, share, connection}
use wormhole.Paths.{folder_name}
use wormhole.Texts.{includes}
use wormhole.Common.{
  ℕ, zero, suc, String, Bool, true, false, not, ◌||◌, Option, none, some, List, [], ◌∷◌, ◌++◌, map,
  ◌==◌, nat_eq, if◌then◌else◌, length, filter, any,
}

pub record IndexEntry : Type 0 where
  pub name : String
  pub name_lower : String
  pub path : String
  pub is_dir : Bool
  pub size : ℕ
  pub modified : Option ℕ
  pub root_path : String
  pub root_name : String
  pub root_type : SourceType

-- One directory to index: the arguments of `indexDirectory`.
pub record Root : Type 0 where
  pub path : String
  pub root_name : String
  pub root_type : SourceType

unfoldable pub active_shares : List ShareHistoryItem → List ShareHistoryItem
active_shares = filter (λ s. is_active s.status)

unfoldable pub active_connections : List ConnectionHistoryItem → List ConnectionHistoryItem
active_connections = filter (λ c. is_connected c.status)

-- The two loops of a refresh go over the active shares, then the active connections.
unfoldable pub roots : List ShareHistoryItem → List ConnectionHistoryItem → List Root
roots shares connections =
    map
      (λ s. record {
        path = s.path;
        root_name = folder_name s.path "Shared Folder";
        root_type = share;
      })
      (active_shares shares)
    ++ map
        (λ c. record {
          path = c.mount_point;
          root_name = folder_name c.mount_point "Remote Share";
          root_type = connection;
        })
        (active_connections connections)

-- `index_directory` that throws gives no entries.
abbrev pub entries_of : Option (List IndexEntry) → List IndexEntry
entries_of none = []
entries_of (some entries) = entries

abbrev pub contains : List String → String → Bool
contains paths path = any (λ p. p == path) paths

-- A `Set` of texts in the order of its insertions.
abbrev pub set_add : String → List String → List String
set_add path paths = if contains paths path then paths else paths ++ path ∷ []

unfoldable pub set_from : List String → List String → List String
set_from seen [] = seen
set_from seen (path ∷ paths) = set_from (set_add path seen) paths

-- `new Set([...activeShares.map(…), ...activeConnections.map(…)])`
unfoldable pub current_paths : List Root → List String
unfolding set_from
current_paths rs = set_from [] (map (λ r. r.path) rs)

unfoldable pub needs_reindex : List String → List String → Bool
needs_reindex current indexed =
    not (nat_eq (length current) (length indexed)) || any (λ p. not (contains indexed p)) current

-- A refresh that runs: the directories that are left, and its three local variables.
pub record RefreshJob : Type 0 where
  pub left : List Root
  pub new_index : List IndexEntry
  pub sources : List String
  pub paths : List String

pub record State : Type 0 where
  pub index : List IndexEntry
  pub is_indexing : Bool
  pub indexed_sources : List String
  pub indexed_paths : List String
  pub refresh : Option RefreshJob

abbrev pub begin : List Root → RefreshJob
begin rs = record { left = rs; new_index = []; sources = []; paths = [] }

abbrev pub indexed : Root → Option (List IndexEntry) → List Root → RefreshJob → RefreshJob
indexed r answer rest job = record {
  left = rest;
  new_index = job.new_index ++ entries_of answer;
  sources = job.sources ++ r.path ∷ [];
  paths = set_add r.path job.paths;
}

abbrev pub finish : RefreshJob → State → State
finish job s = record s {
  index = job.new_index;
  indexed_sources = job.sources;
  indexed_paths = job.paths;
  is_indexing = false;
  refresh = none;
}

-- A refresh goes on to its next directory, and ends at once where none is left.
abbrev pub carry_on : List Root → RefreshJob → State → State
carry_on [] job s = finish job s
carry_on (r ∷ rest) job s = record s { refresh = some job }

-- The effect of a change of the shares or connections: its clean-up cancels the refresh that runs,
-- which then returns at its next test without a change of the state.
unfoldable pub on_sources_changed :
    List ShareHistoryItem → List ConnectionHistoryItem → State → State
on_sources_changed shares connections s =
    if needs_reindex (current_paths (roots shares connections)) s.indexed_paths
    then carry_on (roots shares connections) (begin (roots shares connections))
        (record s { is_indexing = true })
    else record s { refresh = none }

-- The answer for the directory that is asked for, which `backend` gives; a refresh that runs has one.
abbrev pub job_step : (Root → Option (List IndexEntry)) → List Root → RefreshJob → State → State
job_step backend [] job s = s
job_step backend (r ∷ rest) job s = carry_on rest (indexed r (backend r) rest job) s

abbrev pub step_job : (Root → Option (List IndexEntry)) → Option RefreshJob → State → State
step_job backend none s = s
step_job backend (some job) s = job_step backend job.left job s

unfoldable pub refresh_step : (Root → Option (List IndexEntry)) → State → State
refresh_step backend s = step_job backend s.refresh s

unfoldable pub refresh_steps : ℕ → (Root → Option (List IndexEntry)) → State → State
refresh_steps zero backend s = s
refresh_steps (suc n) backend s = refresh_steps n backend (refresh_step backend s)

-- `refreshIndex`, of which nothing is cancelled, with the answers of all its calls.
abbrev pub index_all : (Root → Option (List IndexEntry)) → List Root → List IndexEntry
index_all backend [] = []
index_all backend (r ∷ rs) = entries_of (backend r) ++ index_all backend rs

unfoldable pub refresh_index :
    (Root → Option (List IndexEntry))
    → List ShareHistoryItem
    → List ConnectionHistoryItem
    → State
    → State
refresh_index backend shares connections s = record s {
  index = index_all backend (roots shares connections);
  indexed_sources = map (λ r. r.path) (roots shares connections);
  indexed_paths = current_paths (roots shares connections);
  is_indexing = false;
}

unfoldable pub search_results :
    (lower trim : String → String) → String → List IndexEntry → List IndexEntry
search_results lower trim query index =
    if trim query == "" then [] else filter (λ e. includes e.name_lower (trim (lower query))) index

unfoldable pub total_files : List IndexEntry → ℕ
total_files index = length (filter (λ e. not e.is_dir) index)

unfoldable pub total_folders : List IndexEntry → ℕ
total_folders index = length (filter (λ e. e.is_dir) index)
