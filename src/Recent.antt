-- ===== src/Recent.antt =====
-- apps/desktop/src/types/recent.ts and apps/desktop/src/hooks/useRecentFiles.ts: the recently
-- accessed files, as the state of a hook. Fresh identifiers and readings of the clock are arguments.
pub mod Window
pub mod Groups
pub mod Persistence
use wormhole.History.{ShareHistoryItem, ConnectionHistoryItem}
use wormhole.Storage.{LocalStorage, Json, load_json, save_json}
use wormhole.Sources.{SourceType, is_valid_source, filter_if_changed}
use wormhole.Common.{
  ℕ, ◌-◌, ◌*◌, String, Bool, Option, none, some, List, [], ◌∷◌, ◌++◌, leb, if◌then◌else◌,
  find_index, erase_idx, get_elem?, take, has_key, remove_where,
}

pub record RecentFileEntry : Type 0 where
  pub id : String
  pub path : String
  pub name : String
  pub source_id : String
  pub source_type : SourceType
  pub accessed_at : ℕ
  pub size : Option ℕ
  pub is_dir : Bool

-- `Omit<RecentFileEntry, "id" | "accessedAt">`
pub record RecentFile : Type 0 where
  pub path : String
  pub name : String
  pub source_id : String
  pub source_type : SourceType
  pub size : Option ℕ
  pub is_dir : Bool

abbrev pub recent_storage_key : String
recent_storage_key = "wormhole_recent_files"

abbrev pub max_recent_files : ℕ
max_recent_files = 100

module _ {Text : Type 0} (storage : LocalStorage Text)
    (json : Json Text (List RecentFileEntry)) where
  open storage use {Store}

  unfoldable pub load_recent_files : Store → List RecentFileEntry
  load_recent_files s = load_json storage json recent_storage_key s []

  unfoldable pub save_recent_files : Store → List RecentFileEntry → Store
  save_recent_files s entries =
      save_json storage json recent_storage_key s (take max_recent_files entries)

pub record GroupedRecentFiles : Type 0 where
  pub today : List RecentFileEntry
  pub yesterday : List RecentFileEntry
  pub this_week : List RecentFileEntry
  pub earlier : List RecentFileEntry

abbrev pub one_day_ms : ℕ
one_day_ms = 24 * 60 * 60 * 1000

abbrev pub one_week_ms : ℕ
one_week_ms = 7 * one_day_ms

-- One round of the loop. A start before 1970 is 0 here: times are not negative.
unfoldable pub push_to_group : ℕ → GroupedRecentFiles → RecentFileEntry → GroupedRecentFiles
push_to_group today_start g entry =
    if leb today_start entry.accessed_at
    then record g { today = g.today ++ entry ∷ [] }
    else if leb (today_start - one_day_ms) entry.accessed_at
    then record g { yesterday = g.yesterday ++ entry ∷ [] }
    else if leb (today_start - one_week_ms) entry.accessed_at
    then record g { this_week = g.this_week ++ entry ∷ [] }
    else record g { earlier = g.earlier ++ entry ∷ [] }

unfoldable pub group_from : ℕ → GroupedRecentFiles → List RecentFileEntry → GroupedRecentFiles
group_from today_start g [] = g
group_from today_start g (entry ∷ entries) =
    group_from today_start (push_to_group today_start g entry) entries

-- `todayStart` is the last midnight, in milliseconds.
unfoldable pub group_recent_files_by_time : ℕ → List RecentFileEntry → GroupedRecentFiles
group_recent_files_by_time today_start =
    group_from today_start (record { today = []; yesterday = []; this_week = []; earlier = [] })

-- The effect on a change of the shares or connections: entries of removed sources go.
unfoldable pub cleanup_recent_files :
    List ShareHistoryItem → List ConnectionHistoryItem → List RecentFileEntry → List RecentFileEntry
cleanup_recent_files shares connections =
    filter_if_changed (λ e. is_valid_source shares connections e.source_id)

abbrev pub new_recent : RecentFile → String → ℕ → RecentFileEntry
new_recent file id now = record {
  id = id;
  path = file.path;
  name = file.name;
  source_id = file.source_id;
  source_type = file.source_type;
  accessed_at = now;
  size = file.size;
  is_dir = file.is_dir;
}

-- What goes to the front: the entry that was found with the new time, or a new entry.
abbrev pub stamped : RecentFile → String → ℕ → Option RecentFileEntry → RecentFileEntry
stamped file id now none = new_recent file id now
stamped file id now (some existing) = record existing { accessed_at = now }

-- The two branches on the result of `findIndex`; an index that is found is in range.
unfoldable pub add_at :
    RecentFile → String → ℕ → List RecentFileEntry → Option ℕ → List RecentFileEntry
add_at file id now prev none = take max_recent_files (new_recent file id now ∷ prev)
add_at file id now prev (some i) =
    take max_recent_files (stamped file id now (get_elem? prev i) ∷ erase_idx prev i)

unfoldable pub add_recent_file :
    RecentFile → String → ℕ → List RecentFileEntry → List RecentFileEntry
unfolding add_at
add_recent_file file id now prev =
    add_at file id now prev (find_index (has_key (λ f. f.path) file.path) prev)

unfoldable pub remove_recent_file : String → List RecentFileEntry → List RecentFileEntry
remove_recent_file = remove_where (λ f. f.id)

unfoldable pub clear_recent_files : List RecentFileEntry → List RecentFileEntry
clear_recent_files prev = []
