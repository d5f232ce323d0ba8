-- ===== src/Recent/Persistence.antt =====
-- types/recent.ts: `loadRecentFiles` after `saveRecentFiles`.
use wormhole.Storage.{LocalStorage, Json, load_json-save_json}
use wormhole.Recent.{
  RecentFileEntry, max_recent_files, recent_storage_key, load_recent_files, save_recent_files,
}
use wormhole.Recent.Window.{IsWindow}
use wormhole.Common.{◌≡◌, List, [], if◌then◌else◌, is_some, take_of_length-le}

module _ {Text : Type 0} (storage : LocalStorage Text)
    (json : Json Text (List RecentFileEntry)) where
  open storage use {Store, set_item}
  open json use {stringify}

  -- What the hook keeps is read back whole if the browser took it: the cut to 100 entries loses
  -- nothing of a list that the hook made. If the browser did not take it, the load gives what it
  -- gave before.
  load-save_recent_files :
      (s : Store) (xs : List RecentFileEntry)
      → IsWindow xs
      → load_recent_files storage json (save_recent_files storage json s xs) ≡ (
          if is_some (set_item s recent_storage_key (stringify xs))
          then xs
          else load_recent_files storage json s)
  unfolding load_recent_files save_recent_files
  load-save_recent_files s xs v =
      rw (take_of_length-le max_recent_files xs v.bounded)
        (load_json-save_json storage json recent_storage_key s xs [])
