-- ===== src/Tests/FileIndexTests.antt =====
-- The file index on two directories, of which one does not answer.
use wormhole.FileIndex.{
  IndexEntry, Root, State, roots, refresh_steps, on_sources_changed, refresh_index, needs_reindex,
  current_paths, active_shares, active_connections,
}
use wormhole.FileIndex.Refresh.{refresh_steps-refresh_index, on_sources_changed_back-is_indexing}
use wormhole.History.{ShareHistoryItem, active}
use wormhole.Sources.{share}
use wormhole.Tests.Data.{docs, remote}
use wormhole.Common.{
  ◌≡◌, refl, true, false, Option, none, some, List, [], ◌∷◌, arith, ◌==◌, if◌then◌else◌,
}

abbrev song : IndexEntry
song = record {
  name = "A.mp3";
  name_lower = "a.mp3";
  path = "/home/ann/docs/A.mp3";
  is_dir = false;
  size = 3;
  modified = none;
  root_path = "/home/ann/docs";
  root_name = "docs";
  root_type = share;
}

abbrev shown : ShareHistoryItem
shown = record docs { status = active }

abbrev backend : Root → Option (List IndexEntry)
backend r = if r.path == "/home/ann/docs" then some (song ∷ []) else none

abbrev empty : State
empty = record {
  index = [];
  is_indexing = false;
  indexed_sources = [];
  indexed_paths = [];
  refresh = none;
}

refresh_steps-refresh_index_example :
    refresh_steps 2 backend (on_sources_changed (shown ∷ []) (remote ∷ []) empty) ≡ record {
      index = song ∷ [];
      is_indexing = false;
      indexed_sources = "/home/ann/docs" ∷ "/mnt/remote" ∷ [];
      indexed_paths = "/home/ann/docs" ∷ "/mnt/remote" ∷ [];
      refresh = none;
    }
unfolding needs_reindex current_paths roots active_shares active_connections refresh_index
refresh_steps-refresh_index_example =
    refresh_steps-refresh_index backend (shown ∷ []) (remote ∷ []) empty refl

on_sources_changed_back-is_indexing_example :
    let left : State = refresh_steps 5 backend (
      on_sources_changed [] []
        (refresh_steps 1 backend (on_sources_changed (shown ∷ []) (remote ∷ []) empty))) in
    (left.is_indexing ≡ true) × ((left.refresh ≡ none) × (left.index ≡ []))
unfolding needs_reindex current_paths roots active_shares active_connections
on_sources_changed_back-is_indexing_example =
    on_sources_changed_back-is_indexing backend [] (shown ∷ []) [] (remote ∷ []) empty 1 5 refl refl
      (omega arith)
