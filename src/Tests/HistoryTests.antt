-- ===== src/Tests/HistoryTests.antt =====
-- History and its hook on small inputs.

use wormhole.History.{
  ShareHistoryItem, WormholeHistory, active, inactive, disconnected, expiration_to_ms,
  reset_statuses, load_history, save_history, patch_share, patch_connection,
  update_share_in_history, update_connection_in_history, add_share_to_history,
  add_connection_to_history, remove_share_from_history, remove_connection_from_history,
}
use wormhole.History.Lookup.{share_at, IsConsistent, share_at-add_share}
use wormhole.History.Persistence.{load-save_history}
use wormhole.HistoryHook.{
  MountInfo, sync_share, sync_connection, sync_with_backend, set_share_status,
  set_connection_status, new_share, add_share, remove_share, make_share_link,
}
use wormhole.HistoryHook.Sync.{IsSynced, sync_with_backend-Reflects}
use wormhole.HistoryHook.Links.{LinkMatches, sync_share_stale_link}
use wormhole.HistoryHook.Runs
use wormhole.HistoryHook.Runs.{here, next, share_status, Reach-IsConsistent}
use wormhole.Tests.Data.{docs, sample, host, memory, plain, nothing_stored}
use wormhole.Paths.{folder_name}
use wormhole.Common.{
  ◌≡◌, refl, Option, none, some, List, [], ◌∷◌, map, arith, ◌==◌, eq_iff, if◌then◌else◌, All,
}

-- Names all that a run of the history computes with.
runs : Unit {0}
unfolding expiration_to_ms reset_statuses load_history save_history patch_share patch_connection
    update_share_in_history update_connection_in_history add_share_to_history
    add_connection_to_history remove_share_from_history remove_connection_from_history sync_share
    sync_connection sync_with_backend set_share_status set_connection_status new_share add_share
    remove_share make_share_link folder_name
runs = tt

abbrev shared : ShareHistoryItem
shared = new_share "/home/ann/docs" "NEW-456" 5000 none (some "s9") none none "fresh" 30 31

-- A share of a path that is known replaces the old one in place, with its identifier.
shared_again : map (λ s. s.id) (add_share sample shared).0.shares ≡ "s9" ∷ "s2" ∷ []
unfolding runs
shared_again = refl

named_after_folder : shared.name ≡ "docs"
unfolding runs
named_after_folder = refl

synced : WormholeHistory
synced = sync_with_backend (some (host ∷ [])) (some []) (λ s. 40) (λ c. 41) sample

-- The hosted share is active with the host's port; the paused one is inactive and the connection
-- without a mount is disconnected.
after_sync :
    (map (λ s. s.status) synced.shares ≡ active ∷ inactive ∷ [])
    × (map (λ s. s.port) synced.shares ≡ 5000 ∷ 4433 ∷ [])
    × (map (λ c. c.status) synced.connections ≡ disconnected ∷ [])
unfolding synced runs
after_sync = (refl, refl, refl)

share_at-add_share_example :
    (share_at (add_share_to_history sample docs) "/home/ann/music"
      ≡ (if docs.path == "/home/ann/music" then some docs else share_at sample "/home/ann/music"))
    × ((add_share_to_history sample docs).connections ≡ sample.connections)
share_at-add_share_example = share_at-add_share sample docs "/home/ann/music"

load-save_history_example :
    load_history
      (memory WormholeHistory)
      (plain WormholeHistory)
      (save_history (memory WormholeHistory) (plain WormholeHistory) nothing_stored sample)
    ≡ reset_statuses sample
load-save_history_example =
    load-save_history (memory WormholeHistory) (plain WormholeHistory) nothing_stored sample

sync_with_backend-Reflects_example :
    IsSynced
      (host ∷ [])
      []
      sample
      (sync_with_backend (some (host ∷ [])) (some []) (λ s. 40) (λ c. 41) sample)
    × (((o : Option (List MountInfo))
          → sync_with_backend none o (λ s. 40) (λ c. 41) sample ≡ sample)
        × (sync_with_backend (some (host ∷ [])) none (λ s. 40) (λ c. 41) sample ≡ sample))
sync_with_backend-Reflects_example =
    sync_with_backend-Reflects (host ∷ []) [] (λ s. 40) (λ c. 41) sample

sample-LinkMatches : All LinkMatches sample.shares
unfolding runs
sample-LinkMatches = (refl, (refl, tt))

sync_share_stale_link_example : ¬ LinkMatches (sync_share (host ∷ []) 40 docs)
sync_share_stale_link_example =
    sync_share_stale_link (host ∷ []) 40 docs host sample-LinkMatches.0 refl
      (ground (arith, eq_iff "NEW-456" "ABC-123"))

sample-IsConsistent : IsConsistent sample
sample-IsConsistent = record {
  paths = ((ground (arith, eq_iff "/home/ann/music" "/home/ann/docs"), tt), (tt, tt));
  share_ids = ((ground (arith, eq_iff "s2" "s1"), tt), (tt, tt));
  codes = (tt, tt);
  connection_ids = (tt, tt);
}

Reach-IsConsistent_example :
    IsConsistent (set_share_status (remove_share sample "s1") "s2" active 60)
Reach-IsConsistent_example =
    Reach-IsConsistent sample-IsConsistent
      (next (next here (Runs.share_removed "s1")) (share_status "s2" active 60))
