-- ===== src/HistoryHook/Runs.antt =====
-- useWormholeHistory.ts: every sequence of the hook's operations.
use wormhole.HistoryHook.{
  HostInfo, MountInfo, sync_with_backend, add_share, remove_share, set_share_status, add_connection,
  remove_connection, update_share, update_connection, set_connection_status, share_status_patch,
  connection_status_patch,
}
use wormhole.History.{
  ShareStatus, ConnectionStatus, ShareHistoryItem, ConnectionHistoryItem, WormholeHistory,
  SharePatch, ConnectionPatch,
}
use wormhole.HistoryHook.Sync.{sync_with_backend-IsConsistent}
use wormhole.History.Lookup.{
  IsConsistent, add_share-IsConsistent, add_connection-IsConsistent, update_share-IsConsistent,
  update_connection-IsConsistent, remove_share-IsConsistent, remove_connection-IsConsistent,
}
use wormhole.Common.{ℕ, String, ◌≡◌, refl, Option, none, List, Unclaimed}

-- One call of the hook. The identifier of an added share is that of no share of another path, and
-- the identifier of an added connection that of no connection of another join code. An update gives
-- no identifier and no path or join code of its own.
pub data Step (h : WormholeHistory) : WormholeHistory → Type 0 where
  share_added :
      (s : ShareHistoryItem)
      → Unclaimed (λ t. t.path) (λ t. t.id) s h.shares
      → Step h (add_share h s).0
  share_removed : (id : String) → Step h (remove_share h id)
  share_status :
      (id : String) (status : ShareStatus) (now : ℕ) → Step h (set_share_status h id status now)
  share_updated :
      (id : String) (u : SharePatch) → u.id ≡ none → u.path ≡ none → Step h (update_share h id u)
  connection_added :
      (c : ConnectionHistoryItem)
      → Unclaimed (λ d. d.join_code) (λ d. d.id) c h.connections
      → Step h (add_connection h c).0
  connection_removed : (id : String) → Step h (remove_connection h id)
  connection_status :
      (id : String) (status : ConnectionStatus) (message : Option String) (now : ℕ)
      → Step h (set_connection_status h id status message now)
  connection_updated :
      (id : String) (u : ConnectionPatch)
      → u.id ≡ none
      → u.join_code ≡ none
      → Step h (update_connection h id u)
  synced :
      (hosts : Option (List HostInfo)) (mounts : Option (List MountInfo))
      (clock : ShareHistoryItem → ℕ) (clock' : ConnectionHistoryItem → ℕ)
      → Step h (sync_with_backend hosts mounts clock clock' h)

pub data Reach (h : WormholeHistory) : WormholeHistory → Type 0 where
  here : Reach h h
  next : {g k : WormholeHistory} → Reach h g → Step g k → Reach h k

Step-IsConsistent : {h k : WormholeHistory} → Step h k → IsConsistent h → IsConsistent k
unfolding add_share remove_share update_share update_connection set_share_status add_connection
    remove_connection set_connection_status share_status_patch connection_status_patch
Step-IsConsistent (share_added s fresh) v = add_share-IsConsistent s fresh v
Step-IsConsistent (share_removed id) v = remove_share-IsConsistent id v
Step-IsConsistent (share_status id status now) v = update_share-IsConsistent id _ refl refl v
Step-IsConsistent (share_updated id u e f) v = update_share-IsConsistent id u e f v
Step-IsConsistent (connection_added c fresh) v = add_connection-IsConsistent c fresh v
Step-IsConsistent (connection_removed id) v = remove_connection-IsConsistent id v
Step-IsConsistent (connection_status id status message now) v =
    update_connection-IsConsistent id _ refl refl v
Step-IsConsistent (connection_updated id u e f) v = update_connection-IsConsistent id u e f v
Step-IsConsistent (synced hosts mounts clock clock') v =
    sync_with_backend-IsConsistent hosts mounts clock clock' _ v

-- In a history that calls of the hook make of one where no two shares have one path or identifier and
-- no two connections one join code or identifier, that is so as well. The identifier of each added
-- share is that of no share of another path, that of each added connection is that of no connection
-- of another join code, and no update gives an identifier, a path of a share or a join code of a
-- connection. The join codes of the shares may repeat.
pub Reach-IsConsistent : {h k : WormholeHistory} → IsConsistent h → Reach h k → IsConsistent k
Reach-IsConsistent v here = v
Reach-IsConsistent v (next r s) = Step-IsConsistent s (Reach-IsConsistent v r)
