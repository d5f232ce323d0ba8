-- ===== src/HistoryHook.antt =====
-- apps/desktop/src/hooks/useWormholeHistory.ts: the history as the state of a hook. An operation is
-- the new history, beside the item that it returns. The readings of `Date.now()`, fresh
-- identifiers and the answers of the backend are arguments.
pub mod Sync
pub mod Links
pub mod Runs
use wormhole.Paths.{folder_name}
use wormhole.History.{
  ShareStatus, active, inactive, ConnectionStatus, connected, disconnected, connecting,
  ExpirationOption, forever, ShareHistoryItem, ConnectionHistoryItem, WormholeHistory, SharePatch,
  ConnectionPatch, update_share_in_history, update_connection_in_history, add_share_to_history,
  add_connection_to_history, remove_share_from_history, remove_connection_from_history,
}
use Prim.Native.String
use wormhole.Common.{
  ℕ, String, Bool, true, false, ◌||◌, Option, none, some, List, ◌++◌, map, if◌then◌else◌,
  option_or_default, find, has_key, has,
}

abbrev pub wormhole_base_url : String
wormhole_base_url = "https://wormhole.byronwade.com"

unfoldable pub make_share_link : String → String
make_share_link join_code = String.◌++◌ wormhole_base_url (String.◌++◌ "/j/" join_code)

-- An element of the answer of `get_active_hosts`.
pub record HostInfo : Type 0 where
  pub id : String
  pub share_path : String
  pub port : ℕ
  pub join_code : String

-- An element of the answer of `get_active_mounts`.
pub record MountInfo : Type 0 where
  pub id : String
  pub mount_point : String
  pub join_code : String

-- The share of one round of `prev.shares.map`: what the first host of its path says, if there is
-- one; `now` is the reading of the clock.
unfoldable pub sync_share : List HostInfo → ℕ → ShareHistoryItem → ShareHistoryItem
sync_share hosts now share = elim (find (has_key (λ h. h.share_path) share.path) hosts) [
  | none ↦ record share { status = inactive }
  | some host ↦ record share {
    status = active;
    last_active_at = now;
    join_code = host.join_code;
    port = host.port;
  }
]

unfoldable pub sync_connection : List MountInfo → ℕ → ConnectionHistoryItem → ConnectionHistoryItem
sync_connection mounts now conn =
    if has (λ m. m.mount_point) conn.mount_point mounts
    then record conn { status = connected; last_connected_at = now }
    else record conn { status = disconnected }

-- The answers of the two `invoke` calls; a call that throws (`none`) leaves the history alone. The
-- clocks say what is read when an item is reached.
unfoldable pub sync_with_backend :
    Option (List HostInfo)
    → Option (List MountInfo)
    → (ShareHistoryItem → ℕ)
    → (ConnectionHistoryItem → ℕ)
    → WormholeHistory
    → WormholeHistory
sync_with_backend none mounts clock clock' history = history
sync_with_backend (some hosts) none clock clock' history = history
sync_with_backend (some hosts) (some mounts) clock clock' history = record history {
  shares = map (λ s. sync_share hosts (clock s) s) history.shares;
  connections = map (λ c. sync_connection mounts (clock' c) c) history.connections;
}

-- The share that `addShare` builds. The two times are two readings of the clock.
unfoldable pub new_share :
    (path join_code : String) (port : ℕ) (name id : Option String)
    (expiration : Option ExpirationOption) (expires_at : Option ℕ) (fresh : String)
    (created_at last_active_at : ℕ)
    → ShareHistoryItem
new_share path join_code port name id expiration expires_at fresh created_at last_active_at =
    record {
      id = option_or_default id fresh;
      name = option_or_default name (folder_name path "Shared Folder");
      path = path;
      join_code = join_code;
      share_link = make_share_link join_code;
      port = port;
      status = active;
      created_at = created_at;
      last_active_at = last_active_at;
      expiration_option = elim expiration [ none ↦ forever | some e ↦ e ];
      expires_at = expires_at;
    }

unfoldable pub add_share : WormholeHistory → ShareHistoryItem → WormholeHistory × ShareHistoryItem
add_share prev share = (add_share_to_history prev share, share)

abbrev pub no_share_patch : SharePatch
no_share_patch = record {
  id = none;
  name = none;
  path = none;
  join_code = none;
  share_link = none;
  port = none;
  status = none;
  created_at = none;
  last_active_at = none;
  expiration_option = none;
  expires_at = none;
}

abbrev pub no_connection_patch : ConnectionPatch
no_connection_patch = record {
  id = none;
  name = none;
  join_code = none;
  mount_point = none;
  remote_host = none;
  status = none;
  created_at = none;
  last_connected_at = none;
  error_message = none;
}

unfoldable pub update_share : WormholeHistory → String → SharePatch → WormholeHistory
update_share = update_share_in_history

unfoldable pub remove_share : WormholeHistory → String → WormholeHistory
remove_share = remove_share_from_history

abbrev pub is_active : ShareStatus → Bool
is_active active = true
is_active _ = false

-- `...(status === "active" ? { lastActiveAt: Date.now() } : {})`
unfoldable pub share_status_patch : ShareStatus → ℕ → SharePatch
share_status_patch status now = record no_share_patch {
  status = some status;
  last_active_at = if is_active status then some now else none;
}

unfoldable pub set_share_status : WormholeHistory → String → ShareStatus → ℕ → WormholeHistory
unfolding share_status_patch
set_share_status prev id status now =
    update_share_in_history prev id (share_status_patch status now)

unfoldable pub get_active_share : WormholeHistory → Option ShareHistoryItem
get_active_share history = find (λ s. is_active s.status) history.shares

-- The connection that `addConnection` builds.
unfoldable pub new_connection :
    (join_code mount_point : String) (name id : Option String) (fresh : String)
    (created_at last_connected_at : ℕ)
    → ConnectionHistoryItem
new_connection join_code mount_point name id fresh created_at last_connected_at = record {
  id = option_or_default id fresh;
  name =
      option_or_default name
        (String.◌++◌ join_code (String.◌++◌ " : " (folder_name mount_point "Remote Share")));
  join_code = join_code;
  mount_point = mount_point;
  remote_host = none;
  status = connecting;
  created_at = created_at;
  last_connected_at = last_connected_at;
  error_message = none;
}

unfoldable pub add_connection :
    WormholeHistory → ConnectionHistoryItem → WormholeHistory × ConnectionHistoryItem
add_connection prev connection = (add_connection_to_history prev connection, connection)

unfoldable pub update_connection : WormholeHistory → String → ConnectionPatch → WormholeHistory
update_connection = update_connection_in_history

unfoldable pub remove_connection : WormholeHistory → String → WormholeHistory
remove_connection = remove_connection_from_history

abbrev pub is_connected : ConnectionStatus → Bool
is_connected connected = true
is_connected _ = false

abbrev is_connecting : ConnectionStatus → Bool
is_connecting connecting = true
is_connecting _ = false

-- The message is always part of the update: without one it is set to `undefined`.
unfoldable pub connection_status_patch : ConnectionStatus → Option String → ℕ → ConnectionPatch
connection_status_patch status message now = record no_connection_patch {
  status = some status;
  error_message = some message;
  last_connected_at = if is_connected status then some now else none;
}

unfoldable pub set_connection_status :
    WormholeHistory → String → ConnectionStatus → Option String → ℕ → WormholeHistory
unfolding connection_status_patch
set_connection_status prev id status message now =
    update_connection_in_history prev id (connection_status_patch status message now)

unfoldable pub get_active_connection : WormholeHistory → Option ConnectionHistoryItem
get_active_connection history =
    find (λ c. is_connected c.status || is_connecting c.status) history.connections
