-- ===== src/Session.antt =====
-- The component `App` of apps/desktop/src/App.tsx: the view, the open folder, the dialogs and the
-- handlers of shares and connections. A handler that waits for the backend is two actions, one that
-- runs before the call and one for its answer, so that other actions may come between them.
pub mod Runs
pub mod Reconnect
use wormhole.History.{
  active, inactive, connected, connecting, disconnected, error, ShareHistoryItem,
  ConnectionHistoryItem, WormholeHistory,
}
use wormhole.HistoryHook.{
  HostInfo, MountInfo, sync_with_backend, add_share, remove_share, set_share_status, add_connection,
  remove_connection, set_connection_status,
}
use wormhole.Sources.{SourceType, share, connection}
use wormhole.Favorites.{FavoriteEntry}
use wormhole.Paths.{get_file_name}
use mathlib.Core.Option
use wormhole.Common.{
  ℕ, String, Bool, false, Option, none, some, List, map, if◌then◌else◌, or_default, find, has_key,
}

pub data NavigationView : Type 0 where
  all_files shared_with_me my_shares recent favorites settings : NavigationView

pub data DialogType : Type 0 where
  share_dialog connect_dialog : DialogType

pub record SourceRef : Type 0 where
  pub id : String
  pub source_type : SourceType

pub record DeleteConfirm : Type 0 where
  pub source_type : SourceType
  pub id : String
  pub name : String

-- The answers of the backend to one sync, and the clock while it runs.
pub record SyncAnswer : Type 0 where
  pub hosts : Option (List HostInfo)
  pub mounts : Option (List MountInfo)
  pub share_clock : ShareHistoryItem → ℕ
  pub connection_clock : ConnectionHistoryItem → ℕ

pub record Session : Type 0 where
  pub history : WormholeHistory
  pub active_view : NavigationView
  pub current_folder : String
  pub current_folder_source : Option SourceRef
  pub active_dialog : Option DialogType
  pub show_setup_wizard : Bool
  pub pending_join_code : Option String
  pub delete_confirm : Option DeleteConfirm

-- The callback of the sidebar.
unfoldable pub on_view_change : NavigationView → Session → Session
on_view_change all_files s = record s {
  active_view = all_files;
  current_folder = "";
  current_folder_source = none;
}
on_view_change view s = record s { active_view = view }

unfoldable pub on_back_to_all_files : Session → Session
on_back_to_all_files s = record s { current_folder = ""; current_folder_source = none }

abbrev pub source_or : Option SourceRef → Option SourceRef → Option SourceRef
source_or none old = old
source_or (some new) old = some new

-- Without a share of the path the old source stays.
unfoldable pub on_browse_share : String → Session → Session
on_browse_share path s = record s {
  current_folder = path;
  current_folder_source =
      source_or
        (Option.map (λ t. record { id = t.id; source_type = share })
          (find (has_key (λ t. t.path) path) s.history.shares))
        s.current_folder_source;
}

unfoldable pub on_browse_connection : String → Session → Session
on_browse_connection mount_point s = record s {
  current_folder = mount_point;
  current_folder_source =
      source_or
        (Option.map (λ c. record { id = c.id; source_type = connection })
          (find (has_key (λ c. c.mount_point) mount_point) s.history.connections))
        s.current_folder_source;
}

-- The callbacks `onBrowse` of the cards.
unfoldable pub on_browse_share_card : ShareHistoryItem → Session → Session
on_browse_share_card t s = record s {
  current_folder = t.path;
  current_folder_source = some (record { id = t.id; source_type = share });
  active_view = all_files;
}

unfoldable pub on_browse_connection_card : ConnectionHistoryItem → Session → Session
on_browse_connection_card c s = record s {
  current_folder = c.mount_point;
  current_folder_source = some (record { id = c.id; source_type = connection });
  active_view = all_files;
}

-- A row of the favorites that is a folder.
unfoldable pub on_browse_favorite : FavoriteEntry → Session → Session
on_browse_favorite entry s =
    if entry.is_dir
    then record s {
      current_folder = entry.path;
      current_folder_source =
          some (record { id = entry.source_id; source_type = entry.source_type });
      active_view = all_files;
    }
    else s

-- The buttons that open a dialog.
unfoldable pub set_active_dialog : DialogType → Session → Session
set_active_dialog dialog s = record s { active_dialog = some dialog }

-- The event `deep-link-join`.
unfoldable pub on_deep_link_join : String → Session → Session
on_deep_link_join join_code s = record s {
  pending_join_code = some join_code;
  active_dialog = some connect_dialog;
}

unfoldable pub on_share_dialog_close : Session → Session
on_share_dialog_close s = record s { active_dialog = none }

unfoldable pub on_connect_dialog_close : Session → Session
on_connect_dialog_close s = record s { active_dialog = none; pending_join_code = none }

unfoldable pub handle_setup_complete : Session → Session
handle_setup_complete s = record s { show_setup_wizard = false }

unfoldable pub sync : SyncAnswer → Session → Session
sync a s = record s {
  history = sync_with_backend a.hosts a.mounts a.share_clock a.connection_clock s.history;
}

-- `share` is what `addShare` builds.
unfoldable pub handle_share_created : ShareHistoryItem → Session → Session
handle_share_created t s = record s {
  history = (add_share s.history t).0;
  current_folder = t.path;
  current_folder_source = some (record { id = t.id; source_type = share });
  active_dialog = none;
}

unfoldable pub handle_stop_share : String → ℕ → Session → Session
handle_stop_share id now s = record s { history = set_share_status s.history id inactive now }

-- What follows `stop_hosting_by_id`; a call that throws is followed by a sync.
unfoldable pub stop_share_answered : Bool → SyncAnswer → Session → Session
unfolding sync
stop_share_answered ok a s = if ok then s else sync a s

unfoldable pub handle_resume_share : ShareHistoryItem → ℕ → Session → Session
handle_resume_share t now s = record s { history = set_share_status s.history t.id active now }

unfoldable pub resume_share_answered : ShareHistoryItem → Bool → SyncAnswer → Session → Session
unfolding sync
resume_share_answered t ok a s =
    if ok
    then record s {
      current_folder = t.path;
      current_folder_source = some (record { id = t.id; source_type = share });
    }
    else sync a s

-- What follows `stop_hosting_by_id`, whether or not it throws.
unfoldable pub delete_share_answered : String → Session → Session
delete_share_answered id s = record s { history = remove_share s.history id; delete_confirm = none }

unfoldable pub confirm_delete_share : ShareHistoryItem → Session → Session
confirm_delete_share t s = record s {
  delete_confirm = some (record {
    source_type = share;
    id = t.id;
    name = or_default (get_file_name t.path) "Shared Folder";
  });
}

-- `conn` is what `addConnection` builds.
unfoldable pub handle_connection_created : ConnectionHistoryItem → ℕ → Session → Session
handle_connection_created conn now s = record s {
  history = set_connection_status (add_connection s.history conn).0 conn.id connected none now;
  current_folder = conn.mount_point;
  current_folder_source = some (record { id = conn.id; source_type = connection });
  active_dialog = none;
}

unfoldable pub handle_disconnect : String → ℕ → Session → Session
handle_disconnect id now s = record s {
  history = set_connection_status s.history id disconnected none now;
}

unfoldable pub disconnect_answered : Bool → SyncAnswer → Session → Session
unfolding sync
disconnect_answered ok a s = if ok then s else sync a s

unfoldable pub handle_reconnect : ConnectionHistoryItem → ℕ → Session → Session
handle_reconnect c now s = record s {
  history = set_connection_status s.history c.id connecting none now;
}

-- What `handleReconnect` meets: no folder selected, the call answered, or something thrown.
pub data ReconnectAnswer : Type 0 where
  not_selected answered : ReconnectAnswer
  threw : String → ReconnectAnswer

unfoldable pub reconnect_answered : ConnectionHistoryItem → ReconnectAnswer → ℕ → Session → Session
reconnect_answered c not_selected now s = record s {
  history = set_connection_status s.history c.id disconnected none now;
}
reconnect_answered c answered now s = record s {
  history = set_connection_status s.history c.id connected none now;
}
reconnect_answered c (threw message) now s = record s {
  history = set_connection_status s.history c.id error (some message) now;
}

unfoldable pub handle_remove_connection : String → Session → Session
handle_remove_connection id s = record s {
  history = remove_connection s.history id;
  delete_confirm = none;
}

unfoldable pub confirm_remove_connection : ConnectionHistoryItem → Session → Session
confirm_remove_connection c s = record s {
  delete_confirm = some (record {
    source_type = connection;
    id = c.id;
    name = or_default (get_file_name c.mount_point) "Remote Share";
  });
}
