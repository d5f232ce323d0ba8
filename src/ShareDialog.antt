-- ===== src/ShareDialog.antt =====
-- The component `ShareDialog` of apps/desktop/src/App.tsx with what it calls: the handler
-- `handleShareCreated` of the application and, of the backend, the table of the running hosts with
-- `stop_hosting_by_id` (apps/desktop/src-tauri/src/commands.rs). The dialog stays mounted while it is
-- closed, so its state lives on until the setup wizard takes the place of the whole tree. A handler that waits is one function for each part between its
-- calls; the values that it captured when it began are those of the request.
pub mod Created
pub mod Runs
use Prim.Native.String
use wormhole.History.{ExpirationOption, forever, expiration_to_ms}
use wormhole.HistoryHook.{HostInfo, make_share_link, new_share}
use wormhole.Session.{Session, delete_share_answered, handle_share_created, on_share_dialog_close}
use wormhole.Common.{
  ℕ, ◌+◌, String, Bool, true, false, not, ◌==◌, Option, none, some, List, [], ◌∷◌, if◌then◌else◌,
  has, remove_where,
}

pub record ShareDialog : Type 0 where
  pub share_path : String
  pub join_code : String
  pub share_id : String
  pub port : ℕ
  pub host_ip_address : String
  pub is_hosting : Bool
  pub copied : Bool
  pub status_message : String
  pub expiration_option : ExpirationOption
  pub copy_timeout : Bool

abbrev pub first_share_dialog : ShareDialog
first_share_dialog = record {
  share_path = "";
  join_code = "";
  share_id = "";
  port = 4433;
  host_ip_address = "";
  is_hosting = false;
  copied = false;
  status_message = "";
  expiration_option = forever;
  copy_timeout = false;
}

-- The application with the dialog and the backend's hosts; `requests` are the shares that the dialog
-- has begun to start.
pub record StartRequest : Type 0 where
  pub id : String
  pub path : String
  pub expiration_option : ExpirationOption

pub record Sharing : Type 0 where
  pub session : Session
  pub dialog : ShareDialog
  pub hosts : List HostInfo
  pub requests : List StartRequest

abbrev pub with_error : String → String
with_error message = String.◌++◌ "Error: " message

-- What the folder dialog gives; `none` if it is cancelled or throws.
unfoldable pub select_share_folder : Option String → ShareDialog → ShareDialog
select_share_folder none d = d
select_share_folder (some selected) d =
    if selected == "" then d else record d { share_path = selected }

abbrev pub clear_share_path : ShareDialog → ShareDialog
clear_share_path d = record d { share_path = "" }

abbrev pub set_expiration_option : ExpirationOption → ShareDialog → ShareDialog
set_expiration_option option d = record d { expiration_option = option }

-- The listener of `host-event`, and the handlers of what a call throws.
abbrev pub host_failed : String → ShareDialog → ShareDialog
host_failed message d = record d { status_message = with_error message }

-- `handleStartHosting` up to the call of `get_local_ip`; `new_share_id` is the fresh identifier.
unfoldable pub handle_start_hosting : String → Sharing → Sharing
handle_start_hosting new_share_id s = if s.dialog.share_path == "" then s else record s {
  dialog = record s.dialog { share_id = new_share_id };
  requests =
      record {
        id = new_share_id;
        path = s.dialog.share_path;
        expiration_option = s.dialog.expiration_option;
      }
      ∷ s.requests;
}

unfoldable pub local_ip_answered : List String → ShareDialog → ShareDialog
local_ip_answered [] d = d
local_ip_answered (ip ∷ ips) d = record d { host_ip_address = ip }

-- `expiresInMs ? Date.now() + expiresInMs : null`
unfoldable pub expires_at_of : ExpirationOption → ℕ → Option ℕ
unfolding expiration_to_ms
expires_at_of option now = elim (expiration_to_ms option) [
  | none ↦ none
  | some ms ↦ some (now + ms)
]

-- The answer of `start_hosting_with_expiration`; `now` was read before the call, the identifier that
-- `addShare` would make and its two readings of the clock come after it.
unfoldable pub hosting_answered : StartRequest → ℕ → HostInfo → String → ℕ → ℕ → Sharing → Sharing
unfolding expires_at_of handle_share_created new_share
hosting_answered request now result fresh created_at last_active_at s = record s {
  dialog = record s.dialog { join_code = result.join_code; port = result.port; is_hosting = true };
  session =
      handle_share_created
        (new_share result.share_path result.join_code result.port none (some result.id)
          (some request.expiration_option) (expires_at_of request.expiration_option now) fresh
          created_at last_active_at)
        s.session;
}

-- `stop_hosting_by_id` of the backend: whether a host of the identifier was running.
unfoldable pub stop_hosting_by_id : String → List HostInfo → List HostInfo × Bool
stop_hosting_by_id id hosts = (remove_where (λ h. h.id) id hosts, has (λ h. h.id) id hosts)

-- `stop_hosting` stops the host `default`.
abbrev pub stopped_id : ShareDialog → String
stopped_id d = if d.share_id == "" then "default" else d.share_id

abbrev pub stopped_dialog : ShareDialog → ShareDialog
stopped_dialog d = record d {
  is_hosting = false;
  join_code = "";
  share_id = "";
  port = 4433;
  host_ip_address = "";
}

-- `message` is what the backend says if there is no such host.
unfoldable pub handle_stop_hosting : String → Sharing → Sharing
unfolding stop_hosting_by_id on_share_dialog_close
handle_stop_hosting message s =
    let stopped = stop_hosting_by_id (stopped_id s.dialog) s.hosts in
    if stopped.1
    then record s {
      hosts = stopped.0;
      dialog = stopped_dialog s.dialog;
      session = on_share_dialog_close s.session;
    }
    else record s { dialog = host_failed message s.dialog }

abbrev pub share_link : ShareDialog → String
share_link d = if d.join_code == "" then "" else make_share_link d.join_code

-- `copyShareLink` when the clipboard has taken the text; the timer that runs is set anew.
abbrev pub share_link_copied : ShareDialog → ShareDialog
share_link_copied d = record d { copied = true; copy_timeout = true }

abbrev pub copy_timeout_fires : ShareDialog → ShareDialog
copy_timeout_fires d =
    if d.copy_timeout then record d { copied = false; copy_timeout = false } else d

-- `handleDeleteShare` of the application: the share's host is stopped if it runs, and the share
-- leaves the history.
unfoldable pub handle_delete_share : String → Sharing → Sharing
unfolding stop_hosting_by_id delete_share_answered
handle_delete_share id s = record s {
  hosts = (stop_hosting_by_id id s.hosts).0;
  session = delete_share_answered id s.session;
}

-- `Run Setup` of the settings page: the application returns the wizard in place of the tree, which
-- unmounts the dialog, so that it begins anew after the wizard.
unfoldable pub run_setup : Sharing → Sharing
run_setup s = record s {
  session = record s.session { show_setup_wizard = true };
  dialog = first_share_dialog;
}
