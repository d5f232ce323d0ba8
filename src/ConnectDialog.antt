-- ===== src/ConnectDialog.antt =====
-- The component `ConnectDialog` of apps/desktop/src/App.tsx with what it calls: the handler
-- `handleConnectionCreated` of the application and, of the backend, the table of the client handles
-- with `disconnect_by_id` (apps/desktop/src-tauri/src/commands.rs). The listener of `mount-event` is
-- made anew whenever the address or the identifier changes; it starts to hear events some time
-- later, and the clean-up takes off only a listener that has started. `upper` is `toUpperCase` of a
-- character outside ASCII.
pub mod Input
pub mod Created
pub mod Runs
pub mod Listeners
pub mod Direct
use Prim.Native.Char.{Char}
use Prim.Native.String
use wormhole.Texts.{contains, trim, is_empty}
use wormhole.JoinCode.{extract_join_code}
use wormhole.HistoryHook.{MountInfo, new_connection}
use wormhole.Session.{
  Session, DialogType, share_dialog, connect_dialog, handle_connection_created,
  on_connect_dialog_close,
}
use wormhole.Common.{
  ℕ, zero, suc, String, Bool, true, false, not, ◌&&◌, ◌||◌, ◌==◌, Option, none, some, is_some, List,
  [], ◌∷◌, ◌++◌, if◌then◌else◌, or_default, option_or_default, truthy, any, filter, get_elem?, set,
}

-- `registered` says that `listen` has answered; the rest is what the callback captured.
pub record Listener : Type 0 where
  pub host_address : String
  pub connection_id : String
  pub has_emitted : Bool
  pub registered : Bool

-- `leaked` holds the listeners that a clean-up could not take off.
pub record ConnectDialog : Type 0 where
  pub host_address : String
  pub mount_path : String
  pub connection_id : String
  pub is_connected : Bool
  pub status_message : String
  pub listener : Option Listener
  pub leaked : List Listener

abbrev pub first_connect_dialog : ConnectDialog
first_connect_dialog = record {
  host_address = "";
  mount_path = "";
  connection_id = "";
  is_connected = false;
  status_message = "";
  listener = none;
  leaked = [];
}

-- The application with the dialog and the identifiers of the backend's client handles.
pub record Connecting : Type 0 where
  pub session : Session
  pub dialog : ConnectDialog
  pub clients : List String

abbrev pub is_direct : String → Bool
is_direct host_address = contains host_address ":" && not (contains host_address "://")

abbrev pub is_open : Session → Bool
is_open s = elim s.active_dialog [
  | none ↦ false
  | some d ↦ elim d [ share_dialog ↦ false | connect_dialog ↦ true ]
]

-- The clean-up of the effect.
abbrev pub clean_up : Option Listener → List Listener → List Listener
clean_up none leaked = leaked
clean_up (some l) leaked = if l.registered then leaked else leaked ++ l ∷ []

abbrev pub new_listener : Bool → ConnectDialog → Option Listener
new_listener opened d =
    if opened
    then some (record {
      host_address = d.host_address;
      connection_id = d.connection_id;
      has_emitted = false;
      registered = false;
    })
    else none

-- Whether the effect's dependencies are still those of its listener.
abbrev pub same_effect : Bool → ConnectDialog → Option Listener → Bool
same_effect opened d none = not opened
same_effect opened d (some l) =
    opened && (l.host_address == d.host_address && l.connection_id == d.connection_id)

-- The effect, after a rendering.
unfoldable pub listen_effect : Connecting → Connecting
listen_effect s =
    if same_effect (is_open s.session) s.dialog s.dialog.listener then s else record s {
      dialog = record s.dialog {
        listener = new_listener (is_open s.session) s.dialog;
        leaked = clean_up s.dialog.listener s.dialog.leaked;
      };
    }

module _ (upper : Char → String) where
  unfoldable pub is_valid_code : String → Bool
  is_valid_code host_address =
      not (is_empty (trim host_address))
      && (is_some (extract_join_code upper host_address) || is_direct host_address)

  -- What the callback of the listener reports: `extractedCode || hostAddress`.
  unfoldable pub reported_code : String → String
  reported_code host_address = option_or_default (extract_join_code upper host_address) host_address

-- What `handleConnect` asks the backend for.
pub data ConnectCall : Type 0 where
  connect_with_code_and_id : (id join_code mount_path : String) → ConnectCall
  connect_to_peer : (host_address mount_path : String) → ConnectCall

abbrev pub no_address_message : String
no_address_message = "Please enter a valid share link, join code, or address"

abbrev pub connect_to : String → ConnectDialog → Option String → ConnectDialog × Option ConnectCall
connect_to new_id d (some code) =
    (record d { connection_id = new_id }, some (connect_with_code_and_id new_id code d.mount_path))
connect_to new_id d none =
    if is_direct d.host_address
    then (record d { connection_id = new_id }, some (connect_to_peer d.host_address d.mount_path))
    else (record d { connection_id = new_id; status_message = no_address_message }, none)

-- `handleConnect` up to the call of the backend; `new_connection_id` is the fresh identifier.
unfoldable pub handle_connect :
    (Char → String) → String → ConnectDialog → ConnectDialog × Option ConnectCall
handle_connect upper new_connection_id d =
    if d.host_address == "" || d.mount_path == ""
    then (d, none)
    else connect_to new_connection_id d (truthy (extract_join_code upper d.host_address))

abbrev pub failed : String → ConnectDialog → ConnectDialog
failed message d = record d { status_message = String.◌++◌ "Error: " message }

-- What `addConnection` needs beside the arguments: an identifier and three readings of the clock.
pub record Fresh : Type 0 where
  pub id : String
  pub created_at : ℕ
  pub last_connected_at : ℕ
  pub now : ℕ

-- `onConnectionCreated`
unfoldable pub connection_created :
    (join_code mount_point connection_id : String) → Fresh → Session → Session
unfolding handle_connection_created new_connection
connection_created join_code mount_point connection_id fresh s =
    handle_connection_created
      (new_connection join_code mount_point none (some connection_id) fresh.id fresh.created_at
        fresh.last_connected_at)
      fresh.now s

-- The answer of `connect_with_code_and_id`.
unfoldable pub connect_answered : MountInfo → Fresh → Connecting → Connecting
unfolding connection_created
connect_answered result fresh s = listen_effect (record s {
  dialog = record s.dialog { is_connected = true; mount_path = result.mount_point };
  session = connection_created result.join_code result.mount_point result.id fresh s.session;
})

-- The event `MountReady` in a listener's callback; the listener's mark is set where it is kept.
unfoldable pub mount_ready : (Char → String) → Listener → String → Fresh → Connecting → Connecting
unfolding reported_code connection_created
mount_ready upper l mountpoint fresh s =
    if l.registered && not l.has_emitted
    then record s {
      dialog = record s.dialog {
        is_connected = true;
        mount_path = mountpoint;
        status_message = String.◌++◌ "Mounted at " mountpoint;
      };
      session =
          connection_created (reported_code upper l.host_address) mountpoint l.connection_id fresh
            s.session;
    }
    else s

abbrev pub emitted : Listener → Listener
emitted l = if l.registered then record l { has_emitted = true } else l

-- The event in the effect's own listener, and in a leaked one.
unfoldable pub mount_ready_here : (Char → String) → String → Fresh → Connecting → Connecting
unfolding mount_ready
mount_ready_here upper mountpoint fresh s = elim s.dialog.listener [
  | none ↦ s
  | some l ↦
      let t = mount_ready upper l mountpoint fresh s in
      listen_effect (record t { dialog = record t.dialog { listener = some (emitted l) } })
]

abbrev pub nth_leaked : ℕ → ConnectDialog → Option Listener
nth_leaked i d = get_elem? d.leaked i

unfoldable pub mount_ready_leaked : (Char → String) → ℕ → String → Fresh → Connecting → Connecting
unfolding mount_ready
mount_ready_leaked upper i mountpoint fresh s = elim (nth_leaked i s.dialog) [
  | none ↦ s
  | some l ↦
      let t = mount_ready upper l mountpoint fresh s in
      listen_effect
        (record t { dialog = record t.dialog { leaked = set t.dialog.leaked i (emitted l) } })
]

abbrev pub start_hearing : Listener → Listener
start_hearing l = record l { registered = true }

-- `listen` answers, for the effect's own listener and for a leaked one.
abbrev pub listener_starts : ConnectDialog → ConnectDialog
listener_starts d = record d {
  listener = elim d.listener [ none ↦ none | some l ↦ some (start_hearing l) ];
}

abbrev pub leaked_starts : ℕ → ConnectDialog → ConnectDialog
leaked_starts i d = elim (nth_leaked i d) [
  | none ↦ d
  | some l ↦ record d { leaked = set d.leaked i (start_hearing l) }
]

-- The event `Error`.
abbrev pub mount_failed : String → ConnectDialog → ConnectDialog
mount_failed message d = record d {
  is_connected = false;
  status_message = String.◌++◌ "Error: " message;
}

-- The input's `onChange`, the effect on `initialCode`, and the folder's selection and removal.
unfoldable pub type_address : String → Connecting → Connecting
type_address host_address s =
    listen_effect (record s { dialog = record s.dialog { host_address = host_address } })

-- Whether a value of the effect's dependencies `[isOpen, initialCode]` differs from the one of the
-- rendering before, whose session is `before`.
abbrev same_flag : Bool → Bool → Bool
same_flag a b = if a then b else not b

abbrev same_code : Option String → Option String → Bool
same_code none none = true
same_code none (some b) = false
same_code (some a) none = false
same_code (some a) (some b) = a == b

unfoldable pub initial_code_changed : (before : Session) → Session → Bool
initial_code_changed before now = not (
    same_flag (is_open before) (is_open now)
    && same_code before.pending_join_code now.pending_join_code)

unfoldable pub initial_code_effect : (before : Session) → Connecting → Connecting
unfolding type_address initial_code_changed
initial_code_effect before s = elim s.session.pending_join_code [
  | none ↦ s
  | some code ↦
      if initial_code_changed before s.session && (is_open s.session && not (code == ""))
      then type_address code s
      else s
]

unfoldable pub select_mount_folder : Option String → ConnectDialog → ConnectDialog
select_mount_folder none d = d
select_mount_folder (some selected) d =
    if selected == "" then d else record d { mount_path = selected }

abbrev pub clear_mount_path : ConnectDialog → ConnectDialog
clear_mount_path d = record d { mount_path = "" }

-- `disconnect_by_id` of the backend: whether there was a handle of the identifier.
unfoldable pub disconnect_by_id : String → List String → List String × Bool
disconnect_by_id id clients = (filter (λ c. not (c == id)) clients, any (λ c. c == id) clients)

-- What `connect_to_peer` leaves of the handles: one of the identifier `default`.
unfoldable pub peer_connected : List String → List String
unfolding disconnect_by_id
peer_connected clients = "default" ∷ (disconnect_by_id "default" clients).0

-- `disconnect` of the backend: the handle `default`, or else `other`, whichever key comes first.
unfoldable pub disconnect_any : Option String → List String → List String × Bool
unfolding disconnect_by_id
disconnect_any other clients =
    if (disconnect_by_id "default" clients).1
    then disconnect_by_id "default" clients
    else elim other [ none ↦ (clients, false) | some id ↦ disconnect_by_id id clients ]

abbrev pub disconnect_call : Option String → ConnectDialog → List String → List String × Bool
disconnect_call other d clients =
    if d.connection_id == ""
    then disconnect_any other clients
    else disconnect_by_id d.connection_id clients

-- `handleDisconnect` of the dialog, whose call is answered at once.
unfoldable pub handle_dialog_disconnect : Option String → String → Connecting → Connecting
unfolding disconnect_by_id disconnect_any on_connect_dialog_close
handle_dialog_disconnect other message s =
    let answer = disconnect_call other s.dialog s.clients in
    if answer.1
    then listen_effect (record s {
      clients = answer.0;
      dialog = record s.dialog { is_connected = false; connection_id = "" };
      session = on_connect_dialog_close s.session;
    })
    else record s {
      dialog = record s.dialog {
        status_message = String.◌++◌ "Disconnected (" (String.◌++◌ message ")");
      };
    }
