-- ===== src/Tests/DialogTests.antt =====
-- The dialogs: a share that is started and deleted, a typed-over address, a direct connection.
use Prim.Native.Char.{Char}
use mathlib.Core.Option.{some-injective}
use wormhole.History.{ConnectionHistoryItem, forever, one_hour}
use wormhole.History.Lookup.{connection_at}
use wormhole.HistoryHook.{MountInfo}
use wormhole.Session.{connect_dialog}
use wormhole.JoinCode.{extract_join_code, from_plain, format_join_code}
use wormhole.ShareDialog.{
  ShareDialog, first_share_dialog, StartRequest, Sharing, handle_start_hosting, hosting_answered,
  select_share_folder, run_setup, handle_stop_hosting, handle_delete_share, stop_hosting_by_id,
}
use wormhole.ShareDialog.Created.{IsShared, hosting_answered-IsShared}
use wormhole.ShareDialog.Runs.{IsStuck, stops, delete_share-IsStuck}
use wormhole.ConnectDialog.{
  ConnectDialog, first_connect_dialog, Listener, Connecting, Fresh, connect_answered,
  handle_connect, is_valid_code, type_address, listen_effect, connect_to_peer, peer_connected,
  disconnect_by_id, handle_dialog_disconnect, no_address_message, reported_code, mount_ready_leaked,
  leaked_starts,
}
use wormhole.ConnectDialog.Input.{handle_connect-is_valid_code}
use wormhole.ConnectDialog.Created.{IsListed, connect_answered-IsListed}
use wormhole.ConnectDialog.Runs.{leaked_listening}
use wormhole.ConnectDialog.Listeners.{typed_over-IsListed}
use wormhole.ConnectDialog.Direct.{connected_directly, handle_dialog_disconnect-direct}
use wormhole.Tests.Data.{host, ne_of_test}
use wormhole.Tests.SessionTests.{opened}
use wormhole.Common.{
  String, ◌≡◌, ◌≢◌, refl, sym, ◌∙◌, ◌⊎◌, get_elem?, option_or_default, true, false, none, some,
  is_some, [], ◌∷◌, any, ◌==◌, if◌then◌else◌,
}

abbrev sharp_s : Char → String
sharp_s c = "SS"

abbrev request : StartRequest
request = record { id = "s1"; path = "/home/ann/docs"; expiration_option = one_hour }

abbrev chosen : Sharing
chosen = record {
  session = opened;
  dialog = record first_share_dialog {
    share_path = "/home/ann/docs";
    expiration_option = one_hour;
  };
  hosts = [];
  requests = [];
}

asked : (handle_start_hosting "s1" chosen).requests ≡ request ∷ []
unfolding handle_start_hosting
asked = refl

abbrev shared : Sharing
shared = record chosen {
  dialog = record chosen.dialog { share_id = "s1"; is_hosting = true; join_code = "NEW-456" };
  hosts = host ∷ [];
  requests = request ∷ [];
}

-- The Stop button works while the host runs, and not once its card was removed.
stopped : (handle_stop_hosting "gone" shared).dialog.is_hosting ≡ false
unfolding handle_stop_hosting
stopped = refl

not_stopped :
    (handle_stop_hosting "gone" (handle_delete_share "s1" shared)).dialog.status_message
    ≡ "Error: gone"
unfolding handle_stop_hosting handle_delete_share
not_stopped = refl

hosting_answered-IsShared_example :
    IsShared request 7 host chosen (hosting_answered request 7 host "f" 8 9 chosen)
hosting_answered-IsShared_example =
    hosting_answered-IsShared request 7 host "f" 8 9 chosen (ne_of_test "s1" "" refl)
      (ne_of_test "NEW-456" "" refl)

abbrev still : Sharing
still = handle_stop_hosting "gone" (handle_delete_share "s1" shared)

abbrev chooses_folder : String → Sharing → Sharing
chooses_folder path s = record s { dialog = select_share_folder (some path) s.dialog }

delete_share-IsStuck_example :
    IsStuck "s1" (request ∷ []) still
    × (((run_setup still).dialog.is_hosting ≡ false)
        × ((id path : String)
            → (handle_start_hosting id (chooses_folder path (run_setup still))).requests ≡ (
                if path == ""
                then request ∷ []
                else record { id = id; path = path; expiration_option = forever } ∷ request ∷ [])))
delete_share-IsStuck_example =
    delete_share-IsStuck shared refl (ne_of_test "s1" "" refl)
      (wormhole.ShareDialog.Runs.Run.next wormhole.ShareDialog.Runs.Run.here (stops "gone"))

abbrev typing : Listener
typing = record {
  host_address = "ABC-12";
  connection_id = "";
  has_emitted = false;
  registered = false;
}

abbrev entering : Connecting
entering = record {
  session = record opened { active_dialog = some connect_dialog };
  dialog = record first_connect_dialog {
    host_address = "ABC-12";
    mount_path = "/mnt/new";
    listener = some typing;
  };
  clients = [];
}

abbrev fresh : Fresh
fresh = record { id = "f1"; created_at = 1; last_connected_at = 2; now = 3 }

abbrev mounted : MountInfo
mounted = record { id = "c2"; mount_point = "/mnt/new"; join_code = "ABC-123" }

leaks : (type_address "ABC-123" entering).dialog.leaked ≡ typing ∷ []
unfolding type_address listen_effect
leaks = refl

abbrev coded : ConnectDialog
coded = record entering.dialog { host_address = "abc-123" }

read_code : extract_join_code sharp_s "abc-123" ≡ some "ABC-123"
unfolding extract_join_code from_plain format_join_code
read_code = refl

-- A link of dashes only is shown as valid and refused.
dashes_valid : is_valid_code sharp_s "wormhole://------" ≡ true
unfolding is_valid_code extract_join_code
dashes_valid = refl

dashes_refused :
    (handle_connect sharp_s "c2"
      (record coded { host_address = "wormhole://------" })).0.status_message
    ≡ no_address_message
unfolding handle_connect extract_join_code
dashes_refused = refl

handle_connect-is_valid_code_example :
    is_some (handle_connect sharp_s "c2" coded).1 ≡ is_valid_code sharp_s "abc-123"
handle_connect-is_valid_code_example =
    handle_connect-is_valid_code sharp_s "c2" coded (ne_of_test "/mnt/new" "" refl)
      (λ e. ne_of_test "ABC-123" "" refl (some-injective _ _ (sym read_code ∙ e)))

connect_answered-IsListed_example :
    IsListed "ABC-123" "/mnt/new" "c2" (connect_answered mounted fresh entering).session.history
    × ((q : String) (c : ConnectionHistoryItem)
        → "ABC-123" ≢ q
        → c.id ≢ "c2"
        → connection_at entering.session.history q ≡ some c
        → connection_at (connect_answered mounted fresh entering).session.history q ≡ some c)
    × ((connect_answered mounted fresh entering).session.current_folder ≡ "/mnt/new")
    × ((connect_answered mounted fresh entering).session.active_dialog ≡ none)
    × ((connect_answered mounted fresh entering).dialog.is_connected ≡ true)
    × ((connect_answered mounted fresh entering).dialog.mount_path ≡ "/mnt/new")
connect_answered-IsListed_example =
    connect_answered-IsListed mounted fresh entering (ne_of_test "c2" "" refl)

-- The leaked listener starts to hear events, and the mount comes.
abbrev ended : Connecting
ended = record (type_address "ABC-123" entering) {
  dialog = leaked_starts 0 (type_address "ABC-123" entering).dialog;
}

typed_over-IsListed_example :
    (m : Listener) × ((get_elem? ended.dialog.leaked 0 ≡ some m)
      × ((m.host_address ≡ "ABC-12") × (m.connection_id ≡ ""))
      × ((m.registered ≡ false)
          ⊎ ((m.has_emitted ≡ true)
              ⊎ IsListed
                  (reported_code sharp_s "ABC-12")
                  "/mnt/new"
                  (option_or_default (some "") "f1")
                  (mount_ready_leaked sharp_s 0 "/mnt/new" fresh ended).session.history)))
typed_over-IsListed_example =
    typed_over-IsListed sharp_s entering ended typing "ABC-123" "/mnt/new" fresh refl refl refl (
      wormhole.ConnectDialog.Runs.Run.next wormhole.ConnectDialog.Runs.Run.here
        (leaked_listening 0))

abbrev to_peer : Connecting
to_peer = record entering {
  dialog = record entering.dialog { host_address = "10.0.0.7:4433"; listener = none };
}

called_peer :
    (handle_connect sharp_s "c3" to_peer.dialog).1
    ≡ some (connect_to_peer "10.0.0.7:4433" "/mnt/new")
unfolding handle_connect extract_join_code from_plain
called_peer = refl

handle_dialog_disconnect-direct_example :
    ((handle_dialog_disconnect none "no" (connected_directly sharp_s "c3" to_peer)).clients
      ≡ peer_connected [])
    × (any (λ c. c == "default") (peer_connected []) ≡ true)
    × ((disconnect_by_id "c3" (peer_connected [])).1 ≡ false)
    × (record (handle_dialog_disconnect none "no"
          (connected_directly sharp_s "c3" to_peer)).dialog {
            status_message = (handle_connect sharp_s "c3" to_peer.dialog).0.status_message;
          }
        ≡ (handle_connect sharp_s "c3" to_peer.dialog).0)
handle_dialog_disconnect-direct_example =
    handle_dialog_disconnect-direct sharp_s "c3" to_peer "10.0.0.7:4433" "/mnt/new" none "no"
      called_peer (ne_of_test "c3" "" refl) (ne_of_test "c3" "default" refl) refl
