-- ===== src/ConnectDialog/Direct.antt =====
-- App.tsx: a connection to an address, which the backend keeps under the identifier `default`.
use Prim.Native.Char.{Char}
use mathlib.Core.Path.{subst}
use wormhole.JoinCode.{extract_join_code}
use wormhole.ConnectDialog.{
  ConnectDialog, Connecting, connect_to_peer, connect_to, handle_connect, peer_connected,
  disconnect_by_id, disconnect_call, handle_dialog_disconnect,
}
use wormhole.Common.{
  truthy, String, ◌≡◌, ◌≢◌, refl, sym, true, false, ◌||◌, not, Bool-cases, inl, inr, Option, none,
  some, List, [], ◌∷◌, ◌==◌, eq_iff, arith, any, filter,
}

-- The application after `connect_to_peer` has answered.
abbrev pub connected_directly : (Char → String) → String → Connecting → Connecting
connected_directly upper id s = record s {
  dialog = (handle_connect upper id s.dialog).0;
  clients = peer_connected s.clients;
}

called :
    (id : String) (d : ConnectDialog) (o : Option String) (host_address mount_path : String)
    → (connect_to id d o).1 ≡ some (connect_to_peer host_address mount_path)
    → (connect_to id d o).0.connection_id ≡ id
called id d none host mount e = ground arith
called id d (some code) host mount e = refl

takes_id :
    (upper : Char → String) (id : String) (d : ConnectDialog) (host_address mount_path : String)
    → (handle_connect upper id d).1 ≡ some (connect_to_peer host_address mount_path)
    → (handle_connect upper id d).0.connection_id ≡ id
unfolding handle_connect
takes_id upper id d host mount e = elim (Bool-cases (d.host_address == "" || d.mount_path == "")) [
  | inl blank ↦ absurd (let dead : none ≡ some (connect_to_peer host mount) = rw blank at e in cc)
  | inr given ↦
      rw given
        (called id d (truthy (extract_join_code upper d.host_address)) host mount (rw given at e))
]

any-filter_other :
    (id other : String) (xs : List String)
    → any (λ c. c == id) xs ≡ false
    → any (λ c. c == id) (filter (λ c. not (c == other)) xs) ≡ false
any-filter_other id other [] h = refl
any-filter_other id other (x ∷ xs) h = ground (arith, any-filter_other id other xs)

missed_call :
    (other : Option String) (d : ConnectDialog) (clients : List String)
    → d.connection_id ≢ ""
    → any (λ c. c == d.connection_id) clients ≡ false
    → (disconnect_call other d clients).1 ≡ false
unfolding disconnect_by_id
missed_call other d clients named h =
    let by_id : (d.connection_id == "") ≡ false = ground (arith, eq_iff d.connection_id "") in
    rw by_id h

-- If Connect calls `connect_to_peer`, then the dialog keeps the fresh identifier while the backend
-- keeps the mount under another: Disconnect in the dialog, and the disconnection of that identifier
-- from its card, find no handle, so that the mount goes on and the dialog stays as it was but for
-- its message. The fresh identifier is neither empty nor `default`, and no handle has it.
pub handle_dialog_disconnect-direct :
    (upper : Char → String) (id : String) (s : Connecting) (host_address mount_path : String)
    (other : Option String) (message : String)
    → (handle_connect upper id s.dialog).1 ≡ some (connect_to_peer host_address mount_path)
    → id ≢ ""
    → id ≢ "default"
    → any (λ c. c == id) s.clients ≡ false
    → ((handle_dialog_disconnect other message (connected_directly upper id s)).clients
        ≡ peer_connected s.clients)
      × (any (λ c. c == "default") (peer_connected s.clients) ≡ true)
      × ((disconnect_by_id id (peer_connected s.clients)).1 ≡ false)
      × (record (handle_dialog_disconnect other message (connected_directly upper id s)).dialog {
        status_message = (handle_connect upper id s.dialog).0.status_message;
      }
          ≡ (handle_connect upper id s.dialog).0)
unfolding handle_dialog_disconnect disconnect_by_id peer_connected
handle_dialog_disconnect-direct upper id s host mount other message call named plain fresh =
    let kept = takes_id upper id s.dialog host mount call in
    let none_left : any (λ c. c == id) (peer_connected s.clients) ≡ false =
      ground (arith, eq_iff "default" id, any-filter_other id "default" s.clients fresh) in
    let missed : (disconnect_call other (handle_connect upper id s.dialog).0
          (peer_connected s.clients)).1
        ≡ false =
      missed_call other (handle_connect upper id s.dialog).0 (peer_connected s.clients)
        (subst (λ i. i ≢ "") (sym kept) named)
        (subst (λ i. any (λ c. c == i) (peer_connected s.clients) ≡ false) (sym kept) none_left) in
    rw missed (refl, refl, none_left, refl)
