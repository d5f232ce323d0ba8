-- ===== src/Session/Reconnect.antt =====
-- App.tsx: what the handlers that call the backend leave in the history.
use mathlib.Core.Option
use wormhole.History.{connected, disconnected, ShareHistoryItem, ConnectionHistoryItem}
use wormhole.HistoryHook.{HostInfo, MountInfo, sync_with_backend, sync_connection}
use wormhole.HistoryHook.Sync.{with_connection_status, connection_of_id-set_connection_status}
use wormhole.History.Lookup.{connection_of_id}
use wormhole.Session.{SyncAnswer, Session, answered, sync, reconnect_answered}
use wormhole.Common.{
  ℕ, String, ◌≡◌, refl, ap, ◌∙◌, ◌≢◌, false, none, some, List, [], ◌∷◌, ◌++◌, has, map, arith,
  eq_iff, eq_refl, find, has_key,
}

abbrev pub answer :
    List HostInfo
    → List MountInfo
    → (ShareHistoryItem → ℕ)
    → (ConnectionHistoryItem → ℕ)
    → SyncAnswer
answer hosts mounts clock clock' = record {
  hosts = some hosts;
  mounts = some mounts;
  share_clock = clock;
  connection_clock = clock';
}

sync_connection-id :
    (mounts : List MountInfo) (now : ℕ) (c : ConnectionHistoryItem)
    → (sync_connection mounts now c).id ≡ c.id
unfolding sync_connection
sync_connection-id mounts now c = ground arith

find-map_id :
    (f : ConnectionHistoryItem → ConnectionHistoryItem) (k : String)
    (xs : List ConnectionHistoryItem)
    → ((c : ConnectionHistoryItem) → (f c).id ≡ c.id)
    → find (has_key (λ c. c.id) k) (map f xs) ≡ Option.map f (find (has_key (λ c. c.id) k) xs)
find-map_id f k [] h = refl
find-map_id f k (c ∷ cs) h = ground (arith, h c, find-map_id f k cs h)

-- The connection as `handleReconnect` leaves it when its call was answered.
reconnected_connection :
    (c : ConnectionHistoryItem) (now : ℕ) (s : Session)
    → connection_of_id s.history c.id ≡ some c
    → connection_of_id (reconnect_answered c answered now s).history c.id
      ≡ some (with_connection_status connected none now c)
unfolding reconnect_answered
reconnected_connection c now s e =
    rw
      (
        connection_of_id-set_connection_status s.history c.id c.id connected none now,
        eq_refl c.id,
        e,
      )
      refl

-- No mount of the list is at the point, if none before the mount, not the mount and none after it is.
has_elsewhere :
    (mount_point : String) (before after : List MountInfo) (mount : MountInfo)
    → mount.mount_point ≢ mount_point
    → has (λ m. m.mount_point) mount_point before ≡ false
    → has (λ m. m.mount_point) mount_point after ≡ false
    → has (λ m. m.mount_point) mount_point (before ++ mount ∷ after) ≡ false
has_elsewhere point [] after mount ne e f = ground (arith, eq_iff mount.mount_point point)
has_elsewhere point (m ∷ ms) after mount ne e f = ground (arith, has_elsewhere point ms after mount)

sync_connection_elsewhere :
    (mounts : List MountInfo) (now : ℕ) (c : ConnectionHistoryItem)
    → has (λ m. m.mount_point) c.mount_point mounts ≡ false
    → sync_connection mounts now c ≡ record c { status = disconnected }
unfolding sync_connection
sync_connection_elsewhere mounts now c e = rw e refl

-- A connection that was reconnected at another mount point than the remembered one is shown as
-- disconnected by the next sync that is answered, although the backend reports the mount with the
-- connection's identifier and join code, if no other mount that it reports, before or after that one,
-- is at the remembered mount point.
pub reconnected_elsewhere-disconnected :
    (hosts : List HostInfo) (before after : List MountInfo) (selected : String)
    (clock : ShareHistoryItem → ℕ) (clock' : ConnectionHistoryItem → ℕ) (c : ConnectionHistoryItem)
    (now : ℕ) (s : Session)
    → selected ≢ c.mount_point
    → has (λ m. m.mount_point) c.mount_point before ≡ false
    → has (λ m. m.mount_point) c.mount_point after ≡ false
    → connection_of_id s.history c.id ≡ some c
    → let mount : MountInfo = record {
      id = c.id;
      mount_point = selected;
      join_code = c.join_code;
    } in
      connection_of_id
        (sync
          (answer hosts (before ++ mount ∷ after) clock clock')
          (reconnect_answered c answered now s)).history
        c.id
      ≡ some (record c { status = disconnected; error_message = none; last_connected_at = now })
unfolding sync sync_with_backend
reconnected_elsewhere-disconnected hosts before after selected clock clock' c now s ne e f at =
    let mount : MountInfo = record { id = c.id; mount_point = selected; join_code = c.join_code } in
    let mounts = before ++ mount ∷ after in
    let round : ConnectionHistoryItem → ConnectionHistoryItem =
      λ d. sync_connection mounts (clock' d) d in
    let shown = with_connection_status connected none now c in
    find-map_id round c.id _ (λ d. sync_connection-id mounts (clock' d) d)
    ∙ ap (Option.map round) (reconnected_connection c now s at)
    ∙ ap some (
        sync_connection_elsewhere mounts (clock' shown) shown
          (has_elsewhere c.mount_point before after mount ne e f))
