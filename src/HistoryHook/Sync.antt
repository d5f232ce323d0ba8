-- ===== src/HistoryHook/Sync.antt =====
-- useWormholeHistory.ts: what `syncWithBackend` makes of the statuses.
use wormhole.HistoryHook.{
  HostInfo, MountInfo, sync_share, sync_connection, sync_with_backend, set_share_status,
  share_status_patch, set_connection_status, connection_status_patch, is_active, is_connected,
}
use wormhole.History.{
  ShareStatus, active, inactive, ConnectionStatus, connected, disconnected, ShareHistoryItem,
  ConnectionHistoryItem, WormholeHistory, patch_share, patch_connection,
}
use wormhole.History.Lookup.{
  IsConsistent, share_of_id, connection_of_id, share_of_id-update_share,
  connection_of_id-update_connection,
}
use mathlib.Core.Option
use wormhole.Common.{
  ℕ, String, ◌≡◌, refl, ◌⊎◌, inl, inr, true, false, Option, none, some, List, [], ◌∷◌, arith, ◌==◌,
  if◌then◌else◌, Bool-cases, Option-cases, find, map, All, All-map, has_key, has, Distinct-map,
}

-- What the backend's answers say of a share: active with the join code and the port of the first
-- host of its path, or inactive.
abbrev pub Reflects : List HostInfo → ShareHistoryItem → Type 0
Reflects hosts s =
    ((h : HostInfo) × (find (has_key (λ h. h.share_path) s.path) hosts ≡ some h)
      × (s.status ≡ active)
      × (s.join_code ≡ h.join_code)
      × (s.port ≡ h.port))
    ⊎ ((find (has_key (λ h. h.share_path) s.path) hosts ≡ none) × (s.status ≡ inactive))

abbrev pub ReflectsMounts : List MountInfo → ConnectionHistoryItem → Type 0
ReflectsMounts mounts c =
    ((has (λ m. m.mount_point) c.mount_point mounts ≡ true) × (c.status ≡ connected))
    ⊎ ((has (λ m. m.mount_point) c.mount_point mounts ≡ false) × (c.status ≡ disconnected))

sync_share-Reflects :
    (hosts : List HostInfo) (now : ℕ) (s : ShareHistoryItem)
    → Reflects hosts (sync_share hosts now s)
unfolding sync_share
sync_share-Reflects hosts now s =
    elim (Option-cases (find (has_key (λ h. h.share_path) s.path) hosts)) [
      | inl e ↦ rw (e, Reflects, sync_share) (inr (e, refl))
      | inr (h, e) ↦ rw (e, Reflects, sync_share) (inl (h, e, refl, refl, refl))
    ]

sync_connection-ReflectsMounts :
    (mounts : List MountInfo) (now : ℕ) (c : ConnectionHistoryItem)
    → ReflectsMounts mounts (sync_connection mounts now c)
unfolding sync_connection
sync_connection-ReflectsMounts mounts now c =
    elim (Bool-cases (has (λ m. m.mount_point) c.mount_point mounts)) [
      | inl e ↦ rw (e, ReflectsMounts, sync_connection) (inl (e, refl))
      | inr e ↦ rw (e, ReflectsMounts, sync_connection) (inr (e, refl))
    ]

abbrev Trivial {ℓ} : {A : Type ℓ} → A → Type 0
Trivial a = Unit

All-Trivial {ℓ} : {A : Type ℓ} (xs : List A) → All Trivial xs
All-Trivial [] = tt
All-Trivial (x ∷ xs) = (tt, All-Trivial xs)

-- A share without what a sync may change of it, and a connection.
abbrev pub share_rest : ShareHistoryItem → ShareHistoryItem
share_rest s = record s { status = inactive; last_active_at = 0; join_code = ""; port = 0 }

abbrev pub connection_rest : ConnectionHistoryItem → ConnectionHistoryItem
connection_rest c = record c { status = disconnected; last_connected_at = 0 }

sync_share-share_rest :
    (hosts : List HostInfo) (now : ℕ) (s : ShareHistoryItem)
    → share_rest (sync_share hosts now s) ≡ share_rest s
unfolding sync_share
sync_share-share_rest hosts now s =
    elim (Option-cases (find (has_key (λ h. h.share_path) s.path) hosts)) [
      | inl e ↦ rw (e, sync_share) refl
      | inr (h, e) ↦ rw (e, sync_share) refl
    ]

sync_connection-connection_rest :
    (mounts : List MountInfo) (now : ℕ) (c : ConnectionHistoryItem)
    → connection_rest (sync_connection mounts now c) ≡ connection_rest c
unfolding sync_connection
sync_connection-connection_rest mounts now c =
    elim (Bool-cases (has (λ m. m.mount_point) c.mount_point mounts)) [
      | inl e ↦ rw (e, sync_connection) refl
      | inr e ↦ rw (e, sync_connection) refl
    ]

map-rest {ℓ} :
    {A B : Type ℓ} (f : A → A) (r : A → B) (xs : List A)
    → ((x : A) → r (f x) ≡ r x)
    → map r (map f xs) ≡ map r xs
map-rest f r [] h = refl
map-rest f r (x ∷ xs) h = rw (h x, map-rest f r xs h) refl

-- What the history `k` after a sync of `h` with the two answers says.
pub record IsSynced (hosts : List HostInfo) (mounts : List MountInfo) (h k : WormholeHistory)
    : Type 0 where
  pub same_shares : map share_rest k.shares ≡ map share_rest h.shares
  pub same_connections : map connection_rest k.connections ≡ map connection_rest h.connections
  pub shares : All (Reflects hosts) k.shares
  pub connections : All (ReflectsMounts mounts) k.connections

-- After a sync in which both calls were answered, the shares and the connections are the ones before,
-- in their order and with all their fields but a share's status, last activity, join code and port and
-- a connection's status and last connection. Each share is active with the join code and port of the
-- first host of its path, or inactive where no host has its path, and each connection is connected
-- exactly where its mount point is among the mounts, and else disconnected. A sync of which a call is
-- not answered leaves the history as it was, whatever the other call answered.
pub sync_with_backend-Reflects :
    (hosts : List HostInfo) (mounts : List MountInfo) (clock : ShareHistoryItem → ℕ)
    (clock' : ConnectionHistoryItem → ℕ) (h : WormholeHistory)
    → IsSynced hosts mounts h (sync_with_backend (some hosts) (some mounts) clock clock' h)
      × (((o : Option (List MountInfo)) → sync_with_backend none o clock clock' h ≡ h)
          × (sync_with_backend (some hosts) none clock clock' h ≡ h))
unfolding sync_with_backend
sync_with_backend-Reflects hosts mounts clock clock' h = (
  record {
    same_shares = map-rest _ share_rest h.shares (λ s. sync_share-share_rest hosts (clock s) s);
    same_connections =
        map-rest _ connection_rest h.connections
          (λ c. sync_connection-connection_rest mounts (clock' c) c);
    shares =
        All-map Trivial (Reflects hosts) _ h.shares (λ s _. sync_share-Reflects hosts (clock s) s)
          (All-Trivial h.shares);
    connections =
        All-map Trivial (ReflectsMounts mounts) _ h.connections
          (λ c _. sync_connection-ReflectsMounts mounts (clock' c) c) (All-Trivial h.connections);
  },
  (λ o. refl, refl),
)

sync_share_keys :
    (hosts : List HostInfo) (now : ℕ) (s : ShareHistoryItem)
    → ((sync_share hosts now s).id ≡ s.id) × ((sync_share hosts now s).path ≡ s.path)
unfolding sync_share
sync_share_keys hosts now s = ground arith

sync_connection_keys :
    (mounts : List MountInfo) (now : ℕ) (c : ConnectionHistoryItem)
    → ((sync_connection mounts now c).id ≡ c.id)
      × ((sync_connection mounts now c).join_code ≡ c.join_code)
unfolding sync_connection
sync_connection_keys mounts now c = ground arith

-- A sync, answered or not, keeps identifiers, paths and join codes distinct.
pub sync_with_backend-IsConsistent :
    (hosts : Option (List HostInfo)) (mounts : Option (List MountInfo))
    (clock : ShareHistoryItem → ℕ) (clock' : ConnectionHistoryItem → ℕ) (h : WormholeHistory)
    → IsConsistent h
    → IsConsistent (sync_with_backend hosts mounts clock clock' h)
unfolding sync_with_backend
sync_with_backend-IsConsistent none mounts clock clock' h v = v
sync_with_backend-IsConsistent (some hosts) none clock clock' h v = v
sync_with_backend-IsConsistent (some hosts) (some mounts) clock clock' h v = record {
  paths =
      Distinct-map (λ s. s.path) _ h.shares (λ s. (sync_share_keys hosts (clock s) s).1) v.paths;
  share_ids =
      Distinct-map (λ s. s.id) _ h.shares (λ s. (sync_share_keys hosts (clock s) s).0) v.share_ids;
  codes =
      Distinct-map (λ c. c.join_code) _ h.connections
        (λ c. (sync_connection_keys mounts (clock' c) c).1) v.codes;
  connection_ids =
      Distinct-map (λ c. c.id) _ h.connections (λ c. (sync_connection_keys mounts (clock' c) c).0)
        v.connection_ids;
}

abbrev pub with_share_status : ShareStatus → ℕ → ShareHistoryItem → ShareHistoryItem
with_share_status status now s = record s {
  status = status;
  last_active_at = if is_active status then now else s.last_active_at;
}

patch_share_status :
    (status : ShareStatus) (now : ℕ)
    → patch_share (share_status_patch status now) ≡ with_share_status status now
unfolding patch_share share_status_patch
patch_share_status active now = refl
patch_share_status _ now = refl

-- `setShareStatus` gives the share of the identifier the status, and the time as its last activity
-- if the status is active; it changes nothing else of it and no share of another identifier.
share_of_id-set_share_status :
    (h : WormholeHistory) (id q : String) (status : ShareStatus) (now : ℕ)
    → share_of_id (set_share_status h id status now) q ≡ (
        if id == q
        then Option.map (with_share_status status now) (share_of_id h q)
        else share_of_id h q)
unfolding set_share_status
share_of_id-set_share_status h id q status now = rw (← patch_share_status status now) (
    share_of_id-update_share h id q (share_status_patch status now)
      (unfold share_status_patch in refl))

abbrev pub with_connection_status :
    ConnectionStatus → Option String → ℕ → ConnectionHistoryItem → ConnectionHistoryItem
with_connection_status status message now c = record c {
  status = status;
  error_message = message;
  last_connected_at = if is_connected status then now else c.last_connected_at;
}

patch_connection_status :
    (status : ConnectionStatus) (message : Option String) (now : ℕ)
    → patch_connection (connection_status_patch status message now)
      ≡ with_connection_status status message now
unfolding patch_connection connection_status_patch
patch_connection_status connected message now = refl
patch_connection_status _ message now = refl

-- `setConnectionStatus` gives the connection of the identifier the status and the message, an
-- earlier message being cleared where none is given, and the time as that of the last connection if
-- the status is connected; it changes no connection of another identifier.
pub connection_of_id-set_connection_status :
    (h : WormholeHistory) (id q : String) (status : ConnectionStatus) (message : Option String)
    (now : ℕ)
    → connection_of_id (set_connection_status h id status message now) q ≡ (
        if id == q
        then Option.map (with_connection_status status message now) (connection_of_id h q)
        else connection_of_id h q)
unfolding set_connection_status
connection_of_id-set_connection_status h id q status message now =
    rw (← patch_connection_status status message now) (
      connection_of_id-update_connection h id q (connection_status_patch status message now)
        (unfold connection_status_patch in refl))
