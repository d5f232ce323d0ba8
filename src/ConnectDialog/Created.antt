-- ===== src/ConnectDialog/Created.antt =====
-- App.tsx: what a connection that the dialog has made is in the history.
use mathlib.Core.Option
use mathlib.Core.Path.{subst}
use wormhole.History.{
  ConnectionHistoryItem, connected, WormholeHistory, update_connection_in_history, patch_connection,
  add_connection_to_history,
}
use wormhole.History.Lookup.{connection_at, connection_at-add_connection}
use wormhole.HistoryHook.{
  MountInfo, new_connection, add_connection, set_connection_status, connection_status_patch,
}
use wormhole.Session.{Session, handle_connection_created}
use wormhole.ConnectDialog.{
  Connecting, Fresh, connection_created, connect_answered, listen_effect, same_effect, is_open,
}
use wormhole.Common.{
  ℕ, String, ◌≡◌, ◌≢◌, refl, ap, ◌∙◌, true, Bool-cases, inl, inr, none, some, List, [], ◌∷◌, map,
  ◌==◌, eq_iff, eq_refl, arith, if◌then◌else◌, option_or_default, find, has_key,
}

-- A map that keeps the keys maps what a key leads to.
find-map :
    {A : Type 0} (key : A → String) (j : String) (g : A → A) (xs : List A)
    → ((x : A) → key (g x) ≡ key x)
    → find (has_key key j) (map g xs) ≡ Option.map g (find (has_key key j) xs)
find-map key j g [] same = refl
find-map key j g (x ∷ xs) same = elim (Bool-cases (key x == j)) [
  | inl e ↦ rw (same x, e) refl
  | inr e ↦ rw (same x, e) (find-map key j g xs same)
]

-- A connection of the code that is connected under the identifier at the mount point.
pub record IsListed (join_code mount_point id : String) (h : WormholeHistory) : Type 0 where
  pub item : ConnectionHistoryItem
  pub listed : connection_at h join_code ≡ some item
  pub same_id : item.id ≡ id
  pub same_mount : item.mount_point ≡ mount_point
  pub is_connected : item.status ≡ connected

given : (id fresh : String) → id ≢ "" → option_or_default (some id) fresh ≡ id
given id fresh h = ground (arith, eq_iff id "")

at-set_connection_status :
    (h : WormholeHistory) (id q : String) (now : ℕ)
    → connection_at (set_connection_status h id connected none now) q
      ≡ Option.map
          (λ c.
            if c.id == id
            then patch_connection (connection_status_patch connected none now) c
            else c)
          (connection_at h q)
unfolding set_connection_status update_connection_in_history patch_connection
    connection_status_patch
at-set_connection_status h id q now =
    find-map (λ c. c.join_code) q _ h.connections (λ c. ground arith)

module _ (join_code mount_point connection_id : String) (fresh : Fresh) (s : Session) where
  pub created-IsListed :
      IsListed join_code mount_point
        (option_or_default (some connection_id) fresh.id)
        (connection_created join_code mount_point connection_id fresh s).history
  unfolding connection_created handle_connection_created add_connection new_connection
      patch_connection connection_status_patch
  created-IsListed =
      let made =
        new_connection join_code mount_point none (some connection_id) fresh.id fresh.created_at
          fresh.last_connected_at in
      let added : connection_at (add_connection_to_history s.history made) join_code ≡ some made =
        (connection_at-add_connection s.history made join_code).0 ∙ rw (eq_refl join_code) refl in
      record {
        item = patch_connection (connection_status_patch connected none fresh.now) made;
        listed =
            at-set_connection_status _ _ join_code fresh.now
            ∙ ap (Option.map _) added
            ∙ rw (eq_refl made.id) refl;
        same_id = refl;
        same_mount = refl;
        is_connected = refl;
      }

  created-others :
      (q : String) (c : ConnectionHistoryItem)
      → connection_id ≢ ""
      → join_code ≢ q
      → c.id ≢ connection_id
      → connection_at s.history q ≡ some c
      → connection_at (connection_created join_code mount_point connection_id fresh s).history q
        ≡ some c
  unfolding connection_created handle_connection_created add_connection new_connection
  created-others q c named other stranger at =
      let made =
        new_connection join_code mount_point none (some connection_id) fresh.id fresh.created_at
          fresh.last_connected_at in
      let kept : connection_at (add_connection_to_history s.history made) q ≡ some c =
        (connection_at-add_connection s.history made q).0
        ∙ ground (arith, eq_iff join_code q, at) in
      at-set_connection_status _ _ q fresh.now
      ∙ ap (Option.map _) kept
      ∙ ground (arith, given connection_id fresh.id named, eq_iff c.id made.id)

pub history-listen_effect : (s : Connecting) → (listen_effect s).session ≡ s.session
unfolding listen_effect
history-listen_effect s =
    elim (Bool-cases (same_effect (is_open s.session) s.dialog s.dialog.listener)) [
      | inl same ↦ rw same refl
      | inr other ↦ rw other refl
    ]

dialog-listen_effect :
    (s : Connecting)
    → ((listen_effect s).dialog.is_connected ≡ s.dialog.is_connected)
      × ((listen_effect s).dialog.mount_path ≡ s.dialog.mount_path)
unfolding listen_effect
dialog-listen_effect s =
    elim (Bool-cases (same_effect (is_open s.session) s.dialog s.dialog.listener)) [
      | inl same ↦ rw same (refl, refl)
      | inr other ↦ rw other (refl, refl)
    ]

-- Once the backend has answered the connection by a join code, whether or not the event of the mount
-- came before and was heard: the answer's code leads to a connection with its identifier and mount
-- point that is connected, a connection of another code and another identifier is as it was, the
-- mount is open as the folder, and the dialog is closed and shows the mount. The answer's identifier
-- is not empty.
pub connect_answered-IsListed :
    (result : MountInfo) (fresh : Fresh) (s : Connecting)
    → result.id ≢ ""
    → IsListed result.join_code result.mount_point result.id
        (connect_answered result fresh s).session.history
      × ((q : String) (c : ConnectionHistoryItem)
          → result.join_code ≢ q
          → c.id ≢ result.id
          → connection_at s.session.history q ≡ some c
          → connection_at (connect_answered result fresh s).session.history q ≡ some c)
      × ((connect_answered result fresh s).session.current_folder ≡ result.mount_point)
      × ((connect_answered result fresh s).session.active_dialog ≡ none)
      × ((connect_answered result fresh s).dialog.is_connected ≡ true)
      × ((connect_answered result fresh s).dialog.mount_path ≡ result.mount_point)
unfolding connect_answered
connect_answered-IsListed result fresh s named =
    let made = connection_created result.join_code result.mount_point result.id fresh s.session in
    let (shown, at) = dialog-listen_effect (record s {
      dialog = record s.dialog { is_connected = true; mount_path = result.mount_point };
      session = made;
    }) in
    rw (history-listen_effect _) (
      subst (λ id. IsListed result.join_code result.mount_point id made.history)
          (given result.id fresh.id named)
          (created-IsListed result.join_code result.mount_point result.id fresh s.session),
      (λ q c other stranger.
          created-others result.join_code result.mount_point result.id fresh s.session q c named
            other stranger),
      refl,
      refl,
      shown,
      at,
    )
