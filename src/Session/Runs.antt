-- ===== src/Session/Runs.antt =====
-- App.tsx: every sequence of the actions of the user, the backend and the timer.
use mathlib.Core.Option
use wormhole.History.{
  active, inactive, connected, ShareHistoryItem, ConnectionHistoryItem, WormholeHistory,
}
use wormhole.HistoryHook.{HostInfo, MountInfo, is_active}
use wormhole.HistoryHook.Runs.{
  Reach, here, next, share_added, share_removed, share_status, connection_added, connection_removed,
  connection_status, synced, Reach-IsConsistent,
}
use wormhole.History.Lookup.{IsConsistent}
use wormhole.Favorites.{FavoriteEntry}
use wormhole.Session.{
  DialogType, on_browse_favorite, set_active_dialog, NavigationView, all_files, shared_with_me,
  my_shares, recent, favorites, settings, SyncAnswer, Session, ReconnectAnswer, not_selected,
  answered, threw, SourceRef, on_view_change, on_back_to_all_files, source_or, on_browse_share,
  on_browse_connection, on_browse_share_card, on_browse_connection_card, on_deep_link_join,
  on_share_dialog_close, on_connect_dialog_close, handle_setup_complete, sync, handle_share_created,
  handle_stop_share, stop_share_answered, handle_resume_share, resume_share_answered,
  delete_share_answered, confirm_delete_share, handle_connection_created, handle_disconnect,
  disconnect_answered, handle_reconnect, reconnect_answered, handle_remove_connection,
  confirm_remove_connection,
}
use mathlib.Core.Path.{subst}
use wormhole.Common.{
  ℕ, String, ◌≡◌, refl, sym, ◌∙◌, ◌≢◌, Bool, true, false, Bool-cases, inl, inr, arith, Option, none,
  some, is_some, any-find, has_key, has, Unclaimed,
}

-- One action in a session. The identifier of a created share is that of no share of another path, and
-- the identifier of a created connection that of no connection of another join code, so a mount that
-- is reported twice, by its event and by the answer, is covered.
pub data Action (s : Session) : Session → Type 0 where
  view_changed : (view : NavigationView) → Action s (on_view_change view s)
  back : Action s (on_back_to_all_files s)
  share_browsed :
      (path : String)
      → has (λ t. t.path) path s.history.shares ≡ true
      → Action s (on_browse_share path s)
  connection_browsed :
      (mount_point : String)
      → has (λ c. c.mount_point) mount_point s.history.connections ≡ true
      → Action s (on_browse_connection mount_point s)
  share_card_browsed : (t : ShareHistoryItem) → Action s (on_browse_share_card t s)
  connection_card_browsed : (c : ConnectionHistoryItem) → Action s (on_browse_connection_card c s)
  favorite_browsed : (entry : FavoriteEntry) → Action s (on_browse_favorite entry s)
  dialog_opened : (dialog : DialogType) → Action s (set_active_dialog dialog s)
  deep_link : (join_code : String) → Action s (on_deep_link_join join_code s)
  share_dialog_closed : Action s (on_share_dialog_close s)
  connect_dialog_closed : Action s (on_connect_dialog_close s)
  setup_completed : Action s (handle_setup_complete s)
  periodic : (a : SyncAnswer) → Action s (sync a s)
  share_created :
      (t : ShareHistoryItem)
      → Unclaimed (λ u. u.path) (λ u. u.id) t s.history.shares
      → Action s (handle_share_created t s)
  share_stops : (id : String) (now : ℕ) → Action s (handle_stop_share id now s)
  share_stopped : (ok : Bool) (a : SyncAnswer) → Action s (stop_share_answered ok a s)
  share_resumes : (t : ShareHistoryItem) (now : ℕ) → Action s (handle_resume_share t now s)
  share_resumed :
      (t : ShareHistoryItem) (ok : Bool) (a : SyncAnswer)
      → Action s (resume_share_answered t ok a s)
  share_delete_asked : (t : ShareHistoryItem) → Action s (confirm_delete_share t s)
  share_deleted : (id : String) → Action s (delete_share_answered id s)
  connection_created :
      (c : ConnectionHistoryItem) (now : ℕ)
      → Unclaimed (λ d. d.join_code) (λ d. d.id) c s.history.connections
      → Action s (handle_connection_created c now s)
  disconnects : (id : String) (now : ℕ) → Action s (handle_disconnect id now s)
  disconnected_answer : (ok : Bool) (a : SyncAnswer) → Action s (disconnect_answered ok a s)
  reconnects : (c : ConnectionHistoryItem) (now : ℕ) → Action s (handle_reconnect c now s)
  reconnected :
      (c : ConnectionHistoryItem) (r : ReconnectAnswer) (now : ℕ)
      → Action s (reconnect_answered c r now s)
  connection_remove_asked : (c : ConnectionHistoryItem) → Action s (confirm_remove_connection c s)
  connection_removes : (id : String) → Action s (handle_remove_connection id s)

pub data Run (s : Session) : Session → Type 0 where
  start : Run s s
  acts : {t u : Session} → Run s t → Action t u → Run s u

one : {h k : WormholeHistory} → wormhole.HistoryHook.Runs.Step h k → Reach h k
one s = next here s

view_keeps : (view : NavigationView) (s : Session) → (on_view_change view s).history ≡ s.history
unfolding on_view_change
view_keeps all_files s = refl
view_keeps _ s = refl

favorite_keeps :
    (entry : FavoriteEntry) (s : Session) → (on_browse_favorite entry s).history ≡ s.history
unfolding on_browse_favorite
favorite_keeps entry s = ground arith

-- What an action makes of the history is made by calls of the history hook, none, one or two.
Action-Reach : {s t : Session} → Action s t → Reach s.history t.history
Action-Reach {s} (view_changed view) = subst (Reach s.history) (sym (view_keeps view s)) here
Action-Reach back = unfold on_back_to_all_files in here
Action-Reach (share_browsed path h) = unfold on_browse_share in here
Action-Reach (connection_browsed mount_point h) = unfold on_browse_connection in here
Action-Reach (share_card_browsed t) = unfold on_browse_share_card in here
Action-Reach (connection_card_browsed c) = unfold on_browse_connection_card in here
Action-Reach {s} (favorite_browsed entry) =
    subst (Reach s.history) (sym (favorite_keeps entry s)) here
Action-Reach (dialog_opened dialog) = unfold set_active_dialog in here
Action-Reach (deep_link join_code) = unfold on_deep_link_join in here
Action-Reach share_dialog_closed = unfold on_share_dialog_close in here
Action-Reach connect_dialog_closed = unfold on_connect_dialog_close in here
Action-Reach setup_completed = unfold handle_setup_complete in here
Action-Reach (periodic a) = unfold sync in one (synced _ _ _ _)
Action-Reach (share_created t fresh) = unfold handle_share_created in one (share_added t fresh)
Action-Reach (share_stops id now) = unfold handle_stop_share in one (share_status id inactive now)
Action-Reach (share_stopped true a) = unfold stop_share_answered in here
Action-Reach (share_stopped false a) = unfold stop_share_answered sync in one (synced _ _ _ _)
Action-Reach (share_resumes t now) =
    unfold handle_resume_share in one (share_status t.id active now)
Action-Reach (share_resumed t true a) = unfold resume_share_answered in here
Action-Reach (share_resumed t false a) = unfold resume_share_answered sync in one (synced _ _ _ _)
Action-Reach (share_delete_asked t) = unfold confirm_delete_share in here
Action-Reach (share_deleted id) = unfold delete_share_answered in one (share_removed id)
Action-Reach (connection_created c now fresh) =
    unfold handle_connection_created in
    next (one (connection_added c fresh)) (connection_status c.id connected none now)
Action-Reach (disconnects id now) =
    unfold handle_disconnect in one (connection_status id _ none now)
Action-Reach (disconnected_answer true a) = unfold disconnect_answered in here
Action-Reach (disconnected_answer false a) = unfold disconnect_answered sync in one (synced _ _ _ _)
Action-Reach (reconnects c now) = unfold handle_reconnect in one (connection_status c.id _ none now)
Action-Reach (reconnected c not_selected now) =
    unfold reconnect_answered in one (connection_status c.id _ none now)
Action-Reach (reconnected c answered now) =
    unfold reconnect_answered in one (connection_status c.id _ none now)
Action-Reach (reconnected c (threw message) now) =
    unfold reconnect_answered in one (connection_status c.id _ (some message) now)
Action-Reach (connection_remove_asked c) = unfold confirm_remove_connection in here
Action-Reach (connection_removes id) =
    unfold handle_remove_connection in one (connection_removed id)

-- In every run of the application, with backend calls that overlap other actions and that fail or
-- not, no two shares come to have one path or identifier and no two connections one join code or
-- identifier, if that was so at the start. The identifier of each created share is that of no share
-- of another path, that of each created connection is that of no connection of another join code, and
-- each browsed folder is of the history. The join codes of the shares may repeat.
pub Run-IsConsistent : {s t : Session} → Run s t → IsConsistent s.history → IsConsistent t.history
Run-IsConsistent start v = v
Run-IsConsistent (acts r a) v = Reach-IsConsistent (Run-IsConsistent r v) (Action-Reach a)

-- An open folder has a source.
abbrev pub HasSource : Session → Type 0
HasSource s = s.current_folder_source ≡ none → s.current_folder ≡ ""

source_or-some :
    (A : Type 0) (o : Option A) (f : A → SourceRef) (old : Option SourceRef)
    → is_some o ≡ true
    → source_or (Option.map f o) old ≢ none
source_or-some A none f old h = cc
source_or-some A (some a) f old h = λ e. cc

favorite-HasSource :
    (entry : FavoriteEntry) (s : Session) → HasSource s → HasSource (on_browse_favorite entry s)
unfolding on_browse_favorite
favorite-HasSource entry s v = elim (Bool-cases entry.is_dir) [
  | inl dir ↦ rw dir (λ e. cc)
  | inr plain ↦ rw plain v
]

Action-HasSource : {s t : Session} → Action s t → HasSource s → HasSource t
Action-HasSource (view_changed all_files) v = unfold on_view_change in λ e. refl
Action-HasSource (view_changed shared_with_me) v = unfold on_view_change in v
Action-HasSource (view_changed my_shares) v = unfold on_view_change in v
Action-HasSource (view_changed recent) v = unfold on_view_change in v
Action-HasSource (view_changed favorites) v = unfold on_view_change in v
Action-HasSource (view_changed settings) v = unfold on_view_change in v
Action-HasSource back v = unfold on_back_to_all_files in λ e. refl
Action-HasSource {s} (share_browsed path h) v =
    unfold on_browse_share in
    λ e. absurd (
      source_or-some _ _ _ s.current_folder_source
        (sym (any-find (has_key (λ t. t.path) path) s.history.shares) ∙ h) e)
Action-HasSource {s} (connection_browsed mount_point h) v =
    unfold on_browse_connection in
    λ e. absurd (
      source_or-some _ _ _ s.current_folder_source
        (sym (any-find (has_key (λ c. c.mount_point) mount_point) s.history.connections) ∙ h) e)
Action-HasSource (share_card_browsed t) v = unfold on_browse_share_card in λ e. cc
Action-HasSource (connection_card_browsed c) v = unfold on_browse_connection_card in λ e. cc
Action-HasSource {s} (favorite_browsed entry) v = favorite-HasSource entry s v
Action-HasSource (dialog_opened dialog) v = unfold set_active_dialog in v
Action-HasSource (deep_link join_code) v = unfold on_deep_link_join in v
Action-HasSource share_dialog_closed v = unfold on_share_dialog_close in v
Action-HasSource connect_dialog_closed v = unfold on_connect_dialog_close in v
Action-HasSource setup_completed v = unfold handle_setup_complete in v
Action-HasSource (periodic a) v = unfold sync in v
Action-HasSource (share_created t fresh) v = unfold handle_share_created in λ e. cc
Action-HasSource (share_stops id now) v = unfold handle_stop_share in v
Action-HasSource (share_stopped true a) v = unfold stop_share_answered in v
Action-HasSource (share_stopped false a) v = unfold stop_share_answered sync in v
Action-HasSource (share_resumes t now) v = unfold handle_resume_share in v
Action-HasSource (share_resumed t true a) v = unfold resume_share_answered in λ e. cc
Action-HasSource (share_resumed t false a) v = unfold resume_share_answered sync in v
Action-HasSource (share_delete_asked t) v = unfold confirm_delete_share in v
Action-HasSource (share_deleted id) v = unfold delete_share_answered in v
Action-HasSource (connection_created c now fresh) v = unfold handle_connection_created in λ e. cc
Action-HasSource (disconnects id now) v = unfold handle_disconnect in v
Action-HasSource (disconnected_answer true a) v = unfold disconnect_answered in v
Action-HasSource (disconnected_answer false a) v = unfold disconnect_answered sync in v
Action-HasSource (reconnects c now) v = unfold handle_reconnect in v
Action-HasSource (reconnected c not_selected now) v = unfold reconnect_answered in v
Action-HasSource (reconnected c answered now) v = unfold reconnect_answered in v
Action-HasSource (reconnected c (threw message) now) v = unfold reconnect_answered in v
Action-HasSource (connection_remove_asked c) v = unfold confirm_remove_connection in v
Action-HasSource (connection_removes id) v = unfold handle_remove_connection in v

-- In every run of the application whose browsed folders are of the remembered shares and
-- connections, and whose created items have identifiers of no share of another path and of no
-- connection of another join code, an open folder has a source at the
-- end if it had one at the start.
pub Run-HasSource : {s t : Session} → Run s t → HasSource s → HasSource t
Run-HasSource start v = v
Run-HasSource (acts r a) v = Action-HasSource a (Run-HasSource r v)
