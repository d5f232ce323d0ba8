-- ===== src/ConnectDialog/Runs.antt =====
-- App.tsx: every sequence of actions with the dialog of connecting, and the leaked listeners in it.
use Prim.Native.Char.{Char}
use wormhole.HistoryHook.{MountInfo}
use wormhole.Session.{Session}
use wormhole.ConnectDialog.{
  Listener, ConnectDialog, Connecting, Fresh, clean_up, same_effect, is_open, listen_effect,
  type_address, initial_code_changed, initial_code_effect, select_mount_folder, clear_mount_path,
  connect_to, handle_connect, failed, connect_answered, mount_ready, emitted, mount_ready_here,
  mount_ready_leaked, nth_leaked, start_hearing, listener_starts, leaked_starts, mount_failed,
  disconnect_call, handle_dialog_disconnect,
}
use wormhole.JoinCode.{extract_join_code}
use wormhole.Common.{
  false, truthy, ℕ, zero, suc, String, ◌≡◌, refl, ap, ◌∙◌, not, ◌&&◌, Bool-cases, inl, inr, Option,
  none, some, List, [], ◌∷◌, ◌++◌, ◌==◌, get_elem?, set, arith,
}

abbrev with_dialog : (ConnectDialog → ConnectDialog) → Connecting → Connecting
with_dialog f s = record s { dialog = f s.dialog }

-- The dialog stays mounted: `Run Setup` of the settings page, which takes the whole tree away, is no
-- step. A change is followed by the effect where a dependency of it may have changed.
pub data Step (upper : Char → String) (s : Connecting) : Connecting → Type 0 where
  application :
      (t : Session)
      → t.show_setup_wizard ≡ false
      → Step upper s (listen_effect (record s { session = t }))
  types : (host_address : String) → Step upper s (type_address host_address s)
  initial_code : (before : Session) → Step upper s (initial_code_effect before s)
  selects : (selected : Option String) → Step upper s (with_dialog (select_mount_folder selected) s)
  clears : Step upper s (with_dialog clear_mount_path s)
  connects :
      (new_connection_id : String)
      → Step upper s
          (listen_effect (with_dialog (λ d. (handle_connect upper new_connection_id d).0) s))
  answered : (result : MountInfo) (fresh : Fresh) → Step upper s (connect_answered result fresh s)
  fails : (message : String) → Step upper s (with_dialog (failed message) s)
  listening : Step upper s (with_dialog listener_starts s)
  leaked_listening : (i : ℕ) → Step upper s (with_dialog (leaked_starts i) s)
  ready :
      (mountpoint : String) (fresh : Fresh)
      → Step upper s (mount_ready_here upper mountpoint fresh s)
  leaked_ready :
      (i : ℕ) (mountpoint : String) (fresh : Fresh)
      → Step upper s (mount_ready_leaked upper i mountpoint fresh s)
  mount_fails : (message : String) → Step upper s (with_dialog (mount_failed message) s)
  disconnects :
      (other : Option String) (message : String)
      → Step upper s (handle_dialog_disconnect other message s)
  backend : (clients : List String) → Step upper s (record s { clients = clients })

pub data Run (upper : Char → String) (s : Connecting) : Connecting → Type 0 where
  here : Run upper s s
  next : {t u : Connecting} → Run upper s t → Step upper t u → Run upper s u

-- The leaked listener at the index still holds what it captured.
abbrev pub Holds : ℕ → String → String → List Listener → Type 0
Holds i host_address connection_id leaked =
    (l : Listener) × ((get_elem? leaked i ≡ some l)
      × ((l.host_address ≡ host_address) × (l.connection_id ≡ connection_id)))

module _ (host_address connection_id : String) where
  Holds-append :
      (i : ℕ) (xs ys : List Listener)
      → Holds i host_address connection_id xs
      → Holds i host_address connection_id (xs ++ ys)
  Holds-append i [] ys (l, (e, h)) = cc
  Holds-append zero (x ∷ xs) ys h = h
  Holds-append (suc i) (x ∷ xs) ys h = Holds-append i xs ys h

  -- A listener's marks may be set at its place.
  Holds-set :
      (f : Listener → Listener)
      → ((l : Listener) → (f l).host_address ≡ l.host_address)
      → ((l : Listener) → (f l).connection_id ≡ l.connection_id)
      → (i j : ℕ) (xs : List Listener) (m : Listener) → get_elem? xs j ≡ some m
      → Holds i host_address connection_id xs
      → Holds i host_address connection_id (set xs j (f m))
  Holds-set f p q i j [] m e (l, (o, h)) = cc
  Holds-set f p q zero zero (x ∷ xs) m e (l, (o, (a, b))) =
      let same : m ≡ l = cc in
      (
        f m,
        (refl, (p m ∙ ap (λ k. k.host_address) same ∙ a, q m ∙ ap (λ k. k.connection_id) same ∙ b)),
      )
  Holds-set f p q (suc i) zero (x ∷ xs) m e h = h
  Holds-set f p q zero (suc j) (x ∷ xs) m e h = h
  Holds-set f p q (suc i) (suc j) (x ∷ xs) m e h = Holds-set f p q i j xs m e h

  module _ (i : ℕ) where
    abbrev Kept : Connecting → Type 0
    Kept s = Holds i host_address connection_id s.dialog.leaked

    clean_up-Holds :
        (o : Option Listener) (leaked : List Listener)
        → Holds i host_address connection_id leaked
        → Holds i host_address connection_id (clean_up o leaked)
    clean_up-Holds none leaked h = h
    clean_up-Holds (some l) leaked h = elim (Bool-cases l.registered) [
      | inl e ↦ rw e h
      | inr e ↦ rw e (Holds-append i leaked (_ ∷ []) h)
    ]

    effect-Kept : (s : Connecting) → Kept s → Kept (listen_effect s)
    unfolding listen_effect
    effect-Kept s h =
        elim (Bool-cases (same_effect (is_open s.session) s.dialog s.dialog.listener)) [
          | inl same ↦ rw same h
          | inr other ↦ rw other (clean_up-Holds s.dialog.listener s.dialog.leaked h)
        ]

    effect_from :
        (s : Connecting) (leaked : List Listener)
        → s.dialog.leaked ≡ leaked
        → Holds i host_address connection_id leaked
        → Kept (listen_effect s)
    effect_from s leaked e h = effect-Kept s (rw e h)

    connect_to-leaked :
        (new_id : String) (d : ConnectDialog) (o : Option String)
        → (connect_to new_id d o).0.leaked ≡ d.leaked
    connect_to-leaked new_id d none = ground arith
    connect_to-leaked new_id d (some code) = refl

    handle_connect-leaked :
        (upper : Char → String) (new_id : String) (d : ConnectDialog)
        → (handle_connect upper new_id d).0.leaked ≡ d.leaked
    unfolding handle_connect
    handle_connect-leaked upper new_id d =
        ground (arith, connect_to-leaked new_id d (truthy (extract_join_code upper d.host_address)))

    mount_ready-Kept :
        (upper : Char → String) (l : Listener) (mountpoint : String) (fresh : Fresh)
        (s : Connecting)
        → (mount_ready upper l mountpoint fresh s).dialog.leaked ≡ s.dialog.leaked
    unfolding mount_ready
    mount_ready-Kept upper l mountpoint fresh s = ground arith

    here-Kept :
        (upper : Char → String) (mountpoint : String) (fresh : Fresh) (s : Connecting)
        (o : Option Listener)
        → s.dialog.listener ≡ o
        → Kept s
        → Kept (mount_ready_here upper mountpoint fresh s)
    unfolding mount_ready_here
    here-Kept upper mountpoint fresh s none e h = rw (e, mount_ready_here) h
    here-Kept upper mountpoint fresh s (some l) e h =
        rw (e, mount_ready_here) (effect_from _ _ (mount_ready-Kept upper l mountpoint fresh s) h)

    leaked_ready-Kept :
        (upper : Char → String) (j : ℕ) (mountpoint : String) (fresh : Fresh) (s : Connecting)
        (o : Option Listener)
        → nth_leaked j s.dialog ≡ o
        → Kept s
        → Kept (mount_ready_leaked upper j mountpoint fresh s)
    unfolding mount_ready_leaked
    leaked_ready-Kept upper j mountpoint fresh s none e h = rw (e, mount_ready_leaked) h
    leaked_ready-Kept upper j mountpoint fresh s (some l) e h =
        rw (e, mount_ready_leaked)
          (effect_from _ _
            (ap (λ xs. set xs j (emitted l)) (mount_ready-Kept upper l mountpoint fresh s))
            (Holds-set emitted (λ k. ground arith) (λ k. ground arith) i j s.dialog.leaked l e h))

    starts-Kept :
        (j : ℕ) (s : Connecting) (o : Option Listener)
        → nth_leaked j s.dialog ≡ o
        → Kept s
        → Kept (with_dialog (leaked_starts j) s)
    starts-Kept j s none e h = rw (e, leaked_starts) h
    starts-Kept j s (some l) e h =
        rw (e, leaked_starts)
          (Holds-set start_hearing (λ k. refl) (λ k. refl) i j s.dialog.leaked l e h)

    initial-Kept :
        (before : Session) (s : Connecting) (o : Option String)
        → s.session.pending_join_code ≡ o
        → Kept s
        → Kept (initial_code_effect before s)
    unfolding initial_code_effect type_address
    initial-Kept before s none e h = rw (e, initial_code_effect) h
    initial-Kept before s (some code) e h =
        elim (Bool-cases
          (initial_code_changed before s.session && (is_open s.session && not (code == "")))) [
            | inl typed ↦ rw (e, initial_code_effect, typed) (effect_from _ _ refl h)
            | inr kept ↦ rw (e, initial_code_effect, kept) h
          ]

    select-Kept :
        (o : Option String) (s : Connecting) → Kept s → Kept (with_dialog (select_mount_folder o) s)
    unfolding select_mount_folder
    select-Kept none s h = h
    select-Kept (some x) s h = elim (Bool-cases (x == "")) [ inl e ↦ rw e h | inr e ↦ rw e h ]

    disconnect-Kept :
        (other : Option String) (message : String) (s : Connecting)
        → Kept s
        → Kept (handle_dialog_disconnect other message s)
    unfolding handle_dialog_disconnect
    disconnect-Kept other message s h =
        elim (Bool-cases (disconnect_call other s.dialog s.clients).1) [
          | inl e ↦ rw e (effect_from _ _ refl h)
          | inr e ↦ rw e h
        ]

    Step-Kept : {upper : Char → String} {s t : Connecting} → Step upper s t → Kept s → Kept t
    unfolding type_address connect_answered
    Step-Kept (application t mounted) h = effect-Kept _ h
    Step-Kept (types host) h = effect-Kept _ h
    Step-Kept {upper} {s} (initial_code before) h = initial-Kept before s _ refl h
    Step-Kept {upper} {s} (selects selected) h = select-Kept selected s h
    Step-Kept clears h = h
    Step-Kept {upper} {s} (connects new_id) h =
        effect_from _ _ (handle_connect-leaked upper new_id s.dialog) h
    Step-Kept (answered result fresh) h = effect-Kept _ h
    Step-Kept (fails message) h = h
    Step-Kept listening h = h
    Step-Kept {upper} {s} (leaked_listening j) h = starts-Kept j s _ refl h
    Step-Kept {upper} {s} (ready mountpoint fresh) h = here-Kept upper mountpoint fresh s _ refl h
    Step-Kept {upper} {s} (leaked_ready j mountpoint fresh) h =
        leaked_ready-Kept upper j mountpoint fresh s _ refl h
    Step-Kept (mount_fails message) h = h
    Step-Kept (disconnects other message) h = disconnect-Kept other message _ h
    Step-Kept (backend clients) h = h

    pub Run-Kept : {upper : Char → String} {s t : Connecting} → Run upper s t → Kept s → Kept t
    Run-Kept here h = h
    Run-Kept (next run step) h = Step-Kept step (Run-Kept run h)
