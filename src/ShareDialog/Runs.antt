-- ===== src/ShareDialog/Runs.antt =====
-- App.tsx: every sequence of actions with the dialog of sharing. What the dialog shows while it hosts
-- has no button that starts a share or changes the folder; the backend's hosts may change by other
-- calls at any time, a call to stop a host is answered at once, and the rest of the application may do
-- anything but run the setup wizard, which unmounts the dialog.
use wormhole.History.{ExpirationOption, forever}
use wormhole.HistoryHook.{HostInfo}
use wormhole.Session.{Session}
use wormhole.ShareDialog.{
  StartRequest, Sharing, ShareDialog, select_share_folder, clear_share_path, set_expiration_option,
  host_failed, handle_start_hosting, local_ip_answered, hosting_answered, stop_hosting_by_id,
  stopped_id, handle_stop_hosting, share_link_copied, copy_timeout_fires, handle_delete_share,
  run_setup,
}
use wormhole.Common.{
  ℕ, String, ◌≡◌, ◌≢◌, refl, ◌∙◌, ap, true, false, Bool-cases, inl, inr, ◌==◌, if◌then◌else◌,
  Option, some, List, [], ◌∷◌, eq_iff, arith, has, remove_where,
}

abbrev with_dialog : (ShareDialog → ShareDialog) → Sharing → Sharing
with_dialog f s = record s { dialog = f s.dialog }

-- `gone` is an identifier that no host is started with, be it by a resumed share or otherwise.
pub data Step (gone : String) (s : Sharing) : Sharing → Type 0 where
  application : (t : Session) → t.show_setup_wizard ≡ false → Step gone s (record s { session = t })
  selects :
      (selected : Option String)
      → s.dialog.is_hosting ≡ false
      → Step gone s (with_dialog (select_share_folder selected) s)
  clears : s.dialog.is_hosting ≡ false → Step gone s (with_dialog clear_share_path s)
  chooses :
      (option : ExpirationOption)
      → s.dialog.is_hosting ≡ false
      → Step gone s (with_dialog (set_expiration_option option) s)
  starts :
      (new_share_id : String)
      → s.dialog.is_hosting ≡ false
      → Step gone s (handle_start_hosting new_share_id s)
  local_ip : (ips : List String) → Step gone s (with_dialog (local_ip_answered ips) s)
  started :
      (request : StartRequest) (now : ℕ) (result : HostInfo) (fresh : String)
      (created_at last_active_at : ℕ)
      → Step gone s (hosting_answered request now result fresh created_at last_active_at s)
  fails : (message : String) → Step gone s (with_dialog (host_failed message) s)
  stops : (message : String) → Step gone s (handle_stop_hosting message s)
  copies : Step gone s (with_dialog share_link_copied s)
  copied_resets : Step gone s (with_dialog copy_timeout_fires s)
  deletes : (id : String) → Step gone s (handle_delete_share id s)
  backend :
      (hosts : List HostInfo)
      → has (λ h. h.id) gone hosts ≡ false
      → Step gone s (record s { hosts = hosts })

pub data Run (gone : String) (s : Sharing) : Sharing → Type 0 where
  here : Run gone s s
  next : {t u : Sharing} → Run gone s t → Step gone t u → Run gone s u

-- The dialog shows the share of an identifier as active while the backend has no host of it.
pub record IsStuck (gone : String) (requests : List StartRequest) (s : Sharing) : Type 0 where
  pub hosting : s.dialog.is_hosting ≡ true
  pub shows : s.dialog.share_id ≡ gone
  pub none_runs : has (λ h. h.id) gone s.hosts ≡ false
  pub none_started : s.requests ≡ requests

has-remove_where_self :
    (id : String) (hosts : List HostInfo)
    → has (λ h. h.id) id (remove_where (λ h. h.id) id hosts) ≡ false
has-remove_where_self id [] = refl
has-remove_where_self id (h ∷ hosts) = ground (arith, has-remove_where_self id hosts)

has-remove_where :
    (id other : String) (hosts : List HostInfo)
    → has (λ h. h.id) id hosts ≡ false
    → has (λ h. h.id) id (remove_where (λ h. h.id) other hosts) ≡ false
has-remove_where id other [] e = refl
has-remove_where id other (h ∷ hosts) e = ground (arith, has-remove_where id other hosts)

module _ (gone : String) (named : gone ≢ "") (requests : List StartRequest) where
  stop-IsStuck :
      (message : String) (s : Sharing)
      → IsStuck gone requests s
      → IsStuck gone requests (handle_stop_hosting message s)
  unfolding handle_stop_hosting stop_hosting_by_id
  stop-IsStuck message s h =
      let id : stopped_id s.dialog ≡ gone = ground (arith, h.shows, eq_iff s.dialog.share_id "") in
      let missed : has (λ x. x.id) (stopped_id s.dialog) s.hosts ≡ false =
        ap (λ i. has (λ x. x.id) i s.hosts) id ∙ h.none_runs in
      rw missed (record {
        hosting = h.hosting;
        shows = h.shows;
        none_runs = h.none_runs;
        none_started = h.none_started;
      })

  delete-IsStuck :
      (id : String) (s : Sharing)
      → IsStuck gone requests s
      → IsStuck gone requests (handle_delete_share id s)
  unfolding handle_delete_share stop_hosting_by_id
  delete-IsStuck id s h = record {
    hosting = h.hosting;
    shows = h.shows;
    none_runs = has-remove_where gone id s.hosts h.none_runs;
    none_started = h.none_started;
  }

  Step-IsStuck : {s t : Sharing} → Step gone s t → IsStuck gone requests s → IsStuck gone requests t
  unfolding hosting_answered local_ip_answered
  Step-IsStuck (application t mounted) h = ground arith
  Step-IsStuck (selects selected idle) h = cc
  Step-IsStuck (clears idle) h = cc
  Step-IsStuck (chooses option idle) h = cc
  Step-IsStuck (starts new_share_id idle) h = cc
  Step-IsStuck (local_ip []) h = ground arith
  Step-IsStuck (local_ip (ip ∷ ips)) h = ground arith
  Step-IsStuck (started request now result fresh created_at last_active_at) h = ground arith
  Step-IsStuck (fails message) h = ground arith
  Step-IsStuck (stops message) h = stop-IsStuck message _ h
  Step-IsStuck copies h = ground arith
  Step-IsStuck copied_resets h = ground arith
  Step-IsStuck (deletes id) h = delete-IsStuck id _ h
  Step-IsStuck (backend hosts none_there) h = ground arith

  Run-IsStuck_from :
      {s t : Sharing} → Run gone s t → IsStuck gone requests s → IsStuck gone requests t
  Run-IsStuck_from here h = h
  Run-IsStuck_from (next run step) h = Step-IsStuck step (Run-IsStuck_from run h)

starts_again :
    (s : Sharing) (requests : List StartRequest)
    → s.requests ≡ requests
    → (id path : String)
    → (handle_start_hosting id
        (with_dialog (select_share_folder (some path)) (run_setup s))).requests
      ≡ (if path == ""
          then requests
          else record { id = id; path = path; expiration_option = forever } ∷ requests)
unfolding handle_start_hosting select_share_folder run_setup
starts_again s requests e id path = elim (Bool-cases (path == "")) [
  | inl none_given ↦ rw none_given e
  | inr given ↦ rw (given, given, e) refl
]

-- If the share that the dialog shows as active is removed by its card, then the dialog goes on to show
-- it as active and starts no share, whatever else the user does and the backend answers, as long as no
-- host is started with the removed share's identifier and the setup wizard is not run. Running the
-- setup from the settings gives a dialog that hosts nothing, and the next start of a folder's share
-- makes a request again. The share's identifier is not empty.
pub delete_share-IsStuck :
    (s : Sharing) {t : Sharing}
    → s.dialog.is_hosting ≡ true
    → s.dialog.share_id ≢ ""
    → Run s.dialog.share_id (handle_delete_share s.dialog.share_id s) t
    → IsStuck s.dialog.share_id s.requests t
      × (((run_setup t).dialog.is_hosting ≡ false)
          × ((id path : String)
              → (handle_start_hosting id
                  (with_dialog (select_share_folder (some path)) (run_setup t))).requests
                ≡ (if path == ""
                    then s.requests
                    else record { id = id; path = path; expiration_option = forever }
                      ∷ s.requests)))
unfolding handle_delete_share stop_hosting_by_id run_setup
delete_share-IsStuck s {t} hosting named run =
    let stuck = Run-IsStuck_from s.dialog.share_id named s.requests run (record {
      hosting = hosting;
      shows = refl;
      none_runs = has-remove_where_self s.dialog.share_id s.hosts;
      none_started = refl;
    }) in
    (stuck, (refl, λ id path. starts_again t s.requests stuck.none_started id path))
