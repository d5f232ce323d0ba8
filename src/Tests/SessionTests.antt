-- ===== src/Tests/SessionTests.antt =====
-- A session that shares a folder, stops it, and reconnects a connection elsewhere.
use wormhole.History.{
  disconnected, ConnectionHistoryItem, add_connection_to_history, update_connection_in_history,
  patch_connection, update_share_in_history, add_share_to_history,
}
use wormhole.HistoryHook.{
  MountInfo, sync_with_backend, sync_connection, set_connection_status, connection_status_patch,
  set_share_status, add_share, add_connection,
}
use wormhole.History.Lookup.{IsConsistent, connection_of_id}
use wormhole.Session.{
  all_files, SyncAnswer, Session, answered, sync, handle_share_created, handle_connection_created,
  stop_share_answered, reconnect_answered, handle_stop_share,
}
use wormhole.Session.Runs.{
  Run, start, acts, share_created, connection_created, share_stops, share_stopped, HasSource,
  Run-IsConsistent, Run-HasSource,
}
use wormhole.Session.Reconnect.{answer, reconnected_elsewhere-disconnected}
use wormhole.Paths.{get_parent_path, get_file_name, join_path}
use wormhole.Tests.Data.{docs, remote, ne_of_test}
use wormhole.Common.{◌≡◌, refl, false, none, some, [], ◌∷◌, arith, eq_iff}

abbrev pub opened : Session
opened = record {
  history = record { shares = []; connections = remote ∷ []; version = 1 };
  active_view = all_files;
  current_folder = "";
  current_folder_source = none;
  active_dialog = none;
  show_setup_wizard = false;
  pending_join_code = none;
  delete_confirm = none;
}

opened-IsConsistent : IsConsistent opened.history
opened-IsConsistent = record {
  paths = tt;
  share_ids = tt;
  codes = (tt, tt);
  connection_ids = (tt, tt);
}

abbrev silence : SyncAnswer
silence = answer [] [] (λ s. 5) (λ c. 5)

abbrev stopped : Session
stopped =
    stop_share_answered false silence (handle_stop_share "s1" 4 (handle_share_created docs opened))

shares_and_stops : Run opened stopped
shares_and_stops =
    acts (acts (acts start (share_created docs tt)) (share_stops "s1" 4))
      (share_stopped false silence)

-- A mount that is reported twice with one join code and identifier, by its event and by the answer.
abbrev second : ConnectionHistoryItem
second = record remote { id = "c2"; join_code = "QRS-345"; mount_point = "/mnt/second" }

abbrev reported_twice : Session
reported_twice = handle_connection_created second 8 (handle_connection_created second 7 stopped)

mounts_second : Run opened reported_twice
unfolding handle_connection_created add_connection add_connection_to_history stop_share_answered
    handle_stop_share handle_share_created sync sync_with_backend sync_connection
    set_connection_status update_connection_in_history connection_status_patch patch_connection
    set_share_status update_share_in_history add_share add_share_to_history
mounts_second =
    acts
      (acts shares_and_stops
        (connection_created second 7 (λ e. absurd (ne_of_test "c1" "c2" refl e), tt)))
      (connection_created second 8 (λ e. refl, (λ e. absurd (ne_of_test "c1" "c2" refl e), tt)))

Run-IsConsistent_example : IsConsistent reported_twice.history
Run-IsConsistent_example = Run-IsConsistent mounts_second opened-IsConsistent

Run-HasSource_example : HasSource stopped
Run-HasSource_example = Run-HasSource shares_and_stops (λ e. refl)

abbrev third : MountInfo
third = record { id = "c3"; mount_point = "/mnt/third"; join_code = "QRS-345" }

reconnected_elsewhere-disconnected_example :
    connection_of_id
      (sync
        (answer []
          (third ∷ record { id = "c1"; mount_point = "/mnt/other"; join_code = "XYZ-789" } ∷ [])
          (λ s. 5)
          (λ c. 5))
        (reconnect_answered remote answered 4 opened)).history
      "c1"
    ≡ some (record remote { status = disconnected; error_message = none; last_connected_at = 4 })
reconnected_elsewhere-disconnected_example =
    reconnected_elsewhere-disconnected [] (third ∷ []) [] "/mnt/other" (λ s. 5) (λ c. 5) remote 4
      opened (λ e. absurd (ground (arith, eq_iff "/mnt/other" "/mnt/remote"))) refl refl refl

parents :
    (get_parent_path "/home/ann/docs" "/home" ≡ "/home/ann")
    × ((get_parent_path "/home" "/home" ≡ "/home") × (get_file_name "C:\\x\\y.txt" ≡ "y.txt"))
unfolding get_parent_path get_file_name
parents = (refl, (refl, refl))

joined : join_path ("C:" ∷ "" ∷ "x" ∷ []) ≡ "C:\\x"
unfolding join_path
joined = refl
