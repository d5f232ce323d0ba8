-- ===== src/Tests/PanelTests.antt =====
-- The panel on one running transfer that completes.
use wormhole.Transfers.{upload}
use wormhole.TransferPanel.{
  ProgressEvent, CompletedEvent, PanelTransfer, CompletedTransfer, Panel, map_get,
  on_transfer_progress, on_transfer_completed, dismiss_completed,
}
use wormhole.TransferPanel.Entries.{IsProgress, IsNotice, map_get-events}
use wormhole.Common.{String, ◌==◌, if◌then◌else◌, ◌≡◌, refl, true, none, some, [], ◌∷◌}

abbrev running : PanelTransfer
running = record {
  id = "t1";
  file_name = "a.mp3";
  bytes_transferred = 10;
  total_bytes = 100;
  speed_bps = 5;
  eta_seconds = some 18;
  direction = upload;
  start_time = 3;
}

abbrev panel : Panel
panel = record { active_transfers = running ∷ []; completed_transfers = [] }

abbrev more : ProgressEvent
more = record {
  transfer_id = "t1";
  file_name = "a.mp3";
  bytes_transferred = 60;
  total_bytes = 100;
  speed_bps = 6;
  eta_seconds = some 7;
}

abbrev done : CompletedEvent
done = record {
  transfer_id = "t1";
  success = true;
  bytes_transferred = 100;
  duration_ms = 17;
  error = none;
}

nothing_left :
    dismiss_completed "t1" (on_transfer_completed done 20 (on_transfer_progress more 9 panel))
    ≡ record { active_transfers = []; completed_transfers = [] }
unfolding dismiss_completed on_transfer_completed on_transfer_progress
nothing_left = refl

map_get-events_example :
    ((t : PanelTransfer) × (IsProgress more 9 (some running) t
        × ((q : String)
            → map_get q (on_transfer_progress more 9 panel).active_transfers
              ≡ (if "t1" == q then some t else map_get q panel.active_transfers))))
    × ((n : CompletedTransfer) × (IsNotice done 9 (some running) n
          × (((on_transfer_completed done 9 panel).completed_transfers ≡ n ∷ [])
              × ((q : String)
                  → map_get q (on_transfer_completed done 9 panel).active_transfers
                    ≡ (if "t1" == q then none else map_get q panel.active_transfers)))))
map_get-events_example = map_get-events panel more done 9
