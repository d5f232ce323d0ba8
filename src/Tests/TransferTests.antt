-- ===== src/Tests/TransferTests.antt =====
-- Transfers on small inputs.
use wormhole.Sources.{share}
use wormhole.Transfers.{
  completed, upload, Event, transfer_started, transfer_progress, transfer_completed, timer_fired,
  step, run, init, on_started, on_progress, on_completed, on_timer, active_transfers, stats, sum_by,
}
use wormhole.Transfers.Terminal.{run-drains}
use wormhole.Transfers.Sidebar.{sidebar_transfer, sidebar_transfers}
use wormhole.Common.{◌≡◌, refl, ◌≢◌, true, none, some, [], ◌∷◌, map, All}

runs : Unit {0}
unfolding step run on_started on_progress on_completed on_timer active_transfers stats sum_by
    sidebar_transfer sidebar_transfers
runs = tt

abbrev began : Event
began =
    transfer_started
      (record {
        id = "t1";
        file_name = "a.mp3";
        file_path = "/m/a.mp3";
        source_id = "s1";
        source_type = share;
        direction = upload;
        total_bytes = 400;
      })
      100

abbrev went_on : Event
went_on = transfer_progress (record { id = "t1"; bytes_transferred = 250; total_bytes = 400 })

abbrev ended : Event
ended = transfer_completed (record { id = "t1"; success = true; error = none }) 900

-- 62.5 percent is shown as 63.
half_way :
    map
      (λ t. t.progress)
      (sidebar_transfers (active_transfers (run (began ∷ went_on ∷ []) init).transfers))
    ≡ 63 ∷ []
unfolding runs
half_way = refl

speed : stats 1100 (run (began ∷ went_on ∷ []) init).transfers ≡ record {
  active_count = 1;
  total_bytes_transferred = 250;
  average_speed = some (record { bytes = 250; elapsed_ms = 1000 });
}
unfolding runs
speed = refl

gone_after_timer : (run (began ∷ ended ∷ timer_fired "t1" ∷ []) init).transfers ≡ []
unfolding runs
gone_after_timer = refl

run-drains_example :
    All
      (λ t. t.status ≢ completed)
      (run
        (map timer_fired (run (began ∷ ended ∷ []) init).timers)
        (run (began ∷ ended ∷ []) init)).transfers
run-drains_example = run-drains (began ∷ ended ∷ []) (unfold runs in refl)
