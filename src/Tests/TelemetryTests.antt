-- ===== src/Tests/TelemetryTests.antt =====
-- The telemetry hook on a run that opts in, tracks and opts out.
use wormhole.Telemetry.{
  SettingsPatch, State, default_telemetry_settings, share_started, track, all_flags, timer_fires,
  disable_all, commit, enable_all, updated_settings,
}
use wormhole.Telemetry.Privacy.{
  Call, tracks, enables, disables, timer, unmounts, run, IsSilent, run-IsSilent,
}
use wormhole.Telemetry.Consent.{IsOwn}
use wormhole.Common.{ℕ, ◌≡◌, refl, true, false, none, some, List, [], ◌∷◌, map, arith, All}

abbrev off : State
off = record {
  settings = default_telemetry_settings;
  event_queue = [];
  flush_timeout = none;
  sent = [];
}

abbrev consented : State
consented = record off {
  settings = record {
    enabled = true;
    share_usage_data = true;
    share_error_reports = false;
    consent_given_at = some 7;
  };
}

abbrev calls : List Call
calls =
    enables 7 7 "linux" "ab" ∷ tracks 8 "linux" "ab" share_started none ∷ timer ∷ disables 9 ∷ []

abbrev silent_calls : List Call
silent_calls = tracks 8 "linux" "ab" share_started none ∷ disables 9 ∷ timer ∷ unmounts ∷ []

sent_once : map (λ b. map (λ e. e.event_type) b) (run calls off).sent ≡ (share_started ∷ []) ∷ []
unfolding run disable_all commit timer_fires track enable_all updated_settings
sent_once = refl

run-IsSilent_example : IsSilent (run silent_calls off)
run-IsSilent_example =
    run-IsSilent silent_calls off (tt, (tt, (tt, (tt, tt))))
      (record { off = refl; no_queue = refl; no_timer = refl; nothing_sent = refl })

abbrev changes : List (ℕ × SettingsPatch)
changes = (7, all_flags true) ∷ (8, all_flags false) ∷ (9, all_flags true) ∷ []

changes-IsOwn : All IsOwn changes
changes-IsOwn = ((omega arith, refl), ((omega arith, refl), ((omega arith, refl), tt)))
