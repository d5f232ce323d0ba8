-- ===== src/Tests/SettingsTests.antt =====
-- The settings page: a check that finds a release, and the telemetry buttons. Two versions are known.
use wormhole.Telemetry.{State, default_telemetry_settings}
use wormhole.SettingsPage.{
  LatestRelease, released, Settings, first_settings, check_clicked, update_answered, headline,
  available, open_release_page, check_for_updates,
}
use wormhole.SettingsPage.Updates.{opened, clicks, answers, Reports, check, Run-Reports}
use wormhole.SettingsPage.OptIn.{
  opts_in, opts_out, switches_usage_data, run, NeedsOptIn, run-NeedsOptIn,
}
use wormhole.Common.{
  ℕ, String, ◌≡◌, refl, Bool, true, ◌==◌, ◌⊎◌, inl, inr, none, some, [], ◌∷◌, ltb, if◌then◌else◌,
}

abbrev parse : String → String ⊎ ℕ
parse v = if v == "0.2.0" then inr 2 else if v == "0.1.0" then inr 1 else inl "unexpected character"

abbrev newer : ℕ → ℕ → Bool
newer a b = ltb b a

abbrev no_text : ℕ → String
no_text n = "403 Forbidden"

abbrev quiet : State
quiet = record {
  settings = default_telemetry_settings;
  event_queue = [];
  flush_timeout = none;
  sent = [];
}

abbrev second : LatestRelease
second = record {
  tag_name = some "v0.2.0";
  html_url = some "https://github.com/byronwade/wormhole/releases/tag/v0.2.0";
  body = none;
  published_at = none;
}

abbrev checked : Settings
checked =
    update_answered (check parse newer no_text "0.1.0" (released second)) 7
      (check_clicked (first_settings quiet))

offers_second : headline checked ≡ available "v0.2.0"
unfolding headline update_answered check_for_updates check_clicked
offers_second = refl

-- The address that `open_file` is called with, which looks for a file of that path.
download :
    open_release_page checked ≡ some "https://github.com/byronwade/wormhole/releases/tag/v0.2.0"
unfolding open_release_page update_answered check_for_updates check_clicked
download = refl

-- A check that fails leaves the offer, and so does the next click.
offers_still :
    headline (check_clicked (update_answered (inl "no network") 9 (check_clicked checked)))
    ≡ available "v0.2.0"
unfolding headline update_answered check_for_updates check_clicked
offers_still = refl

checking : (check_clicked (first_settings quiet)).checking_update ≡ true
unfolding check_clicked
checking = refl

Run-Reports_example : Reports parse newer no_text ((released second, 7) ∷ []) checked
Run-Reports_example =
    Run-Reports parse newer no_text (answers (released second) 7 (clicks opened) checking)

run-NeedsOptIn_example :
    NeedsOptIn
      (run
        (opts_in 5 6 "linux" "s" ∷ switches_usage_data 7 ∷ opts_out 8 ∷ [])
        (first_settings quiet)).telemetry.settings
run-NeedsOptIn_example =
    run-NeedsOptIn (opts_in 5 6 "linux" "s" ∷ switches_usage_data 7 ∷ opts_out 8 ∷ [])
      (first_settings quiet) (λ off. (refl, refl))
