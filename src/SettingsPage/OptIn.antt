-- ===== src/SettingsPage/OptIn.antt =====
-- App.tsx: what the buttons of the telemetry section leave switched on.
use mathlib.Core.Path.{subst}
use wormhole.Telemetry.{
  State, same, no_consent, TelemetrySettings, SettingsPatch, updated_settings, commit, enable_all,
  disable_all, all_flags, update_settings,
}
use wormhole.SettingsPage.{
  Settings, check_clicked, toggle_details, opt_in, opt_out, toggle_usage_data, toggle_error_reports,
}
use wormhole.Common.{
  ℕ, String, sym, overwrite, ◌≡◌, refl, ◌∙◌, Bool, true, false, not, ◌&&◌, Bool-cases, inl, inr,
  List, [], ◌∷◌, if◌then◌else◌,
}

pub data Action : Type 0 where
  opts_in : (now clock : ℕ) (platform session_id : String) → Action
  opts_out switches_usage_data switches_error_reports : ℕ → Action
  checks switches_details : Action

abbrev pub act : Action → Settings → Settings
act (opts_in now clock platform session_id) s = opt_in now clock platform session_id s
act (opts_out now) s = opt_out now s
act (switches_usage_data now) s = toggle_usage_data now s
act (switches_error_reports now) s = toggle_error_reports now s
act checks s = check_clicked s
act switches_details s = toggle_details s

abbrev pub run : List Action → Settings → Settings
run [] s = s
run (a ∷ actions) s = run actions (act a s)

-- What is shared needs the opt-in.
abbrev pub NeedsOptIn : TelemetrySettings → Type 0
NeedsOptIn t = t.enabled ≡ false → (t.share_usage_data ≡ false) × (t.share_error_reports ≡ false)

settings-commit : (new : TelemetrySettings) (s : State) → (commit new s).settings ≡ new
unfolding commit
settings-commit new s = elim (Bool-cases (same s.settings.enabled new.enabled)) [
  | inl e ↦ rw e refl
  | inr e ↦ rw e refl
]

enabled_updated :
    (now : ℕ) (p : SettingsPatch) (t : TelemetrySettings)
    → (updated_settings now p t).enabled ≡ overwrite p.enabled t.enabled
unfolding updated_settings
enabled_updated now p t =
    elim (Bool-cases
      (overwrite p.enabled t.enabled && (not t.enabled && no_consent t.consent_given_at))) [
        | inl e ↦ rw e refl
        | inr e ↦ rw e refl
      ]

all_off :
    (now : ℕ) (t : TelemetrySettings)
    → ((updated_settings now (all_flags false) t).share_usage_data ≡ false)
      × ((updated_settings now (all_flags false) t).share_error_reports ≡ false)
unfolding updated_settings
all_off now t = (refl, refl)

-- The page's own update of the flags, while telemetry is on.
flags_NeedsOptIn :
    (now : ℕ) (p : SettingsPatch) (t : TelemetrySettings) (s : State)
    → overwrite p.enabled t.enabled ≡ true
    → NeedsOptIn (commit (updated_settings now p t) s).settings
flags_NeedsOptIn now p t s on =
    subst NeedsOptIn (sym (settings-commit (updated_settings now p t) s))
      (λ off. let stays = enabled_updated now p t ∙ on in cc)

pick :
    (b : Bool) (s t : Settings)
    → (b ≡ true → NeedsOptIn s.telemetry.settings)
    → (b ≡ false → NeedsOptIn t.telemetry.settings)
    → NeedsOptIn (if b then s else t).telemetry.settings
pick true s t h k = h refl
pick false s t h k = k refl

act-NeedsOptIn :
    (a : Action) (s : Settings)
    → NeedsOptIn s.telemetry.settings
    → NeedsOptIn (act a s).telemetry.settings
unfolding opt_in opt_out enable_all disable_all update_settings toggle_usage_data
    toggle_error_reports check_clicked toggle_details
act-NeedsOptIn (opts_in now clock platform session_id) s h =
    pick s.telemetry.settings.enabled _ _ (λ on. h)
      (λ off. flags_NeedsOptIn now (all_flags true) s.telemetry.settings _ refl)
act-NeedsOptIn (opts_out now) s h =
    pick s.telemetry.settings.enabled _ _
      (λ on.
        subst NeedsOptIn
          (sym (settings-commit (updated_settings now (all_flags false) s.telemetry.settings) _))
          (λ off. all_off now s.telemetry.settings))
      (λ off. h)
act-NeedsOptIn (switches_usage_data now) s h =
    pick s.telemetry.settings.enabled _ _ (λ on. flags_NeedsOptIn now _ s.telemetry.settings _ on)
      (λ off. h)
act-NeedsOptIn (switches_error_reports now) s h =
    pick s.telemetry.settings.enabled _ _ (λ on. flags_NeedsOptIn now _ s.telemetry.settings _ on)
      (λ off. h)
act-NeedsOptIn checks s h = pick s.checking_update _ _ (λ on. h) (λ off. h)
act-NeedsOptIn switches_details s h = h

-- However the buttons of the settings page are used, neither usage data nor error reports are switched
-- on while telemetry is off, if this holds of the settings that the page starts with.
pub run-NeedsOptIn :
    (actions : List Action) (s : Settings)
    → NeedsOptIn s.telemetry.settings
    → NeedsOptIn (run actions s).telemetry.settings
run-NeedsOptIn [] s h = h
run-NeedsOptIn (a ∷ actions) s h = run-NeedsOptIn actions (act a s) (act-NeedsOptIn a s h)
