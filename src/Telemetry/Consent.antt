-- ===== src/Telemetry/Consent.antt =====
-- useTelemetry.ts: the time of the user's consent.
use wormhole.Telemetry.{TelemetrySettings, SettingsPatch, updated_settings, no_consent}
use wormhole.Common.{ℕ, ◌<◌, ◌≡◌, refl, ◌∙◌, true, false, none, List, [], ◌∷◌, arith, All}

-- The settings after any sequence of changes, each with its reading of the clock.
unfoldable pub change_all : List (ℕ × SettingsPatch) → TelemetrySettings → TelemetrySettings
change_all [] settings = settings
change_all ((now, p) ∷ changes) settings = change_all changes (updated_settings now p settings)

-- A change that does not give a time of consent itself, made after the clock's start.
abbrev pub IsOwn : ℕ × SettingsPatch → Type 0
IsOwn (now, p) = (0 < now) × (p.consent_given_at ≡ none)

-- Enabled telemetry has a time of consent.
abbrev pub HasConsent : TelemetrySettings → Type 0
HasConsent settings = settings.enabled ≡ true → no_consent settings.consent_given_at ≡ false

updated_settings-HasConsent :
    (now : ℕ) (p : SettingsPatch) (settings : TelemetrySettings)
    → 0 < now
    → p.consent_given_at ≡ none
    → HasConsent settings
    → HasConsent (updated_settings now p settings)
unfolding updated_settings
updated_settings-HasConsent now p settings l k v = λ e. ground (arith, v)

-- A given consent keeps its time.
updated_settings-keeps :
    (now : ℕ) (p : SettingsPatch) (settings : TelemetrySettings)
    → p.consent_given_at ≡ none
    → no_consent settings.consent_given_at ≡ false
    → (updated_settings now p settings).consent_given_at ≡ settings.consent_given_at
unfolding updated_settings
updated_settings-keeps now p settings k v = ground arith

-- After any changes that give no time of consent themselves, at times above 0, enabled telemetry
-- has a time of consent if it had one before.
change_all-HasConsent :
    (changes : List (ℕ × SettingsPatch)) (settings : TelemetrySettings)
    → All IsOwn changes
    → HasConsent settings
    → HasConsent (change_all changes settings)
unfolding change_all
change_all-HasConsent [] settings own v = v
change_all-HasConsent ((now, p) ∷ changes) settings own v =
    change_all-HasConsent changes (updated_settings now p settings) own.1
      (updated_settings-HasConsent now p settings own.0.0 own.0.1 v)

-- A time of consent stays the same through any changes that give none themselves, at times above
-- 0, whether they turn telemetry off, on again or neither.
change_all-keeps_consent :
    (changes : List (ℕ × SettingsPatch)) (settings : TelemetrySettings)
    → All IsOwn changes
    → no_consent settings.consent_given_at ≡ false
    → (change_all changes settings).consent_given_at ≡ settings.consent_given_at
unfolding change_all
change_all-keeps_consent [] settings own v = refl
change_all-keeps_consent ((now, p) ∷ changes) settings own v =
    let same = updated_settings-keeps now p settings own.0.1 v in
    change_all-keeps_consent changes (updated_settings now p settings) own.1 (rw same v) ∙ same
