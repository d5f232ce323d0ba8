-- ===== src/Telemetry.antt =====
-- apps/desktop/src/types/telemetry.ts and apps/desktop/src/hooks/useTelemetry.ts: the settings of the
-- opt-in telemetry, the queue of events and the timer that flushes it. The callbacks of one rendering
-- see its settings; a change of the settings is committed after the callback.
pub mod Consent
pub mod Privacy
use wormhole.Storage.{LocalStorage, Json, load_json}
use wormhole.Texts.{includes}
use wormhole.Common.{
  ℕ, String, Bool, true, false, not, ◌&&◌, Option, none, some, List, [], ◌∷◌, ◌++◌, if◌then◌else◌,
  overwrite, nat_eq,
}

pub data TelemetryEventType : Type 0 where
  app_launched share_started share_stopped connection_started connection_stopped transfer_completed
        error_occurred setup_completed feature_used :
      TelemetryEventType

-- The values that the hook puts into `data`.
pub data DataValue : Type 0 where
  text : String → DataValue
  number : ℕ → DataValue

pub record TelemetryEvent : Type 0 where
  pub event_type : TelemetryEventType
  pub timestamp : ℕ
  pub platform : String
  pub app_version : String
  pub session_id : String
  pub event_data : Option (List (String × DataValue))

pub record TelemetrySettings : Type 0 where
  pub enabled : Bool
  pub share_usage_data : Bool
  pub share_error_reports : Bool
  pub consent_given_at : Option ℕ

pub record SettingsPatch : Type 0 where
  pub enabled : Option Bool
  pub share_usage_data : Option Bool
  pub share_error_reports : Option Bool
  pub consent_given_at : Option ℕ

abbrev pub default_telemetry_settings : TelemetrySettings
default_telemetry_settings = record {
  enabled = false;
  share_usage_data = false;
  share_error_reports = false;
  consent_given_at = none;
}

abbrev pub telemetry_storage_key : String
telemetry_storage_key = "wormhole_telemetry_settings"

module _ {Text : Type 0} (storage : LocalStorage Text) (json : Json Text TelemetrySettings) where
  open storage use {Store, set_item}
  open json use {stringify}

  unfoldable pub load_settings : Store → TelemetrySettings
  load_settings s = load_json storage json telemetry_storage_key s default_telemetry_settings

  -- The effect on a change of the settings; `none` if the browser refuses the text, which is not
  -- caught.
  unfoldable pub save_settings : Bool → TelemetrySettings → Store → Option Store
  save_settings is_loaded settings s =
      if is_loaded then set_item s telemetry_storage_key (stringify settings) else some s

-- `lowered` is the browser's user agent in lower case.
unfoldable pub detect_platform : String → String
detect_platform lowered =
    if includes lowered "mac"
    then "macos"
    else if includes lowered "win"
    then "windows"
    else if includes lowered "linux"
    then "linux"
    else "unknown"

abbrev pub get_app_version : String
get_app_version = "0.1.0"

-- The state of the hook. A set timer holds `settings.enabled` of the rendering that set it; `sent` are
-- the batches that were flushed, the last one first.
pub record State : Type 0 where
  pub settings : TelemetrySettings
  pub event_queue : List TelemetryEvent
  pub flush_timeout : Option Bool
  pub sent : List (List TelemetryEvent)

-- The events that wait go into one batch.
abbrev pub flush_batch : Bool → State → List TelemetryEvent → State
flush_batch enabled s [] = s
flush_batch enabled s (e ∷ es) =
    if enabled then record s { event_queue = []; sent = (e ∷ es) ∷ s.sent } else s

-- `flushEvents` as a rendering with the given `settings.enabled` made it.
unfoldable pub flush_events : Bool → State → State
flush_events enabled s = flush_batch enabled s s.event_queue

abbrev pub schedule_flush : Bool → State → State
schedule_flush enabled s = record s { flush_timeout = some enabled }

-- The effect's clean-up, with `settings.enabled` of the rendering that set the effect up.
unfoldable pub cleanup : Bool → State → State
unfolding flush_events
cleanup enabled s =
    let cleared : State = record s { flush_timeout = none } in
    if enabled then flush_events enabled cleared else cleared

abbrev pub is_error : TelemetryEventType → Bool
is_error error_occurred = true
is_error _ = false

unfoldable pub track :
    (now : ℕ) (platform session_id : String)
    → TelemetryEventType
    → Option (List (String × DataValue))
    → State
    → State
track now platform session_id type event_data s =
    if not s.settings.enabled
    then s
    else if is_error type && not s.settings.share_error_reports
    then s
    else if not (is_error type) && not s.settings.share_usage_data
    then s
    else schedule_flush s.settings.enabled (record s {
      event_queue =
          s.event_queue
          ++ record {
            event_type = type;
            timestamp = now;
            platform = platform;
            app_version = get_app_version;
            session_id = session_id;
            event_data = event_data;
          }
            ∷ [];
    })

-- `!prev.consentGivenAt`: a missing time, and the time 0.
abbrev pub no_consent : Option ℕ → Bool
no_consent none = true
no_consent (some t) = nat_eq t 0

unfoldable pub updated_settings : ℕ → SettingsPatch → TelemetrySettings → TelemetrySettings
updated_settings now p prev =
    let updated : TelemetrySettings = record {
      enabled = overwrite p.enabled prev.enabled;
      share_usage_data = overwrite p.share_usage_data prev.share_usage_data;
      share_error_reports = overwrite p.share_error_reports prev.share_error_reports;
      consent_given_at = elim p.consent_given_at [ none ↦ prev.consent_given_at | some t ↦ some t ];
    } in
    if updated.enabled && (not prev.enabled && no_consent prev.consent_given_at)
    then record updated { consent_given_at = some now }
    else updated

abbrev pub same : Bool → Bool → Bool
same true b = b
same false b = not b

-- React commits new settings: when `enabled` changed, the clean-up of the old rendering runs first.
unfoldable pub commit : TelemetrySettings → State → State
unfolding cleanup
commit new s =
    if same s.settings.enabled new.enabled
    then record s { settings = new }
    else record (cleanup s.settings.enabled s) { settings = new }

unfoldable pub update_settings : ℕ → SettingsPatch → State → State
update_settings now p s = commit (updated_settings now p s.settings) s

abbrev pub all_flags : Bool → SettingsPatch
all_flags b = record {
  enabled = some b;
  share_usage_data = some b;
  share_error_reports = some b;
  consent_given_at = none;
}

-- `track` runs in the callback, with the settings before the change.
unfoldable pub enable_all : (now clock : ℕ) (platform session_id : String) → State → State
enable_all now clock platform session_id s =
    commit (updated_settings now (all_flags true) s.settings)
      (track clock platform session_id app_launched none s)

unfoldable pub disable_all : ℕ → State → State
disable_all now s =
    commit (updated_settings now (all_flags false) s.settings) (record s { event_queue = [] })

-- The timer that is set calls the `flushEvents` it was given.
abbrev pub fire : State → Option Bool → State
fire s none = s
fire s (some enabled) = flush_events enabled (record s { flush_timeout = none })

unfoldable pub timer_fires : State → State
timer_fires s = fire s s.flush_timeout

unfoldable pub track_transfer_completed :
    (now : ℕ) (platform session_id : String) (bytes duration_ms : ℕ) → State → State
track_transfer_completed now platform session_id bytes duration_ms =
    track now platform session_id transfer_completed
      (some (("bytesTransferred", number bytes) ∷ ("durationMs", number duration_ms) ∷ []))

unfoldable pub track_error : (now : ℕ) (platform session_id error_type : String) → State → State
track_error now platform session_id error_type =
    track now platform session_id error_occurred (some (("errorType", text error_type) ∷ []))

unfoldable pub track_feature_used : (now : ℕ) (platform session_id feature : String) → State → State
track_feature_used now platform session_id feature =
    track now platform session_id feature_used (some (("feature", text feature) ∷ []))
