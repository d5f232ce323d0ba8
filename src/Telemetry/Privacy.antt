-- ===== src/Telemetry/Privacy.antt =====
-- useTelemetry.ts: what is collected, and what becomes of it.
use mathlib.Core.Path.{subst}
use wormhole.Telemetry.{
  TelemetryEventType, app_launched, DataValue, TelemetryEvent, TelemetrySettings, SettingsPatch,
  State, flush_events, flush_batch, fire, cleanup, is_error, track, updated_settings, same, commit,
  update_settings, all_flags, enable_all, disable_all, timer_fires,
}
use wormhole.Common.{
  ℕ, String, ◌≡◌, refl, sym, ◌∙◌, inl, inr, Bool, true, false, ◌&&◌, Option, none, some, List, [],
  ◌∷◌, ◌++◌, arith, if◌then◌else◌, Bool-cases, overwrite, All,
}

-- What a rendering's callbacks, its timer and its unmounting can do.
pub data Call : Type 0 where
  tracks :
      (now : ℕ) (platform session_id : String)
      → TelemetryEventType
      → Option (List (String × DataValue))
      → Call
  updates : ℕ → SettingsPatch → Call
  enables : (now clock : ℕ) (platform session_id : String) → Call
  disables : ℕ → Call
  timer : Call
  unmounts : Call

abbrev pub apply : Call → State → State
apply (tracks now platform session_id type event_data) s =
    track now platform session_id type event_data s
apply (updates now p) s = update_settings now p s
apply (enables now clock platform session_id) s = enable_all now clock platform session_id s
apply (disables now) s = disable_all now s
apply timer s = timer_fires s
apply unmounts s = cleanup s.settings.enabled s

unfoldable pub run : List Call → State → State
run [] s = s
run (c ∷ cs) s = run cs (apply c s)

-- Whether the settings allow an event of the type.
abbrev pub allows : TelemetrySettings → TelemetryEventType → Bool
allows settings type =
    settings.enabled
    && (if is_error type then settings.share_error_reports else settings.share_usage_data)

-- A disabled hook holds no event and has no timer, and a set timer was set by an enabled rendering.
pub record IsQuiet (s : State) : Type 0 where
  pub no_queue : s.settings.enabled ≡ false → s.event_queue ≡ []
  pub no_timer : s.settings.enabled ≡ false → s.flush_timeout ≡ none
  pub timer_enabled : (b : Bool) → s.flush_timeout ≡ some b → b ≡ true

-- Tracking queues the event behind those that wait and sets a timer exactly if the settings allow its
-- type; an event that they do not allow changes nothing.
track-eq-allows :
    (now : ℕ) (platform session_id : String) (type : TelemetryEventType)
    (event_data : Option (List (String × DataValue))) (s : State)
    → track now platform session_id type event_data s ≡ (
        if allows s.settings type
        then record s {
          event_queue =
              s.event_queue
              ++ record {
                event_type = type;
                timestamp = now;
                platform = platform;
                app_version = "0.1.0";
                session_id = session_id;
                event_data = event_data;
              }
                ∷ [];
          flush_timeout = some true;
        }
        else s)
unfolding track
track-eq-allows now platform session_id type event_data s = ground arith

track-IsQuiet :
    (now : ℕ) (platform session_id : String) (type : TelemetryEventType)
    (event_data : Option (List (String × DataValue))) (s : State)
    → IsQuiet s
    → IsQuiet (track now platform session_id type event_data s)
track-IsQuiet now platform session_id type event_data s v =
    rw (track-eq-allows now platform session_id type event_data s) (record {
      no_queue = λ e. ground (arith, v.no_queue);
      no_timer = λ e. ground (arith, v.no_timer);
      timer_enabled = λ b e. ground (arith, v.timer_enabled b);
    })

flush_batch-empties :
    (s : State) (q : List TelemetryEvent)
    → s.event_queue ≡ q
    → ((flush_batch true s q).event_queue ≡ [])
      × (((flush_batch true s q).flush_timeout ≡ s.flush_timeout)
          × ((flush_batch true s q).settings ≡ s.settings))
flush_batch-empties s [] h = (h, (refl, refl))
flush_batch-empties s (e ∷ es) h = (refl, (refl, refl))

cleanup-clears :
    (b : Bool) (s : State)
    → (b ≡ false → s.event_queue ≡ [])
    → ((cleanup b s).event_queue ≡ [])
      × (((cleanup b s).flush_timeout ≡ none) × ((cleanup b s).settings ≡ s.settings))
unfolding cleanup flush_events
cleanup-clears true s h = flush_batch-empties (record s { flush_timeout = none }) s.event_queue refl
cleanup-clears false s h = (h refl, (refl, refl))

-- The clean-up of a quiet hook leaves no event and no timer.
cleanup-empties :
    (s : State)
    → IsQuiet s
    → ((cleanup s.settings.enabled s).event_queue ≡ [])
      × (((cleanup s.settings.enabled s).flush_timeout ≡ none)
          × ((cleanup s.settings.enabled s).settings ≡ s.settings))
cleanup-empties s v = cleanup-clears s.settings.enabled s v.no_queue

commit-IsQuiet : (new : TelemetrySettings) (s : State) → IsQuiet s → IsQuiet (commit new s)
unfolding commit
commit-IsQuiet new s v = elim (Bool-cases (same s.settings.enabled new.enabled)) [
  | inl e ↦ rw e (record {
    no_queue = λ h. ground (arith, v.no_queue);
    no_timer = λ h. ground (arith, v.no_timer);
    timer_enabled = v.timer_enabled;
  })
  | inr e ↦ rw e (record {
    no_queue = λ h. (cleanup-empties s v).0;
    no_timer = λ h. (cleanup-empties s v).1.0;
    timer_enabled = λ b h. let empty = (cleanup-empties s v).1.0 in cc;
  })
]

disable_all-IsQuiet : (now : ℕ) (s : State) → IsQuiet s → IsQuiet (disable_all now s)
unfolding disable_all
disable_all-IsQuiet now s v =
    commit-IsQuiet _ (record s { event_queue = [] })
      (record { no_queue = λ h. refl; no_timer = v.no_timer; timer_enabled = v.timer_enabled })

fire-IsQuiet : (s : State) (o : Option Bool) → s.flush_timeout ≡ o → IsQuiet s → IsQuiet (fire s o)
unfolding flush_events
fire-IsQuiet s none e v = v
fire-IsQuiet s (some true) e v =
    let empty = flush_batch-empties (record s { flush_timeout = none }) s.event_queue refl in
    record {
      no_queue = λ h. empty.0;
      no_timer = λ h. empty.1.0;
      timer_enabled = λ b h. let none = empty.1.0 in cc;
    }
fire-IsQuiet s (some false) e v = let wrong = v.timer_enabled false e in absurd (ground arith)

apply-IsQuiet : (c : Call) (s : State) → IsQuiet s → IsQuiet (apply c s)
unfolding update_settings enable_all timer_fires
apply-IsQuiet (tracks now platform session_id type event_data) s v =
    track-IsQuiet now platform session_id type event_data s v
apply-IsQuiet (updates now p) s v = commit-IsQuiet _ s v
apply-IsQuiet (enables now clock platform session_id) s v =
    commit-IsQuiet _ _ (track-IsQuiet clock platform session_id app_launched none s v)
apply-IsQuiet (disables now) s v = disable_all-IsQuiet now s v
apply-IsQuiet timer s v = fire-IsQuiet s s.flush_timeout refl v
apply-IsQuiet unmounts s v =
    let empty = cleanup-empties s v in
    record { no_queue = λ h. empty.0; no_timer = λ h. empty.1.0; timer_enabled = λ b h. cc }

-- In every run of the hook from a state where this holds, a disabled hook holds no event and has
-- no timer, and a timer that is set belongs to a rendering with telemetry enabled.
run-IsQuiet : (cs : List Call) (s : State) → IsQuiet s → IsQuiet (run cs s)
unfolding run
run-IsQuiet [] s v = v
run-IsQuiet (c ∷ cs) s v = run-IsQuiet cs (apply c s) (apply-IsQuiet c s v)

-- A call that cannot turn telemetry on: no opt-in and no update that enables.
abbrev pub NoOptIn : Call → Type 0
NoOptIn (tracks now platform session_id type event_data) = Unit
NoOptIn (updates now p) = overwrite p.enabled false ≡ false
NoOptIn (enables now clock platform session_id) = ⊥
NoOptIn (disables now) = Unit
NoOptIn timer = Unit
NoOptIn unmounts = Unit

-- Telemetry is off, and nothing was collected.
pub record IsSilent (s : State) : Type 0 where
  pub off : s.settings.enabled ≡ false
  pub no_queue : s.event_queue ≡ []
  pub no_timer : s.flush_timeout ≡ none
  pub nothing_sent : s.sent ≡ []

track_off :
    (now : ℕ) (platform session_id : String) (type : TelemetryEventType)
    (event_data : Option (List (String × DataValue))) (s : State)
    → s.settings.enabled ≡ false
    → track now platform session_id type event_data s ≡ s
track_off now platform session_id type event_data s off =
    track-eq-allows now platform session_id type event_data s ∙ ground arith

updated_settings-enabled :
    (now : ℕ) (p : SettingsPatch) (prev : TelemetrySettings)
    → (updated_settings now p prev).enabled ≡ overwrite p.enabled prev.enabled
unfolding updated_settings
updated_settings-enabled now p prev = ground arith

commit_off :
    (new : TelemetrySettings) (s : State)
    → new.enabled ≡ false
    → s.settings.enabled ≡ false
    → commit new s ≡ record s { settings = new }
unfolding commit
commit_off new s off off' = ground arith

commit-IsSilent :
    (new : TelemetrySettings) (s : State)
    → new.enabled ≡ false
    → IsSilent s
    → IsSilent (commit new s)
commit-IsSilent new s off v = subst IsSilent (sym (commit_off new s off v.off)) (record {
  off = off;
  no_queue = v.no_queue;
  no_timer = v.no_timer;
  nothing_sent = v.nothing_sent;
})

fire_unset : (s : State) (o : Option Bool) → o ≡ none → fire s o ≡ s
fire_unset s none e = refl
fire_unset s (some b) e = cc

cleanup_off : (b : Bool) (s : State) → b ≡ false → cleanup b s ≡ record s { flush_timeout = none }
unfolding cleanup
cleanup_off true s e = cc
cleanup_off false s e = refl

apply-IsSilent : (c : Call) (s : State) → NoOptIn c → IsSilent s → IsSilent (apply c s)
unfolding update_settings disable_all timer_fires
apply-IsSilent (tracks now platform session_id type event_data) s k v =
    subst IsSilent (sym (track_off now platform session_id type event_data s v.off)) v
apply-IsSilent (updates now p) s k v =
    commit-IsSilent _ s (updated_settings-enabled now p s.settings ∙ (rw v.off k)) v
apply-IsSilent (enables now clock platform session_id) s k v = elim k [ ]
apply-IsSilent (disables now) s k v =
    commit-IsSilent _ (record s { event_queue = [] })
      (updated_settings-enabled now (all_flags false) s.settings)
      (record {
        off = v.off;
        no_queue = refl;
        no_timer = v.no_timer;
        nothing_sent = v.nothing_sent;
      })
apply-IsSilent timer s k v = subst IsSilent (sym (fire_unset s s.flush_timeout v.no_timer)) v
apply-IsSilent unmounts s k v =
    subst IsSilent (sym (cleanup_off s.settings.enabled s v.off)) (record {
      off = v.off;
      no_queue = v.no_queue;
      no_timer = refl;
      nothing_sent = v.nothing_sent;
    })

-- In every run that starts with telemetry off, with no event and no timer, and has no opt-in, nothing
-- is queued, no timer is set and nothing is sent.
pub run-IsSilent : (cs : List Call) (s : State) → All NoOptIn cs → IsSilent s → IsSilent (run cs s)
unfolding run
run-IsSilent [] s k v = v
run-IsSilent (c ∷ cs) s k v = run-IsSilent cs (apply c s) k.1 (apply-IsSilent c s k.0 v)
