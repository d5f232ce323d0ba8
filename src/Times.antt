-- ===== src/Times.antt =====
-- The texts of times in apps/desktop/src/App.tsx, the badge of a status and the card of a share.
-- Times are milliseconds, those of files seconds. `show` is the text of a number and `locale_date` the
-- text of a date.
pub mod Bounds
use Prim.Native.String
use wormhole.History.{
  ShareHistoryItem, active, paused, inactive, expired, ShareStatus, ConnectionStatus, connected,
  disconnected, connecting, error,
}
use wormhole.HistoryHook.{is_active}
use wormhole.Common.{
  ℕ, zero, suc, ◌+◌, ◌-◌, ◌*◌, ◌/◌, ◌%◌, String, Bool, true, false, not, ◌&&◌, ◌||◌, Option, none,
  some, leb, ltb, nat_eq, if◌then◌else◌,
}

abbrev pub minute_ms : ℕ
minute_ms = 60000

abbrev pub hour_ms : ℕ
hour_ms = 3600000

abbrev pub day_ms : ℕ
day_ms = 86400000

-- What `formatExpirationCountdown` says: nothing, or one of its texts with its numbers.
pub data Countdown : Type 0 where
  expired_text under_minute : Countdown
  days_hours hours_minutes : ℕ → ℕ → Countdown
  minutes_only : ℕ → Countdown

abbrev pub left_of : ℕ → Countdown
left_of diff =
    let minutes = diff / minute_ms in
    let hours = diff / hour_ms in
    let days = diff / day_ms in
    if ltb 0 days
    then days_hours days (hours % 24)
    else if ltb 0 hours
    then hours_minutes hours (minutes % 60)
    else if ltb 0 minutes
    then minutes_only minutes
    else under_minute

-- `null` and 0 are falsy.
unfoldable pub expiration_countdown : Option ℕ → ℕ → Option Countdown
expiration_countdown none now = none
expiration_countdown (some expires_at) now =
    if nat_eq expires_at 0
    then none
    else if leb expires_at now
    then some expired_text
    else some (left_of (expires_at - now))

module _ (show : ℕ → String) where
  abbrev pub countdown_text : Countdown → String
  countdown_text expired_text = "Expired"
  countdown_text under_minute = "<1m"
  countdown_text (days_hours d h) =
      String.◌++◌ (show d) (String.◌++◌ "d " (String.◌++◌ (show h) "h"))
  countdown_text (hours_minutes h m) =
      String.◌++◌ (show h) (String.◌++◌ "h " (String.◌++◌ (show m) "m"))
  countdown_text (minutes_only m) = String.◌++◌ (show m) "m"

  unfoldable pub format_expiration_countdown : Option ℕ → ℕ → Option String
  unfolding expiration_countdown
  format_expiration_countdown expires_at now = elim (expiration_countdown expires_at now) [
    | none ↦ none
    | some c ↦ some (countdown_text c)
  ]

  -- A time that lies ahead has a negative distance, which the first test takes.
  unfoldable pub format_relative_time : (ℕ → String) → ℕ → ℕ → String
  format_relative_time locale_date timestamp now =
      let diff = now - timestamp in
      if ltb (diff / minute_ms) 1
      then "Just now"
      else if ltb (diff / minute_ms) 60
      then String.◌++◌ (show (diff / minute_ms)) "m ago"
      else if ltb (diff / hour_ms) 24
      then String.◌++◌ (show (diff / hour_ms)) "h ago"
      else if ltb (diff / day_ms) 7
      then String.◌++◌ (show (diff / day_ms)) "d ago"
      else locale_date timestamp

  abbrev pub days_ago : ℕ → String
  days_ago days =
      if nat_eq days 0
      then "Today"
      else if nat_eq days 1
      then "Yesterday"
      else String.◌++◌ (show days) " days ago"

  -- The number of days is rounded down, so that of a time ahead is negative.
  unfoldable pub format_date : (ℕ → String) → Option ℕ → ℕ → String
  format_date locale_date none now = "—"
  format_date locale_date (some timestamp) now =
      let at = timestamp * 1000 in
      if nat_eq timestamp 0
      then "—"
      else if ltb now at
      then String.◌++◌ "-" (String.◌++◌ (show ((at - now + (day_ms - 1)) / day_ms)) " days ago")
      else if ltb ((now - at) / day_ms) 7
      then days_ago ((now - at) / day_ms)
      else locale_date at

-- The badge of a status.
pub record Badge : Type 0 where
  pub bg : String
  pub text : String
  pub label : String
  pub pulse : Bool

abbrev pub green : String → Bool → Badge
green label pulse = record {
  bg = "bg-green-500/20";
  text = "text-green-400";
  label = label;
  pulse = pulse;
}

abbrev pub zinc : String → Badge
zinc label = record { bg = "bg-zinc-500/20"; text = "text-zinc-400"; label = label; pulse = false }

abbrev pub amber : String → Badge
amber label = record {
  bg = "bg-amber-500/20";
  text = "text-amber-400";
  label = label;
  pulse = false;
}

unfoldable pub share_badge : ShareStatus → Badge
share_badge active = green "Active" true
share_badge paused = amber "Paused"
share_badge inactive = zinc "Inactive"
share_badge expired = amber "Expired"

unfoldable pub connection_badge : ConnectionStatus → Badge
connection_badge connected = green "Connected" true
connection_badge disconnected = zinc "Disconnected"
connection_badge connecting = record {
  bg = "bg-blue-500/20";
  text = "text-blue-400";
  label = "Connecting";
  pulse = true;
}
connection_badge error = record {
  bg = "bg-red-500/20";
  text = "text-red-400";
  label = "Error";
  pulse = false;
}

-- The state of `ShareCard`. The effect on the expiration and the status sets the countdown and, for an
-- active share that expires, an interval of a second.
pub record ShareCard : Type 0 where
  pub copied : Bool
  pub copy_timeout : Bool
  pub countdown : Option String
  pub interval : Bool

abbrev pub expires : ShareHistoryItem → Bool
expires t = elim t.expires_at [ none ↦ false | some at ↦ not (nat_eq at 0) ]

module _ (show : ℕ → String) where
  unfoldable pub countdown_effect : ShareHistoryItem → ℕ → ShareCard → ShareCard
  unfolding format_expiration_countdown
  countdown_effect t now s =
      if expires t && is_active t.status
      then record s {
        countdown = format_expiration_countdown show t.expires_at now;
        interval = true;
      }
      else record s { countdown = none; interval = false }

  unfoldable pub interval_fires : ShareHistoryItem → ℕ → ShareCard → ShareCard
  unfolding format_expiration_countdown
  interval_fires t now s =
      if s.interval
      then record s { countdown = format_expiration_countdown show t.expires_at now }
      else s

-- `copyLink` when the clipboard has taken the link, and its timer.
unfoldable pub card_link_copied : ShareCard → ShareCard
card_link_copied s = record s { copied = true; copy_timeout = true }

unfoldable pub card_timeout_fires : ShareCard → ShareCard
card_timeout_fires s =
    if s.copy_timeout then record s { copied = false; copy_timeout = false } else s
