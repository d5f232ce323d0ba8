-- ===== src/Times/Bounds.antt =====
-- App.tsx: what the countdown of a share says of the time that is left.
use wormhole.Times.{
  minute_ms, hour_ms, day_ms, Countdown, expired_text, under_minute, days_hours, hours_minutes,
  minutes_only, left_of, expiration_countdown,
}
use wormhole.Common.{
  ℕ, ◌+◌, ◌-◌, ◌*◌, ◌/◌, ◌≤◌, ◌<◌, ◌≡◌, refl, false, Bool-cases, ◌⊎◌, inl, inr, some, leb, ltb,
  nat_eq, arith,
}

-- The milliseconds that a text stands for, and what it leaves out at most.
abbrev pub shown_ms : Countdown → ℕ
shown_ms expired_text = 0
shown_ms under_minute = 0
shown_ms (days_hours d h) = d * day_ms + h * hour_ms
shown_ms (hours_minutes h m) = h * hour_ms + m * minute_ms
shown_ms (minutes_only m) = m * minute_ms

abbrev pub unit_ms : Countdown → ℕ
unit_ms expired_text = 0
unit_ms under_minute = minute_ms
unit_ms (days_hours d h) = hour_ms
unit_ms (hours_minutes h m) = minute_ms
unit_ms (minutes_only m) = minute_ms

-- The second number of a text is smaller than a whole of the first.
abbrev pub IsProper : Countdown → Type 0
IsProper expired_text = Unit {0}
IsProper under_minute = Unit {0}
IsProper (days_hours d h) = (0 < d) × (h < 24)
IsProper (hours_minutes h m) = (0 < h) × ((h < 24) × (m < 60))
IsProper (minutes_only m) = (0 < m) × (m < 60)

abbrev pub Fits : ℕ → Countdown → Type 0
Fits diff c = (shown_ms c ≤ diff) × ((diff < shown_ms c + unit_ms c) × IsProper c)

left_of-Fits : (diff : ℕ) → Fits diff (left_of diff)
left_of-Fits diff = elim (Bool-cases (ltb 0 (diff / day_ms))) [
  | inl day ↦ rw day (omega arith, (omega arith, (ground arith, omega arith)))
  | inr no_day ↦ elim (Bool-cases (ltb 0 (diff / hour_ms))) [
    | inl hour ↦
        rw (no_day, hour) (omega arith, (omega arith, (ground arith, (ground arith, omega arith))))
    | inr no_hour ↦ elim (Bool-cases (ltb 0 (diff / minute_ms))) [
      | inl minute ↦
          rw (no_day, no_hour, minute) (omega arith, (omega arith, (ground arith, ground arith)))
      | inr no_minute ↦ rw (no_day, no_hour, no_minute) (omega arith, (ground arith, tt))
    ]
  ]
]

-- The countdown of a share that expires at a time other than 0 says that the share has expired exactly
-- once this time has come. Before, the numbers of its text stand for at most the time that is left, and
-- fall short of it by less than an hour where the text names days, and else by less than a minute; the
-- second number is below a whole of the first.
pub expiration_countdown-Fits :
    (expires_at now : ℕ)
    → 0 < expires_at
    → ((expires_at ≤ now) × (expiration_countdown (some expires_at) now ≡ some expired_text))
      ⊎ ((now < expires_at)
          × ((c : Countdown) × ((expiration_countdown (some expires_at) now ≡ some c)
                × Fits (expires_at - now) c)))
unfolding expiration_countdown
expiration_countdown-Fits expires_at now set =
    let there : nat_eq expires_at 0 ≡ false = ground arith in
    elim (Bool-cases (leb expires_at now)) [
      | inl past ↦ inl (ground arith, rw (there, past) refl)
      | inr ahead ↦ inr (
        ground arith,
        (left_of (expires_at - now), (rw (there, ahead) refl, left_of-Fits (expires_at - now))),
      )
    ]
