-- ===== src/Agent/Backoff.antt =====
-- keel-agentd/src/backoff.rs: when a jail's next start may be tried. Instants and durations are
-- nanoseconds.
pub mod Cooldown
pub mod Gate
use kubsd.Base.{
  ℕ, ◌+◌, ◌-◌, ◌*◌, ◌/◌, Bool, true, false, Option, none, some, leb, min, if◌then◌else◌,
}

abbrev pub nanos : ℕ
nanos = 1_000_000_000

-- `INITIAL_DELAY`, `MAX_DELAY`, `RESET_UPTIME_THRESHOLD`: 1, 300 and 60 seconds
abbrev pub initial_delay : ℕ
initial_delay = nanos

abbrev pub max_delay : ℕ
max_delay = 300 * nanos

abbrev pub reset_uptime_threshold : ℕ
reset_uptime_threshold = 60 * nanos

pub record BackoffState : Type 0 where
  pub current_delay : ℕ
  pub next_retry_at : Option ℕ
  pub last_started_at : Option ℕ

pub record BackoffStatus : Type 0 where
  pub retry_in_secs : Option ℕ
  pub current_delay_secs : Option ℕ

-- `BackoffState::new`
abbrev pub new : BackoffState
new = record { current_delay = initial_delay; next_retry_at = none; last_started_at = none }

abbrev pub passed : ℕ → Option ℕ → Bool
passed now none = true
passed now (some t) = leb t now

unfoldable pub can_retry : BackoffState → ℕ → Bool
can_retry s now = passed now s.next_retry_at

-- the delay, started afresh if the last start is long enough ago
abbrev pub delay_at : ℕ → Option ℕ → ℕ → ℕ
delay_at delay none now = delay
delay_at delay (some last) now =
    if leb reset_uptime_threshold (now - last) then initial_delay else delay

unfoldable pub record_attempt : BackoffState → ℕ → BackoffState
record_attempt s now =
    let delay = delay_at s.current_delay s.last_started_at now in
    record {
      current_delay = min (delay * 2) max_delay;
      next_retry_at = some (now + delay);
      last_started_at = some now;
    }

abbrev pub status_at : ℕ → ℕ → Option ℕ → BackoffStatus
status_at delay now none = record { retry_in_secs = none; current_delay_secs = none }
status_at delay now (some next) = record {
  retry_in_secs = some ((next - now) / nanos);
  current_delay_secs = some (delay / nanos);
}

unfoldable pub status : BackoffState → ℕ → BackoffStatus
status s now = status_at s.current_delay now s.next_retry_at
