-- ===== src/Throttle.antt =====
-- `WarnThrottle` of crates/cuepool-protocols/src/lib.rs: the rate limit on warnings that network input
-- causes. An `Instant` and a `Duration` are whole nanoseconds.
pub mod Lines
use cue_pool.Base.{
  ℕ, ◌+◌, ◌-◌, ◌%◌, ◌^◌, Bool, true, false, Option, none, some, List, [], ◌∷◌, if◌then◌else◌, ltb,
}

pub record WarnThrottle : Type 0 where
  pub interval : ℕ
  pub last_logged : Option ℕ
  pub suppressed : ℕ

abbrev pub new_throttle : ℕ → WarnThrottle
new_throttle interval = record { interval = interval; last_logged = none; suppressed = 0 }

-- `duration_since` gives zero for a `now` before `last`.
abbrev pub is_within : ℕ → ℕ → Option ℕ → Bool
is_within interval now none = false
is_within interval now (some last) = ltb (now - last) interval

abbrev pub suppress : WarnThrottle → WarnThrottle
suppress t = record t { suppressed = (t.suppressed + 1) % 2 ^ 64 }

abbrev pub log_line : ℕ → WarnThrottle → WarnThrottle
log_line now t = record t { last_logged = some now; suppressed = 0 }

unfoldable pub throttle_tick : WarnThrottle → ℕ → WarnThrottle × Option ℕ
throttle_tick t now =
    if is_within t.interval now t.last_logged
    then (suppress t, none)
    else (log_line now t, some t.suppressed)

-- The lines that a run of events logs, each with its time and its count.
unfoldable pub tick_all : WarnThrottle → List ℕ → WarnThrottle × List (ℕ × ℕ)
tick_all t [] = (t, [])
tick_all t (now ∷ later) =
    let ticked = throttle_tick t now in
    let rest = tick_all ticked.0 later in
    (rest.0, elim ticked.1 [ none ↦ rest.1 | some n ↦ (now, n) ∷ rest.1 ])
