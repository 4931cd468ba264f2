-- ===== src/MtcFollow.antt =====
-- crates/cuepool/src/mtc_follow.rs: how a video that follows MIDI timecode is corrected. A drift and
-- the time since the last correction, f64 seconds in the source, are whole nanoseconds here.
pub mod Corrections
use cue_pool.Base.{ℕ, zero, suc, ◌*◌, ◌/◌, Bool, true, false, if◌then◌else◌, leb, min}
use cue_pool.Base.Int.{ℤ, pos, negsuc}

pub data MtcAdjust : Type 0 where
  none hard_sync hold : MtcAdjust
  nudge : ℤ → MtcAdjust

abbrev pub deadband : ℕ
deadband = 40_000_000

abbrev pub hard_sync_limit : ℕ
hard_sync_limit = 250_000_000

pub record LocateAction : Type 0 where
  pub sync : Bool
  pub hold : Bool

abbrev pub abs : ℤ → ℕ
abs (pos n) = n
abs (negsuc n) = suc n

unfoldable pub locate_action : ℤ → Bool → LocateAction
locate_action drift may_reopen =
    if leb (abs drift) deadband
    then record { sync = false; hold = true }
    else record { sync = may_reopen; hold = may_reopen }

abbrev pub opposite : ℕ → ℤ
opposite zero = pos 0
opposite (suc n) = negsuc n

-- `clamp(-cap, cap)`.
abbrev pub clamp : ℕ → ℤ → ℤ
clamp cap (pos n) = pos (min n cap)
clamp cap (negsuc n) = opposite (min (suc n) cap)

-- At most 5 % of the elapsed time.
abbrev pub slew_cap : ℕ → ℕ
slew_cap dt = dt / 20

-- A `dt` of zero stands for one that is not positive.
unfoldable pub drift_action : ℤ → ℕ → MtcAdjust
drift_action drift dt =
    if leb dt 0
    then MtcAdjust.hold
    else if leb (abs drift) deadband
    then MtcAdjust.none
    else if leb (abs drift) hard_sync_limit
    then MtcAdjust.nudge (clamp (slew_cap dt) drift)
    else MtcAdjust.hard_sync
