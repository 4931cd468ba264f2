-- ===== src/Tests/OfMtcFollow.antt =====
-- Concrete runs of the corrections of crates/cuepool/src/mtc_follow.rs.
use cue_pool.Base.{◌≡◌, refl, true, false, ◌⊎◌, ◌≤◌, ◌<◌}
use cue_pool.Base.Int.{pos, negsuc}
use cue_pool.MtcFollow.{MtcAdjust, deadband, abs, locate_action, drift_action}
use cue_pool.MtcFollow.Corrections.{Corrects, drift_action-Corrects, locate_action-hold}

-- A tenth of a second late, with 16 ms gone: 0.8 ms are taken off.
nudged_back : drift_action (negsuc 99_999_999) 16_000_000 ≡ MtcAdjust.nudge (negsuc 799_999)
unfolding drift_action
nudged_back = refl

frozen_in_place : locate_action (pos 10_000_000) true ≡ record { sync = false; hold = true }
unfolding locate_action
frozen_in_place = refl

sought : locate_action (pos 2_000_000_000) true ≡ record { sync = true; hold = true }
unfolding locate_action
sought = refl

coalesced : locate_action (pos 2_000_000_000) false ≡ record { sync = false; hold = false }
unfolding locate_action
coalesced = refl

drift_action-Corrects_example :
    Corrects (negsuc 99_999_999) 16_000_000 (drift_action (negsuc 99_999_999) 16_000_000)
drift_action-Corrects_example = drift_action-Corrects (negsuc 99_999_999) 16_000_000

locate_action-hold_example :
    (((locate_action (pos 2_000_000_000) false).hold ≡ true)
      × ((abs (pos 2_000_000_000) ≤ deadband)
          ⊎ ((locate_action (pos 2_000_000_000) false).sync ≡ true)))
    ⊎ (((locate_action (pos 2_000_000_000) false).hold ≡ false)
        × ((locate_action (pos 2_000_000_000) false).sync ≡ false)
        × (false ≡ false)
        × (deadband < abs (pos 2_000_000_000)))
locate_action-hold_example = locate_action-hold (pos 2_000_000_000) false
