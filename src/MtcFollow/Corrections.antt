-- ===== src/MtcFollow/Corrections.antt =====
-- What the corrections of crates/cuepool/src/mtc_follow.rs achieve.
use cue_pool.Base.{
  ℕ, ◌+◌, ◌*◌, ◌≤◌, ◌<◌, ◌≡◌, refl, Bool, true, false, ◌⊎◌, arith, if-keep, leb, min,
}
use cue_pool.Base.Int.{ℤ, pos, negsuc, ◌-ℤ◌}
use cue_pool.MtcFollow.{
  MtcAdjust, deadband, hard_sync_limit, abs, clamp, slew_cap, locate_action, drift_action,
}

-- What each answer says of the drift and of the time since the last correction. A nudge leaves as much
-- of the drift as it does not correct.
pub Corrects : ℤ → ℕ → MtcAdjust → Type 0
Corrects drift dt MtcAdjust.hold = dt ≡ 0
Corrects drift dt MtcAdjust.none = (0 < dt) × (abs drift ≤ deadband)
Corrects drift dt MtcAdjust.hard_sync = (0 < dt) × (hard_sync_limit < abs drift)
Corrects drift dt (MtcAdjust.nudge n) =
    (0 < dt)
    × (deadband < abs drift)
    × (abs drift ≤ hard_sync_limit)
    × (abs n * 20 ≤ dt)
    × (abs (drift -ℤ n) + abs n ≡ abs drift)

clamp-abs : (cap : ℕ) (d : ℤ) → abs (clamp cap d) ≡ min (abs d) cap
clamp-abs cap (pos n) = refl
clamp-abs cap (negsuc n) = ground arith

clamp-rest : (cap : ℕ) (d : ℤ) → abs (d -ℤ clamp cap d) + abs (clamp cap d) ≡ abs d
unfolding ◌-ℤ◌
clamp-rest cap (pos n) = ground arith
clamp-rest cap (negsuc n) = ground arith

-- The correction of a drift: none within the deadband, a seek beyond the hard limit, a hold without
-- elapsed time, and in between a nudge that takes at most 5 % of the elapsed time off the drift and
-- never passes the target.
pub drift_action-Corrects : (drift : ℤ) (dt : ℕ) → Corrects drift dt (drift_action drift dt)
unfolding Corrects drift_action
drift_action-Corrects drift dt =
    if-keep (Corrects drift dt) (leb dt 0) MtcAdjust.hold _ (λ h. ground arith)
      λ runs.
        if-keep (Corrects drift dt) (leb (abs drift) deadband) MtcAdjust.none _
          (λ h. (ground arith, ground arith))
          λ off.
            if-keep (Corrects drift dt) (leb (abs drift) hard_sync_limit)
              (MtcAdjust.nudge (clamp (slew_cap dt) drift)) MtcAdjust.hard_sync
              (λ h. (
                ground arith,
                ground arith,
                ground arith,
                ground (arith, clamp-abs (slew_cap dt) drift),
                clamp-rest (slew_cap dt) drift,
              ))
              (λ h. (ground arith, ground arith))

-- A locating source is only frozen where its video stands: the follow is held on the target either
-- within the deadband of it, or together with a seek to it; a seek that has to wait holds nothing.
pub locate_action-hold :
    (drift : ℤ) (may_reopen : Bool)
    → (((locate_action drift may_reopen).hold ≡ true)
        × ((abs drift ≤ deadband) ⊎ ((locate_action drift may_reopen).sync ≡ true)))
      ⊎ (((locate_action drift may_reopen).hold ≡ false)
          × ((locate_action drift may_reopen).sync ≡ false)
          × (may_reopen ≡ false)
          × (deadband < abs drift))
unfolding locate_action
locate_action-hold drift may_reopen = ground arith
