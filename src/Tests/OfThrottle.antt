-- ===== src/Tests/OfThrottle.antt =====
-- Concrete runs of `WarnThrottle` (crates/cuepool-protocols/src/lib.rs).
use cue_pool.Base.{ℕ, ◌+◌, ◌≡◌, refl, List, [], ◌∷◌, length, arith}
use cue_pool.Throttle.{new_throttle, throttle_tick, tick_all}
use cue_pool.Throttle.Lines.{reported, Spaced, tick_all-reported, tick_all-Spaced}

-- Events at these seconds, with ten seconds between lines.
abbrev spray : List ℕ
spray = 100 ∷ 101 ∷ 105 ∷ 110 ∷ 111 ∷ 125 ∷ 126 ∷ []

sprayed : (tick_all (new_throttle 10) spray).1 ≡ (100, 0) ∷ (110, 2) ∷ (125, 1) ∷ []
unfolding tick_all throttle_tick
sprayed = refl

tick_all-reported_example :
    reported (tick_all (new_throttle 10) spray).1 + (tick_all (new_throttle 10) spray).0.suppressed
    ≡ 0 + length spray
tick_all-reported_example = tick_all-reported (new_throttle 10) spray (omega arith)

tick_all-Spaced_example :
    Spaced 10 (new_throttle 10).last_logged (tick_all (new_throttle 10) spray).1
tick_all-Spaced_example = tick_all-Spaced (new_throttle 10) spray (omega arith)
