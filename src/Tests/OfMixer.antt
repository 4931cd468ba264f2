-- ===== src/Tests/OfMixer.antt =====
-- Concrete runs of a mixer input (crates/cuepool-audio/src/mixer.rs).
use cue_pool.Base.{◌≡◌, refl, true, false, ◌⊎◌, not, ◌||◌, arith}
use cue_pool.Base.Int.{pos, ltb_ℤ}
use cue_pool.Cue.{FadeType}
use cue_pool.Mixer.{MixerInput, new_input, start_fade, render_input, set_volume_live}
use cue_pool.Mixer.Level.{render_input-set_volume_live}
use cue_pool.Tests.{track}

abbrev fading : MixerInput
fading = start_fade (pos 500) 50 FadeType.linear (new_input track)

render_input-set_volume_live_example :
    let j = render_input 200 (set_volume_live (pos 800) fading) in
    ((ltb_ℤ (pos 0) fading.fade.fade_target ≡ true)
      × (j.volume ≡ pos 800)
      × (j.active ≡ ltb_ℤ (pos 0) (pos 800))
      × (j.finished ≡ (not (ltb_ℤ (pos 0) (pos 800)) || fading.finished)))
    ⊎ ((ltb_ℤ (pos 0) fading.fade.fade_target ≡ false)
        × (j.volume ≡ fading.fade.fade_target)
        × (j.active ≡ false)
        × (j.finished ≡ true))
unfolding start_fade new_input
render_input-set_volume_live_example =
    render_input-set_volume_live (pos 800) 200 fading refl refl (omega arith) (omega arith)
