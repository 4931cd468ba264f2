-- ===== src/Mixer/Level.antt =====
-- The level that an input of crates/cuepool-audio/src/mixer.rs ends at, across live edits, fades and
-- rounds of `render`.
use cue_pool.Base.{ℕ, ◌/◌, ◌≡◌, ◌<◌, ◌≤◌, ◌⊎◌, true, false, not, ◌||◌, max, arith}
use cue_pool.Base.Int.{ℤ, pos, ltb_ℤ}
use cue_pool.Cue.{FadeType}
use cue_pool.Mixer.{MixerInput, set_volume_live, start_fade, cancel_fade, render_input}

-- A cancelled fade leaves the level that the input had before the fade, whatever was rendered of it
-- in between short of its end.
cancel_fade-start_fade :
    (target : ℤ) (frames read : ℕ) (kind : FadeType) (i : MixerInput)
    → read / max i.input_channels 1 < frames
    → (cancel_fade (render_input read (start_fade target frames kind i))).volume ≡ i.volume
unfolding cancel_fade render_input start_fade
cancel_fade-start_fade target frames read kind i h = ground arith

-- A live edit wins over a fade in flight, unless that fade leads to silence: when the next round ends
-- the fade, an input that was fading to a level above zero stands at the edited level, active where
-- that is above zero and otherwise finished, and one that was fading to silence stands at its target,
-- inactive and finished.
pub render_input-set_volume_live :
    (v : ℤ) (read : ℕ) (i : MixerInput)
    → i.active ≡ true
    → i.fade.fade_active ≡ true
    → 0 < read
    → i.fade.fade_remaining ≤ read / max i.input_channels 1
    → let j = render_input read (set_volume_live v i) in
      ((ltb_ℤ (pos 0) i.fade.fade_target ≡ true)
        × (j.volume ≡ v)
        × (j.active ≡ ltb_ℤ (pos 0) v)
        × (j.finished ≡ (not (ltb_ℤ (pos 0) v) || i.finished)))
      ⊎ ((ltb_ℤ (pos 0) i.fade.fade_target ≡ false)
          × (j.volume ≡ i.fade.fade_target)
          × (j.active ≡ false)
          × (j.finished ≡ true))
unfolding render_input set_volume_live
render_input-set_volume_live v read i a f r h = ground arith
