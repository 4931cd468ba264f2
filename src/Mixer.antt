-- ===== src/Mixer.antt =====
-- crates/cuepool-audio/src/mixer.rs: one input of the mixer, as the control thread reads and writes
-- it. A gain (f32) is in thousandths. The source chain behind an input is known by its position,
-- length, channel count and rate; what it plays is not modelled.
pub mod Level
use cue_pool.Base.{
  ℕ, ◌+◌, ◌-◌, ◌/◌, ◌==◌, Bool, true, false, not, ◌&&◌, ◌||◌, Option, none, some, List, [],
  if◌then◌else◌, max,
}
use cue_pool.Base.Int.{ℤ, pos, negsuc, ltb_ℤ}
use cue_pool.Cue.{FadeType, Crosspoint}

pub record Fade : Type 0 where
  pub fade_start : ℤ
  pub fade_target : ℤ
  pub fade_duration : ℕ
  pub fade_remaining : ℕ
  pub fade_type : FadeType
  pub fade_active : Bool

pub record Source : Type 0 where
  pub at : ℕ
  pub total : Option ℕ
  pub source_channels : ℕ
  pub rate : ℕ

pub record MixerInput : Type 0 where
  pub source : Source
  pub volume : ℤ
  pub pan : ℤ
  pub out_pair : ℕ
  pub send : ℤ
  pub input_channels : ℕ
  pub crosspoints : List Crosspoint
  pub active : Bool
  pub finished : Bool
  pub fade : Fade

-- `MixerInput::new`.
unfoldable pub new_input : Source → MixerInput
new_input s = record {
  source = s;
  volume = pos 1000;
  pan = pos 0;
  out_pair = 0;
  send = pos 1000;
  input_channels = max s.source_channels 1;
  crosspoints = [];
  active = true;
  finished = false;
  fade = record {
    fade_start = pos 1000;
    fade_target = pos 1000;
    fade_duration = 0;
    fade_remaining = 0;
    fade_type = FadeType.linear;
    fade_active = false;
  };
}

-- `f32::max` and `f32::clamp` on scaled values.
abbrev pub max_zero : ℤ → ℤ
max_zero (pos n) = pos n
max_zero (negsuc n) = pos 0

abbrev pub clamp_unit : ℤ → ℤ
clamp_unit p =
    if ltb_ℤ p (negsuc 999) then negsuc 999 else if ltb_ℤ (pos 1000) p then pos 1000 else p

unfoldable pub set_volume : ℤ → MixerInput → MixerInput
set_volume v i = record i { volume = v }

unfoldable pub set_volume_live : ℤ → MixerInput → MixerInput
set_volume_live v i =
    if i.fade.fade_active && ltb_ℤ (pos 0) i.fade.fade_target
    then record i { volume = v; fade = record (i.fade) { fade_target = v } }
    else record i { volume = v }

unfoldable pub set_pan : ℤ → MixerInput → MixerInput
set_pan p i = record i { pan = clamp_unit p }

unfoldable pub set_routing : ℕ → ℤ → List Crosspoint → MixerInput → MixerInput
set_routing pair s points i = record i { out_pair = pair; send = max_zero s; crosspoints = points }

unfoldable pub set_active : Bool → MixerInput → MixerInput
set_active b i = record i { active = b }

unfoldable pub seek : ℕ → MixerInput → MixerInput
seek sample i = record i { source = record (i.source) { at = sample }; finished = false }

unfoldable pub start_fade : ℤ → ℕ → FadeType → MixerInput → MixerInput
start_fade target frames kind i = record i {
  fade = record {
    fade_start = i.volume;
    fade_target = target;
    fade_duration = frames;
    fade_remaining = frames;
    fade_type = kind;
    fade_active = true;
  };
}

unfoldable pub cancel_fade : MixerInput → MixerInput
cancel_fade i = record i {
  volume = i.fade.fade_start;
  fade = record (i.fade) { fade_active = false; fade_remaining = 0 };
}

-- The part of `render` behind the fade's loop: what is left of the fade is stored, and a fade that
-- has run out leaves its target as the volume; one to silence ends the input.
unfoldable pub end_fade : ℕ → MixerInput → MixerInput
end_fade remaining i =
    if remaining == 0
    then record i {
      volume = i.fade.fade_target;
      active = ltb_ℤ (pos 0) i.fade.fade_target && i.active;
      finished = not (ltb_ℤ (pos 0) i.fade.fade_target) || i.finished;
      fade = record (i.fade) { fade_active = false; fade_remaining = 0 };
    }
    else record i { fade = record (i.fade) { fade_remaining = remaining } }

-- The round of `render` for one input, once its source has delivered `read` samples: the fade's
-- frames, its end, and the end of the source. The gains that the samples are mixed at are not
-- modelled.
unfoldable pub render_input : ℕ → MixerInput → MixerInput
unfolding end_fade
render_input read i =
    let moved : MixerInput = record i { source = record (i.source) { at = i.source.at + read } } in
    if not i.active
    then i
    else if read == 0
    then record i { finished = true }
    else if i.fade.fade_active
    then end_fade (i.fade.fade_remaining - read / max i.input_channels 1) moved
    else moved
