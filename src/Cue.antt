-- ===== src/Cue.antt =====
-- crates/cuepool-core/src/cue/mod.rs: the cues of a show.
--
-- A cue number (`rust_decimal::Decimal`) is only compared for equality and is a number here. A
-- `Timespan` is its count of nanoseconds. A level is in thousandths, a fade time (f32 seconds) in
-- milliseconds; a negative fade time acts as zero wherever it is read. Fields that no modelled code
-- reads (colour, description, triggers, the equaliser, fonts, fits, fixture looks) are left out.
use cue_pool.Base.{ℕ, Bool, true, false, Option, List}
use cue_pool.Base.Int.{ℤ}
use cue_pool.Base.Text.{Text}

pub data LoopMode : Type 0 where
  one_shot looped looped_infinite hold_last : LoopMode

pub data StopMode : Type 0 where
  immediate loop_end : StopMode

pub data TriggerMode : Type 0 where
  go with_last after_last : TriggerMode

pub data FadeType : Type 0 where
  linear s_curve square inverse_square : FadeType

pub record CueBase : Type 0 where
  pub qid : ℕ
  pub parent : Option ℕ
  pub name : Text
  pub trigger : TriggerMode
  pub enabled : Bool
  pub delay : ℕ
  pub loop_mode : LoopMode
  pub loop_count : ℤ
  pub remote_node : Text
  pub retriggerable : Bool

pub record Crosspoint : Type 0 where
  pub in_ch : ℕ
  pub out_ch : ℕ
  pub gain : ℤ

pub record AudioRouting : Type 0 where
  pub out_pair : ℕ
  pub send : ℤ
  pub crosspoints : List Crosspoint

-- The fields that sound and video cues share.
pub record Media : Type 0 where
  pub path : Text
  pub start_time : ℕ
  pub duration : ℕ
  pub volume : ℤ
  pub pan : ℤ
  pub fade_in : ℕ
  pub fade_out : ℕ
  pub fade_type : FadeType
  pub routing : AudioRouting

-- The target, mode, fade and `stop_all` of a stop cue.
pub record StopFields : Type 0 where
  pub stop_qid : ℕ
  pub stop_mode : StopMode
  pub fade_out_time : ℕ
  pub fade_type : FadeType
  pub stop_all : Bool

pub record VolumeFields : Type 0 where
  pub sound_qid : ℕ
  pub fade_time : ℕ
  pub volume : ℤ
  pub fade_type : FadeType

-- A video cue adds `follow_mtc` and `mtc_start`; a timecode cue has its start and duration; a
-- network cue its command, a text cue its text, an image, pixel-map or DMX cue its path, a goto
-- cue its target and a lighting cue its fade time.
pub data Cue : Type 0 where
  group dummy : CueBase → Cue
  sound : CueBase → Media → Cue
  time_code : CueBase → ℕ → ℕ → Cue
  stop : CueBase → StopFields → Cue
  volume : CueBase → VolumeFields → Cue
  video : CueBase → Media → Bool → ℕ → Cue
  network text image pixel_map dmx_show : CueBase → Text → Cue
  goto : CueBase → ℕ → Cue
  lighting : CueBase → ℕ → Cue

abbrev pub base : Cue → CueBase
base (Cue.group b) = b
base (Cue.dummy b) = b
base (Cue.sound b _) = b
base (Cue.time_code b _ _) = b
base (Cue.stop b _) = b
base (Cue.volume b _) = b
base (Cue.video b _ _ _) = b
base (Cue.network b _) = b
base (Cue.text b _) = b
base (Cue.image b _) = b
base (Cue.pixel_map b _) = b
base (Cue.dmx_show b _) = b
base (Cue.goto b _) = b
base (Cue.lighting b _) = b

-- A write through `base_mut`.
abbrev pub with_base : Cue → CueBase → Cue
with_base (Cue.group _) b = Cue.group b
with_base (Cue.dummy _) b = Cue.dummy b
with_base (Cue.sound _ m) b = Cue.sound b m
with_base (Cue.time_code _ s d) b = Cue.time_code b s d
with_base (Cue.stop _ f) b = Cue.stop b f
with_base (Cue.volume _ f) b = Cue.volume b f
with_base (Cue.video _ m f s) b = Cue.video b m f s
with_base (Cue.network _ c) b = Cue.network b c
with_base (Cue.text _ t) b = Cue.text b t
with_base (Cue.image _ p) b = Cue.image b p
with_base (Cue.pixel_map _ p) b = Cue.pixel_map b p
with_base (Cue.dmx_show _ p) b = Cue.dmx_show b p
with_base (Cue.goto _ t) b = Cue.goto b t
with_base (Cue.lighting _ f) b = Cue.lighting b f

-- `cue.qid()` and `cue.enabled()`.
abbrev pub qid : Cue → ℕ
qid c = (base c).qid

abbrev pub enabled : Cue → Bool
enabled c = (base c).enabled

abbrev pub parent : Cue → Option ℕ
parent c = (base c).parent

abbrev pub trigger : Cue → TriggerMode
trigger c = (base c).trigger

-- `matches!(cue, Cue::Group { .. })`.
abbrev pub is_group : Cue → Bool
is_group (Cue.group _) = true
is_group _ = false

-- Equality tests on the small enumerations and on `Option<Decimal>`.
abbrev pub is_after_last : TriggerMode → Bool
is_after_last TriggerMode.after_last = true
is_after_last _ = false

abbrev pub is_with_last : TriggerMode → Bool
is_with_last TriggerMode.with_last = true
is_with_last _ = false

abbrev pub is_loop_end : StopMode → Bool
is_loop_end StopMode.loop_end = true
is_loop_end _ = false
