-- ===== src/Engine/State.antt =====
-- crates/cuepool/src/engine.rs: the state of `ShowEngine`, what it reads of the show, what it hands
-- to the rest of the program, and the audio output behind it.
--
-- A `Duration` is its count of nanoseconds, a fade time is in milliseconds, and an instance number
-- (u64) wraps as in the source. The shared state of the GUI enters as the cue list and settings,
-- which the engine only reads (`Show`), and as the selected cue and the operator's alerts, which it
-- writes.
use cue_pool.Base.{ℕ, ◌+◌, ◌%◌, ◌^◌, Bool, false, Option, none, List, [], max}
use cue_pool.Base.Int.{ℤ, pos}
use cue_pool.Base.Text.{Text}
use cue_pool.Cue.{Cue, LoopMode, StopMode, FadeType}
use cue_pool.Mixer.{MixerInput}

-- crates/cuepool-gui/src/app/mod.rs
pub data CueState : Type 0 where
  ready delay playing playing_looped paused done : CueState

pub record PendingStop : Type 0 where
  pub mode : StopMode
  pub fade_out_time : ℕ
  pub fade_type : FadeType

-- `loop_counter` says whether there is one; the engine never reads its count.
pub record ActiveCue : Type 0 where
  pub instance_id : ℕ
  pub qid : ℕ
  pub name : Text
  pub input : MixerInput
  pub state : CueState
  pub loop_counter : Bool
  pub video_loop_count : ℕ
  pub video_loop_limit : Option ℕ
  pub loop_start_frame : ℕ
  pub loop_end_frame : ℕ
  pub fade_out : ℕ
  pub fade_type : FadeType
  pub fade_out_started : Bool
  pub pending_stop : Option PendingStop
  pub follow_after_last : Bool

pub record DelayedCue : Type 0 where
  pub cue : Cue
  pub start_at : ℕ

pub record CurrentVideo : Type 0 where
  pub qid : ℕ
  pub instance_id : ℕ
  pub epoch : ℕ
  pub path : Text
  pub start_time : ℕ
  pub duration : ℕ
  pub loop_mode : LoopMode
  pub follow_mtc : Bool
  pub mtc_start : ℕ
  pub has_audio : Bool
  pub clock_origin : ℕ
  pub paused_position : Option ℕ

pub data EngineCommand : Type 0 where
  go stop pause resume toggle_pause preload : EngineCommand
  fire select : ℕ → EngineCommand
  seek : ℕ → ℕ → EngineCommand
  set_level : ℕ → ℤ → ℤ → EngineCommand

pub data EngineEvent : Type 0 where
  video_eof video_failed : ℕ → ℕ → EngineEvent
  external_finished : ℕ → EngineEvent

pub data EngineTrace : Type 0 where
  cue_started : ℕ → Option ℕ → EngineTrace
  cue_finished : ℕ → EngineTrace

-- `play_video` carries the video that it starts. `seek_video` has the number, the instance, the
-- path, the target and the media offset in nanoseconds, and whether the show is paused.
pub data EngineAction : Type 0 where
  play_video : CurrentVideo → EngineAction
  seek_video : ℕ → ℕ → Text → ℕ → ℕ → Bool → EngineAction
  stop_video : ℕ → EngineAction
  set_video_paused : Bool → EngineAction
  fire_external : Cue → EngineAction
  stop_external : ℕ → StopMode → ℕ → FadeType → EngineAction
  stop_all_external : EngineAction
  remote_go : Text → ℕ → EngineAction
  trace : EngineTrace → EngineAction

-- The two messages of `warn_operator`, each with the cue's number and the node's name.
pub data Alert : Type 0 where
  node_not_detected remote_control_off : ℕ → Text → Alert

pub record Settings : Type 0 where
  pub node_name : Text
  pub enable_remote_control : Bool
  pub remote_nodes : List Text

pub record Show : Type 0 where
  pub cues : List Cue
  pub settings : Settings

-- A decoder that opened: its rate, channel count and length in samples.
pub record Decoder : Type 0 where
  pub sample_rate : ℕ
  pub channels : ℕ
  pub length : Option ℕ

pub record CueChainParams : Type 0 where
  pub start_frame : ℕ
  pub end_frame : ℕ
  pub loop_mode : LoopMode
  pub loop_count : ℕ
  pub fade_in : ℕ
  pub fade_type : FadeType

-- The audio engine and the files behind it: whether an output that fits the settings is open, its
-- rate (that of `audio_sample_rate`, which is 48 kHz with no output), how a path resolves, which
-- files decode, and the mixer input that a chain is given, if the output takes it.
pub record Audio : Type 0 where
  pub usable : Bool
  pub output_rate : ℕ
  pub resolve_path : Text → Option Text
  pub open_file : Text → Option Decoder
  pub play_chain : Text → CueChainParams → Option MixerInput

pub record Engine : Type 0 where
  pub selected_cue_id : Option ℕ
  pub alerts : List Alert
  pub active_cues : List ActiveCue
  pub next_active_cue_instance_id : ℕ
  pub delayed_cues : List DelayedCue
  pub paused : Bool
  pub now : ℕ
  pub go_in_progress : Bool
  pub show_start : Option ℕ
  pub show_pause_started : Option ℕ
  pub show_paused_offset : ℕ
  pub show_adjustment : ℤ
  pub triggered_timecodes : List ℕ
  pub active_timecodes : List (ℕ × ℕ)
  pub current_video : Option CurrentVideo
  pub pending_video_half : Option (ℕ × ℕ)
  pub current_picture_qid : Option ℕ
  pub actions : List EngineAction

-- `ShowEngine::new`, with the cue that the GUI has selected.
abbrev pub new_engine : Option ℕ → Engine
new_engine selected = record {
  selected_cue_id = selected;
  alerts = [];
  active_cues = [];
  next_active_cue_instance_id = 1;
  delayed_cues = [];
  paused = false;
  now = 0;
  go_in_progress = false;
  show_start = none;
  show_pause_started = none;
  show_paused_offset = 0;
  show_adjustment = pos 0;
  triggered_timecodes = [];
  active_timecodes = [];
  current_video = none;
  pending_video_half = none;
  current_picture_qid = none;
  actions = [];
}

-- u64 `wrapping_add(1).max(1)`.
abbrev pub next_id : ℕ → ℕ
next_id n = max ((n + 1) % 2 ^ 64) 1
