-- ===== src/Tests.antt =====
-- The data that the concrete runs use: a small show, an audio output and engines in the course of it
-- (crates/cuepool-core/src/cue/mod.rs, crates/cuepool/src/engine.rs).
mod OfSequence
mod OfCueOrder
mod OfMixer
mod OfMtc
mod OfMtcFollow
mod OfThrottle
mod OfLtc
mod OfMsc
mod OfBuffered
mod OfOsc
mod OfLoop
mod OfEngine
use cue_pool.Base.{map, Distinct, arith, ℕ, Bool, true, false, Option, none, some, List, [], ◌∷◌}
use cue_pool.Base.Int.{pos}
use cue_pool.Cue.{qid, Cue, CueBase, Media, StopFields, StopMode, TriggerMode, LoopMode, FadeType}
use cue_pool.Mixer.{MixerInput, Source, new_input, start_fade}
use cue_pool.Engine.State.{
  Show, Audio, ActiveCue, CueState, CurrentVideo, Engine, DelayedCue, new_engine,
}

abbrev base_of : ℕ → Option ℕ → TriggerMode → CueBase
base_of n parent t = record {
  qid = n;
  parent = parent;
  name = [];
  trigger = t;
  enabled = true;
  delay = 0;
  loop_mode = LoopMode.one_shot;
  loop_count = pos 1;
  remote_node = [];
  retriggerable = true;
}

abbrev clip : Media
clip = record {
  path = 97 ∷ [];
  start_time = 0;
  duration = 0;
  volume = pos 1000;
  pan = pos 0;
  fade_in = 0;
  fade_out = 500;
  fade_type = FadeType.linear;
  routing = record { out_pair = 0; send = pos 1000; crosspoints = [] };
}

-- A group, its two members, a cue that follows the second, and a chain of two goto cues.
abbrev band : List Cue
band =
    Cue.group (base_of 1 none TriggerMode.go)
    ∷ Cue.sound (base_of 2 (some 1) TriggerMode.with_last) clip
    ∷ Cue.dummy (base_of 3 (some 1) TriggerMode.with_last)
    ∷ Cue.dummy (base_of 4 none TriggerMode.after_last)
    ∷ Cue.goto (base_of 5 none TriggerMode.go) 6
    ∷ Cue.goto (base_of 6 none TriggerMode.go) 4
    ∷ []

pub band-Distinct : Distinct (map qid band)
band-Distinct = (
  λ m. ground arith,
  (λ m. ground arith, (λ m. ground arith, (λ m. ground arith, (λ m. ground arith, (λ m. m, tt))))),
)

abbrev evening : Show
evening = record {
  cues = band;
  settings = record { node_name = []; enable_remote_control = false; remote_nodes = [] };
}

abbrev track : Source
track = record { at = 0; total = some 96_000; source_channels = 2; rate = 48_000 }

abbrev stage : Audio
stage = record {
  usable = true;
  output_rate = 48_000;
  resolve_path = λ p. some p;
  open_file = λ p. some (record { sample_rate = 48_000; channels = 2; length = some 96_000 });
  play_chain = λ p c. some (new_input track);
}

abbrev sounding : ℕ → ℕ → ActiveCue
sounding i q = record {
  instance_id = i;
  qid = q;
  name = [];
  input = new_input track;
  state = CueState.playing;
  loop_counter = false;
  video_loop_count = 0;
  video_loop_limit = none;
  loop_start_frame = 0;
  loop_end_frame = 48_000;
  fade_out = 500;
  fade_type = FadeType.linear;
  fade_out_started = false;
  pending_stop = none;
  follow_after_last = true;
}

abbrev film : CurrentVideo
film = record {
  qid = 2;
  instance_id = 7;
  epoch = 1;
  path = 98 ∷ [];
  start_time = 0;
  duration = 0;
  loop_mode = LoopMode.one_shot;
  follow_mtc = false;
  mtc_start = 0;
  has_audio = true;
  clock_origin = 0;
  paused_position = none;
}

-- Two cues sound, a third waits, a video is on, and the clock has run since 100.
abbrev running : Engine
running = record (new_engine (some 1)) {
  active_cues = sounding 7 2 ∷ sounding 8 3 ∷ [];
  delayed_cues = record { cue = Cue.dummy (base_of 2 none TriggerMode.go); start_at = 5_000 } ∷ [];
  active_timecodes = (2, 9_000) ∷ (3, 9_000) ∷ [];
  current_video = some film;
  show_start = some 100;
}
