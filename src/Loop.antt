-- ===== src/Loop.antt =====
-- `LoopProcessor` of crates/cuepool-audio/src/loop_processor.rs: trim points and loops on top of a
-- source of samples. A read of a buffer gives the samples that it writes. Words of 64 and 32 bits wrap.
pub mod Ends
pub mod Stream
pub mod Rounds
pub mod Windows
use cue_pool.Base.{
  ℕ, zero, suc, ◌+◌, ◌-◌, ◌*◌, ◌/◌, ◌%◌, ◌^◌, min, max, Bool, true, false, ◌||◌, Option, none, some,
  List, [], ◌++◌, ◌==◌, leb, ltb, if◌then◌else◌, length, take, map,
}
use cue_pool.Cue.{LoopMode}

-- The trait `SampleProvider`, over a state of the source.
pub record SampleProvider (A S : Type 0) : Type 0 where
  pub read : S → ℕ → S × List A
  pub seek : S → ℕ → S
  pub position : S → ℕ
  pub source_length : S → Option ℕ
  pub sample_rate : S → ℕ
  pub channels : S → ℕ

pub record LoopInner : Type 0 where
  pub start_frame : ℕ
  pub end_frame : ℕ
  pub loop_mode : LoopMode
  pub loop_count : ℕ
  pub total_frames : ℕ
  pub played_loops : ℕ
  pub exhausted : Bool

pub record LoopProcessor (S : Type 0) : Type 0 where
  pub source : S
  pub inner : LoopInner
  pub cmd_start_frame : ℕ
  pub cmd_end_frame : ℕ
  pub cmd_loop_mode : ℕ
  pub cmd_loop_count : ℕ
  pub loop_counter : Option ℕ

abbrev pub new_processor : {S : Type 0} → S → LoopProcessor S
new_processor source = record {
  source = source;
  inner = record {
    start_frame = 0;
    end_frame = 0;
    loop_mode = LoopMode.one_shot;
    loop_count = 1;
    total_frames = 0;
    played_loops = 0;
    exhausted = false;
  };
  cmd_start_frame = 0;
  cmd_end_frame = 0;
  cmd_loop_mode = 0;
  cmd_loop_count = 1;
  loop_counter = none;
}

-- `mode as u8`.
abbrev pub loop_mode_as_u8 : LoopMode → ℕ
loop_mode_as_u8 LoopMode.one_shot = 0
loop_mode_as_u8 LoopMode.looped = 1
loop_mode_as_u8 LoopMode.looped_infinite = 2
loop_mode_as_u8 LoopMode.hold_last = 3

abbrev pub loop_mode_from_u8 : ℕ → LoopMode
loop_mode_from_u8 v =
    if v == 0
    then LoopMode.one_shot
    else if v == 1
    then LoopMode.looped
    else if v == 2
    then LoopMode.looped_infinite
    else if v == 3
    then LoopMode.hold_last
    else LoopMode.one_shot

abbrev pub set_loop : {S : Type 0} → ℕ → ℕ → LoopMode → ℕ → LoopProcessor S → LoopProcessor S
set_loop start end mode count p = record p {
  cmd_start_frame = start;
  cmd_end_frame = end;
  cmd_loop_mode = loop_mode_as_u8 mode;
  cmd_loop_count = count;
}

-- What one round of the loop in `read` does: the end of the read, or the next round with the frames
-- read so far, whether a boundary was passed since the last of them, and the samples.
pub data Round (A S : Type 0) : Type 0 where
  finished : LoopProcessor S → ℕ → List A → Round A S
  again : LoopProcessor S → ℕ → Bool → List A → Round A S

module _ {A S : Type 0} (sp : SampleProvider A S) where
  abbrev pub samples_to_frames : S → ℕ → ℕ
  samples_to_frames s samples = samples / max (sp.channels s) 1

  abbrev pub frames_to_samples : S → ℕ → ℕ
  frames_to_samples s frames = frames * sp.channels s % 2 ^ 64

  abbrev pub end_of : S → ℕ → ℕ
  end_of s cmd_end =
      if cmd_end == 0
      then (elim (sp.source_length s) [ none ↦ 2 ^ 64 - 1 | some len ↦ samples_to_frames s len ])
      else cmd_end

  -- The parameters as the control thread has set them.
  abbrev pub refresh : LoopProcessor S → LoopProcessor S
  refresh p = record p {
    inner = record p.inner {
      start_frame = p.cmd_start_frame;
      end_frame = end_of p.source p.cmd_end_frame;
      loop_mode = loop_mode_from_u8 p.cmd_loop_mode;
      loop_count = p.cmd_loop_count;
    };
  }

  abbrev pub exhaust : LoopProcessor S → LoopProcessor S
  exhaust p = record p { inner = record p.inner { exhausted = true } }

  -- `if current_src_frame < inner.start_frame { seek }`.
  abbrev pub trim_start : LoopProcessor S → LoopProcessor S
  trim_start p =
      if ltb (samples_to_frames p.source (sp.position p.source)) p.inner.start_frame
      then record p { source = sp.seek p.source (frames_to_samples p.source p.inner.start_frame) }
      else p

  abbrev pub count_up : Option ℕ → Option ℕ
  count_up none = none
  count_up (some n) = some ((n + 1) % 2 ^ 32)

  abbrev pub pass_boundary : LoopProcessor S → LoopProcessor S
  pass_boundary p = record p {
    source = sp.seek p.source (frames_to_samples p.source p.inner.start_frame);
    inner = record p.inner { played_loops = (p.inner.played_loops + 1) % 2 ^ 32 };
    loop_counter = count_up p.loop_counter;
  }

  abbrev pub by_mode : LoopMode → LoopProcessor S → ℕ → List A → Round A S
  by_mode LoopMode.one_shot p total out = finished (exhaust p) total out
  by_mode LoopMode.hold_last p total out = finished (exhaust p) total out
  by_mode LoopMode.looped p total out =
      if leb p.inner.loop_count ((p.inner.played_loops + 1) % 2 ^ 32)
      then finished (exhaust p) total out
      else again (pass_boundary p) total true out
  by_mode LoopMode.looped_infinite p total out = again (pass_boundary p) total true out

  -- The boundary of the window, or a window with nothing in it.
  unfoldable pub at_boundary : LoopProcessor S → ℕ → Bool → List A → Round A S
  at_boundary p total looped_without_progress out =
      if leb p.inner.end_frame p.inner.start_frame || looped_without_progress
      then finished (exhaust p) total out
      else by_mode p.inner.loop_mode p total out

  -- Whole frames count; what a source writes beyond them the next round overwrites.
  unfoldable pub take_in : LoopProcessor S → ℕ → ℕ → List A → Round A S
  take_in p total wanted out =
      let got = sp.read p.source wanted in
      let frames = length got.1 / sp.channels p.source in
      if length got.1 == 0
      then finished (exhaust (record p { source = got.0 })) total out
      else again
          (record p {
            source = got.0;
            inner = record p.inner { total_frames = (p.inner.total_frames + frames) % 2 ^ 64 };
          })
          (total + frames) false (out ++ take (frames * sp.channels p.source) got.1)

  -- `samples_to_read`, for the frames that the buffer still takes.
  abbrev pub samples_wanted : LoopProcessor S → ℕ → ℕ
  samples_wanted p left =
      min left (p.inner.end_frame - samples_to_frames p.source (sp.position p.source))
      * sp.channels p.source

  unfoldable pub round : LoopProcessor S → ℕ → ℕ → Bool → List A → Round A S
  unfolding at_boundary take_in
  round p target total looped_without_progress out =
      let trimmed = trim_start p in
      let wanted = samples_wanted trimmed (target - total) in
      if wanted == 0
      then at_boundary trimmed total looped_without_progress out
      else take_in trimmed total wanted out

  -- The loop of `read`, on fuel: `none` says that the fuel has run out.
  unfoldable pub read_loop :
      ℕ → LoopProcessor S → ℕ → ℕ → Bool → List A → Option (LoopProcessor S × List A)
  read_loop zero p target total looped_without_progress out = none
  read_loop (suc fuel) p target total looped_without_progress out = elim (ltb total target) [
    | true ↦ elim (round p target total looped_without_progress out) [
      | finished p' total' out' ↦ some (p', out')
      | again p' total' flag' out' ↦ read_loop fuel p' target total' flag' out'
    ]
    | false ↦ some (p, out)
  ]

  abbrev pub target_frames : LoopProcessor S → ℕ → ℕ
  target_frames p n = n / max (sp.channels p.source) 1

  -- Two rounds for each frame, and one to see the end, are enough.
  abbrev pub read_fuel : LoopProcessor S → ℕ → ℕ
  read_fuel p n = target_frames p n * 2 + 2

  unfoldable pub read : LoopProcessor S → ℕ → Option (LoopProcessor S × List A)
  unfolding read_loop
  read p n =
      let fresh = refresh p in
      if fresh.inner.exhausted
      then some (fresh, [])
      else read_loop (read_fuel fresh n) fresh (target_frames fresh n) 0 false []

  abbrev pub seek_sample : LoopProcessor S → ℕ → LoopProcessor S
  seek_sample p sample =
      let frame = samples_to_frames p.source sample in
      record p {
        source =
            sp.seek p.source (frames_to_samples p.source ((p.cmd_start_frame + frame) % 2 ^ 64));
        inner = record p.inner { total_frames = frame; exhausted = false };
      }

  abbrev pub processor_position : LoopProcessor S → ℕ
  processor_position p = frames_to_samples p.source p.inner.total_frames

  abbrev pub length_by_mode : LoopMode → S → ℕ → ℕ → ℕ → Option ℕ
  length_by_mode LoopMode.one_shot s count loop_frames source_frames =
      some (frames_to_samples s loop_frames)
  length_by_mode LoopMode.hold_last s count loop_frames source_frames =
      some (frames_to_samples s loop_frames)
  length_by_mode LoopMode.looped s count loop_frames source_frames =
      some (frames_to_samples s (min (loop_frames * count % 2 ^ 64) source_frames))
  length_by_mode LoopMode.looped_infinite s count loop_frames source_frames = none

  unfoldable pub processor_length : LoopProcessor S → Option ℕ
  processor_length p = elim (sp.source_length p.source) [
    | none ↦ none
    | some len ↦
        (let source_frames = samples_to_frames p.source len in
          let effective_end =
            if p.cmd_end_frame == 0 then source_frames else min p.cmd_end_frame source_frames in
          length_by_mode p.inner.loop_mode p.source p.inner.loop_count
            (effective_end - min p.cmd_start_frame effective_end) source_frames)
  ]
