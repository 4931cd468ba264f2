-- ===== src/Engine/Stops.antt =====
-- crates/cuepool/src/engine.rs: the stops of `ShowEngine`, and the reset of the show clock.
use cue_pool.Base.{
  ℕ, ◌-◌, ◌*◌, ◌/◌, ◌^◌, Bool, true, false, not, ◌||◌, Option, none, some, List, [], ◌∷◌, ◌++◌, map,
  if◌then◌else◌, ◌==◌, ltb, filter_by, min, max,
}
use cue_pool.Base.Int.{pos}
use cue_pool.Cue.{Cue, StopMode, FadeType, is_loop_end}
use cue_pool.Cue
use cue_pool.Mixer.{set_volume, set_active, start_fade}
use cue_pool.Sequence.{resolve_stop_targets}
use cue_pool.Engine.State.{
  Engine, Show, Audio, ActiveCue, CueState, EngineAction, EngineTrace, CurrentVideo,
}

-- `self.actions.push_back` and `self.trace`.
abbrev pub push : EngineAction → Engine → Engine
push a e = record e { actions = e.actions ++ a ∷ [] }

abbrev pub push_trace : EngineTrace → Engine → Engine
push_trace t = push (EngineAction.trace t)

-- `(fade_secs * rate as f32) as u32`: the cast saturates.
unfoldable pub fade_frames : ℕ → ℕ → ℕ
fade_frames fade rate = min (fade * rate / 1000) (2 ^ 32 - 1)

abbrev pub is_video_of : ℕ → Option CurrentVideo → Bool
is_video_of q none = false
is_video_of q (some v) = v.qid == q

abbrev pub is_picture_of : ℕ → Option ℕ → Bool
is_picture_of q none = false
is_picture_of q (some p) = p == q

unfoldable pub reset_show_clock : Engine → Engine
reset_show_clock e = record e {
  show_start = none;
  show_pause_started = none;
  show_paused_offset = 0;
  show_adjustment = pos 0;
  triggered_timecodes = [];
}

-- The panic button. (The inputs of the mixer that the audio engine drops here are those of the
-- active cues.)
unfoldable pub stop_all : Engine → Engine
unfolding reset_show_clock
stop_all e =
    let cleared : Engine = record e {
      active_cues = [];
      delayed_cues = [];
      active_timecodes = [];
      current_video = none;
      pending_video_half = none;
      current_picture_qid = none;
      paused = false;
    } in
    push (EngineAction.set_video_paused false) (
      push (EngineAction.stop_video 0)
        (push EngineAction.stop_all_external (reset_show_clock cleared)))

-- The loop of `stop_all_faded` on one active cue.
unfoldable pub fade_out_cue : ℕ → FadeType → ActiveCue → ActiveCue
unfolding start_fade set_volume
fade_out_cue frames kind c =
    if c.input.active
    then record c {
      pending_stop = none;
      follow_after_last = false;
      input = start_fade (pos 0) (max frames 1) kind c.input;
      fade_out_started = true;
    }
    else record c {
      pending_stop = none;
      follow_after_last = false;
      input = set_volume (pos 0) c.input;
      state = CueState.done;
    }

-- The loop of `stop_single` on one active cue of the number that is stopped.
unfoldable pub stop_cue : StopMode → ℕ → FadeType → ℕ → ActiveCue → ActiveCue
unfolding start_fade set_volume set_active fade_frames
stop_cue mode fade kind rate c =
    if is_loop_end mode
    then record c {
      pending_stop = some (record { mode = mode; fade_out_time = fade; fade_type = kind });
    }
    else if ltb 0 fade
    then record c {
      input = start_fade (pos 0) (max (fade_frames fade rate) 1) kind c.input;
      fade_out_started = true;
    }
    else record c { input = set_volume (pos 0) (set_active false c.input); state = CueState.done }

-- What a stop that does not wait for the loop's end cancels besides.
unfoldable pub cancel_waiting : ℕ → Engine → Engine
cancel_waiting q e = record e {
  delayed_cues = filter_by (λ d. not (Cue.qid d.cue == q)) e.delayed_cues;
  active_timecodes = filter_by (λ t. not (t.0 == q)) e.active_timecodes;
}

unfoldable pub stop_pictures : ℕ → ℕ → Engine → Engine
stop_pictures q fade e =
    let without : Engine =
      if is_video_of q e.current_video
      then push (EngineAction.stop_video fade)
          (record e { current_video = none; pending_video_half = none })
      else e in
    if is_picture_of q without.current_picture_qid
    then record without { current_picture_qid = none }
    else without

module _ (audio : Audio) where
  unfoldable pub stop_single : ℕ → StopMode → ℕ → FadeType → Engine → Engine
  unfolding stop_cue cancel_waiting stop_pictures
  stop_single q mode fade kind e =
      let marked : Engine = record e {
        active_cues =
            map
              (λ (c : ActiveCue).
                if c.qid == q then stop_cue mode fade kind audio.output_rate c else c)
              e.active_cues;
      } in
      push (EngineAction.stop_external q mode fade kind)
        (if is_loop_end mode then marked else stop_pictures q fade (cancel_waiting q marked))

  unfoldable pub stop_each : StopMode → ℕ → FadeType → List ℕ → Engine → Engine
  unfolding stop_single
  stop_each mode fade kind [] e = e
  stop_each mode fade kind (q ∷ qs) e = stop_each mode fade kind qs (stop_single q mode fade kind e)

  unfoldable pub stop_target : Show → ℕ → StopMode → ℕ → FadeType → Engine → Option Engine
  unfolding stop_each
  stop_target show q mode fade kind e = elim (resolve_stop_targets show.cues q) [
    | none ↦ none
    | some targets ↦ some (stop_each mode fade kind targets e)
  ]

  unfoldable pub stop_all_faded : ℕ → FadeType → Engine → Engine
  unfolding stop_all fade_out_cue fade_frames reset_show_clock
  stop_all_faded fade kind e =
      let frames = fade_frames fade audio.output_rate in
      let faded : Engine = record e {
        active_cues = map (fade_out_cue frames kind) e.active_cues;
        delayed_cues = [];
        active_timecodes = [];
        current_video = none;
        pending_video_half = none;
        current_picture_qid = none;
      } in
      let video_fade : ℕ = elim e.current_video [ none ↦ 0 | some _ ↦ fade ] in
      if not (ltb 0 fade) || e.paused
      then stop_all e
      else reset_show_clock
          (push (EngineAction.stop_video video_fade) (push EngineAction.stop_all_external faded))
