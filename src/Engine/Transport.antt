-- ===== src/Engine/Transport.antt =====
-- crates/cuepool/src/engine.rs: pause and resume, the show clock's reading, seeking, and level
-- changes of `ShowEngine`. A subtraction of durations saturates at zero, as that of ℕ does. A time
-- that the source keeps in f64 seconds is a whole count of nanoseconds here.
use cue_pool.Base.{
  ℕ, ◌+◌, ◌-◌, ◌*◌, ◌/◌, ◌^◌, Bool, true, false, not, ◌&&◌, Option, none, some, List, [], ◌∷◌, map,
  if◌then◌else◌, ◌==◌, ltb, leb, find_by, min, max,
}
use cue_pool.Base.Int.{ℤ, pos, negsuc, ◌+ℤ◌}
use cue_pool.Cue.{Cue, FadeType}
use cue_pool.Mixer.{
  MixerInput, set_volume, set_volume_live, set_pan, set_active, start_fade, cancel_fade, max_zero,
}
use cue_pool.Mixer
use cue_pool.Sequence.{has_qid}
use cue_pool.Engine.State.{Engine, Show, Audio, ActiveCue, CueState, EngineAction, CurrentVideo}
use cue_pool.Engine.Stops.{push, fade_frames}

abbrev pub is_playing : CueState → Bool
is_playing CueState.playing = true
is_playing CueState.playing_looped = true
is_playing _ = false

abbrev pub is_paused_state : CueState → Bool
is_paused_state CueState.paused = true
is_paused_state _ = false

abbrev pub get_or_ℕ : Option ℕ → ℕ → ℕ
get_or_ℕ none d = d
get_or_ℕ (some n) d = n

unfoldable pub video_position : Engine → CurrentVideo → ℕ
video_position e v =
    let position = get_or_ℕ v.paused_position (e.now - v.clock_origin) in
    if ltb 0 v.duration then min position v.duration else position

-- `elapsed.max(0.0)` of the clock's count and the operator's adjustment.
abbrev pub to_ℕ : ℤ → ℕ
to_ℕ (pos n) = n
to_ℕ (negsuc n) = 0

unfoldable pub show_elapsed : Engine → Option ℕ
unfolding ◌+ℤ◌
show_elapsed e = elim e.show_start [
  | none ↦ none
  | some start ↦ some (
      to_ℕ (
        pos (get_or_ℕ e.show_pause_started e.now - start - e.show_paused_offset)
        +ℤ e.show_adjustment))
]

unfoldable pub pause_cue : ActiveCue → ActiveCue
unfolding set_active
pause_cue c = record c {
  input = set_active false c.input;
  state = if is_playing c.state then CueState.paused else c.state;
}

unfoldable pub pause_video : Engine → Option CurrentVideo → Option CurrentVideo
unfolding video_position
pause_video e none = none
pause_video e (some v) = some (record v { paused_position = some (video_position e v) })

unfoldable pub pause : Engine → Engine
unfolding pause_cue pause_video
pause e = push (EngineAction.set_video_paused true) (record e {
  active_cues = map pause_cue e.active_cues;
  current_video = pause_video e e.current_video;
  paused = true;
  show_pause_started = some (get_or_ℕ e.show_pause_started e.now);
})

unfoldable pub resume_cue : ActiveCue → ActiveCue
unfolding set_active
resume_cue c = record c {
  input = set_active true c.input;
  state =
      if is_paused_state c.state
      then (if c.loop_counter then CueState.playing_looped else CueState.playing)
      else c.state;
}

abbrev pub resume_video : ℕ → Option CurrentVideo → Option CurrentVideo
resume_video now none = none
resume_video now (some v) = elim v.paused_position [
  | none ↦ some v
  | some position ↦ some (record v { paused_position = none; clock_origin = now - position })
]

unfoldable pub resume : Engine → Engine
unfolding resume_cue
resume e = push (EngineAction.set_video_paused false) (record e {
  active_cues = map resume_cue e.active_cues;
  current_video = resume_video e.now e.current_video;
  paused = false;
  show_pause_started = none;
  show_paused_offset =
      e.show_paused_offset
      + (elim e.show_pause_started [ none ↦ 0 | some paused_at ↦ e.now - paused_at ]);
})

-- `active_cue_length_samples`; a product that does not fit a 64-bit `usize` is `None`.
unfoldable pub active_cue_length_samples : ActiveCue → Option ℕ
active_cue_length_samples c =
    let frames = c.loop_end_frame - c.loop_start_frame in
    if ltb 0 frames
    then (if ltb (frames * c.input.input_channels) (2 ^ 64)
        then some (frames * c.input.input_channels)
        else none)
    else c.input.source.total

pub data TailFadeSeekAction : Type 0 where
  unchanged rearm restart : TailFadeSeekAction

unfoldable pub tail_fade_seek_action : Bool → ℕ → ℕ → ℕ → TailFadeSeekAction
tail_fade_seek_action started target end_samples fade_samples =
    if leb (end_samples - fade_samples) target
    then TailFadeSeekAction.restart
    else if started
    then TailFadeSeekAction.rearm
    else TailFadeSeekAction.unchanged

-- The part of `seek_audio` behind the seek that keeps the cue's own tail fade in step.
unfoldable pub tail_fade_after_seek : ℕ → ℕ → ActiveCue → ActiveCue
unfolding tail_fade_seek_action cancel_fade start_fade fade_frames
tail_fade_after_seek samples length c =
    let frames = fade_frames c.fade_out c.input.source.rate in
    elim (tail_fade_seek_action c.fade_out_started samples length
      (frames * max c.input.input_channels 1)) [
        | TailFadeSeekAction.unchanged ↦ c
        | TailFadeSeekAction.rearm ↦ record c {
          input = cancel_fade c.input;
          fade_out_started = false;
        }
        | TailFadeSeekAction.restart ↦ record c {
          input =
              start_fade (pos 0) (max frames 1) c.fade_type
                (if c.fade_out_started then cancel_fade c.input else c.input);
          fade_out_started = true;
        }
      ]

-- `seek_audio` on the cue that it finds: the cue, and the position in nanoseconds that it now has.
unfoldable pub seek_audio_cue : ℕ → ActiveCue → ActiveCue × Option ℕ
unfolding active_cue_length_samples tail_fade_after_seek
seek_audio_cue target c =
    let channels = max c.input.input_channels 1 in
    let rate = max c.input.source.rate 1 in
    elim (active_cue_length_samples c) [
      | none ↦ (c, none)
      | some length ↦
          let samples = min (target * rate / 1_000_000_000 * channels) (length - channels) in
          let moved : ActiveCue = record c { input = Mixer.seek samples c.input } in
          if length == 0 then (c, none) else (
            (if ltb 0 c.fade_out && not c.loop_counter
                then tail_fade_after_seek samples length moved
                else moved),
            some (samples / channels * 1_000_000_000 / rate),
          )
    ]

-- `iter_mut().find(p)` with a change, and what the change gives back.
abbrev pub change_first :
    (ActiveCue → Bool)
    → (ActiveCue → ActiveCue × Option ℕ)
    → List ActiveCue
    → List ActiveCue × Option ℕ
change_first p f [] = ([], none)
change_first p f (c ∷ cs) =
    let rest = change_first p f cs in if p c then ((f c).0 ∷ cs, (f c).1) else (c ∷ rest.0, rest.1)

abbrev pub is_instance : ℕ → ActiveCue → Bool
is_instance i c = c.instance_id == i

unfoldable pub seek_audio : ℕ → ℕ → Engine → Engine × Option ℕ
unfolding seek_audio_cue
seek_audio instance target e =
    let changed = change_first (is_instance instance) (seek_audio_cue target) e.active_cues in
    (record e { active_cues = changed.0 }, changed.1)

abbrev pub video_instance : ℕ → Option CurrentVideo → Option CurrentVideo
video_instance i none = none
video_instance i (some v) = if v.instance_id == i then some v else none

-- The number of the cue that an instance belongs to.
unfoldable pub seek_qid : ℕ → Engine → Option ℕ
seek_qid instance e = elim (find_by (is_instance instance) e.active_cues) [
  | some c ↦ some c.qid
  | none ↦ elim (video_instance instance e.current_video) [ none ↦ none | some v ↦ some v.qid ]
]

-- `clamp_seek`: a target stays below a known length, by one nanosecond here and by one step of f64
-- in the source.
unfoldable pub clamp_seek : ℕ → ℕ → ℕ
clamp_seek target length = if ltb 0 length then min target (length - 1) else target

unfoldable pub seek_video : ℕ → ℕ → ℕ → ℕ → CurrentVideo → Engine → Engine
seek_video q start_time instance target v e =
    let moved : CurrentVideo =
      if e.paused
      then record v { paused_position = some target }
      else record v { clock_origin = e.now - target } in
    push (EngineAction.seek_video q instance v.path target start_time e.paused)
      (record e { current_video = some moved })

-- The end of `seek`, on the cue that it looked up.
unfoldable pub seek_cue : Cue → ℕ → ℕ → Engine → Engine
unfolding seek_audio clamp_seek seek_video
seek_cue (Cue.video b m follow mtc) instance secs e =
    let (sought, position) = seek_audio instance secs e in
    elim (video_instance instance sought.current_video) [
      | none ↦ sought
      | some v ↦
          seek_video b.qid m.start_time instance (clamp_seek (get_or_ℕ position secs) m.duration) v
            sought
    ]
seek_cue c instance secs e = (seek_audio instance secs e).0

module _ (show : Show) where
  unfoldable pub seek : ℕ → ℕ → Engine → Engine
  unfolding seek_qid seek_cue
  seek instance secs e = elim (seek_qid instance e) [
    | none ↦ e
    | some q ↦ elim (find_by (has_qid q) show.cues) [
      | none ↦ e
      | some c ↦ seek_cue c instance secs e
    ]
  ]

-- Every playing instance of `q`.
unfoldable pub set_level : ℕ → ℤ → ℤ → Engine → Engine
unfolding set_volume_live set_pan
set_level q v p e = record e {
  active_cues =
      map
        (λ (c : ActiveCue).
          if c.qid == q
          then record c { input = set_pan p (set_volume_live (max_zero v) c.input) }
          else c)
        e.active_cues;
}

module _ (audio : Audio) where
  unfoldable pub change_volume : ℤ → ℕ → FadeType → MixerInput → MixerInput
  unfolding set_volume start_fade fade_frames
  change_volume target fade kind i =
      if ltb 0 fade
      then start_fade (max_zero target) (max (fade_frames fade audio.output_rate) 1) kind i
      else set_volume (max_zero target) i

  -- `ShowEngine::set_volume`.
  unfoldable pub set_cue_volume : ℕ → ℤ → ℕ → FadeType → Engine → Engine
  unfolding change_volume
  set_cue_volume q target fade kind e = record e {
    active_cues =
        map
          (λ (c : ActiveCue).
            if c.qid == q then record c { input = change_volume target fade kind c.input } else c)
          e.active_cues;
  }
