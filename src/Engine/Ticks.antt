-- ===== src/Engine/Ticks.antt =====
-- crates/cuepool/src/engine.rs: the checks that `ShowEngine::tick` makes, and the ends of videos and
-- external cues.
use cue_pool.Base.{
  ℕ, ◌-◌, ◌*◌, ◌/◌, ◌^◌, Bool, true, false, not, ◌&&◌, ◌||◌, Option, none, some, List, [], ◌∷◌, map,
  if◌then◌else◌, ◌==◌, ltb, leb, filter_by, contains, min, max,
}
use cue_pool.Base.Int.{pos}
use cue_pool.Cue.{Cue, LoopMode, is_loop_end, qid}
use cue_pool.Mixer.{set_volume, set_active, start_fade}
use cue_pool.Engine.State.{
  Engine, Show, ActiveCue, CueState, DelayedCue, EngineAction, EngineTrace, CurrentVideo,
}
use cue_pool.Engine.Stops.{push, push_trace, fade_frames}
use cue_pool.Engine.Transport.{active_cue_length_samples, show_elapsed}
use cue_pool.Engine.Play.{push_video_action}
use cue_pool.Engine.Dispatch.{◌>>=◌, play_all, play_after_last, finish}

abbrev pub is_plain_playing : CueState → Bool
is_plain_playing CueState.playing = true
is_plain_playing _ = false

abbrev pub is_done : CueState → Bool
is_done CueState.done = true
is_done _ = false

-- `position >= end - frames * channels`, for a cue of known length.
unfoldable pub tail_reached : ℕ → ActiveCue → Bool
unfolding active_cue_length_samples
tail_reached frames c = elim (active_cue_length_samples c) [
  | none ↦ false
  | some end_samples ↦ leb (end_samples - frames * c.input.input_channels) c.input.source.at
]

-- The loop of `check_fade_outs` on one cue.
unfoldable pub check_fade_out : ℕ → ActiveCue → ActiveCue
unfolding tail_reached start_fade fade_frames
check_fade_out rate c =
    let frames = fade_frames c.fade_out rate in
    if ltb 0 c.fade_out
      && not c.fade_out_started
      && not c.loop_counter
      && is_plain_playing c.state
      && tail_reached frames c
    then record c {
      input = start_fade (pos 0) (max frames 1) c.fade_type c.input;
      fade_out_started = true;
    }
    else c

-- The loop of `check_pending_stops` on one cue.
unfoldable pub check_pending_stop : ℕ → ActiveCue → ActiveCue
unfolding tail_reached start_fade set_volume set_active fade_frames
check_pending_stop rate c = elim c.pending_stop [
  | none ↦ c
  | some p ↦
      let frames = fade_frames p.fade_out_time rate in
      if is_loop_end p.mode && tail_reached frames c
      then (if ltb 0 p.fade_out_time
          then record c {
            input = start_fade (pos 0) (max frames 1) p.fade_type c.input;
            pending_stop = none;
          }
          else record c {
            input = set_volume (pos 0) (set_active false c.input);
            state = CueState.done;
            pending_stop = none;
          })
      else c
]

-- `picture_ends_on_its_own`.
unfoldable pub picture_ends_on_its_own : CurrentVideo → Bool
picture_ends_on_its_own v =
    not v.follow_mtc && (elim v.loop_mode [ LoopMode.one_shot ↦ true | _ ↦ false ])

abbrev pub is_half : ℕ → ℕ → Option (ℕ × ℕ) → Bool
is_half q i none = false
is_half q i (some (q', i')) = q' == q && i' == i

unfoldable pub audio_half_of_pending_video : ℕ → ℕ → Engine → Bool
unfolding picture_ends_on_its_own
audio_half_of_pending_video q instance e =
    (elim e.current_video [
      | none ↦ false
      | some v ↦ v.instance_id == instance && (v.has_audio && picture_ends_on_its_own v)
    ])
    || is_half q instance e.pending_video_half

-- The engine, and whether both halves are in.
unfoldable pub record_video_half : ℕ → ℕ → Engine → Engine × Bool
record_video_half q instance e =
    if is_half q instance e.pending_video_half
    then (record e { pending_video_half = none }, true)
    else (record e { pending_video_half = some (q, instance) }, false)

abbrev pub is_finished : ActiveCue → Bool
is_finished c = c.input.finished || is_done c.state

module _ (show : Show) (play : Cue → Engine → Option Engine) where
  -- The loop of `check_finished_cues` on one cue that it collected.
  unfoldable pub finish_cue : ℕ → ℕ → Bool → Engine → Option Engine
  unfolding audio_half_of_pending_video record_video_half
  finish_cue instance q follow e =
      let removed : Engine = record e {
        active_cues = filter_by (λ (c : ActiveCue). not (c.instance_id == instance)) e.active_cues;
      } in
      let halves = record_video_half q instance removed in
      let half = audio_half_of_pending_video q instance removed in
      let ended = if half then halves.0 else removed in
      let traced = push_trace (EngineTrace.cue_finished q) ended in
      let followed = play_after_last show play q traced in
      if half && not halves.1 then some ended else if follow then followed else some traced

  unfoldable pub finish_cues : List (ℕ × ℕ × Bool) → Engine → Option Engine
  unfolding finish_cue
  finish_cues [] e = some e
  finish_cues ((instance, q, follow) ∷ rest) e =
      finish_cue instance q follow e >>= λ e'. finish_cues rest e'

  unfoldable pub check_finished_cues : Engine → Option Engine
  unfolding finish_cues
  check_finished_cues e =
      finish_cues
        (map (λ (c : ActiveCue). (c.instance_id, c.qid, c.follow_after_last))
          (filter_by is_finished e.active_cues))
        e

-- What `check_video_loops` does to the audio of the current video: the loops that it counts, and
-- whether there are more than before.
unfoldable pub count_loops : ActiveCue → Option ℕ
count_loops c =
    let loop_frames = c.loop_end_frame - c.loop_start_frame in
    let played = c.input.source.at / max c.input.input_channels 1 in
    let current = min (played / loop_frames) (2 ^ 32 - 1) in
    if not c.loop_counter || loop_frames == 0
    then none
    else some (elim c.video_loop_limit [ none ↦ current | some limit ↦ min current limit ])

unfoldable pub update_loops : ℕ → List ActiveCue → List ActiveCue × Bool
unfolding count_loops
update_loops q [] = ([], false)
update_loops q (c ∷ cs) =
    let rest = update_loops q cs in
    if c.qid == q
    then (elim (count_loops c) [
      | none ↦ (c ∷ cs, false)
      | some current ↦
          (record c { video_loop_count = current } ∷ cs, ltb c.video_loop_count current)
    ])
    else (c ∷ rest.0, rest.1)

unfoldable pub check_video_loops : Engine → Engine
unfolding update_loops push_video_action
check_video_loops e = elim e.current_video [
  | none ↦ e
  | some v ↦
      let updated = update_loops v.qid e.active_cues in
      let counted : Engine = record e { active_cues = updated.0 } in
      if v.follow_mtc then e else if updated.1 then push_video_action v counted else counted
]

-- A timecode cue whose start has come and that has not been triggered.
unfoldable pub is_due : ℕ → List ℕ → Cue → Bool
is_due elapsed triggered (Cue.time_code b start _) =
    ltb 0 start && leb start elapsed && b.enabled && not (contains b.qid triggered)
is_due elapsed triggered _ = false

module _ (show : Show) (play : Cue → Engine → Option Engine) where
  unfoldable pub check_delayed_cues : Engine → Option Engine
  unfolding play_all
  check_delayed_cues e =
      play_all play
        (map (λ (d : DelayedCue). d.cue)
          (filter_by (λ (d : DelayedCue). leb d.start_at e.now) e.delayed_cues))
        (record e {
          delayed_cues = filter_by (λ (d : DelayedCue). not (leb d.start_at e.now)) e.delayed_cues;
        })

  unfoldable pub trigger_timecodes : List Cue → Engine → Option Engine
  trigger_timecodes [] e = some e
  trigger_timecodes (c ∷ cs) e =
      play c (record e { triggered_timecodes = qid c ∷ e.triggered_timecodes }) >>= λ e'.
      trigger_timecodes cs e'

  unfoldable pub follow_all : List ℕ → Engine → Option Engine
  unfolding play_after_last
  follow_all [] e = some e
  follow_all (q ∷ qs) e = play_after_last show play q e >>= λ e'. follow_all qs e'

  unfoldable pub expire_timecodes : ℕ → Engine → Option Engine
  unfolding follow_all
  expire_timecodes elapsed e =
      follow_all
        (map (λ (t : ℕ × ℕ). t.0) (filter_by (λ (t : ℕ × ℕ). leb t.1 elapsed) e.active_timecodes))
        (record e {
          active_timecodes = filter_by (λ (t : ℕ × ℕ). ltb elapsed t.1) e.active_timecodes;
        })

  unfoldable pub check_timecodes : Engine → Option Engine
  unfolding trigger_timecodes expire_timecodes is_due show_elapsed
  check_timecodes e = elim (show_elapsed e) [
    | none ↦ some e
    | some elapsed ↦
        trigger_timecodes (filter_by (is_due elapsed e.triggered_timecodes) show.cues) e
        >>= expire_timecodes elapsed
  ]

  abbrev pub video_at : ℕ → ℕ → Option CurrentVideo → Option CurrentVideo
  video_at instance epoch none = none
  video_at instance epoch (some v) =
      if v.instance_id == instance && v.epoch == epoch then some v else none

  -- The last branch of `video_eof`: the picture is over.
  unfoldable pub end_picture : CurrentVideo → Engine → Option Engine
  unfolding record_video_half finish
  end_picture v e =
      let cleared = push (EngineAction.stop_video 0) (record e { current_video = none }) in
      let halves =
        if v.has_audio then record_video_half v.qid v.instance_id cleared else (cleared, true) in
      let finished = finish show play v.qid halves.0 in if halves.1 then finished else some halves.0

  unfoldable pub video_eof : ℕ → ℕ → Engine → Option Engine
  unfolding end_picture push_video_action
  video_eof instance epoch e = elim (video_at instance epoch e.current_video) [
    | none ↦ some e
    | some v ↦
        let ended = end_picture v e in
        let again = push_video_action v e in
        if v.follow_mtc then some e else elim v.loop_mode [
          | LoopMode.looped ↦ (if v.has_audio then some e else some again)
          | LoopMode.looped_infinite ↦ (if v.has_audio then some e else some again)
          | LoopMode.hold_last ↦ some e
          | LoopMode.one_shot ↦ ended
        ]
  ]

  unfoldable pub video_failed : ℕ → ℕ → Engine → Engine
  video_failed instance epoch e = elim (video_at instance epoch e.current_video) [
    | none ↦ e
    | some v ↦
        let cleared = push (EngineAction.stop_video 0) (record e { current_video = none }) in
        if v.has_audio then cleared else push_trace (EngineTrace.cue_finished v.qid) cleared
  ]
