-- ===== src/Engine/Run.antt =====
-- crates/cuepool/src/engine.rs: GO, the cues fired by their triggers, the preload, and the three
-- entry points of `ShowEngine`: `command`, `event` and `tick`.
use cue_pool.Base.{
  ℕ, Bool, true, false, Option, none, some, List, [], map, if◌then◌else◌, ◌==◌, find_by, any_by,
  position_by, get_elem?,
}
use cue_pool.Base.Int.{ℤ, ◌+ℤ◌}
use cue_pool.Cue.{Cue, CueBase, Media, qid}
use cue_pool.Sequence.{has_qid, with_last_run, next_standby_qid}
use cue_pool.Engine.State.{Engine, Show, Audio, ActiveCue, EngineCommand, EngineEvent, EngineAction}
use cue_pool.Engine.Stops.{stop_all}
use cue_pool.Engine.Transport.{pause, resume, seek, set_level}
use cue_pool.Engine.Play.{is_none, play_audio}
use cue_pool.Engine.Dispatch.{◌>>=◌, play_all, finish, play_cue}
use cue_pool.Engine.Ticks.{
  check_fade_out, check_pending_stop, check_finished_cues, check_video_loops, check_delayed_cues,
  check_timecodes, video_eof, video_failed,
}

abbrev pub is_goto_at : List Cue → ℕ → Bool
is_goto_at cues index = elim (get_elem? cues index) [ some (Cue.goto _ _) ↦ true | _ ↦ false ]

-- The head of `go`: a show that has not started forgets its timecodes.
unfoldable pub forget_timecodes : Engine → Engine
forget_timecodes e =
    if is_none e.show_start then record e { triggered_timecodes = []; active_timecodes = [] } else e

module _ (show : Show) where
  -- The tail of `go`: the standby moves on, unless the cue was a goto.
  unfoldable pub advance_standby : ℕ → Engine → Engine
  unfolding next_standby_qid
  advance_standby start e =
      if is_goto_at show.cues start then e else elim (next_standby_qid show.cues start) [
        | none ↦ e
        | some q ↦ record e { selected_cue_id = some q }
      ]

  module _ (play : Cue → Engine → Option Engine) where
    unfoldable pub go_at : ℕ → Engine → Option Engine
    unfolding play_all with_last_run advance_standby
    go_at index e =
        play_all play (with_last_run show.cues index) (record e { go_in_progress = true }) >>= λ e'.
        some (advance_standby index (record e' { go_in_progress = false }))

    unfoldable pub go : Engine → Option Engine
    unfolding forget_timecodes go_at
    go e =
        let ready = forget_timecodes e in
        elim ready.selected_cue_id [
          | none ↦ some ready
          | some q ↦ elim (position_by (has_qid q) show.cues) [
            | none ↦ some ready
            | some index ↦ go_at index ready
          ]
        ]

    unfoldable pub fire : ℕ → Engine → Option Engine
    unfolding play_all with_last_run
    fire q e = elim (position_by (has_qid q) show.cues) [
      | none ↦ some e
      | some index ↦ play_all play (with_last_run show.cues index) e
    ]

-- The media of a sound or video cue.
abbrev pub media : Cue → Option (CueBase × Media)
media (Cue.sound b m) = some (b, m)
media (Cue.video b m _ _) = some (b, m)
media _ = none

module _ (show : Show) (audio : Audio) where
  unfoldable pub preload_cue : Cue → Engine → Engine
  unfolding play_audio
  preload_cue c e =
      if any_by (λ (a : ActiveCue). a.qid == qid c) e.active_cues
      then e
      else elim (media c) [ none ↦ e | some (b, m) ↦ (play_audio audio b m true e).0 ]

  unfoldable pub preload : Engine → Engine
  unfolding preload_cue
  preload e = elim e.selected_cue_id [
    | none ↦ e
    | some q ↦ elim (find_by (has_qid q) show.cues) [ none ↦ e | some c ↦ preload_cue c e ]
  ]

  module _ (fuel : ℕ) where
    -- The match of `command`, behind the assignment of the time.
    unfoldable pub run_command : EngineCommand → Engine → Option Engine
    unfolding go fire preload stop_all pause resume seek set_level
    run_command EngineCommand.go e = go show (play_cue show audio fuel) e
    run_command (EngineCommand.fire q) e = fire show (play_cue show audio fuel) q e
    run_command EngineCommand.stop e = some (stop_all e)
    run_command EngineCommand.pause e = if e.paused then some e else some (pause e)
    run_command EngineCommand.resume e = if e.paused then some (resume e) else some e
    run_command EngineCommand.toggle_pause e = if e.paused then some (resume e) else some (pause e)
    run_command (EngineCommand.select q) e = some (record e { selected_cue_id = some q })
    run_command EngineCommand.preload e = some (preload e)
    run_command (EngineCommand.seek instance secs) e = some (seek show instance secs e)
    run_command (EngineCommand.set_level q v p) e = some (set_level q v p e)

    unfoldable pub run_event : EngineEvent → Engine → Option Engine
    unfolding video_eof video_failed finish
    run_event (EngineEvent.video_eof instance epoch) e =
        video_eof show (play_cue show audio fuel) instance epoch e
    run_event (EngineEvent.video_failed instance epoch) e =
        some (video_failed show (play_cue show audio fuel) instance epoch e)
    run_event (EngineEvent.external_finished q) e = finish show (play_cue show audio fuel) q e

    unfoldable pub check_levels : Engine → Engine
    unfolding check_fade_out check_pending_stop
    check_levels e = record e {
      active_cues =
          map (check_pending_stop audio.output_rate)
            (map (check_fade_out audio.output_rate) e.active_cues);
    }

    unfoldable pub run_checks : Engine → Option Engine
    unfolding check_levels check_finished_cues check_video_loops check_delayed_cues check_timecodes
    run_checks e = check_finished_cues show (play_cue show audio fuel) (check_levels e) >>= λ e'.
        check_delayed_cues show (play_cue show audio fuel) (check_video_loops e')
        >>= check_timecodes show (play_cue show audio fuel)

-- `take_actions`: what was queued, and the engine with an empty queue.
unfoldable pub take_actions : Engine → List EngineAction × Engine
take_actions e = (e.actions, record e { actions = [] })

-- A call from outside: the time is set, the call is run, and the queued actions are handed out.
abbrev pub at_time : (Engine → Option Engine) → ℕ → Engine → Option (List EngineAction × Engine)
at_time run time e = run (record e { now = time }) >>= λ e'. some (take_actions e')

module _ (show : Show) (audio : Audio) (fuel : ℕ) where
  unfoldable pub command : EngineCommand → ℕ → Engine → Option (List EngineAction × Engine)
  unfolding run_command take_actions
  command c = at_time (run_command show audio fuel c)

  unfoldable pub event : EngineEvent → ℕ → Engine → Option (List EngineAction × Engine)
  unfolding run_event take_actions
  event v = at_time (run_event show audio fuel v)

  unfoldable pub tick : ℕ → Engine → Option (List EngineAction × Engine)
  unfolding run_checks take_actions
  tick = at_time (run_checks show audio fuel)

-- `adjust_show_time` by a whole number of nanoseconds, and `reset_for_project_change`.
unfoldable pub adjust_show_time : ℤ → Engine → Engine
unfolding ◌+ℤ◌
adjust_show_time delta e = record e { show_adjustment = e.show_adjustment +ℤ delta }

unfoldable pub reset_for_project_change : Engine → List EngineAction × Engine
unfolding stop_all take_actions
reset_for_project_change e = take_actions (stop_all e)
