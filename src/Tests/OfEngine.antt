-- ===== src/Tests/OfEngine.antt =====
-- Concrete runs of `ShowEngine` (crates/cuepool/src/engine.rs).
use cue_pool.Base.{
  ℕ, ◌+◌, ◌-◌, ◌<◌, ◌≡◌, ◌≢◌, refl, true, false, Option, none, some, List, [], ◌∷◌, arith, In, All,
}
use cue_pool.Cue.{Cue, StopMode, FadeType, qid, parent}
use cue_pool.Sequence.{cue_starts_show_clock, delayed_cue_starts_show_clock}
use cue_pool.Sequence.Rank.{rank}
use cue_pool.Engine.Play.{is_ready, start_ready, start_clock}
use cue_pool.Mixer.{new_input, render_input}
use cue_pool.Engine.State.{
  Engine, ActiveCue, CueState, EngineAction, EngineCommand, EngineEvent, new_engine,
}
use cue_pool.Engine.Stops.{stop_single, stop_all_faded}
use cue_pool.Engine.Transport.{pause, resume, pause_cue, resume_cue, show_elapsed, seek_audio_cue}
use cue_pool.Engine.Dispatch.{◌>>=◌, finish, play_cue}
use cue_pool.Engine.Ticks.{finish_cue, video_eof, video_failed, picture_ends_on_its_own}
use cue_pool.Engine.Run.{command, event, tick}
use cue_pool.Engine.Total.{LaidOut}
use cue_pool.Engine.Answered.{answered}
use cue_pool.Engine.Outer.{KeepsOut}
use cue_pool.Engine.Invariants.{
  Clocked, OnePicture, Unstarted, Reached, Reached-Sound, Unstarted-Unstarted,
}
use cue_pool.Engine.Clock.{show_elapsed-pause}
use cue_pool.Engine.Halves.{ended, finish_cue-video_eof, finish_cue-video_failed}
use cue_pool.Engine.Pauses.{Sounding, interrupted, interrupted-active_cues, render_input-resume_cue}
use cue_pool.Engine.Quiet.{Quiet, QuietOut, stop_all_faded-Quiet, tick-Quiet}
use cue_pool.Engine.Seeks.{Landed, seek_audio_cue-Landed}
use cue_pool.Engine.Single.{Stopped, stop_single-Stopped}
use cue_pool.Tests.{band, band-Distinct, evening, stage, sounding, film, running, track}

band-members : (c : Cue) (g : ℕ) → In c band → parent c ≡ some g → rank band (qid c) < rank band g
unfolding rank
band-members c g m p = ground arith

evening-LaidOut : LaidOut evening
evening-LaidOut = record { distinct = band-Distinct; members = band-members }

answered_example :
    ((c : EngineCommand) (now : ℕ) (e : Engine) → command evening stage 7 c now e ≢ none)
    × ((v : EngineEvent) (now : ℕ) (e : Engine) → event evening stage 7 v now e ≢ none)
    × ((now : ℕ) (e : Engine) → tick evening stage 7 now e ≢ none)
answered_example = answered evening stage 7 evening-LaidOut (omega arith)

abbrev out : Option (List EngineAction × Engine) → List EngineAction × Engine
out none = ([], new_engine none)
out (some r) = r

abbrev after_go : List EngineAction × Engine
unfolding command
after_go = out (command evening stage 7 EngineCommand.go 1_000 (new_engine (some 1)))

go_runs : command evening stage 7 EngineCommand.go 1_000 (new_engine (some 1)) ≡ some after_go
unfolding command play_cue cue_starts_show_clock delayed_cue_starts_show_clock start_ready
    start_clock
go_runs = refl

-- GO on the group starts its sound, moves the standby on to the cue behind it and starts the clock.
go_selects : after_go.1.selected_cue_id ≡ some 4
unfolding command play_cue cue_starts_show_clock delayed_cue_starts_show_clock start_ready
    start_clock
go_selects = refl

go_starts : after_go.1.show_start ≡ some 1_000
unfolding command play_cue cue_starts_show_clock delayed_cue_starts_show_clock start_ready
    start_clock
go_starts = refl

Reached-Sound_example : Clocked after_go.1 × OnePicture after_go.1
Reached-Sound_example = Reached-Sound after_go.1 (
    Reached.by_command evening stage 7 EngineCommand.go 1_000 after_go.0 (new_engine (some 1))
      after_go.1 (Reached.by_new (some 1)) go_runs)

idle-Unstarted : Unstarted (new_engine (some 1))
unfolding Unstarted
idle-Unstarted = (refl, refl)

Unstarted-Unstarted_example :
    ((q now : ℕ)
      → KeepsOut Unstarted
          (command evening stage 7 (EngineCommand.fire q) now (new_engine (some 1))))
    × ((v : EngineEvent) (now : ℕ)
        → KeepsOut Unstarted (event evening stage 7 v now (new_engine (some 1))))
    × ((now : ℕ) → KeepsOut Unstarted (tick evening stage 7 now (new_engine (some 1))))
Unstarted-Unstarted_example =
    Unstarted-Unstarted evening stage 7 (new_engine (some 1)) idle-Unstarted

show_elapsed-pause_example :
    (show_elapsed (record (pause (record running { now = 400 })) { now = 700 })
      ≡ show_elapsed (record running { now = 400 }))
    × (show_elapsed (record (resume (record (pause (record running { now = 400 })) { now = 700 })) {
      now = 900;
    })
        ≡ show_elapsed (record running { now = 400 + (900 - 700) }))
show_elapsed-pause_example = show_elapsed-pause running 400 700 900 refl (omega arith) (omega arith)

running-Sounding : All Sounding (sounding 7 2 ∷ sounding 8 3 ∷ [])
unfolding new_input
running-Sounding = (
  record { playing = refl; looped = refl; active = refl },
  (record { playing = refl; looped = refl; active = refl }, tt),
)

interrupted-active_cues_example : (interrupted running 400 700).active_cues ≡ running.active_cues
interrupted-active_cues_example = interrupted-active_cues running 400 700 running-Sounding

abbrev preloaded : ActiveCue
preloaded = record (sounding 7 2) {
  state = CueState.ready;
  input = record (new_input track) { active = false };
}

render_input-resume_cue_example :
    ((render_input 512 preloaded.input).source.at ≡ preloaded.input.source.at)
    × ((render_input 512 (resume_cue (pause_cue preloaded)).input).source.at
        ≡ preloaded.input.source.at + 512)
    × (is_ready (resume_cue (pause_cue preloaded)).state ≡ true)
render_input-resume_cue_example = render_input-resume_cue 512 preloaded (omega arith) refl refl

finish_cue-video_eof_example :
    ((finish_cue evening (play_cue evening stage 7) 7 2 true running
        >>= video_eof evening (play_cue evening stage 7) 7 1)
      ≡ finish evening (play_cue evening stage 7) 2 (ended film running))
    × ((video_eof evening (play_cue evening stage 7) 7 1 running
          >>= finish_cue evening (play_cue evening stage 7) 7 2 true)
        ≡ finish evening (play_cue evening stage 7) 2 (ended film running))
unfolding picture_ends_on_its_own
finish_cue-video_eof_example =
    finish_cue-video_eof evening (play_cue evening stage 7) film true running refl refl refl refl

finish_cue-video_failed_example :
    (finish_cue evening (play_cue evening stage 7) 7 2 true running >>= λ e'.
    some (video_failed evening (play_cue evening stage 7) 7 1 e'))
    ≡ some (record (ended film running) { pending_video_half = some (2, 7) })
unfolding picture_ends_on_its_own
finish_cue-video_failed_example =
    finish_cue-video_failed evening (play_cue evening stage 7) film true running refl refl refl refl

stop_all_faded-Quiet_example : Quiet (stop_all_faded stage 500 FadeType.linear running)
stop_all_faded-Quiet_example = stop_all_faded-Quiet stage 500 FadeType.linear running

tick-Quiet_example :
    QuietOut (tick evening stage 0 2_000 (stop_all_faded stage 500 FadeType.linear running))
tick-Quiet_example =
    tick-Quiet evening stage 2_000 (stop_all_faded stage 500 FadeType.linear running)
      (stop_all_faded-Quiet stage 500 FadeType.linear running)

seek_audio_cue-Landed_example :
    Landed 1_500_000_000 (sounding 7 2) (seek_audio_cue 1_500_000_000 (sounding 7 2))
seek_audio_cue-Landed_example = seek_audio_cue-Landed 1_500_000_000 (sounding 7 2)

stop_single-Stopped_example :
    Stopped 2 stage.output_rate 500 running
      (stop_single stage 2 StopMode.immediate 500 FadeType.linear running)
stop_single-Stopped_example =
    stop_single-Stopped stage 2 StopMode.immediate 500 FadeType.linear running refl
