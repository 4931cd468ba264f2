-- ===== src/Engine/Invariants.antt =====
-- crates/cuepool/src/engine.rs: what holds of `ShowEngine` whenever the rest of the program sees it,
-- and what only GO may do.
use cue_pool.Base.{ℕ, ◌≡◌, refl, subst, true, false, not, ◌||◌, Option, none, some, List, [], arith}
use cue_pool.Base.Int.{ℤ}
use cue_pool.Engine.State.{
  Engine, Show, Audio, EngineCommand, EngineEvent, EngineAction, CurrentVideo, new_engine,
}
use cue_pool.Engine.Stops.{stop_all, reset_show_clock}
use cue_pool.Engine.Transport.{pause, resume, pause_video, resume_video}
use cue_pool.Engine.Play.{is_none, start_clock}
use cue_pool.Engine.Run.{
  adjust_show_time, reset_for_project_change, run_command, run_event, run_checks, command, event,
  tick,
}
use cue_pool.Engine.Keeps.{Closed}
use cue_pool.Engine.Outer.{
  Steady, KeepsOut, fire-Keeps, at_time-Keeps, command-keeps, event-keeps, tick-keeps,
}
use cue_pool.Engine.Checks.{run_event-Keeps, run_checks-Keeps}

-- The show clock holds its reading exactly while the show is paused.
pub Clocked : Engine → Type 0
Clocked e = is_none e.show_pause_started ≡ not e.paused

-- At most one of a video and a still picture is on.
pub OnePicture : Engine → Type 0
OnePicture e = (is_none e.current_video || is_none e.current_picture_qid) ≡ true

Clocked-Closed : Closed Clocked
unfolding Clocked stop_all reset_show_clock start_clock
Clocked-Closed = record {
  acts = λ l e h. h;
  alerts = λ l e h. h;
  cues = λ l e h. h;
  numbers = λ n e h. h;
  delays = λ l e h. h;
  windows = λ l e h. h;
  triggered = λ l e h. h;
  selects = λ o e h. h;
  halves = λ o e h. h;
  no_video = λ e h. h;
  no_picture = λ e h. h;
  video = λ v e f h. h;
  picture = λ q e h. h;
  clock = λ e g h. ground arith;
  stops = λ e h. refl;
  reset = λ e r h. ground arith;
}

OnePicture-Closed : Closed OnePicture
unfolding OnePicture stop_all reset_show_clock start_clock
OnePicture-Closed = record {
  acts = λ l e h. h;
  alerts = λ l e h. h;
  cues = λ l e h. h;
  numbers = λ n e h. h;
  delays = λ l e h. h;
  windows = λ l e h. h;
  triggered = λ l e h. h;
  selects = λ o e h. h;
  halves = λ o e h. h;
  no_video = λ e h. refl;
  no_picture = λ e h. ground arith;
  video = λ v e f h. ground arith;
  picture = λ q e h. refl;
  clock = λ e g h. h;
  stops = λ e h. refl;
  reset = λ e r h. h;
}

Clocked-Steady : Steady Clocked
unfolding Clocked pause resume adjust_show_time
Clocked-Steady = record {
  closed = Clocked-Closed;
  flag = λ b e h. h;
  time = λ n e h. h;
  pauses = λ e h. refl;
  resumes = λ e h. refl;
  adjusts = λ d e h. h;
}

pause_video-is_none : (e : Engine) (o : Option CurrentVideo) → is_none (pause_video e o) ≡ is_none o
unfolding pause_video
pause_video-is_none e none = refl
pause_video-is_none e (some v) = refl

resume_video-is_none : (n : ℕ) (o : Option CurrentVideo) → is_none (resume_video n o) ≡ is_none o
resume_video-is_none n none = refl
resume_video-is_none n (some v) = ground arith

OnePicture-Steady : Steady OnePicture
unfolding OnePicture pause resume adjust_show_time
OnePicture-Steady = record {
  closed = OnePicture-Closed;
  flag = λ b e h. h;
  time = λ n e h. h;
  pauses = λ e h. rw (pause_video-is_none e e.current_video) h;
  resumes = λ e h. rw (resume_video-is_none e.now e.current_video) h;
  adjusts = λ d e h. h;
}

-- The engine as the rest of the program makes it: it is new, or one of the calls gave it. The show
-- and what the audio engine does may change from call to call.
pub data Reached : Engine → Type 0 where
  by_new : (selected : Option ℕ) → Reached (new_engine selected)
  by_command :
      (show : Show) (audio : Audio) (fuel : ℕ) (c : EngineCommand) (now : ℕ)
      (acts : List EngineAction) (e e' : Engine)
      → Reached e
      → command show audio fuel c now e ≡ some (acts, e')
      → Reached e'
  by_event :
      (show : Show) (audio : Audio) (fuel : ℕ) (v : EngineEvent) (now : ℕ)
      (acts : List EngineAction) (e e' : Engine)
      → Reached e
      → event show audio fuel v now e ≡ some (acts, e')
      → Reached e'
  by_tick :
      (show : Show) (audio : Audio) (fuel now : ℕ) (acts : List EngineAction) (e e' : Engine)
      → Reached e
      → tick show audio fuel now e ≡ some (acts, e')
      → Reached e'
  by_adjust : (delta : ℤ) (e : Engine) → Reached e → Reached (adjust_show_time delta e)
  by_project : (e : Engine) → Reached e → Reached (reset_for_project_change e).1
  by_selection :
      (o : Option ℕ) (e : Engine) → Reached e → Reached (record e { selected_cue_id = o })

given :
    (P : Engine → Type 0) (o : Option (List EngineAction × Engine)) (acts : List EngineAction)
    (e : Engine)
    → o ≡ some (acts, e)
    → KeepsOut P o
    → P e
unfolding KeepsOut
given P none acts e h k = absurd (ground arith)
given P (some (acts', e')) acts e h k = subst (λ x. KeepsOut P x) h k

Reached-Steady :
    {P : Engine → Type 0}
    → Steady P
    → ((selected : Option ℕ) → P (new_engine selected))
    → (e : Engine) → Reached e
    → P e
unfolding reset_for_project_change
Reached-Steady s n e (by_new selected) = n selected
Reached-Steady {P} s n e (by_command show audio fuel c now acts e0 _ r h) =
    given P (command show audio fuel c now e0) acts e h
      (command-keeps s show audio fuel c now e0 (Reached-Steady s n e0 r))
Reached-Steady {P} s n e (by_event show audio fuel v now acts e0 _ r h) =
    given P (event show audio fuel v now e0) acts e h
      (event-keeps s show audio fuel v now e0 (Reached-Steady s n e0 r))
Reached-Steady {P} s n e (by_tick show audio fuel now acts e0 _ r h) =
    given P (tick show audio fuel now e0) acts e h
      (tick-keeps s show audio fuel now e0 (Reached-Steady s n e0 r))
Reached-Steady s n _ (by_adjust delta e0 r) = s.adjusts delta e0 (Reached-Steady s n e0 r)
Reached-Steady s n _ (by_project e0 r) =
    s.closed.acts [] _ (s.closed.stops e0 (Reached-Steady s n e0 r))
Reached-Steady s n _ (by_selection o e0 r) = s.closed.selects o e0 (Reached-Steady s n e0 r)

-- Whatever commands, events and ticks an engine has had, with whatever shows and audio, its show
-- clock holds its reading exactly while the show is paused, and a video and a still picture are never
-- both on.
pub Reached-Sound : (e : Engine) → Reached e → Clocked e × OnePicture e
unfolding Clocked OnePicture
Reached-Sound e r = (
  Reached-Steady Clocked-Steady (λ s. refl) e r,
  Reached-Steady OnePicture-Steady (λ s. refl) e r,
)

-- The show clock is off, and no GO is under way.
unfoldable pub Unstarted : Engine → Type 0
Unstarted e = (is_none e.show_start ≡ true) × (e.go_in_progress ≡ false)

Unstarted-Closed : Closed Unstarted
unfolding Unstarted stop_all reset_show_clock start_clock
Unstarted-Closed = record {
  acts = λ l e h. h;
  alerts = λ l e h. h;
  cues = λ l e h. h;
  numbers = λ n e h. h;
  delays = λ l e h. h;
  windows = λ l e h. h;
  triggered = λ l e h. h;
  selects = λ o e h. h;
  halves = λ o e h. h;
  no_video = λ e h. h;
  no_picture = λ e h. h;
  video = λ v e f h. h;
  picture = λ q e h. h;
  clock = λ e g h. ground (arith, h.1);
  stops = λ e h. (refl, h.1);
  reset = λ e r h. (refl, h.1);
}

-- Only GO starts the show clock: while the clock is off and no GO is under way, a cue fired by a
-- trigger, an event and a tick leave the clock off and no GO under way, whatever cues they play.
pub Unstarted-Unstarted :
    (show : Show) (audio : Audio) (fuel : ℕ) (e : Engine)
    → Unstarted e
    → ((q now : ℕ) → KeepsOut Unstarted (command show audio fuel (EngineCommand.fire q) now e))
      × ((v : EngineEvent) (now : ℕ) → KeepsOut Unstarted (event show audio fuel v now e))
      × ((now : ℕ) → KeepsOut Unstarted (tick show audio fuel now e))
unfolding Unstarted command event tick run_command
Unstarted-Unstarted show audio fuel e h =
    let timed : (n : ℕ) (e' : Engine) → Unstarted e' → Unstarted (record e' { now = n }) =
      λ n e' k. k in
    (
      λ q now.
          at_time-Keeps Unstarted-Closed timed (run_command show audio fuel (EngineCommand.fire q))
            now e (fire-Keeps Unstarted-Closed show audio fuel q) h,
      λ v now.
          at_time-Keeps Unstarted-Closed timed (run_event show audio fuel v) now e
            (run_event-Keeps Unstarted-Closed show audio fuel v) h,
      λ now.
          at_time-Keeps Unstarted-Closed timed (run_checks show audio fuel) now e
            (run_checks-Keeps Unstarted-Closed show audio fuel) h,
    )
