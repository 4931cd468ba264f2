-- ===== src/Engine/Answered.antt =====
-- crates/cuepool/src/engine.rs: on a show that is laid out every call of `ShowEngine` from outside
-- comes to an end and hands out its actions.
use cue_pool.Base.{
  ℕ, ◌<◌, ◌≢◌, Bool, Option, none, some, List, [], ◌∷◌, arith, length, Option-cases, inl, inr,
  position_by, filter_by,
}
use cue_pool.Cue.{Cue, qid}
use cue_pool.Sequence.{next_after_last, has_qid}
use cue_pool.Sequence.Rank.{rank-le-length}
use cue_pool.Engine.State.{Engine, Show, Audio, EngineCommand, EngineEvent, CurrentVideo}
use cue_pool.Engine.Transport.{show_elapsed}
use cue_pool.Engine.Dispatch.{play_all, play_after_last, finish, play_cue}
use cue_pool.Engine.Ticks.{
  finish_cue, finish_cues, check_finished_cues, check_delayed_cues, trigger_timecodes, follow_all,
  expire_timecodes, check_timecodes, end_picture, video_eof, video_at, is_due, check_video_loops,
}
use cue_pool.Engine.Run.{
  go, go_at, fire, run_command, run_event, run_checks, check_levels, command, event, tick,
  take_actions, at_time,
}
use cue_pool.Engine.Total.{Ends, LaidOut, >>=-Ends, some-Ends, if-Ends, play_cue-Ends}

module _ (show : Show) (play : Cue → Engine → Option Engine)
    (ends : (c : Cue) (e : Engine) → Ends (play c e)) where
  after-Ends : (q : ℕ) (e : Engine) → Ends (play_after_last show play q e)
  unfolding play_after_last
  after-Ends q e = elim (Option-cases (next_after_last show.cues q)) [
    | inl left ↦ rw (left, play_after_last) (some-Ends e)
    | inr (c, found) ↦ rw (found, play_after_last) (ends c e)
  ]

  all-Ends : (cs : List Cue) (e : Engine) → Ends (play_all play cs e)
  unfolding play_all
  all-Ends [] e = some-Ends e
  all-Ends (c ∷ cs) e = >>=-Ends (play c e) _ (ends c e) (all-Ends cs)

  finish-Ends : (q : ℕ) (e : Engine) → Ends (finish show play q e)
  unfolding finish
  finish-Ends q e = after-Ends q _

  finish_cue-Ends : (i q : ℕ) (f : Bool) (e : Engine) → Ends (finish_cue show play i q f e)
  unfolding finish_cue
  finish_cue-Ends i q f e =
      if-Ends _ _ _ (some-Ends _) (if-Ends f _ _ (after-Ends q _) (some-Ends _))

  finish_cues-Ends : (l : List (ℕ × ℕ × Bool)) (e : Engine) → Ends (finish_cues show play l e)
  unfolding finish_cues
  finish_cues-Ends [] e = some-Ends e
  finish_cues-Ends ((i, q, f) ∷ rest) e =
      >>=-Ends (finish_cue show play i q f e) _ (finish_cue-Ends i q f e) (finish_cues-Ends rest)

  check_finished_cues-Ends : (e : Engine) → Ends (check_finished_cues show play e)
  unfolding check_finished_cues
  check_finished_cues-Ends e = finish_cues-Ends _ e

  check_delayed_cues-Ends : (e : Engine) → Ends (check_delayed_cues show play e)
  unfolding check_delayed_cues
  check_delayed_cues-Ends e = all-Ends _ _

  trigger_timecodes-Ends : (cs : List Cue) (e : Engine) → Ends (trigger_timecodes show play cs e)
  unfolding trigger_timecodes
  trigger_timecodes-Ends [] e = some-Ends e
  trigger_timecodes-Ends (c ∷ cs) e = >>=-Ends (play c _) _ (ends c _) (trigger_timecodes-Ends cs)

  follow_all-Ends : (qs : List ℕ) (e : Engine) → Ends (follow_all show play qs e)
  unfolding follow_all
  follow_all-Ends [] e = some-Ends e
  follow_all-Ends (q ∷ qs) e =
      >>=-Ends (play_after_last show play q e) _ (after-Ends q e) (follow_all-Ends qs)

  check_timecodes-Ends : (e : Engine) → Ends (check_timecodes show play e)
  unfolding check_timecodes expire_timecodes
  check_timecodes-Ends e = elim (Option-cases (show_elapsed e)) [
    | inl off ↦ rw (off, check_timecodes) (some-Ends e)
    | inr (elapsed, on) ↦
        rw (on, check_timecodes)
          (>>=-Ends
            (trigger_timecodes show play
              (filter_by (is_due elapsed e.triggered_timecodes) show.cues) e)
            (expire_timecodes show play elapsed) (trigger_timecodes-Ends _ e)
            (λ e'. follow_all-Ends _ _))
  ]

  end_picture-Ends : (v : CurrentVideo) (e : Engine) → Ends (end_picture show play v e)
  unfolding end_picture
  end_picture-Ends v e = if-Ends _ _ _ (finish-Ends v.qid _) (some-Ends _)

  video_eof-Ends : (i ep : ℕ) (e : Engine) → Ends (video_eof show play i ep e)
  unfolding video_eof
  video_eof-Ends i ep e = elim (Option-cases (video_at show play i ep e.current_video)) [
    | inl other ↦ ground arith
    | inr (v, at) ↦ ground (arith, end_picture-Ends v e)
  ]

  go_at-Ends : (index : ℕ) (e : Engine) → Ends (go_at show play index e)
  unfolding go_at
  go_at-Ends index e = >>=-Ends _ _ (all-Ends _ _) (λ e'. some-Ends _)

  position-Ends :
      (o : Option ℕ) (e : Engine)
      → Ends (elim o [ none ↦ some e | some index ↦ go_at show play index e ])
  position-Ends none e = some-Ends e
  position-Ends (some index) e = go_at-Ends index e

  selected-Ends :
      (o : Option ℕ) (e : Engine)
      → Ends (elim o [
        | none ↦ some e
        | some q ↦ elim (position_by (has_qid q) show.cues) [
          | none ↦ some e
          | some index ↦ go_at show play index e
        ]
      ])
  selected-Ends none e = some-Ends e
  selected-Ends (some q) e = position-Ends (position_by (has_qid q) show.cues) e

  go-Ends : (e : Engine) → Ends (go show play e)
  unfolding go
  go-Ends e = selected-Ends _ _

  fire-Ends : (q : ℕ) (e : Engine) → Ends (fire show play q e)
  unfolding fire
  fire-Ends q e = elim (Option-cases (position_by (has_qid q) show.cues)) [
    | inl off ↦ rw (off, fire) (some-Ends e)
    | inr (i, on) ↦ rw (on, fire) (all-Ends _ e)
  ]

module _ (show : Show) (audio : Audio) (fuel : ℕ) (laid : LaidOut show)
    (enough : length show.cues < fuel) where
  plays : (c : Cue) (e : Engine) → Ends (play_cue show audio fuel c e)
  plays c e =
      play_cue-Ends show audio laid fuel c e
        (omega (arith, enough, rank-le-length show.cues (qid c)))

  run_command-Ends : (c : EngineCommand) (e : Engine) → Ends (run_command show audio fuel c e)
  unfolding run_command
  run_command-Ends EngineCommand.go e = go-Ends show _ plays e
  run_command-Ends (EngineCommand.fire q) e = fire-Ends show _ plays q e
  run_command-Ends EngineCommand.pause e = if-Ends e.paused _ _ (some-Ends _) (some-Ends _)
  run_command-Ends EngineCommand.resume e = if-Ends e.paused _ _ (some-Ends _) (some-Ends _)
  run_command-Ends EngineCommand.toggle_pause e = if-Ends e.paused _ _ (some-Ends _) (some-Ends _)
  run_command-Ends _ e = some-Ends _

  run_event-Ends : (v : EngineEvent) (e : Engine) → Ends (run_event show audio fuel v e)
  unfolding run_event
  run_event-Ends (EngineEvent.video_eof i ep) e = video_eof-Ends show _ plays i ep e
  run_event-Ends (EngineEvent.video_failed i ep) e = some-Ends _
  run_event-Ends (EngineEvent.external_finished q) e = finish-Ends show _ plays q e

  run_checks-Ends : (e : Engine) → Ends (run_checks show audio fuel e)
  unfolding run_checks
  run_checks-Ends e =
      >>=-Ends
        (check_finished_cues show (play_cue show audio fuel) (check_levels show audio fuel e)) _
        (check_finished_cues-Ends show _ plays (check_levels show audio fuel e))
        λ e'.
          >>=-Ends (check_delayed_cues show (play_cue show audio fuel) (check_video_loops e')) _
            (check_delayed_cues-Ends show _ plays (check_video_loops e'))
            (check_timecodes-Ends show _ plays)

at_time-Ends :
    (run : Engine → Option Engine) (now : ℕ) (e : Engine)
    → ((e' : Engine) → Ends (run e'))
    → at_time run now e ≢ none
unfolding take_actions
at_time-Ends run now e h =
    >>=-Ends (run (record e { now = now })) (λ e'. some (take_actions e'))
      (h (record e { now = now })) (λ e'. some-Ends (take_actions e'))

-- Every command, event and tick comes to an end: where the numbers of the cues are distinct, every
-- cue with a parent stands behind the cue of that number, and the fuel exceeds the length of the cue
-- list, the call gives its actions and the next engine.
pub answered :
    (show : Show) (audio : Audio) (fuel : ℕ)
    → LaidOut show
    → length show.cues < fuel
    → ((c : EngineCommand) (now : ℕ) (e : Engine) → command show audio fuel c now e ≢ none)
      × ((v : EngineEvent) (now : ℕ) (e : Engine) → event show audio fuel v now e ≢ none)
      × ((now : ℕ) (e : Engine) → tick show audio fuel now e ≢ none)
unfolding command event tick
answered show audio fuel laid enough = (
  λ c now e.
      at_time-Ends (run_command show audio fuel c) now e
        (run_command-Ends show audio fuel laid enough c),
  λ v now e.
      at_time-Ends (run_event show audio fuel v) now e
        (run_event-Ends show audio fuel laid enough v),
  λ now e.
      at_time-Ends (run_checks show audio fuel) now e (run_checks-Ends show audio fuel laid enough),
)
