-- ===== src/Engine/Quiet.antt =====
-- crates/cuepool/src/engine.rs: what `ShowEngine` does after a stop of everything.
use cue_pool.Base.{
  ℕ, ◌≡◌, refl, subst, sym, ◌∙◌, Bool, false, not, ◌&&◌, ◌||◌, Option, none, some, List, [], ◌∷◌,
  map, arith, if◌then◌else◌, ◌==◌, ltb, filter_by, All,
}
use cue_pool.Cue.{Cue, FadeType}
use cue_pool.Engine.State.{Engine, Show, Audio, ActiveCue, EngineAction, EngineTrace}
use cue_pool.Engine.Stops.{
  push_trace, stop_all, stop_all_faded, fade_out_cue, fade_frames, reset_show_clock,
}
use cue_pool.Engine.Transport.{show_elapsed}
use cue_pool.Engine.Dispatch.{◌>>=◌, play_cue}
use cue_pool.Engine.Ticks.{
  audio_half_of_pending_video, record_video_half, finish_cue, finish_cues, check_finished_cues,
  check_video_loops, check_delayed_cues, check_timecodes, check_fade_out, check_pending_stop,
  is_finished, is_half,
}
use cue_pool.Engine.Keeps.{if-keep}
use cue_pool.Engine.Run.{run_checks, check_levels, tick, take_actions}

-- Nothing waits to be played: no cue to follow one that is active, none delayed, no timecode window,
-- no show clock, no video.
pub record Quiet (e : Engine) : Type 0 where
  pub follows : All (λ (c : ActiveCue). c.follow_after_last ≡ false) e.active_cues
  pub delays : e.delayed_cues ≡ []
  pub windows : e.active_timecodes ≡ []
  pub clock : e.show_start ≡ none
  pub video : e.current_video ≡ none

faded-All :
    (frames : ℕ) (kind : FadeType) (cs : List ActiveCue)
    → All (λ (c : ActiveCue). c.follow_after_last ≡ false) (map (fade_out_cue frames kind) cs)
unfolding fade_out_cue
faded-All frames kind [] = tt
faded-All frames kind (c ∷ cs) = (ground arith, faded-All frames kind cs)

-- A stop of everything, faded or not, leaves nothing that waits to be played.
pub stop_all_faded-Quiet :
    (audio : Audio) (fade : ℕ) (kind : FadeType) (e : Engine)
    → Quiet (stop_all_faded audio fade kind e)
unfolding stop_all_faded stop_all reset_show_clock
stop_all_faded-Quiet audio fade kind e =
    if-keep Quiet (not (ltb 0 fade) || e.paused) _ _
      (λ _. record { follows = tt; delays = refl; windows = refl; clock = refl; video = refl })
      (λ _. record {
        follows = faded-All (fade_frames fade audio.output_rate) kind e.active_cues;
        delays = refl;
        windows = refl;
        clock = refl;
        video = refl;
      })

levels-All :
    (rate : ℕ) (cs : List ActiveCue)
    → All (λ (c : ActiveCue). c.follow_after_last ≡ false) cs
    → All
        (λ (c : ActiveCue). c.follow_after_last ≡ false)
        (map (check_pending_stop rate) (map (check_fade_out rate) cs))
unfolding check_pending_stop check_fade_out
levels-All rate [] h = tt
levels-All rate (c ∷ cs) h = (ground arith, levels-All rate cs h.1)

-- A call that comes to an end, and leaves `P`.
Gives : (Engine → Type 0) → Option Engine → Type 0
Gives P none = ⊥
Gives P (some e) = P e

filter-All :
    (P : ActiveCue → Type 0) (p : ActiveCue → Bool) (cs : List ActiveCue)
    → All P cs
    → All P (filter_by p cs)
filter-All P p [] h = tt
filter-All P p (c ∷ cs) h =
    if-keep (All P) (p c) (c ∷ filter_by p cs) (filter_by p cs) (λ _. (h.0, filter-All P p cs h.1))
      (λ _. filter-All P p cs h.1)

same-Quiet :
    (e e' : Engine)
    → e'.active_cues ≡ e.active_cues
    → e'.delayed_cues ≡ e.delayed_cues
    → e'.active_timecodes ≡ e.active_timecodes
    → e'.show_start ≡ e.show_start
    → e'.current_video ≡ e.current_video
    → Quiet e
    → Quiet e'
same-Quiet e e' a b c d f h = record {
  follows = subst (All (λ (c : ActiveCue). c.follow_after_last ≡ false)) (sym a) h.follows;
  delays = b ∙ h.delays;
  windows = c ∙ h.windows;
  clock = d ∙ h.clock;
  video = f ∙ h.video;
}

trace-Quiet : (t : EngineTrace) (e : Engine) → Quiet e → Quiet (push_trace t e)
trace-Quiet t e h = same-Quiet e (push_trace t e) refl refl refl refl refl h

half-Quiet : (q i : ℕ) (e : Engine) → Quiet e → Quiet (record_video_half q i e).0
unfolding record_video_half
half-Quiet q i e h =
    if-keep (λ (r : Engine × Bool). Quiet r.0) (is_half q i e.pending_video_half) _ _
      (λ _. same-Quiet e _ refl refl refl refl refl h)
      (λ _. same-Quiet e _ refl refl refl refl refl h)

>>=-Gives :
    (P : Engine → Type 0) (o : Option Engine) (f : Engine → Option Engine)
    → Gives P o
    → ((e : Engine) → P e → Gives P (f e))
    → Gives P (o >>= f)
unfolding Gives
>>=-Gives P none f h k = absurd h
>>=-Gives P (some e) f h k = k e h

abbrev triple : ActiveCue → ℕ × ℕ × Bool
triple c = (c.instance_id, c.qid, c.follow_after_last)

module _ (show : Show) (play : Cue → Engine → Option Engine) where
  finish_cue-Quiet :
      (i q : ℕ) (e : Engine) → Quiet e → Gives Quiet (finish_cue show play i q false e)
  unfolding Gives finish_cue
  finish_cue-Quiet i q e h =
      let removed : Engine = record e {
        active_cues = filter_by (λ (c : ActiveCue). not (c.instance_id == i)) e.active_cues;
      } in
      let half = audio_half_of_pending_video q i removed in
      let halves = record_video_half q i removed in
      let ended = if half then halves.0 else removed in
      let h1 : Quiet removed = record {
        follows =
            filter-All (λ (c : ActiveCue). c.follow_after_last ≡ false)
              (λ (c : ActiveCue). not (c.instance_id == i)) e.active_cues h.follows;
        delays = h.delays;
        windows = h.windows;
        clock = h.clock;
        video = h.video;
      } in
      let h2 : Quiet ended = if-keep Quiet half _ _ (λ _. half-Quiet q i removed h1) (λ _. h1) in
      if-keep (Gives Quiet) (half && not halves.1) (some ended) _ (λ _. h2)
        (λ _. trace-Quiet (EngineTrace.cue_finished q) ended h2)

  finish_cues-Quiet :
      (cs : List ActiveCue) (e : Engine)
      → All (λ (c : ActiveCue). c.follow_after_last ≡ false) cs
      → Quiet e
      → Gives Quiet (finish_cues show play (map triple cs) e)
  unfolding Gives finish_cues
  finish_cues-Quiet [] e a h = h
  finish_cues-Quiet (c ∷ cs) e a h = rw a.0 (
      >>=-Gives Quiet (finish_cue show play c.instance_id c.qid false e)
        (finish_cues show play (map triple cs)) (finish_cue-Quiet c.instance_id c.qid e h)
        (λ e' h'. finish_cues-Quiet cs e' a.1 h'))

  check_finished_cues-Quiet : (e : Engine) → Quiet e → Gives Quiet (check_finished_cues show play e)
  unfolding check_finished_cues
  check_finished_cues-Quiet e h =
      finish_cues-Quiet (filter_by is_finished e.active_cues) e
        (filter-All (λ (c : ActiveCue). c.follow_after_last ≡ false) is_finished e.active_cues
          h.follows)
        h

  check_delayed_cues-Quiet : (e : Engine) → Quiet e → Gives Quiet (check_delayed_cues show play e)
  unfolding Gives check_delayed_cues
  check_delayed_cues-Quiet e h =
      rw h.delays
        (same-Quiet e (record e { delayed_cues = [] }) refl (sym h.delays) refl refl refl h)

  check_timecodes-Quiet : (e : Engine) → Quiet e → Gives Quiet (check_timecodes show play e)
  unfolding Gives check_timecodes show_elapsed
  check_timecodes-Quiet e h = rw (h.clock, check_timecodes, show_elapsed) h

check_video_loops-Quiet : (e : Engine) → Quiet e → Quiet (check_video_loops e)
unfolding check_video_loops
check_video_loops-Quiet e h = rw (h.video, check_video_loops) h

check_levels-Quiet :
    (show : Show) (audio : Audio) (fuel : ℕ) (e : Engine)
    → Quiet e
    → Quiet (check_levels show audio fuel e)
unfolding check_levels
check_levels-Quiet show audio fuel e h = record {
  follows = levels-All audio.output_rate e.active_cues h.follows;
  delays = h.delays;
  windows = h.windows;
  clock = h.clock;
  video = h.video;
}

run_checks-Quiet :
    (show : Show) (audio : Audio) (fuel : ℕ) (e : Engine)
    → Quiet e
    → Gives Quiet (run_checks show audio fuel e)
unfolding run_checks
run_checks-Quiet show audio fuel e h =
    >>=-Gives Quiet
      (check_finished_cues show (play_cue show audio fuel) (check_levels show audio fuel e)) _
      (check_finished_cues-Quiet show (play_cue show audio fuel) (check_levels show audio fuel e)
        (check_levels-Quiet show audio fuel e h))
      λ e' h'.
        >>=-Gives Quiet (check_delayed_cues show (play_cue show audio fuel) (check_video_loops e'))
          _
          (check_delayed_cues-Quiet show (play_cue show audio fuel) (check_video_loops e')
            (check_video_loops-Quiet e' h'))
          (check_timecodes-Quiet show (play_cue show audio fuel))

-- A call that hands out actions, and leaves `Quiet`.
abbrev pub QuietOut : Option (List EngineAction × Engine) → Type 0
QuietOut none = ⊥
QuietOut (some (actions, e)) = Quiet e

taken-Quiet : (o : Option Engine) → Gives Quiet o → QuietOut (o >>= λ e. some (take_actions e))
unfolding Gives take_actions
taken-Quiet none h = h
taken-Quiet (some e) h = same-Quiet e (record e { actions = [] }) refl refl refl refl refl h

-- As long as nothing waits to be played, a tick comes to an end with no fuel, where no cue can be
-- played, and nothing waits behind it.
pub tick-Quiet :
    (show : Show) (audio : Audio) (now : ℕ) (e : Engine)
    → Quiet e
    → QuietOut (tick show audio 0 now e)
unfolding tick
tick-Quiet show audio now e h = taken-Quiet (run_checks show audio 0 (record e { now = now })) (
    run_checks-Quiet show audio 0 (record e { now = now })
      (same-Quiet e (record e { now = now }) refl refl refl refl refl h))
