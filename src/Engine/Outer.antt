-- ===== src/Engine/Outer.antt =====
-- crates/cuepool/src/engine.rs: the rule of `Keeps` for the calls that the rest of the program makes
-- of `ShowEngine`.
use cue_pool.Base.{
  ℕ, ◌≡◌, refl, Bool, true, false, Option, none, some, List, [], arith, Option-cases, inl, inr,
  find_by, any_by, position_by, ◌==◌,
}
use cue_pool.Base.Int.{ℤ}
use cue_pool.Cue.{Cue, CueBase, Media, qid}
use cue_pool.Sequence.{has_qid, with_last_run, next_standby_qid}
use cue_pool.Engine.State.{
  Engine, Show, Audio, ActiveCue, EngineCommand, EngineEvent, EngineAction, CurrentVideo,
}
use cue_pool.Engine.Transport.{
  pause, resume, seek_audio, seek_video, seek_cue, seek_qid, video_instance, seek, set_level,
}
use cue_pool.Engine.Play.{is_none, play_audio}
use cue_pool.Engine.Dispatch.{◌>>=◌, play_all, play_cue}
use cue_pool.Engine.Run.{
  is_goto_at, forget_timecodes, advance_standby, go_at, go, fire, media, preload_cue, preload,
  run_command, run_event, run_checks, take_actions, adjust_show_time, at_time, command, event, tick,
}
use cue_pool.Engine.Keeps.{Closed, Keeps, >>=-Keeps, if-keep, play_audio-keeps}
use cue_pool.Engine.Preserve.{all-Keeps, play_cue-Keeps}
use cue_pool.Engine.Checks.{run_event-Keeps, run_checks-Keeps}

-- What the calls from outside do besides keeps `P` too.
pub record Steady (P : Engine → Type 0) : Type 0 where
  pub closed : Closed P
  pub flag : (b : Bool) (e : Engine) → P e → P (record e { go_in_progress = b })
  pub time : (n : ℕ) (e : Engine) → P e → P (record e { now = n })
  pub pauses : (e : Engine) → P e → P (pause e)
  pub resumes : (e : Engine) → P e → P (resume e)
  pub adjusts : (delta : ℤ) (e : Engine) → P e → P (adjust_show_time delta e)

module _ {P : Engine → Type 0} (k : Closed P) (show : Show) (audio : Audio) where
  fire_at-Keeps :
      (fuel : ℕ) (o : Option ℕ) (e : Engine)
      → P e
      → Keeps P (elim o [
        | none ↦ some e
        | some index ↦ play_all (play_cue show audio fuel) (with_last_run show.cues index) e
      ])
  fire_at-Keeps fuel none e h = h
  fire_at-Keeps fuel (some index) e h =
      all-Keeps k show audio (play_cue show audio fuel) (play_cue-Keeps k show audio fuel)
        (with_last_run show.cues index) e h

  pub fire-Keeps :
      (fuel q : ℕ) (e : Engine) → P e → Keeps P (fire show (play_cue show audio fuel) q e)
  unfolding fire
  fire-Keeps fuel q e h = fire_at-Keeps fuel (position_by (has_qid q) show.cues) e h

  preload_media-keeps :
      (o : Option (CueBase × Media)) (e : Engine)
      → P e
      → P (elim o [ none ↦ e | some (b, m) ↦ (play_audio audio b m true e).0 ])
  preload_media-keeps none e h = h
  preload_media-keeps (some (b, m)) e h = play_audio-keeps k audio b m true e h

  preload_cue-keeps : (c : Cue) (e : Engine) → P e → P (preload_cue show audio c e)
  unfolding preload_cue
  preload_cue-keeps c e h =
      if-keep P (any_by (λ (a : ActiveCue). a.qid == qid c) e.active_cues) e _ (λ _. h)
        (λ _. preload_media-keeps (media c) e h)

  found-keeps :
      (o : Option Cue) (e : Engine)
      → P e
      → P (elim o [ none ↦ e | some c ↦ preload_cue show audio c e ])
  found-keeps none e h = h
  found-keeps (some c) e h = preload_cue-keeps c e h

  selected-Keeps :
      (o : Option ℕ) (e : Engine)
      → P e
      → P (elim o [
        | none ↦ e
        | some q ↦ elim (find_by (has_qid q) show.cues) [
          | none ↦ e
          | some c ↦ preload_cue show audio c e
        ]
      ])
  selected-Keeps none e h = h
  selected-Keeps (some q) e h = found-keeps (find_by (has_qid q) show.cues) e h

  pub preload-keeps : (e : Engine) → P e → P (preload show audio e)
  unfolding preload
  preload-keeps e h = selected-Keeps e.selected_cue_id e h

shown_instance :
    (i : ℕ) (o : Option CurrentVideo) (v : CurrentVideo)
    → video_instance i o ≡ some v
    → is_none o ≡ false
shown_instance i none v h = absurd (ground arith)
shown_instance i (some w) v h = refl

module _ {P : Engine → Type 0} (k : Closed P) where
  seek_video-keeps :
      (q start i target : ℕ) (v : CurrentVideo) (e : Engine)
      → is_none e.current_video ≡ false
      → P e
      → P (seek_video q start i target v e)
  unfolding seek_video
  seek_video-keeps q start i target v e shown h = k.acts _ _ (k.video _ e (inl shown) h)

  seek_cue-keeps : (c : Cue) (i n : ℕ) (e : Engine) → P e → P (seek_cue c i n e)
  unfolding seek_cue seek_audio
  seek_cue-keeps (Cue.video b m f s) i n e h =
      let sought = (seek_audio i n e).0 in
      elim (Option-cases (video_instance i sought.current_video)) [
        | inl off ↦ rw (off, seek_cue) (k.cues _ e h)
        | inr (v, on) ↦
            rw (on, seek_cue)
              (seek_video-keeps b.qid m.start_time i _ v sought
                (shown_instance i sought.current_video v on) (k.cues _ e h))
      ]
  seek_cue-keeps (Cue.group b) i n e h = k.cues _ e h
  seek_cue-keeps (Cue.sound b m) i n e h = k.cues _ e h
  seek_cue-keeps (Cue.stop b f) i n e h = k.cues _ e h
  seek_cue-keeps (Cue.volume b f) i n e h = k.cues _ e h
  seek_cue-keeps (Cue.time_code b s d) i n e h = k.cues _ e h
  seek_cue-keeps (Cue.goto b t) i n e h = k.cues _ e h
  seek_cue-keeps (Cue.image b p) i n e h = k.cues _ e h
  seek_cue-keeps (Cue.dmx_show b p) i n e h = k.cues _ e h
  seek_cue-keeps (Cue.dummy b) i n e h = k.cues _ e h
  seek_cue-keeps (Cue.network b t) i n e h = k.cues _ e h
  seek_cue-keeps (Cue.text b t) i n e h = k.cues _ e h
  seek_cue-keeps (Cue.pixel_map b t) i n e h = k.cues _ e h
  seek_cue-keeps (Cue.lighting b t) i n e h = k.cues _ e h

  seek_found-keeps :
      (o : Option Cue) (i n : ℕ) (e : Engine)
      → P e
      → P (elim o [ none ↦ e | some c ↦ seek_cue c i n e ])
  seek_found-keeps none i n e h = h
  seek_found-keeps (some c) i n e h = seek_cue-keeps c i n e h

  seek-keeps : (show : Show) (i n : ℕ) (e : Engine) → P e → P (seek show i n e)
  unfolding seek
  seek-keeps show i n e h = elim (Option-cases (seek_qid i e)) [
    | inl off ↦ rw (off, seek) h
    | inr (q, on) ↦ rw (on, seek) (seek_found-keeps (find_by (has_qid q) show.cues) i n e h)
  ]

-- A call that gives its actions leaves `P`.
unfoldable pub KeepsOut : (Engine → Type 0) → Option (List EngineAction × Engine) → Type 0
KeepsOut P none = Unit
KeepsOut P (some (actions, e)) = P e

module _ {P : Engine → Type 0} (k : Closed P)
    (time : (n : ℕ) (e : Engine) → P e → P (record e { now = n })) where
  pub at_time-Keeps :
      (run : Engine → Option Engine) (n : ℕ) (e : Engine)
      → ((e' : Engine) → P e' → Keeps P (run e'))
      → P e
      → KeepsOut P (at_time run n e)
  unfolding take_actions KeepsOut
  at_time-Keeps run n e h p =
      ran (run (record e { now = n })) (h (record e { now = n }) (time n e p))
    where
      ran : (o : Option Engine) → Keeps P o → KeepsOut P (o >>= λ e'. some (take_actions e'))
      ran none h' = tt
      ran (some e') h' = k.acts [] e' h'

module _ {P : Engine → Type 0} (s : Steady P) where
  forget-keeps : (e : Engine) → P e → P (forget_timecodes e)
  unfolding forget_timecodes
  forget-keeps e h =
      if-keep P (is_none e.show_start) _ e (λ _. s.closed.windows [] _ (s.closed.triggered [] e h))
        (λ _. h)

  standby-keeps :
      (o : Option ℕ) (e : Engine)
      → P e
      → P (elim o [ none ↦ e | some q ↦ record e { selected_cue_id = some q } ])
  standby-keeps none e h = h
  standby-keeps (some q) e h = s.closed.selects (some q) e h

  module _ (show : Show) (audio : Audio) (fuel : ℕ) where
    advance-keeps : (index : ℕ) (e : Engine) → P e → P (advance_standby show index e)
    unfolding advance_standby
    advance-keeps index e h =
        if-keep P (is_goto_at show.cues index) e _ (λ _. h)
          (λ _. standby-keeps (next_standby_qid show.cues index) e h)

    go_at-Keeps :
        (index : ℕ) (e : Engine) → P e → Keeps P (go_at show (play_cue show audio fuel) index e)
    unfolding go_at
    go_at-Keeps index e h =
        >>=-Keeps P
          (play_all (play_cue show audio fuel) (with_last_run show.cues index)
            (record e { go_in_progress = true }))
          _
          (all-Keeps s.closed show audio (play_cue show audio fuel)
            (play_cue-Keeps s.closed show audio fuel) (with_last_run show.cues index) _
            (s.flag true e h))
          (λ e' h'. advance-keeps index _ (s.flag false e' h'))

    position-Keeps :
        (o : Option ℕ) (e : Engine)
        → P e
        → Keeps P
            (elim o [ none ↦ some e | some index ↦ go_at show (play_cue show audio fuel) index e ])
    position-Keeps none e h = h
    position-Keeps (some index) e h = go_at-Keeps index e h

    standing-Keeps :
        (o : Option ℕ) (e : Engine)
        → P e
        → Keeps P (elim o [
          | none ↦ some e
          | some q ↦ elim (position_by (has_qid q) show.cues) [
            | none ↦ some e
            | some index ↦ go_at show (play_cue show audio fuel) index e
          ]
        ])
    standing-Keeps none e h = h
    standing-Keeps (some q) e h = position-Keeps (position_by (has_qid q) show.cues) e h

    go-Keeps : (e : Engine) → P e → Keeps P (go show (play_cue show audio fuel) e)
    unfolding go
    go-Keeps e h =
        standing-Keeps (forget_timecodes e).selected_cue_id (forget_timecodes e) (forget-keeps e h)

    run_command-Keeps :
        (c : EngineCommand) (e : Engine) → P e → Keeps P (run_command show audio fuel c e)
    unfolding run_command set_level
    run_command-Keeps EngineCommand.go e h = go-Keeps e h
    run_command-Keeps (EngineCommand.fire q) e h = fire-Keeps s.closed show audio fuel q e h
    run_command-Keeps EngineCommand.stop e h = s.closed.stops e h
    run_command-Keeps EngineCommand.pause e h =
        if-keep (Keeps P) e.paused (some e) (some (pause e)) (λ _. h) (λ _. s.pauses e h)
    run_command-Keeps EngineCommand.resume e h =
        if-keep (Keeps P) e.paused (some (resume e)) (some e) (λ _. s.resumes e h) (λ _. h)
    run_command-Keeps EngineCommand.toggle_pause e h =
        if-keep (Keeps P) e.paused (some (resume e)) (some (pause e)) (λ _. s.resumes e h)
          (λ _. s.pauses e h)
    run_command-Keeps (EngineCommand.select q) e h = s.closed.selects (some q) e h
    run_command-Keeps EngineCommand.preload e h = preload-keeps s.closed show audio e h
    run_command-Keeps (EngineCommand.seek i n) e h = seek-keeps s.closed show i n e h
    run_command-Keeps (EngineCommand.set_level q v p) e h = s.closed.cues _ e h

    pub command-keeps :
        (c : EngineCommand) (n : ℕ) (e : Engine) → P e → KeepsOut P (command show audio fuel c n e)
    unfolding command
    command-keeps c n e h =
        at_time-Keeps s.closed s.time (run_command show audio fuel c) n e (run_command-Keeps c) h

    pub event-keeps :
        (v : EngineEvent) (n : ℕ) (e : Engine) → P e → KeepsOut P (event show audio fuel v n e)
    unfolding event
    event-keeps v n e h =
        at_time-Keeps s.closed s.time (run_event show audio fuel v) n e
          (run_event-Keeps s.closed show audio fuel v) h

    pub tick-keeps : (n : ℕ) (e : Engine) → P e → KeepsOut P (tick show audio fuel n e)
    unfolding tick
    tick-keeps n e h =
        at_time-Keeps s.closed s.time (run_checks show audio fuel) n e
          (run_checks-Keeps s.closed show audio fuel) h
