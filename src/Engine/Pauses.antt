-- ===== src/Engine/Pauses.antt =====
-- crates/cuepool/src/engine.rs: what a pause and the resume behind it do to the active cues and to the
-- video of `ShowEngine`.
use cue_pool.Base.{
  ℕ, ◌+◌, ◌-◌, ◌≤◌, ◌<◌, ◌≡◌, refl, ap, sym, ◌∙◌, Bool, true, false, Option, none, some, List, [],
  ◌∷◌, map, arith, ltb, min, All, if◌then◌else◌,
}
use cue_pool.Mixer.{render_input, end_fade}
use cue_pool.Engine.State.{Engine, ActiveCue, CueState, CurrentVideo}
use cue_pool.Engine.Transport.{
  is_playing, is_paused_state, get_or_ℕ, pause, resume, pause_cue, resume_cue, pause_video,
  resume_video, video_position,
}
use cue_pool.Engine.Play.{is_ready}

abbrev pub is_playing_looped : CueState → Bool
is_playing_looped CueState.playing_looped = true
is_playing_looped _ = false

-- A cue that plays: its input is active, and its state says whether it counts loops.
pub record Sounding (c : ActiveCue) : Type 0 where
  pub playing : is_playing c.state ≡ true
  pub looped : is_playing_looped c.state ≡ c.loop_counter
  pub active : c.input.active ≡ true

-- What the two do to a cue's state.
abbrev paused_and_resumed : Bool → CueState → CueState
paused_and_resumed looped s =
    let held = if is_playing s then CueState.paused else s in
    if is_paused_state held
    then (if looped then CueState.playing_looped else CueState.playing)
    else held

state-back :
    (looped : Bool) (s : CueState)
    → is_playing s ≡ true
    → is_playing_looped s ≡ looped
    → paused_and_resumed looped s ≡ s
state-back looped s p l = ground arith

resume_cue-pause_cue : (c : ActiveCue) → Sounding c → resume_cue (pause_cue c) ≡ c
unfolding resume_cue pause_cue
resume_cue-pause_cue c s =
    ap (λ x. record c { input = record (c.input) { active = true }; state = x })
      (state-back c.loop_counter c.state s.playing s.looped)
    ∙ ap (λ b. record c { input = record (c.input) { active = b } }) (sym s.active)

resumed-cues : (cs : List ActiveCue) → All Sounding cs → map resume_cue (map pause_cue cs) ≡ cs
resumed-cues [] h = refl
resumed-cues (c ∷ cs) h =
    ap (λ x. x ∷ map resume_cue (map pause_cue cs)) (resume_cue-pause_cue c h.0)
    ∙ ap (λ l. c ∷ l) (resumed-cues cs h.1)

-- A pause at `t1` and the resume at `t2`.
abbrev pub interrupted : Engine → ℕ → ℕ → Engine
interrupted e t1 t2 = resume (record (pause (record e { now = t1 })) { now = t2 })

-- Where all active cues play, a pause and the resume behind it leave each of them as it was.
pub interrupted-active_cues :
    (e : Engine) (t1 t2 : ℕ)
    → All Sounding e.active_cues
    → (interrupted e t1 t2).active_cues ≡ e.active_cues
unfolding pause resume
interrupted-active_cues e t1 t2 h = resumed-cues e.active_cues h

-- Where a video stands at a time.
abbrev clipped : ℕ → ℕ → ℕ
clipped duration position = if ltb 0 duration then min position duration else position

abbrev standing : ℕ → Option CurrentVideo → Option ℕ
standing now none = none
standing now (some v) =
    some (clipped v.duration (get_or_ℕ v.paused_position (now - v.clock_origin)))

-- What `video_position` says of the current video.
abbrev pub position : Engine → Option ℕ
position e = elim e.current_video [ none ↦ none | some v ↦ some (video_position e v) ]

-- A video, if there is one, that has run since before a time.
abbrev pub Runs : ℕ → Option CurrentVideo → Type 0
Runs t none = Unit
Runs t (some v) = (v.paused_position ≡ none) × (v.clock_origin ≤ t)

clipped-back :
    (d origin t1 t2 t3 : ℕ) (held : Option ℕ)
    → held ≡ none
    → origin ≤ t1
    → t1 ≤ t2
    → t2 ≤ t3
    → clipped d (t3 - (t2 - clipped d (get_or_ℕ held (t1 - origin))))
      ≡ clipped d (get_or_ℕ held (t1 + (t3 - t2) - origin))
clipped-back d origin t1 t2 t3 none r o h k = ground arith
clipped-back d origin t1 t2 t3 (some x) r o h k = absurd (ground arith)

standing-back :
    (e : Engine) (o : Option CurrentVideo) (t1 t2 t3 : ℕ)
    → Runs t1 o
    → t1 ≤ t2
    → t2 ≤ t3
    → standing t3 (resume_video t2 (pause_video (record e { now = t1 }) o))
      ≡ standing (t1 + (t3 - t2)) o
unfolding pause_video video_position
standing-back e none t1 t2 t3 r h k = refl
standing-back e (some v) t1 t2 t3 r h k =
    ap some (clipped-back v.duration v.clock_origin t1 t2 t3 v.paused_position r.0 r.1 h k)

position-standing : (e : Engine) → position e ≡ standing e.now e.current_video
unfolding video_position
position-standing e = ground arith

-- A video that has run since before the pause loses no time to it: resumed at `t2`, it stands at `t3`
-- where it would have stood without the pause as much earlier as the pause was long.
interrupted-position :
    (e : Engine) (t1 t2 t3 : ℕ)
    → Runs t1 e.current_video
    → t1 ≤ t2
    → t2 ≤ t3
    → position (record (interrupted e t1 t2) { now = t3 })
      ≡ position (record e { now = t1 + (t3 - t2) })
unfolding pause resume
interrupted-position e t1 t2 t3 r h k =
    position-standing (record (interrupted e t1 t2) { now = t3 })
    ∙ standing-back e e.current_video t1 t2 t3 r h k
    ∙ sym (position-standing (record e { now = t1 + (t3 - t2) }))

-- A cue that is preloaded stays silent: a round of `render` does not move its source. A pause and the
-- resume behind it switch its input on, so that the next round plays from it, though no GO has fired
-- it and it still counts as ready.
pub render_input-resume_cue :
    (read : ℕ) (c : ActiveCue)
    → 0 < read
    → is_ready c.state ≡ true
    → c.input.active ≡ false
    → ((render_input read c.input).source.at ≡ c.input.source.at)
      × ((render_input read (resume_cue (pause_cue c)).input).source.at ≡ c.input.source.at + read)
      × (is_ready (resume_cue (pause_cue c)).state ≡ true)
unfolding resume_cue pause_cue render_input end_fade
render_input-resume_cue read c r h off = (ground arith, ground arith, ground arith)
