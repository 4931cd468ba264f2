-- ===== src/Engine/Preserve.antt =====
-- The rule of `Keeps` for `play_cue` of `ShowEngine` (crates/cuepool/src/engine.rs).
use cue_pool.Base.{
  ℕ, zero, suc, ◌+◌, ◌≡◌, refl, Bool, true, false, not, ◌&&◌, ◌||◌, Option, none, some, List, [],
  ◌∷◌, ◌++◌, inl, inr, arith, if◌then◌else◌, ltb, Option-cases,
}
use cue_pool.Cue.{Cue, CueBase, base, qid, enabled, StopFields}
use cue_pool.Sequence.{next_after_last, resolve_goto_target}
use cue_pool.Engine.State.{Engine, Show, Audio, EngineAction, EngineTrace}
use cue_pool.Engine.Stops.{push, push_trace, stop_target, stop_all_faded}
use cue_pool.Engine.Play.{start_clock, cue_is_active, start_ready}
use cue_pool.Engine.Dispatch.{
  ◌>>=◌, route, delay_cue, play_all, group_members, play_after_last, finish, play_stop, play_goto,
  play_time_code, play_external, play_kind, play_here, arms, play_routed, play_step, play_cue,
}
use cue_pool.Engine.Keeps.{
  Closed, Keeps, >>=-Keeps, if-keep, push-keeps, stop_target-Keeps, stop_all_faded-keeps,
  set_cue_volume-keeps, play_audio-keeps, route-keeps, delay_cue-keeps, play_video-keeps,
}

module _ {P : Engine → Type 0} (k : Closed P) (show : Show) (audio : Audio)
    (play : Cue → Engine → Option Engine)
    (plays : (c : Cue) (e : Engine) → P e → Keeps P (play c e)) where
  pub after-Keeps : (q : ℕ) (e : Engine) → P e → Keeps P (play_after_last show play q e)
  unfolding play_after_last
  after-Keeps q e h = elim (Option-cases (next_after_last show.cues q)) [
    | inl left ↦ rw (left, play_after_last) h
    | inr (c, found) ↦ rw (found, play_after_last) (plays c e h)
  ]

  pub finish-Keeps : (q : ℕ) (e : Engine) → P e → Keeps P (finish show play q e)
  unfolding finish
  finish-Keeps q e h =
      after-Keeps q (push_trace (EngineTrace.cue_finished q) e)
        (push-keeps k (EngineAction.trace (EngineTrace.cue_finished q)) e h)

  pub all-Keeps : (cs : List Cue) (e : Engine) → P e → Keeps P (play_all play cs e)
  unfolding play_all
  all-Keeps [] e h = h
  all-Keeps (c ∷ cs) e h = >>=-Keeps P (play c e) (play_all play cs) (plays c e h) (all-Keeps cs)

  pub trace-keeps : (t : EngineTrace) (e : Engine) → P e → P (push_trace t e)
  trace-keeps t e h = push-keeps k (EngineAction.trace t) e h

  play_stop-Keeps :
      (b : CueBase) (f : StopFields) (e : Engine) → P e → Keeps P (play_stop show audio play b f e)
  unfolding play_stop
  play_stop-Keeps b f e h =
      let started = push_trace (EngineTrace.cue_started b.qid none) e in
      let h' = trace-keeps (EngineTrace.cue_started b.qid none) e h in
      >>=-Keeps P
        (if f.stop_all
          then some (stop_all_faded audio f.fade_out_time f.fade_type started)
          else stop_target audio show f.stop_qid f.stop_mode f.fade_out_time f.fade_type started)
        (finish show play b.qid)
        (if-keep (Keeps P) f.stop_all _ _
          (λ _. stop_all_faded-keeps k audio f.fade_out_time f.fade_type started h')
          (λ _.
            stop_target-Keeps k audio show f.stop_qid f.stop_mode f.fade_out_time f.fade_type
              started h'))
        (finish-Keeps b.qid)

  selected-Keeps :
      (o : Option (Option ℕ)) (e : Engine)
      → P e
      → Keeps P (
          o >>= λ found. elim found [
            | none ↦ some e
            | some q ↦ some (record e { selected_cue_id = some q })
          ])
  selected-Keeps none e h = tt
  selected-Keeps (some none) e h = h
  selected-Keeps (some (some q)) e h = k.selects (some q) e h

  play_goto-Keeps :
      (b : CueBase) (t : ℕ) (e : Engine) → P e → Keeps P (play_goto show audio play b t e)
  unfolding play_goto
  play_goto-Keeps b t e h = selected-Keeps (resolve_goto_target show.cues b.qid t) e h

  play_external-Keeps :
      (c : Cue) (lasts : Bool) (e : Engine)
      → P e
      → Keeps P (play_external show audio play c lasts e)
  unfolding play_external
  play_external-Keeps c lasts e h =
      let started = push_trace (EngineTrace.cue_started (qid c) none) e in
      let fired =
        push-keeps k (EngineAction.fire_external c) started
          (trace-keeps (EngineTrace.cue_started (qid c) none) e h) in
      if-keep (Keeps P) lasts (some (push (EngineAction.fire_external c) started)) _ (λ _. fired)
        (λ _. finish-Keeps (qid c) (push (EngineAction.fire_external c) started) fired)

  play_kind-Keeps : (c : Cue) (e : Engine) → P e → Keeps P (play_kind show audio play c e)
  unfolding play_kind play_time_code
  play_kind-Keeps (Cue.group b) e h = all-Keeps (group_members show b.qid) e h
  play_kind-Keeps (Cue.sound b m) e h = play_audio-keeps k audio b m false e h
  play_kind-Keeps (Cue.video b m f s) e h = play_video-keeps k audio b m f s e h
  play_kind-Keeps (Cue.stop b f) e h = play_stop-Keeps b f e h
  play_kind-Keeps (Cue.volume b f) e h = finish-Keeps b.qid _ (
      set_cue_volume-keeps k audio f.sound_qid f.volume f.fade_time f.fade_type
        (push_trace (EngineTrace.cue_started b.qid none) e)
        (trace-keeps (EngineTrace.cue_started b.qid none) e h))
  play_kind-Keeps (Cue.time_code b s d) e h =
      if-keep (Keeps P) (ltb 0 d) _ (play_after_last show play b.qid e)
        (λ _. k.windows (e.active_timecodes ++ (b.qid, s + d) ∷ []) e h)
        (λ _. after-Keeps b.qid e h)
  play_kind-Keeps (Cue.goto b t) e h = play_goto-Keeps b t e h
  play_kind-Keeps (Cue.image b p) e h =
      play_external-Keeps (Cue.image b p) false
        (record e { current_video = none; current_picture_qid = some b.qid }) (k.picture b.qid e h)
  play_kind-Keeps (Cue.dmx_show b p) e h = play_external-Keeps (Cue.dmx_show b p) true e h
  play_kind-Keeps (Cue.dummy b) e h = play_external-Keeps (Cue.dummy b) false e h
  play_kind-Keeps (Cue.network b t) e h = play_external-Keeps (Cue.network b t) false e h
  play_kind-Keeps (Cue.text b t) e h = play_external-Keeps (Cue.text b t) false e h
  play_kind-Keeps (Cue.pixel_map b t) e h = play_external-Keeps (Cue.pixel_map b t) false e h
  play_kind-Keeps (Cue.lighting b t) e h = play_external-Keeps (Cue.lighting b t) false e h

  play_here-Keeps : (c : Cue) (e : Engine) → P e → Keeps P (play_here show audio play c e)
  unfolding play_here
  play_here-Keeps c e h =
      if-keep (Keeps P) (ltb 0 (base c).delay) (some (delay_cue c e)) _
        (λ _. delay_cue-keeps k c e h)
        λ _. elim (Option-cases (start_ready c e.active_cues)) [
          | inl left ↦ rw left (play_kind-Keeps c e h)
          | inr ((cues, i), found) ↦
              rw found (trace-keeps (EngineTrace.cue_started (qid c) (some i)) _ (k.cues cues e h))
        ]

  play_routed-Keeps : (c : Cue) (e : Engine) → P e → Keeps P (play_routed show audio play c e)
  unfolding play_routed
  play_routed-Keeps c e h =
      let h' = route-keeps k show.settings c e h in
      if-keep (Keeps P) (route show.settings c e).1 (some (route show.settings c e).0) _ (λ _. h')
        (λ _. play_here-Keeps c (route show.settings c e).0 h')

  -- The clock is armed under GO only.
  arms-go : (c : Cue) (e : Engine) → arms show audio play c e ≡ some true → e.go_in_progress ≡ true
  unfolding arms
  arms-go c e h = ground arith

  armed-Keeps :
      (c : Cue) (e : Engine) (o : Option Bool)
      → arms show audio play c e ≡ o
      → P e
      → Keeps P (o >>= λ armed. play_routed show audio play c (if armed then start_clock e else e))
  armed-Keeps c e none a h = tt
  armed-Keeps c e (some true) a h =
      play_routed-Keeps c (start_clock e) (k.clock e (arms-go c e a) h)
  armed-Keeps c e (some false) a h = play_routed-Keeps c e h

  pub play_step-Keeps : (c : Cue) (e : Engine) → P e → Keeps P (play_step show audio play c e)
  unfolding play_step
  play_step-Keeps c e h =
      if-keep (Keeps P) (not (enabled c) || (not (base c).retriggerable && cue_is_active (qid c) e))
        (some e) _ (λ _. h) (λ _. armed-Keeps c e (arms show audio play c e) refl h)

module _ {P : Engine → Type 0} (k : Closed P) (show : Show) (audio : Audio) where
  pub play_cue-Keeps :
      (fuel : ℕ) (c : Cue) (e : Engine) → P e → Keeps P (play_cue show audio fuel c e)
  unfolding play_cue
  play_cue-Keeps zero c e h = tt
  play_cue-Keeps (suc fuel) c e h =
      play_step-Keeps k show audio (play_cue show audio fuel) (play_cue-Keeps fuel) c e h
