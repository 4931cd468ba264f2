-- ===== src/Engine/Keeps.antt =====
-- A rule for invariants of `ShowEngine` (crates/cuepool/src/engine.rs): what every write that playing
-- a cue makes keeps, playing a cue keeps.
use cue_pool.Base.{
  ℕ, ◌≡◌, Bool, true, false, not, ◌||◌, Option, none, some, List, [], ◌∷◌, ◌++◌, ◌⊎◌, inl, inr,
  arith, if◌then◌else◌, ltb, length, Option-cases, any_by,
}
use cue_pool.Cue.{Cue, CueBase, Media, base, qid, StopMode, FadeType}
use cue_pool.Sequence.{resolve_stop_targets}
use cue_pool.Engine.State.{
  Engine, Show, Audio, Settings, ActiveCue, DelayedCue, EngineAction, EngineTrace, CurrentVideo,
  Alert, next_id,
}
use cue_pool.Engine.Stops.{
  push, push_trace, stop_all, stop_all_faded, stop_single, stop_each, stop_target, reset_show_clock,
  cancel_waiting, stop_pictures, is_video_of,
}
use cue_pool.Engine.Transport.{set_cue_volume}
use cue_pool.Base.Int.{ℤ}
use cue_pool.Base.Text.{trim, text_eq}
use cue_pool.Engine.Play.{
  RemoteRouting, is_empty, open_audio, is_none, alert, start_clock, play_audio, push_video_action,
}
use cue_pool.Engine.Dispatch.{
  ◌>>=◌, route, follow_routing, audio_instance, sound_video, new_video, delay_cue, play_video,
}
pub use cue_pool.Base.{if-keep}

-- Each single write keeps `P`. A video is shown where no picture is, the clock starts under GO, and it
-- is reset while the show runs.
pub record Closed (P : Engine → Type 0) : Type 0 where
  pub acts : (l : List EngineAction) (e : Engine) → P e → P (record e { actions = l })
  pub alerts : (l : List Alert) (e : Engine) → P e → P (record e { alerts = l })
  pub cues : (l : List ActiveCue) (e : Engine) → P e → P (record e { active_cues = l })
  pub numbers : (n : ℕ) (e : Engine) → P e → P (record e { next_active_cue_instance_id = n })
  pub delays : (l : List DelayedCue) (e : Engine) → P e → P (record e { delayed_cues = l })
  pub windows : (l : List (ℕ × ℕ)) (e : Engine) → P e → P (record e { active_timecodes = l })
  pub triggered : (l : List ℕ) (e : Engine) → P e → P (record e { triggered_timecodes = l })
  pub selects : (o : Option ℕ) (e : Engine) → P e → P (record e { selected_cue_id = o })
  pub halves : (o : Option (ℕ × ℕ)) (e : Engine) → P e → P (record e { pending_video_half = o })
  pub no_video : (e : Engine) → P e → P (record e { current_video = none })
  pub no_picture : (e : Engine) → P e → P (record e { current_picture_qid = none })
  pub video :
      (v : CurrentVideo) (e : Engine)
      → (is_none e.current_video ≡ false) ⊎ (is_none e.current_picture_qid ≡ true)
      → P e
      → P (record e { current_video = some v })
  pub picture :
      (q : ℕ) (e : Engine)
      → P e
      → P (record e { current_video = none; current_picture_qid = some q })
  pub clock : (e : Engine) → e.go_in_progress ≡ true → P e → P (start_clock e)
  pub stops : (e : Engine) → P e → P (stop_all e)
  pub reset : (e : Engine) → e.paused ≡ false → P e → P (reset_show_clock e)

-- A call that comes to an end leaves `P`.
abbrev pub Keeps : (Engine → Type 0) → Option Engine → Type 0
Keeps P none = Unit
Keeps P (some e) = P e

pub >>=-Keeps :
    (P : Engine → Type 0) (o : Option Engine) (f : Engine → Option Engine)
    → Keeps P o
    → ((e : Engine) → P e → Keeps P (f e))
    → Keeps P (o >>= f)
>>=-Keeps P none f h k = tt
>>=-Keeps P (some e) f h k = k e h

module _ {P : Engine → Type 0} (k : Closed P) where
  pub push-keeps : (a : EngineAction) (e : Engine) → P e → P (push a e)
  push-keeps a e h = k.acts (e.actions ++ a ∷ []) e h

  stop_pictures-keeps : (q fade : ℕ) (e : Engine) → P e → P (stop_pictures q fade e)
  unfolding stop_pictures
  stop_pictures-keeps q fade e h =
      let shown =
        if-keep P (is_video_of q e.current_video)
          (push (EngineAction.stop_video fade)
            (record e { current_video = none; pending_video_half = none }))
          e (λ _. k.acts _ _ (k.halves none _ (k.no_video e h))) (λ _. h) in
      if-keep P _ _ _ (λ _. k.no_picture _ shown) (λ _. shown)

  cancel_waiting-keeps : (q : ℕ) (e : Engine) → P e → P (cancel_waiting q e)
  unfolding cancel_waiting
  cancel_waiting-keeps q e h = k.windows _ _ (k.delays _ e h)

  pub stop_single-keeps :
      (audio : Audio) (q : ℕ) (m : StopMode) (fade : ℕ) (t : FadeType) (e : Engine)
      → P e
      → P (stop_single audio q m fade t e)
  unfolding stop_single
  stop_single-keeps audio q m fade t e h =
      let marked = k.cues _ e h in
      k.acts _ _ (
        if-keep P _ _ _ (λ _. marked)
          (λ _. stop_pictures-keeps q fade _ (cancel_waiting-keeps q _ marked)))

  pub stop_each-keeps :
      (audio : Audio) (m : StopMode) (fade : ℕ) (t : FadeType) (qs : List ℕ) (e : Engine)
      → P e
      → P (stop_each audio m fade t qs e)
  unfolding stop_each
  stop_each-keeps audio m fade t [] e h = h
  stop_each-keeps audio m fade t (q ∷ qs) e h =
      stop_each-keeps audio m fade t qs _ (stop_single-keeps audio q m fade t e h)

  pub stop_all_faded-keeps :
      (audio : Audio) (fade : ℕ) (t : FadeType) (e : Engine)
      → P e
      → P (stop_all_faded audio fade t e)
  unfolding stop_all_faded
  stop_all_faded-keeps audio fade t e h =
      if-keep P (not (ltb 0 fade) || e.paused) _ _ (λ _. k.stops e h)
        λ running. k.reset _ (ground arith) (
          push-keeps (EngineAction.stop_video _) _ (
            push-keeps EngineAction.stop_all_external _ (
              k.no_picture _
                (k.halves none _ (k.no_video _ (k.windows [] _ (k.delays [] _ (k.cues _ e h))))))))

  pub stop_target-Keeps :
      (audio : Audio) (show : Show) (q : ℕ) (m : StopMode) (fade : ℕ) (t : FadeType) (e : Engine)
      → P e
      → Keeps P (stop_target audio show q m fade t e)
  unfolding stop_target
  stop_target-Keeps audio show q m fade t e h =
      elim (Option-cases (resolve_stop_targets show.cues q)) [
        | inl left ↦ rw (left, stop_target) tt
        | inr (ts, found) ↦ rw (found, stop_target) (stop_each-keeps audio m fade t ts e h)
      ]

  pub set_cue_volume-keeps :
      (audio : Audio) (q : ℕ) (v : ℤ) (fade : ℕ) (t : FadeType) (e : Engine)
      → P e
      → P (set_cue_volume audio q v fade t e)
  unfolding set_cue_volume
  set_cue_volume-keeps audio q v fade t e h = k.cues _ e h

  pub push_video_action-keeps :
      (v : CurrentVideo) (e : Engine)
      → (is_none e.current_video ≡ false) ⊎ (is_none e.current_picture_qid ≡ true)
      → P e
      → P (push_video_action v e)
  unfolding push_video_action
  push_video_action-keeps v e free h = k.acts _ _ (k.video _ e free h)

  pub play_audio-keeps :
      (audio : Audio) (b : CueBase) (m : Media) (ready : Bool) (e : Engine)
      → P e
      → P (play_audio audio b m ready e).0
  unfolding play_audio
  play_audio-keeps audio b m ready e h = elim (Option-cases (open_audio audio b m)) [
    | inl left ↦ rw (left, play_audio) h
    | inr ((d, input), opened) ↦
        rw (opened, play_audio)
          (let added = k.cues _ _ (k.numbers _ e h) in
            if-keep P ready _ _ (λ _. added) (λ _. k.acts _ _ added))
  ]

  follow_routing-keeps :
      (r : RemoteRouting) (s : Settings) (q : ℕ) (e : Engine) → P e → P (follow_routing r s q e).0
  unfolding follow_routing
  follow_routing-keeps RemoteRouting.local s q e h = h
  follow_routing-keeps (RemoteRouting.remote node) s q e h =
      push-keeps (EngineAction.remote_go node q) _ (
        if-keep P (any_by (λ n. text_eq (trim n) node) s.remote_nodes) e
          (alert (Alert.node_not_detected q node) e) (λ _. h) (λ _. k.alerts _ e h))
  follow_routing-keeps (RemoteRouting.local_remote_control_off node) s q e h = k.alerts _ e h

  pub route-keeps : (s : Settings) (c : Cue) (e : Engine) → P e → P (route s c e).0
  unfolding route
  route-keeps s c e h =
      if-keep (λ (r : Engine × Bool). P r.0) (is_empty (trim (base c).remote_node)) _ _ (λ _. h)
        (λ _. follow_routing-keeps _ s (qid c) e h)

  pub delay_cue-keeps : (c : Cue) (e : Engine) → P e → P (delay_cue c e)
  unfolding delay_cue
  delay_cue-keeps c e h = k.delays _ e h

  sound_video-keeps :
      (audio : Audio) (b : CueBase) (m : Media) (follow : Bool) (e : Engine)
      → P e
      → P (sound_video audio b m follow e)
  unfolding sound_video
  sound_video-keeps audio b m follow e h =
      let cleared = k.numbers (next_id e.next_active_cue_instance_id) _ (k.no_picture e h) in
      if-keep P follow _ (play_audio audio b m false _).0 (λ _. cleared)
        (λ _. play_audio-keeps audio b m false _ cleared)

  sound_video-picture :
      (audio : Audio) (b : CueBase) (m : Media) (follow : Bool) (e : Engine)
      → is_none (sound_video audio b m follow e).current_picture_qid ≡ true
  unfolding sound_video play_audio
  sound_video-picture audio b m follow e = ground arith

  trace_if-keeps :
      (b : Bool) (t : EngineTrace) (e : Engine) → P e → P (if b then push_trace t e else e)
  trace_if-keeps true t e h = push-keeps (EngineAction.trace t) e h
  trace_if-keeps false t e h = h

  pub play_video-keeps :
      (audio : Audio) (b : CueBase) (m : Media) (follow : Bool) (mtc : ℕ) (e : Engine)
      → P e
      → P (play_video audio b m follow mtc e)
  unfolding play_video
  play_video-keeps audio b m follow mtc e h =
      let sounded = sound_video audio b m follow e in
      let track = audio_instance b.qid (length e.active_cues) sounded in
      let video = new_video audio b m follow mtc track e in
      trace_if-keeps (is_none track) (EngineTrace.cue_started b.qid (some video.instance_id))
        (push_video_action video sounded)
        (push_video_action-keeps video sounded (inr (sound_video-picture audio b m follow e))
          (sound_video-keeps audio b m follow e h))
