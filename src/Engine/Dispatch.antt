-- ===== src/Engine/Dispatch.antt =====
-- crates/cuepool/src/engine.rs: `play_cue` of `ShowEngine`, with `play_after_last` and the branch of
-- each kind of cue. The step takes the calls of `play_cue` as `play`; `none` means that the fuel ran
-- out.
use cue_pool.Base.{
  ℕ, zero, suc, ◌+◌, Bool, true, false, not, ◌&&◌, ◌||◌, Option, none, some, List, [], ◌∷◌, ◌++◌,
  if◌then◌else◌, ◌==◌, ltb, filter_by, any_by, length, get_elem?,
}
use cue_pool.Base.Text.{trim, text_eq}
use cue_pool.Cue.{
  Cue, CueBase, Media, StopFields, base, qid, enabled, with_base, is_after_last, trigger,
}
use cue_pool.Sequence.{
  is_member_of, next_after_last, resolve_goto_target, cue_starts_show_clock,
  delayed_cue_starts_show_clock,
}
use cue_pool.Engine.State.{
  Engine, Show, Audio, Settings, EngineAction, EngineTrace, CurrentVideo, Alert, next_id,
}
use cue_pool.Engine.Stops.{push, push_trace, stop_target, stop_all_faded}
use cue_pool.Engine.Transport.{set_cue_volume, get_or_ℕ}
use cue_pool.Engine.Play.{
  RemoteRouting, resolve_remote_routing, cue_is_active, start_clock, is_none, alert, is_empty,
  start_ready, play_audio, push_video_action, resolved_path,
}

infixl 5 ◌>>=◌
abbrev pub ◌>>=◌ : {A B : Type 0} → Option A → (A → Option B) → Option B
none >>= f = none
some a >>= f = f a

-- The match of `play_cue` on the routing: what it did, and whether the cue was sent away.
unfoldable pub follow_routing : RemoteRouting → Settings → ℕ → Engine → Engine × Bool
unfolding trim
follow_routing RemoteRouting.local settings q e = (e, false)
follow_routing (RemoteRouting.remote node) settings q e =
    let known = any_by (λ n. text_eq (trim n) node) settings.remote_nodes in
    (
      push (EngineAction.remote_go node q)
          (if known then e else alert (Alert.node_not_detected q node) e),
      true,
    )
follow_routing (RemoteRouting.local_remote_control_off node) settings q e =
    (alert (Alert.remote_control_off q node) e, false)

unfoldable pub route : Settings → Cue → Engine → Engine × Bool
unfolding resolve_remote_routing trim follow_routing
route settings c e =
    if is_empty (trim (base c).remote_node)
    then (e, false)
    else follow_routing (resolve_remote_routing (base c) settings) settings (qid c) e

unfoldable pub delay_cue : Cue → Engine → Engine
delay_cue c e = record e {
  delayed_cues =
      e.delayed_cues
      ++ record {
        cue = with_base c (record (base c) { delay = 0 });
        start_at = e.now + (base c).delay;
      }
        ∷ [];
}

-- The instance of the audio track that `play_audio` pushed behind the first `before` cues.
abbrev pub audio_instance : ℕ → ℕ → Engine → Option ℕ
audio_instance q before e = elim (get_elem? e.active_cues before) [
  | none ↦ none
  | some a ↦ if a.qid == q then some a.instance_id else none
]

module _ (audio : Audio) where
  -- The first part of the video branch: the picture gives way, an instance number is set aside, and
  -- the audio track plays unless timecode drives the video.
  unfoldable pub sound_video : CueBase → Media → Bool → Engine → Engine
  unfolding play_audio
  sound_video b m follow e =
      let cleared : Engine = record e {
        current_picture_qid = none;
        next_active_cue_instance_id = next_id e.next_active_cue_instance_id;
      } in
      if follow then cleared else (play_audio audio b m false cleared).0

  unfoldable pub new_video : CueBase → Media → Bool → ℕ → Option ℕ → Engine → CurrentVideo
  new_video b m follow mtc track e = record {
    qid = b.qid;
    instance_id = get_or_ℕ track e.next_active_cue_instance_id;
    epoch = 0;
    path = resolved_path audio m.path;
    start_time = m.start_time;
    duration = m.duration;
    loop_mode = b.loop_mode;
    follow_mtc = follow;
    mtc_start = mtc;
    has_audio = not (is_none track);
    clock_origin = e.now;
    paused_position = if e.paused then some 0 else none;
  }

  unfoldable pub play_video : CueBase → Media → Bool → ℕ → Engine → Engine
  unfolding sound_video new_video push_video_action
  play_video b m follow mtc e =
      let sounded = sound_video b m follow e in
      let track = audio_instance b.qid (length e.active_cues) sounded in
      let video = new_video b m follow mtc track e in
      let shown = push_video_action video sounded in
      if is_none track
      then push_trace (EngineTrace.cue_started b.qid (some video.instance_id)) shown
      else shown

module _ (play : Cue → Engine → Option Engine) where
  unfoldable pub play_all : List Cue → Engine → Option Engine
  play_all [] e = some e
  play_all (c ∷ cs) e = play c e >>= λ e'. play_all cs e'

-- The members that a group starts: all but itself and those that follow by themselves.
unfoldable pub group_members : Show → ℕ → List Cue
group_members show q =
    filter_by (λ m. is_member_of q m && (not (qid m == q) && not (is_after_last (trigger m))))
      show.cues

module _ (show : Show) (play : Cue → Engine → Option Engine) where
  unfoldable pub play_after_last : ℕ → Engine → Option Engine
  play_after_last q e = elim (next_after_last show.cues q) [ none ↦ some e | some c ↦ play c e ]

  -- `finish_instant` and `finish_external`.
  unfoldable pub finish : ℕ → Engine → Option Engine
  unfolding play_after_last
  finish q e = play_after_last q (push_trace (EngineTrace.cue_finished q) e)

module _ (show : Show) (audio : Audio) (play : Cue → Engine → Option Engine) where
  unfoldable pub play_stop : CueBase → StopFields → Engine → Option Engine
  unfolding finish
  play_stop b f e =
      let started = push_trace (EngineTrace.cue_started b.qid none) e in
      let stopped =
        if f.stop_all
        then some (stop_all_faded audio f.fade_out_time f.fade_type started)
        else stop_target audio show f.stop_qid f.stop_mode f.fade_out_time f.fade_type started in
      stopped >>= finish show play b.qid

  unfoldable pub play_goto : CueBase → ℕ → Engine → Option Engine
  play_goto b target e = resolve_goto_target show.cues b.qid target >>= λ found. elim found [
    | none ↦ some e
    | some q ↦ some (record e { selected_cue_id = some q })
  ]

  unfoldable pub play_time_code : CueBase → ℕ → ℕ → Engine → Option Engine
  unfolding play_after_last
  play_time_code b start duration e =
      let later = play_after_last show play b.qid e in
      if ltb 0 duration
      then some
          (record e { active_timecodes = e.active_timecodes ++ (b.qid, start + duration) ∷ [] })
      else later

  -- The last branch: the cue is handed out, and has finished unless it is a DMX recording.
  unfoldable pub play_external : Cue → Bool → Engine → Option Engine
  unfolding finish
  play_external c lasts e =
      let fired =
        push (EngineAction.fire_external c) (push_trace (EngineTrace.cue_started (qid c) none) e) in
      let finished = finish show play (qid c) fired in if lasts then some fired else finished

  unfoldable pub play_kind : Cue → Engine → Option Engine
  unfolding play_all group_members play_stop play_goto play_time_code play_external finish
  play_kind (Cue.sound b m) e = some (play_audio audio b m false e).0
  play_kind (Cue.video b m follow mtc) e = some (play_video audio b m follow mtc e)
  play_kind (Cue.stop b f) e = play_stop b f e
  play_kind (Cue.volume b f) e = finish show play b.qid (
      set_cue_volume audio f.sound_qid f.volume f.fade_time f.fade_type
        (push_trace (EngineTrace.cue_started b.qid none) e))
  play_kind (Cue.group b) e = play_all play (group_members show b.qid) e
  play_kind (Cue.time_code b start duration) e = play_time_code b start duration e
  play_kind (Cue.goto b target) e = play_goto b target e
  play_kind (Cue.image b p) e =
      play_external (Cue.image b p) false
        (record e { current_video = none; current_picture_qid = some b.qid })
  play_kind (Cue.dmx_show b p) e = play_external (Cue.dmx_show b p) true e
  play_kind (Cue.dummy b) e = play_external (Cue.dummy b) false e
  play_kind (Cue.network b t) e = play_external (Cue.network b t) false e
  play_kind (Cue.text b t) e = play_external (Cue.text b t) false e
  play_kind (Cue.pixel_map b p) e = play_external (Cue.pixel_map b p) false e
  play_kind (Cue.lighting b f) e = play_external (Cue.lighting b f) false e

  -- Behind the routing: the delay, then a preloaded instance, then the cue itself.
  unfoldable pub play_here : Cue → Engine → Option Engine
  unfolding delay_cue play_kind
  play_here c e =
      if ltb 0 (base c).delay then some (delay_cue c e) else elim (start_ready c e.active_cues) [
        | some (cues, instance) ↦ some (
            push_trace (EngineTrace.cue_started (qid c) (some instance))
              (record e { active_cues = cues }))
        | none ↦ play_kind c e
      ]

  -- Whether this cue starts the show clock.
  unfoldable pub arms : Cue → Engine → Option Bool
  arms c e =
      if e.go_in_progress && is_none e.show_start
      then (if cue_starts_show_clock c
          then some true
          else delayed_cue_starts_show_clock show.cues c)
      else some false

  unfoldable pub play_routed : Cue → Engine → Option Engine
  unfolding route play_here
  play_routed c e =
      let routed = route show.settings c e in
      if routed.1 then some routed.0 else play_here c routed.0

  unfoldable pub play_step : Cue → Engine → Option Engine
  unfolding arms play_routed
  play_step c e =
      if not (enabled c) || (not (base c).retriggerable && cue_is_active (qid c) e)
      then some e
      else arms c e >>= λ armed. play_routed c (if armed then start_clock e else e)

module _ (show : Show) (audio : Audio) where
  unfoldable pub play_cue : ℕ → Cue → Engine → Option Engine
  unfolding play_step
  play_cue zero c e = none
  play_cue (suc fuel) c e = play_step show audio (play_cue fuel) c e
