-- ===== src/Engine/Play.antt =====
-- crates/cuepool/src/engine.rs: how `ShowEngine` plays a cue. `play_cue` calls itself for a group's
-- members and for the cue that follows by itself; the step takes those calls as an argument, and
-- `play_cue` runs it on fuel.
use cue_pool.Base.{
  ℕ, ◌+◌, ◌-◌, ◌*◌, ◌/◌, ◌%◌, ◌^◌, Bool, true, false, not, ◌&&◌, ◌||◌, Option, none, some, List, [],
  ◌∷◌, ◌++◌, if◌then◌else◌, ◌==◌, ltb, any_by, min, max,
}
use cue_pool.Base.Int.{ℤ, pos, negsuc}
use cue_pool.Base.Text.{Text, trim, text_eq}
use cue_pool.Cue.{Cue, CueBase, Media, LoopMode, base, qid}
use cue_pool.Mixer.{MixerInput, set_volume, set_pan, set_routing, set_active}
use cue_pool.Engine.State.{
  Engine, Audio, Settings, ActiveCue, CueState, EngineAction, EngineTrace, CurrentVideo, Alert,
  Decoder, CueChainParams, next_id,
}
use cue_pool.Engine.Stops.{push, push_trace, is_video_of, is_picture_of}
use cue_pool.Engine.Transport.{is_playing, is_paused_state}

pub data RemoteRouting : Type 0 where
  local : RemoteRouting
  remote local_remote_control_off : Text → RemoteRouting

abbrev pub is_empty : Text → Bool
is_empty [] = true
is_empty (_ ∷ _) = false

unfoldable pub resolve_remote_routing : CueBase → Settings → RemoteRouting
unfolding trim
resolve_remote_routing b settings =
    let target = trim b.remote_node in
    if is_empty target || text_eq target (trim settings.node_name)
    then RemoteRouting.local
    else if not settings.enable_remote_control
    then RemoteRouting.local_remote_control_off target
    else RemoteRouting.remote target

abbrev pub is_sounding : CueState → Bool
is_sounding s = is_playing s || is_paused_state s

unfoldable pub cue_is_active : ℕ → Engine → Bool
cue_is_active q e =
    is_video_of q e.current_video
    || is_picture_of q e.current_picture_qid
    || any_by (λ (c : ActiveCue). c.qid == q && is_sounding c.state) e.active_cues

-- The show clock starts: zero is now.
unfoldable pub start_clock : Engine → Engine
start_clock e = record e {
  show_start = some e.now;
  show_paused_offset = 0;
  show_adjustment = pos 0;
  show_pause_started = if e.paused then some e.now else none;
}

abbrev pub is_none {ℓ} : {A : Type ℓ} → Option A → Bool
is_none none = true
is_none (some _) = false

abbrev pub alert : Alert → Engine → Engine
alert a e = record e { alerts = e.alerts ++ a ∷ [] }

abbrev pub is_ready : CueState → Bool
is_ready CueState.ready = true
is_ready _ = false

abbrev pub is_looped : LoopMode → Bool
is_looped LoopMode.looped = true
is_looped LoopMode.looped_infinite = true
is_looped _ = false

-- A preloaded cue that `play_cue` finds: the list with it started, and its instance.
unfoldable pub start_ready : Cue → List ActiveCue → Option (List ActiveCue × ℕ)
unfolding set_active
start_ready c [] = none
start_ready c (a ∷ as') =
    if a.qid == qid c && is_ready a.state
    then some (
      record a {
        input = set_active true a.input;
        state = if is_looped (base c).loop_mode then CueState.playing_looped else CueState.playing;
      }
          ∷ as',
      a.instance_id,
    )
    else (elim (start_ready c as') [ none ↦ none | some (rest, i) ↦ some (a ∷ rest, i) ])

-- Seconds to frames, `(secs * rate) as u64`, on nanoseconds.
abbrev pub to_frames : ℕ → ℕ → ℕ
to_frames time rate = time * rate / 1_000_000_000

-- i32 `as u32`.
abbrev pub as_u32 : ℤ → ℕ
as_u32 (pos n) = n % 2 ^ 32
as_u32 (negsuc n) = 2 ^ 32 - 1 - n % 2 ^ 32

unfoldable pub effective_end : ℕ → Option ℕ → ℕ
effective_end requested none = requested
effective_end requested (some source_end) =
    if requested == 0 then source_end else min requested source_end

module _ (audio : Audio) where
  -- The chain that `play_audio` asks for.
  abbrev pub chain_params : CueBase → Media → Decoder → CueChainParams
  chain_params b m d =
      let start = to_frames m.start_time d.sample_rate in
      record {
        start_frame = start;
        end_frame = if ltb 0 m.duration then start + to_frames m.duration d.sample_rate else 0;
        loop_mode = b.loop_mode;
        loop_count = as_u32 b.loop_count;
        fade_in = m.fade_in;
        fade_type = m.fade_type;
      }

  -- The audio engine gives a loop counter exactly to the modes that loop.
  unfoldable pub new_active_cue : CueBase → Media → Decoder → MixerInput → Bool → ℕ → ActiveCue
  unfolding set_volume set_pan set_routing set_active effective_end
  new_active_cue b m d input preload_only instance =
      let p = chain_params b m d in
      let source_end : Option ℕ = elim d.length [
        | none ↦ none
        | some samples ↦ some (samples / max d.channels 1)
      ] in
      let levelled =
        set_routing m.routing.out_pair m.routing.send m.routing.crosspoints
          (set_pan m.pan (set_volume m.volume input)) in
      record {
        instance_id = instance;
        qid = b.qid;
        name = b.name;
        input = if preload_only then set_active false levelled else levelled;
        state =
            if preload_only
            then CueState.ready
            else if is_looped b.loop_mode
            then CueState.playing_looped
            else CueState.playing;
        loop_counter = is_looped b.loop_mode;
        video_loop_count = 0;
        video_loop_limit = elim b.loop_mode [
          | LoopMode.looped ↦ some (as_u32 b.loop_count - 1)
          | _ ↦ none
        ];
        loop_start_frame = p.start_frame * audio.output_rate / d.sample_rate;
        loop_end_frame = effective_end p.end_frame source_end * audio.output_rate / d.sample_rate;
        fade_out = m.fade_out;
        fade_type = m.fade_type;
        fade_out_started = false;
        pending_stop = none;
        follow_after_last = true;
      }

  abbrev pub resolved_path : Text → Text
  resolved_path path = elim (audio.resolve_path path) [ none ↦ path | some p ↦ p ]

  -- The decoder and the mixer input, where the output, the file and the chain allow it.
  unfoldable pub open_audio : CueBase → Media → Option (Decoder × MixerInput)
  open_audio b m =
      if not audio.usable then none else elim (audio.open_file (resolved_path m.path)) [
        | none ↦ none
        | some d ↦ elim (audio.play_chain (resolved_path m.path) (chain_params b m d)) [
          | none ↦ none
          | some input ↦ some (d, input)
        ]
      ]

  -- `play_audio`: the engine, and the instance that it started.
  unfoldable pub play_audio : CueBase → Media → Bool → Engine → Engine × Option ℕ
  unfolding open_audio new_active_cue
  play_audio b m preload_only e = elim (open_audio b m) [
    | none ↦ (e, none)
    | some (d, input) ↦
        let instance = e.next_active_cue_instance_id in
        let added : Engine = record e {
          next_active_cue_instance_id = next_id instance;
          active_cues = e.active_cues ++ new_active_cue b m d input preload_only instance ∷ [];
        } in
        (
          if preload_only
              then added
              else push_trace (EngineTrace.cue_started b.qid (some instance)) added,
          some instance,
        )
  ]

unfoldable pub push_video_action : CurrentVideo → Engine → Engine
push_video_action v e =
    let started : CurrentVideo = record v {
      epoch = next_id v.epoch;
      clock_origin = e.now;
      paused_position = if e.paused then some 0 else none;
    } in
    push (EngineAction.play_video started) (record e { current_video = some started })
