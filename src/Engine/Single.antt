-- ===== src/Engine/Single.antt =====
-- crates/cuepool/src/engine.rs: what a stop of one cue stops.
use cue_pool.Base.{
  ℕ, ◌≡◌, refl, ap, sym, subst, ◌∙◌, Bool, true, false, not, List, [], ◌∷◌, map, arith,
  if◌then◌else◌, ◌==◌, filter_by, any_by, All, max, ◌<◌, ◌/◌, ltb, ltb→lt, ◌*◌, ◌⊎◌, Bool-cases,
  inl, inr,
}
use native.Mathlib.Nat.{mul-div_cancel}
use cue_pool.Base.Int.{pos}
use cue_pool.Mixer.{render_input, end_fade, start_fade, set_volume, set_active}
use cue_pool.Cue.{FadeType, StopMode, qid, is_loop_end}
use cue_pool.Engine.State.{Engine, Audio, ActiveCue, DelayedCue, EngineAction}
use cue_pool.Engine.Stops.{
  push, fade_frames, is_video_of, is_picture_of, stop_cue, cancel_waiting, stop_pictures,
  stop_single,
}
use cue_pool.Engine.Ticks.{is_done}

any-filter :
    {A : Type 0} (p : A → Bool) (xs : List A) → any_by p (filter_by (λ x. not (p x)) xs) ≡ false
any-filter p [] = refl
any-filter p (x ∷ xs) = ground (arith, any-filter p xs)

-- A cue that is off: its input makes no sound, and it is done.
abbrev pub Off : ActiveCue → Type 0
Off c = (c.input.active ≡ false) × (c.input.volume ≡ pos 0) × (is_done c.state ≡ true)

-- A cue that fades out over a number of frames: its input is on the way to silence, and off once the
-- mixer has rendered those frames.
abbrev pub FadesOut : ℕ → ActiveCue → Type 0
FadesOut frames c =
    (c.fade_out_started ≡ true)
    × (c.input.fade.fade_active ≡ true)
    × (c.input.fade.fade_target ≡ pos 0)
    × (c.input.fade.fade_remaining ≡ frames)
    × ((render_input (frames * max c.input.input_channels 1) c.input).active ≡ false)

-- The cue is off, or fades out over the fade time of the stop, if it has one.
abbrev pub Silenced : ℕ → ℕ → ActiveCue → Type 0
Silenced rate fade c =
    ((fade ≡ 0) × Off c) ⊎ ((0 < fade) × FadesOut (max (fade_frames fade rate) 1) c)

-- All active cues of a number are silenced.
abbrev pub AllSilenced : ℕ → ℕ → ℕ → List ActiveCue → Type 0
AllSilenced q rate fade = All (λ (c : ActiveCue). (c.qid == q) ≡ true → Silenced rate fade c)

stop_cue-Silenced :
    (rate fade : ℕ) (mode : StopMode) (kind : FadeType) (c : ActiveCue)
    → is_loop_end mode ≡ false
    → Silenced rate fade (stop_cue mode fade kind rate c)
unfolding stop_cue render_input end_fade start_fade set_volume set_active
stop_cue-Silenced rate fade mode kind c h = elim (Bool-cases (ltb 0 fade)) [
  | inl some_time ↦
      let frames = max (fade_frames fade rate) 1 in
      let channels = max c.input.input_channels 1 in
      let rendered : frames * channels / channels ≡ frames = mul-div_cancel frames (omega arith) in
      let something : (frames * channels == 0) ≡ false = grind arith in
      rw (h, some_time)
        (inr
          (ltb→lt 0 fade some_time, (refl, refl, refl, refl, ground (arith, rendered, something))))
  | inr at_once ↦ rw (h, at_once) (inl (ground (arith, at_once), (refl, refl, refl)))
]

stopped-all :
    (q rate fade : ℕ) (mode : StopMode) (kind : FadeType) (cs : List ActiveCue)
    → is_loop_end mode ≡ false
    → AllSilenced q rate fade
        (map (λ (c : ActiveCue). if c.qid == q then stop_cue mode fade kind rate c else c) cs)
stopped-all q rate fade mode kind [] h = tt
stopped-all q rate fade mode kind (c ∷ cs) h = (
  elim (Bool-cases (c.qid == q)) [
    | inl same ↦ rw same (λ e. stop_cue-Silenced rate fade mode kind c h)
    | inr other ↦ rw other (λ e. cc)
  ],
  stopped-all q rate fade mode kind cs h,
)

stop_cue-qid :
    (mode : StopMode) (fade : ℕ) (kind : FadeType) (rate : ℕ) (c : ActiveCue)
    → (stop_cue mode fade kind rate c).qid ≡ c.qid
unfolding stop_cue
stop_cue-qid mode fade kind rate c = ground arith

others-map :
    (q : ℕ) (f : ActiveCue → ActiveCue) (cs : List ActiveCue)
    → ((c : ActiveCue) → (f c).qid ≡ c.qid)
    → filter_by
        (λ (c : ActiveCue). not (c.qid == q))
        (map (λ (c : ActiveCue). if c.qid == q then f c else c) cs)
      ≡ filter_by (λ (c : ActiveCue). not (c.qid == q)) cs
others-map q f [] h = refl
others-map q f (c ∷ cs) h = ground (arith, others-map q f cs h, h c)

-- What `stop_pictures` leaves, and what it does not touch.
record Cleared (q : ℕ) (e e' : Engine) : Type 0 where
  pub video : is_video_of q e'.current_video ≡ false
  pub picture : is_picture_of q e'.current_picture_qid ≡ false
  pub cues : e'.active_cues ≡ e.active_cues
  pub delays : e'.delayed_cues ≡ e.delayed_cues
  pub windows : e'.active_timecodes ≡ e.active_timecodes

stop_pictures-Cleared : (q fade : ℕ) (e : Engine) → Cleared q e (stop_pictures q fade e)
unfolding stop_pictures
stop_pictures-Cleared q fade e = record {
  video = ground arith;
  picture = ground arith;
  cues = ground arith;
  delays = ground arith;
  windows = ground arith;
}

-- Nothing of a number plays on or waits in the second engine: each active cue of the number is silenced,
-- and no delayed cue, timecode window, video or still picture has it. The active cues of other numbers
-- are those of the first engine.
pub record Stopped (q rate fade : ℕ) (e e' : Engine) : Type 0 where
  pub cues : AllSilenced q rate fade e'.active_cues
  pub delays : any_by (λ (d : DelayedCue). qid d.cue == q) e'.delayed_cues ≡ false
  pub windows : any_by (λ (t : ℕ × ℕ). t.0 == q) e'.active_timecodes ≡ false
  pub video : is_video_of q e'.current_video ≡ false
  pub picture : is_picture_of q e'.current_picture_qid ≡ false
  pub others :
      filter_by (λ (c : ActiveCue). not (c.qid == q)) e'.active_cues
      ≡ filter_by (λ (c : ActiveCue). not (c.qid == q)) e.active_cues

abbrev marked : Audio → ℕ → StopMode → ℕ → FadeType → Engine → Engine
marked audio q mode fade kind e = record e {
  active_cues =
      map (λ (c : ActiveCue). if c.qid == q then stop_cue mode fade kind audio.output_rate c else c)
        e.active_cues;
}

stop_single-at_once :
    (audio : Audio) (q : ℕ) (mode : StopMode) (fade : ℕ) (kind : FadeType) (e : Engine)
    → is_loop_end mode ≡ false
    → push
        (EngineAction.stop_external q mode fade kind)
        (stop_pictures q fade (cancel_waiting q (marked audio q mode fade kind e)))
      ≡ stop_single audio q mode fade kind e
unfolding stop_single
stop_single-at_once audio q mode fade kind e h =
    ap
      (λ b. push (EngineAction.stop_external q mode fade kind) (
        if b
        then marked audio q mode fade kind e
        else stop_pictures q fade (cancel_waiting q (marked audio q mode fade kind e))))
      (sym h)

-- A stop of a cue that does not wait for the loop's end leaves nothing of its number that plays on or
-- waits: the inputs of its active cues are off, or are when the fade time of the stop has been rendered,
-- and nothing else has the number. The active cues of other numbers are left as they are.
pub stop_single-Stopped :
    (audio : Audio) (q : ℕ) (mode : StopMode) (fade : ℕ) (kind : FadeType) (e : Engine)
    → is_loop_end mode ≡ false
    → Stopped q audio.output_rate fade e (stop_single audio q mode fade kind e)
unfolding cancel_waiting
stop_single-Stopped audio q mode fade kind e h =
    let left = stop_pictures-Cleared q fade (cancel_waiting q (marked audio q mode fade kind e)) in
    subst (Stopped q audio.output_rate fade e) (stop_single-at_once audio q mode fade kind e h)
      (record {
        cues =
            subst (AllSilenced q audio.output_rate fade) (sym left.cues)
              (stopped-all q audio.output_rate fade mode kind e.active_cues h);
        delays =
            ap (any_by (λ (d : DelayedCue). qid d.cue == q)) left.delays
            ∙ any-filter (λ (d : DelayedCue). qid d.cue == q) e.delayed_cues;
        windows =
            ap (any_by (λ (t : ℕ × ℕ). t.0 == q)) left.windows
            ∙ any-filter (λ (t : ℕ × ℕ). t.0 == q) e.active_timecodes;
        video = left.video;
        picture = left.picture;
        others =
            ap (filter_by (λ (c : ActiveCue). not (c.qid == q))) left.cues
            ∙ others-map q (stop_cue mode fade kind audio.output_rate) e.active_cues
                (stop_cue-qid mode fade kind audio.output_rate);
      })
