-- ===== src/Engine/Seeks.antt =====
-- crates/cuepool/src/engine.rs: where a seek of `ShowEngine` takes an active cue.
use cue_pool.Base.{
  ℕ, ◌-◌, ◌*◌, ◌/◌, ◌≤◌, ◌<◌, ◌≡◌, refl, sym, subst, ap, ◌∙◌, Bool, true, false, Option, none, some,
  arith, min, max, Bool-cases, ◌+◌, ◌⊎◌, not, ◌&&◌, leb, ◌==◌, Option-cases, inl, inr,
  if◌then◌else◌,
}
use native.Mathlib.Nat.{mul-div_cancel, mul-le-mul_right, div-le_of_le-mul, div-mul-le_self}
use cue_pool.Base.Int.{ℤ, pos}
use cue_pool.Mixer.{cancel_fade, start_fade}
use cue_pool.Mixer
use cue_pool.Engine.State.{ActiveCue}
use cue_pool.Engine.Transport.{
  get_or_ℕ, tail_fade_after_seek, active_cue_length_samples, seek_audio_cue,
}
use cue_pool.Engine.Keeps.{if-keep}
use cue_pool.Engine.Stops.{fade_frames}

-- The level of a cue without its own fade: where that has started, the level that it started from.
abbrev pub level_before : ActiveCue → ℤ
level_before c = if c.fade_out_started then c.input.fade.fade_start else c.input.volume

-- The cue's own fade is on, from the level before it to silence over the cue's fade time, or it is off,
-- which leaves the level before it and any other fade as it was.
pub FadeIs : Bool → ActiveCue → ActiveCue → Type 0
FadeIs true c c' =
    (c'.fade_out_started ≡ true)
    × (c'.input.fade.fade_active ≡ true)
    × (c'.input.fade.fade_start ≡ level_before c)
    × (c'.input.fade.fade_target ≡ pos 0)
    × (c'.input.fade.fade_remaining ≡ max (fade_frames c.fade_out c.input.source.rate) 1)
    × (c'.input.fade.fade_type ≡ c.fade_type)
FadeIs false c c' =
    (c'.fade_out_started ≡ false)
    × (c'.input.volume ≡ level_before c)
    × (c'.input.fade.fade_active ≡ (not c.fade_out_started && c.input.fade.fade_active))

tail_fade_after_seek-at :
    (samples length : ℕ) (c : ActiveCue)
    → (tail_fade_after_seek samples length c).input.source.at ≡ c.input.source.at
unfolding tail_fade_after_seek cancel_fade start_fade
tail_fade_after_seek-at samples length c = ground arith

-- Frames that lie before a time, turned back into a time, do not pass it.
frames-time :
    (target rate channels samples : ℕ)
    → 0 < rate
    → 0 < channels
    → samples ≤ target * rate / 1_000_000_000 * channels
    → samples / channels * 1_000_000_000 / rate ≤ target
frames-time target rate channels samples r h k =
    let frames : samples / channels ≤ target * rate / 1_000_000_000 =
      div-le_of_le-mul channels (omega arith) in
    div-le_of_le-mul rate (
      omega (
        arith,
        mul-le-mul_right 1_000_000_000 frames,
        div-mul-le_self (target * rate) 1_000_000_000,
      ))

-- The frame of a sample of a cue, and its time in nanoseconds.
abbrev pub frame_of : ActiveCue → ℕ → ℕ
frame_of c sample = sample / max c.input.input_channels 1

abbrev pub time_of : ActiveCue → ℕ → ℕ
time_of c sample = frame_of c sample * 1_000_000_000 / max c.input.source.rate 1

-- A sample of a cue inside its length, at a time that is no later than the target, and less than one
-- frame before the target unless no whole frame follows; and the time is the position.
abbrev pub NearTarget : ActiveCue → ℕ → ℕ → ℕ → ℕ → Type 0
NearTarget c target length sample position =
    (sample < length)
    × (time_of c sample ≤ target)
    × ((target * max c.input.source.rate 1 < (frame_of c sample + 1) * 1_000_000_000)
        ⊎ (length ≤ sample + max c.input.input_channels 1))
    × (position ≡ time_of c sample)

-- What a seek gives: a cue of no known length, or of length zero, as it was and no position, or a cue
-- whose input stands near the target, and the position of the input.
pub Landed : ℕ → ActiveCue → ActiveCue × Option ℕ → Type 0
Landed target c (c', none) = (c' ≡ c) × (get_or_ℕ (active_cue_length_samples c) 0 ≡ 0)
Landed target c (c', some position) =
    (length : ℕ) × (active_cue_length_samples c ≡ some length)
    × NearTarget c target length c'.input.source.at position

module _ (target : ℕ) (c : ActiveCue) (length : ℕ)
    (known : active_cue_length_samples c ≡ some length) where
  abbrev moved_to : ℕ
  moved_to =
      min (target * max c.input.source.rate 1 / 1_000_000_000 * max c.input.input_channels 1)
        (length - max c.input.input_channels 1)

  inside : (length == 0) ≡ false → moved_to < length
  inside h = ground arith

  early :
      moved_to / max c.input.input_channels 1 * 1_000_000_000 / max c.input.source.rate 1 ≤ target
  early =
      frames-time target (max c.input.source.rate 1) (max c.input.input_channels 1) moved_to
        (omega arith) (omega arith) (omega arith)

  near :
      (target * max c.input.source.rate 1 < (frame_of c moved_to + 1) * 1_000_000_000)
      ⊎ (length ≤ moved_to + max c.input.input_channels 1)
  near =
      let frame = target * max c.input.source.rate 1 / 1_000_000_000 in
      let channels = max c.input.input_channels 1 in
      elim (Bool-cases (leb (frame * channels) (length - channels))) [
        | inl within ↦
            let here : moved_to ≡ frame * channels = ground (arith, within) in
            let back : frame * channels / channels ≡ frame = mul-div_cancel frame (omega arith) in
            inl (
              subst (λ f. target * max c.input.source.rate 1 < (f + 1) * 1_000_000_000)
                (sym (ap (λ n. n / channels) here ∙ back)) (omega arith))
        | inr beyond ↦ inr (ground (arith, beyond))
      ]

  at_target :
      (b : Bool)
      → (if b
          then tail_fade_after_seek moved_to length
              (record c { input = Mixer.seek moved_to c.input })
          else record c { input = Mixer.seek moved_to c.input }).input.source.at
        ≡ moved_to
  unfolding Mixer.seek
  at_target true = tail_fade_after_seek-at moved_to length _
  at_target false = refl

-- A seek of an active cue of known, positive length takes its input inside that length, to the frame of
-- the target or to the last whole frame, whichever is earlier, so to a time that is no later than the
-- target, and gives that time. Any other cue stays as it is.
pub seek_audio_cue-Landed : (target : ℕ) (c : ActiveCue) → Landed target c (seek_audio_cue target c)
unfolding Landed seek_audio_cue
seek_audio_cue-Landed target c = elim (Option-cases (active_cue_length_samples c)) [
  | inl off ↦ rw (off, seek_audio_cue) (refl, ap (λ o. get_or_ℕ o 0) off)
  | inr (length, known) ↦
      rw (known, seek_audio_cue)
        (if-keep (Landed target c) (length == 0) (c, none) _
          (λ zero_long. (refl, ap (λ o. get_or_ℕ o 0) known ∙ ground arith))
          (λ long. (
            length,
            known,
            subst (λ n. NearTarget c target length n (time_of c (moved_to target c length known)))
                (sym (at_target target c length known _))
                (
                  inside target c length known long,
                  early target c length known,
                  near target c length known,
                  refl,
                ),
          )))
]
