-- ===== src/Ltc/Labels.antt =====
-- How frame numbers and labels of crates/cuepool-protocols/src/ltc.rs belong to one another.
use cue_pool.Base.{
  ℕ, ◌+◌, ◌-◌, ◌*◌, ◌/◌, ◌%◌, ◌≤◌, ◌<◌, ◌≡◌, ◌∙◌, ap, ◌⊎◌, inl, inr, refl, Bool, false, not, ◌&&◌,
  ◌==◌, ltb, if◌then◌else◌, if-keep, Bool-cases, arith,
}
use cue_pool.Mtc.{MtcFrameRate, SmpteTime}
use cue_pool.Ltc.{frame_index, frame_label, drop_frame_label, drop_label}

-- The frames of a day.
abbrev pub day : MtcFrameRate → ℕ
day MtcFrameRate.fps24 = 86_400 * 24
day MtcFrameRate.fps25 = 86_400 * 25
day MtcFrameRate.fps2997_drop = 2_589_408
day MtcFrameRate.fps30 = 86_400 * 30

drop_label-index :
    (tens m s f : ℕ)
    → tens < 144
    → m < 10
    → s < 60
    → f < 256
    → (m ≡ 0) ⊎ (2 ≤ s * 30 + f)
    → frame_index (drop_label tens m s f) ≡ tens * 17_982 + m * 1_798 + s * 30 + f
unfolding frame_index
drop_label-index tens m s f h1 h2 h3 h4 h5 = ground arith

-- The number of a frame is read back from its label, at every rate; numbers beyond a day start again.
frame_index-frame_label :
    (index : ℕ) (rate : MtcFrameRate) → frame_index (frame_label index rate) ≡ index % day rate
unfolding frame_index frame_label
frame_index-frame_label index MtcFrameRate.fps24 = ground arith
frame_index-frame_label index MtcFrameRate.fps25 = ground arith
frame_index-frame_label index MtcFrameRate.fps2997_drop =
    let n = index % 2_589_408 in
    let rem = n % 17_982 in
    let r = rem - 1_800 in
    if-keep (λ tc. frame_index tc ≡ n) (ltb rem 1_800)
      (drop_label (n / 17_982) 0 (rem / 30) (rem % 30))
      (drop_label (n / 17_982) (1 + r / 1_798) (r % 1_798 / 30) (r % 1_798 % 30 + 2))
      (λ first.
        drop_label-index (n / 17_982) 0 (rem / 30) (rem % 30) (omega arith) (omega arith)
          (ground arith) (omega arith) (inl refl)
        ∙ omega arith)
      (λ later.
        drop_label-index (n / 17_982) (1 + r / 1_798) (r % 1_798 / 30) (r % 1_798 % 30 + 2)
          (omega arith) (omega arith) (omega arith) (omega arith) (inr (omega arith))
        ∙ ground arith)
frame_index-frame_label index MtcFrameRate.fps30 = ground arith

abbrev pub FrameOf : MtcFrameRate → ℕ → ℕ → ℕ → Type 0
FrameOf MtcFrameRate.fps2997_drop minutes seconds frames =
    (frames < 30) × ((2 ≤ frames) ⊎ (0 < seconds) ⊎ (minutes % 10 ≡ 0))
FrameOf MtcFrameRate.fps24 minutes seconds frames = frames < 24
FrameOf MtcFrameRate.fps25 minutes seconds frames = frames < 25
FrameOf MtcFrameRate.fps30 minutes seconds frames = frames < 30

-- A label that occurs: drop-frame counting leaves out frames 0 and 1 of every minute but each tenth.
pub record Label (tc : SmpteTime) : Type 0 where
  pub hours : tc.hours < 24
  pub minutes : tc.minutes < 60
  pub seconds : tc.seconds < 60
  pub frames : FrameOf tc.frame_rate tc.minutes tc.seconds tc.frames

-- The first two frames of a second of a drop-frame minute that leaves numbers out.
abbrev pub is_slipped : SmpteTime → Bool
is_slipped tc = elim tc.frame_rate [
  | MtcFrameRate.fps2997_drop ↦ not (tc.minutes % 10 == 0) && ltb tc.frames 2
  | _ ↦ false
]

abbrev pub shown : SmpteTime → SmpteTime
shown tc =
    if is_slipped tc then record tc { seconds = tc.seconds - 1; frames = tc.frames + 30 } else tc

abbrev label_of : ℕ → ℕ → ℕ → ℕ → MtcFrameRate → SmpteTime
label_of h m s f rate = record {
  hours = h;
  minutes = m;
  seconds = s;
  frames = f;
  frame_rate = rate;
}

-- A drop-frame number in its block of ten minutes, minute and second.
first_minute :
    (t s f : ℕ)
    → s < 60
    → f < 30
    → drop_frame_label (t * 17_982 + (s * 30 + f)) ≡ drop_label t 0 s f
first_minute t s f h1 h2 = ground arith

later_minute :
    (t u s f : ℕ)
    → u < 9
    → s < 60
    → f < 30
    → drop_frame_label (t * 17_982 + (1_800 + u * 1_798 + (s * 30 + f - 2)))
      ≡ drop_label t (1 + u) ((s * 30 + f - 2) / 30) ((s * 30 + f - 2) % 30 + 2)
later_minute t u s f h1 h2 h3 = ground arith

drop_frame_label-shown :
    (h m s f : ℕ)
    → h < 24
    → m < 60
    → s < 60
    → f < 30
    → (2 ≤ f) ⊎ (0 < s) ⊎ (m % 10 ≡ 0)
    → drop_frame_label (frame_index (label_of h m s f MtcFrameRate.fps2997_drop) % 2_589_408)
      ≡ shown (label_of h m s f MtcFrameRate.fps2997_drop)
unfolding frame_index
drop_frame_label-shown h m s f h1 h2 h3 h4 h5 = elim (Bool-cases (m % 10 == 0)) [
  | inl tenth ↦
      ap drop_frame_label (number_tenth (ground arith))
      ∙ first_minute (h * 6 + m / 10) s f h3 h4
      ∙ ground arith
  | inr other ↦
      ap drop_frame_label (number_other (ground arith))
      ∙ later_minute (h * 6 + m / 10) (m % 10 - 1) s f (omega arith) h3 h4
      ∙ ground arith
]
  where
    number : ℕ
    number = (h * 3600 + m * 60 + s) * 30 + f - 2 * (h * 60 + m - (h * 60 + m) / 10)

    number_tenth : m % 10 ≡ 0 → number % 2_589_408 ≡ (h * 6 + m / 10) * 17_982 + (s * 30 + f)
    number_tenth e = omega arith

    number_other :
        0 < m % 10
        → number % 2_589_408
          ≡ (h * 6 + m / 10) * 17_982 + (1_800 + (m % 10 - 1) * 1_798 + (s * 30 + f - 2))
    number_other e = ground arith

frame_label-shown :
    (h m s f : ℕ) (rate : MtcFrameRate)
    → Label (label_of h m s f rate)
    → frame_label (frame_index (label_of h m s f rate)) rate ≡ shown (label_of h m s f rate)
unfolding frame_label frame_index
frame_label-shown h m s f MtcFrameRate.fps24 l = ground arith
frame_label-shown h m s f MtcFrameRate.fps25 l = ground arith
frame_label-shown h m s f MtcFrameRate.fps30 l = ground arith
frame_label-shown h m s f MtcFrameRate.fps2997_drop l =
    drop_frame_label-shown h m s f l.hours l.minutes l.seconds l.frames.0 l.frames.1

-- The label that the number of an occurring label is given: it is that label, but for frames 0 and 1
-- of a second of a drop-frame minute that leaves numbers out. Those come out as frames 30 and 31 of
-- the second before.
pub frame_label-frame_index :
    (tc : SmpteTime) → Label tc → frame_label (frame_index tc) tc.frame_rate ≡ shown tc
frame_label-frame_index tc l =
    frame_label-shown tc.hours tc.minutes tc.seconds tc.frames tc.frame_rate l
