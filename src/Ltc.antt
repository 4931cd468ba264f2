-- ===== src/Ltc.antt =====
-- crates/cuepool-protocols/src/ltc.rs: linear timecode. Here are the numbers of frames and their labels,
-- the generator that follows the show clock, and the 80 bits of a frame with the shift register that
-- finds them again. The signal between the two, f32 samples, is not modelled; a position in f64 seconds
-- is whole nanoseconds, and a rate is an exact fraction.
pub mod Labels
pub mod Generator
pub mod Frame
pub mod Codec
pub mod RoundTrip
pub mod Stream
use cue_pool.Base.{
  ℕ, zero, suc, ◌+◌, ◌-◌, ◌*◌, ◌/◌, ◌%◌, ◌^◌, Bool, true, false, List, [], ◌∷◌, ltb, if◌then◌else◌,
}
use cue_pool.Mtc.{MtcFrameRate, SmpteTime}

-- `other.fps() as u64`.
abbrev pub fps : MtcFrameRate → ℕ
fps MtcFrameRate.fps24 = 24
fps MtcFrameRate.fps25 = 25
fps MtcFrameRate.fps2997_drop = 29
fps MtcFrameRate.fps30 = 30

unfoldable pub frame_index : SmpteTime → ℕ
frame_index tc = elim tc.frame_rate [
  | MtcFrameRate.fps2997_drop ↦
      (let total_minutes = tc.hours * 60 + tc.minutes in
        (tc.hours * 3600 + tc.minutes * 60 + tc.seconds) * 30
        + tc.frames
        - 2 * (total_minutes - total_minutes / 10))
  | other ↦ (tc.hours * 3600 + tc.minutes * 60 + tc.seconds) * fps other + tc.frames
]

abbrev pub label : ℕ → ℕ → ℕ → ℕ → MtcFrameRate → SmpteTime
label hours minutes seconds frames rate = record {
  hours = hours % 2 ^ 8;
  minutes = minutes % 2 ^ 8;
  seconds = seconds % 2 ^ 8;
  frames = frames % 2 ^ 8;
  frame_rate = rate;
}

abbrev pub drop_label : ℕ → ℕ → ℕ → ℕ → SmpteTime
drop_label tens minute_in_block seconds frames =
    let total_minutes = tens * 10 + minute_in_block in
    label (total_minutes / 60) (total_minutes % 60) seconds frames MtcFrameRate.fps2997_drop

-- A block of ten minutes has 1800 frames in its first minute and 1798 in each of the others.
abbrev pub drop_frame_label : ℕ → SmpteTime
drop_frame_label index =
    let tens = index / 17_982 in
    let rem = index % 17_982 in
    if ltb rem 1_800
    then drop_label tens 0 (rem / 30) (rem % 30)
    else (let r = rem - 1_800 in
        drop_label tens (1 + r / 1_798) (r % 1_798 / 30) (r % 1_798 % 30 + 2))

abbrev pub whole_label : ℕ → ℕ → MtcFrameRate → SmpteTime
whole_label index fps rate =
    let total_seconds = index / fps in
    label (total_seconds / 3_600) (total_seconds / 60 % 60) (total_seconds % 60) (index % fps) rate

unfoldable pub frame_label : ℕ → MtcFrameRate → SmpteTime
frame_label index MtcFrameRate.fps2997_drop = drop_frame_label (index % 2_589_408)
frame_label index MtcFrameRate.fps24 = whole_label (index % (86_400 * 24)) 24 MtcFrameRate.fps24
frame_label index MtcFrameRate.fps25 = whole_label (index % (86_400 * 25)) 25 MtcFrameRate.fps25
frame_label index MtcFrameRate.fps30 = whole_label (index % (86_400 * 30)) 30 MtcFrameRate.fps30

-- `exact_fps`, as a numerator and a denominator.
abbrev pub exact_fps : MtcFrameRate → ℕ × ℕ
exact_fps MtcFrameRate.fps24 = (24, 1)
exact_fps MtcFrameRate.fps25 = (25, 1)
exact_fps MtcFrameRate.fps2997_drop = (30_000, 1_001)
exact_fps MtcFrameRate.fps30 = (30, 1)

pub record LtcGenerator : Type 0 where
  pub rate : MtcFrameRate
  pub start_frame : ℕ
  pub next_frame : ℕ

-- `(start_secs * exact_fps(rate)).round()`.
abbrev pub new_generator : MtcFrameRate → ℕ → LtcGenerator
new_generator rate start =
    let start_frame =
      (start * (exact_fps rate).0 * 2 + (exact_fps rate).1 * 1_000_000_000)
      / ((exact_fps rate).1 * 2_000_000_000) in
    record { rate = rate; start_frame = start_frame; next_frame = start_frame }

abbrev pub target_frame : LtcGenerator → ℕ → ℕ
target_frame g show =
    g.start_frame + show * (exact_fps g.rate).0 / ((exact_fps g.rate).1 * 1_000_000_000)

-- The labels of `n` frames from `next` on.
abbrev pub labels_from : MtcFrameRate → ℕ → ℕ → List SmpteTime
labels_from rate next zero = []
labels_from rate next (suc n) = frame_label next rate ∷ labels_from rate (next + 1) n

-- The labels that are encoded, and whether the position has jumped backwards.
unfoldable pub encode_up_to : LtcGenerator → ℕ → LtcGenerator × List SmpteTime × Bool
encode_up_to g show =
    let target = target_frame g show in
    let reanchored = ltb (target + 1) g.next_frame in
    let next = if reanchored then target else g.next_frame in
    (
      record g { next_frame = next + (target + 1 - next) },
      labels_from g.rate next (target + 1 - next),
      reanchored,
    )

abbrev pub reset : LtcGenerator → LtcGenerator
reset g = record g { next_frame = g.start_frame }
