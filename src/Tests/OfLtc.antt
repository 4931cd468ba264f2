-- ===== src/Tests/OfLtc.antt =====
-- Concrete runs of the linear timecode of crates/cuepool-protocols/src/ltc.rs.
use cue_pool.Base.{ℕ, ◌-◌, ◌≤◌, ◌≡◌, refl, List, [], ◌∷◌, inl, inr, filter_by, arith}
use cue_pool.Mtc.{MtcFrameRate, SmpteTime}
use cue_pool.Ltc.{
  frame_index, frame_label, LtcGenerator, new_generator, labels_from, target_frame, encode_up_to,
}
use cue_pool.Ltc.Labels.{Label, shown, frame_label-frame_index}
use cue_pool.Ltc.Generator.{encode_all, next_due, encode_all-labels}
use cue_pool.Ltc.Frame.{new_ltc_decoder, push_all, push_bit, frame_bits}
use cue_pool.Ltc.Stream.{Wire, frames_of, on_clock, push_all-frames}

-- One second after the first minute, in drop-frame.
abbrev minute_one : SmpteTime
minute_one = record {
  hours = 0;
  minutes = 1;
  seconds = 1;
  frames = 0;
  frame_rate = MtcFrameRate.fps2997_drop;
}

abbrev last_frame : SmpteTime
last_frame = record {
  hours = 23;
  minutes = 59;
  seconds = 59;
  frames = 29;
  frame_rate = MtcFrameRate.fps30;
}

abbrev stray : SmpteTime
stray = record {
  hours = 0;
  minutes = 1;
  seconds = 0;
  frames = 30;
  frame_rate = MtcFrameRate.fps2997_drop;
}

slipped : frame_label (frame_index minute_one) MtcFrameRate.fps2997_drop ≡ stray
unfolding frame_index frame_label
slipped = refl

read_back :
    (push_all 30_000 new_ltc_decoder (frames_of (last_frame ∷ stray ∷ last_frame ∷ []))).1
    ≡ last_frame ∷ last_frame ∷ []
unfolding push_all push_bit frame_bits
read_back = refl

minute_one-Label : Label minute_one
minute_one-Label = record {
  hours = omega arith;
  minutes = omega arith;
  seconds = omega arith;
  frames = (omega arith, inr (inl (omega arith)));
}

frame_label-frame_index_example :
    frame_label (frame_index minute_one) MtcFrameRate.fps2997_drop ≡ shown minute_one
frame_label-frame_index_example = frame_label-frame_index minute_one minute_one-Label

-- An hour into the show, at 25 frames per second.
abbrev at_one_hour : LtcGenerator
at_one_hour = new_generator MtcFrameRate.fps25 3_600_000_000_000

abbrev positions : List ℕ
positions = 0 ∷ 30_000_000 ∷ 100_000_000 ∷ 100_000_000 ∷ []

three_frames : (encode_all at_one_hour positions).1 ≡ labels_from MtcFrameRate.fps25 90_000 3
unfolding encode_all encode_up_to
three_frames = refl

encode_all-labels_example :
    (encode_all at_one_hour positions ≡ (
      record at_one_hour { next_frame = next_due (target_frame at_one_hour) 90_000 positions },
      labels_from MtcFrameRate.fps25 90_000
          (next_due (target_frame at_one_hour) 90_000 positions - 90_000),
    ))
    × (90_000 ≤ next_due (target_frame at_one_hour) 90_000 positions)
encode_all-labels_example =
    encode_all-labels at_one_hour 0 positions (omega arith)
      (omega arith, (omega arith, (omega arith, (omega arith, tt))))

last_frame-Wire : Wire last_frame
last_frame-Wire = record {
  hours = omega arith;
  minutes = omega arith;
  seconds = omega arith;
  frames = omega arith;
}

stray-Wire : Wire stray
stray-Wire = record {
  hours = omega arith;
  minutes = omega arith;
  seconds = omega arith;
  frames = omega arith;
}

push_all-frames_example :
    (push_all 30_000 new_ltc_decoder (frames_of (last_frame ∷ stray ∷ []))).1
    ≡ filter_by on_clock (last_frame ∷ stray ∷ [])
push_all-frames_example =
    push_all-frames 30_000 new_ltc_decoder (last_frame ∷ stray ∷ []) (refl, (refl, tt))
      ((last_frame-Wire, omega arith), ((stray-Wire, omega arith), tt))
