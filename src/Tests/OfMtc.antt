-- ===== src/Tests/OfMtc.antt =====
-- Concrete runs of the MIDI timecode decoder (crates/cuepool-protocols/src/midi/mtc.rs).
use cue_pool.Base.{◌≡◌, refl, none, [], ◌∷◌, arith}
use cue_pool.Mtc.{MtcFrameRate, SmpteTime, new_decoder, feed_all, parse_full_frame}
use cue_pool.Mtc.Streams.{Smpte, stream, feed_all-stream}

abbrev late : SmpteTime
late = record {
  hours = 21;
  minutes = 59;
  seconds = 58;
  frames = 29;
  frame_rate = MtcFrameRate.fps30;
}

abbrev early : SmpteTime
early = record {
  hours = 0;
  minutes = 0;
  seconds = 1;
  frames = 2;
  frame_rate = MtcFrameRate.fps2997_drop;
}

late-Smpte : Smpte late
late-Smpte = record {
  hours = omega arith;
  minutes = omega arith;
  seconds = omega arith;
  frames = omega arith;
}

early-Smpte : Smpte early
early-Smpte = record {
  hours = omega arith;
  minutes = omega arith;
  seconds = omega arith;
  frames = omega arith;
}

short_message : parse_full_frame (0xF0 ∷ 0x7F ∷ []) ≡ none
unfolding parse_full_frame
short_message = refl

feed_all-stream_example : (feed_all new_decoder (stream (late ∷ early ∷ []))).1 ≡ late ∷ early ∷ []
feed_all-stream_example = feed_all-stream (late ∷ early ∷ []) (late-Smpte, (early-Smpte, tt))
