-- ===== src/Tests/OfLoop.antt =====
-- Concrete runs of `LoopProcessor` (crates/cuepool-audio/src/loop_processor.rs) on ten stereo frames in
-- memory.
use cue_pool.Base.{
  ℕ, ◌+◌, ◌≡◌, ◌≢◌, inl, inr, refl, Option, none, some, List, [], ◌∷◌, length, take, drop,
  length-take, length-drop, Bool-cases, ltb, ◌*◌, ◌%◌, arith,
}
use cue_pool.Cue.{LoopMode}
use cue_pool.Loop.{
  SampleProvider, LoopProcessor, new_processor, set_loop, read, read_loop, round, at_boundary,
  take_in, processor_length,
}
use cue_pool.Loop.Ends.{WholeFrames, read-some}
use cue_pool.Loop.Windows.{Recording, Window, whole_all, slice, repeat}
use cue_pool.Loop.Stream.{read_all, read_all-stream}

abbrev pub in_memory : List ℕ → SampleProvider ℕ ℕ
in_memory samples = record {
  read = λ at n. (at + length (take n (drop at samples)), take n (drop at samples));
  seek = λ at n. n;
  position = λ at. at;
  source_length = λ at. some (length samples);
  sample_rate = λ at. 48_000;
  channels = λ at. 2;
}

abbrev pub ten_frames : List ℕ
ten_frames =
    0 ∷ 1 ∷ 2 ∷ 3 ∷ 4 ∷ 5 ∷ 6 ∷ 7 ∷ 8 ∷ 9 ∷ 10 ∷ 11 ∷ 12 ∷ 13 ∷ 14 ∷ 15 ∷ 16 ∷ 17 ∷ 18 ∷ 19 ∷ []

pub ten_frames-Recording : Recording (in_memory ten_frames) ten_frames 2
ten_frames-Recording = record {
  some_channel = omega arith;
  addressed = omega arith;
  has_channels = λ s. refl;
  has_length = λ s. refl;
  seeks = λ s n. refl;
  reads = λ s n. refl;
  moves = λ s n. refl;
}

three_frames-Window : Window ten_frames 2 2 5 2 LoopMode.looped
three_frames-Window = record {
  nonempty = omega arith;
  inside = omega arith;
  finite = λ e. cc;
  counted = omega arith;
}

-- Frames 2 to 4, twice, read in buffers of two, three and ten frames.
twice : Option (List ℕ)
twice =
    elim (read_all (in_memory ten_frames) (set_loop 2 5 LoopMode.looped 2 (new_processor 0))
      (4 ∷ 6 ∷ 20 ∷ [])) [ none ↦ none | some (p, xs) ↦ some xs ]

twice_lem : twice ≡ some (4 ∷ 5 ∷ 6 ∷ 7 ∷ 8 ∷ 9 ∷ 4 ∷ 5 ∷ 6 ∷ 7 ∷ 8 ∷ 9 ∷ [])
unfolding twice read_all read read_loop round at_boundary take_in
twice_lem = refl

-- The length that two passes over all ten frames are given is that of one.
short_length :
    processor_length
      (in_memory ten_frames)
      (record (set_loop 0 0 LoopMode.looped 2 (new_processor 0)) {
        inner = record (new_processor (let at : ℕ = 0 in at)).inner {
          loop_mode = LoopMode.looped;
          loop_count = 2;
        };
      })
    ≡ some 20
unfolding processor_length
short_length = refl

-- Before the first read, an endless loop is given the length of one pass.
early_length :
    processor_length
      (in_memory ten_frames)
      (set_loop 0 0 LoopMode.looped_infinite 1 (new_processor 0))
    ≡ some 20
unfolding processor_length
early_length = refl

-- The states of the stereo source between two frames.
abbrev Even : ℕ → Type 0
Even at = at % 2 ≡ 0

in_memory-WholeFrames : WholeFrames (in_memory ten_frames) Even
in_memory-WholeFrames = record {
  gives = λ s k even some_frame.
      let long = length-take (k * 2) (drop s ten_frames) in
      let left = length-drop s ten_frames in
      elim (Bool-cases (ltb s 20)) [
        | inl more ↦ inr (ground (arith, long, left, even, more))
        | inr ended ↦ inl (ground (arith, long, left, ended))
      ];
  reads = λ s k even.
      let long = length-take (k * 2) (drop s ten_frames) in
      let left = length-drop s ten_frames in omega (arith, long, left, even);
  seeks = λ s f even. omega arith;
}

read-some_example :
    read (in_memory ten_frames) (set_loop 2 5 LoopMode.looped_infinite 1 (new_processor 0)) 63
    ≢ none
read-some_example =
    read-some (in_memory ten_frames) Even in_memory-WholeFrames
      (set_loop 2 5 LoopMode.looped_infinite 1 (new_processor 0)) 63 refl

read_all-stream_example :
    (p : LoopProcessor ℕ) × (read_all
        (in_memory ten_frames)
        (set_loop 2 5 LoopMode.looped 2 (new_processor 0))
        (4 ∷ 6 ∷ 20 ∷ [])
      ≡ some (p, take (whole_all 2 (4 ∷ 6 ∷ 20 ∷ [])) (repeat 2 (slice ten_frames 2 2 5))))
read_all-stream_example =
    read_all-stream (in_memory ten_frames) ten_frames 2 2 5 2 LoopMode.looped ten_frames-Recording
      three_frames-Window 0 0 5 (4 ∷ 6 ∷ 20 ∷ []) refl (omega arith) (inl refl)
