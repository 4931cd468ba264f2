-- ===== src/Tests/OfBuffered.antt =====
-- Concrete schedules of `BufferedSource` (crates/cuepool-audio/src/buffered_source.rs) over ten stereo
-- frames in memory.
use cue_pool.Base.{
  ℕ, ◌+◌, ◌≤◌, ◌≡◌, refl, List, [], ◌∷◌, ◌++◌, length, take, drop, replicate, All, arith, any_by,
  false, Bool-cases, inl, inr,
}
use cue_pool.Tests.OfLoop.{in_memory, ten_frames, ten_frames-Recording}
use cue_pool.Buffered.{
  BufferedSource, Move, finished, played, silence, new_source, position, run, step,
}
use cue_pool.Buffered.Runs.{samples_of, is_seek, run-goes_on}
use cue_pool.Buffered.Sought.{GoesOn, run-sought}
use cue_pool.Buffered.Lands.{seek-lands}

-- One round of the background thread, and the moves that read a buffer of four samples.
abbrev fill : List Move
fill = replicate 6 Move.background

abbrev read_four : List Move
read_four = replicate 6 (Move.callback 4)

abbrev start : BufferedSource ℕ ℕ
start = new_source 0 8

abbrev filled : BufferedSource ℕ ℕ
filled = (run (in_memory ten_frames) fill start).0

abbrev jump : List Move
jump = Move.control 10 ∷ Move.control 10 ∷ []

-- Four samples are heard, then a seek throws the other four away and the frames from the fifth on are
-- heard.
abbrev later : List Move
later = read_four ++ replicate 22 Move.background ++ read_four

before_jump : samples_of (run (in_memory ten_frames) read_four filled).1 ≡ 0 ∷ 1 ∷ 2 ∷ 3 ∷ []
unfolding run step
before_jump = refl

after_jump :
    samples_of (run (in_memory ten_frames) (jump ++ later) filled).1 ≡ 10 ∷ 11 ∷ 12 ∷ 13 ∷ []
unfolding run step
after_jump = refl

-- The callback finds the ring empty; before it looks at the end of the source, the background thread
-- pushes the last samples and meets the end. The read says that the track is over while the last
-- samples are in the ring.
abbrev race : List Move
race =
    replicate 4 Move.background
    ++ replicate 5 (Move.callback 4)
    ++ replicate 6 Move.background
    ++ Move.callback 4 ∷ []

early_end : (run (in_memory ten_frames) race (new_source 0 32)).1 ≡ finished ∷ []
unfolding run step
early_end = refl

left_behind : (run (in_memory ten_frames) race (new_source 0 32)).0.ring ≡ ten_frames
unfolding run step
left_behind = refl

no_seeks : (ms : List Move) → any_by is_seek ms ≡ false → All (λ m. is_seek m ≡ false) ms
no_seeks [] e = tt
no_seeks (m ∷ ms) e = elim (Bool-cases (is_seek m)) [
  | inl seeks ↦ ground arith
  | inr other ↦ (other, no_seeks ms (ground arith))
]

run-goes_on_example :
    let s = (run (in_memory ten_frames) (fill ++ read_four) start).0 in
    let (s', os) = run (in_memory ten_frames) (read_four ++ fill ++ read_four) s in
    (samples_of os ≡ take (length (samples_of os)) (drop (position s) ten_frames))
    × (position s' ≡ position s + length (samples_of os))
unfolding run step
run-goes_on_example =
    run-goes_on (in_memory ten_frames) ten_frames 2 ten_frames-Recording 0 8 (fill ++ read_four)
      (read_four ++ fill ++ read_four) refl (omega arith) refl refl
      (no_seeks (read_four ++ fill ++ read_four) refl)

-- A read that has taken four samples out of the ring when the seek begins gives them behind its end.
abbrev half_read : List Move
half_read = fill ++ replicate 5 (Move.callback 4)

abbrev cut_in : List Move
cut_in = Move.background ∷ Move.background ∷ []

abbrev landed : BufferedSource ℕ ℕ
landed =
    (run (in_memory ten_frames) (Move.control 10 ∷ [])
      (run (in_memory ten_frames) cut_in
        (run (in_memory ten_frames) (Move.control 10 ∷ [])
          (run (in_memory ten_frames) half_read start).0).0).0).0

under_way :
    (run (in_memory ten_frames) later landed).1
    ≡ played (0 ∷ 1 ∷ 2 ∷ 3 ∷ []) ∷ silence 4 ∷ silence 4 ∷ played (10 ∷ 11 ∷ 12 ∷ 13 ∷ []) ∷ []
unfolding run step
under_way = refl

run-sought_example :
    GoesOn ten_frames 10 landed.callback (run (in_memory ten_frames) later landed).1
unfolding run step
run-sought_example =
    run-sought (in_memory ten_frames) ten_frames 2 ten_frames-Recording 0 8 10 half_read cut_in
      later refl (omega arith) (omega arith) refl (no_seeks cut_in refl) (no_seeks later refl)

seek-lands_example :
    let s = (run (in_memory ten_frames) jump filled).0 in
    (n : ℕ) × (n ≤ 22)
    × let s' = (run (in_memory ten_frames) (replicate n Move.background) s).0 in
      (s'.applied_seek_generation ≡ s'.seek_generation) × (s'.seek_generation ≡ s.seek_generation)
unfolding run step
seek-lands_example =
    seek-lands (in_memory ten_frames) (run (in_memory ten_frames) jump filled).0 refl refl refl
