-- ===== src/Loop/Ends.antt =====
-- That `LoopProcessor::read` (crates/cuepool-audio/src/loop_processor.rs) comes to an end.
use cue_pool.Base.{
  ℕ, zero, suc, ◌+◌, ◌-◌, ◌*◌, ◌/◌, ◌≤◌, ◌<◌, ◌≡◌, ◌≢◌, ◌⊎◌, inl, inr, Bool, true, false, Option,
  none, some, List, [], ◌==◌, ltb, if◌then◌else◌, if-keep, Bool-cases, ltb→lt, length, arith,
}
use cue_pool.Cue.{LoopMode}
use cue_pool.Loop.{
  SampleProvider, LoopProcessor, Round, at_boundary, by_mode, take_in, round, trim_start,
  samples_wanted, read_loop, read, refresh, frames_to_samples, read_fuel, target_frames, finished,
  again,
}

-- The rounds that a read can still make.
abbrev pub rounds_left : ℕ → ℕ → Bool → ℕ
rounds_left target total passed = (target - total) * 2 + (if passed then 0 else 1)

module _ {A S : Type 0} (sp : SampleProvider A S) where
  -- In the good states of a source, whole frames that are asked for come as no samples or as one frame
  -- at least, and reads of whole frames and seeks to a frame lead to good states.
  pub record WholeFrames (Good : S → Type 0) : Type 0 where
    pub gives :
        (s : S) (k : ℕ)
        → Good s
        → let xs = (sp.read s (k * sp.channels s)).1 in
          0 < k → (length xs ≡ 0) ⊎ (sp.channels s ≤ length xs)
    pub reads : (s : S) (k : ℕ) → Good s → Good (sp.read s (k * sp.channels s)).0
    pub seeks : (s : S) (f : ℕ) → Good s → Good (sp.seek s (frames_to_samples sp s f))

  one_frame : (n c : ℕ) → 0 < c → c ≤ n → 0 < n / c
  one_frame n c some_channel fits = grind arith

  some_channel : (k c : ℕ) → (k * c == 0) ≡ false → 0 < c
  some_channel k zero h = absurd (ground arith)
  some_channel k (suc c) h = omega arith

  some_left : (k c : ℕ) → (k * c == 0) ≡ false → 0 < k
  some_left zero c h = absurd (ground arith)
  some_left (suc k) c h = omega arith

  module _ (Good : S → Type 0) (whole : WholeFrames Good) where
    abbrev Shrinks : ℕ → ℕ → Round A S → Type 0
    Shrinks target bound (finished p total out) = Unit
    Shrinks target bound (again p total passed out) =
        (rounds_left target total passed < bound) × Good p.source

    by_mode-Shrinks :
        (mode : LoopMode) (p : LoopProcessor S) (target total : ℕ) (out : List A)
        → Good p.source
        → Shrinks target (rounds_left target total false) (by_mode sp mode p total out)
    by_mode-Shrinks LoopMode.one_shot p target total out good = tt
    by_mode-Shrinks LoopMode.hold_last p target total out good = tt
    by_mode-Shrinks LoopMode.looped p target total out good =
        ground (arith, whole.seeks p.source p.inner.start_frame good)
    by_mode-Shrinks LoopMode.looped_infinite p target total out good =
        (omega arith, whole.seeks p.source p.inner.start_frame good)

    at_boundary-Shrinks :
        (p : LoopProcessor S) (target total : ℕ) (passed : Bool) (out : List A)
        → Good p.source
        → Shrinks target (rounds_left target total passed) (at_boundary sp p total passed out)
    unfolding at_boundary
    at_boundary-Shrinks p target total true out good = ground arith
    at_boundary-Shrinks p target total false out good =
        ground (arith, by_mode-Shrinks p.inner.loop_mode p target total out good)

    take_in-Shrinks :
        (p : LoopProcessor S) (target total k : ℕ) (passed : Bool) (out : List A)
        → total < target
        → 0 < k
        → 0 < sp.channels p.source
        → Good p.source
        → Shrinks target
            (rounds_left target total passed)
            (take_in sp p total (k * sp.channels p.source) out)
    unfolding take_in
    take_in-Shrinks p target total k passed out below some_frame some_channel good = ground (
      arith,
      whole.gives p.source k good some_frame,
      whole.reads p.source k good,
      one_frame (length (sp.read p.source (k * sp.channels p.source)).1) (sp.channels p.source),
    )

    trim_start-Good : (p : LoopProcessor S) → Good p.source → Good (trim_start sp p).source
    trim_start-Good p good = ground (arith, whole.seeks p.source p.inner.start_frame good)

    round-Shrinks :
        (p : LoopProcessor S) (target total : ℕ) (passed : Bool) (out : List A)
        → total < target
        → Good p.source
        → Shrinks target (rounds_left target total passed) (round sp p target total passed out)
    unfolding round
    round-Shrinks p target total passed out below good =
        let trimmed = trim_start sp p in
        let good' = trim_start-Good p good in
        let wanted = samples_wanted sp trimmed (target - total) in
        if-keep (Shrinks target (rounds_left target total passed)) (wanted == 0)
          (at_boundary sp trimmed total passed out) (take_in sp trimmed total wanted out)
          (λ nothing. at_boundary-Shrinks trimmed target total passed out good')
          (λ something.
            take_in-Shrinks trimmed target total _ passed out below
              (some_left _ (sp.channels trimmed.source) something)
              (some_channel _ (sp.channels trimmed.source) something) good')

    -- What follows a round that leaves fewer rounds.
    after_round :
        (fuel target bound : ℕ) (r : Round A S)
        → Shrinks target bound r
        → bound ≤ fuel
        → ((p : LoopProcessor S) (total : ℕ) (passed : Bool) (out : List A)
            → rounds_left target total passed < fuel
            → Good p.source
            → read_loop sp fuel p target total passed out ≢ none)
        → elim r as (λ (r : Round A S). Option (LoopProcessor S × List A)) [
          | finished p total out ↦ some (p, out)
          | again p total passed out ↦ read_loop sp fuel p target total passed out
        ]
          ≢ none
    after_round fuel target bound (finished p total out) less enough ends = cc
    after_round fuel target bound (again p total passed out) less enough ends =
        ends p total passed out (omega (arith, less.0)) less.1

    read_loop-some :
        (fuel : ℕ) (p : LoopProcessor S) (target total : ℕ) (passed : Bool) (out : List A)
        → rounds_left target total passed < fuel
        → Good p.source
        → read_loop sp fuel p target total passed out ≢ none
    unfolding read_loop
    read_loop-some zero p target total passed out enough good = absurd (omega arith)
    read_loop-some (suc fuel) p target total passed out enough good =
        elim (Bool-cases (ltb total target)) [
          | inl more ↦
              rw (more, read_loop)
                (after_round fuel target (rounds_left target total passed)
                  (round sp p target total passed out)
                  (round-Shrinks p target total passed out (ltb→lt total target more) good)
                  (omega arith)
                  (λ p' total' passed' out' less good'.
                    read_loop-some fuel p' target total' passed' out' less good'))
          | inr full ↦ rw (full, read_loop) (λ e. cc)
        ]

    -- A read of any size ends, whatever the processor has played and whatever its loop parameters, also
    -- where the window is empty or the source does not move: of a source in a good state, which gives
    -- whole frames or nothing where whole frames are asked for, two rounds for each frame of the buffer
    -- and two more are enough.
    pub read-some : (p : LoopProcessor S) (n : ℕ) → Good p.source → read sp p n ≢ none
    unfolding read
    read-some p n good =
        if-keep (λ r. r ≢ none) p.inner.exhausted (some (refresh sp p, [])) _ (λ done. λ e. cc)
          (λ running.
            read_loop-some (read_fuel sp (refresh sp p) n) (refresh sp p)
              (target_frames sp (refresh sp p) n) 0 false [] (omega arith) good)
