-- ===== src/Loop/Windows.antt =====
-- Windows of a recording, in whole frames: what `LoopProcessor`
-- (crates/cuepool-audio/src/loop_processor.rs) is asked to play.
use cue_pool.Base.{
  ℕ, zero, suc, ◌+◌, ◌-◌, ◌*◌, ◌/◌, ◌^◌, ◌≤◌, ◌<◌, ◌≡◌, ◌≢◌, ap, ◌∙◌, sym, max, some, List, [], ◌∷◌,
  ◌++◌, append_assoc, add_mul, mul_mono, length, take, drop, length-take, length-drop, take-add,
  drop-add, arith,
}
use cue_pool.Cue.{LoopMode}
use cue_pool.Loop.{SampleProvider}

abbrev pub repeat : {A : Type 0} → ℕ → List A → List A
repeat zero xs = []
repeat (suc n) xs = xs ++ repeat n xs

-- The passes that follow the current one, in a mode that comes to an end.
abbrev pub loops_left : LoopMode → ℕ → ℕ → ℕ
loops_left LoopMode.looped count played = count - 1 - played
loops_left LoopMode.one_shot count played = 0
loops_left LoopMode.hold_last count played = 0
loops_left LoopMode.looped_infinite count played = 0

pub record Recording {A S : Type 0} (sp : SampleProvider A S) (samples : List A) (c : ℕ)
    : Type 0 where
  pub some_channel : 0 < c
  pub addressed : length samples < 2 ^ 64
  pub has_channels : (s : S) → sp.channels s ≡ c
  pub has_length : (s : S) → sp.source_length s ≡ some (length samples)
  pub seeks : (s : S) (n : ℕ) → sp.position (sp.seek s n) ≡ n
  pub reads : (s : S) (n : ℕ) → (sp.read s n).1 ≡ take n (drop (sp.position s) samples)
  pub moves : (s : S) (n : ℕ) → sp.position (sp.read s n).0 ≡ sp.position s + length (sp.read s n).1

-- A window of frames that lies in the recording, played a number of times.
pub record Window {A : Type 0} (samples : List A) (c start end count : ℕ) (mode : LoopMode)
    : Type 0 where
  pub nonempty : start < end
  pub inside : end * c ≤ length samples
  pub finite : mode ≢ LoopMode.looped_infinite
  pub counted : count < 2 ^ 32

pub frames_back : (f c : ℕ) → 0 < c → f * c / max c 1 ≡ f
frames_back f c h = grind arith

pub frames_back' : (f c : ℕ) → 0 < c → f * c / c ≡ f
frames_back' f c h = grind arith

-- The samples of the frames from `a` to `b`.
abbrev pub slice : {A : Type 0} → List A → ℕ → ℕ → ℕ → List A
slice samples c a b = take ((b - a) * c) (drop (a * c) samples)

-- The samples that a buffer of `n` takes, and those that buffers of the sizes `ns` take.
abbrev pub whole : ℕ → ℕ → ℕ
whole c n = n / max c 1 * c

abbrev pub whole_all : ℕ → List ℕ → ℕ
whole_all c [] = 0
whole_all c (n ∷ ns) = whole c n + whole_all c ns

module _ {A : Type 0} (samples : List A) (c start end count : ℕ) (mode : LoopMode) where
  -- What is to play from frame `f` on, in the pass after `played` others.
  abbrev pub ahead : ℕ → ℕ → List A
  ahead f played =
      slice samples c f end ++ repeat (loops_left mode count played) (slice samples c start end)

  module _ (w : Window samples c start end count mode) where
    -- The first frames of a slice, and the slice samples c behind them.
    pub slice-cut :
        (f k : ℕ)
        → k ≤ end - f
        → slice samples c f end ≡ take (k * c) (drop (f * c) samples) ++ slice samples c (f + k) end
    slice-cut f k h =
        ap (λ n. take n (drop (f * c) samples)) split
        ∙ take-add (k * c) ((end - (f + k)) * c) (drop (f * c) samples)
        ∙ ap (λ l. take (k * c) (drop (f * c) samples) ++ take ((end - (f + k)) * c) l)
            (sym (drop-add (f * c) (k * c) samples)
              ∙ ap (λ n. drop n samples) (sym (add_mul f k c)))
      where
        split : (end - f) * c ≡ k * c + (end - (f + k)) * c
        split = ap (λ n. n * c) (omega arith) ∙ add_mul k (end - (f + k)) c

    pub length-first :
        (f k : ℕ) → f ≤ end → k ≤ end - f → length (take (k * c) (drop (f * c) samples)) ≡ k * c
    length-first f k b h = omega (
      arith,
      length-take (k * c) (drop (f * c) samples),
      length-drop (f * c) samples,
      mul_mono (f + k) end c (omega arith),
      w.inside,
      add_mul f k c,
    )

    pub ahead-cut :
        (f k played : ℕ)
        → k ≤ end - f
        → ahead f played ≡ take (k * c) (drop (f * c) samples) ++ ahead (f + k) played
    ahead-cut f k played h =
        ap (λ l. l ++ repeat (loops_left mode count played) (slice samples c start end))
          (slice-cut f k h)
        ∙ append_assoc (take (k * c) (drop (f * c) samples)) (slice samples c (f + k) end)
            (repeat (loops_left mode count played) (slice samples c start end))

    pub slice-nil : slice samples c end end ≡ []
    slice-nil = ap (λ n. take n (drop (end * c) samples)) (nothing_times c (omega arith))
      where
        nothing_times : {n : ℕ} (c : ℕ) → n ≡ 0 → n * c ≡ 0
        nothing_times c h = grind arith

    pub ahead-end :
        (played n : ℕ)
        → loops_left mode count played ≡ n
        → ahead end played ≡ repeat n (slice samples c start end)
    ahead-end played n h = rw slice-nil (ap (λ n. repeat n (slice samples c start end)) h)
