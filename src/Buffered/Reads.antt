-- ===== src/Buffered/Reads.antt =====
-- What the moves of the callback and of the control thread of
-- crates/cuepool-audio/src/buffered_source.rs keep, and what the callback hears.
use cue_pool.Base.{
  ℕ, ◌+◌, ◌-◌, ◌%◌, ◌^◌, ◌≤◌, ◌<◌, ◌≡◌, inl, inr, refl, sym, ap, subst, ◌∙◌, min, Bool, true, false,
  Option, none, some, List, [], ◌∷◌, ◌==◌, length, take, drop, length-take, length-drop, Bool-cases,
  arith,
}
use cue_pool.Loop.{SampleProvider}
use cue_pool.Loop.Windows.{Recording}
use cue_pool.Buffered.{
  BufferedSource, Callback, Control, Output, silence, played, finished, is_guarded, is_resetting,
  position, read_step, seek_step, comparing, entering, rechecking, popping, drained, counting,
  storing,
}
use cue_pool.Buffered.Data.{stage, counted, Data, guard-Data, unguard-Data, pop-Data, count-Data}
use cue_pool.Buffered.Current.{Loaded, loaded, Current, is_settled, nothing, generation, seek}
use cue_pool.Buffered.Fills.{DataAt, CurrentAt}

abbrev pub heard : {A : Type 0} → Option (Output A) → List A
heard none = []
heard (some (silence n)) = []
heard (some (played xs)) = xs
heard (some finished) = []

-- The callback is past its last look at the generations.
abbrev pub is_past : {A : Type 0} → Callback A → Bool
is_past Callback.idle = false
is_past (comparing n g) = false
is_past (entering n) = false
is_past (rechecking n) = false
is_past (popping n) = true
is_past (drained n) = true
is_past (counting xs) = true

Current-stored :
    (l : Loaded) (gen applied target target' : ℕ) (settled : Bool)
    → Current l gen applied target settled
    → Current l gen applied target' false
Current-stored nothing gen applied target target' settled now = now
Current-stored (generation g) gen applied target target' settled now = now
Current-stored (seek g t) gen applied target target' settled now = (now.0, now.1, λ e. cc)

Current-counted :
    (l : Loaded) (gen applied target : ℕ)
    → Current l gen applied target false
    → Current l (gen + 1) applied target true
Current-counted nothing gen applied target now = omega (arith, now)
Current-counted (generation g) gen applied target now = (now.0, omega (arith, now.1))
Current-counted (seek g t) gen applied target now =
    (now.0, omega (arith, now.1), λ e same. absurd (omega (arith, now.1, same)))

module _ {A S : Type 0} (sp : SampleProvider A S) (samples : List A) where
  abbrev pub Sound : BufferedSource A S → Type 0
  Sound s =
      DataAt sp samples s.background s
      × CurrentAt sp samples s.background s
      × (s.seek_target < 2 ^ 64)

  -- Nobody is in the middle of a seek, and where the callback will take samples out they are those of
  -- the last one.
  abbrev pub Listening : BufferedSource A S → Type 0
  Listening s =
      (is_settled s.control ≡ true)
      × (is_past s.callback ≡ true → s.seek_generation ≡ s.applied_seek_generation)

  pub seek_step-Sound :
      (t : ℕ) (c : Control) (s : BufferedSource A S)
      → s.control ≡ c
      → s.seek_generation + 1 < 2 ^ 64
      → Sound s
      → Sound (seek_step t c s)
  seek_step-Sound t Control.idle s e room (d, now, word) = (
    d,
    Current-stored (loaded s.background) s.seek_generation s.applied_seek_generation s.seek_target
        (t % 2 ^ 64) (is_settled s.control) now,
    omega arith,
  )
  seek_step-Sound t storing s e room (d, now, word) =
      let plain : (s.seek_generation + 1) % 2 ^ 64 ≡ s.seek_generation + 1 = omega (arith, room) in
      let storing' =
        subst
          (λ k.
            Current (loaded s.background) s.seek_generation s.applied_seek_generation s.seek_target
              (is_settled k))
          e now in
      (
        d,
        subst (λ g. Current (loaded s.background) g s.applied_seek_generation s.seek_target true)
            (sym plain)
            (Current-counted (loaded s.background) s.seek_generation s.applied_seek_generation
              s.seek_target storing'),
        word,
      )

  -- What the ring holds, where the callback stands at `k`.
  abbrev Holds : Callback A → BufferedSource A S → Type 0
  Holds k s =
      Data samples (stage s.background) (is_guarded k) (counted k) (sp.position s.source) s.ring
        s.capacity s.position_base s.read_pos

  Holds-at : (k : Callback A) (s : BufferedSource A S) → s.callback ≡ k → Sound s → Holds k s
  Holds-at k s e sound = subst (λ k. Holds k s) e sound.0

  taken-short :
      (xs : List A) (place : ℕ)
      → xs ≡ take (length xs) (drop place samples)
      → length xs ≤ length samples - place
  taken-short xs place taken =
      let long : length xs ≡ min (length xs) (length samples - place) =
        ap length taken
        ∙ length-take (length xs) (drop place samples)
        ∙ ap (λ n. min (length xs) n) (length-drop place samples) in
      omega (arith, long)

  -- Beyond the last position that a word can name there is nothing to take.
  taken-saturated :
      (xs : List A) (place : ℕ)
      → length samples < 2 ^ 64
      → xs ≡ take (length xs) (drop place samples)
      → xs ≡ take (length xs) (drop (min place (2 ^ 64 - 1)) samples)
  taken-saturated [] place word taken = refl
  taken-saturated (x ∷ xs) place word taken =
      let inside : place ≡ min place (2 ^ 64 - 1) =
        omega (arith, taken-short (x ∷ xs) place taken, word) in
      taken ∙ ap (λ p. take (length (x ∷ xs)) (drop p samples)) inside

  module _ (c : ℕ) (r : Recording sp samples c) where
    read_step-Holds :
        (n : ℕ) (k : Callback A) (s : BufferedSource A S)
        → Holds k s
        → let s' = (read_step n k s).0 in DataAt sp samples s.background s'
    read_step-Holds n Callback.idle s d = d
    read_step-Holds n (comparing m g) s d = elim (Bool-cases (g == s.applied_seek_generation)) [
      | inl same ↦ rw same d
      | inr other ↦ rw other d
    ]
    read_step-Holds n (entering m) s d = elim (Bool-cases (is_resetting s.background)) [
      | inl resets ↦ rw resets d
      | inr free ↦ rw free (
          guard-Data samples (sp.position s.source) s.capacity s.position_base s.read_pos s.ring
            s.background free d)
    ]
    read_step-Holds n (rechecking m) s d =
        elim (Bool-cases (s.seek_generation == s.applied_seek_generation)) [
          | inl same ↦ rw same d
          | inr other ↦ rw other (
              unguard-Data samples (sp.position s.source) s.capacity s.position_base s.read_pos
                s.ring (stage s.background) d)
        ]
    read_step-Holds n (popping m) s d = elim (Bool-cases (min m (length s.ring) == 0)) [
      | inl empty ↦ rw empty d
      | inr filled ↦ rw filled (
          pop-Data samples (sp.position s.source) s.capacity s.position_base s.read_pos s.ring
            (min m (length s.ring)) (stage s.background) d)
    ]
    read_step-Holds n (drained m) s d =
        let free =
          unguard-Data samples (sp.position s.source) s.capacity s.position_base s.read_pos s.ring
            (stage s.background) d in
        elim (Bool-cases s.eof) [ inl end ↦ rw end free | inr more ↦ rw more free ]
    read_step-Holds n (counting xs) s d =
        (count-Data samples (sp.position s.source) s.capacity s.position_base s.read_pos s.ring xs
          (stage s.background) (Recording.addressed r) d).0

    -- What a move of the callback leaves alone.
    pub read_step-same :
        (n : ℕ) (k : Callback A) (s : BufferedSource A S)
        → let s' = (read_step n k s).0 in
          (s'.background ≡ s.background)
          × (s'.control ≡ s.control)
          × (s'.seek_target ≡ s.seek_target)
          × (s'.seek_generation ≡ s.seek_generation)
          × (s'.applied_seek_generation ≡ s.applied_seek_generation)
    read_step-same n Callback.idle s = (refl, refl, refl, refl, refl)
    read_step-same n (comparing m g) s = ground arith
    read_step-same n (entering m) s = ground arith
    read_step-same n (rechecking m) s = ground arith
    read_step-same n (popping m) s = ground arith
    read_step-same n (drained m) s = ground arith
    read_step-same n (counting xs) s = (refl, refl, refl, refl, refl)

    pub read_step-Sound :
        (n : ℕ) (k : Callback A) (s : BufferedSource A S)
        → s.callback ≡ k
        → Sound s
        → Sound (read_step n k s).0
    read_step-Sound n k s e sound =
        let (b, ctl, target, gen, applied) = read_step-same n k s in
        let s' = (read_step n k s).0 in
        (
          subst (λ b. DataAt sp samples b s') (sym b)
              (read_step-Holds n k s (Holds-at k s e sound)),
          rw (b, ctl, target, gen, applied) sound.1,
          rw target sound.2,
        )

    -- A move of the callback goes on from the position.
    pub read_step-heard :
        (n : ℕ) (k : Callback A) (s : BufferedSource A S)
        → s.callback ≡ k
        → Sound s
        → Listening s
        → let (s', o) = read_step n k s in
          (heard o ≡ take (length (heard o)) (drop (position s) samples))
          × (position s' ≡ position s + length (heard o))
          × Listening s'
    read_step-heard n Callback.idle s e sound on = (refl, omega arith, (on.0, λ f. cc))
    read_step-heard n (comparing m g) s e sound on = ground arith
    read_step-heard n (entering m) s e sound on = ground arith
    read_step-heard n (rechecking m) s e sound on = ground arith
    read_step-heard n (popping m) s e sound on = ground arith
    read_step-heard n (drained m) s e sound on = ground arith
    read_step-heard n (counting xs) s e sound on =
        let place = s.position_base + s.read_pos in
        let (d, taken, bound) =
          count-Data samples (sp.position s.source) s.capacity s.position_base s.read_pos s.ring xs
            (stage s.background) (Recording.addressed r) (Holds-at (counting xs) s e sound) in
        let word = Recording.addressed r in
        let short = taken-short xs place taken in
        let past : is_past s.callback ≡ true = ap is_past e in
        let same : (s.seek_generation == s.applied_seek_generation) ≡ true =
          ground (arith, on.1 past) in
        let plain : (s.read_pos + length xs) % 2 ^ 64 ≡ s.read_pos + length xs =
          omega (arith, bound, word) in
        rw (same, plain)
          (taken-saturated xs place word taken, omega (arith, short, word), (on.0, λ f. cc))
