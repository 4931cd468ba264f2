-- ===== src/Buffered/Data.antt =====
-- What the ring of crates/cuepool-audio/src/buffered_source.rs holds between the moves of the threads.
use cue_pool.Base.{
  ℕ, ◌+◌, ◌%◌, ◌^◌, ◌≤◌, ◌<◌, ◌≡◌, sym, ap, subst, ◌∙◌, Bool, true, false, List, [], ◌++◌, length,
  take, drop, append_assoc, take-append, drop-append, take-append-drop, drop-add, length-append,
  length-drop, arith,
}
use cue_pool.Buffered.{
  Background, Callback, is_resetting, counting, top, checking, filling, ending, ended, targeting,
  locking, reading, pushing, seeking, clearing, basing, zeroing, reopening, applying, releasing,
}

-- The samples that the callback has taken out and not yet counted.
abbrev pub counted : {A : Type 0} → Callback A → List A
counted Callback.idle = []
counted (Callback.comparing n g) = []
counted (Callback.entering n) = []
counted (Callback.rechecking n) = []
counted (Callback.popping n) = []
counted (Callback.drained n) = []
counted (counting xs) = xs

-- The background thread lets samples flow, with room for what it reads and with what it has read, or
-- has come some way into a reset to a target, or has reset.
pub data Stage (A : Type 0) : Type 0 where
  flows : ℕ → List A → Stage A
  reset : ℕ → ℕ → Stage A
  cleared : Stage A

abbrev pub stage : {A : Type 0} → Background A → Stage A
stage top = flows 0 []
stage checking = flows 0 []
stage filling = flows 0 []
stage ending = flows 0 []
stage ended = flows 0 []
stage (targeting g) = flows 0 []
stage (locking g t) = flows 0 []
stage (reading n) = flows n []
stage (pushing xs) = flows (length xs) xs
stage (seeking g t) = reset 0 t
stage (clearing g t) = reset 1 t
stage (basing g t) = reset 2 t
stage (zeroing g t) = reset 3 t
stage (reopening g t) = reset 4 t
stage (applying g t) = reset 4 t
stage releasing = cleared

module _ {A : Type 0} (samples : List A) where
  -- Samples in flight between a place in the recording and the position of the source.
  abbrev pub Stream : ℕ → ℕ → ℕ → List A → Type 0
  Stream pos base read_pos flight =
      (pos ≡ base + read_pos + length flight)
      × (flight ++ drop pos samples ≡ drop (base + read_pos) samples)
      × (read_pos + length flight ≤ length samples)

  abbrev pub Data : Stage A → Bool → List A → ℕ → List A → ℕ → ℕ → ℕ → Type 0
  Data (flows n xs) guarded taken pos ring capacity base read_pos =
      Stream pos base read_pos (taken ++ (ring ++ xs)) × (n + length ring ≤ capacity)
  Data (reset k t) guarded taken pos ring capacity base read_pos =
      (guarded ≡ false)
      × (taken ≡ [])
      × (1 ≤ k → pos ≡ t)
      × (2 ≤ k → ring ≡ [])
      × (3 ≤ k → base ≡ t)
      × (4 ≤ k → read_pos ≡ 0)
  Data cleared guarded taken pos ring capacity base read_pos =
      (guarded ≡ false) × (taken ≡ []) × (ring ≡ []) × (pos ≡ base) × (read_pos ≡ 0)

  module _ (pos capacity base read_pos : ℕ) (ring : List A) where
    pub guard-Data :
        (b : Background A)
        → is_resetting b ≡ false
        → Data (stage b) false [] pos ring capacity base read_pos
        → Data (stage b) true [] pos ring capacity base read_pos
    guard-Data top e d = d
    guard-Data checking e d = d
    guard-Data filling e d = d
    guard-Data ending e d = d
    guard-Data ended e d = d
    guard-Data (targeting g) e d = d
    guard-Data (locking g t) e d = d
    guard-Data (reading n) e d = d
    guard-Data (pushing xs) e d = d
    guard-Data (seeking g t) e d = cc
    guard-Data (clearing g t) e d = cc
    guard-Data (basing g t) e d = cc
    guard-Data (zeroing g t) e d = cc
    guard-Data (reopening g t) e d = cc
    guard-Data (applying g t) e d = cc
    guard-Data releasing e d = cc

    pub unguard-Data :
        (s : Stage A)
        → Data s true [] pos ring capacity base read_pos
        → Data s false [] pos ring capacity base read_pos
    unguard-Data (flows n xs) d = d
    unguard-Data (reset k t) d = cc
    unguard-Data cleared d = cc

    pub pop-Data :
        (k : ℕ) (s : Stage A)
        → Data s true [] pos ring capacity base read_pos
        → Data s true (take k ring) pos (drop k ring) capacity base read_pos
    pop-Data k (flows n xs) ((at, same, bound), room) =
        let whole : take k ring ++ (drop k ring ++ xs) ≡ ring ++ xs =
          sym (append_assoc (take k ring) (drop k ring) xs)
          ∙ ap (λ l. l ++ xs) (take-append-drop k ring) in
        let shorter = length-drop k ring in
        (
          subst (Stream pos base read_pos) (sym whole) (at, same, bound),
          omega (arith, shorter, room),
        )
    pop-Data k (reset j t) d = cc
    pop-Data k cleared d = cc

    -- What is counted is the recording from the place that the count stood at.
    pub count-Data :
        (xs : List A) (s : Stage A)
        → length samples < 2 ^ 64
        → Data s true xs pos ring capacity base read_pos
        → Data s false [] pos ring capacity base ((read_pos + length xs) % 2 ^ 64)
          × (xs ≡ take (length xs) (drop (base + read_pos) samples))
          × (read_pos + length xs ≤ length samples)
    count-Data xs (flows n ys) word ((at, same, bound), room) =
        let rest : List A = ring ++ ys in
        let long = length-append xs rest in
        let plain : (read_pos + length xs) % 2 ^ 64 ≡ read_pos + length xs =
          omega (arith, long, bound, word) in
        let apart : xs ++ (rest ++ drop pos samples) ≡ drop (base + read_pos) samples =
          sym (append_assoc xs rest (drop pos samples)) ∙ same in
        let behind : rest ++ drop pos samples ≡ drop (base + (read_pos + length xs)) samples =
          sym (drop-append xs (rest ++ drop pos samples))
          ∙ ap (drop (length xs)) apart
          ∙ sym (drop-add (base + read_pos) (length xs) samples)
          ∙ ap (λ n. drop n samples) (omega arith) in
        let streams : Stream pos base (read_pos + length xs) rest =
          (omega (arith, at, long), behind, omega (arith, bound, long)) in
        (
          (subst (λ p. Stream pos base p rest) (sym plain) streams, room),
          sym (take-append xs (rest ++ drop pos samples)) ∙ ap (take (length xs)) apart,
          omega (arith, bound, long),
        )
    count-Data xs (reset j t) word d = cc
    count-Data xs cleared word d = cc
