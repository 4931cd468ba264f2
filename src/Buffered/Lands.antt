-- ===== src/Buffered/Lands.antt =====
-- The way of the background thread of crates/cuepool-audio/src/buffered_source.rs to a seek.
use cue_pool.Base.{
  ℕ, suc, ◌≤◌, ◌≡◌, inl, inr, refl, sym, ap, subst, ◌∙◌, Bool, true, false, List, [], ◌==◌,
  replicate, Bool-cases, if_false, if_true, length, take, min, ◌-◌, ◌++◌, arith,
}
use cue_pool.Loop.{SampleProvider}
use cue_pool.Buffered.Fills.{advance-same}
use cue_pool.Buffered.{
  BufferedSource, Background, Callback, Move, step, run, advance, stand, is_guarded, is_nil, top,
  checking, filling, ending, ended, targeting, locking, reading, pushing, seeking, clearing, basing,
  zeroing, reopening, applying, releasing,
}

abbrev pub is_ended : {A : Type 0} → Background A → Bool
is_ended ended = true
is_ended top = false
is_ended checking = false
is_ended filling = false
is_ended ending = false
is_ended releasing = false
is_ended (targeting g) = false
is_ended (locking g t) = false
is_ended (seeking g t) = false
is_ended (clearing g t) = false
is_ended (basing g t) = false
is_ended (zeroing g t) = false
is_ended (reopening g t) = false
is_ended (applying g t) = false
is_ended (reading n) = false
is_ended (pushing xs) = false

module _ {A S : Type 0} (sp : SampleProvider A S) where
  -- Within `k` moves of the background thread the latest seek has been applied.
  abbrev pub Lands : ℕ → BufferedSource A S → Type 0
  Lands k s =
      (n : ℕ) × (n ≤ k)
      × let s' = (run sp (replicate n Move.background) s).0 in
        (s'.applied_seek_generation ≡ s'.seek_generation) × (s'.seek_generation ≡ s.seek_generation)

  Lands-advance :
      (k : ℕ) (b : Background A) (s : BufferedSource A S)
      → Lands k (advance sp b (stand b s))
      → Lands (suc k) (stand b s)
  unfolding run step
  Lands-advance k b s (n, bound, (done, same)) =
      (suc n, omega (arith, bound), (done, same ∙ (advance-same sp [] b (stand b s)).3))

  Lands-more : (k l : ℕ) (s : BufferedSource A S) → k ≤ l → Lands k s → Lands l s
  Lands-more k l s h (n, bound, done) = (n, omega (arith, bound, h), done)

  Lands-now :
      (k : ℕ) (s : BufferedSource A S) → s.applied_seek_generation ≡ s.seek_generation → Lands k s
  unfolding run
  Lands-now k s e = (0, omega arith, (e, refl))

  -- The callback does not hold the guard, and the source has not been dropped.
  abbrev Free : BufferedSource A S → Type 0
  Free s = (is_guarded s.callback ≡ false) × (s.shutdown ≡ false)

  -- With the latest generation loaded.
  applying-Lands :
      (g t : ℕ) (s : BufferedSource A S) → g ≡ s.seek_generation → Lands 1 (stand (applying g t) s)
  applying-Lands g t s e =
      Lands-advance 0 (applying g t) s
        (Lands-now 0 (advance sp (applying g t) (stand (applying g t) s)) e)

  reopening-Lands :
      (g t : ℕ) (s : BufferedSource A S) → g ≡ s.seek_generation → Lands 2 (stand (reopening g t) s)
  reopening-Lands g t s e =
      Lands-advance 1 (reopening g t) s (applying-Lands g t (record s { eof = false }) e)

  zeroing-Lands :
      (g t : ℕ) (s : BufferedSource A S) → g ≡ s.seek_generation → Lands 3 (stand (zeroing g t) s)
  zeroing-Lands g t s e =
      Lands-advance 2 (zeroing g t) s (reopening-Lands g t (record s { read_pos = 0 }) e)

  basing-Lands :
      (g t : ℕ) (s : BufferedSource A S) → g ≡ s.seek_generation → Lands 4 (stand (basing g t) s)
  basing-Lands g t s e =
      Lands-advance 3 (basing g t) s (zeroing-Lands g t (record s { position_base = t }) e)

  clearing-Lands :
      (g t : ℕ) (s : BufferedSource A S) → g ≡ s.seek_generation → Lands 5 (stand (clearing g t) s)
  clearing-Lands g t s e =
      Lands-advance 4 (clearing g t) s (basing-Lands g t (record s { ring = [] }) e)

  seeking-Lands :
      (g t : ℕ) (s : BufferedSource A S) → g ≡ s.seek_generation → Lands 6 (stand (seeking g t) s)
  seeking-Lands g t s e =
      Lands-advance 5 (seeking g t) s
        (clearing-Lands g t (record s { source = sp.seek s.source t }) e)

  advance_locking :
      (g t : ℕ) (s : BufferedSource A S)
      → Free s
      → advance sp (locking g t) (stand (locking g t) s) ≡ stand (seeking g t) s
  advance_locking g t s free = if_false (is_guarded s.callback) _ _ free.0

  locking-Lands :
      (g t : ℕ) (s : BufferedSource A S)
      → Free s
      → g ≡ s.seek_generation
      → Lands 7 (stand (locking g t) s)
  locking-Lands g t s free e =
      Lands-advance 6 (locking g t) s
        (subst (Lands 6) (sym (advance_locking g t s free)) (seeking-Lands g t s e))

  checking-Lands : (s : BufferedSource A S) → Free s → Lands 9 (stand checking s)
  checking-Lands s free = elim (Bool-cases (s.seek_generation == s.applied_seek_generation)) [
    | inl same ↦ Lands-now 9 (stand checking s) (ground (arith, same))
    | inr other ↦
        let next : advance sp checking (stand checking s) ≡ stand (targeting s.seek_generation) s =
          if_false (s.seek_generation == s.applied_seek_generation) _ _ other in
        Lands-advance 8 checking s (
          subst (Lands 8) (sym next) (
            Lands-advance 7 (targeting s.seek_generation) s
              (locking-Lands s.seek_generation s.seek_target s free refl)))
  ]

  top-Lands : (s : BufferedSource A S) → Free s → Lands 10 (stand top s)
  top-Lands s free =
      Lands-advance 9 top s
        (subst (Lands 9) (sym (if_false s.shutdown _ _ free.1)) (checking-Lands s free))

  ending-Lands : (s : BufferedSource A S) → Free s → Lands 11 (stand ending s)
  ending-Lands s free = Lands-advance 10 ending s (top-Lands (record s { eof = true }) free)

  pushing-Lands : (xs : List A) (s : BufferedSource A S) → Free s → Lands 11 (stand (pushing xs) s)
  pushing-Lands xs s free =
      Lands-advance 10 (pushing xs) s
        (top-Lands (record s { ring = s.ring ++ take (s.capacity - length s.ring) xs }) free)

  reading-Lands : (n : ℕ) (s : BufferedSource A S) → Free s → Lands 12 (stand (reading n) s)
  reading-Lands n s free =
      let s' = record s { source = (sp.read s.source n).0 } in
      let xs = (sp.read s.source n).1 in
      Lands-advance 11 (reading n) s (elim (Bool-cases (is_nil xs)) [
        | inl empty ↦ rw empty (ending-Lands s' free)
        | inr filled ↦ rw filled (pushing-Lands xs s' free)
      ])

  filling-Lands : (s : BufferedSource A S) → Free s → Lands 13 (stand filling s)
  filling-Lands s free =
      let idle = Lands-more 10 12 (stand top s) (omega arith) (top-Lands s free) in
      Lands-advance 12 filling s (elim (Bool-cases s.eof) [
        | inl end ↦ subst (Lands 12) (sym (if_true s.eof _ _ end)) idle
        | inr more ↦
            subst (Lands 12) (sym (if_false s.eof _ _ more))
              (elim (Bool-cases (s.capacity - length s.ring == 0)) [
                | inl full ↦
                    subst (Lands 12) (sym (if_true (s.capacity - length s.ring == 0) _ _ full)) idle
                | inr room ↦
                    subst (Lands 12) (sym (if_false (s.capacity - length s.ring == 0) _ _ room))
                      (reading-Lands (min 4_096 (s.capacity - length s.ring)) s free)
              ])
      ])

  releasing-Lands : (s : BufferedSource A S) → Free s → Lands 14 (stand releasing s)
  releasing-Lands s free = Lands-advance 13 releasing s (filling-Lands s free)

  -- With any generation loaded.
  any_applying-Lands :
      (g t : ℕ) (s : BufferedSource A S) → Free s → Lands 15 (stand (applying g t) s)
  any_applying-Lands g t s free =
      Lands-advance 14 (applying g t) s
        (releasing-Lands (record s { applied_seek_generation = g }) free)

  any_reopening-Lands :
      (g t : ℕ) (s : BufferedSource A S) → Free s → Lands 16 (stand (reopening g t) s)
  any_reopening-Lands g t s free =
      Lands-advance 15 (reopening g t) s (any_applying-Lands g t (record s { eof = false }) free)

  any_zeroing-Lands : (g t : ℕ) (s : BufferedSource A S) → Free s → Lands 17 (stand (zeroing g t) s)
  any_zeroing-Lands g t s free =
      Lands-advance 16 (zeroing g t) s (any_reopening-Lands g t (record s { read_pos = 0 }) free)

  any_basing-Lands : (g t : ℕ) (s : BufferedSource A S) → Free s → Lands 18 (stand (basing g t) s)
  any_basing-Lands g t s free =
      Lands-advance 17 (basing g t) s (any_zeroing-Lands g t (record s { position_base = t }) free)

  any_clearing-Lands :
      (g t : ℕ) (s : BufferedSource A S) → Free s → Lands 19 (stand (clearing g t) s)
  any_clearing-Lands g t s free =
      Lands-advance 18 (clearing g t) s (any_basing-Lands g t (record s { ring = [] }) free)

  any_seeking-Lands : (g t : ℕ) (s : BufferedSource A S) → Free s → Lands 20 (stand (seeking g t) s)
  any_seeking-Lands g t s free =
      Lands-advance 19 (seeking g t) s
        (any_clearing-Lands g t (record s { source = sp.seek s.source t }) free)

  any_locking-Lands : (g t : ℕ) (s : BufferedSource A S) → Free s → Lands 21 (stand (locking g t) s)
  any_locking-Lands g t s free =
      Lands-advance 20 (locking g t) s
        (subst (Lands 20) (sym (advance_locking g t s free)) (any_seeking-Lands g t s free))

  stand-Lands :
      (b : Background A) (s : BufferedSource A S)
      → is_ended b ≡ false
      → Free s
      → Lands 22 (stand b s)
  stand-Lands top s runs free = Lands-more 10 22 (stand top s) (omega arith) (top-Lands s free)
  stand-Lands checking s runs free =
      Lands-more 9 22 (stand checking s) (omega arith) (checking-Lands s free)
  stand-Lands filling s runs free =
      Lands-more 13 22 (stand filling s) (omega arith) (filling-Lands s free)
  stand-Lands ending s runs free =
      Lands-more 11 22 (stand ending s) (omega arith) (ending-Lands s free)
  stand-Lands releasing s runs free =
      Lands-more 14 22 (stand releasing s) (omega arith) (releasing-Lands s free)
  stand-Lands (reading n) s runs free =
      Lands-more 12 22 (stand (reading n) s) (omega arith) (reading-Lands n s free)
  stand-Lands (pushing xs) s runs free =
      Lands-more 11 22 (stand (pushing xs) s) (omega arith) (pushing-Lands xs s free)
  stand-Lands (applying g t) s runs free =
      Lands-more 15 22 (stand (applying g t) s) (omega arith) (any_applying-Lands g t s free)
  stand-Lands (reopening g t) s runs free =
      Lands-more 16 22 (stand (reopening g t) s) (omega arith) (any_reopening-Lands g t s free)
  stand-Lands (zeroing g t) s runs free =
      Lands-more 17 22 (stand (zeroing g t) s) (omega arith) (any_zeroing-Lands g t s free)
  stand-Lands (basing g t) s runs free =
      Lands-more 18 22 (stand (basing g t) s) (omega arith) (any_basing-Lands g t s free)
  stand-Lands (clearing g t) s runs free =
      Lands-more 19 22 (stand (clearing g t) s) (omega arith) (any_clearing-Lands g t s free)
  stand-Lands (seeking g t) s runs free =
      Lands-more 20 22 (stand (seeking g t) s) (omega arith) (any_seeking-Lands g t s free)
  stand-Lands (locking g t) s runs free =
      Lands-more 21 22 (stand (locking g t) s) (omega arith) (any_locking-Lands g t s free)
  stand-Lands (targeting g) s runs free =
      Lands-advance 21 (targeting g) s (any_locking-Lands g s.seek_target s free)
  stand-Lands ended s runs free = cc

  -- Wherever the background thread stands short of its end, and whatever seek it is about to apply, it
  -- has applied the latest one within 22 moves of its own, while nobody seeks again, no read is under
  -- way and the source has not been dropped.
  pub seek-lands :
      (s : BufferedSource A S)
      → is_ended s.background ≡ false
      → s.callback ≡ Callback.idle
      → s.shutdown ≡ false
      → (n : ℕ) × (n ≤ 22)
        × let s' = (run sp (replicate n Move.background) s).0 in
          (s'.applied_seek_generation ≡ s'.seek_generation)
          × (s'.seek_generation ≡ s.seek_generation)
  seek-lands s runs cb on = stand-Lands s.background s runs (ap is_guarded cb, on)
