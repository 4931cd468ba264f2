-- ===== src/Buffered/Runs.antt =====
-- What the callback of crates/cuepool-audio/src/buffered_source.rs hears over a schedule of the threads.
use cue_pool.Base.{
  ℕ, ◌+◌, ◌^◌, ◌≤◌, ◌<◌, ◌≡◌, refl, sym, ap, subst, ◌∙◌, Bool, true, false, Option, none, some,
  List, [], ◌∷◌, ◌++◌, length, take, drop, take-add, drop-add, length-append, All, arith,
}
use cue_pool.Loop.{SampleProvider}
use cue_pool.Loop.Windows.{Recording}
use cue_pool.Buffered.{
  BufferedSource, Background, Callback, Control, Output, Move, step, run, advance, seek_step,
  emitted, position, new_source, drop_source, is_guarded, top, checking, filling, ending, ended,
  targeting, locking, reading, pushing, seeking, clearing, basing, zeroing, reopening, applying,
  releasing, storing,
}
use cue_pool.Buffered.Current.{is_settled, Loaded, Current}
use cue_pool.Buffered.Fills.{
  advance-DataAt, advance-CurrentAt, advance-position, advance-same, DataAt,
}
use cue_pool.Buffered.Reads.{
  Sound, Listening, heard, is_past, read_step-same, read_step-Sound, seek_step-Sound,
  read_step-heard,
}

-- All the samples among what reads give.
abbrev pub samples_of : {A : Type 0} → List (Output A) → List A
samples_of [] = []
samples_of (o ∷ os) = heard (some o) ++ samples_of os

pub samples_of-emitted :
    {A : Type 0} (o : Option (Output A)) (os : List (Output A))
    → samples_of (emitted o ++ os) ≡ heard o ++ samples_of os
samples_of-emitted none os = refl
samples_of-emitted (some o) os = refl

abbrev pub is_seek : Move → Bool
is_seek Move.background = false
is_seek (Move.callback n) = false
is_seek (Move.control t) = true
is_seek drop_source = false

module _ {A S : Type 0} (sp : SampleProvider A S) (samples : List A) (c : ℕ)
    (r : Recording sp samples c) where
  past-guarded : (k : Callback A) → is_past k ≡ true → is_guarded k ≡ true
  past-guarded Callback.idle e = cc
  past-guarded (Callback.comparing n g) e = cc
  past-guarded (Callback.entering n) e = cc
  past-guarded (Callback.rechecking n) e = cc
  past-guarded (Callback.popping n) e = refl
  past-guarded (Callback.drained n) e = refl
  past-guarded (Callback.counting xs) e = refl

  -- No seek is applied under the guard of the callback.
  advance-past :
      (b : Background A) (s : BufferedSource A S)
      → DataAt sp samples b s
      → is_past s.callback ≡ true
      → (advance sp b s).applied_seek_generation ≡ s.applied_seek_generation
  advance-past top s d past = ground arith
  advance-past checking s d past = ground arith
  advance-past filling s d past = ground arith
  advance-past ending s d past = refl
  advance-past ended s d past = refl
  advance-past (targeting g) s d past = refl
  advance-past (locking g t) s d past = ground arith
  advance-past (reading n) s d past = refl
  advance-past (pushing xs) s d past = refl
  advance-past (seeking g t) s d past = refl
  advance-past (clearing g t) s d past = refl
  advance-past (basing g t) s d past = refl
  advance-past (zeroing g t) s d past = refl
  advance-past (reopening g t) s d past = refl
  advance-past (applying g t) s d past =
      let guarded = past-guarded s.callback past in let unguarded = d.0 in cc
  advance-past releasing s d past = refl

  new_source-Sound :
      (source : S) (capacity : ℕ)
      → sp.position source ≡ 0
      → Sound sp samples (new_source source capacity)
  new_source-Sound source capacity at =
      rw at (((refl, refl, omega arith), omega arith), omega arith, omega arith)

  background-Sound :
      (s : BufferedSource A S) → Sound sp samples s → Sound sp samples (advance sp s.background s)
  background-Sound s (d, now, word) = (
    advance-DataAt sp samples c r s.background s d,
    advance-CurrentAt sp samples s.background s now,
    subst (λ t. t < 2 ^ 64) (sym (advance-same sp samples s.background s).2) word,
  )

  seek_step-grows :
      (t : ℕ) (k : Control) (s : BufferedSource A S)
      → (seek_step t k s).seek_generation ≤ s.seek_generation + 1
  seek_step-grows t Control.idle s = omega arith
  seek_step-grows t storing s = omega arith

  pub step-Sound :
      (m : Move) (s : BufferedSource A S)
      → s.seek_generation + 1 < 2 ^ 64
      → Sound sp samples s
      → Sound sp samples (step sp m s).0 × ((step sp m s).0.seek_generation ≤ s.seek_generation + 1)
  unfolding step
  step-Sound Move.background s room sound =
      (background-Sound s sound, omega (arith, (advance-same sp samples s.background s).3))
  step-Sound (Move.callback n) s room sound =
      let same = read_step-same sp samples c r n s.callback s in
      (read_step-Sound sp samples c r n s.callback s refl sound, omega (arith, same.3))
  step-Sound (Move.control t) s room sound =
      (seek_step-Sound sp samples t s.control s refl room sound, seek_step-grows t s.control s)
  step-Sound drop_source s room sound = (sound, omega arith)

  pub run-Sound :
      (ms : List Move) (s : BufferedSource A S)
      → s.seek_generation + length ms < 2 ^ 64
      → Sound sp samples s
      → Sound sp samples (run sp ms s).0
        × ((run sp ms s).0.seek_generation ≤ s.seek_generation + length ms)
  unfolding run
  run-Sound [] s room sound = (sound, omega arith)
  run-Sound (m ∷ ms) s room sound =
      let (sound', grows) = step-Sound m s (omega (arith, room)) sound in
      let (sound'', grows') = run-Sound ms (step sp m s).0 (omega (arith, room, grows)) sound' in
      (sound'', omega (arith, grows, grows'))

  step-heard :
      (m : Move) (s : BufferedSource A S)
      → is_seek m ≡ false
      → Sound sp samples s
      → Listening sp samples s
      → let (s', o) = step sp m s in
        (heard o ≡ take (length (heard o)) (drop (position s) samples))
        × (position s' ≡ position s + length (heard o))
        × Sound sp samples s'
        × Listening sp samples s'
  unfolding step
  step-heard Move.background s plain sound on =
      let b = s.background in
      let (cb, ctl, target, gen) = advance-same sp samples b s in
      let at = advance-position sp samples b s on.0 sound.2 sound.0 sound.1 in
      (
        refl,
        omega (arith, at),
        background-Sound s sound,
        (
          ap is_settled ctl ∙ on.0,
          λ past.
              let past' = ap is_past (sym cb) ∙ past in
              gen ∙ on.1 past' ∙ sym (advance-past b s sound.0 past'),
        ),
      )
  step-heard (Move.callback n) s plain sound on =
      let (goes, at, on') = read_step-heard sp samples c r n s.callback s refl sound on in
      (goes, at, read_step-Sound sp samples c r n s.callback s refl sound, on')
  step-heard (Move.control t) s plain sound on = cc
  step-heard drop_source s plain sound on = (refl, omega arith, sound, on)

  pub run-heard :
      (ms : List Move) (s : BufferedSource A S)
      → All (λ m. is_seek m ≡ false) ms
      → Sound sp samples s
      → Listening sp samples s
      → let (s', os) = run sp ms s in
        (samples_of os ≡ take (length (samples_of os)) (drop (position s) samples))
        × (position s' ≡ position s + length (samples_of os))
  unfolding run
  run-heard [] s plain sound on = (refl, omega arith)
  run-heard (m ∷ ms) s plain sound on =
      let (goes, at, sound', on') = step-heard m s plain.0 sound on in
      let (goes', at') = run-heard ms (step sp m s).0 plain.1 sound' on' in
      let xs = heard (step sp m s).1 in
      let ys = samples_of (run sp ms (step sp m s).0).1 in
      let split = samples_of-emitted (step sp m s).1 (run sp ms (step sp m s).0).1 in
      let long = length-append xs ys in
      let further : ys ≡ take (length ys) (drop (length xs) (drop (position s) samples)) =
        goes'
        ∙ ap (take (length ys))
            (ap (λ p. drop p samples) at ∙ drop-add (position s) (length xs) samples) in
      let parts : take (length xs + length ys) (drop (position s) samples) ≡ xs ++ ys =
        take-add (length xs) (length ys) (drop (position s) samples)
        ∙ ap (λ l. l ++ take (length ys) (drop (length xs) (drop (position s) samples))) (sym goes)
        ∙ ap (λ l. xs ++ l) (sym further) in
      rw split (
        sym parts ∙ ap (λ n. take n (drop (position s) samples)) (sym long),
        omega (arith, at, at', long),
      )

  pub reached-Sound :
      (source : S) (capacity : ℕ) (before : List Move)
      → sp.position source ≡ 0
      → length before < 2 ^ 64
      → let s = (run sp before (new_source source capacity)).0 in
        Sound sp samples s × (s.seek_generation ≤ length before)
  reached-Sound source capacity before at room =
      let start = new_source-Sound source capacity at in
      let (sound, grown) =
        run-Sound before (new_source source capacity) (omega (arith, room)) start in
      (sound, omega (arith, grown))

  -- From a state of a run in which nobody is in the middle of a seek or of a read on, all that the
  -- callback hears until the next seek, silence aside, is the recording from the position on, without a
  -- gap and nothing twice, whatever the order in which the threads move; and the position is always
  -- where that has got to.
  pub run-goes_on :
      (source : S) (capacity : ℕ) (before after : List Move)
      → sp.position source ≡ 0
      → length before < 2 ^ 64
      → let s = (run sp before (new_source source capacity)).0 in
        s.control ≡ Control.idle
        → s.callback ≡ Callback.idle
        → All (λ m. is_seek m ≡ false) after
        → let (s', os) = run sp after s in
          (samples_of os ≡ take (length (samples_of os)) (drop (position s) samples))
          × (position s' ≡ position s + length (samples_of os))
  run-goes_on source capacity before after at room ctl cb plain =
      let s = (run sp before (new_source source capacity)).0 in
      let sound = reached-Sound source capacity before at room in
      run-heard after s plain sound.0 (ap is_settled ctl, λ past. cc)

  pub applied_le :
      (l : Loaded) (gen applied target : ℕ) (settled : Bool)
      → Current l gen applied target settled
      → applied ≤ gen
  applied_le Loaded.nothing gen applied target settled now = now
  applied_le (Loaded.generation g) gen applied target settled now = omega (arith, now.0, now.1)
  applied_le (Loaded.seek g t) gen applied target settled now = omega (arith, now.0, now.1)
