-- ===== src/Buffered/Sought.antt =====
-- What the callback of crates/cuepool-audio/src/buffered_source.rs hears behind a seek.
use cue_pool.Base.{
  ℕ, ◌+◌, ◌%◌, ◌^◌, ◌≤◌, ◌<◌, ◌≡◌, ◌≢◌, ◌⊎◌, inl, inr, refl, sym, ap, subst, ◌∙◌, true, false,
  Option, none, some, List, [], ◌∷◌, ◌++◌, ◌==◌, length, take, drop, All, Bool-cases, arith,
}
use cue_pool.Loop.{SampleProvider}
use cue_pool.Loop.Windows.{Recording}
use cue_pool.Buffered.{
  BufferedSource, Callback, Control, Output, Move, step, run, read_step, emitted, position,
  new_source, drop_source, storing, comparing, entering, rechecking, popping, drained, counting,
}
use cue_pool.Buffered.Current.{loaded, is_settled}
use cue_pool.Buffered.Fills.{advance-position, advance-same}
use cue_pool.Buffered.Reads.{Sound, Listening, is_past, read_step-same}
use cue_pool.Buffered.Runs.{
  samples_of, is_seek, run-Sound, run-heard, reached-Sound, applied_le, step-Sound,
}

-- Outputs of which all but those of one read go on from a place in the recording.
pub record GoesOn {A : Type 0} (samples : List A) (place : ℕ) (k : Callback A)
    (os : List (Output A)) : Type 0 where
  pub under_way : List (Output A)
  pub others : List (Output A)
  pub parts : os ≡ under_way ++ others
  pub one_read : length under_way ≤ 1
  pub none_under_way : k ≡ Callback.idle → under_way ≡ []
  pub goes_on : samples_of others ≡ take (length (samples_of others)) (drop place samples)

not_past : {A : Type 0} (k : Callback A) → is_past k ≡ true → k ≢ Callback.idle
not_past k past e = cc

-- A read that is under way gives one thing more, or nothing yet.
late-GoesOn :
    {A : Type 0} (samples : List A) (place : ℕ) (k k' : Callback A) (o : Option (Output A))
    (os : List (Output A))
    → is_past k ≡ true
    → (o ≡ none) ⊎ (k' ≡ Callback.idle)
    → GoesOn samples place k' os
    → GoesOn samples place k (emitted o ++ os)
late-GoesOn samples place k k' none os past turn rest = record {
  under_way = GoesOn.under_way rest;
  others = GoesOn.others rest;
  parts = GoesOn.parts rest;
  one_read = GoesOn.one_read rest;
  none_under_way = λ e. absurd (not_past k past e);
  goes_on = GoesOn.goes_on rest;
}
late-GoesOn samples place k k' (some o) os past (inl e) rest = cc
late-GoesOn samples place k k' (some o) os past (inr e) rest = record {
  under_way = o ∷ [];
  others = GoesOn.others rest;
  parts =
      ap (λ l. o ∷ l)
        (GoesOn.parts rest ∙ ap (λ l. l ++ GoesOn.others rest) (GoesOn.none_under_way rest e));
  one_read = omega arith;
  none_under_way = λ e. absurd (not_past k past e);
  goes_on = GoesOn.goes_on rest;
}

module _ {A S : Type 0} (sp : SampleProvider A S) (samples : List A) (c : ℕ)
    (r : Recording sp samples c) where
  -- A read that has passed its last look at the generations before a seek does not move the position,
  -- and is over once it has given something.
  read_step-late :
      (n : ℕ) (k : Callback A) (s : BufferedSource A S)
      → is_past k ≡ true
      → (s.seek_generation == s.applied_seek_generation) ≡ false
      → let (s', o) = read_step n k s in
        (position s' ≡ position s) × ((o ≡ none) ⊎ (s'.callback ≡ Callback.idle))
  read_step-late n Callback.idle s past late = cc
  read_step-late n (comparing m g) s past late = cc
  read_step-late n (entering m) s past late = cc
  read_step-late n (rechecking m) s past late = cc
  read_step-late n (popping m) s past late = ground arith
  read_step-late n (drained m) s past late = ground arith
  read_step-late n (counting xs) s past late = rw late (refl, inr refl)

  step-late :
      (m : Move) (s : BufferedSource A S)
      → is_seek m ≡ false
      → Sound sp samples s
      → is_settled s.control ≡ true
      → is_past s.callback ≡ true
      → (s.seek_generation == s.applied_seek_generation) ≡ false
      → let (s', o) = step sp m s in
        (position s' ≡ position s) × ((o ≡ none) ⊎ (s'.callback ≡ Callback.idle))
  unfolding step
  step-late Move.background s plain sound settled past late =
      (advance-position sp samples s.background s settled sound.2 sound.0 sound.1, inl refl)
  step-late (Move.callback n) s plain sound settled past late =
      read_step-late n s.callback s past late
  step-late (Move.control t) s plain sound settled past late = cc
  step-late drop_source s plain sound settled past late = (refl, inl refl)

  -- What moves other than those of a seek leave alone.
  step-kept :
      (m : Move) (s : BufferedSource A S)
      → is_seek m ≡ false
      → let s' = (step sp m s).0 in
        (s'.control ≡ s.control)
        × (s'.seek_target ≡ s.seek_target)
        × (s'.seek_generation ≡ s.seek_generation)
  unfolding step
  step-kept Move.background s plain =
      let same = advance-same sp samples s.background s in (same.1, same.2, same.3)
  step-kept (Move.callback n) s plain =
      let same = read_step-same sp samples c r n s.callback s in (same.1, same.2, same.3)
  step-kept (Move.control t) s plain = cc
  step-kept drop_source s plain = (refl, refl, refl)

  run-kept :
      (ms : List Move) (s : BufferedSource A S)
      → All (λ m. is_seek m ≡ false) ms
      → let s' = (run sp ms s).0 in (s'.control ≡ s.control) × (s'.seek_target ≡ s.seek_target)
  unfolding run
  run-kept [] s plain = (refl, refl)
  run-kept (m ∷ ms) s plain =
      let now = step-kept m s plain.0 in
      let later = run-kept ms (step sp m s).0 plain.1 in (later.0 ∙ now.0, later.1 ∙ now.1)

  heard-GoesOn :
      (ms : List Move) (s : BufferedSource A S)
      → All (λ m. is_seek m ≡ false) ms
      → Sound sp samples s
      → Listening sp samples s
      → GoesOn samples (position s) s.callback (run sp ms s).1
  heard-GoesOn ms s plain sound on = record {
    under_way = [];
    others = (run sp ms s).1;
    parts = refl;
    one_read = omega arith;
    none_under_way = λ e. refl;
    goes_on = (run-heard sp samples c r ms s plain sound on).0;
  }

  run-GoesOn :
      (ms : List Move) (s : BufferedSource A S)
      → All (λ m. is_seek m ≡ false) ms
      → s.seek_generation + 1 < 2 ^ 64
      → Sound sp samples s
      → is_settled s.control ≡ true
      → GoesOn samples (position s) s.callback (run sp ms s).1
  unfolding run
  run-GoesOn [] s plain room sound settled = record {
    under_way = [];
    others = [];
    parts = refl;
    one_read = omega arith;
    none_under_way = λ e. refl;
    goes_on = refl;
  }
  run-GoesOn (m ∷ ms) s plain room sound settled = elim (Bool-cases (is_past s.callback)) [
    | inr early ↦ heard-GoesOn (m ∷ ms) s plain sound (settled, λ past. cc)
    | inl past ↦ elim (Bool-cases (s.seek_generation == s.applied_seek_generation)) [
      | inl now ↦ heard-GoesOn (m ∷ ms) s plain sound (settled, λ p. ground (arith, now))
      | inr late ↦
          let s' = (step sp m s).0 in
          let (place, turn) = step-late m s plain.0 sound settled past late in
          let kept = step-kept m s plain.0 in
          let rest =
            run-GoesOn ms s' plain.1 (subst (λ g. g + 1 < 2 ^ 64) (sym kept.2) room)
              (step-Sound sp samples c r m s room sound).0 (ap is_settled kept.0 ∙ settled) in
          late-GoesOn samples (position s) s.callback s'.callback (step sp m s).1 (run sp ms s').1
            past turn (subst (λ p. GoesOn samples p s'.callback (run sp ms s').1) place rest)
    ]
  ]

  -- The two stores of a seek.
  end_seek-position :
      (target : ℕ) (s : BufferedSource A S)
      → s.control ≡ storing
      → s.seek_generation + 1 < 2 ^ 64
      → Sound sp samples s
      → let s' = (run sp (Move.control target ∷ []) s).0 in
        (s'.control ≡ Control.idle)
        × (s'.seek_generation ≡ s.seek_generation + 1)
        × (position s' ≡ s.seek_target)
  unfolding run step
  end_seek-position target s ctl room sound =
      let older =
        applied_le sp samples c r (loaded s.background) s.seek_generation s.applied_seek_generation
          s.seek_target (is_settled s.control) sound.1 in
      rw ctl (refl, omega (arith, room), ground (arith, older, room))

  begin_seek :
      (target : ℕ) (s : BufferedSource A S)
      → s.control ≡ Control.idle
      → let s' = (run sp (Move.control target ∷ []) s).0 in
        (s'.control ≡ storing) × (s'.seek_target ≡ target % 2 ^ 64)
  unfolding run step
  begin_seek target s ctl = rw ctl (refl, refl)

  -- A seek of a source that gives a recording begins at any point of any run, at which no other seek is
  -- half done, and the other threads may move on between its two stores. From its end on all that the
  -- callback hears until the next seek, silence aside, is the recording from the target on, without a
  -- gap and nothing twice, however the threads move. Only a read that is under way when the seek ends
  -- may still give what the ring held before: what it gives, one output at most, is excepted, and where
  -- no read is under way nothing is. The target and the moves up to the end of the seek fit 64 bits.
  pub run-sought :
      (source : S) (capacity target : ℕ) (before between after : List Move)
      → sp.position source ≡ 0
      → length before + length between + 3 < 2 ^ 64
      → target < 2 ^ 64
      → let s = (run sp before (new_source source capacity)).0 in
        s.control ≡ Control.idle
        → All (λ m. is_seek m ≡ false) between
        → All (λ m. is_seek m ≡ false) after
        → let begun = (run sp (Move.control target ∷ []) s).0 in
          let ended = (run sp (Move.control target ∷ []) (run sp between begun).0).0 in
          GoesOn samples target ended.callback (run sp after ended).1
  run-sought source capacity target before between after at room word ctl plain plain' =
      let s = (run sp before (new_source source capacity)).0 in
      let one : List Move = Move.control target ∷ [] in
      let (sound, grown) =
        reached-Sound sp samples c r source capacity before at (omega (arith, room)) in
      let begun = (run sp one s).0 in
      let (stores, target') = begin_seek target s ctl in
      let (sound1, grown1) = run-Sound sp samples c r one s (omega (arith, room, grown)) sound in
      let moved = (run sp between begun).0 in
      let kept = run-kept between begun plain in
      let (sound2, grown2) =
        run-Sound sp samples c r between begun (omega (arith, room, grown, grown1)) sound1 in
      let room2 : moved.seek_generation + 2 < 2 ^ 64 = omega (arith, room, grown, grown1, grown2) in
      let (idle', counted', place) =
        end_seek-position target moved (kept.0 ∙ stores) (omega (arith, room2)) sound2 in
      let (sound3, grown3) = run-Sound sp samples c r one moved (omega (arith, room2)) sound2 in
      let ended = (run sp one moved).0 in
      let whole : target % 2 ^ 64 ≡ target = omega (arith, word) in
      subst (λ p. GoesOn samples p ended.callback (run sp after ended).1)
        (place ∙ kept.1 ∙ target' ∙ whole)
        (run-GoesOn after ended plain' (omega (arith, room2, counted')) sound3
          (ap is_settled idle'))
