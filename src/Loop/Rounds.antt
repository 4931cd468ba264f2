-- ===== src/Loop/Rounds.antt =====
-- One round of the loop of `LoopProcessor::read` (crates/cuepool-audio/src/loop_processor.rs) on a
-- recording: what it plays and what it leaves.
use cue_pool.Base.{
  ℕ, suc, ◌+◌, ◌-◌, ◌*◌, ◌/◌, ◌%◌, ◌^◌, ◌≤◌, ◌<◌, ◌≡◌, ◌⊎◌, inl, inr, refl, ap, subst, ◌∙◌, sym,
  min, max, Bool, true, false, ◌||◌, List, [], ◌++◌, ◌==◌, leb, ==_iff, if-keep, append-nil,
  zero_times, add_mul, no_product, a_product, some_product, mul_mono, length, take, drop,
  take-append, drop-append, take-length, arith,
}
use cue_pool.Loop.Windows
use cue_pool.Loop.Windows.{
  slice, whole, whole_all, repeat, loops_left, Recording, Window, frames_back, frames_back',
}
use cue_pool.Cue.{LoopMode}
use cue_pool.Loop.{
  SampleProvider, LoopProcessor, Round, at_boundary, by_mode, take_in, round, trim_start,
  samples_wanted, finished, again, exhaust, pass_boundary, loop_mode_as_u8,
}

module _ {A S : Type 0} (sp : SampleProvider A S) (samples : List A) (c start end count : ℕ)
    (mode : LoopMode) where
  abbrev ahead : ℕ → ℕ → List A
  ahead = Windows.ahead samples c start end count mode

  -- What `set_loop` has stored; an end of 0 is the end of the source.
  abbrev pub Commands : LoopProcessor S → Type 0
  Commands p =
      (p.cmd_start_frame ≡ start)
      × ((p.cmd_end_frame ≡ end) ⊎ ((p.cmd_end_frame ≡ 0) × (end ≡ length samples / max c 1)))
      × (p.cmd_loop_mode ≡ loop_mode_as_u8 mode)
      × (p.cmd_loop_count ≡ count)

  pub record Fresh (p : LoopProcessor S) : Type 0 where
    pub started : p.inner.start_frame ≡ start
    pub ended : p.inner.end_frame ≡ end
    pub moded : p.inner.loop_mode ≡ mode
    pub count_set : p.inner.loop_count ≡ count
    pub commands : Commands p

  pub record Playing (p : LoopProcessor S) (f played : ℕ) : Type 0 where
    pub loops : p.inner.played_loops ≡ played
    pub running : p.inner.exhausted ≡ false
    pub placed : sp.position p.source ≡ f * c
    pub before_end : f ≤ end
    pub left : played < max count 1

  module _ (r : Recording sp samples c) (w : Window samples c start end count mode) where
    whole_address : (f : ℕ) → f ≤ end → f * c % 2 ^ 64 ≡ f * c
    whole_address f h = omega (arith, mul_mono f end c h, w.inside, r.addressed)

    trim_start-Playing :
        (p : LoopProcessor S) (f played : ℕ)
        → Fresh p
        → Playing p f played
        → Playing (trim_start sp p) (max f start) played
    trim_start-Playing p f played fresh on = ground (
      arith,
      r.has_channels p.source,
      r.seeks p.source (start * c),
      frames_back f c,
      whole_address start,
      w.nonempty,
      r.some_channel,
    )

    trim_start-Fresh : (p : LoopProcessor S) → Fresh p → Fresh (trim_start sp p)
    trim_start-Fresh p fresh = ground arith

    -- What a round does to the samples that are ahead.
    unfoldable pub StepsTo : ℕ → ℕ → ℕ → Bool → ℕ → List A → Round A S → Type 0
    StepsTo left f played passed total out (finished p' total' out') =
        (ahead f played ≡ []) × (out' ≡ out) × (p'.inner.exhausted ≡ true) × Fresh p'
    StepsTo left f played passed total out (again p' total' passed' out') =
        (k f' played' : ℕ) × (k ≤ left)
        × (total' ≡ total + k)
        × (out' ≡ out ++ take (k * c) (ahead f played))
        × (ahead f' played' ≡ drop (k * c) (ahead f played))
        × Playing p' f' played'
        × (start ≤ f')
        × (passed' ≡ true → f' ≡ start)
        × (((passed' ≡ false) × (0 < k)) ⊎ ((passed' ≡ true) × (passed ≡ false)))
        × Fresh p'

    take_in-StepsTo :
        (p : LoopProcessor S) (f played total left k : ℕ) (passed : Bool) (out : List A)
        → Fresh p
        → Playing p f played
        → start ≤ f
        → 0 < k
        → k ≤ left
        → k ≤ end - f
        → StepsTo left f played passed total out (take_in sp p total (k * c) out)
    unfolding StepsTo take_in
    take_in-StepsTo p f played total left k passed out fresh on from some_frame fits within =
        let piece : List A = take (k * c) (drop (f * c) samples) in
        let got = sp.read p.source (k * c) in
        let e1 : got.1 ≡ piece =
          r.reads p.source (k * c) ∙ ap (λ n. take (k * c) (drop n samples)) on.placed in
        let e2 : length piece ≡ k * c =
          Windows.length-first samples c start end count mode w f k on.before_end within in
        let e3 : length got.1 / sp.channels p.source ≡ k =
          rw (e1, e2, r.has_channels p.source) (frames_back' k c r.some_channel) in
        let e4 : take (length got.1 / sp.channels p.source * sp.channels p.source) got.1 ≡ piece =
          rw (e3, r.has_channels p.source, e1)
            (ap (λ n. take n piece) (sym e2) ∙ take-length piece) in
        let e5 : take (k * c) (ahead f played) ≡ piece =
          ap (take (k * c)) (Windows.ahead-cut samples c start end count mode w f k played within)
          ∙ ap (λ n. take n (piece ++ ahead (f + k) played)) (sym e2)
          ∙ take-append piece (ahead (f + k) played) in
        let e6 : drop (k * c) (ahead f played) ≡ ahead (f + k) played =
          ap (drop (k * c)) (Windows.ahead-cut samples c start end count mode w f k played within)
          ∙ ap (λ n. drop n (piece ++ ahead (f + k) played)) (sym e2)
          ∙ drop-append piece (ahead (f + k) played) in
        if-keep (StepsTo left f played passed total out) (length got.1 == 0) _ _
          (λ nothing.
            absurd (grind (arith, ap length e1 ∙ e2, some_product k c some_frame r.some_channel)))
          (λ something. (
            k,
            f + k,
            played,
            fits,
            omega (arith, e3),
            ap (λ l. out ++ l) (e4 ∙ sym e5),
            sym e6,
            record {
              loops = on.loops;
              running = on.running;
              placed =
                  r.moves p.source (k * c)
                  ∙ omega (arith, on.placed, ap length e1 ∙ e2, add_mul f k c);
              before_end = omega arith;
              left = on.left;
            },
            omega arith,
            (λ e. cc),
            inl (refl, some_frame),
            record {
              started = fresh.started;
              ended = fresh.ended;
              moded = fresh.moded;
              count_set = fresh.count_set;
              commands = fresh.commands;
            },
          ))

    by_mode-StepsTo :
        (m : LoopMode) (p : LoopProcessor S) (played total left : ℕ) (passed : Bool) (out : List A)
        → passed ≡ false
        → m ≡ mode
        → Fresh p
        → Playing p end played
        → StepsTo left end played passed total out (by_mode sp m p total out)
    unfolding StepsTo
    by_mode-StepsTo LoopMode.one_shot p played total left passed out behind e fresh on = (
      Windows.ahead-end samples c start end count mode w played 0
          (ap (λ m. loops_left m count played) (sym e)),
      refl,
      refl,
      record {
        started = fresh.started;
        ended = fresh.ended;
        moded = fresh.moded;
        count_set = fresh.count_set;
        commands = fresh.commands;
      },
    )
    by_mode-StepsTo LoopMode.hold_last p played total left passed out behind e fresh on = (
      Windows.ahead-end samples c start end count mode w played 0
          (ap (λ m. loops_left m count played) (sym e)),
      refl,
      refl,
      record {
        started = fresh.started;
        ended = fresh.ended;
        moded = fresh.moded;
        count_set = fresh.count_set;
        commands = fresh.commands;
      },
    )
    by_mode-StepsTo LoopMode.looped_infinite p played total left passed out behind e fresh on =
        absurd (w.finite (sym e))
    by_mode-StepsTo LoopMode.looped p played total left passed out behind e fresh on =
        if-keep (StepsTo left end played passed total out)
          (leb p.inner.loop_count ((p.inner.played_loops + 1) % 2 ^ 32))
          (finished (exhaust sp p) total out) (again (pass_boundary sp p) total true out)
          (λ last. (
            Windows.ahead-end samples c start end count mode w played 0 (
                ap (λ m. loops_left m count played) (sym e)
                ∙ ground (arith, on.left, fresh.count_set, w.counted)),
            refl,
            refl,
            record {
              started = fresh.started;
              ended = fresh.ended;
              moded = fresh.moded;
              count_set = fresh.count_set;
              commands = fresh.commands;
            },
          ))
          (λ more. (
            0,
            start,
            played + 1,
            omega arith,
            omega arith,
            (sym (append-nil out) ∙ ap (λ n. out ++ take n (ahead end played)) (zero_times c)),
            (sym (
                  Windows.ahead-end samples c start end count mode w played
                    (suc (count - 1 - (played + 1)))
                    (ap (λ m. loops_left m count played) (sym e)
                      ∙ ground (arith, on.left, fresh.count_set, w.counted))
                  ∙ ap
                      (λ m.
                        slice samples c start end
                        ++ repeat (loops_left m count (played + 1)) (slice samples c start end))
                      e)
                ∙ ap (λ n. drop n (ahead end played)) (zero_times c)),
            record {
              loops = ground (arith, on.left, on.loops, w.counted);
              running = on.running;
              placed = rw fresh.started (
                  r.seeks p.source _
                  ∙ rw (r.has_channels p.source) (whole_address start (omega arith)));
              before_end = omega arith;
              left = ground (arith, on.left, fresh.count_set, on.loops);
            },
            omega arith,
            (λ h. refl),
            inr (refl, behind),
            record {
              started = fresh.started;
              ended = fresh.ended;
              moded = fresh.moded;
              count_set = fresh.count_set;
              commands = fresh.commands;
            },
          ))

    at_boundary-StepsTo :
        (p : LoopProcessor S) (played total left : ℕ) (passed : Bool) (out : List A)
        → Fresh p
        → Playing p end played
        → (passed ≡ true → end ≡ start)
        → StepsTo left end played passed total out (at_boundary sp p total passed out)
    unfolding at_boundary
    at_boundary-StepsTo p played total left passed out fresh on flag =
        if-keep (StepsTo left end played passed total out)
          (leb p.inner.end_frame p.inner.start_frame || passed) (finished (exhaust sp p) total out)
          (by_mode sp p.inner.loop_mode p total out)
          (λ stuck. ground (arith, flag, w.nonempty, fresh.started, fresh.ended))
          (λ moves.
            by_mode-StepsTo p.inner.loop_mode p played total left passed out (ground (arith, moves))
              fresh.moded fresh on)

    wanted_lem :
        (p : LoopProcessor S) (f played left : ℕ)
        → Fresh p
        → Playing p f played
        → samples_wanted sp p left ≡ min left (end - f) * c
    wanted_lem p f played left fresh on =
        rw (on.placed, r.has_channels p.source, fresh.ended, frames_back f c r.some_channel)

    pub round-StepsTo :
        (p : LoopProcessor S) (f played target total : ℕ) (passed : Bool) (out : List A)
        → Fresh p
        → Playing p f played
        → (passed ≡ true → f ≡ start)
        → total < target
        → StepsTo
            (target - total)
            (max f start)
            played
            passed
            total
            out
            (round sp p target total passed out)
    unfolding round
    round-StepsTo p f played target total passed out fresh on flag more =
        let trimmed = trim_start sp p in
        let left = target - total in
        let f' = max f start in
        let fresh' : Fresh trimmed = trim_start-Fresh p fresh in
        let on' : Playing trimmed f' played = trim_start-Playing p f played fresh on in
        let wanted : samples_wanted sp trimmed left ≡ min left (end - f') * c =
          wanted_lem trimmed f' played left fresh' on' in
        if-keep (StepsTo left f' played passed total out) (samples_wanted sp trimmed left == 0)
          (at_boundary sp trimmed total passed out)
          (take_in sp trimmed total (samples_wanted sp trimmed left) out)
          (λ none_wanted.
            let at_end : end ≡ f' = omega (
              arith,
              no_product (min left (end - f')) c (sym wanted ∙ (==_iff _ 0).0 none_wanted)
                  r.some_channel,
              on'.before_end,
            ) in
            subst
              (λ f'.
                StepsTo left f' played passed total out (at_boundary sp trimmed total passed out))
              at_end
              (at_boundary-StepsTo trimmed played total left passed out fresh'
                (subst (λ g. Playing trimmed g played) (sym at_end) on')
                (λ h. omega (arith, flag h, at_end))))
          (λ some_wanted.
            subst (λ n. StepsTo left f' played passed total out (take_in sp trimmed total n out))
              (sym wanted)
              (take_in-StepsTo trimmed f' played total left (min left (end - f')) passed out fresh'
                on' (omega arith) (a_product _ c (ap (λ n. n == 0) (sym wanted) ∙ some_wanted))
                (omega arith) (omega arith)))
