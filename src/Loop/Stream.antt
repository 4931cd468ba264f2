-- ===== src/Loop/Stream.antt =====
-- What `LoopProcessor` (crates/cuepool-audio/src/loop_processor.rs) plays of a recording: a source that
-- gives the samples from its position on, such as a decoded file.
use cue_pool.Base.{
  ℕ, zero, suc, ◌+◌, ◌-◌, ◌*◌, ◌/◌, ◌≤◌, ◌<◌, ◌≡◌, ◌⊎◌, inl, inr, refl, ap, subst, ◌∙◌, sym, max,
  Bool, true, false, Option, none, some, List, [], ◌∷◌, ◌++◌, ltb, Bool-cases, ltb→lt,
  if◌then◌else◌, if_true, if_false, append_assoc, append-nil, zero_times, add_mul, length, take,
  drop, take-add, drop-add, take-nil, drop-nil, arith,
}
use cue_pool.Loop.Ends.{rounds_left}
use cue_pool.Loop.Windows
use cue_pool.Loop.Windows.{
  slice, whole, whole_all, repeat, loops_left, Recording, Window, frames_back, frames_back',
}
use cue_pool.Loop.Rounds
use cue_pool.Cue.{LoopMode}
use cue_pool.Loop.{
  SampleProvider, LoopProcessor, Round, round, read_loop, read, refresh, read_fuel, target_frames,
  finished, again, loop_mode_as_u8, loop_mode_from_u8, set_loop, new_processor,
}

-- A run of reads into buffers of the given sizes, with all that they give.
unfoldable pub read_all :
    {A S : Type 0}
    → SampleProvider A S
    → LoopProcessor S
    → List ℕ
    → Option (LoopProcessor S × List A)
read_all sp p [] = some (p, [])
read_all sp p (n ∷ ns) = elim (read sp p n) [
  | none ↦ none
  | some (p', xs) ↦ elim (read_all sp p' ns) [ none ↦ none | some (p'', ys) ↦ some (p'', xs ++ ys) ]
]

module _ {A S : Type 0} (sp : SampleProvider A S) (samples : List A) (c start end count : ℕ)
    (mode : LoopMode) where
  abbrev ahead : ℕ → ℕ → List A
  ahead = Windows.ahead samples c start end count mode

  abbrev Commands : LoopProcessor S → Type 0
  Commands = Rounds.Commands sp samples c start end count mode

  abbrev Fresh : LoopProcessor S → Type 0
  Fresh = Rounds.Fresh sp samples c start end count mode

  abbrev Playing : LoopProcessor S → ℕ → ℕ → Type 0
  Playing = Rounds.Playing sp samples c start end count mode

  module _ (r : Recording sp samples c) (w : Window samples c start end count mode) where
    abbrev StepsTo : ℕ → ℕ → ℕ → Bool → ℕ → List A → Round A S → Type 0
    StepsTo = Rounds.StepsTo sp samples c start end count mode r w

    -- What a processor has still to play.
    Left : LoopProcessor S → List A → Type 0
    Left p rest =
        Fresh p
        × (((p.inner.exhausted ≡ true) × (rest ≡ []))
            ⊎ ((f : ℕ) × (played : ℕ) × Playing p f played × (rest ≡ ahead (max f start) played)))

    -- A read of `m` frames where `xs` is still to play, after `out`.
    Plays : ℕ → List A → List A → Option (LoopProcessor S × List A) → Type 0
    Plays m xs out o =
        (p : LoopProcessor S) × (o ≡ some (p, out ++ take (m * c) xs)) × Left p (drop (m * c) xs)

    after_end :
        (m : ℕ) (xs out out' : List A) (p : LoopProcessor S)
        → xs ≡ []
        → out' ≡ out
        → p.inner.exhausted ≡ true
        → Fresh p
        → Plays m xs out (some (p, out'))
    unfolding Plays Left
    after_end m xs out out' p nothing same ended fresh = (
      p,
      rw (nothing, take-nil {A = A} (m * c), append-nil out, same),
      (fresh, inl (ended, rw nothing (drop-nil (m * c)))),
    )

    after_step :
        (m k : ℕ) (xs out : List A) (o : Option (LoopProcessor S × List A))
        → k ≤ m
        → Plays (m - k) (drop (k * c) xs) (out ++ take (k * c) xs) o
        → Plays m xs out o
    unfolding Plays
    after_step m k xs out o fits (p, e, rest) =
        let split : m * c ≡ k * c + (m - k) * c =
          ap (λ n. n * c) (omega arith) ∙ add_mul k (m - k) c in
        (
          p,
          e
              ∙ ap (λ l. some (p, l))
                  (append_assoc out (take (k * c) xs) (take ((m - k) * c) (drop (k * c) xs))
                    ∙ ap (λ l. out ++ l)
                        (sym (take-add (k * c) ((m - k) * c) xs)
                          ∙ ap (λ n. take n xs) (sym split))),
          subst (Left p) (sym (drop-add (k * c) ((m - k) * c) xs) ∙ ap (λ n. drop n xs) (sym split))
              rest,
        )

    after_round :
        (fuel m target f played total : ℕ) (passed : Bool) (out : List A) (r : Round A S)
        → StepsTo m f played passed total out r
        → m ≡ target - total
        → total ≤ target
        → m * 2 + (if passed then 0 else 1) ≤ fuel
        → ((p : LoopProcessor S) (f played total : ℕ) (passed : Bool) (out : List A)
            → rounds_left target total passed < fuel
            → Fresh p
            → Playing p f played
            → (passed ≡ true → f ≡ start)
            → total ≤ target
            → Plays
                (target - total)
                (ahead (max f start) played)
                out
                (read_loop sp fuel p target total passed out))
        → Plays m
            (ahead f played)
            out
            (elim r as (λ (r : Round A S). Option (LoopProcessor S × List A)) [
              | finished p total out ↦ some (p, out)
              | again p total passed out ↦ read_loop sp fuel p target total passed out
            ])
    unfolding Rounds.StepsTo
    after_round fuel m target f played total passed out (finished p' total' out')
          (nothing, same, ended, fresh) em below enough plays =
        after_end m (ahead f played) out out' p' nothing same ended fresh
    after_round fuel m target f played total passed out (again p' total' passed' out')
          (k, f', played', fits, et, eo, ea, on, from, flag, moved, fresh) em below enough plays =
        let o : Option (LoopProcessor S × List A) =
          read_loop sp fuel p' target total' passed' out' in
        let rest : Plays (target - total') (ahead (max f' start) played') out' o =
          plays p' f' played' total' passed' out' (ground arith) fresh on flag (omega arith) in
        let rest : Plays (m - k) (ahead f' played') out' o =
          subst (λ n. Plays n (ahead f' played') out' o) (omega arith)
            (subst (λ g. Plays (target - total') (ahead g played') out' o) (omega arith) rest) in
        after_step m k (ahead f played) out o fits (
          subst (λ l. Plays (m - k) (drop (k * c) (ahead f played)) l o) eo
            (subst (λ l. Plays (m - k) l out' o) ea rest))

    still_on :
        (p : LoopProcessor S) (f played : ℕ)
        → Fresh p
        → Playing p f played
        → Left p (ahead (max f start) played)
    unfolding Left
    still_on p f played fresh on = (fresh, inr (f, played, on, refl))

    nothing_read :
        (m : ℕ) (xs out : List A) (p : LoopProcessor S)
        → m ≡ 0
        → Left p xs
        → Plays m xs out (some (p, out))
    unfolding Plays
    nothing_read m xs out p none_left left =
        let none_left : 0 ≡ m * c = zero_times c ∙ ap (λ n. n * c) (sym none_left) in
        (
          p,
          ap (λ l. some (p, l)) (sym (append-nil out) ∙ ap (λ n. out ++ take n xs) none_left),
          subst (λ n. Left p (drop n xs)) none_left left,
        )

    read_loop-Plays :
        (fuel : ℕ) (p : LoopProcessor S) (f played target total : ℕ) (passed : Bool) (out : List A)
        → rounds_left target total passed < fuel
        → Fresh p
        → Playing p f played
        → (passed ≡ true → f ≡ start)
        → total ≤ target
        → Plays
            (target - total)
            (ahead (max f start) played)
            out
            (read_loop sp fuel p target total passed out)
    unfolding read_loop
    read_loop-Plays zero p f played target total passed out enough fresh on flag below =
        absurd (omega arith)
    read_loop-Plays (suc fuel) p f played target total passed out enough fresh on flag below =
        elim (Bool-cases (ltb total target)) [
          | inl more ↦
              rw (more, read_loop)
                (after_round fuel (target - total) target (max f start) played total passed out
                  (round sp p target total passed out)
                  (Rounds.round-StepsTo sp samples c start end count mode r w p f played target
                    total passed out fresh on flag (ltb→lt total target more))
                  refl below (omega arith)
                  (λ p' f' played' total' passed' out' less fresh' on' flag' below'.
                    read_loop-Plays fuel p' f' played' target total' passed' out' less fresh' on'
                      flag' below'))
          | inr full ↦
              rw (full, read_loop)
                (nothing_read (target - total) (ahead (max f start) played) out p (ground arith)
                  (still_on p f played fresh on))
        ]

    loop_mode_from_u8-as_u8 : (m : LoopMode) → loop_mode_from_u8 (loop_mode_as_u8 m) ≡ m
    loop_mode_from_u8-as_u8 LoopMode.one_shot = refl
    loop_mode_from_u8-as_u8 LoopMode.looped = refl
    loop_mode_from_u8-as_u8 LoopMode.looped_infinite = refl
    loop_mode_from_u8-as_u8 LoopMode.hold_last = refl

    refresh-Fresh : (p : LoopProcessor S) → Commands p → Fresh (refresh sp p)
    refresh-Fresh p set = record {
      started = set.0;
      ended = ground (arith, r.has_length p.source, r.has_channels p.source, set.1, w.nonempty);
      moded = ap loop_mode_from_u8 set.2 ∙ loop_mode_from_u8-as_u8 mode;
      count_set = set.3;
      commands = set;
    }

    StillPlays : LoopProcessor S → List A → Type 0
    StillPlays p rest =
        Commands p
        × (((p.inner.exhausted ≡ true) × (rest ≡ []))
            ⊎ ((f : ℕ) × (played : ℕ) × Playing p f played × (rest ≡ ahead (max f start) played)))

    read-StillPlays :
        (p : LoopProcessor S) (xs : List A) (n : ℕ)
        → StillPlays p xs
        → (p' : LoopProcessor S) × (read sp p n ≡ some (p', take (whole c n) xs))
          × StillPlays p' (drop (whole c n) xs)
    unfolding read StillPlays Plays Left
    read-StillPlays p xs n (set, inl (ended, nothing)) = (
      refresh sp p,
      if_true p.inner.exhausted _ _ ended
          ∙ ap (λ l. some (refresh sp p, l))
              (sym (ap (take (whole c n)) nothing ∙ take-nil (whole c n))),
      (set, inl (ended, ap (drop (whole c n)) nothing ∙ drop-nil (whole c n))),
    )
    read-StillPlays p xs n (set, inr (f, played, on, e)) =
        let fresh : Fresh (refresh sp p) = refresh-Fresh p set in
        let on' : Playing (refresh sp p) f played = record {
          loops = on.loops;
          running = on.running;
          placed = on.placed;
          before_end = on.before_end;
          left = on.left;
        } in
        let frames = target_frames sp (refresh sp p) n in
        let asked : (frames - 0) * c ≡ whole c n =
          ap (λ k. k * c) (omega arith) ∙ ap (λ k. n / max k 1 * c) (r.has_channels p.source) in
        let (p', read', (fresh', left)) =
          read_loop-Plays (read_fuel sp (refresh sp p) n) (refresh sp p) f played frames 0 false []
            (omega arith) fresh on' (λ h. cc) (omega arith) in
        (
          p',
          if_false p.inner.exhausted _ _ on.running
              ∙ read'
              ∙ ap (λ l. some (p', l))
                  (ap (λ m. take m (ahead (max f start) played)) asked
                    ∙ ap (take (whole c n)) (sym e)),
          subst (StillPlays p')
              (ap (λ m. drop m (ahead (max f start) played)) asked ∙ ap (drop (whole c n)) (sym e))
              (fresh'.commands, left),
        )

    read_all-cons :
        (p p' p'' : LoopProcessor S) (n : ℕ) (ns : List ℕ) (xs ys : List A)
        → read sp p n ≡ some (p', xs)
        → read_all sp p' ns ≡ some (p'', ys)
        → read_all sp p (n ∷ ns) ≡ some (p'', xs ++ ys)
    unfolding read_all
    read_all-cons p p' p'' n ns xs ys e e' = ground arith

    read_all-StillPlays :
        (p : LoopProcessor S) (xs : List A) (ns : List ℕ)
        → StillPlays p xs
        → (p' : LoopProcessor S) × (read_all sp p ns ≡ some (p', take (whole_all c ns) xs))
          × StillPlays p' (drop (whole_all c ns) xs)
    unfolding read_all
    read_all-StillPlays p xs [] on = (p, refl, on)
    read_all-StillPlays p xs (n ∷ ns) on =
        let (p', e, on') = read-StillPlays p xs n on in
        let (p'', e', on'') = read_all-StillPlays p' (drop (whole c n) xs) ns on' in
        (
          p'',
          read_all-cons p p' p'' n ns _ _ e e'
              ∙ ap (λ l. some (p'', l)) (sym (take-add (whole c n) (whole_all c ns) xs)),
          subst (StillPlays p'') (sym (drop-add (whole c n) (whole_all c ns) xs)) on'',
        )

    -- Reading through a new processor, in buffers of any sizes, gives the window of the recording, over
    -- and over for the loops that are asked for, cut only to what the buffers take: each frame once,
    -- in order, and no frame outside the window.
    pub read_all-stream :
        (s : S) (f end_command : ℕ) (ns : List ℕ)
        → sp.position s ≡ f * c
        → f ≤ start
        → (end_command ≡ end) ⊎ ((end_command ≡ 0) × (end ≡ length samples / max c 1))
        → (p : LoopProcessor S) × (read_all sp
              (set_loop start end_command mode count (new_processor s))
              ns
            ≡ some (
              p,
              take
                  (whole_all c ns)
                  (repeat (suc (loops_left mode count 0)) (slice samples c start end)),
            ))
    unfolding StillPlays
    read_all-stream s f end_command ns placed before ends =
        let fresh = set_loop start end_command mode count (new_processor s) in
        let on : Playing fresh f 0 = record {
          loops = refl;
          running = refl;
          placed = placed;
          before_end = omega (arith, w.nonempty);
          left = omega arith;
        } in
        let (p, e, on') =
          read_all-StillPlays fresh (ahead start 0) ns
            ((refl, ends, refl, refl), inr (f, 0, on, ap (λ g. ahead g 0) (omega arith))) in
        (p, e)
