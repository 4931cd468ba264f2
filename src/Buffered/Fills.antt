-- ===== src/Buffered/Fills.antt =====
-- What the background thread of crates/cuepool-audio/src/buffered_source.rs does to the ring and to the
-- position.
use cue_pool.Base.{
  ℕ, zero, suc, ◌+◌, ◌-◌, ◌^◌, ◌≤◌, ◌<◌, ◌≡◌, inl, inr, refl, sym, ap, subst, ◌∙◌, min, true, false,
  List, [], ◌∷◌, ◌++◌, ◌==◌, length, take, drop, append_assoc, append-nil, drop-add, take-nil,
  length-append, length-take, length-drop, Bool-cases, arith,
}
use cue_pool.Loop.{SampleProvider}
use cue_pool.Loop.Windows.{Recording}
use cue_pool.Buffered.{
  BufferedSource, Background, Callback, advance, is_guarded, is_nil, position, top, checking,
  filling, ending, ended, targeting, locking, reading, pushing, seeking, clearing, basing, zeroing,
  reopening, applying, releasing,
}
use cue_pool.Buffered.Data.{stage, counted, Stream, Data}
use cue_pool.Buffered.Current.{loaded, Current, is_settled}

take-drop_length :
    {A : Type 0} (n : ℕ) (xs : List A) → take n xs ++ drop (length (take n xs)) xs ≡ xs
take-drop_length zero xs = refl
take-drop_length (suc n) [] = refl
take-drop_length (suc n) (x ∷ xs) = ap (λ l. x ∷ l) (take-drop_length n xs)

counted-unguarded : {A : Type 0} (c : Callback A) → is_guarded c ≡ false → counted c ≡ []
counted-unguarded Callback.idle e = refl
counted-unguarded (Callback.comparing n g) e = refl
counted-unguarded (Callback.entering n) e = refl
counted-unguarded (Callback.rechecking n) e = refl
counted-unguarded (Callback.popping n) e = refl
counted-unguarded (Callback.drained n) e = refl
counted-unguarded (Callback.counting xs) e = cc

is_nil→nil : {A : Type 0} (xs : List A) → is_nil xs ≡ true → xs ≡ []
is_nil→nil [] e = refl
is_nil→nil (x ∷ xs) e = cc

take-all : {A : Type 0} (n : ℕ) (xs : List A) → length xs ≤ n → take n xs ≡ xs
take-all n [] h = take-nil n
take-all zero (x ∷ xs) h = absurd (omega (arith, h))
take-all (suc n) (x ∷ xs) h = ap (λ l. x ∷ l) (take-all n xs (omega (arith, h)))

module _ {A S : Type 0} (sp : SampleProvider A S) (samples : List A) where
  abbrev pub DataAt : Background A → BufferedSource A S → Type 0
  DataAt b s =
      Data samples (stage b) (is_guarded s.callback) (counted s.callback) (sp.position s.source)
        s.ring s.capacity s.position_base s.read_pos

  abbrev pub CurrentAt : Background A → BufferedSource A S → Type 0
  CurrentAt b s =
      Current (loaded b) s.seek_generation s.applied_seek_generation s.seek_target
        (is_settled s.control)

  module _ (c : ℕ) (r : Recording sp samples c) where
    read-Stream :
        (s : S) (n base read_pos : ℕ) (flight : List A)
        → Stream samples (sp.position s) base read_pos flight
        → let (s', xs) = sp.read s n in
          Stream samples (sp.position s') base read_pos (flight ++ xs) × (length xs ≤ n)
    read-Stream s n base read_pos flight (at, same, bound) =
        let pos = sp.position s in
        let xs = (sp.read s n).1 in
        let rest = drop pos samples in
        let taken : xs ≡ take n rest = r.reads s n in
        let moved = r.moves s n in
        let long : length xs ≡ min n (length samples - pos) =
          ap length taken ∙ length-take n rest ∙ ap (λ m. min n m) (length-drop pos samples) in
        let longer = length-append flight xs in
        let whole : xs ++ drop (length xs) rest ≡ rest =
          subst (λ l. l ++ drop (length l) rest ≡ rest) (sym taken) (take-drop_length n rest) in
        (
          (
            omega (arith, moved, longer, at),
            append_assoc flight xs (drop (sp.position (sp.read s n).0) samples)
                ∙ ap (λ l. flight ++ (xs ++ l))
                    (ap (λ p. drop p samples) moved ∙ drop-add pos (length xs) samples)
                ∙ ap (λ l. flight ++ l) whole
                ∙ same,
            omega (arith, longer, long, bound, at),
          ),
          omega (arith, long),
        )

    pub advance-DataAt :
        (b : Background A) (s : BufferedSource A S)
        → DataAt b s
        → let s' = advance sp b s in DataAt s'.background s'
    advance-DataAt top s d = ground arith
    advance-DataAt checking s d = ground arith
    advance-DataAt filling s d = elim (Bool-cases s.eof) [
      | inl e ↦ rw e d
      | inr e ↦ rw e (elim (Bool-cases (s.capacity - length s.ring == 0)) [
        | inl full ↦ rw full d
        | inr free ↦ rw free (d.0, omega (arith, d.1))
      ])
    ]
    advance-DataAt ending s d = d
    advance-DataAt ended s d = d
    advance-DataAt (targeting g) s d = d
    advance-DataAt (locking g t) s d = elim (Bool-cases (is_guarded s.callback)) [
      | inl held ↦ rw held d
      | inr left ↦ rw left (
        left,
        counted-unguarded s.callback left,
        λ h. absurd (omega (arith, h)),
        λ h. absurd (omega (arith, h)),
        λ h. absurd (omega (arith, h)),
        λ h. absurd (omega (arith, h)),
      )
    ]
    advance-DataAt (reading n) s d =
        let xs = (sp.read s.source n).1 in
        let flight = counted s.callback ++ s.ring in
        let before : counted s.callback ++ (s.ring ++ []) ≡ flight =
          ap (λ l. counted s.callback ++ l) (append-nil s.ring) in
        let (streams, short) =
          read-Stream s.source n s.position_base s.read_pos flight
            (subst (Stream samples (sp.position s.source) s.position_base s.read_pos) before d.0) in
        let now = append_assoc (counted s.callback) s.ring xs in
        let at = Stream samples (sp.position (sp.read s.source n).0) s.position_base s.read_pos in
        let streams' = subst at now streams in
        elim (Bool-cases (is_nil xs)) [
          | inl empty ↦ rw empty (
            subst (λ l. at (counted s.callback ++ (s.ring ++ l))) (is_nil→nil xs empty) streams',
            omega (arith, d.1),
          )
          | inr filled ↦ rw filled (streams', omega (arith, short, d.1))
        ]
    advance-DataAt (pushing xs) s d =
        let all : take (s.capacity - length s.ring) xs ≡ xs =
          take-all (s.capacity - length s.ring) xs (omega (arith, d.1)) in
        let long = length-append s.ring xs in
        rw all (
          subst
              (λ l.
                Stream samples (sp.position s.source) s.position_base s.read_pos
                  (counted s.callback ++ l))
              (sym (append-nil (s.ring ++ xs))) d.0,
          omega (arith, long, d.1),
        )
    advance-DataAt (seeking g t) s d = (
      d.0,
      d.1,
      λ h. r.seeks s.source t,
      λ h. absurd (omega (arith, h)),
      λ h. absurd (omega (arith, h)),
      λ h. absurd (omega (arith, h)),
    )
    advance-DataAt (clearing g t) s d = (
      d.0,
      d.1,
      λ h. d.2 (omega arith),
      λ h. refl,
      λ h. absurd (omega (arith, h)),
      λ h. absurd (omega (arith, h)),
    )
    advance-DataAt (basing g t) s d = (
      d.0,
      d.1,
      λ h. d.2 (omega arith),
      λ h. d.3 (omega arith),
      λ h. refl,
      λ h. absurd (omega (arith, h)),
    )
    advance-DataAt (zeroing g t) s d = (
      d.0,
      d.1,
      λ h. d.2 (omega arith),
      λ h. d.3 (omega arith),
      λ h. d.4 (omega arith),
      λ h. refl,
    )
    advance-DataAt (reopening g t) s d = d
    advance-DataAt (applying g t) s d = (
      d.0,
      d.1,
      d.3 (omega arith),
      d.2 (omega arith) ∙ sym (d.4 (omega arith)),
      d.5 (omega arith),
    )
    advance-DataAt releasing s (unguarded, taken, ring, at, none_read) =
        let stay : s.position_base ≡ s.position_base + 0 = omega arith in
        rw (taken, ring, at, none_read)
          ((omega arith, ap (λ n. drop n samples) stay, omega arith), omega arith)

  pub advance-CurrentAt :
      (b : Background A) (s : BufferedSource A S)
      → CurrentAt b s
      → let s' = advance sp b s in CurrentAt s'.background s'
  advance-CurrentAt top s d = ground arith
  advance-CurrentAt checking s d = ground arith
  advance-CurrentAt filling s d = ground arith
  advance-CurrentAt ending s d = d
  advance-CurrentAt ended s d = d
  advance-CurrentAt (targeting g) s d = (d.0, d.1, λ e f. refl)
  advance-CurrentAt (locking g t) s d = ground arith
  advance-CurrentAt (reading n) s d = elim (Bool-cases (is_nil (sp.read s.source n).1)) [
    | inl e ↦ rw e d
    | inr e ↦ rw e d
  ]
  advance-CurrentAt (pushing xs) s d = d
  advance-CurrentAt (seeking g t) s d = d
  advance-CurrentAt (clearing g t) s d = d
  advance-CurrentAt (basing g t) s d = d
  advance-CurrentAt (zeroing g t) s d = d
  advance-CurrentAt (reopening g t) s d = d
  advance-CurrentAt (applying g t) s d = d.1
  advance-CurrentAt releasing s d = d

  -- The position does not change while nobody seeks and nobody reads.
  pub advance-position :
      (b : Background A) (s : BufferedSource A S)
      → is_settled s.control ≡ true
      → s.seek_target < 2 ^ 64
      → DataAt b s
      → CurrentAt b s
      → position (advance sp b s) ≡ position s
  advance-position top s settled word d now = ground arith
  advance-position checking s settled word d now = ground arith
  advance-position filling s settled word d now = ground arith
  advance-position ending s settled word d now = refl
  advance-position ended s settled word d now = refl
  advance-position (targeting g) s settled word d now = refl
  advance-position (locking g t) s settled word d now = ground arith
  advance-position (reading n) s settled word d now = refl
  advance-position (pushing xs) s settled word d now = refl
  advance-position (seeking g t) s settled word d now = refl
  advance-position (clearing g t) s settled word d now = refl
  advance-position (basing g t) s settled word d now = ground arith
  advance-position (zeroing g t) s settled word d now = ground arith
  advance-position (reopening g t) s settled word d now = refl
  advance-position (applying g t) s settled word d now = ground arith
  advance-position releasing s settled word d now = refl

  -- What the background thread leaves alone.
  pub advance-same :
      (b : Background A) (s : BufferedSource A S)
      → let s' = advance sp b s in
        (s'.callback ≡ s.callback)
        × (s'.control ≡ s.control)
        × (s'.seek_target ≡ s.seek_target)
        × (s'.seek_generation ≡ s.seek_generation)
  advance-same top s = ground arith
  advance-same checking s = ground arith
  advance-same filling s = ground arith
  advance-same ending s = (refl, refl, refl, refl)
  advance-same ended s = (refl, refl, refl, refl)
  advance-same (targeting g) s = (refl, refl, refl, refl)
  advance-same (locking g t) s = ground arith
  advance-same (reading n) s = (refl, refl, refl, refl)
  advance-same (pushing xs) s = (refl, refl, refl, refl)
  advance-same (seeking g t) s = (refl, refl, refl, refl)
  advance-same (clearing g t) s = (refl, refl, refl, refl)
  advance-same (basing g t) s = (refl, refl, refl, refl)
  advance-same (zeroing g t) s = (refl, refl, refl, refl)
  advance-same (reopening g t) s = (refl, refl, refl, refl)
  advance-same (applying g t) s = (refl, refl, refl, refl)
  advance-same releasing s = (refl, refl, refl, refl)
