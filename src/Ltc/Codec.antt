-- ===== src/Ltc/Codec.antt =====
-- How the decoder of crates/cuepool-protocols/src/ltc.rs takes in a frame of which the sync word comes
-- last.
use cue_pool.Base.{
  ℕ, zero, suc, ◌+◌, ◌<◌, ◌≡◌, ◌∙◌, ap, refl, sym, Bool, true, false, ◌||◌, ◌&&◌, Option, none,
  some, List, [], ◌∷◌, ◌++◌, ◌==◌, leb, set, take, replicate, append_assoc, append-nil, if_false,
  length-append, lt→ltb, length, arith,
}
use cue_pool.Mtc.{SmpteTime}
use cue_pool.Ltc.Frame.{
  LtcDecoder, push_bit, push_all, sync_word, bits_eq, store_bit, cleared, find_frame,
}

-- What is known of a bit that comes in: `true` stands for a zero, `false` for any bit.
abbrev pub Fits : List Bool → List ℕ → Type 0
Fits [] [] = Unit
Fits [] (b ∷ bs) = ⊥
Fits (k ∷ ks) [] = ⊥
Fits (true ∷ ks) (b ∷ bs) = (b ≡ 0) × Fits ks bs
Fits (false ∷ ks) (b ∷ bs) = (b < 2) × Fits ks bs

-- What is known of the first bits of the register.
abbrev pub Shows : List Bool → List ℕ → Type 0
Shows [] bs = Unit
Shows (k ∷ ks) [] = ⊥
Shows (true ∷ ks) (b ∷ bs) = (b ≡ 0) × Shows ks bs
Shows (false ∷ ks) (b ∷ bs) = Shows ks bs

-- A known zero stands where the sync word has a one.
abbrev pub excludes : List Bool → List ℕ → Bool
excludes [] ss = false
excludes (k ∷ ks) [] = false
excludes (k ∷ ks) (s ∷ ss) = (k && s == 1) || excludes ks ss

-- The sync word does not appear while bits come in of which `ps` is known.
abbrev pub stays_quiet : List Bool → List Bool → Bool
stays_quiet ks [] = true
stays_quiet ks (p ∷ ps) = excludes (p ∷ take 15 ks) sync_word && stays_quiet (p ∷ take 15 ks) ps

Shows-take : (n : ℕ) (ks : List Bool) (bs : List ℕ) → Shows ks bs → Shows (take n ks) (take n bs)
Shows-take zero ks bs h = tt
Shows-take (suc n) [] bs h = tt
Shows-take (suc n) (k ∷ ks) [] h = absurd h
Shows-take (suc n) (true ∷ ks) (b ∷ bs) h = (h.0, Shows-take n ks bs h.1)
Shows-take (suc n) (false ∷ ks) (b ∷ bs) h = Shows-take n ks bs h

excludes-bits_eq :
    (ks : List Bool) (bs ss : List ℕ) → Shows ks bs → excludes ks ss ≡ true → bits_eq bs ss ≡ false
excludes-bits_eq [] bs ss h e = cc
excludes-bits_eq (k ∷ ks) [] ss h e = absurd h
excludes-bits_eq (k ∷ ks) (b ∷ bs) [] h e = cc
excludes-bits_eq (true ∷ ks) (b ∷ bs) (s ∷ ss) h e = ground (arith, excludes-bits_eq ks bs ss h.1)
excludes-bits_eq (false ∷ ks) (b ∷ bs) (s ∷ ss) h e = ground (arith, excludes-bits_eq ks bs ss h)

Fits-lt : (p : Bool) (b : ℕ) (ps : List Bool) (bs : List ℕ) → Fits (p ∷ ps) (b ∷ bs) → b < 2
Fits-lt true b ps bs h = omega (arith, h.0)
Fits-lt false b ps bs h = h.0

Fits-rest : (p : Bool) (b : ℕ) (ps : List Bool) (bs : List ℕ) → Fits (p ∷ ps) (b ∷ bs) → Fits ps bs
Fits-rest true b ps bs h = h.1
Fits-rest false b ps bs h = h.1

Shows-push :
    (p : Bool) (b : ℕ) (ps : List Bool) (bs : List ℕ) (ks : List Bool) (r : List ℕ)
    → Fits (p ∷ ps) (b ∷ bs)
    → Shows ks r
    → Shows (p ∷ take 15 ks) (b ∷ take 15 r)
Shows-push true b ps bs ks r h s = (h.0, Shows-take 15 ks r s)
Shows-push false b ps bs ks r h s = Shows-take 15 ks r s

and_left : (a b : Bool) → (a && b) ≡ true → a ≡ true
and_left true b h = refl
and_left false b h = cc

and_right : (a b : Bool) → (a && b) ≡ true → b ≡ true
and_right true b h = h
and_right false b h = cc

-- A decoder that has taken in the bits `done` of a frame, with the register `r`.
abbrev pub reading : List ℕ → ℕ → List ℕ → LtcDecoder
reading done n r = record { bits = done ++ replicate n 0; bit_count = length done; sync_shift = r }

cleared-reading :
    (done : List ℕ) (n : ℕ) (r : List ℕ)
    → length done + n ≡ 80
    → cleared (reading done n r) ≡ done ++ replicate n 0
cleared-reading [] n r e = let e' : 80 ≡ n = omega arith in ap (λ k. replicate k 0) e'
cleared-reading (b ∷ done) n r e = ground arith

set_at_end :
    (done : List ℕ) (n b : ℕ)
    → set (done ++ replicate (suc n) 0) (length done) b ≡ (done ++ b ∷ []) ++ replicate n 0
set_at_end [] n b = refl
set_at_end (x ∷ done) n b = ap (λ l. x ∷ l) (set_at_end done n b)

store_bit-reading :
    (done : List ℕ) (n b : ℕ)
    → b < 2
    → length done < 80
    → store_bit (done ++ replicate (suc n) 0) (length done) b ≡ (done ++ b ∷ []) ++ replicate n 0
store_bit-reading done n zero h g = sym (append_assoc done (0 ∷ []) (replicate n 0))
store_bit-reading done n (suc zero) h g = rw (lt→ltb (length done) 80 g) (set_at_end done n 1)
store_bit-reading done n (suc (suc b)) h g = absurd (omega arith)

pub push_bit-reading :
    (fps : ℕ) (done : List ℕ) (n : ℕ) (r : List ℕ) (b : ℕ)
    → length done + suc n ≡ 80
    → b < 2
    → push_bit fps (reading done (suc n) r) b
      ≡ find_frame fps (length done + 1) ((done ++ b ∷ []) ++ replicate n 0) (b ∷ take 15 r)
unfolding push_bit
push_bit-reading fps done n r b e h =
    let within : leb 80 (length done) ≡ false = ground arith in
    rw (within, cleared-reading done (suc n) r e)
      (ap (λ l. find_frame fps (length done + 1) l (b ∷ take 15 r))
        (store_bit-reading done n b h (omega arith)))

-- The register behind a run of bits.
abbrev pub register : List ℕ → List ℕ → List ℕ
register r [] = r
register r (b ∷ bs) = register (b ∷ take 15 r) bs

push_bit-quiet :
    (fps : ℕ) (done : List ℕ) (n : ℕ) (r : List ℕ) (b : ℕ)
    → length done + suc n ≡ 80
    → b < 2
    → bits_eq (b ∷ take 15 r) sync_word ≡ false
    → push_bit fps (reading done (suc n) r) b ≡ (reading (done ++ b ∷ []) n (b ∷ take 15 r), none)
push_bit-quiet fps done n r b e h other =
    push_bit-reading fps done n r b e h
    ∙ if_false (bits_eq (b ∷ take 15 r) sync_word) _ _ other
    ∙ ap
        (λ k. (
          record {
            bits = (done ++ b ∷ []) ++ replicate n 0;
            bit_count = k;
            sync_shift = b ∷ take 15 r;
          },
          none,
        ))
        (sym (length-append done (b ∷ [])))

-- What a pushed bit leaves to the bits behind it.
abbrev pub behind : ℕ → List ℕ → LtcDecoder × Option SmpteTime → LtcDecoder × List SmpteTime
behind fps more pushed =
    let rest = push_all fps pushed.0 more in
    (rest.0, elim pushed.1 [ none ↦ rest.1 | some tc ↦ tc ∷ rest.1 ])

push_all-none :
    (fps : ℕ) (d d' : LtcDecoder) (b : ℕ) (more : List ℕ)
    → push_bit fps d b ≡ (d', none)
    → push_all fps d (b ∷ more) ≡ push_all fps d' more
unfolding push_all
push_all-none fps d d' b more e = ap (behind fps more) e

push_all-step :
    (fps : ℕ) (done more : List ℕ) (n : ℕ) (r : List ℕ) (b : ℕ)
    → length done + suc n ≡ 80
    → b < 2
    → bits_eq (b ∷ take 15 r) sync_word ≡ false
    → push_all fps (reading done (suc n) r) (b ∷ more)
      ≡ push_all fps (reading (done ++ b ∷ []) n (b ∷ take 15 r)) more
push_all-step fps done more n r b e h other =
    push_all-none fps (reading done (suc n) r) _ b more (push_bit-quiet fps done n r b e h other)

-- While the sync word does not appear, bits are stored one behind the other.
pub push_all-quiet :
    (fps : ℕ) (ps ks : List Bool) (bs done more : List ℕ) (n : ℕ) (r : List ℕ)
    → Fits ps bs
    → Shows ks r
    → stays_quiet ks ps ≡ true
    → length done + (length bs + n) ≡ 80
    → push_all fps (reading done (length bs + n) r) (bs ++ more)
      ≡ push_all fps (reading (done ++ bs) n (register r bs)) more
push_all-quiet fps [] ks [] done more n r fits shows quiet e =
    let e' : 0 + n ≡ n = omega arith in
    ap (λ k. push_all fps (reading done k r) more) e'
    ∙ ap
        (λ l.
          push_all fps (record { bits = l ++ replicate n 0; bit_count = length l; sync_shift = r })
            more)
        (sym (append-nil done))
push_all-quiet fps [] ks (b ∷ bs) done more n r fits shows quiet e = absurd fits
push_all-quiet fps (p ∷ ps) ks [] done more n r fits shows quiet e = absurd fits
push_all-quiet fps (p ∷ ps) ks (b ∷ bs) done more n r fits shows quiet e =
    let known : Shows (p ∷ take 15 ks) (b ∷ take 15 r) = Shows-push p b ps bs ks r fits shows in
    let bit : b < 2 = Fits-lt p b ps bs fits in
    let other : bits_eq (b ∷ take 15 r) sync_word ≡ false =
      excludes-bits_eq (p ∷ take 15 ks) (b ∷ take 15 r) sync_word known
        (and_left _ (stays_quiet (p ∷ take 15 ks) ps) quiet) in
    let e' : suc (length bs) + n ≡ suc (length bs + n) = omega arith in
    ap (λ k. push_all fps (reading done k r) (b ∷ (bs ++ more))) e'
    ∙ push_all-step fps done (bs ++ more) (length bs + n) r b (omega arith) bit other
    ∙ push_all-quiet fps ps (p ∷ take 15 ks) bs (done ++ b ∷ []) more n (b ∷ take 15 r)
        (Fits-rest p b ps bs fits) known (and_right (excludes (p ∷ take 15 ks) sync_word) _ quiet)
        (omega (arith, length-append done (b ∷ [])))
    ∙ ap (λ l. push_all fps (reading l n (register r (b ∷ bs))) more)
        (append_assoc done (b ∷ []) bs)
