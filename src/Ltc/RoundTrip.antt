-- ===== src/Ltc/RoundTrip.antt =====
-- One frame through the encoder and the decoder of crates/cuepool-protocols/src/ltc.rs.
use cue_pool.Base.{
  ℕ, suc, ◌+◌, ◌*◌, ◌/◌, ◌%◌, ◌<◌, ◌≡◌, ◌∙◌, ap, refl, sym, Bool, true, false, List, [], ◌∷◌, ◌++◌,
  set, take, length, append_assoc, append-nil, arith,
}
use cue_pool.Mtc.{MtcFrameRate, SmpteTime}
use cue_pool.Ltc.Frame.{
  frame_bits, plain_bits, LtcDecoder, push_bit, push_all, assemble, accept, find_frame, sync_word,
  parity, drop_flag, parity_bit,
}
use cue_pool.Ltc.Codec.{
  Fits, Shows, stays_quiet, reading, register, behind, push_bit-reading, push_all-quiet,
}

-- What is known of a frame before its last bit: the zeros that no field reaches.
abbrev known : List Bool
known =
    false ∷ false ∷ false ∷ false ∷ true ∷ true ∷ true ∷ true ∷ false ∷ false ∷ false ∷ true ∷ true
    ∷ true ∷ true ∷ true ∷ false ∷ false ∷ false ∷ false ∷ true ∷ true ∷ true ∷ true ∷ false ∷ false
    ∷ false ∷ false ∷ true ∷ true ∷ true ∷ true ∷ false ∷ false ∷ false ∷ false ∷ true ∷ true ∷ true
    ∷ true ∷ false ∷ false ∷ false ∷ true ∷ true ∷ true ∷ true ∷ true ∷ false ∷ false ∷ false
    ∷ false ∷ true ∷ true ∷ true ∷ true ∷ false ∷ false ∷ true ∷ false ∷ true ∷ true ∷ true ∷ true
    ∷ true ∷ true ∷ false ∷ false ∷ false ∷ false ∷ false ∷ false ∷ false ∷ false ∷ false ∷ false
    ∷ false ∷ false ∷ true ∷ []

known-stays_quiet : stays_quiet (false ∷ true ∷ []) known ≡ true
known-stays_quiet = refl

-- A frame with the value `v` for its parity.
abbrev pub front : ℕ → ℕ → ℕ → ℕ → MtcFrameRate → ℕ → List ℕ
front h m s f rate v = take 79 (
    set (plain_bits (record { hours = h; minutes = m; seconds = s; frames = f; frame_rate = rate }))
      (parity_bit rate) v)

front-Fits : (h m s f : ℕ) (rate : MtcFrameRate) (v : ℕ) → v < 2 → Fits known (front h m s f rate v)
front-Fits h m s f MtcFrameRate.fps24 v e = omega arith
front-Fits h m s f MtcFrameRate.fps25 v e = omega arith
front-Fits h m s f MtcFrameRate.fps2997_drop v e = omega arith
front-Fits h m s f MtcFrameRate.fps30 v e = omega arith

front-ends :
    (h m s f : ℕ) (rate : MtcFrameRate) (v : ℕ) (r : List ℕ)
    → 1 ∷ take 15 (register r (front h m s f rate v)) ≡ sync_word
front-ends h m s f MtcFrameRate.fps24 v r = refl
front-ends h m s f MtcFrameRate.fps25 v r = refl
front-ends h m s f MtcFrameRate.fps2997_drop v r = refl
front-ends h m s f MtcFrameRate.fps30 v r = refl

pub front-whole :
    (h m s f : ℕ) (rate : MtcFrameRate)
    → let tc : SmpteTime = record {
      hours = h;
      minutes = m;
      seconds = s;
      frames = f;
      frame_rate = rate;
    } in
      frame_bits tc ≡ front h m s f rate (parity (plain_bits tc)) ++ 1 ∷ []
unfolding frame_bits
front-whole h m s f MtcFrameRate.fps24 = refl
front-whole h m s f MtcFrameRate.fps25 = refl
front-whole h m s f MtcFrameRate.fps2997_drop = refl
front-whole h m s f MtcFrameRate.fps30 = refl

two_digits :
    (x : ℕ)
    → x < 40
    → 0
        + x % 10 / 1 % 2 * 1
        + x % 10 / 2 % 2 * 2
        + x % 10 / 4 % 2 * 4
        + x % 10 / 8 % 2 * 8
        + 10 * (0 + x / 10 / 1 % 2 * 1 + x / 10 / 2 % 2 * 2)
      ≡ x
two_digits x h = omega arith

three_digits :
    (x : ℕ)
    → x < 80
    → 0
        + x % 10 / 1 % 2 * 1
        + x % 10 / 2 % 2 * 2
        + x % 10 / 4 % 2 * 4
        + x % 10 / 8 % 2 * 8
        + 10 * (0 + x / 10 / 1 % 2 * 1 + x / 10 / 2 % 2 * 2 + x / 10 / 4 % 2 * 4)
      ≡ x
three_digits x h = omega arith

pub front-accept :
    (fps h m s f : ℕ) (rate : MtcFrameRate) (v : ℕ)
    → h < 40
    → m < 80
    → s < 80
    → f < 40
    → assemble fps (front h m s f rate v ++ 1 ∷ []) ≡ accept fps f s m h (drop_flag rate)
unfolding assemble
front-accept fps h m s f MtcFrameRate.fps24 v h1 h2 h3 h4 = λ i.
    accept fps (two_digits f h4 i) (three_digits s h3 i) (three_digits m h2 i) (two_digits h h1 i) 0
front-accept fps h m s f MtcFrameRate.fps25 v h1 h2 h3 h4 = λ i.
    accept fps (two_digits f h4 i) (three_digits s h3 i) (three_digits m h2 i) (two_digits h h1 i) 0
front-accept fps h m s f MtcFrameRate.fps30 v h1 h2 h3 h4 = λ i.
    accept fps (two_digits f h4 i) (three_digits s h3 i) (three_digits m h2 i) (two_digits h h1 i) 0
front-accept fps h m s f MtcFrameRate.fps2997_drop v h1 h2 h3 h4 = λ i.
    accept fps (two_digits f h4 i) (three_digits s h3 i) (three_digits m h2 i) (two_digits h h1 i) 1

pub parity-lt : (bs : List ℕ) → parity bs < 2
parity-lt [] = omega arith
parity-lt (b ∷ bs) = omega arith

-- A decoder between two frames: nothing stored, and a zero where the register has a one short of the
-- sync word. So a new decoder is, and so every frame leaves it.
abbrev pub Start : LtcDecoder → Type 0
Start d = (d.bit_count ≡ 0) × Shows (false ∷ true ∷ []) d.sync_shift

begin_bit :
    (fps : ℕ) (d : LtcDecoder) (b : ℕ)
    → d.bit_count ≡ 0
    → push_bit fps d b ≡ push_bit fps (reading [] 80 d.sync_shift) b
unfolding push_bit
begin_bit fps d b e = rw e

begin :
    (fps b : ℕ) (d : LtcDecoder) (xs more : List ℕ)
    → d.bit_count ≡ 0
    → push_all fps d (xs ++ b ∷ more) ≡ push_all fps (reading [] 80 d.sync_shift) (xs ++ b ∷ more)
unfolding push_all
begin fps b d [] more e = ap (behind fps more) (begin_bit fps d b e)
begin fps b d (x ∷ xs) more e = ap (behind fps (xs ++ b ∷ more)) (begin_bit fps d x e)

Fits-length : (ks : List Bool) (bs : List ℕ) → Fits ks bs → length bs ≡ length ks
Fits-length [] [] h = refl
Fits-length [] (b ∷ bs) h = absurd h
Fits-length (k ∷ ks) [] h = absurd h
Fits-length (true ∷ ks) (b ∷ bs) h = ap suc (Fits-length ks bs h.1)
Fits-length (false ∷ ks) (b ∷ bs) h = ap suc (Fits-length ks bs h.1)

abbrev pub after_frame : List ℕ → LtcDecoder
after_frame bits = record { bits = bits; bit_count = 0; sync_shift = sync_word }

pub push_all-front :
    (fps h m s f : ℕ) (rate : MtcFrameRate) (v : ℕ) (d : LtcDecoder) (more : List ℕ)
    → v < 2
    → Start d
    → push_all fps d ((front h m s f rate v ++ 1 ∷ []) ++ more)
      ≡ behind fps more (
        after_frame (front h m s f rate v ++ 1 ∷ []),
        assemble fps (front h m s f rate v ++ 1 ∷ []),
      )
unfolding push_all
push_all-front fps h m s f rate v d more e start =
    let F = front h m s f rate v in
    let r = d.sync_shift in
    let fits : Fits known F = front-Fits h m s f rate v e in
    let long : 80 ≡ length F + 1 = omega (arith, Fits-length known F fits) in
    let full : length F + 1 ≡ 80 = sym long in
    ap (push_all fps d) (append_assoc F (1 ∷ []) more)
    ∙ begin fps 1 d F more start.0
    ∙ ap (λ n. push_all fps (reading [] n r) (F ++ 1 ∷ more)) long
    ∙ push_all-quiet fps known (false ∷ true ∷ []) F [] (1 ∷ more) 1 r fits start.1
        known-stays_quiet (omega arith)
    ∙ ap (behind fps more) (
        push_bit-reading fps F 0 (register r F) 1 full (omega arith)
        ∙ ap (λ l. find_frame fps (length F + 1) l (1 ∷ take 15 (register r F)))
            (append-nil (F ++ 1 ∷ []))
        ∙ ap (λ n. find_frame fps n (F ++ 1 ∷ []) (1 ∷ take 15 (register r F))) full
        ∙ ap (find_frame fps 80 (F ++ 1 ∷ [])) (front-ends h m s f rate v r))
