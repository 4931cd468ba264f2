-- ===== src/Ltc/Frame.antt =====
-- The 80 bits of a frame of linear timecode, and the register of the decoder that finds them in a run of
-- bits (crates/cuepool-protocols/src/ltc.rs). The ten bytes `bits` are the list of their 80 bits and
-- the word `sync_shift` is the list of its 16, the lowest first. The measured rate, an f64, is in
-- thousandths of a frame per second.
use cue_pool.Base.{
  ℕ, zero, suc, ◌+◌, ◌-◌, ◌*◌, ◌/◌, ◌%◌, ◌^◌, Bool, true, false, not, ◌||◌, ◌&&◌, Option, none,
  some, List, [], ◌∷◌, ◌++◌, ◌==◌, ltb, leb, if◌then◌else◌, set, get_or, take, drop, replicate,
}
use cue_pool.Mtc.{MtcFrameRate, SmpteTime}

-- `for i in 0..n { b[pos + i] = (val >> i) & 1 }`.
abbrev pub set_bits : List ℕ → ℕ → ℕ → ℕ → List ℕ
set_bits b pos val zero = b
set_bits b pos val (suc n) = set (set_bits b pos val n) (pos + n) (val / 2 ^ n % 2)

-- `for i in 0..n { v |= bit(pos + i) << i }`.
abbrev pub get_bits : List ℕ → ℕ → ℕ → ℕ
get_bits b pos zero = 0
get_bits b pos (suc n) = get_bits b pos n + get_or b (pos + n) 0 * 2 ^ n

-- `for i in 0..n { b[64 + i] = (SYNC_WORD >> (15 - i)) & 1 }`.
abbrev pub set_sync : List ℕ → ℕ → List ℕ
set_sync b zero = b
set_sync b (suc n) = set (set_sync b n) (64 + n) (0x3FFD / 2 ^ (15 - n) % 2)

-- The exclusive or of bits.
abbrev pub parity : List ℕ → ℕ
parity [] = 0
parity (b ∷ bs) = (b + parity bs) % 2

abbrev pub drop_flag : MtcFrameRate → ℕ
drop_flag MtcFrameRate.fps2997_drop = 1
drop_flag MtcFrameRate.fps24 = 0
drop_flag MtcFrameRate.fps25 = 0
drop_flag MtcFrameRate.fps30 = 0

abbrev pub parity_bit : MtcFrameRate → ℕ
parity_bit MtcFrameRate.fps25 = 59
parity_bit MtcFrameRate.fps24 = 27
parity_bit MtcFrameRate.fps2997_drop = 27
parity_bit MtcFrameRate.fps30 = 27

-- The frame before its parity bit is set.
abbrev pub plain_bits : SmpteTime → List ℕ
plain_bits tc =
    let b = set_bits (replicate 80 0) 0 (tc.frames % 10) 4 in
    let b = set_bits b 8 (tc.frames / 10) 2 in
    let b = set b 10 (drop_flag tc.frame_rate) in
    let b = set_bits b 16 (tc.seconds % 10) 4 in
    let b = set_bits b 24 (tc.seconds / 10) 3 in
    let b = set_bits b 32 (tc.minutes % 10) 4 in
    let b = set_bits b 40 (tc.minutes / 10) 3 in
    let b = set_bits b 48 (tc.hours % 10) 4 in
    let b = set_bits b 56 (tc.hours / 10) 2 in set_sync b 16

unfoldable pub frame_bits : SmpteTime → List ℕ
frame_bits tc = set (plain_bits tc) (parity_bit tc.frame_rate) (parity (plain_bits tc))

-- The part of `LtcDecoder` behind the detection of transitions.
pub record LtcDecoder : Type 0 where
  pub bits : List ℕ
  pub bit_count : ℕ
  pub sync_shift : List ℕ

abbrev pub new_ltc_decoder : LtcDecoder
new_ltc_decoder = record { bits = replicate 80 0; bit_count = 0; sync_shift = replicate 16 0 }

-- 0x3FFD, the lowest bit first.
abbrev pub sync_word : List ℕ
sync_word = 1 ∷ 0 ∷ 1 ∷ 1 ∷ 1 ∷ 1 ∷ 1 ∷ 1 ∷ 1 ∷ 1 ∷ 1 ∷ 1 ∷ 1 ∷ 1 ∷ 0 ∷ 0 ∷ []

abbrev pub bits_eq : List ℕ → List ℕ → Bool
bits_eq [] [] = true
bits_eq [] (b ∷ bs) = false
bits_eq (a ∷ as') [] = false
bits_eq (a ∷ as') (b ∷ bs) = a == b && bits_eq as' bs

abbrev pub rate_of : ℕ → ℕ → MtcFrameRate
rate_of fps drop_frame =
    if ltb fps 24_500
    then MtcFrameRate.fps24
    else if ltb fps 27_500
    then MtcFrameRate.fps25
    else if not (drop_frame == 0)
    then MtcFrameRate.fps2997_drop
    else MtcFrameRate.fps30

-- Fields beyond their range are garbage that happened to stand before a sync word.
abbrev pub accept : ℕ → ℕ → ℕ → ℕ → ℕ → ℕ → Option SmpteTime
accept fps frames seconds minutes hours drop_frame =
    if leb 30 frames || leb 60 seconds || leb 60 minutes || leb 24 hours
    then none
    else some (record {
      hours = hours;
      minutes = minutes;
      seconds = seconds;
      frames = frames;
      frame_rate = rate_of fps drop_frame;
    })

unfoldable pub assemble : ℕ → List ℕ → Option SmpteTime
assemble fps b =
    accept fps (get_bits b 0 4 + 10 * get_bits b 8 2) (get_bits b 16 4 + 10 * get_bits b 24 3)
      (get_bits b 32 4 + 10 * get_bits b 40 3) (get_bits b 48 4 + 10 * get_bits b 56 2)
      (get_bits b 10 1)

abbrev pub cleared : LtcDecoder → List ℕ
cleared d = if d.bit_count == 0 then replicate 80 0 else d.bits

-- A bit too many since the last sync word: the frame moves back by one bit.
abbrev pub run_on : ℕ → List ℕ → List ℕ
run_on count bits = if leb 80 count then drop 1 bits ++ 0 ∷ [] else bits

abbrev pub run_on_count : ℕ → ℕ
run_on_count count = if leb 80 count then count - 1 else count

abbrev pub store_bit : List ℕ → ℕ → ℕ → List ℕ
store_bit bits count bit = if not (bit == 0) && ltb count 80 then set bits count 1 else bits

-- The test for the sync word, behind a stored bit.
abbrev pub find_frame : ℕ → ℕ → List ℕ → List ℕ → LtcDecoder × Option SmpteTime
find_frame fps count bits sync_shift =
    if bits_eq sync_shift sync_word
    then (
      record { bits = bits; bit_count = 0; sync_shift = sync_shift },
      if count == 80 then assemble fps bits else none,
    )
    else (record { bits = bits; bit_count = count; sync_shift = sync_shift }, none)

unfoldable pub push_bit : ℕ → LtcDecoder → ℕ → LtcDecoder × Option SmpteTime
unfolding assemble
push_bit fps d bit =
    let count = run_on_count d.bit_count in
    let bits = store_bit (run_on d.bit_count (cleared d)) count bit in
    find_frame fps (count + 1) bits (bit ∷ take 15 d.sync_shift)

-- A run of bits, with the frames that are found in it.
unfoldable pub push_all : ℕ → LtcDecoder → List ℕ → LtcDecoder × List SmpteTime
push_all fps d [] = (d, [])
push_all fps d (bit ∷ bits) =
    let pushed = push_bit fps d bit in
    let rest = push_all fps pushed.0 bits in
    (rest.0, elim pushed.1 [ none ↦ rest.1 | some tc ↦ tc ∷ rest.1 ])
