-- ===== src/Mtc.antt =====
-- crates/cuepool-protocols/src/midi/mtc.rs: the MIDI timecode that the program follows. A nibble is
-- below 16, so that `|` of a nibble and a shifted nibble is their sum here. The byte `seen` is the list
-- of its bits, the lowest first.
pub mod Streams
use cue_pool.Base.{
  ℕ, zero, suc, ◌+◌, ◌*◌, ◌/◌, ◌%◌, Bool, true, false, not, ◌&&◌, ◌||◌, Option, none, some, List,
  [], ◌∷◌, ◌==◌, ltb, if◌then◌else◌, length, get_elem?,
}
use cue_pool.Base.{set, get_or}

pub data MtcFrameRate : Type 0 where
  fps24 fps25 fps2997_drop fps30 : MtcFrameRate

pub record SmpteTime : Type 0 where
  pub hours : ℕ
  pub minutes : ℕ
  pub seconds : ℕ
  pub frames : ℕ
  pub frame_rate : MtcFrameRate

pub record MtcDecoder : Type 0 where
  pub nibbles : List ℕ
  pub seen : List Bool

abbrev pub none_seen : List Bool
none_seen = false ∷ false ∷ false ∷ false ∷ false ∷ false ∷ false ∷ false ∷ []

abbrev pub new_decoder : MtcDecoder
new_decoder = record { nibbles = 0 ∷ 0 ∷ 0 ∷ 0 ∷ 0 ∷ 0 ∷ 0 ∷ 0 ∷ []; seen = none_seen }

abbrev pub decode_rate : ℕ → MtcFrameRate
decode_rate bits =
    if bits == 0
    then MtcFrameRate.fps24
    else if bits == 1
    then MtcFrameRate.fps25
    else if bits == 2
    then MtcFrameRate.fps2997_drop
    else MtcFrameRate.fps30

unfoldable pub assemble : List ℕ → SmpteTime
assemble n = record {
  frames = get_or n 0 0 + get_or n 1 0 * 16;
  seconds = get_or n 2 0 + get_or n 3 0 * 16;
  minutes = get_or n 4 0 + get_or n 5 0 * 16;
  hours = get_or n 6 0 + get_or n 7 0 % 2 * 16;
  frame_rate = decode_rate (get_or n 7 0 / 2 % 4);
}

abbrev pub all_seen : List Bool → Bool
all_seen [] = true
all_seen (b ∷ bs) = b && all_seen bs

-- `feed_quarter_frame` behind the split of its byte.
unfoldable pub store : MtcDecoder → ℕ → ℕ → MtcDecoder × Option SmpteTime
unfolding assemble
store d msg_type nibble =
    let nibbles = set d.nibbles msg_type nibble in
    let seen = set d.seen msg_type true in
    if all_seen seen
    then (record { nibbles = nibbles; seen = none_seen }, some (assemble nibbles))
    else (record { nibbles = nibbles; seen = seen }, none)

unfoldable pub feed_quarter_frame : MtcDecoder → ℕ → MtcDecoder × Option SmpteTime
unfolding store
feed_quarter_frame d data' = store d (data' / 16 % 8) (data' % 16)

-- `F0 7F <dev> 01 01 hr mn sc fr F7`.
unfoldable pub parse_full_frame : List ℕ → Option SmpteTime
parse_full_frame msg =
    if ltb (length msg) 10 || not (get_or msg 3 0 == 1) || not (get_or msg 4 0 == 1)
    then none
    else some (record {
      hours = get_or msg 5 0 % 32;
      minutes = get_or msg 6 0;
      seconds = get_or msg 7 0;
      frames = get_or msg 8 0;
      frame_rate = decode_rate (get_or msg 5 0 / 32 % 4);
    })

-- The times that come out of a run of quarter frames, and the decoder behind it.
unfoldable pub feed_all : MtcDecoder → List ℕ → MtcDecoder × List SmpteTime
unfolding feed_quarter_frame
feed_all d [] = (d, [])
feed_all d (x ∷ xs) =
    let fed = feed_quarter_frame d x in
    let rest = feed_all fed.0 xs in (rest.0, elim fed.1 [ none ↦ rest.1 | some t ↦ t ∷ rest.1 ])
