-- ===== src/Mtc/Streams.antt =====
-- The messages of MIDI timecode, as its standard writes a time, and what
-- crates/cuepool-protocols/src/midi/mtc.rs makes of them.
use cue_pool.Base.{
  ℕ, ◌+◌, ◌*◌, ◌/◌, ◌%◌, ◌<◌, ◌≡◌, refl, ap, ◌∙◌, Bool, true, false, Option, none, some, List, [],
  ◌∷◌, ◌++◌, arith, All,
}
use cue_pool.Mtc.{
  MtcFrameRate, SmpteTime, MtcDecoder, none_seen, new_decoder, decode_rate, assemble, store,
  feed_quarter_frame, parse_full_frame, feed_all,
}

abbrev pub rate_code : MtcFrameRate → ℕ
rate_code MtcFrameRate.fps24 = 0
rate_code MtcFrameRate.fps25 = 1
rate_code MtcFrameRate.fps2997_drop = 2
rate_code MtcFrameRate.fps30 = 3

-- The values of a time.
pub record Smpte (t : SmpteTime) : Type 0 where
  pub hours : t.hours < 24
  pub minutes : t.minutes < 60
  pub seconds : t.seconds < 60
  pub frames : t.frames < 30

-- The eight quarter frames of a time: the number of the piece above its value.
pub quarter_frames : SmpteTime → List ℕ
quarter_frames t =
    (0 * 16 + t.frames % 16)
    ∷ (1 * 16 + t.frames / 16)
    ∷ (2 * 16 + t.seconds % 16)
    ∷ (3 * 16 + t.seconds / 16)
    ∷ (4 * 16 + t.minutes % 16)
    ∷ (5 * 16 + t.minutes / 16)
    ∷ (6 * 16 + t.hours % 16)
    ∷ (7 * 16 + (rate_code t.frame_rate * 2 + t.hours / 16))
    ∷ []

pub full_frame : ℕ → SmpteTime → List ℕ
full_frame device t =
    0xF0
    ∷ 0x7F
    ∷ device
    ∷ 1
    ∷ 1
    ∷ (rate_code t.frame_rate * 32 + t.hours)
    ∷ t.minutes
    ∷ t.seconds
    ∷ t.frames
    ∷ 0xF7
    ∷ []

rate-back : (r : MtcFrameRate) → decode_rate (rate_code r) ≡ r
rate-back MtcFrameRate.fps24 = refl
rate-back MtcFrameRate.fps25 = refl
rate-back MtcFrameRate.fps2997_drop = refl
rate-back MtcFrameRate.fps30 = refl

rate_code-lt : (r : MtcFrameRate) → rate_code r < 4
rate_code-lt MtcFrameRate.fps24 = omega arith
rate_code-lt MtcFrameRate.fps25 = omega arith
rate_code-lt MtcFrameRate.fps2997_drop = omega arith
rate_code-lt MtcFrameRate.fps30 = omega arith

abbrev time_of : ℕ → ℕ → ℕ → ℕ → MtcFrameRate → SmpteTime
time_of h m s f r = record { hours = h; minutes = m; seconds = s; frames = f; frame_rate = r }

time_of-eq :
    {h m s f c : ℕ} (t : SmpteTime)
    → h ≡ t.hours
    → m ≡ t.minutes
    → s ≡ t.seconds
    → f ≡ t.frames
    → c ≡ rate_code t.frame_rate
    → time_of h m s f (decode_rate c) ≡ t
time_of-eq {h} {m} {s} {f} {c} t a b d e r =
    ap (λ x. time_of x m s f (decode_rate c)) a
    ∙ ap (λ x. time_of t.hours x s f (decode_rate c)) b
    ∙ ap (λ x. time_of t.hours t.minutes x f (decode_rate c)) d
    ∙ ap (λ x. time_of t.hours t.minutes t.seconds x (decode_rate c)) e
    ∙ ap (λ x. time_of t.hours t.minutes t.seconds t.frames (decode_rate x)) r
    ∙ ap (time_of t.hours t.minutes t.seconds t.frames) (rate-back t.frame_rate)

-- The full-frame message of a time, below 24 hours with 30 frames a second at most, is read back as
-- that time.
parse_full_frame-full_frame :
    (device : ℕ) (t : SmpteTime) → Smpte t → parse_full_frame (full_frame device t) ≡ some t
unfolding parse_full_frame full_frame
parse_full_frame-full_frame device t s = ap some (
    time_of-eq {h = (rate_code t.frame_rate * 32 + t.hours) % 32}
      {c = (rate_code t.frame_rate * 32 + t.hours) / 32 % 4} t (omega (arith, s.hours)) refl refl
      refl (omega (arith, s.hours, rate_code-lt t.frame_rate)))

-- A quarter frame of piece `i` with value `v`.
feed-piece :
    (d : MtcDecoder) (i v : ℕ) → i < 8 → v < 16 → feed_quarter_frame d (i * 16 + v) ≡ store d i v
unfolding feed_quarter_frame
feed-piece d i v h k =
    ap (λ x. store d x ((i * 16 + v) % 16)) (piece i v h k) ∙ ap (store d i) (value i v h k)
  where
    piece : (i v : ℕ) → i < 8 → v < 16 → (i * 16 + v) / 16 % 8 ≡ i
    piece i v h k = omega arith

    value : (i v : ℕ) → i < 8 → v < 16 → (i * 16 + v) % 16 ≡ v
    value i v h k = omega arith

-- What `feed_all` makes of what one quarter frame gives.
abbrev fed : MtcDecoder × Option SmpteTime → List ℕ → MtcDecoder × List SmpteTime
fed r xs = let rest = feed_all r.0 xs in (rest.0, elim r.1 [ none ↦ rest.1 | some t ↦ t ∷ rest.1 ])

fed-piece :
    (d : MtcDecoder) (i v : ℕ) (xs : List ℕ)
    → i < 8
    → v < 16
    → feed_all d ((i * 16 + v) ∷ xs) ≡ fed (store d i v) xs
unfolding feed_all
fed-piece d i v xs h k = ap (λ r. fed r xs) (feed-piece d i v h k)

abbrev started : List ℕ → List Bool → MtcDecoder
started n b = record { nibbles = n; seen = b }

-- Eight pieces in order, fed to a decoder that has seen none, whatever nibbles it holds.
fed-pieces :
    (a b c d e f g h : ℕ) (n0 n1 n2 n3 n4 n5 n6 n7 : ℕ) (xs : List ℕ)
    → n0 < 16
    → n1 < 16
    → n2 < 16
    → n3 < 16
    → n4 < 16
    → n5 < 16
    → n6 < 16
    → n7 < 16
    → feed_all (started (a ∷ b ∷ c ∷ d ∷ e ∷ f ∷ g ∷ h ∷ []) none_seen) (
        (0 * 16 + n0)
        ∷ (1 * 16 + n1)
        ∷ (2 * 16 + n2)
        ∷ (3 * 16 + n3)
        ∷ (4 * 16 + n4)
        ∷ (5 * 16 + n5)
        ∷ (6 * 16 + n6)
        ∷ (7 * 16 + n7)
        ∷ xs)
      ≡ fed
          (
            started (n0 ∷ n1 ∷ n2 ∷ n3 ∷ n4 ∷ n5 ∷ n6 ∷ n7 ∷ []) none_seen,
            some (assemble (n0 ∷ n1 ∷ n2 ∷ n3 ∷ n4 ∷ n5 ∷ n6 ∷ n7 ∷ [])),
          )
          xs
unfolding store
fed-pieces a b c d e f g h n0 n1 n2 n3 n4 n5 n6 n7 xs h0 h1 h2 h3 h4 h5 h6 h7 =
    let t = true in
    let o = false in
    fed-piece (started (a ∷ b ∷ c ∷ d ∷ e ∷ f ∷ g ∷ h ∷ []) none_seen) 0 n0 _ (omega arith) h0
    ∙ fed-piece (started (n0 ∷ b ∷ c ∷ d ∷ e ∷ f ∷ g ∷ h ∷ []) (t ∷ o ∷ o ∷ o ∷ o ∷ o ∷ o ∷ o ∷ []))
        1 n1 _ (omega arith) h1
    ∙ fed-piece
        (started (n0 ∷ n1 ∷ c ∷ d ∷ e ∷ f ∷ g ∷ h ∷ []) (t ∷ t ∷ o ∷ o ∷ o ∷ o ∷ o ∷ o ∷ [])) 2 n2 _
        (omega arith) h2
    ∙ fed-piece
        (started (n0 ∷ n1 ∷ n2 ∷ d ∷ e ∷ f ∷ g ∷ h ∷ []) (t ∷ t ∷ t ∷ o ∷ o ∷ o ∷ o ∷ o ∷ [])) 3 n3
        _ (omega arith) h3
    ∙ fed-piece
        (started (n0 ∷ n1 ∷ n2 ∷ n3 ∷ e ∷ f ∷ g ∷ h ∷ []) (t ∷ t ∷ t ∷ t ∷ o ∷ o ∷ o ∷ o ∷ [])) 4 n4
        _ (omega arith) h4
    ∙ fed-piece
        (started (n0 ∷ n1 ∷ n2 ∷ n3 ∷ n4 ∷ f ∷ g ∷ h ∷ []) (t ∷ t ∷ t ∷ t ∷ t ∷ o ∷ o ∷ o ∷ [])) 5
        n5 _ (omega arith) h5
    ∙ fed-piece
        (started (n0 ∷ n1 ∷ n2 ∷ n3 ∷ n4 ∷ n5 ∷ g ∷ h ∷ []) (t ∷ t ∷ t ∷ t ∷ t ∷ t ∷ o ∷ o ∷ [])) 6
        n6 _ (omega arith) h6
    ∙ fed-piece
        (started (n0 ∷ n1 ∷ n2 ∷ n3 ∷ n4 ∷ n5 ∷ n6 ∷ h ∷ []) (t ∷ t ∷ t ∷ t ∷ t ∷ t ∷ t ∷ o ∷ [])) 7
        n7 xs (omega arith) h7

pub stream : List SmpteTime → List ℕ
stream [] = []
stream (t ∷ ts) = quarter_frames t ++ stream ts

abbrev nibbles_of : SmpteTime → List ℕ
nibbles_of t =
    t.frames % 16
    ∷ t.frames / 16
    ∷ t.seconds % 16
    ∷ t.seconds / 16
    ∷ t.minutes % 16
    ∷ t.minutes / 16
    ∷ t.hours % 16
    ∷ (rate_code t.frame_rate * 2 + t.hours / 16)
    ∷ []

assemble-nibbles : (t : SmpteTime) → Smpte t → assemble (nibbles_of t) ≡ t
unfolding assemble
assemble-nibbles t s =
    time_of-eq {h = t.hours % 16 + (rate_code t.frame_rate * 2 + t.hours / 16) % 2 * 16}
      {m = t.minutes % 16 + t.minutes / 16 * 16} {s = t.seconds % 16 + t.seconds / 16 * 16}
      {f = t.frames % 16 + t.frames / 16 * 16}
      {c = (rate_code t.frame_rate * 2 + t.hours / 16) / 2 % 4} t (omega (arith, s.hours))
      (omega arith) (omega arith) (omega arith) (omega (arith, s.hours, rate_code-lt t.frame_rate))

stream_back :
    (a b c d e f g h : ℕ) (ts : List SmpteTime)
    → All Smpte ts
    → (feed_all (started (a ∷ b ∷ c ∷ d ∷ e ∷ f ∷ g ∷ h ∷ []) none_seen) (stream ts)).1 ≡ ts
unfolding feed_all quarter_frames stream
stream_back a b c d e f g h [] s = refl
stream_back a b c d e f g h (t ∷ ts) s =
    let rate : rate_code t.frame_rate * 2 + t.hours / 16 < 16 =
      omega (arith, s.0.hours, rate_code-lt t.frame_rate) in
    ap (λ r. r.1)
      (fed-pieces a b c d e f g h (t.frames % 16) (t.frames / 16) (t.seconds % 16) (t.seconds / 16)
        (t.minutes % 16) (t.minutes / 16) (t.hours % 16) (rate_code t.frame_rate * 2 + t.hours / 16)
        (stream ts) (omega arith) (omega (arith, s.0.frames)) (omega arith)
        (omega (arith, s.0.seconds)) (omega arith) (omega (arith, s.0.minutes)) (omega arith) rate)
    ∙ ap (λ x. x ∷ (feed_all (started (nibbles_of t) none_seen) (stream ts)).1)
        (assemble-nibbles t s.0)
    ∙ ap (λ l. t ∷ l)
        (stream_back (t.frames % 16) (t.frames / 16) (t.seconds % 16) (t.seconds / 16)
          (t.minutes % 16) (t.minutes / 16) (t.hours % 16)
          (rate_code t.frame_rate * 2 + t.hours / 16) ts s.1)

-- A new decoder that is fed the quarter frames of a run of times, each below 24 hours with 30 frames a
-- second at most, gives these times, each once and in order.
pub feed_all-stream :
    (ts : List SmpteTime) → All Smpte ts → (feed_all new_decoder (stream ts)).1 ≡ ts
feed_all-stream ts s = stream_back 0 0 0 0 0 0 0 0 ts s
