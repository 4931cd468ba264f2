-- ===== src/Ltc/Stream.antt =====
-- A stream of frames through the encoder and the decoder of crates/cuepool-protocols/src/ltc.rs.
use cue_pool.Base.{
  ℕ, ◌≤◌, ◌<◌, ◌≡◌, ◌∙◌, ap, refl, Bool, true, false, not, ◌||◌, none, some, List, [], ◌∷◌, ◌++◌,
  leb, if◌then◌else◌, arith, All, filter_by,
}
use cue_pool.Mtc.{MtcFrameRate, SmpteTime}
use cue_pool.Ltc.Frame.{frame_bits, plain_bits, LtcDecoder, push_all, accept, parity, drop_flag}
use cue_pool.Ltc.Codec.{behind}
use cue_pool.Ltc.RoundTrip.{
  Start, front, front-whole, front-accept, after_frame, parity-lt, push_all-front,
}

-- Values that the bits of their digits can hold.
pub record Wire (tc : SmpteTime) : Type 0 where
  pub hours : tc.hours < 40
  pub minutes : tc.minutes < 80
  pub seconds : tc.seconds < 80
  pub frames : tc.frames < 40

-- The rates, in thousandths of a frame per second, that are taken for a frame rate.
abbrev pub Measures : MtcFrameRate → ℕ → Type 0
Measures MtcFrameRate.fps24 fps = fps < 24_500
Measures MtcFrameRate.fps25 fps = (24_500 ≤ fps) × (fps < 27_500)
Measures MtcFrameRate.fps2997_drop fps = 27_500 ≤ fps
Measures MtcFrameRate.fps30 fps = 27_500 ≤ fps

abbrev pub on_clock : SmpteTime → Bool
on_clock tc = not (leb 30 tc.frames || leb 60 tc.seconds || leb 60 tc.minutes || leb 24 tc.hours)

abbrev pub frames_of : List SmpteTime → List ℕ
frames_of [] = []
frames_of (tc ∷ tcs) = frame_bits tc ++ frames_of tcs

accept-on_clock :
    (fps h m s f : ℕ) (rate : MtcFrameRate)
    → Measures rate fps
    → let tc : SmpteTime = record {
      hours = h;
      minutes = m;
      seconds = s;
      frames = f;
      frame_rate = rate;
    } in
      accept fps f s m h (drop_flag rate) ≡ (if on_clock tc then some tc else none)
accept-on_clock fps h m s f MtcFrameRate.fps24 e = ground arith
accept-on_clock fps h m s f MtcFrameRate.fps25 e = ground arith
accept-on_clock fps h m s f MtcFrameRate.fps2997_drop e = ground arith
accept-on_clock fps h m s f MtcFrameRate.fps30 e = ground arith

push_all-frame :
    (fps : ℕ) (tc : SmpteTime) (d : LtcDecoder) (more : List ℕ)
    → Wire tc
    → Measures tc.frame_rate fps
    → Start d
    → (d' : LtcDecoder) × Start d'
      × (push_all fps d (frame_bits tc ++ more)
          ≡ behind fps more (d', if on_clock tc then some tc else none))
push_all-frame fps tc d more w e start =
    let v = parity (plain_bits tc) in
    let whole : frame_bits tc
        ≡ front tc.hours tc.minutes tc.seconds tc.frames tc.frame_rate v ++ 1 ∷ [] =
      front-whole tc.hours tc.minutes tc.seconds tc.frames tc.frame_rate in
    let bits = front tc.hours tc.minutes tc.seconds tc.frames tc.frame_rate v ++ 1 ∷ [] in
    (
      after_frame bits,
      (refl, (refl, tt)),
      ap (λ l. push_all fps d (l ++ more)) whole
          ∙ push_all-front fps tc.hours tc.minutes tc.seconds tc.frames tc.frame_rate v d more
              (parity-lt (plain_bits tc)) start
          ∙ ap (λ o. behind fps more (after_frame bits, o))
              (front-accept fps tc.hours tc.minutes tc.seconds tc.frames tc.frame_rate v w.hours
                  w.minutes w.seconds w.frames
                ∙ accept-on_clock fps tc.hours tc.minutes tc.seconds tc.frames tc.frame_rate e),
    )

heard :
    (b : Bool) (tc : SmpteTime) (xs ys : List SmpteTime)
    → xs ≡ ys
    → elim (if b then some tc else none) [ none ↦ xs | some t ↦ t ∷ xs ]
      ≡ (if b then tc ∷ ys else ys)
heard true tc xs ys e = ap (λ l. tc ∷ l) e
heard false tc xs ys e = e

-- A decoder that starts between two frames gives of a stream of encoded frames those that are times of
-- a day, each once and in order, and drops the others: so with the rates that the frames were sent at
-- or near to.
pub push_all-frames :
    (fps : ℕ) (d : LtcDecoder) (tcs : List SmpteTime)
    → Start d
    → All (λ (tc : SmpteTime). Wire tc × Measures tc.frame_rate fps) tcs
    → (push_all fps d (frames_of tcs)).1 ≡ filter_by on_clock tcs
unfolding push_all
push_all-frames fps d [] start ok = refl
push_all-frames fps d (tc ∷ tcs) start ok =
    let (d', start', e) = push_all-frame fps tc d (frames_of tcs) ok.0.0 ok.0.1 start in
    ap (λ r. r.1) e
    ∙ heard (on_clock tc) tc (push_all fps d' (frames_of tcs)).1 (filter_by on_clock tcs)
        (push_all-frames fps d' tcs start' ok.1)
