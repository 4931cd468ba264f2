-- ===== src/Ltc/Generator.antt =====
-- The frames that `LtcGenerator` (crates/cuepool-protocols/src/ltc.rs) encodes as the show clock runs.
use cue_pool.Base.{
  ℕ, zero, suc, ◌+◌, ◌-◌, ◌*◌, ◌/◌, ◌≤◌, ◌≡◌, ◌∙◌, ap, refl, sym, false, List, [], ◌∷◌, ◌++◌, arith,
}
use cue_pool.Mtc.{MtcFrameRate, SmpteTime}
use cue_pool.Ltc.{frame_label, exact_fps, LtcGenerator, target_frame, labels_from, encode_up_to}

-- The calls at a run of positions, with all the labels that they encode.
unfoldable pub encode_all : LtcGenerator → List ℕ → LtcGenerator × List SmpteTime
encode_all g [] = (g, [])
encode_all g (show ∷ shows) =
    let encoded = encode_up_to g show in
    let rest = encode_all encoded.0 shows in (rest.0, encoded.1 ++ rest.1)

-- Positions that never fall behind the one before.
abbrev pub Forward : ℕ → List ℕ → Type 0
Forward last [] = Unit
Forward last (show ∷ shows) = (last ≤ show) × Forward show shows

-- The first frame that is not yet due at the last position.
abbrev pub next_due : (ℕ → ℕ) → ℕ → List ℕ → ℕ
next_due target next [] = next
next_due target next (show ∷ shows) = next_due target (target show + 1) shows

frames-le :
    (rate : MtcFrameRate) (a b : ℕ)
    → a ≤ b
    → a * (exact_fps rate).0 / ((exact_fps rate).1 * 1_000_000_000)
      ≤ b * (exact_fps rate).0 / ((exact_fps rate).1 * 1_000_000_000)
frames-le MtcFrameRate.fps24 a b h = omega arith
frames-le MtcFrameRate.fps25 a b h = omega arith
frames-le MtcFrameRate.fps2997_drop a b h = omega arith
frames-le MtcFrameRate.fps30 a b h = omega arith

labels_from-append :
    (rate : MtcFrameRate) (n a b : ℕ)
    → labels_from rate n a ++ labels_from rate (n + a) b ≡ labels_from rate n (a + b)
labels_from-append rate n zero b =
    let e : n + 0 ≡ n = omega arith in
    let e' : b ≡ 0 + b = omega arith in
    ap (λ k. labels_from rate k b) e ∙ ap (labels_from rate n) e'
labels_from-append rate n (suc a) b =
    let e : n + suc a ≡ n + 1 + a = omega arith in
    let e' : suc (a + b) ≡ suc a + b = omega arith in
    ap (λ l. frame_label n rate ∷ l)
      (ap (λ k. labels_from rate (n + 1) a ++ labels_from rate k b) e
        ∙ labels_from-append rate (n + 1) a b)
    ∙ ap (labels_from rate n) e'

-- A call that does not jump back.
encode_up_to-forward :
    (g : LtcGenerator) (show : ℕ)
    → g.next_frame ≤ target_frame g show + 1
    → encode_up_to g show ≡ (
      record g { next_frame = target_frame g show + 1 },
      labels_from g.rate g.next_frame (target_frame g show + 1 - g.next_frame),
      false,
    )
unfolding encode_up_to
encode_up_to-forward g show h = ground arith

encode_all-cons :
    (g : LtcGenerator) (show : ℕ) (shows : List ℕ)
    → g.next_frame ≤ target_frame g show + 1
    → encode_all g (show ∷ shows) ≡ (
      (encode_all (record g { next_frame = target_frame g show + 1 }) shows).0,
      labels_from g.rate g.next_frame (target_frame g show + 1 - g.next_frame)
          ++ (encode_all (record g { next_frame = target_frame g show + 1 }) shows).1,
    )
unfolding encode_all
encode_all-cons g show shows h = rw (encode_up_to-forward g show h) refl

-- While the position of the show does not fall, the generator encodes the labels of the frames from
-- its next frame to the one of the last position, each once and in order, whatever the positions
-- between, and then stands behind the last of them.
pub encode_all-labels :
    (g : LtcGenerator) (last : ℕ) (shows : List ℕ)
    → g.next_frame ≤ target_frame g last + 1
    → Forward last shows
    → (encode_all g shows ≡ (
      record g { next_frame = next_due (target_frame g) g.next_frame shows },
      labels_from g.rate g.next_frame (next_due (target_frame g) g.next_frame shows - g.next_frame),
    ))
      × (g.next_frame ≤ next_due (target_frame g) g.next_frame shows)
unfolding encode_all
encode_all-labels g last [] due forward =
    let e : 0 ≡ g.next_frame - g.next_frame = omega arith in
    (ap (λ n. (g, labels_from g.rate g.next_frame n)) e, omega arith)
encode_all-labels g last (show ∷ shows) due forward =
    let target = target_frame g show in
    let later : g.next_frame ≤ target + 1 = omega (arith, frames-le g.rate last show forward.0) in
    let g' : LtcGenerator = record g { next_frame = target + 1 } in
    let (rest, above) = encode_all-labels g' show shows (omega arith) forward.1 in
    let end = next_due (target_frame g) (target + 1) shows in
    let e : g.next_frame + (target + 1 - g.next_frame) ≡ target + 1 = omega arith in
    let e' : target + 1 - g.next_frame + (end - (target + 1)) ≡ end - g.next_frame = omega arith in
    (
      encode_all-cons g show shows later
          ∙ ap (λ r. (r.0, labels_from g.rate g.next_frame (target + 1 - g.next_frame) ++ r.1)) rest
          ∙ ap (λ l. (record g { next_frame = end }, l))
              (ap
                  (λ k.
                    labels_from g.rate g.next_frame (target + 1 - g.next_frame)
                    ++ labels_from g.rate k (end - (target + 1)))
                  (sym e)
                ∙ labels_from-append g.rate g.next_frame (target + 1 - g.next_frame)
                    (end - (target + 1))
                ∙ ap (labels_from g.rate g.next_frame) e'),
      omega arith,
    )
