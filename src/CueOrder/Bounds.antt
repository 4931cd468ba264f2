-- ===== src/CueOrder/Bounds.antt =====
-- The blocks of crates/cuepool-gui/src/cue_order.rs lie within the cue list.
use cue_pool.Base.{
  ℕ, ◌+◌, ◌≤◌, ◌<◌, ◌≡◌, refl, Bool, ◌&&◌, Option, none, some, List, [], ◌∷◌, arith, length, drop,
  take, get_elem?, if◌then◌else◌, ltb, leb, Option-cases, inl, inr, length-drop, length-take,
  get_elem?-none_le, Bool-cases,
}
use cue_pool.Cue.{Cue, qid, is_group}
use cue_pool.Sequence.{has_qid}
use cue_pool.CueOrder.{Range, leading_members, span, enclosing_span, rposition_by, parent_at}

leading_members-le : (g : ℕ) (cs : List Cue) → leading_members g cs ≤ length cs
unfolding leading_members
leading_members-le g [] = omega arith
leading_members-le g (c ∷ cs) = ground (arith, leading_members-le g cs)

-- A block that holds row `i`.
pub record Holds (cues : List Cue) (i : ℕ) (r : Range) : Type 0 where
  pub from : r.start ≤ i
  pub beyond : i < r.end
  pub inside : r.end ≤ length cues

pub span-start : (cues : List Cue) (i : ℕ) → (span cues i).start ≡ i
unfolding span
span-start cues i = ground arith

pub span-Holds : (cues : List Cue) (i : ℕ) → i < length cues → Holds cues i (span cues i)
unfolding span
span-Holds cues i h = elim (Option-cases (get_elem? cues i)) [
  | inl off ↦ absurd (omega (arith, get_elem?-none_le cues i off))
  | inr (c, on) ↦ record {
    from = ground arith;
    beyond = ground (arith, on);
    inside =
        ground
          (arith, on, leading_members-le (qid c) (drop (i + 1) cues), length-drop (i + 1) cues);
  }
]

pub rposition-lt :
    (p : Cue → Bool) (cs : List Cue) (n : ℕ) → rposition_by p cs ≡ some n → n < length cs
rposition-lt p [] n h = absurd (ground arith)
rposition-lt p (c ∷ cs) n h = elim (Option-cases (rposition_by p cs)) [
  | inl off ↦ ground (arith, off)
  | inr (m, on) ↦ ground (arith, on, rposition-lt p cs m on)
]

if-Holds :
    (cues : List Cue) (i : ℕ) (r other : Range)
    → r.end ≤ length cues
    → Holds cues i other
    → Holds cues i (if leb r.start i && ltb i r.end then r else other)
if-Holds cues i r other k o = elim (Bool-cases (leb r.start i && ltb i r.end)) [
  | inl held ↦ rw held (record { from = ground arith; beyond = ground arith; inside = k })
  | inr missed ↦ rw missed o
]

pub enclosing_span-Holds :
    (cues : List Cue) (i : ℕ) → i < length cues → Holds cues i (enclosing_span cues i)
unfolding enclosing_span
enclosing_span-Holds cues i h = elim (Option-cases (parent_at cues i)) [
  | inl top ↦ rw (top, enclosing_span) (span-Holds cues i h)
  | inr (g, inside) ↦
      rw (inside, enclosing_span)
        (by_header (rposition_by (λ c. is_group c && has_qid g c) (take i cues))
          λ n e. rposition-lt (λ c. is_group c && has_qid g c) (take i cues) n e)
]
  where
    by_header :
        (o : Option ℕ)
        → ((n : ℕ) → o ≡ some n → n < length (take i cues))
        → Holds cues i (elim o [
          | none ↦ span cues i
          | some header ↦
              let s = span cues header in if leb s.start i && ltb i s.end then s else span cues i
        ])
    by_header none k = span-Holds cues i h
    by_header (some header) k =
        let s = span-Holds cues header (omega (arith, k header refl, length-take i cues)) in
        if-Holds cues i (span cues header) (span cues i) s.inside (span-Holds cues i h)
