-- ===== src/CueOrder/Groups.antt =====
-- The blocks of crates/cuepool-gui/src/cue_order.rs in a list whose groups stand in no group.
use cue_pool.Base.{
  ℕ, ◌≤◌, ◌<◌, ◌≡◌, refl, ap, sym, ◌∙◌, Bool, true, ◌&&◌, Option, none, some, List, arith, length,
  take, get_elem?, get_elem?-lt, if◌then◌else◌, ltb, leb, Option-cases, Bool-cases,
  get_elem?-none_le, length-take, inl, inr,
}
use cue_pool.Cue.{Cue, qid, parent, is_group}
use cue_pool.Sequence.{has_qid}
use cue_pool.CueOrder.{Range, span, enclosing_span, rposition_by}
use cue_pool.CueOrder.Bounds.{span-start, span-Holds, rposition-lt}
use cue_pool.CueOrder.Members.{
  Flat, Flat-parent, get-take, rposition-at, rposition-last, inner-parent,
}

-- A row that stands behind the first row of no block.
abbrev pub Outermost : List Cue → ℕ → Type 0
Outermost cues j = (g : ℕ) → g < j → (span cues g).end ≤ j

pub top-Outermost :
    (cues : List Cue) (j : ℕ) (d : Cue)
    → get_elem? cues j ≡ some d
    → parent d ≡ none
    → Outermost cues j
top-Outermost cues j d at top g l = elim (Bool-cases (leb (span cues g).end j)) [
  | inl ends ↦ ground (arith, ends)
  | inr lasts ↦
      let (c, on, grouped, joins) = inner-parent cues g j d l (ground (arith, lasts)) at in
      let clash : none ≡ some (qid c) = sym top ∙ joins in cc
]

group-Outermost :
    (cues : List Cue) (j : ℕ) (d : Cue)
    → Flat cues
    → get_elem? cues j ≡ some d
    → is_group d ≡ true
    → Outermost cues j
group-Outermost cues j d f at grouped =
    top-Outermost cues j d at (Flat-parent cues j d f at grouped)

-- The block that holds row `n`, and no other block does.
pub record Block (cues : List Cue) (n : ℕ) (r : Range) : Type 0 where
  pub first : ℕ
  pub is_span : r ≡ span cues first
  pub from : first ≤ n
  pub beyond : n < (span cues first).end
  pub outermost : Outermost cues first

own_Block :
    (cues : List Cue) (n : ℕ) (d : Cue)
    → get_elem? cues n ≡ some d
    → Outermost cues n
    → Block cues n (span cues n)
own_Block cues n d at o = record {
  first = n;
  is_span = refl;
  from = omega arith;
  beyond = (span-Holds cues n (get_elem?-lt cues n d at)).beyond;
  outermost = o;
}

abbrev heads : ℕ → Cue → Bool
heads q c = is_group c && has_qid q c

-- The last header in front of a member stands behind the header of each block that holds the member.
header-last :
    (cues : List Cue) (n g q : ℕ) (d : Cue)
    → get_elem? cues n ≡ some d
    → parent d ≡ some q
    → g < n
    → n < (span cues g).end
    → (h : ℕ) × (rposition_by (heads q) (take n cues) ≡ some h) × (g ≤ h)
header-last cues n g q d at member l b =
    let (c, on, grouped, joins) = inner-parent cues g n d l b at in
    let same : some q ≡ some (qid c) = sym member ∙ joins in
    rposition-last (heads q) (take n cues) g c (get-take n g cues l ∙ on)
      (ground (arith, grouped, same))

module _ (cues : List Cue) (n q : ℕ) (d : Cue) (flat : Flat cues) (at : get_elem? cues n ≡ some d)
    (member : parent d ≡ some q) where
  no_header-Outermost : rposition_by (heads q) (take n cues) ≡ none → Outermost cues n
  no_header-Outermost off g l = elim (Bool-cases (leb (span cues g).end n)) [
    | inl ends ↦ ground (arith, ends)
    | inr lasts ↦
        let (h, on, le) = header-last cues n g q d at member l (ground (arith, lasts)) in absurd cc
  ]

  header-lt : (h : ℕ) → rposition_by (heads q) (take n cues) ≡ some h → (h < n) × (h < length cues)
  header-lt h on =
      let l = rposition-lt (heads q) (take n cues) h on in
      let t = length-take n cues in (omega (arith, l, t), omega (arith, l, t))

  header-group : (h : ℕ) → rposition_by (heads q) (take n cues) ≡ some h → Outermost cues h
  header-group h on = elim (Option-cases (get_elem? cues h)) [
    | inl off ↦ absurd (omega (arith, header-lt h on, get_elem?-none_le cues h off))
    | inr (c, there) ↦
        let found : heads q c ≡ true =
          rposition-at (heads q) (take n cues) h c on
            (get-take n h cues (header-lt h on).0 ∙ there) in
        group-Outermost cues h c flat there (ground (arith, found))
  ]

  past_header-Outermost :
      (h : ℕ)
      → rposition_by (heads q) (take n cues) ≡ some h
      → h < n
      → (span cues h).end ≤ n
      → Outermost cues n
  past_header-Outermost h on l past g k = elim (Bool-cases (leb (span cues g).end n)) [
    | inl ends ↦ ground (arith, ends)
    | inr lasts ↦
        let (last, there, le) = header-last cues n g q d at member k (ground (arith, lasts)) in
        let same : last ≡ h = cc in
        elim (Bool-cases (leb h g)) [
          | inl first ↦
              let equal : g ≡ h = ground arith in
              absurd (ground (arith, lasts, ap (λ x. (span cues x).end) equal))
          | inr inner ↦ ground (arith, header-group h on g (ground (arith, inner)))
        ]
  ]

  by_header :
      (o : Option ℕ)
      → rposition_by (heads q) (take n cues) ≡ o
      → Block cues n (elim o [
        | none ↦ span cues n
        | some header ↦
            let s = span cues header in if leb s.start n && ltb n s.end then s else span cues n
      ])
  by_header none off = own_Block cues n d at (no_header-Outermost off)
  by_header (some h) on =
      let l = header-lt h on in
      let starts = span-start cues h in
      elim (Bool-cases (leb (span cues h).start n && ltb n (span cues h).end)) [
        | inl held ↦ rw held (record {
          first = h;
          is_span = refl;
          from = omega (arith, l.0);
          beyond = ground arith;
          outermost = header-group h on;
        })
        | inr missed ↦ rw missed (
            own_Block cues n d at
              (past_header-Outermost h on l.0 (ground (arith, missed, starts, l.0))))
      ]

-- The block that `enclosing_span` gives.
pub enclosing_span-Block :
    (cues : List Cue) (n : ℕ) (d : Cue)
    → Flat cues
    → get_elem? cues n ≡ some d
    → Block cues n (enclosing_span cues n)
unfolding enclosing_span
enclosing_span-Block cues n d flat at = elim (Option-cases (parent d)) [
  | inl top ↦ rw (at, top, enclosing_span) (own_Block cues n d at (top-Outermost cues n d at top))
  | inr (q, member) ↦
      rw (at, member, enclosing_span)
        (by_header cues n q d flat at member (rposition_by (heads q) (take n cues)) refl)
]
