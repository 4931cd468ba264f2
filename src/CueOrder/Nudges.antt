-- ===== src/CueOrder/Nudges.antt =====
-- What `nudge` of crates/cuepool-gui/src/cue_order.rs does to the cue list.
use cue_pool.Base.{
  ℕ, suc, ◌+◌, ◌≤◌, ◌<◌, ◌≡◌, refl, ap, sym, ◌∙◌, Bool, true, false, not, ◌&&◌, Option, none, some,
  List, ◌⊎◌, arith, length, get_elem?, get_elem?-lt, get_elem?-none_le, if◌then◌else◌, leb,
  Option-cases, Bool-cases, inl, inr,
}
use cue_pool.Cue.{Cue, parent, is_group}
use cue_pool.CueOrder.{
  Range, span, enclosing_span, move_span, neighbour, nudge_target, nudge, same_parent, far_end,
}
use cue_pool.CueOrder.Groups.{Block, top-Outermost, enclosing_span-Block}
use cue_pool.CueOrder.Members.{Flat}
use cue_pool.CueOrder.Bounds.{span-start, span-Holds}
use cue_pool.CueOrder.Steps.{
  Beside, AtEdge, Member, Past, Stepped, Stuck, Nudged, move_span-Exchanged,
}

-- A block beside the rows of a cue that is in no group begins where these end, or ends where they begin.
Block-meets :
    (cues : List Cue) (idx n : ℕ) (c : Cue) (over : Range) (down : Bool)
    → get_elem? cues idx ≡ some c
    → parent c ≡ none
    → Beside down (span cues idx) n
    → Block cues n over
    → (if down then (span cues idx).end else over.end)
      ≡ (if down then over.start else (span cues idx).start)
Block-meets cues idx n c over true at top e b =
    let starts : over.start ≡ b.first = ap (λ r. r.start) b.is_span ∙ span-start cues b.first in
    elim (Bool-cases (leb n b.first)) [
      | inl first ↦ ground (arith, first, starts, b.from, e)
      | inr behind ↦ elim (Bool-cases (leb b.first idx)) [
        | inr within ↦ absurd (ground (arith, within, behind, b.outermost idx))
        | inl in_front ↦ elim (Bool-cases (leb idx b.first)) [
          | inl same ↦
              let equal : b.first ≡ idx = ground arith in
              absurd (ground (arith, e, b.beyond, ap (λ x. (span cues x).end) equal))
          | inr before ↦ absurd (
              ground (
                arith,
                e,
                b.beyond,
                before,
                (span-Holds cues idx (get_elem?-lt cues idx c at)).beyond,
                top-Outermost cues idx c at top b.first,
              ))
        ]
      ]
    ]
Block-meets cues idx n c over false at top e b =
    let ends : over.end ≡ (span cues b.first).end = ap (λ r. r.end) b.is_span in
    let row : idx ≡ suc n = sym (span-start cues idx) ∙ e in
    ground (
      arith,
      ends,
      row,
      span-start cues idx,
      b.from,
      b.beyond,
      top-Outermost cues idx c at top b.first,
    )

nudge_target-top :
    (cues : List Cue) (n : ℕ) (d : Cue) (down : Bool)
    → get_elem? cues n ≡ some d
    → nudge_target cues none n d down ≡ some (far_end down (enclosing_span cues n))
unfolding nudge_target enclosing_span
nudge_target-top cues n d down at = elim (Option-cases (parent d)) [
  | inl top ↦ ground (arith, at, top)
  | inr (q, member) ↦ ground (arith, at, member)
]

nudge_target-Member :
    (cues : List Cue) (q n : ℕ) (d : Cue) (down : Bool)
    → get_elem? cues n ≡ some d
    → ((nudge_target cues (some q) n d down ≡ none) × (¬ Member q cues n))
      ⊎ ((nudge_target cues (some q) n d down
            ≡ some (far_end down (record { start = n; end = n + 1 })))
          × Member q cues n)
unfolding nudge_target span Member
nudge_target-Member cues q n d down at =
    elim (Bool-cases (same_parent (parent d) (some q) && not (is_group d))) [
      | inl sibling ↦
          inr
            (ground (arith, at, sibling), (d, at, ground (arith, sibling), ground (arith, sibling)))
      | inr other ↦ inl (
        ground (arith, other),
        λ m.
            let (e, on, member, lone) = m in
            let same : d ≡ e = cc in
            let joins : parent d ≡ some q = ap parent same ∙ member in
            let single : is_group d ≡ false = ap is_group same ∙ lone in
            absurd (ground (arith, other, joins, single)),
      )
    ]

-- What a nudge steps over lies in the list, beside the rows of the cue.
meets :
    (cues : List Cue) (idx n : ℕ) (c : Cue) (over : Range) (down : Bool) (p : Option ℕ)
    → get_elem? cues idx ≡ some c
    → n < length cues
    → parent c ≡ p
    → Beside down (span cues idx) n
    → Past p cues n over
    → (over.start ≤ over.end)
      × (over.end ≤ length cues)
      × ((if down then (span cues idx).end else over.end)
          ≡ (if down then over.start else (span cues idx).start))
unfolding Past
meets cues idx n c over down none at h top e b =
    let s = span-Holds cues b.first (omega (arith, b.from)) in
    let starts = ap (λ r. r.start) b.is_span in
    let ends = ap (λ r. r.end) b.is_span in
    (
      omega (arith, s.from, s.beyond, starts, ends),
      omega (arith, s.inside, ends),
      Block-meets cues idx n c over down at top e b,
    )
meets cues idx n c over true (some q) at h joins e (m, row) =
    let starts : over.start ≡ n = ap (λ r. r.start) row in
    let ends : over.end ≡ n + 1 = ap (λ r. r.end) row in (omega arith, omega arith, e ∙ sym starts)
meets cues idx n c over false (some q) at h joins e (m, row) =
    let starts : over.start ≡ n = ap (λ r. r.start) row in
    let ends : over.end ≡ n + 1 = ap (λ r. r.end) row in
    (omega arith, omega arith, omega (arith, e))

move_span-Stepped :
    (cues : List Cue) (idx n : ℕ) (c : Cue) (over : Range) (down : Bool)
    → get_elem? cues idx ≡ some c
    → n < length cues
    → Beside down (span cues idx) n
    → Past (parent c) cues n over
    → Stepped cues idx down (move_span cues (span cues idx) (far_end down over))
move_span-Stepped cues idx n c over down at h e p =
    let (a, b, m) = meets cues idx n c over down (parent c) at h refl e p in
    let s = span-Holds cues idx (get_elem?-lt cues idx c at) in
    record {
      cue = c;
      at = at;
      row = n;
      beside = e;
      over = over;
      past = p;
      exchanged =
          move_span-Exchanged cues (span cues idx) over down (omega (arith, s.from, s.beyond)) a
            s.inside b m;
    }

-- The end of `nudge`, past its early returns.
nudge_over :
    (cues : List Cue) (idx n : ℕ) (c d : Cue) (down : Bool) (p : Option ℕ)
    → Flat cues
    → get_elem? cues idx ≡ some c
    → get_elem? cues n ≡ some d
    → parent c ≡ p
    → Beside down (span cues idx) n
    → Nudged cues idx down (elim (nudge_target cues p n d down) [
      | none ↦ (cues, false)
      | some target ↦ (move_span cues (span cues idx) target, true)
    ])
unfolding Nudged Stuck Past
nudge_over cues idx n c d down none flat at there top e =
    rw (nudge_target-top cues n d down there) (
      move_span-Stepped cues idx n c (enclosing_span cues n) down at (get_elem?-lt cues n d there) e
        (rw top (enclosing_span-Block cues n d flat there)))
nudge_over cues idx n c d down (some q) flat at there joins e =
    elim (nudge_target-Member cues q n d down there) [
      | inl (stays, other) ↦
          rw stays (refl, inr (inr (q, n, (ground (arith, at, joins)), e, other)))
      | inr (moves, sibling) ↦ rw moves (
          move_span-Stepped cues idx n c (record { start = n; end = n + 1 }) down at
            (get_elem?-lt cues n d there) e (rw joins (sibling, refl)))
    ]

neighbour-lem :
    (cues : List Cue) (own : Range) (down : Bool)
    → own.start < length cues
    → ((neighbour cues own down ≡ none) × AtEdge down cues own)
      ⊎ ((n : ℕ) × (neighbour cues own down ≡ some n) × Beside down own n × (n < length cues))
unfolding neighbour
neighbour-lem cues own true h = elim (Bool-cases (leb (length cues) own.end)) [
  | inl last ↦ inl (ground (arith, last), ground (arith, last))
  | inr more ↦ inr (own.end, ground (arith, more), refl, ground (arith, more))
]
neighbour-lem cues own false h = elim (Option-cases (neighbour cues own false)) [
  | inl first ↦ inl (first, ground arith)
  | inr (n, e) ↦
      let row : own.start ≡ suc n = ground arith in inr (n, e, row, omega (arith, h, row))
]

-- Where no group is a member of a group, a nudge either leaves the list as it is and says that nothing
-- moved, and then there is no such cue, no row beside its rows, or the cue is a member and the row
-- beside it is none of its group; or it moves the rows of the cue, a group with its members, in the
-- direction of the nudge: a member past one member of its group, any other cue past the whole block
-- beside it, which stands in no other block. The rows of both keep their order, and no other row moves.
pub nudge-Nudged :
    (cues : List Cue) (idx : ℕ) (down : Bool)
    → Flat cues
    → Nudged cues idx down (nudge cues idx down)
unfolding nudge Nudged Stuck
nudge-Nudged cues idx down flat = elim (Option-cases (get_elem? cues idx)) [
  | inl off ↦ rw (off, nudge) (refl, inl (get_elem?-none_le cues idx off))
  | inr (c, at) ↦
      rw (at, nudge)
        (elim (neighbour-lem cues (span cues idx) down
          (omega (arith, span-start cues idx, get_elem?-lt cues idx c at))) [
            | inl (none_there, edge) ↦ rw none_there (refl, inr (inl edge))
            | inr (n, e, beside, h) ↦
                rw (e, nudge)
                  (elim (Option-cases (get_elem? cues n)) [
                    | inl off ↦ absurd (omega (arith, get_elem?-none_le cues n off))
                    | inr (d, there) ↦
                        rw there
                          (nudge_over cues idx n c d down (parent c) flat at there refl beside)
                  ])
          ])
]
