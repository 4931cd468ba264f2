-- ===== src/CueOrder.antt =====
-- crates/cuepool-gui/src/cue_order.rs: the order of the cue list and the blocks that move together.
-- A range of rows that the source drains lies within the list; out of it the source panics, and these
-- functions cut it off at the end.
pub mod Moves
pub mod Spans
pub mod Copies
pub mod Insertions
pub mod Bounds
pub mod Exchanges
pub mod Members
pub mod Groups
pub mod Steps
pub mod Nudges
use cue_pool.Base.{
  ℕ, zero, suc, ◌+◌, ◌-◌, Bool, true, false, not, ◌&&◌, ◌||◌, Option, none, some, List, [], ◌∷◌,
  ◌++◌, ◌==◌, ltb, leb, min, if◌then◌else◌, length, get_elem?, take, drop, position_by,
}
use cue_pool.Cue.{Cue, base, with_base, qid, parent, is_group}
use cue_pool.Sequence.{has_qid, is_member_of}

pub record Range : Type 0 where
  pub start : ℕ
  pub end : ℕ

-- The `while` of `span`: how many rows from here on are members of the group.
unfoldable pub leading_members : ℕ → List Cue → ℕ
leading_members group [] = 0
leading_members group (c ∷ cs) =
    let rest = leading_members group cs in if is_member_of group c then suc rest else 0

unfoldable pub span : List Cue → ℕ → Range
unfolding leading_members
span cues idx = elim (get_elem? cues idx) [
  | none ↦ record { start = idx; end = idx }
  | some c ↦
      if not (is_group c)
      then record { start = idx; end = idx + 1 }
      else record { start = idx; end = idx + 1 + leading_members (qid c) (drop (idx + 1) cues) }
]

-- `iter().rposition(p)`.
abbrev pub rposition_by : (Cue → Bool) → List Cue → Option ℕ
rposition_by p [] = none
rposition_by p (c ∷ cs) = elim (rposition_by p cs) [
  | some n ↦ some (suc n)
  | none ↦ if p c then some 0 else none
]

abbrev pub parent_at : List Cue → ℕ → Option ℕ
parent_at cues idx = elim (get_elem? cues idx) [ none ↦ none | some c ↦ parent c ]

unfoldable pub enclosing_span : List Cue → ℕ → Range
unfolding span
enclosing_span cues idx = elim (parent_at cues idx) [
  | none ↦ span cues idx
  | some group ↦ elim (rposition_by (λ c. is_group c && has_qid group c) (take idx cues)) [
    | none ↦ span cues idx
    | some header ↦
        let s = span cues header in if leb s.start idx && ltb idx s.end then s else span cues idx
  ]
]

-- The row and the parent of a cue that is added after another one.
unfoldable pub insert_after : List Cue → ℕ → ℕ × Option ℕ
unfolding span
insert_after cues idx = elim (get_elem? cues idx) [
  | none ↦ (length cues, none)
  | some c ↦ if is_group c then (idx + 1, some (qid c)) else ((span cues idx).end, parent c)
]

unfoldable pub insertion : List Cue → Option ℕ → ℕ × Option ℕ
unfolding insert_after
insertion cues none = (length cues, none)
insertion cues (some anchor) = elim (position_by (has_qid anchor) cues) [
  | none ↦ (length cues, none)
  | some idx ↦ insert_after cues idx
]

-- `drain` and `splice` of `move_span`.
unfoldable pub move_rows : List Cue → Range → ℕ → List Cue
move_rows cues from to =
    let len = from.end - from.start in
    let block = take len (drop from.start cues) in
    let rest = take from.start cues ++ drop from.end cues in
    let at = min (if leb from.end to then to - len else to) (length rest) in
    take at rest ++ (block ++ drop at rest)

unfoldable pub move_span : List Cue → Range → ℕ → List Cue
unfolding move_rows
move_span cues from to =
    if leb from.end from.start || (leb from.start to && leb to from.end)
    then cues
    else move_rows cues from to

abbrev pub same_parent : Option ℕ → Option ℕ → Bool
same_parent none none = true
same_parent (some p) (some q) = p == q
same_parent _ _ = false

abbrev pub far_end : Bool → Range → ℕ
far_end down r = if down then r.end else r.start

-- The row that a nudge steps over, if there is one.
unfoldable pub neighbour : List Cue → Range → Bool → Option ℕ
neighbour cues block true = if leb (length cues) block.end then none else some block.end
neighbour cues block false = elim block.start [ zero ↦ none | suc prev ↦ some prev ]

-- Where a nudge of a cue with parent `p` moves past the cue `d` at row `n`, if it does.
unfoldable pub nudge_target : List Cue → Option ℕ → ℕ → Cue → Bool → Option ℕ
unfolding span enclosing_span
nudge_target cues p n d down =
    if same_parent (parent d) p && not (is_group d)
    then some (far_end down (span cues n))
    else elim p [ some _ ↦ none | none ↦ some (far_end down (enclosing_span cues n)) ]

-- `nudge`: the list, and whether anything moved.
unfoldable pub nudge : List Cue → ℕ → Bool → List Cue × Bool
unfolding span neighbour nudge_target move_span
nudge cues idx down = elim (get_elem? cues idx) [
  | none ↦ (cues, false)
  | some c ↦ elim (neighbour cues (span cues idx) down) [
    | none ↦ (cues, false)
    | some n ↦ elim (get_elem? cues n) [
      | none ↦ (cues, false)
      | some d ↦ elim (nudge_target cues (parent c) n d down) [
        | none ↦ (cues, false)
        | some target ↦ (move_span cues (span cues idx) target, true)
      ]
    ]
  ]
]

abbrev pub last_qid : List Cue → Option ℕ
last_qid [] = none
last_qid (c ∷ []) = some (qid c)
last_qid (c ∷ d ∷ cs) = last_qid (d ∷ cs)

unfoldable pub selection_after_removal : List Cue → Range → Option ℕ
selection_after_removal cues removed = elim (get_elem? cues removed.end) [
  | some c ↦ some (qid c)
  | none ↦ last_qid (take removed.start cues)
]

module _ (next_qid : List Cue → ℕ → ℕ) where
  -- A copy behind the first: a member follows the copied header, if there is one.
  unfoldable pub copy_row : List Cue → Option ℕ → Cue → Cue
  copy_row taken none c = with_base c (record (base c) { qid = next_qid taken (qid c) })
  copy_row taken (some header) c =
      with_base c (record (base c) { qid = next_qid taken (qid c); parent = some header })

  unfoldable pub copy_rows : List Cue → Option ℕ → List Cue → List Cue
  unfolding copy_row
  copy_rows taken header [] = []
  copy_rows taken header (c ∷ cs) =
      let copy = copy_row taken header c in copy ∷ copy_rows (taken ++ (copy ∷ [])) header cs

  -- " (copy)" is added to the name of the first one.
  unfoldable pub copy_first : List Cue → Cue → Cue
  copy_first taken c = with_base c (record (base c) {
    qid = next_qid taken (qid c);
    name = (base c).name ++ (32 ∷ 40 ∷ 99 ∷ 111 ∷ 112 ∷ 121 ∷ 41 ∷ []);
  })

  unfoldable pub copy_block : List Cue → List Cue → List Cue
  unfolding copy_first copy_rows
  copy_block taken [] = []
  copy_block taken (c ∷ cs) =
      let copy = copy_first taken c in
      copy ∷ copy_rows (taken ++ (copy ∷ [])) (if is_group copy then some (qid copy) else none) cs

  unfoldable pub duplicate_span : List Cue → Range → List Cue
  unfolding copy_block
  duplicate_span cues block =
      copy_block cues (take (block.end - block.start) (drop block.start cues))
