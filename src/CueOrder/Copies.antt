-- ===== src/CueOrder/Copies.antt =====
-- The copies that `duplicate_span` of crates/cuepool-gui/src/cue_order.rs makes.
use cue_pool.Base.{
  ℕ, suc, ◌-◌, ◌≡◌, refl, ap, sym, subst, ◌∙◌, true, Option, none, some, List, [], ◌∷◌, ◌++◌, map,
  arith, inl, inr, In, Distinct, length, take, drop, if◌then◌else◌, In-append_cases,
}
use cue_pool.Cue.{Cue, CueBase, base, with_base, qid, parent, is_group}
use cue_pool.CueOrder.{
  Range, leading_members, span, copy_row, copy_rows, copy_first, copy_block, duplicate_span,
}

-- A number that a list of cues may be given besides its own.
Distinct-snoc : (l : List ℕ) (q : ℕ) → Distinct l → ¬ In q l → Distinct (l ++ (q ∷ []))
Distinct-snoc [] q d h = (λ m. m, tt)
Distinct-snoc (x ∷ l) q d h = (
  λ m. elim (In-append_cases x l (q ∷ []) m) [
    | inl left ↦ d.0 left
    | inr (inl e) ↦ h (inl (sym e))
    | inr (inr none_left) ↦ none_left
  ],
  Distinct-snoc l q d.1 (λ m. h (inr m)),
)

append-empty : (l : List Cue) → l ++ [] ≡ l
append-empty [] = refl
append-empty (x ∷ l) = ap (λ r. x ∷ r) (append-empty l)

map-snoc : (l : List Cue) (c : Cue) → map qid (l ++ (c ∷ [])) ≡ map qid l ++ (qid c ∷ [])
map-snoc [] c = refl
map-snoc (x ∷ l) c = ap (λ r. qid x ∷ r) (map-snoc l c)

append-snoc : (l r : List Cue) (c : Cue) → (l ++ (c ∷ [])) ++ r ≡ l ++ (c ∷ r)
append-snoc [] r c = refl
append-snoc (x ∷ l) r c = ap (λ s. x ∷ s) (append-snoc l r c)

qid-with_base : (c : Cue) (b : CueBase) → qid (with_base c b) ≡ b.qid
qid-with_base c b = ground arith

parent-with_base : (c : Cue) (b : CueBase) → parent (with_base c b) ≡ b.parent
parent-with_base c b = ground arith

is_group-with_base : (c : Cue) (b : CueBase) → is_group (with_base c b) ≡ is_group c
is_group-with_base c b = ground arith

module _ (next_qid : List Cue → ℕ → ℕ)
    (fresh : (taken : List Cue) (q : ℕ) → ¬ In (next_qid taken q) (map qid taken)) where
  taken-Distinct :
      (taken : List Cue) (c : Cue) (q : ℕ)
      → qid c ≡ next_qid taken q
      → Distinct (map qid taken)
      → Distinct (map qid (taken ++ (c ∷ [])))
  taken-Distinct taken c q e d = subst Distinct (sym (map-snoc taken c)) (
      Distinct-snoc (map qid taken) (qid c) d
        (λ m. fresh taken q (subst (λ x. In x (map qid taken)) e m)))

  copy_row-qid :
      (taken : List Cue) (h : Option ℕ) (c : Cue)
      → qid (copy_row next_qid taken h c) ≡ next_qid taken (qid c)
  unfolding copy_row
  copy_row-qid taken none c = qid-with_base c _
  copy_row-qid taken (some g) c = qid-with_base c _

  copy_rows-Distinct :
      (taken : List Cue) (h : Option ℕ) (cs : List Cue)
      → Distinct (map qid taken)
      → Distinct (map qid (taken ++ copy_rows next_qid taken h cs))
  unfolding copy_rows
  copy_rows-Distinct taken h [] d = subst (λ l. Distinct (map qid l)) (sym (append-empty taken)) d
  copy_rows-Distinct taken h (c ∷ cs) d =
      let copy = copy_row next_qid taken h c in
      subst (λ l. Distinct (map qid l))
        (append-snoc taken (copy_rows next_qid (taken ++ (copy ∷ [])) h cs) copy)
        (copy_rows-Distinct (taken ++ (copy ∷ [])) h cs
          (taken-Distinct taken copy (qid c) (copy_row-qid taken h c) d))

  copy_block-Distinct :
      (taken cs : List Cue)
      → Distinct (map qid taken)
      → Distinct (map qid (taken ++ copy_block next_qid taken cs))
  unfolding copy_block copy_first
  copy_block-Distinct taken [] d = subst (λ l. Distinct (map qid l)) (sym (append-empty taken)) d
  copy_block-Distinct taken (c ∷ cs) d =
      let copy = copy_first next_qid taken c in
      let header : Option ℕ = if is_group copy then some (qid copy) else none in
      subst (λ l. Distinct (map qid l))
        (append-snoc taken (copy_rows next_qid (taken ++ (copy ∷ [])) header cs) copy)
        (copy_rows-Distinct (taken ++ (copy ∷ [])) header cs
          (taken-Distinct taken copy (qid c) (qid-with_base c _) d))

-- Where the numbers of the cue list are distinct and `next_qid` always gives a number that the list it
-- is shown does not have, the copies of a block have numbers that are distinct from one another and
-- from those of the list.
pub duplicate_span-Distinct :
    (next_qid : List Cue → ℕ → ℕ)
    → ((taken : List Cue) (q : ℕ) → ¬ In (next_qid taken q) (map qid taken))
    → (cues : List Cue) (block : Range) → Distinct (map qid cues)
    → Distinct (map qid (cues ++ duplicate_span next_qid cues block))
unfolding duplicate_span
duplicate_span-Distinct next_qid fresh cues block d =
    copy_block-Distinct next_qid fresh cues (take (block.end - block.start) (drop block.start cues))
      d

module _ (next_qid : List Cue → ℕ → ℕ) where
  copy_rows-members :
      (taken : List Cue) (g : ℕ) (cs : List Cue)
      → leading_members g (copy_rows next_qid taken (some g) cs) ≡ length cs
  unfolding copy_rows copy_row leading_members
  copy_rows-members taken g [] = refl
  copy_rows-members taken g (c ∷ cs) = ground (
    arith,
    copy_rows-members (taken ++ (copy_row next_qid taken (some g) c ∷ [])) g cs,
    parent-with_base c (record (base c) { qid = next_qid taken (qid c); parent = some g }),
  )

  copy_first-is_group :
      (taken : List Cue) (c : Cue)
      → is_group c ≡ true
      → is_group (copy_first next_qid taken c) ≡ true
  unfolding copy_first
  copy_first-is_group taken c h =
      is_group-with_base c (record (base c) {
        qid = next_qid taken (qid c);
        name = (base c).name ++ (32 ∷ 40 ∷ 99 ∷ 111 ∷ 112 ∷ 121 ∷ 41 ∷ []);
      })
      ∙ h

  copy_block-span :
      (taken : List Cue) (c : Cue) (cs : List Cue)
      → is_group c ≡ true
      → (span (copy_block next_qid taken (c ∷ cs)) 0).end ≡ suc (length cs)
  unfolding copy_block span
  copy_block-span taken c cs h =
      let copy = copy_first next_qid taken c in
      rw (copy_first-is_group taken c h)
        (omega (arith, copy_rows-members (taken ++ (copy ∷ [])) (qid copy) cs))

-- The copy of a group is a group again: the block that starts at the copied header is as long as what
-- was copied.
pub duplicate_span-span :
    (next_qid : List Cue → ℕ → ℕ) (cues : List Cue) (block : Range) (c : Cue) (cs : List Cue)
    → take (block.end - block.start) (drop block.start cues) ≡ c ∷ cs
    → is_group c ≡ true
    → (span (duplicate_span next_qid cues block) 0).end ≡ length (c ∷ cs)
unfolding duplicate_span
duplicate_span-span next_qid cues block c cs e h =
    ap (λ l. (span (copy_block next_qid cues l) 0).end) e ∙ copy_block-span next_qid cues c cs h
