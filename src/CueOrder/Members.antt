-- ===== src/CueOrder/Members.antt =====
-- The members of a group, and the rows and headers that crates/cuepool-gui/src/cue_order.rs finds in a
-- list whose groups stand in no group.
use cue_pool.Base.{
  ℕ, zero, suc, ◌+◌, ◌-◌, ◌≤◌, ◌<◌, ◌≡◌, refl, ap, sym, ◌∙◌, Bool, true, none, some, List, [], ◌∷◌,
  arith, drop, take, get_elem?, Option-cases, Bool-cases, inl, inr, All,
}
use cue_pool.Cue.{Cue, qid, parent, is_group}
use cue_pool.Sequence.{is_member_of}
use cue_pool.CueOrder.{leading_members, span, rposition_by}

-- No group is a member of a group.
abbrev pub Flat : List Cue → Type 0
Flat cues = All (λ c. is_group c ≡ true → parent c ≡ none) cues

pub Flat-parent :
    (cs : List Cue) (i : ℕ) (c : Cue)
    → Flat cs
    → get_elem? cs i ≡ some c
    → is_group c ≡ true
    → parent c ≡ none
Flat-parent [] i c f e y = absurd (ground arith)
Flat-parent (d ∷ cs) zero c f e y =
    let same : d ≡ c = cc in ap parent (sym same) ∙ f.0 (ap is_group same ∙ y)
Flat-parent (d ∷ cs) (suc i) c f e y = Flat-parent cs i c f.1 e y

member-parent : (g : ℕ) (c : Cue) → is_member_of g c ≡ true → parent c ≡ some g
member-parent g c e = elim (Option-cases (parent c)) [
  | inl top ↦ absurd (ground (arith, top))
  | inr (q, on) ↦ ground (arith, on)
]

leading_members-suc :
    (g : ℕ) (d : Cue) (cs : List Cue) (m : ℕ)
    → m < leading_members g (d ∷ cs)
    → (is_member_of g d ≡ true) × (m < suc (leading_members g cs))
unfolding leading_members
leading_members-suc g d cs m h = elim (Bool-cases (is_member_of g d)) [
  | inl joins ↦ (joins, ground (arith, joins))
  | inr ends ↦ absurd (ground (arith, ends))
]

leading-parent :
    (g : ℕ) (cs : List Cue) (m : ℕ) (c : Cue)
    → m < leading_members g cs
    → get_elem? cs m ≡ some c
    → parent c ≡ some g
leading-parent g [] m c h e = absurd (ground arith)
leading-parent g (d ∷ cs) zero c h e =
    let same : d ≡ c = cc in
    ap parent (sym same) ∙ member-parent g d (leading_members-suc g d cs zero h).0
leading-parent g (d ∷ cs) (suc m) c h e =
    let l = leading_members-suc g d cs (suc m) h in leading-parent g cs m c (omega (arith, l.1)) e

get-behind : (n m : ℕ) (cs : List Cue) → get_elem? (drop n cs) m ≡ get_elem? cs (n + m)
get-behind zero m cs = ap (get_elem? cs) {x = m} (omega arith)
get-behind (suc n) m [] = refl
get-behind (suc n) m (c ∷ cs) =
    get-behind n m cs ∙ ap (get_elem? (c ∷ cs)) {x = suc (n + m)} (omega arith)

pub get-take : (n h : ℕ) (cs : List Cue) → h < n → get_elem? (take n cs) h ≡ get_elem? cs h
get-take zero h cs l = absurd (omega arith)
get-take (suc n) h [] l = refl
get-take (suc n) zero (c ∷ cs) l = refl
get-take (suc n) (suc h) (c ∷ cs) l = get-take n h cs (omega arith)

pub rposition-at :
    (p : Cue → Bool) (cs : List Cue) (n : ℕ) (c : Cue)
    → rposition_by p cs ≡ some n
    → get_elem? cs n ≡ some c
    → p c ≡ true
rposition-at p [] n c e g = absurd (ground arith)
rposition-at p (d ∷ cs) n c e g = elim (Option-cases (rposition_by p cs)) [
  | inl off ↦ ground (arith, off)
  | inr (m, on) ↦ ground (arith, on, rposition-at p cs m c on)
]

pub rposition-last :
    (p : Cue → Bool) (cs : List Cue) (i : ℕ) (c : Cue)
    → get_elem? cs i ≡ some c
    → p c ≡ true
    → (n : ℕ) × (rposition_by p cs ≡ some n) × (i ≤ n)
rposition-last p [] i c e y = absurd (ground arith)
rposition-last p (d ∷ cs) zero c e y = elim (Option-cases (rposition_by p cs)) [
  | inl off ↦ (0, ground (arith, off), omega arith)
  | inr (m, on) ↦ (suc m, ground (arith, on), omega arith)
]
rposition-last p (d ∷ cs) (suc i) c e y =
    let (n, at, le) = rposition-last p cs i c e y in (suc n, ground (arith, at), omega arith)

-- A row behind the first one of a block is a member of the group in front.
pub inner-parent :
    (cues : List Cue) (j h : ℕ) (d : Cue)
    → j < h
    → h < (span cues j).end
    → get_elem? cues h ≡ some d
    → (c : Cue) × (get_elem? cues j ≡ some c) × (is_group c ≡ true) × (parent d ≡ some (qid c))
unfolding span
inner-parent cues j h d l m e = elim (Option-cases (get_elem? cues j)) [
  | inl off ↦ absurd (ground (arith, off))
  | inr (c, on) ↦ elim (Bool-cases (is_group c)) [
    | inr lone ↦ absurd (ground (arith, on, lone))
    | inl grouped ↦
        let n = h - (j + 1) in
        let row : j + 1 + n ≡ h = omega arith in
        (
          c,
          on,
          grouped,
          leading-parent (qid c) (drop (j + 1) cues) n d (ground (arith, on, grouped))
              (get-behind (j + 1) n cues ∙ ap (get_elem? cues) row ∙ e),
        )
  ]
]
