-- ===== src/CueOrder/Spans.antt =====
-- The blocks of crates/cuepool-gui/src/cue_order.rs, and the standby of crates/cuepool/src/engine.rs
-- that walks over them.
use cue_pool.Base.{
  ℕ, zero, suc, ◌+◌, ◌≡◌, refl, ap, sym, ◌∙◌, true, Option, none, some, List, [], ◌∷◌, arith, drop,
  get_elem?,
}
use cue_pool.Cue.{Cue, qid, is_group}
use cue_pool.Sequence.{is_member_of, skip_while, first_qid, standby_behind, next_standby_qid}
use cue_pool.CueOrder.{leading_members, span}

abbrev pub qid_of : Option Cue → Option ℕ
qid_of none = none
qid_of (some c) = some (qid c)

first-get : (cs : List Cue) (n : ℕ) → first_qid (drop n cs) ≡ qid_of (get_elem? cs n)
first-get [] zero = refl
first-get [] (suc n) = refl
first-get (c ∷ cs) zero = refl
first-get (c ∷ cs) (suc n) = first-get cs n

skip-drop :
    (g : ℕ) (cs : List Cue) → skip_while (is_member_of g) cs ≡ drop (leading_members g cs) cs
unfolding leading_members
skip-drop g [] = refl
skip-drop g (c ∷ cs) = ground (arith, skip-drop g cs)

zero_sum : (m : ℕ) → m ≡ 0 + m
zero_sum m = omega arith

suc_sum : (n m : ℕ) → suc (n + m) ≡ suc n + m
suc_sum n m = omega arith

drop-empty : (n : ℕ) → drop {A = Cue} n [] ≡ []
drop-empty zero = refl
drop-empty (suc n) = refl

pub drop-drop : (n m : ℕ) (cs : List Cue) → drop m (drop n cs) ≡ drop (n + m) cs
drop-drop zero m cs = ap (λ k. drop k cs) (zero_sum m)
drop-drop (suc n) zero [] = sym (drop-empty (suc n + 0))
drop-drop (suc n) (suc m) [] = sym (drop-empty (suc n + suc m))
drop-drop (suc n) m (c ∷ cs) = drop-drop n m cs ∙ ap (λ k. drop k (c ∷ cs)) (suc_sum n m)

get-drop :
    (cs : List Cue) (n : ℕ) (c : Cue) → get_elem? cs n ≡ some c → drop n cs ≡ c ∷ drop (n + 1) cs
get-drop [] n c h = absurd (ground arith)
get-drop (d ∷ cs) zero c h = ground arith
get-drop (d ∷ cs) (suc n) c h = get-drop cs n c h ∙ ap (λ k. c ∷ drop k (d ∷ cs)) (suc_sum n 1)

pub span-group :
    (cues : List Cue) (idx : ℕ) (c : Cue)
    → get_elem? cues idx ≡ some c
    → is_group c ≡ true
    → (span cues idx).end ≡ idx + 1 + leading_members (qid c) (drop (idx + 1) cues)
unfolding span
span-group cues idx c at grouped = ground arith

standby_behind-group :
    (c : Cue) (cs : List Cue)
    → is_group c ≡ true
    → standby_behind (c ∷ cs) ≡ first_qid (skip_while (is_member_of (qid c)) cs)
unfolding standby_behind
standby_behind-group c cs h = ground arith

-- GO on a group moves the standby to the cue that the block ends at, if there is one: the playhead and
-- the cue list agree on what a group spans.
pub next_standby_qid-span :
    (cues : List Cue) (idx : ℕ) (c : Cue)
    → get_elem? cues idx ≡ some c
    → is_group c ≡ true
    → next_standby_qid cues idx ≡ qid_of (get_elem? cues (span cues idx).end)
unfolding next_standby_qid
next_standby_qid-span cues idx c at grouped =
    let behind = drop (idx + 1) cues in
    ap standby_behind (get-drop cues idx c at)
    ∙ standby_behind-group c behind grouped
    ∙ ap first_qid (skip-drop (qid c) behind)
    ∙ ap first_qid (drop-drop (idx + 1) (leading_members (qid c) behind) cues)
    ∙ first-get cues (idx + 1 + leading_members (qid c) behind)
    ∙ ap (λ n. qid_of (get_elem? cues n)) (sym (span-group cues idx c at grouped))
