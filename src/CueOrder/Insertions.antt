-- ===== src/CueOrder/Insertions.antt =====
-- Where `insertion` of crates/cuepool-gui/src/cue_order.rs puts a cue.
use cue_pool.Base.{
  ℕ, zero, suc, ◌+◌, ◌<◌, ◌≡◌, refl, ap, sym, ◌∙◌, true, some, List, [], ◌∷◌, ◌++◌, arith, length,
  take, drop, get_elem?, get_elem?-lt, get_elem?-append_left, length-take,
}
use cue_pool.Cue.{Cue, qid, parent, is_group}
use cue_pool.CueOrder.{leading_members, span, insert_after}
use cue_pool.Base.{drop-append}
use cue_pool.CueOrder.Spans.{span-group}

-- A cue inserted at a row.
abbrev pub inserted : ℕ → Cue → List Cue → List Cue
inserted row new cues = take row cues ++ (new ∷ drop row cues)

get-take : (n : ℕ) (cs : List Cue) → get_elem? (take (suc n) cs) n ≡ get_elem? cs n
get-take n [] = refl
get-take zero (c ∷ cs) = refl
get-take (suc n) (c ∷ cs) = get-take n cs

insert_after-group :
    (cues : List Cue) (idx : ℕ) (c : Cue)
    → get_elem? cues idx ≡ some c
    → is_group c ≡ true
    → insert_after cues idx ≡ (idx + 1, some (qid c))
unfolding insert_after
insert_after-group cues idx c at grouped = ground arith

get-inserted :
    (cues : List Cue) (idx : ℕ) (new : Cue)
    → idx < length cues
    → get_elem? (inserted (suc idx) new cues) idx ≡ get_elem? cues idx
get-inserted cues idx new h =
    get_elem?-append_left (take (suc idx) cues) (new ∷ drop (suc idx) cues) idx
      (omega (arith, length-take (suc idx) cues))
    ∙ get-take idx cues

drop-inserted :
    (cues : List Cue) (idx : ℕ) (new : Cue)
    → idx < length cues
    → drop (suc idx) (inserted (suc idx) new cues) ≡ new ∷ drop (suc idx) cues
drop-inserted cues idx new h =
    let long : length (take (suc idx) cues) ≡ suc idx = omega (arith, length-take (suc idx) cues) in
    ap (λ n. drop n (inserted (suc idx) new cues)) (sym long)
    ∙ drop-append (take (suc idx) cues) (new ∷ drop (suc idx) cues)

leading_members-more :
    (g : ℕ) (new : Cue) (cs : List Cue)
    → parent new ≡ some g
    → leading_members g (new ∷ cs) ≡ suc (leading_members g cs)
unfolding leading_members
leading_members-more g new cs h = ground arith

-- A cue that is added after a group and takes the parent that `insertion` gives it joins the block of
-- the group, which is one row longer then.
pub insert_after-span :
    (cues : List Cue) (idx : ℕ) (c new : Cue)
    → get_elem? cues idx ≡ some c
    → is_group c ≡ true
    → parent new ≡ (insert_after cues idx).1
    → (span (inserted (insert_after cues idx).0 new cues) idx).end ≡ suc (span cues idx).end
insert_after-span cues idx c new at grouped joined =
    let h = get_elem?-lt cues idx c at in
    let place = insert_after-group cues idx c at grouped in
    let next : idx + 1 ≡ suc idx = omega arith in
    let row : (insert_after cues idx).0 ≡ suc idx = ap (λ r. r.0) place ∙ next in
    let group : parent new ≡ some (qid c) = joined ∙ ap (λ r. r.1) place in
    ap (λ r. (span (inserted r new cues) idx).end) row
    ∙ span-group (inserted (suc idx) new cues) idx c (get-inserted cues idx new h ∙ at) grouped
    ∙ ap (λ n. idx + 1 + leading_members (qid c) (drop n (inserted (suc idx) new cues))) next
    ∙ ap (λ l. idx + 1 + leading_members (qid c) l) (drop-inserted cues idx new h)
    ∙ ap (λ n. idx + 1 + n) (leading_members-more (qid c) new (drop (suc idx) cues) group)
    ∙ ap (λ n. idx + 1 + suc (leading_members (qid c) (drop n cues))) (sym next)
    ∙ one_more (idx + 1) (leading_members (qid c) (drop (idx + 1) cues))
    ∙ ap suc (sym (span-group cues idx c at grouped))
  where
    one_more : (n m : ℕ) → n + suc m ≡ suc (n + m)
    one_more n m = omega arith
