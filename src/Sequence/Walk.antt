-- ===== src/Sequence/Walk.antt =====
-- The cues that start together and the cue that follows, in crates/cuepool/src/engine.rs
-- (`with_last_run`, `next_after_last`).
use cue_pool.Base.{
  ℕ, ◌≡◌, refl, true, false, some, List, [], ◌∷◌, ◌++◌, arith, if◌then◌else◌, drop, filter_by, All,
  Bool-cases, ap, ◌∙◌, ◌⊎◌, inl, inr, ◌≢◌, ◌↔◌,
}
use cue_pool.Cue.{Cue, qid, enabled, trigger, is_after_last, is_with_last}
use cue_pool.Sequence.{
  has_qid, with_last_followers, with_last_start, with_last_run, after_last_in, next_after_last,
}

-- A cue that the run passes over or takes with it.
abbrev pub RunsOn : Cue → Type 0
RunsOn c = enabled c ≡ true → is_with_last (trigger c) ≡ true

-- Where a run ends: at the end of the list, or at an enabled cue that does not start with the last.
abbrev pub EndsRun : List Cue → Type 0
EndsRun [] = Unit
EndsRun (c ∷ cs) = (enabled c ≡ true) × (is_with_last (trigger c) ≡ false)

-- The cues behind the first, cut where the run ends.
pub record Run (cs taken : List Cue) : Type 0 where
  pub block : List Cue
  pub rest : List Cue
  pub cut : cs ≡ block ++ rest
  pub runs_on : All RunsOn block
  pub ends : EndsRun rest
  pub taken_enabled : taken ≡ filter_by enabled block

Run-extend :
    {cs taken : List Cue} (c : Cue) {longer : List Cue}
    → RunsOn c
    → longer ≡ (if enabled c then c ∷ taken else taken)
    → Run cs taken
    → Run (c ∷ cs) longer
Run-extend c h e r = record {
  block = c ∷ r.block;
  rest = r.rest;
  cut = ap (◌∷◌ c) r.cut;
  runs_on = (h, r.runs_on);
  ends = r.ends;
  taken_enabled = e ∙ ap (λ t. if enabled c then c ∷ t else t) r.taken_enabled;
}

with_last_followers-Run : (cs : List Cue) → Run cs (with_last_followers cs)
unfolding with_last_followers
with_last_followers-Run [] = record {
  block = [];
  rest = [];
  cut = refl;
  runs_on = tt;
  ends = tt;
  taken_enabled = refl;
}
with_last_followers-Run (c ∷ cs) =
    let tail = with_last_followers-Run cs in
    elim (Bool-cases (enabled c)) [
      | inl on ↦ elim (Bool-cases (is_with_last (trigger c))) [
        | inl joins ↦ Run-extend c (λ _. joins) (rw (on, joins)) tail
        | inr stays ↦ record {
          block = [];
          rest = c ∷ cs;
          cut = refl;
          runs_on = tt;
          ends = (on, stays);
          taken_enabled = rw (on, stays);
        }
      ]
      | inr off ↦ Run-extend c (λ on. cc) (rw off) tail
    ]

-- What starts with the cue at `index`: nothing behind the end of the list or at a disabled cue;
-- otherwise that cue, then the enabled cues of the block behind it that lasts until the first enabled
-- cue whose trigger is not `WithLast`.
pub with_last_run-Run :
    (cues : List Cue) (index : ℕ)
    → ((drop index cues ≡ []) × (with_last_run cues index ≡ []))
      ⊎ ((c : Cue) × (cs : List Cue) × (taken : List Cue) × (drop index cues ≡ c ∷ cs)
          × Run cs taken
          × (with_last_run cues index ≡ (if enabled c then c ∷ taken else [])))
unfolding with_last_run with_last_start
with_last_run-Run cues index = by_list (drop index cues) refl
  where
    by_list :
        (l : List Cue)
        → drop index cues ≡ l
        → ((l ≡ []) × (with_last_start l ≡ []))
          ⊎ ((c : Cue) × (cs : List Cue) × (taken : List Cue) × (l ≡ c ∷ cs)
              × Run cs taken
              × (with_last_start l ≡ (if enabled c then c ∷ taken else [])))
    by_list [] e = inl (refl, refl)
    by_list (c ∷ cs) e = inr (c, cs, with_last_followers cs, refl, with_last_followers-Run cs, refl)

-- Where a cue follows the first cue numbered `q`: in the block of `AfterLast` cues directly behind
-- it, behind disabled ones only.
pub record Follows (cues : List Cue) (q : ℕ) (c : Cue) : Type 0 where
  pub before : List Cue
  pub last : Cue
  pub passed : List Cue
  pub behind : List Cue
  pub cut : cues ≡ before ++ (last ∷ (passed ++ (c ∷ behind)))
  pub first : All (λ d. qid d ≢ q) before
  pub at : qid last ≡ q
  pub disabled : All (λ d. (enabled d ≡ false) × (is_after_last (trigger d) ≡ true)) passed
  pub on : enabled c ≡ true
  pub triggered : is_after_last (trigger c) ≡ true

after_last_in-block :
    (cs : List Cue) (c : Cue)
    → after_last_in cs ≡ some c
    → (passed : List Cue) × (behind : List Cue) × (cs ≡ passed ++ (c ∷ behind))
      × All (λ d. (enabled d ≡ false) × (is_after_last (trigger d) ≡ true)) passed
      × (enabled c ≡ true)
      × (is_after_last (trigger c) ≡ true)
unfolding after_last_in
after_last_in-block [] c e = cc
after_last_in-block (d ∷ ds) c e = elim (Bool-cases (is_after_last (trigger d))) [
  | inl follows ↦ elim (Bool-cases (enabled d)) [
    | inl on ↦
        let same : d ≡ c = ground arith in
        ([], ds, ap (λ x. x ∷ ds) same, tt, rw same at on, rw same at follows)
    | inr off ↦
        let (passed, behind, cut, block, on, triggered) = after_last_in-block ds c (ground arith) in
        (d ∷ passed, behind, ap (◌∷◌ d) cut, ((off, follows), block), on, triggered)
  ]
  | inr other ↦ absurd (ground arith)
]

next_after_last-found :
    (cues : List Cue) (q : ℕ) (c : Cue) → next_after_last cues q ≡ some c → Follows cues q c
unfolding next_after_last
next_after_last-found [] q c e = cc
next_after_last-found (d ∷ ds) q c e = elim (Bool-cases (has_qid q d)) [
  | inl here ↦
      let (passed, behind, cut, block, on, triggered) = after_last_in-block ds c (ground arith) in
      record {
        before = [];
        last = d;
        passed = passed;
        behind = behind;
        cut = ap (◌∷◌ d) cut;
        first = tt;
        at = ground arith;
        disabled = block;
        on = on;
        triggered = triggered;
      }
  | inr other ↦
      let f = next_after_last-found ds q c (ground arith) in
      record {
        before = d ∷ f.before;
        last = f.last;
        passed = f.passed;
        behind = f.behind;
        cut = ap (◌∷◌ d) f.cut;
        first = ((λ e. ground arith), f.first);
        at = f.at;
        disabled = f.disabled;
        on = f.on;
        triggered = f.triggered;
      }
]

after_last_in-skip :
    (passed behind : List Cue) (c : Cue)
    → All (λ d. (enabled d ≡ false) × (is_after_last (trigger d) ≡ true)) passed
    → enabled c ≡ true
    → is_after_last (trigger c) ≡ true
    → after_last_in (passed ++ (c ∷ behind)) ≡ some c
unfolding after_last_in
after_last_in-skip [] behind c h on triggered = rw (triggered, on)
after_last_in-skip (d ∷ ds) behind c h on triggered =
    rw (h.0.1, h.0.0) (after_last_in-skip ds behind c h.1 on triggered)

next_after_last-skip :
    (before rest : List Cue) (d : Cue) (q : ℕ)
    → All (λ x. qid x ≢ q) before
    → qid d ≡ q
    → next_after_last (before ++ (d ∷ rest)) q ≡ after_last_in rest
unfolding next_after_last
next_after_last-skip [] rest d q h e = ground arith
next_after_last-skip (x ∷ xs) rest d q h e =
    ground (arith, h.0, next_after_last-skip xs rest d q h.1 e)

next_after_last_unique :
    (cues : List Cue) (q : ℕ) (c : Cue) → Follows cues q c → next_after_last cues q ≡ some c
next_after_last_unique cues q c f =
    ap (λ l. next_after_last l q) f.cut
    ∙ next_after_last-skip f.before _ f.last q f.first f.at
    ∙ after_last_in-skip f.passed f.behind c f.disabled f.on f.triggered

-- The cue that follows `q` by itself is exactly the first enabled cue of the block of `AfterLast`
-- cues that stands directly behind the first cue numbered `q`.
pub next_after_last-Follows :
    (cues : List Cue) (q : ℕ) (c : Cue) → (next_after_last cues q ≡ some c) ↔ Follows cues q c
next_after_last-Follows cues q c = (next_after_last-found cues q c, next_after_last_unique cues q c)
