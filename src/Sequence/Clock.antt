-- ===== src/Sequence/Clock.antt =====
-- `delayed_cue_starts_show_clock` of crates/cuepool/src/engine.rs ends within its fuel.
use mathlib.Core.List.{reverse, reverse-cons}
use cue_pool.Base.{
  ℕ, zero, suc, ◌+◌, ◌≤◌, ◌≡◌, ◌≢◌, refl, sym, subst, Bool, Option, none, some, List, [], ◌∷◌, ◌++◌,
  inl, inr, arith, length, filter_by, In, All, Option-cases,
}
use cue_pool.Cue.{Cue, qid}
use cue_pool.Sequence.Unvisited.{unvisited, unvisited-le-length, unvisited-cons_In}
use cue_pool.Sequence.Rank.{next_after_last-In}
use cue_pool.Sequence.{
  next_after_last, to_list, dispatched_from, clock_search, delayed_cue_starts_show_clock,
}

abbrev AllIn : List Cue → List Cue → Type 0
AllIn cues xs = All (λ c. In c cues) xs

AllIn-append : (cues xs ys : List Cue) → AllIn cues xs → AllIn cues ys → AllIn cues (xs ++ ys)
AllIn-append cues [] ys h k = k
AllIn-append cues (x ∷ xs) ys h k = (h.0, AllIn-append cues xs ys h.1 k)

AllIn-reverse : (cues xs : List Cue) → AllIn cues xs → AllIn cues (reverse xs)
AllIn-reverse cues [] h = tt
AllIn-reverse cues (x ∷ xs) h =
    subst (AllIn cues) (sym (reverse-cons x xs))
      (AllIn-append cues (reverse xs) (x ∷ []) (AllIn-reverse cues xs h.1) (h.0, tt))

AllIn-filter_by :
    (cues : List Cue) (p : Cue → Bool) (xs : List Cue) → AllIn cues xs → AllIn cues (filter_by p xs)
AllIn-filter_by cues p [] h = tt
AllIn-filter_by cues p (x ∷ xs) h = ground (arith, AllIn-filter_by cues p xs)

AllIn-weaken : (c : Cue) (cues xs : List Cue) → AllIn cues xs → AllIn (c ∷ cues) xs
AllIn-weaken c cues [] h = tt
AllIn-weaken c cues (x ∷ xs) h = (inr h.0, AllIn-weaken c cues xs h.1)

AllIn-self : (cues : List Cue) → AllIn cues cues
AllIn-self [] = tt
AllIn-self (c ∷ cs) = (inl refl, AllIn-weaken c cs cs (AllIn-self cs))

AllIn-next : (cues : List Cue) (q : ℕ) → AllIn cues (to_list (next_after_last cues q))
AllIn-next cues q = elim (Option-cases (next_after_last cues q)) [
  | inl e ↦ rw e tt
  | inr (c, e) ↦ rw e (next_after_last-In cues q c e, tt)
]

AllIn-dispatched : (cues : List Cue) (c : Cue) → AllIn cues (dispatched_from cues c)
unfolding dispatched_from
AllIn-dispatched cues (Cue.group b) = AllIn-filter_by cues _ cues (AllIn-self cues)
AllIn-dispatched cues (Cue.stop b _) = AllIn-next cues b.qid
AllIn-dispatched cues (Cue.volume b _) = AllIn-next cues b.qid
AllIn-dispatched cues (Cue.network b _) = AllIn-next cues b.qid
AllIn-dispatched cues (Cue.lighting b _) = AllIn-next cues b.qid
AllIn-dispatched cues (Cue.dummy b) = AllIn-next cues b.qid
AllIn-dispatched cues _ = tt

abbrev Answers : Option Bool → Type 0
Answers o = o ≢ none

clock_search-Answers :
    (fuel : ℕ) (cues pending : List Cue) (visited : List ℕ)
    → AllIn cues pending
    → unvisited cues visited ≤ fuel
    → Answers (clock_search fuel cues pending visited)
unfolding clock_search
clock_search-Answers fuel cues [] visited p h = λ e. cc
clock_search-Answers zero cues (c ∷ pending) visited p h = ground (
  arith,
  clock_search-Answers zero cues pending visited p.1 h,
  unvisited-cons_In cues c visited p.0,
)
clock_search-Answers (suc fuel) cues (c ∷ pending) visited p h = ground (
  arith,
  clock_search-Answers (suc fuel) cues pending visited p.1 h,
  unvisited-cons_In cues c visited p.0,
  clock_search-Answers fuel cues (reverse (dispatched_from cues c) ++ pending) (qid c ∷ visited)
      (AllIn-append cues _ pending (AllIn-reverse cues _ (AllIn-dispatched cues c)) p.1),
)

clock_search-start :
    (cues : List Cue) (c : Cue) → Answers (clock_search (length cues + 2) cues (c ∷ []) [])
unfolding clock_search
clock_search-start cues c =
    let e : length cues + 2 ≡ suc (suc (length cues)) = omega arith in
    rw e (
      ground (
        arith,
        clock_search-Answers (suc (length cues)) cues (reverse (dispatched_from cues c) ++ [])
            (qid c ∷ [])
            (AllIn-append cues _ [] (AllIn-reverse cues _ (AllIn-dispatched cues c)) tt)
            (omega (arith, unvisited-le-length cues (qid c ∷ []))),
      ))

-- Whether a delayed cue starts the show clock is always answered, on every cue list, also where cues
-- lead in a circle.
pub delayed_cue_starts_show_clock-some :
    (cues : List Cue) (c : Cue) → (b : Bool) × (delayed_cue_starts_show_clock cues c ≡ some b)
unfolding delayed_cue_starts_show_clock
delayed_cue_starts_show_clock-some cues c =
    elim (Option-cases (delayed_cue_starts_show_clock cues c)) [
      | inl e ↦ absurd (ground (arith, clock_search-start cues c))
      | inr found ↦ found
    ]
