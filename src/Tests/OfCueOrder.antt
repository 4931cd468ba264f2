-- ===== src/Tests/OfCueOrder.antt =====
-- Concrete runs of the cue order (crates/cuepool-gui/src/cue_order.rs).
use cue_pool.Base.{
  ℕ, suc, ◌≤◌, ◌≡◌, refl, true, false, none, some, List, [], ◌∷◌, ◌++◌, map, arith, inl, inr,
  get_elem?, In, Distinct, max,
}
use cue_pool.Cue.{Cue, qid, TriggerMode}
use cue_pool.Sequence.{next_standby_qid}
use cue_pool.CueOrder.{
  span, nudge, insert_after, insertion, selection_after_removal, duplicate_span,
}
use cue_pool.CueOrder.Insertions.{inserted, insert_after-span}
use cue_pool.CueOrder.Spans.{qid_of, next_standby_qid-span}
use cue_pool.CueOrder.Members.{Flat}
use cue_pool.CueOrder.Steps.{Nudged}
use cue_pool.CueOrder.Nudges.{nudge-Nudged}
use cue_pool.CueOrder.Copies.{duplicate_span-Distinct, duplicate_span-span}
use cue_pool.Tests.{band, band-Distinct, base_of, clip}

nudge_group : map qid (nudge band 0 true).0 ≡ 4 ∷ 1 ∷ 2 ∷ 3 ∷ 5 ∷ 6 ∷ []
unfolding nudge
nudge_group = refl

nudge_over_group : map qid (nudge band 3 false).0 ≡ 4 ∷ 1 ∷ 2 ∷ 3 ∷ 5 ∷ 6 ∷ []
unfolding nudge
nudge_over_group = refl

nudge_stays : (nudge band 2 true).1 ≡ false
unfolding nudge
nudge_stays = refl

insertion_in_group : insertion band (some 2) ≡ (2, some 1)
unfolding insertion
insertion_in_group = refl

removal_selects : selection_after_removal band (record { start = 0; end = 3 }) ≡ some 4
unfolding selection_after_removal
removal_selects = refl

abbrev solo : Cue
solo = Cue.dummy (base_of 9 none TriggerMode.go)

band-Flat : Flat band
band-Flat =
    (λ y. refl, (λ y. absurd cc, (λ y. absurd cc, (λ y. refl, (λ y. refl, (λ y. refl, tt))))))

-- The cue behind the group goes past the header and both members.
nudge-Nudged_example : Nudged band 3 false (nudge band 3 false)
nudge-Nudged_example = nudge-Nudged band 3 false band-Flat

nudge_member : map qid (nudge band 1 true).0 ≡ 1 ∷ 3 ∷ 2 ∷ 4 ∷ 5 ∷ 6 ∷ []
unfolding nudge
nudge_member = refl

next_standby_qid-span_example : next_standby_qid band 0 ≡ qid_of (get_elem? band (span band 0).end)
next_standby_qid-span_example =
    next_standby_qid-span band 0 (Cue.group (base_of 1 none TriggerMode.go)) refl refl

abbrev newcomer : Cue
newcomer = Cue.dummy (base_of 9 (some 1) TriggerMode.go)

insert_after-span_example :
    (span (inserted (insert_after band 0).0 newcomer band) 0).end ≡ suc (span band 0).end
unfolding insert_after
insert_after-span_example =
    insert_after-span band 0 (Cue.group (base_of 1 none TriggerMode.go)) newcomer refl refl refl

-- The largest number of a list, and one more.
abbrev largest : List Cue → ℕ
largest [] = 0
largest (c ∷ cs) = max (qid c) (largest cs)

abbrev one_more : List Cue → ℕ → ℕ
one_more taken q = suc (largest taken)

In-largest : (q : ℕ) (cs : List Cue) → In q (map qid cs) → q ≤ largest cs
In-largest q [] m = absurd m
In-largest q (c ∷ cs) (inl e) = omega arith
In-largest q (c ∷ cs) (inr m) = omega (arith, In-largest q cs m)

one_more-fresh : (taken : List Cue) (q : ℕ) → ¬ In (one_more taken q) (map qid taken)
one_more-fresh taken q m = absurd (omega (arith, In-largest (one_more taken q) taken m))

duplicate_span-Distinct_example :
    Distinct (map qid (band ++ duplicate_span one_more band (record { start = 0; end = 3 })))
duplicate_span-Distinct_example =
    duplicate_span-Distinct one_more one_more-fresh band (record { start = 0; end = 3 })
      band-Distinct

duplicate_span-span_example :
    (span (duplicate_span one_more band (record { start = 0; end = 3 })) 0).end ≡ 3
duplicate_span-span_example =
    duplicate_span-span one_more band (record { start = 0; end = 3 })
      (Cue.group (base_of 1 none TriggerMode.go))
      (Cue.sound (base_of 2 (some 1) TriggerMode.with_last) clip
        ∷ Cue.dummy (base_of 3 (some 1) TriggerMode.with_last)
        ∷ [])
      refl refl
