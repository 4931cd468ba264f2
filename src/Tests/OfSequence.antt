-- ===== src/Tests/OfSequence.antt =====
-- Concrete runs of the walks over the cue list (crates/cuepool/src/engine.rs).
use cue_pool.Base.{
  ℕ, ◌≡◌, refl, true, Option, none, some, List, [], ◌∷◌, ◌⊎◌, ◌↔◌, In, drop, if◌then◌else◌, any_by,
  ◌&&◌,
}
use cue_pool.Cue.{Cue, enabled, is_group, TriggerMode}
use cue_pool.Sequence.{
  has_qid, with_last_run, next_after_last, resolve_goto_target, resolve_stop_targets,
}
use cue_pool.Sequence.Walk.{Run, Follows, with_last_run-Run, next_after_last-Follows}
use cue_pool.Sequence.Goto.{Answers, resolve_goto_target-Answers}
use cue_pool.Sequence.Targets.{Within, resolve_stop_targets-Within}
use cue_pool.Tests.{band, base_of}

goto_chain : resolve_goto_target band 5 6 ≡ some (some 4)
unfolding resolve_goto_target
goto_chain = refl

group_targets : resolve_stop_targets band 1 ≡ some (1 ∷ 2 ∷ 3 ∷ [])
unfolding resolve_stop_targets
group_targets = refl

resolve_goto_target-Answers_example :
    (r : Option ℕ) × (resolve_goto_target band 5 6 ≡ some r) × Answers band 5 6 r
resolve_goto_target-Answers_example = resolve_goto_target-Answers band 5 6

resolve_stop_targets-Within_example :
    (ts : List ℕ) × (resolve_stop_targets band 1 ≡ some ts)
    × ((x : ℕ)
        → In x ts
          ↔ ((x ≡ 1) ⊎ ((any_by (λ c. is_group c && has_qid 1 c) band ≡ true) × Within band 1 x)))
resolve_stop_targets-Within_example = resolve_stop_targets-Within band 1

with_last_run-Run_example :
    ((drop 0 band ≡ []) × (with_last_run band 0 ≡ []))
    ⊎ ((c : Cue) × (cs : List Cue) × (taken : List Cue) × (drop 0 band ≡ c ∷ cs)
        × Run cs taken
        × (with_last_run band 0 ≡ (if enabled c then c ∷ taken else [])))
with_last_run-Run_example = with_last_run-Run band 0

next_after_last-Follows_example :
    (next_after_last band 3 ≡ some (Cue.dummy (base_of 4 none TriggerMode.after_last)))
    ↔ Follows band 3 (Cue.dummy (base_of 4 none TriggerMode.after_last))
next_after_last-Follows_example =
    next_after_last-Follows band 3 (Cue.dummy (base_of 4 none TriggerMode.after_last))
