-- ===== src/Sequence.antt =====
-- crates/cuepool/src/engine.rs, the pure walks over the cue list: which cues start with a cue, which
-- one follows it, where the standby goes, which cues a stop or a goto means, and which cues start
-- the show clock. A loop that the source ends by a set of visited numbers runs on fuel here, and its
-- outer `none` means that the fuel ran out.
pub mod Unvisited
pub mod Rank
pub mod Clock
pub mod Walk
pub mod Goto
pub mod Targets
use mathlib.Core.List.{reverse}
use cue_pool.Base.{
  ℕ, zero, suc, ◌+◌, Bool, true, false, not, ◌&&◌, ◌||◌, Option, none, some, List, [], ◌∷◌, ◌++◌,
  map, ◌==◌, if◌then◌else◌, ltb, length, get_elem?, drop, contains, filter_by, find_by, any_by,
}
use cue_pool.Cue.{Cue, base, qid, enabled, parent, trigger, is_group, is_after_last, is_with_last}

-- `cue.base().parent == Some(group)`.
abbrev pub is_member_of : ℕ → Cue → Bool
is_member_of group c = elim (parent c) [ none ↦ false | some p ↦ p == group ]

abbrev pub has_qid : ℕ → Cue → Bool
has_qid q c = qid c == q

-- The loop of `with_last_run` behind its first cue.
unfoldable pub with_last_followers : List Cue → List Cue
with_last_followers [] = []
with_last_followers (c ∷ cs) =
    let rest = with_last_followers cs in
    if enabled c then (if is_with_last (trigger c) then c ∷ rest else []) else rest

-- The loop from its first cue, where `offset == 0`.
unfoldable pub with_last_start : List Cue → List Cue
with_last_start [] = []
with_last_start (c ∷ cs) = if enabled c then c ∷ with_last_followers cs else []

unfoldable pub with_last_run : List Cue → ℕ → List Cue
unfolding with_last_start with_last_followers
with_last_run cues index = with_last_start (drop index cues)

-- `while index < cues.len() && p(cues[index]) { index += 1 }`, on what is left of the list.
abbrev pub skip_while : (Cue → Bool) → List Cue → List Cue
skip_while p [] = []
skip_while p (c ∷ cs) = if p c then skip_while p cs else c ∷ cs

abbrev pub first_qid : List Cue → Option ℕ
first_qid [] = none
first_qid (c ∷ cs) = some (qid c)

abbrev pub follows_by_itself : Cue → Bool
follows_by_itself c = is_with_last (trigger c) || is_after_last (trigger c)

unfoldable pub standby_behind : List Cue → Option ℕ
standby_behind [] = none
standby_behind (c ∷ cs) =
    first_qid
      (if is_group c then skip_while (is_member_of (qid c)) cs else skip_while follows_by_itself cs)

unfoldable pub next_standby_qid : List Cue → ℕ → Option ℕ
unfolding standby_behind
next_standby_qid cues start = standby_behind (drop start cues)

-- `.take_while(AfterLast).find(enabled)`.
unfoldable pub after_last_in : List Cue → Option Cue
after_last_in [] = none
after_last_in (c ∷ cs) =
    if is_after_last (trigger c) then (if enabled c then some c else after_last_in cs) else none

unfoldable pub next_after_last : List Cue → ℕ → Option Cue
unfolding after_last_in
next_after_last [] q = none
next_after_last (c ∷ cs) q = if has_qid q c then after_last_in cs else next_after_last cs q

-- The loop of `resolve_goto_target`.
unfoldable pub goto_loop : ℕ → List Cue → List ℕ → ℕ → Option (Option ℕ)
goto_loop zero cues visited current = none
goto_loop (suc fuel) cues visited current =
    if contains current visited then some none else elim (find_by (has_qid current) cues) [
      | none ↦ some none
      | some (Cue.goto b target) ↦ goto_loop fuel cues (current ∷ visited) target
      | some _ ↦ some (some current)
    ]

-- The fuel allows each cue to be visited, and one number more.
unfoldable pub resolve_goto_target : List Cue → ℕ → ℕ → Option (Option ℕ)
unfolding goto_loop
resolve_goto_target cues goto_qid first_target =
    goto_loop (length cues + 1) cues (goto_qid ∷ []) first_target

-- The members of `group` that are no targets yet.
abbrev pub new_members : List Cue → ℕ → List ℕ → List ℕ
new_members cues group targets =
    map qid (filter_by (λ c. is_member_of group c && not (contains (qid c) targets)) cues)

-- The `while index < targets.len()` of `resolve_stop_targets`.
unfoldable pub stop_loop : ℕ → List Cue → List ℕ → ℕ → Option (List ℕ)
stop_loop zero cues targets index = none
stop_loop (suc fuel) cues targets index = elim (get_elem? targets index) [
  | none ↦ some targets
  | some group ↦ stop_loop fuel cues (targets ++ new_members cues group targets) (suc index)
]

unfoldable pub resolve_stop_targets : List Cue → ℕ → Option (List ℕ)
unfolding stop_loop
resolve_stop_targets cues q =
    if any_by (λ c. is_group c && has_qid q c) cues
    then stop_loop (length cues + 2) cues (q ∷ []) 0
    else some (q ∷ [])

unfoldable pub cue_starts_show_clock : Cue → Bool
cue_starts_show_clock (Cue.sound _ _) = true
cue_starts_show_clock (Cue.video _ _ _ _) = true
cue_starts_show_clock (Cue.image _ _) = true
cue_starts_show_clock (Cue.text _ _) = true
cue_starts_show_clock (Cue.pixel_map _ _) = true
cue_starts_show_clock (Cue.dmx_show _ _) = true
cue_starts_show_clock (Cue.time_code _ _ _) = true
cue_starts_show_clock _ = false

abbrev pub to_list : Option Cue → List Cue
to_list none = []
to_list (some c) = c ∷ []

-- What the loop of `delayed_cue_starts_show_clock` pushes for a cue that it visits.
unfoldable pub dispatched_from : List Cue → Cue → List Cue
unfolding next_after_last
dispatched_from cues (Cue.group b) =
    filter_by (λ c. is_member_of b.qid c && not (is_after_last (trigger c))) cues
dispatched_from cues (Cue.stop b _) = to_list (next_after_last cues b.qid)
dispatched_from cues (Cue.volume b _) = to_list (next_after_last cues b.qid)
dispatched_from cues (Cue.network b _) = to_list (next_after_last cues b.qid)
dispatched_from cues (Cue.lighting b _) = to_list (next_after_last cues b.qid)
dispatched_from cues (Cue.dummy b) = to_list (next_after_last cues b.qid)
dispatched_from cues _ = []

-- The stack's top is the head of `pending`, so what is pushed comes last first.
unfoldable pub clock_search : ℕ → List Cue → List Cue → List ℕ → Option Bool
unfolding cue_starts_show_clock dispatched_from
clock_search fuel cues [] visited = some false
clock_search zero cues (c ∷ pending) visited =
    let rest = clock_search zero cues pending visited in
    if not (enabled c) || contains (qid c) visited then rest else none
clock_search (suc fuel) cues (c ∷ pending) visited =
    let skipped = clock_search (suc fuel) cues pending visited in
    let deeper =
      clock_search fuel cues (reverse (dispatched_from cues c) ++ pending) (qid c ∷ visited) in
    if not (enabled c) || contains (qid c) visited
    then skipped
    else if cue_starts_show_clock c
    then some true
    else deeper

unfoldable pub delayed_cue_starts_show_clock : List Cue → Cue → Option Bool
unfolding clock_search
delayed_cue_starts_show_clock cues c =
    if ltb 0 (base c).delay then clock_search (length cues + 2) cues (c ∷ []) [] else some false
