-- ===== src/Sequence/Unvisited.antt =====
-- How many cues have a number that a loop over visited numbers has not seen: the measure by which
-- the loops of crates/cuepool/src/engine.rs end.
use cue_pool.Base.{
  ℕ, ◌≤◌, ◌<◌, ◌≡◌, ap, sym, false, not, some, List, [], ◌∷◌, arith, inl, inr, ◌==◌, length,
  contains, filter_by, find_by, In,
}
use cue_pool.Cue.{Cue, qid}

abbrev pub unvisited : List Cue → List ℕ → ℕ
unvisited cues visited = length (filter_by (λ c. not (contains (qid c) visited)) cues)

pub unvisited-le-length :
    (cues : List Cue) (visited : List ℕ) → unvisited cues visited ≤ length cues
unvisited-le-length [] visited = omega arith
unvisited-le-length (c ∷ cs) visited = ground (arith, unvisited-le-length cs visited)

pub unvisited-cons_le :
    (cues : List Cue) (q : ℕ) (visited : List ℕ)
    → unvisited cues (q ∷ visited) ≤ unvisited cues visited
unvisited-cons_le [] q visited = omega arith
unvisited-cons_le (c ∷ cs) q visited = ground (arith, unvisited-cons_le cs q visited)

-- A visit to a number of the list makes progress.
pub unvisited-cons_lt :
    (cues : List Cue) (q : ℕ) (visited : List ℕ) (c : Cue)
    → find_by (λ d. qid d == q) cues ≡ some c
    → contains q visited ≡ false
    → unvisited cues (q ∷ visited) < unvisited cues visited
unvisited-cons_lt [] q visited d e h = cc
unvisited-cons_lt (c ∷ cs) q visited d e h =
    ground (arith, unvisited-cons_lt cs q visited d, unvisited-cons_le cs q visited)

pub unvisited-cons_In :
    (cues : List Cue) (c : Cue) (visited : List ℕ)
    → In c cues
    → contains (qid c) visited ≡ false
    → unvisited cues (qid c ∷ visited) < unvisited cues visited
unvisited-cons_In (d ∷ ds) c visited (inl e) h =
    let same : qid d ≡ qid c = ap qid (sym e) in
    ground (arith, same, unvisited-cons_le ds (qid c) visited)
unvisited-cons_In (d ∷ ds) c visited (inr m) h =
    ground (arith, unvisited-cons_In ds c visited m, unvisited-cons_le ds (qid c) visited)
unvisited-cons_In [] c visited m h = absurd m
