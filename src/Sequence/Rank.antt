-- ===== src/Sequence/Rank.antt =====
-- How far down the list of crates/cuepool/src/engine.rs a cue number stands: the measure by which a
-- chain of following cues ends.
use cue_pool.Base.{
  ℕ, suc, ◌≤◌, ◌<◌, ◌≡◌, sym, false, some, List, [], ◌∷◌, map, arith, if◌then◌else◌, length, In,
  In-map, Distinct, Bool-cases, inl, inr, subst,
}
use cue_pool.Cue.{Cue, qid}
use cue_pool.Sequence.{has_qid, after_last_in, next_after_last}

-- The cues from the first one numbered `q` to the end.
unfoldable pub rank : List Cue → ℕ → ℕ
rank [] q = 0
rank (c ∷ cs) q = if has_qid q c then suc (length cs) else rank cs q

pub rank-le-length : (cues : List Cue) (q : ℕ) → rank cues q ≤ length cues
unfolding rank
rank-le-length [] q = omega arith
rank-le-length (c ∷ cs) q = ground (arith, rank-le-length cs q)

after_last_in-In : (cs : List Cue) (c : Cue) → after_last_in cs ≡ some c → In c cs
unfolding after_last_in
after_last_in-In [] c e = cc
after_last_in-In (d ∷ ds) c e = ground (arith, after_last_in-In ds c)

pub next_after_last-In :
    (cues : List Cue) (q : ℕ) (c : Cue) → next_after_last cues q ≡ some c → In c cues
unfolding next_after_last
next_after_last-In [] q c e = cc
next_after_last-In (d ∷ ds) q c e = ground (arith, next_after_last-In ds q c, after_last_in-In ds c)

-- In a list of distinct numbers the head is not numbered like a later cue.
head_ne :
    (d : Cue) (ds : List Cue) (c : Cue)
    → Distinct (map qid (d ∷ ds))
    → In c ds
    → has_qid (qid c) d ≡ false
head_ne d ds c h m = elim (Bool-cases (has_qid (qid c) d)) [
  | inl same ↦
      let e : qid d ≡ qid c = ground arith in
      absurd (h.0 (subst (λ q. In q (map qid ds)) (sym e) (In-map qid c ds m)))
  | inr other ↦ other
]

-- Where numbers are distinct, what follows a cue by itself stands below it.
pub next_after_last-rank :
    (cues : List Cue) (q : ℕ) (c : Cue)
    → Distinct (map qid cues)
    → next_after_last cues q ≡ some c
    → rank cues (qid c) < rank cues q
unfolding next_after_last rank
next_after_last-rank [] q c h e = cc
next_after_last-rank (d ∷ ds) q c h e = elim (Bool-cases (has_qid q d)) [
  | inl here ↦
      let m = after_last_in-In ds c (ground arith) in
      rw (here, head_ne d ds c h m) (omega (arith, rank-le-length ds (qid c)))
  | inr other ↦
      let e' : next_after_last ds q ≡ some c = ground arith in
      rw (other, head_ne d ds c h (next_after_last-In ds q c e'))
        (next_after_last-rank ds q c h.1 e')
]
