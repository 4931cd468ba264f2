-- ===== src/Sequence/Goto.antt =====
-- `resolve_goto_target` of crates/cuepool/src/engine.rs: where a chain of goto cues ends.
use cue_pool.Base.{
  ℕ, zero, suc, ◌+◌, ◌<◌, ◌≡◌, refl, sym, subst, Bool, true, false, Option, none, some, List, [],
  ◌∷◌, ◌⊎◌, inl, inr, arith, length, contains, find_by, In, contains→In, Bool-cases, All,
}
use cue_pool.Cue.{Cue, CueBase}
use cue_pool.Sequence.Unvisited.{unvisited, unvisited-le-length, unvisited-cons_lt}
use cue_pool.Sequence.{has_qid, goto_loop, resolve_goto_target}

-- The numbers that goto cues lead to from `a`.
pub data Chain (cues : List Cue) (a : ℕ) : ℕ → Type 0 where
  here : Chain cues a a
  hop :
      {m n : ℕ} {b : CueBase}
      → Chain cues a m
      → find_by (has_qid m) cues ≡ some (Cue.goto b n)
      → Chain cues a n

-- One goto cue or more.
abbrev pub Leads : List Cue → ℕ → ℕ → Type 0
Leads cues a n =
    (m : ℕ) × (b : CueBase) × Chain cues a m × (find_by (has_qid m) cues ≡ some (Cue.goto b n))

abbrev pub is_goto : Cue → Bool
is_goto (Cue.goto _ _) = true
is_goto _ = false

-- What an answer says of the cue list.
abbrev pub Answers : List Cue → ℕ → ℕ → Option ℕ → Type 0
Answers cues g t (some x) =
    Chain cues t x × ((c : Cue) × (find_by (has_qid x) cues ≡ some c) × (is_goto c ≡ false))
Answers cues g t none =
    (y : ℕ) × Chain cues t y × ((find_by (has_qid y) cues ≡ none) ⊎ (y ≡ g) ⊎ Leads cues y y)

-- The visited numbers: the goto cue itself, and numbers that lead to the current one.
abbrev Past : List Cue → ℕ → List ℕ → ℕ → Type 0
Past cues g visited current = All (λ v. (v ≡ g) ⊎ Leads cues v current) visited

Leads-hop :
    {cues : List Cue} {a m n : ℕ} {b : CueBase}
    → Leads cues a m
    → find_by (has_qid m) cues ≡ some (Cue.goto b n)
    → Leads cues a n
Leads-hop {m = m} {b = b} (k, b', p, e) h = (m, b, hop p e, h)

Past-hop :
    (cues : List Cue) (g m n : ℕ) (b : CueBase) (visited : List ℕ)
    → Past cues g visited m
    → find_by (has_qid m) cues ≡ some (Cue.goto b n)
    → Past cues g visited n
Past-hop cues g m n b [] p h = tt
Past-hop cues g m n b (v ∷ vs) (inl e, p) h = (inl e, Past-hop cues g m n b vs p h)
Past-hop cues g m n b (v ∷ vs) (inr l, p) h = (inr (Leads-hop l h), Past-hop cues g m n b vs p h)

Past-In :
    (cues : List Cue) (g m : ℕ) (visited : List ℕ)
    → Past cues g visited m
    → In m visited
    → (m ≡ g) ⊎ Leads cues m m
Past-In cues g m [] p h = absurd h
Past-In cues g m (v ∷ vs) (p, ps) (inl e) = subst (λ x. (x ≡ g) ⊎ Leads cues x m) (sym e) p
Past-In cues g m (v ∷ vs) (p, ps) (inr h) = Past-In cues g m vs ps h

module _ (cues : List Cue) (g t : ℕ) where
  abbrev Ends : Option (Option ℕ) → Type 0
  Ends o = (r : Option ℕ) × (o ≡ some r) × Answers cues g t r

  -- One round, with what the recursive call gives.
  goto_round-Ends :
      (fuel : ℕ) (visited : List ℕ) (current : ℕ) (o : Option Cue)
      → find_by (has_qid current) cues ≡ o
      → Chain cues t current
      → ((b : CueBase) (n : ℕ)
          → find_by (has_qid current) cues ≡ some (Cue.goto b n)
          → Ends (goto_loop fuel cues (current ∷ visited) n))
      → Ends (elim o [
        | none ↦ some none
        | some (Cue.goto b target) ↦ goto_loop fuel cues (current ∷ visited) target
        | some _ ↦ some (some current)
      ])
  goto_round-Ends fuel visited current none e p rec = (none, refl, (current, p, inl e))
  goto_round-Ends fuel visited current (some (Cue.goto b n)) e p rec = rec b n e
  goto_round-Ends fuel visited current (some c) e p rec = (some current, refl, (p, (c, e, refl)))

  goto_loop-Ends :
      (fuel : ℕ) (visited : List ℕ) (current : ℕ)
      → unvisited cues visited < fuel
      → Chain cues t current
      → Past cues g visited current
      → Ends (goto_loop fuel cues visited current)
  unfolding goto_loop
  goto_loop-Ends zero visited current h p past = absurd (omega arith)
  goto_loop-Ends (suc fuel) visited current h p past =
      elim (Bool-cases (contains current visited)) [
        | inl seen ↦ rw seen (
          none,
          refl,
          (
            current,
            p,
            inr (Past-In cues g current visited past (contains→In current visited seen)),
          ),
        )
        | inr fresh ↦
            rw (fresh, goto_loop)
              (goto_round-Ends fuel visited current (find_by (has_qid current) cues) refl p λ b n e.
                goto_loop-Ends fuel (current ∷ visited) n
                  (omega (arith, unvisited-cons_lt cues current visited (Cue.goto b n) e fresh))
                  (hop p e) (inr (current, b, here, e), Past-hop cues g current n b visited past e))
      ]

-- A chain of goto cues is always resolved. A target is the number of the first cue of that number,
-- which is no goto cue, and the chain leads to it. No target means that the chain leads to a number
-- with no cue, back to the goto cue itself, or to a number that leads to itself again.
pub resolve_goto_target-Answers :
    (cues : List Cue) (g t : ℕ)
    → (r : Option ℕ) × (resolve_goto_target cues g t ≡ some r) × Answers cues g t r
unfolding resolve_goto_target
resolve_goto_target-Answers cues g t =
    goto_loop-Ends cues g t (length cues + 1) (g ∷ []) t
      (omega (arith, unvisited-le-length cues (g ∷ []))) here (inl refl, tt)
