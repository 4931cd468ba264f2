-- ===== src/Sequence/Targets.antt =====
-- `resolve_stop_targets` of crates/cuepool/src/engine.rs: a stop aimed at a group means the group
-- and all that stands below it.
use mathlib.Core.Logic.{◌↔◌}
use cue_pool.Base.{
  ℕ, zero, suc, ◌+◌, ◌-◌, ◌≤◌, ◌<◌, ◌≡◌, ◌∙◌, refl, sym, ap, subst, Bool, true, not, ◌&&◌, Option,
  some, List, [], ◌∷◌, ◌++◌, ◌⊎◌, inl, inr, arith, length, length-append, get_elem?, get_elem?-lt,
  get_elem?-In, ltb, ltb→lt, get_elem?-none_le, get_elem?-append_left, contains, contains-append,
  any_by, In, In→contains, contains→In, In-map, map-In, In-filter_by, filter_by-In, In-append_left,
  In-append_right, In-get_elem?, Bool-cases, Option-cases, All,
}
use cue_pool.Cue.{Cue, qid, parent, is_group}
use cue_pool.Sequence.Unvisited.{unvisited, unvisited-le-length}
use cue_pool.Sequence.{has_qid, is_member_of, new_members, stop_loop, resolve_stop_targets}

-- The numbers below `g`: itself, and the cues whose parent is below it.
pub data Within (cues : List Cue) (g : ℕ) : ℕ → Type 0 where
  self : Within cues g g
  member :
      {p x : ℕ} (c : Cue)
      → Within cues g p
      → In c cues
      → parent c ≡ some p
      → qid c ≡ x
      → Within cues g x

abbrev is_new : ℕ → List ℕ → Cue → Bool
is_new group targets c = is_member_of group c && not (contains (qid c) targets)

is_member_of_parent : (g : ℕ) (c : Cue) → is_member_of g c ≡ true → parent c ≡ some g
is_member_of_parent g c h = ground arith

parent_is_member_of : (g : ℕ) (c : Cue) → parent c ≡ some g → is_member_of g c ≡ true
parent_is_member_of g c h = ground arith

-- New targets are visited cues: what is added is taken off the measure.
new_members-unvisited :
    (cs : List Cue) (group : ℕ) (targets more : List ℕ)
    → ((c : Cue) → In c cs → is_new group targets c ≡ true → contains (qid c) more ≡ true)
    → length (new_members cs group targets) + unvisited cs (targets ++ more) ≤ unvisited cs targets
new_members-unvisited [] group targets more h = omega arith
new_members-unvisited (c ∷ cs) group targets more h = ground (
  arith,
  new_members-unvisited cs group targets more (λ d m. h d (inr m)),
  h c (inl refl),
  contains-append (qid c) targets more,
)

new_members-all_new :
    (cues : List Cue) (group : ℕ) (targets : List ℕ) (c : Cue)
    → In c cues
    → is_new group targets c ≡ true
    → contains (qid c) (new_members cues group targets) ≡ true
new_members-all_new cues group targets c m h =
    In→contains (qid c) _ (In-map qid c _ (filter_by-In (is_new group targets) c cues m h))

module _ (cues : List Cue) (g : ℕ) where
  -- Every target is below `g`, and the members of those before `index` are targets.
  record Progress (targets : List ℕ) (index : ℕ) : Type 0 where
    sound : All (Within cues g) targets
    root : In g targets
    closed :
        (k p : ℕ) (c : Cue)
        → k < index
        → get_elem? targets k ≡ some p
        → In c cues
        → parent c ≡ some p
        → In (qid c) targets

  All-Within-In : (xs : List ℕ) (x : ℕ) → All (Within cues g) xs → In x xs → Within cues g x
  All-Within-In [] x a m = absurd m
  All-Within-In (y ∷ ys) x a (inl e) = subst (Within cues g) (sym e) a.0
  All-Within-In (y ∷ ys) x a (inr m) = All-Within-In ys x a.1 m

  All-Within-append :
      (xs ys : List ℕ)
      → All (Within cues g) xs
      → ((y : ℕ) → In y ys → Within cues g y)
      → All (Within cues g) (xs ++ ys)
  All-Within-append [] [] a h = tt
  All-Within-append [] (y ∷ ys) a h =
      (h y (inl refl), All-Within-append [] ys tt (λ z m. h z (inr m)))
  All-Within-append (x ∷ xs) ys a h = (a.0, All-Within-append xs ys a.1 h)

  new-Within :
      (targets : List ℕ) (group y : ℕ)
      → Within cues g group
      → In y (new_members cues group targets)
      → Within cues g y
  new-Within targets group y w m =
      let (c, mc, e) = map-In qid y _ m in
      let (inside, new) = In-filter_by (is_new group targets) c cues mc in
      member c w inside (is_member_of_parent group c (ground arith)) (sym e)

  -- A member of `group` was a target already or is added.
  member-In :
      (targets : List ℕ) (group : ℕ) (c : Cue)
      → In c cues
      → parent c ≡ some group
      → In (qid c) (targets ++ new_members cues group targets)
  member-In targets group c m e = elim (Bool-cases (contains (qid c) targets)) [
    | inl old ↦ In-append_left (qid c) targets _ (contains→In (qid c) targets old)
    | inr new ↦ In-append_right (qid c) targets _ (
        contains→In (qid c) _ (
          new_members-all_new cues group targets c m
            (ground (arith, parent_is_member_of group c e))))
  ]

  Progress-step :
      (targets : List ℕ) (index group : ℕ)
      → get_elem? targets index ≡ some group
      → Progress targets index
      → Progress (targets ++ new_members cues group targets) (suc index)
  Progress-step targets index group e s = record {
    sound = All-Within-append targets _ s.sound λ y m.
        new-Within targets group y (All-Within-In targets group s.sound (get_elem?-In _ _ e)) m;
    root = In-append_left g targets _ s.root;
    closed = λ k p c h ek m ep. elim (Bool-cases (ltb k index)) [
      | inl before ↦ In-append_left (qid c) targets _ (
          s.closed k p c (ltb→lt k index before)
            (sym (
                get_elem?-append_left targets _ k
                  (omega (arith, get_elem?-lt targets index group e, ltb→lt k index before)))
              ∙ ek)
            m ep)
      | inr last ↦ member-In targets group c m (
          ep
          ∙ sym ek
          ∙ get_elem?-append_left targets _ k (ground (arith, get_elem?-lt targets index group e))
          ∙ ap (get_elem? targets) (ground arith)
          ∙ e)
    ];
  }

  Closes : Option (List ℕ) → Type 0
  Closes o = (ts : List ℕ) × (o ≡ some ts) × ((x : ℕ) → In x ts ↔ Within cues g x)

  Within-In :
      (ts : List ℕ) (index x : ℕ)
      → Progress ts index
      → length ts ≤ index
      → Within cues g x
      → In x ts
  Within-In ts index x s h self = s.root
  Within-In ts index x s h (member {p = p} c w m e ex) =
      let (k, ek) = In-get_elem? p ts (Within-In ts index p s h w) in
      subst (λ y. In y ts) ex (s.closed k p c (omega (arith, get_elem?-lt ts k p ek)) ek m e)

  stop_loop-Closes :
      (fuel : ℕ) (targets : List ℕ) (index : ℕ)
      → unvisited cues targets + (length targets - index) < fuel
      → Progress targets index
      → Closes (stop_loop fuel cues targets index)
  unfolding stop_loop Closes
  stop_loop-Closes zero targets index h s = absurd (omega arith)
  stop_loop-Closes (suc fuel) targets index h s = elim (Option-cases (get_elem? targets index)) [
    | inl e ↦
        rw (e, stop_loop)
          (
            targets,
            refl,
            λ x. (
              All-Within-In targets x s.sound,
              Within-In targets index x s (get_elem?-none_le targets index e),
            ),
          )
    | inr (group, e) ↦
        rw (e, stop_loop)
          (stop_loop-Closes fuel (targets ++ new_members cues group targets) (suc index)
            (omega (
              arith,
              new_members-unvisited cues group targets _ (new_members-all_new cues group targets),
              length-append targets (new_members cues group targets),
              get_elem?-lt targets index group e,
            ))
            (Progress-step targets index group e s))
  ]

-- A stop's targets are always computed, and they are exactly these numbers: the one that the stop
-- names and, where that is the number of a group, every number that stands below it through any chain
-- of parents.
pub resolve_stop_targets-Within :
    (cues : List Cue) (q : ℕ)
    → (ts : List ℕ) × (resolve_stop_targets cues q ≡ some ts)
      × ((x : ℕ)
          → In x ts
            ↔ ((x ≡ q) ⊎ ((any_by (λ c. is_group c && has_qid q c) cues ≡ true) × Within cues q x)))
unfolding resolve_stop_targets Closes
resolve_stop_targets-Within cues q =
    elim (Bool-cases (any_by (λ c. is_group c && has_qid q c) cues)) [
      | inl grouped ↦
          let (ts, e, h) =
            stop_loop-Closes cues q (length cues + 2) (q ∷ []) 0
              (omega (arith, unvisited-le-length cues (q ∷ [])))
              (record {
                sound = (self, tt);
                root = inl refl;
                closed = λ k p c h ek m ep. absurd (omega arith);
              }) in
          rw grouped (
            ts,
            e,
            λ x. (
              λ m. inr (refl, (h x).0 m),
              elim [ inl ex ↦ subst (λ y. In y ts) (sym ex) ((h q).1 self) | inr w ↦ (h x).1 w.1 ],
            ),
          )
      | inr plain ↦ rw plain (
        q ∷ [],
        refl,
        λ x. (elim [ inl ex ↦ inl ex | inr m ↦ absurd m ], elim [ inl ex ↦ inl ex | inr w ↦ cc ]),
      )
    ]
