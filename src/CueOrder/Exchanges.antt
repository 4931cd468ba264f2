-- ===== src/CueOrder/Exchanges.antt =====
-- Two neighbouring runs of rows change places by `move_span` (crates/cuepool-gui/src/cue_order.rs).
use cue_pool.Base.{
  ℕ, ◌+◌, ◌-◌, ◌≤◌, ◌≡◌, ap, sym, ◌∙◌, List, ◌++◌, arith, length, drop, take, length-drop,
  length-take, take-append-drop,
}
use cue_pool.Cue.{Cue}
use cue_pool.CueOrder.{Range, move_span}
use cue_pool.CueOrder.Spans.{drop-drop}
use cue_pool.CueOrder.Moves.{move_span-swaps}

-- The rows of a range.
abbrev pub rows_of : List Cue → Range → List Cue
rows_of cues r = take (r.end - r.start) (drop r.start cues)

drop-take : (n m : ℕ) (cs : List Cue) → take n cs ++ (take m (drop n cs) ++ drop m (drop n cs)) ≡ cs
drop-take n m cs = ap (λ l. take n cs ++ l) (take-append-drop m (drop n cs)) ∙ take-append-drop n cs

-- Rows cut at three places.
parted :
    (n m k : ℕ) (cs : List Cue)
    → cs
      ≡ take n cs
        ++ (take m (drop n cs) ++ (take k (drop m (drop n cs)) ++ drop k (drop m (drop n cs))))
parted n m k cs = sym (
    ap (λ l. take n cs ++ (take m (drop n cs) ++ l)) (take-append-drop k (drop m (drop n cs)))
    ∙ drop-take n m cs)

-- `move_span-swaps` with the positions as numbers.
move_span-parts :
    (cues a b m z : List Cue) (n p k : ℕ)
    → cues ≡ a ++ (b ++ (m ++ z))
    → n ≡ length a
    → p ≡ length b
    → k ≡ length m
    → (move_span cues (record { start = n; end = n + p }) (n + p + k) ≡ a ++ (m ++ (b ++ z)))
      × (move_span cues (record { start = n + p; end = n + p + k }) n ≡ a ++ (m ++ (b ++ z)))
move_span-parts cues a b m z n p k e f g h =
    let parts = a ++ (b ++ (m ++ z)) in
    (
      ap (λ l. move_span l (record { start = n; end = n + p }) (n + p + k)) e
          ∙ ap (λ x. move_span parts (record { start = x; end = x + p }) (x + p + k)) f
          ∙ ap
              (λ x.
                move_span parts (record { start = length a; end = length a + x })
                  (length a + x + k))
              g
          ∙ ap
              (λ x.
                move_span parts (record { start = length a; end = length a + length b })
                  (length a + length b + x))
              h
          ∙ (move_span-swaps a b m z).0,
      ap (λ l. move_span l (record { start = n + p; end = n + p + k }) n) e
          ∙ ap (λ x. move_span parts (record { start = x + p; end = x + p + k }) x) f
          ∙ ap
              (λ x.
                move_span parts (record { start = length a + x; end = length a + x + k })
                  (length a))
              g
          ∙ ap
              (λ x.
                move_span parts
                  (record { start = length a + length b; end = length a + length b + x })
                  (length a))
              h
          ∙ (move_span-swaps a b m z).1,
    )

module _ (cues : List Cue) (n m k : ℕ) (h : n + m + k ≤ length cues) where
  abbrev head : List Cue
  head = take n cues

  abbrev middle : List Cue
  middle = take m (drop n cues)

  abbrev next : List Cue
  next = take k (drop m (drop n cues))

  abbrev tail : List Cue
  tail = drop k (drop m (drop n cues))

  move_span-parted :
      (move_span cues (record { start = n; end = n + m }) (n + m + k)
        ≡ head ++ (next ++ (middle ++ tail)))
      × (move_span cues (record { start = n + m; end = n + m + k }) n
          ≡ head ++ (next ++ (middle ++ tail)))
  move_span-parted =
      move_span-parts cues head middle next tail n m k (parted n m k cues)
        (omega (arith, h, length-take n cues))
        (omega (arith, h, length-take m (drop n cues), length-drop n cues))
        (omega (
          arith,
          h,
          length-take k (drop m (drop n cues)),
          length-drop m (drop n cues),
          length-drop n cues,
        ))

-- The rows from `a` up to `b` and those from there up to `c`.
module _ (cues : List Cue) (a b c : ℕ) (ab : a ≤ b) (bc : b ≤ c) (h : c ≤ length cues) where
  abbrev first : List Cue
  first = rows_of cues (record { start = a; end = b })

  abbrev second : List Cue
  second = rows_of cues (record { start = b; end = c })

  first_end : a + (b - a) ≡ b
  first_end = omega arith

  second_end : a + (b - a) + (c - b) ≡ c
  second_end = omega arith

  second_rows : next cues a (b - a) (c - b) (omega arith) ≡ second
  second_rows = ap (take (c - b)) (drop-drop a (b - a) cues ∙ ap (λ x. drop x cues) first_end)

  rows_behind : tail cues a (b - a) (c - b) (omega arith) ≡ drop c cues
  rows_behind =
      ap (drop (c - b)) (drop-drop a (b - a) cues)
      ∙ drop-drop (a + (b - a)) (c - b) cues
      ∙ ap (λ x. drop x cues) second_end

  pub in_order : cues ≡ take a cues ++ (first ++ (second ++ drop c cues))
  in_order =
      parted a (b - a) (c - b) cues
      ∙ ap (λ l. take a cues ++ (first ++ (l ++ tail cues a (b - a) (c - b) (omega arith))))
          second_rows
      ∙ ap (λ l. take a cues ++ (first ++ (second ++ l))) rows_behind

  exchanged :
      take a cues
        ++ (next cues a (b - a) (c - b) (omega arith)
            ++ (first ++ tail cues a (b - a) (c - b) (omega arith)))
      ≡ take a cues ++ (second ++ (first ++ drop c cues))
  exchanged =
      ap (λ l. take a cues ++ (l ++ (first ++ tail cues a (b - a) (c - b) (omega arith))))
        second_rows
      ∙ ap (λ l. take a cues ++ (second ++ (first ++ l))) rows_behind

  pub move_span-down :
      move_span cues (record { start = a; end = b }) c
      ≡ take a cues ++ (second ++ (first ++ drop c cues))
  move_span-down =
      sym (
        ap (λ x. move_span cues (record { start = a; end = x }) (a + (b - a) + (c - b))) first_end
        ∙ ap (move_span cues (record { start = a; end = b })) second_end)
      ∙ (move_span-parted cues a (b - a) (c - b) (omega arith)).0
      ∙ exchanged

  pub move_span-up :
      move_span cues (record { start = b; end = c }) a
      ≡ take a cues ++ (second ++ (first ++ drop c cues))
  move_span-up =
      sym (
        ap (λ x. move_span cues (record { start = a + (b - a); end = x }) a) second_end
        ∙ ap (λ x. move_span cues (record { start = x; end = c }) a) first_end)
      ∙ (move_span-parted cues a (b - a) (c - b) (omega arith)).1
      ∙ exchanged
