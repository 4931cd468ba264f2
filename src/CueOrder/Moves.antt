-- ===== src/CueOrder/Moves.antt =====
-- Where `move_span` of crates/cuepool-gui/src/cue_order.rs takes a block.
use cue_pool.Base.{
  ℕ, ◌+◌, ◌-◌, ◌<◌, ◌≡◌, ap, sym, ◌∙◌, Bool, true, false, List, [], ◌∷◌, ◌++◌, ◌&&◌, ◌||◌, arith,
  length, length-append, take, drop, min, append_assoc, take-append, drop-append, leb,
  if◌then◌else◌,
}
use cue_pool.Cue.{Cue}
use cue_pool.CueOrder.{Range, move_rows, move_span}

drop-past : (a b rest : List Cue) → drop (length a + length b) (a ++ (b ++ rest)) ≡ rest
drop-past a b rest =
    ap (λ n. drop n (a ++ (b ++ rest))) (sym (length-append a b))
    ∙ ap (drop (length (a ++ b))) (sym (append_assoc a b rest))
    ∙ drop-append (a ++ b) rest

-- The end of `move_rows`: a block spliced into what is left.
abbrev put : ℕ → List Cue → List Cue → List Cue
put at block rest = take at rest ++ (block ++ drop at rest)

put-append :
    (before after block : List Cue)
    → put (length before) block (before ++ after) ≡ before ++ (block ++ after)
put-append before after block =
    ap (λ l. l ++ (block ++ drop (length before) (before ++ after))) (take-append before after)
    ∙ ap (λ l. before ++ (block ++ l)) (drop-append before after)

put-cong :
    {n n' : ℕ} {block block' rest rest' : List Cue}
    → n ≡ n'
    → block ≡ block'
    → rest ≡ rest'
    → put n block rest ≡ put n' block' rest'
put-cong {n} {n'} {block} {block'} {rest} {rest'} e f g =
    ap (λ k. put k block rest) e ∙ ap (λ l. put n' l rest) f ∙ ap (put n' block') g

-- Where the block already is.
abbrev stays : Range → ℕ → Bool
stays from to = leb from.end from.start || (leb from.start to && leb to from.end)

move_span-stays :
    (cues : List Cue) (from : Range) (to : ℕ) → stays from to ≡ true → move_span cues from to ≡ cues
unfolding move_span
move_span-stays cues from to h = ap (λ c. if c then cues else move_rows cues from to) h

move_span-moves :
    (cues : List Cue) (from : Range) (to : ℕ)
    → stays from to ≡ false
    → move_span cues from to ≡ move_rows cues from to
unfolding move_span
move_span-moves cues from to h = ap (λ c. if c then cues else move_rows cues from to) h

-- Rows `b` cut out of `a ++ b ++ rest` and put back behind `before`.
move_rows-parts :
    (a b rest before after : List Cue) (to : ℕ)
    → a ++ rest ≡ before ++ after
    → (if leb (length a + length b) to then to - length b else to) ≡ length before
    → move_rows (a ++ (b ++ rest)) (record { start = length a; end = length a + length b }) to
      ≡ before ++ (b ++ after)
unfolding move_rows
move_rows-parts a b rest before after to f h =
    let len : length a + length b - length a ≡ length b = omega arith in
    let cut = a ++ (b ++ rest) in
    let block : take (length a + length b - length a) (drop (length a) cut) ≡ b =
      ap (λ n. take n (drop (length a) cut)) len
      ∙ ap (take (length b)) (drop-append a (b ++ rest))
      ∙ take-append b rest in
    let left : take (length a) cut ++ drop (length a + length b) cut ≡ before ++ after =
      ap (λ l. l ++ drop (length a + length b) cut) (take-append a (b ++ rest))
      ∙ ap (λ l. a ++ l) (drop-past a b rest)
      ∙ f in
    let at : min
          (if leb (length a + length b) to then to - (length a + length b - length a) else to)
          (length (take (length a) cut ++ drop (length a + length b) cut))
        ≡ length before =
      ap
        (λ n.
          min (if leb (length a + length b) to then to - n else to)
            (length (take (length a) cut ++ drop (length a + length b) cut)))
        len
      ∙ ap (λ n. min n (length (take (length a) cut ++ drop (length a + length b) cut))) h
      ∙ ap (λ l. min (length before) (length l)) left
      ∙ omega (arith, length-append before after) in
    put-cong at block left ∙ put-append before after b

abbrev rows : ℕ → ℕ → Range
rows start len = record { start = start; end = start + len }

moved_down :
    (a b m z : List Cue)
    → move_rows (a ++ (b ++ (m ++ z))) (rows (length a) (length b)) (length a + length b + length m)
      ≡ a ++ (m ++ (b ++ z))
moved_down a b m z =
    move_rows-parts a b (m ++ z) (a ++ m) z (length a + length b + length m)
      (sym (append_assoc a m z)) (ground (arith, length-append a m))
    ∙ append_assoc a m (b ++ z)

moved_up :
    (a b m z : List Cue)
    → 0 < length b + 0
    → move_rows (a ++ (b ++ (m ++ z))) (rows (length a + length b) (length m)) (length a)
      ≡ a ++ (m ++ (b ++ z))
moved_up a b m z h =
    ap (λ l. move_rows l (rows (length a + length b) (length m)) (length a))
      (sym (append_assoc a b (m ++ z)))
    ∙ ap (λ n. move_rows ((a ++ b) ++ (m ++ z)) (rows n (length m)) (length a))
        (sym (length-append a b))
    ∙ move_rows-parts (a ++ b) m z a (b ++ z) (length a) (append_assoc a b z)
        (ground (arith, length-append a b))

down_swaps :
    (a b m z : List Cue)
    → move_span (a ++ (b ++ (m ++ z))) (rows (length a) (length b)) (length a + length b + length m)
      ≡ a ++ (m ++ (b ++ z))
unfolding move_span
down_swaps a [] m z =
    move_span-stays (a ++ (m ++ z)) (rows (length a) 0) (length a + 0 + length m) (ground arith)
down_swaps a (x ∷ b) [] z =
    move_span-stays (a ++ (x ∷ (b ++ z))) (rows (length a) (length (x ∷ b)))
      (length a + length (x ∷ b) + 0) (ground arith)
down_swaps a (x ∷ b) (y ∷ m) z =
    move_span-moves _ (rows (length a) (length (x ∷ b)))
      (length a + length (x ∷ b) + length (y ∷ m)) (ground arith)
    ∙ moved_down a (x ∷ b) (y ∷ m) z

up_swaps :
    (a b m z : List Cue)
    → move_span (a ++ (b ++ (m ++ z))) (rows (length a + length b) (length m)) (length a)
      ≡ a ++ (m ++ (b ++ z))
unfolding move_span
up_swaps a [] m z =
    move_span-stays (a ++ (m ++ z)) (rows (length a + 0) (length m)) (length a) (ground arith)
up_swaps a (x ∷ b) [] z =
    move_span-stays (a ++ (x ∷ (b ++ z))) (rows (length a + length (x ∷ b)) 0) (length a)
      (ground arith)
up_swaps a (x ∷ b) (y ∷ m) z =
    move_span-moves _ (rows (length a + length (x ∷ b)) (length (y ∷ m))) (length a) (ground arith)
    ∙ moved_up a (x ∷ b) (y ∷ m) z (omega arith)

-- Two neighbouring blocks change places, whichever of them is moved: the first one behind the second,
-- or the second one in front of the first. A block that is empty changes nothing.
pub move_span-swaps :
    (a b m z : List Cue)
    → (move_span
          (a ++ (b ++ (m ++ z)))
          (record { start = length a; end = length a + length b })
          (length a + length b + length m)
        ≡ a ++ (m ++ (b ++ z)))
      × (move_span
            (a ++ (b ++ (m ++ z)))
            (record { start = length a + length b; end = length a + length b + length m })
            (length a)
          ≡ a ++ (m ++ (b ++ z)))
move_span-swaps a b m z = (down_swaps a b m z, up_swaps a b m z)
