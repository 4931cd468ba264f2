-- ===== src/CueOrder/Steps.antt =====
-- What a nudge (`nudge` of crates/cuepool-gui/src/cue_order.rs) steps over, and the list behind it.
use cue_pool.Base.{
  ℕ, suc, ◌+◌, ◌≤◌, ◌≡◌, ap, sym, ◌∙◌, Bool, true, false, Option, none, some, List, ◌++◌, ◌⊎◌,
  arith, length, drop, take, get_elem?, if◌then◌else◌,
}
use cue_pool.Cue.{Cue, parent, is_group}
use cue_pool.CueOrder.{Range, span, move_span, far_end, parent_at}
use cue_pool.CueOrder.Exchanges.{rows_of, in_order, move_span-down, move_span-up}
use cue_pool.CueOrder.Groups.{Block}

-- The result is the list with two neighbouring runs of rows in the other order: `own` came first and is
-- nudged down, or came second and is nudged up.
unfoldable pub Exchanged : Bool → List Cue → Range → Range → List Cue → Type 0
Exchanged true cues own over result =
    (own.end ≡ over.start)
    × (cues
        ≡ take own.start cues ++ (rows_of cues own ++ (rows_of cues over ++ drop over.end cues)))
    × (result
        ≡ take own.start cues ++ (rows_of cues over ++ (rows_of cues own ++ drop over.end cues)))
Exchanged false cues own over result =
    (over.end ≡ own.start)
    × (cues
        ≡ take over.start cues ++ (rows_of cues over ++ (rows_of cues own ++ drop own.end cues)))
    × (result
        ≡ take over.start cues ++ (rows_of cues own ++ (rows_of cues over ++ drop own.end cues)))

-- The row directly behind a block or in front of it, and that there is none.
abbrev pub Beside : Bool → Range → ℕ → Type 0
Beside true own n = own.end ≡ n
Beside false own n = own.start ≡ suc n

abbrev pub AtEdge : Bool → List Cue → Range → Type 0
AtEdge true cues own = length cues ≤ own.end
AtEdge false cues own = own.start ≡ 0

-- Row `n` is a member of the group `q`, and no group.
unfoldable pub Member : ℕ → List Cue → ℕ → Type 0
Member q cues n =
    (d : Cue) × (get_elem? cues n ≡ some d) × (parent d ≡ some q) × (is_group d ≡ false)

-- What a cue with this parent may step over at row `n`: a member steps over one member of its own group,
-- a cue that is in no group over the whole block that the row stands in.
unfoldable pub Past : Option ℕ → List Cue → ℕ → Range → Type 0
Past (some q) cues n over = Member q cues n × (over ≡ record { start = n; end = n + 1 })
Past none cues n over = Block cues n over

-- The rows of the cue, a group with its members, have changed places with what it may step over.
pub record Stepped (cues : List Cue) (idx : ℕ) (down : Bool) (result : List Cue) : Type 0 where
  pub cue : Cue
  pub at : get_elem? cues idx ≡ some cue
  pub row : ℕ
  pub beside : Beside down (span cues idx) row
  pub over : Range
  pub past : Past (parent cue) cues row over
  pub exchanged : Exchanged down cues (span cues idx) over result

-- There is no such cue, no row beside it, or it is a member and the row beside it is none of its group.
unfoldable pub Stuck : List Cue → ℕ → Bool → Type 0
Stuck cues idx down =
    (length cues ≤ idx)
    ⊎ (AtEdge down cues (span cues idx)
        ⊎ ((q : ℕ) × (n : ℕ) × (parent_at cues idx ≡ some q)
            × Beside down (span cues idx) n
            × (¬ Member q cues n)))

unfoldable pub Nudged : List Cue → ℕ → Bool → List Cue × Bool → Type 0
Nudged cues idx down (result, false) = (result ≡ cues) × Stuck cues idx down
Nudged cues idx down (result, true) = Stepped cues idx down result

pub move_span-Exchanged :
    (cues : List Cue) (own over : Range) (down : Bool)
    → own.start ≤ own.end
    → over.start ≤ over.end
    → own.end ≤ length cues
    → over.end ≤ length cues
    → (if down then own.end else over.end) ≡ (if down then over.start else own.start)
    → Exchanged down cues own over (move_span cues own (far_end down over))
unfolding Exchanged
move_span-Exchanged cues own over true a b i j e = (
  e,
  in_order cues own.start own.end over.end a (omega arith) j
      ∙ ap
          (λ x.
            take own.start cues
            ++ (rows_of cues own
                ++ (rows_of cues (record { start = x; end = over.end }) ++ drop over.end cues)))
          e,
  move_span-down cues own.start own.end over.end a (omega arith) j
      ∙ ap
          (λ x.
            take own.start cues
            ++ (rows_of cues (record { start = x; end = over.end })
                ++ (rows_of cues own ++ drop over.end cues)))
          e,
)
move_span-Exchanged cues own over false a b i j e =
    let f = sym e in
    (
      e,
      in_order cues over.start own.start own.end (omega arith) a i
          ∙ ap
              (λ x.
                take over.start cues
                ++ (rows_of cues (record { start = over.start; end = x })
                    ++ (rows_of cues own ++ drop own.end cues)))
              f,
      move_span-up cues over.start own.start own.end (omega arith) a i
          ∙ ap
              (λ x.
                take over.start cues
                ++ (rows_of cues own
                    ++ (rows_of cues (record { start = over.start; end = x })
                        ++ drop own.end cues)))
              f,
    )
