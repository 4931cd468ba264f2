-- ===== src/Throttle/Lines.antt =====
-- What a run of events through `WarnThrottle` (crates/cuepool-protocols/src/lib.rs) logs.
use cue_pool.Base.{
  ℕ, suc, ◌+◌, ◌^◌, ◌≤◌, ◌<◌, ◌≡◌, false, Option, none, some, List, [], ◌∷◌, arith, if-keep, length,
}
use cue_pool.Throttle.{WarnThrottle, is_within, suppress, log_line, throttle_tick, tick_all}

-- The events that the lines speak of: each line stands for one and reports the ones before it.
abbrev pub reported : List (ℕ × ℕ) → ℕ
reported [] = 0
reported (line ∷ lines) = suc (line.1 + reported lines)

-- Every line comes an interval or more after the line before it.
pub Spaced : ℕ → Option ℕ → List (ℕ × ℕ) → Type 0
Spaced interval last [] = Unit
Spaced interval none (line ∷ lines) = Spaced interval (some line.0) lines
Spaced interval (some last) (line ∷ lines) =
    (last + interval ≤ line.0) × Spaced interval (some line.0) lines

-- No event is lost: the lines that a run of events logs and the count that is left account for every
-- event of the run and for those suppressed before it, as long as the count of 64 bits can hold them.
pub tick_all-reported :
    (t : WarnThrottle) (times : List ℕ) (room : t.suppressed + length times < 2 ^ 64)
    → reported (tick_all t times).1 + (tick_all t times).0.suppressed ≡ t.suppressed + length times
unfolding tick_all throttle_tick
tick_all-reported t [] room = ground arith
tick_all-reported t (now ∷ later) room =
    if-keep
      (λ (r : WarnThrottle × Option ℕ).
        reported (elim r.1 [
          | none ↦ (tick_all r.0 later).1
          | some n ↦ (now, n) ∷ (tick_all r.0 later).1
        ])
          + (tick_all r.0 later).0.suppressed
        ≡ t.suppressed + suc (length later))
      (is_within t.interval now t.last_logged) (suppress t, none)
      (log_line now t, some t.suppressed)
      (λ quiet. omega (arith, tick_all-reported (suppress t) later (omega arith)))
      (λ loud. omega (arith, tick_all-reported (log_line now t) later (omega arith)))

Spaced-cons :
    (interval now : ℕ) (last : Option ℕ) (n : ℕ) (lines : List (ℕ × ℕ)) (some_time : 0 < interval)
    (loud : is_within interval now last ≡ false) (rest : Spaced interval (some now) lines)
    → Spaced interval last ((now, n) ∷ lines)
unfolding Spaced
Spaced-cons interval now none n lines some_time loud rest = rest
Spaced-cons interval now (some last) n lines some_time loud rest = (ground arith, rest)

-- Lines come at the rate that is promised: with an interval above zero, whatever the events and their
-- times, each line of a run is at least the interval after the line before it, and the first after the
-- last line logged earlier.
pub tick_all-Spaced :
    (t : WarnThrottle) (times : List ℕ) (some_time : 0 < t.interval)
    → Spaced t.interval t.last_logged (tick_all t times).1
unfolding Spaced tick_all throttle_tick
tick_all-Spaced t [] some_time = tt
tick_all-Spaced t (now ∷ later) some_time =
    if-keep
      (λ (r : WarnThrottle × Option ℕ).
        Spaced t.interval t.last_logged
          (elim r.1 [ none ↦ (tick_all r.0 later).1 | some n ↦ (now, n) ∷ (tick_all r.0 later).1 ]))
      (is_within t.interval now t.last_logged) (suppress t, none)
      (log_line now t, some t.suppressed) (λ quiet. tick_all-Spaced (suppress t) later some_time)
      (λ loud.
        Spaced-cons t.interval now t.last_logged t.suppressed _ some_time loud
          (tick_all-Spaced (log_line now t) later some_time))
