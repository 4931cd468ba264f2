-- ===== src/Engine/Clock.antt =====
-- crates/cuepool/src/engine.rs: the reading of `ShowEngine`'s show clock over a pause.
use cue_pool.Base.{ℕ, ◌+◌, ◌-◌, ◌≤◌, ◌≡◌, refl, Option, none, some, arith, ap, sym, ◌∙◌}
use cue_pool.Base.Int.{ℤ, pos, ◌+ℤ◌}
use cue_pool.Engine.State.{Engine}
use cue_pool.Engine.Transport.{pause, resume, show_elapsed, to_ℕ, get_or_ℕ}

shifted : (s o t1 t2 t3 : ℕ) → t1 ≤ t2 → t2 ≤ t3 → t3 - s - (o + (t2 - t1)) ≡ t1 + (t3 - t2) - s - o
shifted s o t1 t2 t3 h k = omega arith

-- `show_elapsed` on the fields that it reads.
reads : Option ℕ → Option ℕ → ℕ → ℤ → ℕ → Option ℕ
reads none held offset adjustment now = none
reads (some start) held offset adjustment now =
    some (to_ℕ (pos (get_or_ℕ held now - start - offset) +ℤ adjustment))

show_elapsed-reads :
    (e : Engine)
    → show_elapsed e
      ≡ reads e.show_start e.show_pause_started e.show_paused_offset e.show_adjustment e.now
unfolding show_elapsed reads ◌+ℤ◌
show_elapsed-reads e = ground arith

reads-pause :
    (start held : Option ℕ) (o : ℕ) (a : ℤ) (t1 t2 t3 : ℕ)
    → held ≡ none
    → t1 ≤ t2
    → t2 ≤ t3
    → (reads start (some (get_or_ℕ held t1)) o a t2 ≡ reads start held o a t1)
      × (reads start none (o + (t2 - get_or_ℕ held t1)) a t3
          ≡ reads start held o a (t1 + (t3 - t2)))
unfolding reads
reads-pause none held o a t1 t2 t3 run h k = (refl, refl)
reads-pause (some s) none o a t1 t2 t3 run h k =
    (refl, ap (λ n. some (to_ℕ (pos n +ℤ a))) (shifted s o t1 t2 t3 h k))
reads-pause (some s) (some x) o a t1 t2 t3 run h k = absurd (ground arith)

-- A pause costs the show no time: a running clock that is paused at `t1` shows at any time before the
-- resume what it showed at `t1`, and, resumed at `t2`, shows at `t3` what it would have shown without
-- the pause as much earlier as the pause was long.
pub show_elapsed-pause :
    (e : Engine) (t1 t2 t3 : ℕ)
    → e.show_pause_started ≡ none
    → t1 ≤ t2
    → t2 ≤ t3
    → (show_elapsed (record (pause (record e { now = t1 })) { now = t2 })
        ≡ show_elapsed (record e { now = t1 }))
      × (show_elapsed
            (record (resume (record (pause (record e { now = t1 })) { now = t2 })) { now = t3 })
          ≡ show_elapsed (record e { now = t1 + (t3 - t2) }))
unfolding pause resume
show_elapsed-pause e t1 t2 t3 run h k =
    let (held, resumed) =
      reads-pause e.show_start e.show_pause_started e.show_paused_offset e.show_adjustment t1 t2 t3
        run h k in
    (
      show_elapsed-reads _ ∙ held ∙ sym (show_elapsed-reads _),
      show_elapsed-reads _ ∙ resumed ∙ sym (show_elapsed-reads _),
    )
