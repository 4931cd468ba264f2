-- ===== src/Buffered/Current.antt =====
-- The generations of seeks in crates/cuepool-audio/src/buffered_source.rs.
use cue_pool.Base.{ℕ, ◌≤◌, ◌<◌, ◌≡◌, Bool, true, false}
use cue_pool.Buffered.{
  Background, Control, top, checking, filling, ending, ended, targeting, locking, reading, pushing,
  seeking, clearing, basing, zeroing, reopening, applying, releasing, storing,
}

-- What the background thread has loaded.
pub data Loaded : Type 0 where
  nothing : Loaded
  generation : ℕ → Loaded
  seek : ℕ → ℕ → Loaded

abbrev pub loaded : {A : Type 0} → Background A → Loaded
loaded top = nothing
loaded checking = nothing
loaded filling = nothing
loaded ending = nothing
loaded ended = nothing
loaded releasing = nothing
loaded (reading n) = nothing
loaded (pushing xs) = nothing
loaded (targeting g) = generation g
loaded (locking g t) = seek g t
loaded (seeking g t) = seek g t
loaded (clearing g t) = seek g t
loaded (basing g t) = seek g t
loaded (zeroing g t) = seek g t
loaded (reopening g t) = seek g t
loaded (applying g t) = seek g t

abbrev pub is_settled : Control → Bool
is_settled Control.idle = true
is_settled storing = false

-- A loaded generation is newer than the applied one, and a target loaded with the current generation
-- is the current target.
abbrev pub Current : Loaded → ℕ → ℕ → ℕ → Bool → Type 0
Current nothing gen applied target settled = applied ≤ gen
Current (generation g) gen applied target settled = (applied < g) × (g ≤ gen)
Current (seek g t) gen applied target settled =
    (applied < g) × (g ≤ gen) × (settled ≡ true → g ≡ gen → t ≡ target)
