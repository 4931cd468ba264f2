-- ===== src/Buffered.antt =====
-- `BufferedSource` of crates/cuepool-audio/src/buffered_source.rs: a background thread fills a ring from
-- a source of samples, the audio callback takes them out, and the control thread seeks. Each thread
-- stands between two of its accesses to shared state, a move takes one of them a step further, and a
-- schedule is a list of moves. No thread panics, so that no lock is poisoned.
pub mod Data
pub mod Current
pub mod Fills
pub mod Reads
pub mod Runs
pub mod Sought
pub mod Lands
use cue_pool.Base.{
  ℕ, ◌+◌, ◌-◌, ◌%◌, ◌^◌, min, Bool, true, false, not, Option, none, some, List, [], ◌∷◌, ◌++◌, ◌==◌,
  if◌then◌else◌, length, take, drop,
}
use cue_pool.Loop.{SampleProvider}

-- `bg_loop`, by what it does next. A generation and a target that it has loaded are at hand.
pub data Background (A : Type 0) : Type 0 where
  top checking filling ending releasing ended : Background A
  targeting : ℕ → Background A
  locking seeking clearing basing zeroing reopening applying : ℕ → ℕ → Background A
  reading : ℕ → Background A
  pushing : List A → Background A

-- `read`, by what it does next, with the length of the buffer.
pub data Callback (A : Type 0) : Type 0 where
  idle : Callback A
  comparing : ℕ → ℕ → Callback A
  entering rechecking popping drained : ℕ → Callback A
  counting : List A → Callback A

-- `seek`: whether the target is stored and the generation not yet counted up.
pub data Control : Type 0 where
  idle storing : Control

pub record BufferedSource (A S : Type 0) : Type 0 where
  pub source : S
  pub ring : List A
  pub capacity : ℕ
  pub read_pos : ℕ
  pub eof : Bool
  pub shutdown : Bool
  pub seek_target : ℕ
  pub seek_generation : ℕ
  pub applied_seek_generation : ℕ
  pub position_base : ℕ
  pub background : Background A
  pub callback : Callback A
  pub control : Control

abbrev pub new_source : {A S : Type 0} → S → ℕ → BufferedSource A S
new_source source capacity = record {
  source = source;
  ring = [];
  capacity = capacity;
  read_pos = 0;
  eof = false;
  shutdown = false;
  seek_target = 0;
  seek_generation = 0;
  applied_seek_generation = 0;
  position_base = 0;
  background = Background.top;
  callback = Callback.idle;
  control = Control.idle;
}

-- What a read gives: silence, samples, or the end of the track.
pub data Output (A : Type 0) : Type 0 where
  silence : ℕ → Output A
  played : List A → Output A
  finished : Output A

-- A callback that begins gets a buffer of the given length, a seek that begins its target.
pub data Move : Type 0 where
  background : Move
  callback control : ℕ → Move
  drop_source : Move

-- The guard that the callback reads under.
abbrev pub is_guarded : {A : Type 0} → Callback A → Bool
is_guarded Callback.idle = false
is_guarded (comparing n g) = false
is_guarded (entering n) = false
is_guarded (rechecking n) = true
is_guarded (popping n) = true
is_guarded (drained n) = true
is_guarded (counting xs) = true

-- The guard that the background thread resets under.
abbrev pub is_resetting : {A : Type 0} → Background A → Bool
is_resetting (seeking g t) = true
is_resetting (clearing g t) = true
is_resetting (basing g t) = true
is_resetting (zeroing g t) = true
is_resetting (reopening g t) = true
is_resetting (applying g t) = true
is_resetting releasing = true
is_resetting top = false
is_resetting checking = false
is_resetting filling = false
is_resetting ending = false
is_resetting ended = false
is_resetting (targeting g) = false
is_resetting (locking g t) = false
is_resetting (reading n) = false
is_resetting (pushing xs) = false

abbrev pub is_nil : {A : Type 0} → List A → Bool
is_nil [] = true
is_nil (x ∷ xs) = false

abbrev pub emitted : {A : Type 0} → Option (Output A) → List (Output A)
emitted none = []
emitted (some o) = o ∷ []

module _ {A S : Type 0} where
  abbrev pub stand : Background A → BufferedSource A S → BufferedSource A S
  stand b s = record s { background = b }

  -- The background thread, which reads into a buffer of 4096 samples.
  abbrev pub advance : SampleProvider A S → Background A → BufferedSource A S → BufferedSource A S
  advance sp top s = if s.shutdown then stand ended s else stand checking s
  advance sp checking s =
      if s.seek_generation == s.applied_seek_generation
      then stand filling s
      else stand (targeting s.seek_generation) s
  advance sp (targeting g) s = stand (locking g s.seek_target) s
  advance sp (locking g t) s =
      if is_guarded s.callback then stand (locking g t) s else stand (seeking g t) s
  advance sp (seeking g t) s = record s { source = sp.seek s.source t; background = clearing g t }
  advance sp (clearing g t) s = record s { ring = []; background = basing g t }
  advance sp (basing g t) s = record s { position_base = t; background = zeroing g t }
  advance sp (zeroing g t) s = record s { read_pos = 0; background = reopening g t }
  advance sp (reopening g t) s = record s { eof = false; background = applying g t }
  advance sp (applying g t) s = record s { applied_seek_generation = g; background = releasing }
  advance sp releasing s = stand filling s
  advance sp filling s =
      let free = s.capacity - length s.ring in
      if s.eof
      then stand top s
      else if free == 0
      then stand top s
      else stand (reading (min 4_096 free)) s
  advance sp (reading n) s =
      let (source', xs) = sp.read s.source n in
      record s { source = source'; background = if is_nil xs then ending else pushing xs }
  advance sp ending s = record s { eof = true; background = top }
  advance sp (pushing xs) s = record s {
    ring = s.ring ++ take (s.capacity - length s.ring) xs;
    background = top;
  }
  advance sp ended s = stand ended s

  abbrev pub wait : Callback A → BufferedSource A S → BufferedSource A S × Option (Output A)
  wait c s = (record s { callback = c }, none)

  abbrev pub give : Output A → BufferedSource A S → BufferedSource A S × Option (Output A)
  give o s = (record s { callback = Callback.idle }, some o)

  -- The callback. Under the guard no other thread changes the applied generation or takes from the ring.
  abbrev pub read_step :
      ℕ → Callback A → BufferedSource A S → BufferedSource A S × Option (Output A)
  read_step n Callback.idle s = wait (comparing n s.seek_generation) s
  read_step _ (comparing n g) s =
      if g == s.applied_seek_generation then wait (entering n) s else give (silence n) s
  read_step _ (entering n) s =
      if is_resetting s.background then give (silence n) s else wait (rechecking n) s
  read_step _ (rechecking n) s =
      if s.seek_generation == s.applied_seek_generation
      then wait (popping n) s
      else give (silence n) s
  read_step _ (popping n) s =
      let to_copy = min n (length s.ring) in
      if to_copy == 0 then wait (drained n) s else (
        record s { ring = drop to_copy s.ring; callback = counting (take to_copy s.ring) },
        none,
      )
  read_step _ (drained n) s = if s.eof then give finished s else give (silence n) s
  read_step _ (counting xs) s =
      give (played xs) (record s { read_pos = (s.read_pos + length xs) % 2 ^ 64 })

  abbrev pub seek_step : ℕ → Control → BufferedSource A S → BufferedSource A S
  seek_step t Control.idle s = record s { seek_target = t % 2 ^ 64; control = storing }
  seek_step t storing s = record s {
    seek_generation = (s.seek_generation + 1) % 2 ^ 64;
    control = Control.idle;
  }

  unfoldable pub step :
      SampleProvider A S → Move → BufferedSource A S → BufferedSource A S × Option (Output A)
  step sp Move.background s = (advance sp s.background s, none)
  step sp (Move.callback n) s = read_step n s.callback s
  step sp (Move.control t) s = (seek_step t s.control s, none)
  step sp drop_source s = (record s { shutdown = true }, none)

  -- `position`, at one instant.
  abbrev pub position : BufferedSource A S → ℕ
  position s =
      if s.seek_generation == s.applied_seek_generation
      then min (s.position_base + s.read_pos) (2 ^ 64 - 1)
      else s.seek_target

  unfoldable pub run :
      SampleProvider A S → List Move → BufferedSource A S → BufferedSource A S × List (Output A)
  run sp [] s = (s, [])
  run sp (m ∷ ms) s =
      let (s', o) = step sp m s in let (s'', os) = run sp ms s' in (s'', emitted o ++ os)
