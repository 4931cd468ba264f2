-- ===== src/Base/Parse.antt =====
-- Numbers in text: `str::parse` of an unsigned integer type.
use Prim.Native.Nat.{ℕ, ◌+◌, ◌-◌, ◌*◌}
use mathlib.Core.Bool.{Bool, ◌&&◌}
use mathlib.Core.Option.{Option, none, some}
use mathlib.Core.List.{[], ◌∷◌}
use cue_pool.Base.Tests.{◌==◌, leb, ltb, if◌then◌else◌}
use cue_pool.Base.Text.{Text}

abbrev pub is_digit : ℕ → Bool
is_digit c = leb 0x30 c && leb c 0x39

abbrev pub digits_value : ℕ → Text → Option ℕ
digits_value n [] = some n
digits_value n (c ∷ cs) =
    let rest = digits_value (n * 10 + (c - 0x30)) cs in if is_digit c then rest else none

abbrev pub in_limit : ℕ → Option ℕ → Option ℕ
in_limit limit none = none
in_limit limit (some n) = if ltb n limit then some n else none

-- Digits, at least one, perhaps behind a plus, of a number below a limit.
abbrev pub parse_digits : ℕ → Text → Option ℕ
parse_digits limit [] = none
parse_digits limit (c ∷ cs) = in_limit limit (digits_value 0 (c ∷ cs))

abbrev pub parse_unsigned : ℕ → Text → Option ℕ
parse_unsigned limit [] = none
parse_unsigned limit (c ∷ cs) =
    if c == 0x2B then parse_digits limit cs else parse_digits limit (c ∷ cs)
