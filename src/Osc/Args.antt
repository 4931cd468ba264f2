-- ===== src/Osc/Args.antt =====
-- The arguments of OSC messages, as crates/cuepool-protocols/src/osc/mod.rs reads them.
use cue_pool.Base.{
  ℕ, zero, suc, ◌+◌, ◌-◌, ◌*◌, ◌/◌, ◌%◌, ◌^◌, min, Bool, true, ◌&&◌, Option, none, some, List, [],
  ◌∷◌, ◌++◌, ◌==◌, ltb, leb, if◌then◌else◌,
}
use cue_pool.Base.Int.{ℤ, pos, negsuc, ltb_ℤ}
use cue_pool.Base.Parse.{parse_unsigned}
use cue_pool.Base.Text.{Text, codes, text_eq}
use cue_pool.Osc.Router.{parts}

pub data OscType : Type 0 where
  string : Text → OscType
  int long float double : ℤ → OscType
  bool : Bool → OscType
  other : OscType

pub record OscMessage : Type 0 where
  pub addr : Text
  pub args : List OscType

-- `Display` of a number, with enough fuel for its digits.
abbrev pub show_digits : ℕ → ℕ → Text
show_digits zero n = []
show_digits (suc fuel) n =
    let higher = show_digits fuel (n / 10) in
    if ltb n 10 then (0x30 + n) ∷ [] else higher ++ (0x30 + n % 10) ∷ []

abbrev pub show_ℕ : ℕ → Text
show_ℕ n = show_digits (suc n) n

abbrev pub show_ℤ : ℤ → Text
show_ℤ (pos n) = show_ℕ n
show_ℤ (negsuc n) = 0x2D ∷ show_ℕ (suc n)

abbrev pub show_fraction : ℕ → Text
show_fraction n =
    if n == 0
    then []
    else if n % 100 == 0
    then 0x2E ∷ (0x30 + n / 100) ∷ []
    else if n % 10 == 0
    then 0x2E ∷ (0x30 + n / 100) ∷ (0x30 + n / 10 % 10) ∷ []
    else 0x2E ∷ (0x30 + n / 100) ∷ (0x30 + n / 10 % 10) ∷ (0x30 + n % 10) ∷ []

abbrev pub show_thousandths : ℤ → Text
show_thousandths (pos n) = show_ℕ (n / 1_000) ++ show_fraction (n % 1_000)
show_thousandths (negsuc n) = 0x2D ∷ (show_ℕ (suc n / 1_000) ++ show_fraction (suc n % 1_000))

unfoldable pub arg_to_string : OscType → Option Text
arg_to_string (OscType.string s) = some s
arg_to_string (OscType.int i) = some (show_ℤ i)
arg_to_string (OscType.long i) = some (show_ℤ i)
arg_to_string (OscType.float f) = some (show_thousandths f)
arg_to_string (OscType.double d) = some (show_thousandths d)
arg_to_string (OscType.bool b) = none
arg_to_string OscType.other = none

abbrev pub thousandfold : ℤ → ℤ
thousandfold (pos n) = pos (n * 1_000)
thousandfold (negsuc n) = negsuc (n * 1_000 + 999)

unfoldable pub arg_to_f32 : OscType → Option ℤ
arg_to_f32 (OscType.float f) = some f
arg_to_f32 (OscType.double d) = some d
arg_to_f32 (OscType.int i) = some (thousandfold i)
arg_to_f32 (OscType.long i) = some (thousandfold i)
arg_to_f32 (OscType.string s) = none
arg_to_f32 (OscType.bool b) = none
arg_to_f32 OscType.other = none

-- `as i32` of an i64 wraps, of a float it cuts the fraction off and saturates.
abbrev pub signed_word : ℕ → ℤ
signed_word n = if ltb n (2 ^ 31) then pos n else negsuc (2 ^ 32 - 1 - n)

abbrev pub wrap_i32 : ℤ → ℤ
wrap_i32 (pos n) = signed_word (n % 2 ^ 32)
wrap_i32 (negsuc n) = signed_word (2 ^ 32 - 1 - n % 2 ^ 32)

abbrev pub truncate_i32 : ℤ → ℤ
truncate_i32 (pos n) = pos (min (n / 1_000) (2 ^ 31 - 1))
truncate_i32 (negsuc n) =
    if ltb (suc n) 1_000 then pos 0 else negsuc (min (suc n / 1_000 - 1) (2 ^ 31 - 1))

unfoldable pub arg_to_i32 : OscType → Option ℤ
arg_to_i32 (OscType.int i) = some i
arg_to_i32 (OscType.long i) = some (wrap_i32 i)
arg_to_i32 (OscType.float f) = some (truncate_i32 f)
arg_to_i32 (OscType.double d) = some (truncate_i32 d)
arg_to_i32 (OscType.string s) = none
arg_to_i32 (OscType.bool b) = none
arg_to_i32 OscType.other = none

-- `(clamp(0.0, 1.0) * 255.0).round()`.
abbrev pub level_of : ℤ → ℕ
level_of (pos n) = (min n 1_000 * 255 + 500) / 1_000
level_of (negsuc n) = 0

abbrev pub clamp_byte : ℤ → ℕ
clamp_byte (pos n) = min n 255
clamp_byte (negsuc n) = 0

unfoldable pub arg_to_dmx : OscType → Option ℕ
arg_to_dmx (OscType.float f) = some (level_of f)
arg_to_dmx (OscType.double d) = some (level_of d)
arg_to_dmx (OscType.int i) = some (clamp_byte i)
arg_to_dmx (OscType.long i) = some (clamp_byte i)
arg_to_dmx (OscType.bool b) = some (if b then 255 else 0)
arg_to_dmx (OscType.string s) = none
arg_to_dmx OscType.other = none

abbrev pub first : {A : Type 0} → List A → Option A
first [] = none
first (x ∷ xs) = some x

infixl 5 ◌>>=◌
abbrev pub ◌>>=◌ : {A B : Type 0} → Option A → (A → Option B) → Option B
none >>= f = none
some a >>= f = f a

abbrev pub is_positive : ℤ → Bool
is_positive v = ltb_ℤ (pos 0) v

-- No argument, or no number, is a press too.
unfoldable pub is_press : OscMessage → Bool
unfolding arg_to_f32
is_press msg = elim (first msg.args >>= arg_to_f32) [ none ↦ true | some v ↦ is_positive v ]

-- `usize::try_from(i).ok()`.
abbrev pub to_usize : ℤ → Option ℕ
to_usize (pos n) = some n
to_usize (negsuc n) = none

abbrev pub optional_index : OscMessage → Option ℕ
optional_index msg = first msg.args >>= arg_to_i32 >>= to_usize

-- The last of the parts of an address.
abbrev pub last_of : List Text → Option Text
last_of [] = none
last_of (p ∷ []) = some p
last_of (p ∷ q ∷ ps) = last_of (q ∷ ps)

abbrev pub addr_qid : Text → Option Text
addr_qid addr = last_of (parts addr)

abbrev pub dmx_parts : List Text → Option (ℕ × ℕ)
dmx_parts (dmx ∷ universe ∷ channel ∷ []) =
    if text_eq dmx (codes "dmx")
    then (parse_unsigned (2 ^ 16) universe >>= λ u.
        parse_unsigned (2 ^ 16) channel >>= λ c. if leb 1 c && leb c 512 then some (u, c) else none)
    else none
dmx_parts ps = none

abbrev pub parse_dmx_addr : Text → Option (ℕ × ℕ)
parse_dmx_addr addr = dmx_parts (parts addr)
