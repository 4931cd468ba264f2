-- ===== src/Msc.antt =====
-- MIDI show control over UDP, crates/cuepool-protocols/src/msc/mod.rs: the packets that the lighting desk
-- sends. A packet is the list of its bytes and a string that of its UTF-8 bytes. What is read is
-- absent, present, or a panic where the code would index or slice out of range.
pub mod Reads
pub mod Targets
pub mod RoundTrip
use cue_pool.Base.{
  ℕ, zero, suc, ◌+◌, ◌-◌, ◌*◌, ◌/◌, ◌%◌, Bool, true, false, ◌&&◌, ◌||◌, not, Option, none, some,
  List, [], ◌∷◌, ◌++◌, ◌==◌, leb, ltb, if◌then◌else◌, length, take, drop, get_elem?,
}
use cue_pool.Base.Parse.{parse_unsigned}
use cue_pool.Base.Text.{text_eq}

pub record MscTime : Type 0 where
  pub hours : ℕ
  pub minutes : ℕ
  pub seconds : ℕ
  pub frames : ℕ
  pub fraction : ℕ

pub data MscCommand : Type 0 where
  unknown go stop resume timed_go set fire go_off : MscCommand

abbrev pub command_from : ℕ → MscCommand
command_from v =
    if v == 1
    then go
    else if v == 2
    then stop
    else if v == 3
    then resume
    else if v == 4
    then timed_go
    else if v == 6
    then set
    else if v == 7
    then fire
    else if v == 11
    then go_off
    else unknown

pub data MscCommandFormat : Type 0 where
  other general_lighting moving_lights all_formats : MscCommandFormat

abbrev pub format_from : ℕ → MscCommandFormat
format_from v =
    if v == 1
    then general_lighting
    else if v == 2
    then moving_lights
    else if v == 0x7f
    then all_formats
    else other

-- A fader's value is in parts of 128 · 128.
pub data MscData : Type 0 where
  go go_off : List ℕ → Option ℕ → Option ℕ → MscData
  stop resume : Option (List ℕ) → Option ℕ → Option ℕ → MscData
  timed_go : List ℕ → Option ℕ → Option ℕ → MscTime → MscData
  set : ℕ → ℕ → ℕ → MscData
  fire : ℕ → MscData
  nothing : MscData

pub record MamscPacket : Type 0 where
  pub device_id : ℕ
  pub command_format : MscCommandFormat
  pub command : MscCommand
  pub contents : MscData

pub data Outcome {ℓ} (A : Type ℓ) : Type ℓ where
  panic absent : Outcome A
  present : A → Outcome A

infixl 5 ◌>>=◌
abbrev pub ◌>>=◌ : {A B : Type 0} → Outcome A → (A → Outcome B) → Outcome B
panic >>= f = panic
absent >>= f = absent
present a >>= f = f a

-- `buf[i]` and `&buf[from..to]`.
abbrev pub index : List ℕ → ℕ → Outcome ℕ
index buf i = elim (get_elem? buf i) [ none ↦ panic | some b ↦ present b ]

abbrev pub slice : List ℕ → ℕ → ℕ → Outcome (List ℕ)
slice buf from to =
    if leb from to && leb to (length buf) then present (take (to - from) (drop from buf)) else panic

-- `position(f).unwrap_or(len)`.
abbrev pub position_or_length : (ℕ → Bool) → List ℕ → ℕ
position_or_length f [] = 0
position_or_length f (b ∷ bs) = if f b then 0 else suc (position_or_length f bs)

-- `str::from_utf8`: how many bytes follow a first byte, and the bounds of the second.
abbrev pub followers : ℕ → Option (ℕ × ℕ × ℕ)
followers b =
    if ltb b 0x80
    then some (0, 0x80, 0xBF)
    else if leb 0xC2 b && leb b 0xDF
    then some (1, 0x80, 0xBF)
    else if b == 0xE0
    then some (2, 0xA0, 0xBF)
    else if b == 0xED
    then some (2, 0x80, 0x9F)
    else if leb 0xE1 b && leb b 0xEF
    then some (2, 0x80, 0xBF)
    else if b == 0xF0
    then some (3, 0x90, 0xBF)
    else if leb 0xF1 b && leb b 0xF3
    then some (3, 0x80, 0xBF)
    else if b == 0xF4
    then some (3, 0x80, 0x8F)
    else none

abbrev pub utf8_from : ℕ → ℕ → ℕ → List ℕ → Bool
utf8_from n lo hi [] = n == 0
utf8_from zero lo hi (b ∷ bs) = elim (followers b) [
  | none ↦ false
  | some f ↦ utf8_from f.0 f.1 f.2 bs
]
utf8_from (suc n) lo hi (b ∷ bs) =
    let rest = utf8_from n 0x80 0xBF bs in leb lo b && leb b hi && rest

unfoldable pub from_utf8 : List ℕ → Option (List ℕ)
from_utf8 bs = if utf8_from 0 0 0 bs then some bs else none

abbrev pub as_outcome : {A : Type 0} → Option A → Outcome A
as_outcome none = absent
as_outcome (some a) = present a

unfoldable pub read_qid : List ℕ → Outcome (List ℕ × List ℕ)
unfolding from_utf8
read_qid buf =
    let nul = position_or_length (λ b. b == 0) buf in
    slice buf 0 nul >>= λ name. as_outcome (from_utf8 name) >>= λ qid.
    if ltb nul (length buf)
    then (slice buf (nul + 1) (length buf) >>= λ rest. present (qid, rest))
    else present (qid, [])

abbrev pub parse_byte : List ℕ → Option ℕ
parse_byte bs = elim (from_utf8 bs) [ none ↦ none | some s ↦ parse_unsigned 256 s ]

abbrev pub is_separator : ℕ → Bool
is_separator b = b == 0 || b == 0x2E

unfoldable pub read_executor_page : List ℕ → Outcome (Option ℕ × Option ℕ)
unfolding from_utf8
read_executor_page buf =
    let sep = position_or_length is_separator buf in
    if length buf == 0
    then present (none, none)
    else slice buf 0 sep >>= λ executor.
        if ltb sep (length buf)
        then (slice buf (sep + 1) (length buf) >>= λ page.
            present (parse_byte executor, parse_byte page))
        else present (parse_byte executor, none)

-- A cue number with what stands behind it.
abbrev pub read_target : (List ℕ → Option ℕ → Option ℕ → MscData) → List ℕ → Outcome MscData
read_target make buf =
    read_qid buf >>= λ q. read_executor_page q.1 >>= λ e. present (make q.0 e.0 e.1)

-- `low | (high << 7)` on bytes.
abbrev pub fader_value : ℕ → ℕ → ℕ
fader_value low high =
    low % 128 + 128 * (if ltb low 128 then high else if high % 2 == 0 then high + 1 else high)

unfoldable pub parse_command_data : MscCommand → List ℕ → Outcome MscData
unfolding read_qid read_executor_page
parse_command_data MscCommand.go buf = read_target MscData.go buf
parse_command_data MscCommand.stop buf =
    if length buf == 0
    then present (MscData.stop none none none)
    else read_target (λ q e p. MscData.stop (some q) e p) buf
parse_command_data MscCommand.resume buf =
    if length buf == 0
    then present (MscData.resume none none none)
    else read_target (λ q e p. MscData.resume (some q) e p) buf
parse_command_data MscCommand.timed_go buf =
    if ltb (length buf) 5
    then absent
    else index buf 0 >>= λ h. index buf 1 >>= λ m. index buf 2 >>= λ s. index buf 3 >>= λ f.
        index buf 4 >>= λ r.
        let time : MscTime = record {
          hours = h;
          minutes = m;
          seconds = s;
          frames = f;
          fraction = r;
        } in
        slice buf 5 (length buf) >>= λ rest. read_target (λ q e p. MscData.timed_go q e p time) rest
parse_command_data MscCommand.set buf =
    if ltb (length buf) 4
    then absent
    else index buf 0 >>= λ fader. index buf 1 >>= λ page. index buf 2 >>= λ low.
        index buf 3 >>= λ high. present (MscData.set fader page (fader_value low high))
parse_command_data MscCommand.fire buf =
    if length buf == 0 then absent else index buf 0 >>= λ n. present (MscData.fire n)
parse_command_data MscCommand.go_off buf = read_target MscData.go_off buf
parse_command_data MscCommand.unknown buf = present nothing

-- `b"GMA\0MSC\0"`.
abbrev pub header : List ℕ
header = 0x47 ∷ 0x4D ∷ 0x41 ∷ 0 ∷ 0x4D ∷ 0x53 ∷ 0x43 ∷ 0 ∷ []

-- The MIDI message inside the envelope.
unfoldable pub read_sysex : List ℕ → Outcome MamscPacket
unfolding parse_command_data
read_sysex buf =
    if ltb (length buf) 7
    then absent
    else index buf 0 >>= λ b0. index buf 1 >>= λ b1.
        if not (b0 == 0xf0) || not (b1 == 0x7f)
        then absent
        else index buf 2 >>= λ device. index buf 3 >>= λ b3.
            if not (b3 == 2)
            then absent
            else index buf 4 >>= λ format. index buf 5 >>= λ command.
                index buf (length buf - 1) >>= λ end.
                if not (end == 0xf7)
                then absent
                else slice buf 6 (length buf - 1) >>= λ contents.
                    parse_command_data (command_from command) contents >>= λ parsed.
                    present (record {
                      device_id = device;
                      command_format = format_from format;
                      command = command_from command;
                      contents = parsed;
                    })

unfoldable pub try_read : List ℕ → Outcome MamscPacket
unfolding read_sysex
try_read buf =
    if ltb (length buf) 12
    then absent
    else slice buf 0 (length header) >>= λ start.
        if not (text_eq start header)
        then absent
        else index buf 8 >>= λ a. index buf 9 >>= λ b. index buf 10 >>= λ c. index buf 11 >>= λ d.
            let len = a + 256 * b + 65_536 * c + 16_777_216 * d in
            if ltb (length buf) (12 + len)
            then absent
            else slice buf 12 (12 + len) >>= λ message. read_sysex message
