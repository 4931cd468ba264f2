-- ===== src/Msc/RoundTrip.antt =====
-- Packets for the reader of crates/cuepool-protocols/src/msc/mod.rs.
use cue_pool.Base.{
  ℕ, ◌+◌, ◌-◌, ◌*◌, ◌/◌, ◌%◌, ◌^◌, ◌≤◌, ◌<◌, ◌≡◌, refl, ap, ◌∙◌, false, ◌&&◌, Option, some, List,
  [], ◌∷◌, ◌++◌, ◌==◌, leb, ltb, length, take, if_true, if_false, length-append, take-append,
  take-length, arith,
}
use cue_pool.Msc.{
  MscCommand, MscData, MscTime, read_target, present, index, slice, parse_command_data, read_sysex,
  try_read, header, command_from, format_from,
}
use cue_pool.Msc.Targets.{
  bind_eq, slice-back, index-end, read_target-bytes, Named, target_bytes, show_byte,
}

-- The envelope of a message, with the length in four bytes.
abbrev pub sysex : ℕ → ℕ → ℕ → List ℕ → List ℕ
sysex device format command body = 0xf0 ∷ 0x7f ∷ device ∷ 2 ∷ format ∷ command ∷ (body ++ 0xf7 ∷ [])

abbrev pub packet : List ℕ → List ℕ
packet message =
    let n = length message in
    header ++ n % 256 ∷ n / 256 % 256 ∷ n / 65_536 % 256 ∷ n / 16_777_216 % 256 ∷ message

read_sysex-sysex :
    (device format command : ℕ) (body : List ℕ) (parsed : MscData)
    → parse_command_data (command_from command) body ≡ present parsed
    → read_sysex (sysex device format command body)
      ≡ present (record {
        device_id = device;
        command_format = format_from format;
        command = command_from command;
        contents = parsed;
      })
unfolding read_sysex
read_sysex-sysex device format command body parsed e =
    let buf = sysex device format command body in
    let long = length-append body (0xf7 ∷ []) in
    let front : List ℕ = 0xf0 ∷ 0x7f ∷ device ∷ 2 ∷ format ∷ command ∷ body in
    let last : length buf - 1 ≡ length front = omega (arith, long) in
    let inner : length buf - 1 - 6 ≡ length body = omega (arith, long) in
    let contents : slice buf 6 (length buf - 1) ≡ present body =
      if_true (leb 6 (length buf - 1) && leb (length buf - 1) (length buf)) _ _
        (ground (arith, long))
      ∙ ap (λ n. present (take n (body ++ 0xf7 ∷ []))) inner
      ∙ ap present (take-append body (0xf7 ∷ [])) in
    if_false (ltb (length buf) 7) _ _ (ground (arith, long))
    ∙ bind_eq _ _ 0xf7 (ap (index buf) last ∙ index-end front 0xf7)
    ∙ bind_eq _ _ body contents
    ∙ bind_eq _ _ parsed e

try_read-packet :
    (message : List ℕ) → length message < 2 ^ 32 → try_read (packet message) ≡ read_sysex message
unfolding try_read
try_read-packet message h =
    let buf = packet message in
    let n = length message in
    let read : n % 256
          + 256 * (n / 256 % 256)
          + 65_536 * (n / 65_536 % 256)
          + 16_777_216 * (n / 16_777_216 % 256)
        ≡ n =
      omega (arith, h) in
    let start : slice buf 0 8 ≡ present header =
      if_true (leb 0 8 && leb 8 (length buf)) _ _ (ground arith) in
    let same : 12 + n - 12 ≡ n = omega arith in
    let whole : slice buf 12 (12 + n) ≡ present message =
      if_true (leb 12 (12 + n) && leb (12 + n) (length buf)) _ _ (ground arith)
      ∙ ap (λ k. present (take k message)) same
      ∙ ap present (take-length message) in
    if_false (ltb (length buf) 12) _ _ (ground arith)
    ∙ bind_eq _ _ header start
    ∙ rw read (if_false (ltb (length buf) (12 + n)) _ _ (ground arith) ∙ bind_eq _ _ message whole)

-- The commands that name a cue, with the number that stands for each, the bytes in front of the name
-- and what it is read as.
pub data Targeted
    : MscCommand → ℕ → List ℕ → (List ℕ → Option ℕ → Option ℕ → MscData) → Type 0 where
  go : Targeted MscCommand.go 1 [] MscData.go
  stop : Targeted MscCommand.stop 2 [] (λ q e p. MscData.stop (some q) e p)
  resume : Targeted MscCommand.resume 3 [] (λ q e p. MscData.resume (some q) e p)
  timed_go :
      (time : MscTime)
      → Targeted MscCommand.timed_go 4
          (time.hours ∷ time.minutes ∷ time.seconds ∷ time.frames ∷ time.fraction ∷ [])
          (λ q e p. MscData.timed_go q e p time)
  go_off : Targeted MscCommand.go_off 11 [] MscData.go_off

target_bytes-filled : (q : List ℕ) (e p : ℕ) → (length (target_bytes q e p) == 0) ≡ false
target_bytes-filled [] e p = ground arith
target_bytes-filled (b ∷ q) e p = ground arith

show_byte-short : (n : ℕ) → length (show_byte n) ≤ 3
show_byte-short n = ground arith

target_bytes-short : (q : List ℕ) (e p : ℕ) → length (target_bytes q e p) ≤ length q + 8
target_bytes-short q e p =
    let whole = length-append q (0 ∷ (show_byte e ++ 0x2E ∷ show_byte p)) in
    let rest = length-append (show_byte e) (0x2E ∷ show_byte p) in
    omega (arith, whole, rest, show_byte-short e, show_byte-short p)

timed-bytes :
    (time : MscTime) (body : List ℕ)
    → parse_command_data MscCommand.timed_go
        (time.hours ∷ time.minutes ∷ time.seconds ∷ time.frames ∷ time.fraction ∷ body)
      ≡ read_target (λ q e p. MscData.timed_go q e p time) body
unfolding parse_command_data
timed-bytes time body =
    let buf = time.hours ∷ time.minutes ∷ time.seconds ∷ time.frames ∷ time.fraction ∷ body in
    if_false (ltb (length buf) 5) _ _ (ground arith)
    ∙ bind_eq _ _ body (
        slice-back (time.hours ∷ time.minutes ∷ time.seconds ∷ time.frames ∷ []) body time.fraction)

parse-Targeted :
    {c : MscCommand} {n : ℕ} {front : List ℕ} {make : List ℕ → Option ℕ → Option ℕ → MscData}
    (q : List ℕ) (e p : ℕ)
    → Targeted c n front make
    → Named q
    → e < 256
    → p < 256
    → (command_from n ≡ c)
      × (parse_command_data (command_from n) (front ++ target_bytes q e p)
          ≡ present (make q (some e) (some p)))
      × (length front ≤ 5)
unfolding parse_command_data
parse-Targeted q e p Targeted.go named he hp =
    (refl, read_target-bytes _ q e p named he hp, omega arith)
parse-Targeted q e p Targeted.stop named he hp = (
  refl,
  if_false (length (target_bytes q e p) == 0) _ _ (target_bytes-filled q e p)
      ∙ read_target-bytes _ q e p named he hp,
  omega arith,
)
parse-Targeted q e p Targeted.resume named he hp = (
  refl,
  if_false (length (target_bytes q e p) == 0) _ _ (target_bytes-filled q e p)
      ∙ read_target-bytes _ q e p named he hp,
  omega arith,
)
parse-Targeted q e p (Targeted.timed_go time) named he hp = (
  refl,
  timed-bytes time (target_bytes q e p) ∙ read_target-bytes _ q e p named he hp,
  omega arith,
)
parse-Targeted q e p Targeted.go_off named he hp =
    (refl, read_target-bytes _ q e p named he hp, omega arith)

-- A packet with a command that names a cue (GO, stop, resume, timed GO with its time, GO off), an
-- executor and a page is read back as that command, for every UTF-8 name without a zero in it and
-- every device and format.
pub try_read-Targeted :
    (c : MscCommand) (n : ℕ) (front : List ℕ) (make : List ℕ → Option ℕ → Option ℕ → MscData)
    (device format : ℕ) (q : List ℕ) (e p : ℕ)
    → Targeted c n front make
    → Named q
    → e < 256
    → p < 256
    → length q < 2 ^ 31
    → try_read (packet (sysex device format n (front ++ target_bytes q e p)))
      ≡ present (record {
        device_id = device;
        command_format = format_from format;
        command = c;
        contents = make q (some e) (some p);
      })
try_read-Targeted c n front make device format q e p t named he hp short =
    let (is, parsed, few) = parse-Targeted q e p t named he hp in
    let body = front ++ target_bytes q e p in
    let long = length-append body (0xf7 ∷ []) in
    let longer = length-append front (target_bytes q e p) in
    try_read-packet (sysex device format n body)
      (omega (arith, long, longer, few, target_bytes-short q e p, short))
    ∙ read_sysex-sysex device format n body (make q (some e) (some p)) parsed
    ∙ ap
        (λ c. present (record {
          device_id = device;
          command_format = format_from format;
          command = c;
          contents = make q (some e) (some p);
        }))
        is
