-- ===== src/Msc/Reads.antt =====
-- Indices and slices in the reader of crates/cuepool-protocols/src/msc/mod.rs.
use cue_pool.Base.{
  ℕ, zero, suc, ◌+◌, ◌-◌, ◌*◌, ◌≤◌, ◌<◌, ◌≡◌, ◌≢◌, refl, Bool, true, false, ◌||◌, not, Option, none,
  some, List, [], ◌∷◌, ◌==◌, ltb, if◌then◌else◌, length, arith,
}
use cue_pool.Base.Text.{text_eq}
use cue_pool.Msc.{
  Outcome, MscCommand, MscData, panic, absent, present, ◌>>=◌, index, slice, position_or_length,
  as_outcome, read_qid, read_executor_page, read_target, parse_command_data, read_sysex, try_read,
  is_separator, from_utf8, parse_byte, header, command_from,
}

abbrev pub Safe : {A : Type 0} → Outcome A → Type 0
Safe o = o ≢ panic

absent-Safe : {A : Type 0} → Safe {A = A} absent
absent-Safe e = cc

present-Safe : {A : Type 0} (a : A) → Safe (present a)
present-Safe a e = cc

bind-Safe :
    {A B : Type 0} (o : Outcome A) (f : A → Outcome B)
    → Safe o
    → ((a : A) → Safe (f a))
    → Safe (o >>= f)
bind-Safe panic f safe next = absurd (safe refl)
bind-Safe absent f safe next = absent-Safe
bind-Safe (present a) f safe next = next a

if-Safe :
    {A : Type 0} (b : Bool) (x y : Outcome A)
    → (b ≡ true → Safe x)
    → (b ≡ false → Safe y)
    → Safe (if b then x else y)
if-Safe true x y yes' no' = yes' refl
if-Safe false x y yes' no' = no' refl

as_outcome-Safe : {A : Type 0} (o : Option A) → Safe (as_outcome o)
as_outcome-Safe none = absent-Safe
as_outcome-Safe (some a) = present-Safe a

index-Safe : (buf : List ℕ) (i : ℕ) → i < length buf → Safe (index buf i)
index-Safe [] i h = absurd (omega (arith, h))
index-Safe (b ∷ bs) zero h = present-Safe b
index-Safe (b ∷ bs) (suc i) h = index-Safe bs i (omega (arith, h))

slice-Safe : (buf : List ℕ) (from to : ℕ) → from ≤ to → to ≤ length buf → Safe (slice buf from to)
slice-Safe buf from to h k = ground arith

position_le : (f : ℕ → Bool) (buf : List ℕ) → position_or_length f buf ≤ length buf
position_le f [] = omega arith
position_le f (b ∷ bs) = ground (arith, position_le f bs)

read_qid-Safe : (buf : List ℕ) → Safe (read_qid buf)
unfolding read_qid
read_qid-Safe buf =
    let nul = position_or_length (λ b. b == 0) buf in
    let inside = position_le (λ b. b == 0) buf in
    bind-Safe (slice buf 0 nul) _ (slice-Safe buf 0 nul (omega arith) inside) (λ name.
      bind-Safe (as_outcome (from_utf8 name)) _ (as_outcome-Safe (from_utf8 name)) (λ qid.
        if-Safe (ltb nul (length buf)) _ _
          (λ more.
            bind-Safe (slice buf (nul + 1) (length buf)) _
              (slice-Safe buf (nul + 1) (length buf) (ground (arith, more)) (omega arith))
              (λ rest. present-Safe (qid, rest)))
          (λ ends. present-Safe (qid, []))))

read_executor_page-Safe : (buf : List ℕ) → Safe (read_executor_page buf)
unfolding read_executor_page
read_executor_page-Safe buf =
    let sep = position_or_length is_separator buf in
    let inside = position_le is_separator buf in
    if-Safe (length buf == 0) _ _ (λ empty. present-Safe (none, none))
      (λ filled.
        bind-Safe (slice buf 0 sep) _ (slice-Safe buf 0 sep (omega arith) inside) (λ executor.
          if-Safe (ltb sep (length buf)) _ _
            (λ more.
              bind-Safe (slice buf (sep + 1) (length buf)) _
                (slice-Safe buf (sep + 1) (length buf) (ground (arith, more)) (omega arith))
                (λ page. present-Safe (parse_byte executor, parse_byte page)))
            (λ ends. present-Safe (parse_byte executor, none))))

read_target-Safe :
    (make : List ℕ → Option ℕ → Option ℕ → MscData) (buf : List ℕ) → Safe (read_target make buf)
read_target-Safe make buf = bind-Safe (read_qid buf) _ (read_qid-Safe buf) (λ q.
    bind-Safe (read_executor_page q.1) _ (read_executor_page-Safe q.1)
      (λ e. present-Safe (make q.0 e.0 e.1)))

-- An index below a length that a test has made sure of.
indexed :
    {A : Type 0} (buf : List ℕ) (i n : ℕ) (f : ℕ → Outcome A)
    → n ≤ length buf
    → i < n
    → ((b : ℕ) → Safe (f b))
    → Safe (index buf i >>= f)
indexed buf i n f long h = bind-Safe (index buf i) f (index-Safe buf i (omega (arith, long, h)))

parse_command_data-Safe : (c : MscCommand) (buf : List ℕ) → Safe (parse_command_data c buf)
unfolding parse_command_data
parse_command_data-Safe MscCommand.go buf = read_target-Safe MscData.go buf
parse_command_data-Safe MscCommand.stop buf =
    if-Safe (length buf == 0) _ _ (λ empty. present-Safe (MscData.stop none none none))
      (λ filled. read_target-Safe (λ q e p. MscData.stop (some q) e p) buf)
parse_command_data-Safe MscCommand.resume buf =
    if-Safe (length buf == 0) _ _ (λ empty. present-Safe (MscData.resume none none none))
      (λ filled. read_target-Safe (λ q e p. MscData.resume (some q) e p) buf)
parse_command_data-Safe MscCommand.timed_go buf =
    if-Safe (ltb (length buf) 5) _ _ (λ short. absent-Safe)
      (λ enough.
        let long : 5 ≤ length buf = ground (arith, enough) in
        indexed buf 0 5 _ long (omega arith) (λ h. indexed buf 1 5 _ long (omega arith) (λ m.
          indexed buf 2 5 _ long (omega arith) (λ s. indexed buf 3 5 _ long (omega arith) (λ f.
            indexed buf 4 5 _ long (omega arith) (λ r.
              bind-Safe (slice buf 5 (length buf)) _
                (slice-Safe buf 5 (length buf) long (omega arith))
                (λ rest. read_target-Safe _ rest)))))))
parse_command_data-Safe MscCommand.set buf =
    if-Safe (ltb (length buf) 4) _ _ (λ short. absent-Safe)
      (λ enough.
        let long : 4 ≤ length buf = ground (arith, enough) in
        indexed buf 0 4 _ long (omega arith) (λ fader. indexed buf 1 4 _ long (omega arith) (λ page.
          indexed buf 2 4 _ long (omega arith)
            (λ low. indexed buf 3 4 _ long (omega arith) (λ high. present-Safe _)))))
parse_command_data-Safe MscCommand.fire buf =
    if-Safe (length buf == 0) _ _ (λ empty. absent-Safe)
      (λ filled.
        indexed buf 0 1 _ (ground (arith, filled)) (omega arith)
          (λ n. present-Safe (MscData.fire n)))
parse_command_data-Safe MscCommand.go_off buf = read_target-Safe MscData.go_off buf
parse_command_data-Safe MscCommand.unknown buf = present-Safe MscData.nothing

read_sysex-Safe : (buf : List ℕ) → Safe (read_sysex buf)
unfolding read_sysex
read_sysex-Safe buf =
    if-Safe (ltb (length buf) 7) _ _ (λ short. absent-Safe)
      (λ enough.
        let long : 7 ≤ length buf = ground (arith, enough) in
        indexed buf 0 7 _ long (omega arith) (λ b0. indexed buf 1 7 _ long (omega arith) (λ b1.
          if-Safe (not (b0 == 0xf0) || not (b1 == 0x7f)) _ _ (λ no'. absent-Safe)
            (λ is_sysex. indexed buf 2 7 _ long (omega arith) (λ device.
              indexed buf 3 7 _ long (omega arith) (λ b3.
                if-Safe (not (b3 == 2)) _ _ (λ no'. absent-Safe)
                  (λ is_msc. indexed buf 4 7 _ long (omega arith) (λ format.
                    indexed buf 5 7 _ long (omega arith) (λ command.
                      bind-Safe (index buf (length buf - 1)) _
                        (index-Safe buf (length buf - 1) (omega (arith, long)))
                        (λ last.
                          if-Safe (not (last == 0xf7)) _ _ (λ no'. absent-Safe)
                            (λ ends.
                              bind-Safe (slice buf 6 (length buf - 1)) _
                                (slice-Safe buf 6 (length buf - 1) (omega (arith, long))
                                  (omega arith))
                                (λ contents.
                                  bind-Safe (parse_command_data (command_from command) contents) _
                                    (parse_command_data-Safe (command_from command) contents)
                                    (λ parsed. present-Safe _)))))))))))))

-- No packet makes the reader panic: whatever comes in over the network, no index and no slice of it is
-- out of range, and it is read as a message or refused.
pub try_read-Safe : (buf : List ℕ) → try_read buf ≢ panic
unfolding try_read
try_read-Safe buf =
    if-Safe (ltb (length buf) 12) _ _ (λ short. absent-Safe)
      (λ enough.
        let long : 12 ≤ length buf = ground (arith, enough) in
        bind-Safe (slice buf 0 8) _ (slice-Safe buf 0 8 (omega arith) (omega (arith, long)))
          (λ start.
            if-Safe (not (text_eq start header)) _ _ (λ no'. absent-Safe)
              (λ is_ma. indexed buf 8 12 _ long (omega arith) (λ a.
                indexed buf 9 12 _ long (omega arith) (λ b.
                  indexed buf 10 12 _ long (omega arith) (λ c.
                    indexed buf 11 12 _ long (omega arith) (λ d.
                      let len = a + 256 * b + 65_536 * c + 16_777_216 * d in
                      if-Safe (ltb (length buf) (12 + len)) _ _ (λ short. absent-Safe)
                        (λ whole.
                          bind-Safe (slice buf 12 (12 + len)) _
                            (slice-Safe buf 12 (12 + len) (omega arith) (ground (arith, whole)))
                            (λ message. read_sysex-Safe message)))))))))
