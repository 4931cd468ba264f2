-- ===== src/Tests/OfMsc.antt =====
-- Concrete packets of MIDI show control (crates/cuepool-protocols/src/msc/mod.rs).
use cue_pool.Base.{ℕ, ◌≡◌, ◌≢◌, refl, none, some, List, [], ◌∷◌, ◌++◌, arith}
use cue_pool.Base.Text.{codes}
use cue_pool.Msc.{
  MscCommand, MscCommandFormat, MscData, MscTime, panic, absent, present, header, try_read,
  read_sysex, parse_command_data, read_qid, read_executor_page, from_utf8,
}
use cue_pool.Msc.Reads.{try_read-Safe}
use cue_pool.Msc.Targets.{Named, target_bytes}
use cue_pool.Msc.RoundTrip.{Targeted, packet, sysex, try_read-Targeted}

abbrev message : ℕ → List ℕ → ℕ → List ℕ
message command body len =
    header ++ len ∷ 0 ∷ 0 ∷ 0 ∷ 0xf0 ∷ 0x7f ∷ 1 ∷ 2 ∷ 1 ∷ command ∷ (body ++ 0xf7 ∷ [])

-- GO of cue 1.5 on executor 2, page 3.
abbrev go_packet : List ℕ
go_packet = message 1 (codes "1.5" ++ 0 ∷ codes "2.3") 14

go_read :
    try_read go_packet
    ≡ present (record {
      device_id = 1;
      command_format = MscCommandFormat.general_lighting;
      command = MscCommand.go;
      contents = MscData.go (codes "1.5") (some 2) (some 3);
    })
unfolding try_read read_sysex parse_command_data read_qid read_executor_page from_utf8
go_read = refl

stop_read :
    try_read (message 2 [] 7)
    ≡ present (record {
      device_id = 1;
      command_format = MscCommandFormat.general_lighting;
      command = MscCommand.stop;
      contents = MscData.stop none none none;
    })
unfolding try_read read_sysex parse_command_data
stop_read = refl

-- A packet that says that it is longer than it is.
cut_off : try_read (message 2 [] 8) ≡ absent
unfolding try_read
cut_off = refl

try_read-Safe_example : try_read go_packet ≢ panic
try_read-Safe_example = try_read-Safe go_packet

one_five : Named (codes "1.5")
unfolding from_utf8
one_five = record { whole = (refl, (refl, (refl, tt))); encoded = refl }

abbrev soon : MscTime
soon = record { hours = 0; minutes = 0; seconds = 3; frames = 12; fraction = 0 }

try_read-Targeted_example :
    try_read (packet (sysex 1 1 4 (0 ∷ 0 ∷ 3 ∷ 12 ∷ 0 ∷ target_bytes (codes "1.5") 2 13)))
    ≡ present (record {
      device_id = 1;
      command_format = MscCommandFormat.general_lighting;
      command = MscCommand.timed_go;
      contents = MscData.timed_go (codes "1.5") (some 2) (some 13) soon;
    })
try_read-Targeted_example =
    try_read-Targeted MscCommand.timed_go 4 (0 ∷ 0 ∷ 3 ∷ 12 ∷ 0 ∷ [])
      (λ q e p. MscData.timed_go q e p soon) 1 1 (codes "1.5") 2 13 (Targeted.timed_go soon)
      one_five (omega arith) (omega arith) (omega arith)
