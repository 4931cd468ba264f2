-- ===== src/Lib.antt =====
-- CuePool plays the sound, video and lighting cues of a live show. This library models the part of the
-- program that runs a show, `ShowEngine` of crates/cuepool/src/engine.rs, with the cues that it reads
-- (crates/cuepool-core/src/cue/mod.rs), the order of the cue list that the editor keeps
-- (crates/cuepool-gui/src/cue_order.rs) and the mixer inputs that the engine drives
-- (crates/cuepool-audio/src/mixer.rs). Parts that the engine does not call stand by themselves: the
-- processor that loops a track (crates/cuepool-audio/src/loop_processor.rs), the ring that decouples a
-- file from the audio callback (crates/cuepool-audio/src/buffered_source.rs), the timecodes that a
-- video may follow or the show send (crates/cuepool-protocols/src/midi/mtc.rs and ltc.rs), the events
-- that OSC messages become (crates/cuepool-protocols/src/osc/mod.rs), the packets of MIDI show control
-- (crates/cuepool-protocols/src/msc/mod.rs), the corrections of such a video
-- (crates/cuepool/src/mtc_follow.rs), and the rate limit on warnings
-- (crates/cuepool-protocols/src/lib.rs).
--
-- The parts and how they interact. The application calls `command` (GO, fire, stop, pause, resume,
-- select, preload, seek, level), `event` (the end or the failure of a video, the end of an external
-- cue) and `tick`, each with the time, and carries out the actions that come back. The engine reads
-- the cue list and the settings of the show, which the editor reorders block by block, writes the
-- selected cue and the operator's alerts, and sets levels, fades and activity of the mixer inputs
-- behind its active cues. The audio thread renders those inputs and marks the finished ones, which
-- the next tick collects.
--
-- Files:
--   Base         numbers, Boolean tests, lists, integers and text that all parts share
--   Cue          `Cue`, `CueBase` and the enumerations of cue/mod.rs
--   Sequence     the functions of engine.rs that only read the cue list: `with_last_run`,
--                `next_standby_qid`, `next_after_last`, `resolve_goto_target`,
--                `resolve_stop_targets`, `delayed_cue_starts_show_clock`; below it what each computes
--   CueOrder     crates/cuepool-gui/src/cue_order.rs: `span`, `enclosing_span`, `insertion`, `move_span`,
--                `nudge`, `selection_after_removal`, `duplicate_span`; below it what each does
--   Mixer        `MixerInput` and one input's part of `Mixer::render`; below it the level across fades
--   Msc          the reader of packets of crates/cuepool-protocols/src/msc/mod.rs, with a panic as an
--                outcome; below it its indices and slices, and packets that it reads
--   Mtc          `MtcDecoder` of crates/cuepool-protocols/src/midi/mtc.rs; below it the messages of
--                MIDI timecode and that they are read back
--   MtcFollow    `drift_action` and `locate_action` of crates/cuepool/src/mtc_follow.rs; below it what
--                they correct
--   Loop         `LoopProcessor` of crates/cuepool-audio/src/loop_processor.rs over any source of samples;
--                below it that its reads end and what they give
--   Buffered     `BufferedSource` of crates/cuepool-audio/src/buffered_source.rs, its background thread,
--                callback and control thread as moves on a shared state; below it what is heard over a
--                schedule, between seeks and behind one, and how it gets to a seek
--   Ltc          frame numbers, labels and the generator of crates/cuepool-protocols/src/ltc.rs, with
--                the bits of a frame and the decoder's register in Ltc.Frame; below it what each does
--   Osc          crates/cuepool-protocols/src/osc/mod.rs: the router (`OscRouter`), the arguments, and the
--                subscriptions of `OscManager::new`; below it what fires
--   Throttle     `WarnThrottle` of crates/cuepool-protocols/src/lib.rs; below it what a run of events logs
--   Engine.State the state of `ShowEngine`, its commands, events and actions, and the record `Audio`
--   Engine.Stops, Engine.Transport, Engine.Play, Engine.Dispatch, Engine.Ticks, Engine.Run
--                the operations, one function each, in the order in which they call one another:
--                stops; pause, seek and levels; audio playback; `play_cue`; the checks of a tick and
--                the ends of videos; GO and the three entry points
--   Engine.Total, Engine.Answered
--                the calls come to an end
--   Engine.Keeps, Engine.Preserve, Engine.Checks, Engine.Outer
--                a rule for invariants: what every single write keeps, every call keeps
--   Engine.Invariants, Engine.Quiet, Engine.Halves, Engine.Clock, Engine.Pauses, Engine.Seeks,
--   Engine.Single
--                the properties of the operations
--   Tests        concrete runs
--
-- State is passed explicitly: an operation takes the engine and gives the next one. `play_cue` calls
-- itself for the members of a group and for the cue that follows by itself, so it runs on fuel, and
-- `none` says that the fuel has run out. Fuel above the length of the cue list is enough where no
-- number occurs twice and every cue with a parent stands behind the cue of that number: each call then
-- goes to a cue further down the list. The loops of `resolve_goto_target`, `resolve_stop_targets` and
-- `delayed_cue_starts_show_clock` run on fuel too; there a little more than the length of the list is
-- enough on any list.
--
-- The environment is the record `Audio`: whether an audio output is open, its rate, how paths resolve,
-- which files decode, and the mixer input that the output gives to a chain. Everything holds for any
-- such record, and the show and the record may differ from call to call.
--
-- Numbers. A cue number is only compared. A `Duration`, a `Timespan` and the engine's f64 seconds are
-- whole nanoseconds, a fade time is in milliseconds, a gain in thousandths; f32 and f64 rounding is not
-- modelled. Instance numbers wrap at 64 bits, frame counts saturate at 32 bits as the casts do.
--
-- Not modelled: snapshots and log lines, the samples that the mixer computes, the other processors of
-- crates/cuepool-audio, the signal of linear timecode, the sockets and ports of the protocols, the GUI,
-- the video pipeline, and the application's threads.
pub mod Base
pub mod Buffered
pub mod Cue
pub mod Sequence
pub mod CueOrder
pub mod Mixer
pub mod Msc
pub mod Mtc
pub mod MtcFollow
pub mod Throttle
pub mod Osc
pub mod Ltc
pub mod Loop
pub mod Engine
mod Tests
