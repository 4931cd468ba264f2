-- ===== src/Osc.antt =====
-- crates/cuepool-protocols/src/osc/mod.rs: how an OSC message becomes events. The messages are those of
-- the library that decodes them; a float is in thousandths, a socket address is a number, and the channel
-- of events is the list of what is sent.
pub mod Router
pub mod Routes
pub mod Args
pub mod Events
pub mod Targeted
