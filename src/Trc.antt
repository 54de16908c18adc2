-- ===== src/Trc.antt =====
-- Trace files (CAN/TRCReader.cpp, CAN/TRCWriter.cpp).
pub mod Stream
pub mod Reader
pub mod Files
pub mod Writer
pub mod Digits
pub mod Extract
pub mod Tokens
pub mod Octets
pub mod Lines
pub mod Moves
pub mod Termination
pub mod Loops
pub mod Reading
pub mod Traces
pub mod Seeking
pub mod Totals
pub mod Refusals
