-- ===== src/Transport.antt =====
-- J1939/Transport: messages longer than eight bytes, as a connection management frame (Tpcm) and
-- numbered data frames (Tpdt), which the broadcast protocol (Bam) cuts and joins.
pub mod Tpcm
pub mod Tpdt
