-- ===== src/Bam.antt =====
-- J1939/Transport/BAM: the two ends of the broadcast protocol (BamFragmenter.cpp, BamReassembler.cpp
-- and their headers).
pub mod Fragmenter
pub mod Reassembler
pub mod Packets
pub mod Sessions
pub mod Delivery
pub mod Rebuilt
