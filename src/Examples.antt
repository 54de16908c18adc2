-- ===== src/Examples.antt =====
-- Runs of the definitions on concrete frames, with the theorems applied to them.
mod Broadcast
mod Wire
mod Parameters
mod Frames
mod Times
mod Traces
mod Histories
mod Claims
mod Sending
mod Databases
mod Documents
mod Interfaces
