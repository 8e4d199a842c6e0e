-- ===== src/Tests.antt =====
-- Runs of the model at concrete inputs: each theorem at an input where its hypotheses hold.
mod Http
mod Queue
mod Threads
mod Host
mod Histories
mod Servers
mod Load
mod Disk
