-- ===== src/Tests.antt =====
-- Runs of the program on a small system, and the properties at concrete inputs.
mod Loopback
mod Data
mod Transfer
mod Channels
mod Starts
mod Paths
mod Zebu
mod Clients
mod Network
mod Memory
mod Descriptors
mod Streams
mod Coming
