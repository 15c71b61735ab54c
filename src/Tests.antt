-- ===== src/Tests.antt =====
-- Concrete runs of the theorems: each hypothesis can hold, on inputs as the network brings them.
mod Codecs
mod Frames
mod Streams
mod Handshakes
mod Clients
mod Caches
mod Limits
mod Records
mod Parties
mod Sessions
mod Transcripts
