-- ===== src/Tests.antt =====
-- The theorems at concrete inputs, and runs of the model.
mod Numbers
mod Packets
mod Grammars
mod Rules
mod Sessions
mod Strategies
mod Protocols
mod Files
mod Replies
mod Programs
mod Waiting
mod Locks
mod Framing
