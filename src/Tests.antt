-- ===== src/Tests.antt =====
-- Concrete environments, messages and managers, and the theorems at them.
mod Data
mod Messages
mod Streams
mod Packets
mod Managers
mod Dials
mod Handlers
mod Datagrams
mod Loops
mod Marking
mod Exchanges
mod Lives
