-- ===== src/Sockets.antt =====
-- The connection manager of sockets.go and socket.go.
pub mod State
pub mod Lists
pub mod Lifecycle
pub mod Frame
pub mod Disconnect
pub mod Invariant
pub mod Preserved
pub mod Touched
pub mod Connecting
pub mod Runs
pub mod Timing
pub mod Admission
pub mod Sending
pub mod Reconnection
pub mod Dialing
pub mod Clients
pub mod Race
pub mod Serving
pub mod Events
pub mod Graph
