-- ===== src/Tcp.antt =====
-- kernel/src/net/ip/tcp.c: TCP. `Tcp.Ports` has the table of ports and the list of free ephemeral
-- ones, `Tcp.Conn` a connection and what it sends, `Tcp.Handle` what a received segment does to it,
-- `Tcp.Calls` the calls of its owner, `Tcp.Listen` listening sockets, `Tcp.Build` the header of a
-- segment. The others have the proofs.
pub mod Ports
pub mod Conn
pub mod Handle
pub mod Calls
pub mod Acked
pub mod Stream
pub mod Same
pub mod Received
pub mod Taken
pub mod Kept
pub mod Handshake
pub mod Opening
pub mod Refused
pub mod Ends
pub mod Listen
pub mod Build
mod Tests
