-- ===== src/Network.antt =====
-- lib/network: sockets, their options and the text of their addresses; the calls of the system are
-- parameters.
pub mod Socket
pub mod Options
pub mod Address
mod Tests
