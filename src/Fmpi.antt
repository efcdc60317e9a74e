-- ===== src/Fmpi.antt =====
-- libpi/src/fmpi.c and libpi/include/fmpi.h: message passing between a root and its peers.
pub mod Setup
pub mod Async
mod Tests
pub mod Link
pub mod Transfer
pub mod Sync
pub mod Collective
pub mod Delivery
pub mod RoundTrip
