-- ===== src/Protocol.antt =====
-- The text protocol between slg_master.c and slg.c: an order for each slave, and its response.
pub mod Line
pub mod Order
pub mod Reading
mod Tests
pub mod ShortWrite
pub mod Fields
pub mod Report
pub mod Response
pub mod Trip
pub mod Orders
