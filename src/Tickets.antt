-- ===== src/Tickets.antt =====
-- compat/wsbridge.py: the tickets that open the bridge's websocket.
pub mod Store
pub mod Door
pub mod Sniff
pub mod Book
pub mod Refine
pub mod Passed
mod Tests
