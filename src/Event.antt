-- ===== src/Event.antt =====
-- internal/event: the bus between the runs and the clients.
pub mod Bus
pub mod Delivery
pub mod Order
