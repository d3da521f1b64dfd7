-- ===== src/Email.antt =====
-- email: the inventory of emails, the listeners that serve their inboxes, the subscriptions that
-- tasks hold on them.
pub mod Types
pub mod Vendors
pub mod State
pub mod Inventory
pub mod Listening
pub mod Delivery
pub mod Serving
pub mod System
pub mod Wiring
pub mod Safety
pub mod Fanout
pub mod Cursors
mod Tests
