-- ===== src/Premium.antt =====
-- Premium: what the app buys, and when it believes that the user has it.
pub mod Plans
pub mod Purchases
pub mod Upgrade
mod Tests
