-- ===== src/Seeds.antt =====
-- The data that the seed commands store, and how they store it.
pub mod Demo
pub mod Patience
pub mod Upgrade
pub mod Employees
pub mod Joiner
pub mod Acme
pub mod Store
pub mod Handle
pub mod Again
mod Examples
