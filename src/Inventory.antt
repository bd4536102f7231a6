-- ===== src/Inventory.antt =====
-- The inventory builder, contrib/inventory_builder/inventory.py.
pub mod Settings
pub mod Hosts
pub mod Ranges
pub mod Groups
pub mod Roles
pub mod Load
pub mod Help
pub mod Builder
pub mod Layout
pub mod Program
