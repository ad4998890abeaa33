-- ===== src/Inventory.antt =====
-- The inventory command, scripts/openstack/list-project-resources.py: its endpoints, the listing
-- of their resources and the report.
pub mod Tables
pub mod Filters
pub mod Records
pub mod Catalog
pub mod Selection
pub mod Ownership
pub mod Related
pub mod Errors
pub mod Specs
pub mod Listings
pub mod Collect
pub mod Report
mod Samples
mod Tests
