-- ===== src/Deletion.antt =====
-- scripts/openstack/delete-project-resources.py: from an inventory report to an ordered plan of
-- deletions, its execution against the OpenStack command line and the clustering SDK, and `main`.
pub mod Tables
pub mod CommandTables
pub mod Names
pub mod Commands
pub mod Plan
pub mod World
pub mod Senlin
pub mod Execute
pub mod Main
mod Tests
