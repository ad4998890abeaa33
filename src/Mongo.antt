-- ===== src/Mongo.antt =====
-- The MongoDB guest agent of scripts/openstack/trove-mongodb: its configuration, its service and
-- what the service does to assemble a replica set and a sharded cluster.
pub mod Options
pub mod Guest
pub mod Configuration
pub mod Service
pub mod Members
pub mod Shards
mod Samples
mod Tests
