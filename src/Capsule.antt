-- ===== src/Capsule.antt =====
-- The Senlin profile of scripts/kolla-ansible/senlin-images/zun-capsule-profile: one Zun capsule for
-- each node of a cluster (yggdrasil_senlin_zun_profile/capsule.py).
pub mod Session
pub mod Validation
pub mod Profile
pub mod Creation
pub mod Inspection
mod Tests
