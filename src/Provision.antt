-- ===== src/Provision.antt =====
-- internal/provision: the artifacts of a VM.
pub mod Yaml
pub mod CloudInit
