-- ===== src/Examples.antt =====
-- Tests, and the theorems at concrete inputs.
mod Network
mod Store
mod Job
mod Provision
mod Vms
mod Consoles
mod Requests
mod Settings
mod Agent
mod Endpoints
mod Hypervisor
mod Migrations
mod Start
mod Links
mod Creation
