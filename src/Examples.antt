-- ===== src/Examples.antt =====
-- Small fleets, plans and histories on which the definitions are run and the theorems applied.
pub mod Plans
pub mod Machines
pub mod Fleets
pub mod Reports
pub mod Messages
pub mod Services
pub mod Creations
pub mod Systems
