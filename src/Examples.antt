-- ===== src/Examples.antt =====
-- Concrete runs of the services.
pub mod Accounts
pub mod Data
pub mod Events
pub mod Requests
pub mod Routes
pub mod Details
pub mod Proofs
pub mod Jobs
pub mod Calls
pub mod Credentials
pub mod Logins
pub mod Flows
pub mod Checks
pub mod Tabs
pub mod Pages
pub mod Consoles
