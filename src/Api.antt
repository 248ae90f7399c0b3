-- ===== src/Api.antt =====
-- ui/app/main.py: the handlers of the HTTP API that sign users in, that give and take away the access
-- of clients, and that show the traffic.
pub mod Requests
pub mod Login
pub mod Entry
pub mod Accounts
pub mod Lifecycle
pub mod Removal
pub mod Distinct
pub mod Portal
pub mod Links
pub mod Handlers
pub mod Delivery
pub mod Series
pub mod Points
pub mod Graph
pub mod Boundary
