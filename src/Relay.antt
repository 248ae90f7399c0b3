-- ===== src/Relay.antt =====
-- ui/app/relay.py and ui/app/policy_server.py: who may use the Apple network relay.
pub mod Authorize
pub mod Access
pub mod Policy
pub mod History
