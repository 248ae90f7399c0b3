-- ===== src/Tests.antt =====
-- The theorems of the other modules applied at concrete inputs.
mod Store
mod Reports
mod Login
mod Access
mod Polling
mod Files
mod Protocol
mod Signing
mod Switches
mod Health
mod Entry
mod Clients
mod Networks
mod Checkout
