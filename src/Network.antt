-- ===== src/Network.antt =====
-- ui/app/network.py: the validation of the network settings, and what accepted settings guarantee.
pub mod Settings
pub mod Checks
pub mod Addressing
pub mod Sites
