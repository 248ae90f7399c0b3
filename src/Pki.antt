-- ===== src/Pki.antt =====
-- ui/app/pki.py: names, configuration files, client addresses and the list of the clients.
pub mod Names
pub mod Options
pub mod Spellings
pub mod Editing
pub mod Addresses
pub mod Owners
pub mod Clients
pub mod TwoFactor
pub mod Lines
pub mod Enforced
