-- ===== src/Signer.antt =====
-- signer/service.py: the signer of Apple relay profiles.
pub mod Profiles
pub mod Allowed
pub mod Identity
pub mod Latest
pub mod Chosen
pub mod Dispatch
pub mod Answers
pub mod Load
