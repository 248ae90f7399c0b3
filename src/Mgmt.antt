-- ===== src/Mgmt.antt =====
-- ui/app/mgmt.py: the client of OpenVPN's management interface.
pub mod Command
pub mod Answers
pub mod Wire
pub mod Framing
pub mod Status
pub mod Fields
pub mod Printed
