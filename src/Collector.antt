-- ===== src/Collector.antt =====
-- ui/app/collector.py: the background thread that turns the status of OpenVPN into sessions and
-- traffic.
pub mod State
pub mod Source
pub mod Poll
pub mod Visits
pub mod Log
pub mod Reading
pub mod Described
pub mod Turn
pub mod Runs
pub mod Position
pub mod Lines
