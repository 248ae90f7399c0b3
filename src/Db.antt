-- ===== src/Db.antt =====
-- ui/app/db.py: the PostgreSQL store. The schema and the operations stand here and in `Schema`,
-- `Address`, `Grouping`, `Traffic`, `Series`, `Sessions`, `Reports`, `Connections` and
-- `History`; the others prove what they guarantee.
pub mod Schema
pub mod Address
pub mod Grouping
pub mod Traffic
pub mod Series
pub mod Sums
pub mod Totals
pub mod Sessions
pub mod Visits
pub mod Groups
pub mod Reports
pub mod Connections
pub mod PerClient
pub mod History
pub mod Traces
