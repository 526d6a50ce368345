-- ===== src/Db.antt =====
-- internal/infra/db: the repositories, their SQL statements read as operations on lists of rows
-- with the constraints of the schema in db.go. What the driver does is not modelled: any call may
-- fail with a fault and then changes nothing.
pub mod Apart
pub mod Users
pub mod Sessions
pub mod Games
pub mod Covers
pub mod Saves
pub mod Health
pub mod Schema
