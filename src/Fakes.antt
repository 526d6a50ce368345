-- ===== src/Fakes.antt =====
-- internal/testutil/fakes.go: the repositories that the tests of the program use in place of the
-- database. A map that is asked for a missing key gives the zero user. The lock is not modelled:
-- every method holds it from its start to its end. List, which ranges over a map in no fixed order, is
-- left out.
pub mod Users
pub mod Sessions
pub mod Tables
pub mod Tokens
pub mod Calls
pub mod Rows
pub mod Maps
pub mod Effects
pub mod Reads
pub mod Writes
pub mod Refines
mod Tests
