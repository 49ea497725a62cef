-- ===== src/Dbs.antt =====
-- internal/dbs: the values of a document and the conditions on them.
pub mod Value
pub mod Helpers
pub mod Operators
pub mod Condition
pub mod Where
pub mod Build
pub mod Json
pub mod Bounds
pub mod Step
pub mod Model
pub mod Define
pub mod Tx
pub mod Objects
pub mod Run
pub mod Cmd
pub mod Db
pub mod Facts
mod Examples
