-- ===== src/Parser.antt =====
-- The query parser: include/query_optimizer.h and src/query_optimizer/parser.
pub mod Query
pub mod Split
pub mod Conditions
pub mod Select
pub mod Dml
pub mod Ddl
pub mod Sql
mod Tests
