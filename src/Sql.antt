-- ===== src/Sql.antt =====
-- internal/adapter/sqlbuilder: the SQL text that the adapters send to the servers.
pub mod Dialect
pub mod Lexer
pub mod Quoting
pub mod Statement
pub mod Options
pub mod Privilege
pub mod Grant
pub mod Database
pub mod Role
