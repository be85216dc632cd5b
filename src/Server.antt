-- ===== src/Server.antt =====
-- The crate server (server/src): the store of the authentication service in a database, the HTTP
-- routes over it, the WebAuthn engine and the command line.
pub mod Names
pub mod Rows
pub mod Tables
pub mod Transaction
pub mod Queries
pub mod Ceremonies
pub mod Sessions
pub mod Users
pub mod Recoveries
pub mod Store
pub mod Logins
pub mod Calls
pub mod Http
pub mod Webauthn
pub mod Cli
pub mod Writes
