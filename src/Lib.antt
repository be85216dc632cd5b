-- ===== src/Lib.antt =====
-- A model of the control plane: the policy of the VPN (policy/src), the polling of its gateways
-- (api/src), the authentication of its users (auth/src) and the store behind it (server/src).
--
-- Policy     policy/src: identifiers, overlay addresses, the VPN policy and its changes, the manifest
--            of its peers, canonical JSON and its digest, deliveries, acknowledgements and reports.
-- Sync       api/src/lib.rs: a gateway polls for its desired manifest and acknowledges what it
--            applied, over the interface of a store; the store in memory, which implements it.
-- Auth       auth/src/lib.rs: the types, the interfaces `AuthStore` and `CeremonyEngine`, and the
--            service over them: one function per method of `AuthService`.
-- Server     server/src/repository.rs and server/migrations/0001_human_auth.sql: the tables as lists
--            of rows, a statement as a function on them, `PgAuthStore` as functions of the trait,
--            put together as an `AuthStore` in Server/Store.antt; sequences of its calls in
--            Server/Calls.antt, and the statements that each makes in Server/Writes.antt. Of
--            server/src/http.rs, the guards of a request (Server/Http.antt), the handlers
--            (Server/Http/Public.antt, Server/Http/Private.antt) and the two routers
--            (Server/Http/Routes.antt). server/src/webauthn.rs in Server/Webauthn.antt, and the
--            commands of server/src/main.rs in Server/Cli.antt.
-- Common     lists, options, results, sorted maps, decimal numbers.
-- Tests      the theorems at concrete inputs.
--
-- Text is the list of its UTF-8 bytes. A `BTreeMap` is a list of entries in the order of their keys.
-- A method that changes a state takes it and returns it with the result, also when it fails. A panic
-- is a result of its own. All loops are structural recursion; only the decimal digits of a
-- number are printed on fuel, which is the number plus one, more than it has digits. Times are
-- microseconds and never reach the end of chrono's range. Ids and tokens that the source draws at
-- random are arguments.
--
-- Parameters are serde_json's quoting of strings, SHA-256, base64, webauthn-rs, the reading of a
-- request's body and of a `Uuid`, the text of a `Uuid` and of a time, the bytes that a header may
-- hold, and the database's own failures: a statement, named by its line, may fail, and a commit may
-- fail or lose its answer. Whether sqlx decodes a column of type INT4 as an `i64` is a parameter too:
-- it is documented not to. A transaction is one step.
--
-- Not modelled: transactions that overlap; axum and tower_http beyond the choice of a handler (the
-- preflight requests of `cors`, the parsing of paths and headers); connecting, migrating and the
-- readiness query; parsing the command line, listening, logging and shutting down; Deserialize and
-- Display impls that only call what is modelled.
pub mod Auth
pub mod Common
pub mod Policy
pub mod Server
pub mod Sync
pub mod Tests
