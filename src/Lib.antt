-- ===== src/Lib.antt =====
-- Conversation Blackboard: a shared message log for independent conversations, kept in SQLite, with
-- authorization decided for each request and each accepted intent executed once.
--
-- The parts and the files that model them, paths being those of the repository:
--   Board        the rows of schema.sql and of the tables that src/execution.rs and
--                src/authorization.rs create; the structs of src/model.rs; `Database` is what all
--                operations pass on
--   Sql          SQL as the statements use it: WHERE, COUNT, EXISTS, ORDER BY, UPDATE and rowids,
--                over a table that is the list of its rows in insertion order
--   Transaction  a transaction: its body's database is kept on a commit alone
--   Authorization  src/authorization.rs: Capability (constants, decisions), Schema (what tables have
--                to be there), Implicit (`implicit_authority_reason`), Delegated (the loop over
--                delegated grants, `consume_delegated_grant_in_tx`), Evaluate (the evaluations),
--                Effective (`effective_grants`), Window (`read_authorization_policy_window`),
--                Snapshot (`read_authorization_policy_snapshot`, which the source compiles for its
--                tests alone); Authority says independently of the queries what entitles a
--                principal, and the other files hold proofs
--   Channels, Messages  src/db.rs: channels, the log, `list_messages_after`, reservations of nonces
--                and `append_navigation_message`; Channels/Laws and Messages/* hold proofs
--   Execution    src/execution.rs: Types, Record (receipts and provenance) and Execute, in which
--                `execute_message_intent` is cut at its early returns into stages; Audit and
--                Audit/Ingress (`verify_execution_audit_integrity`, one function for each group
--                of its checks) and Audit/Sweep (`sweep_execution_audit_integrity`); the other
--                files hold proofs, by what they prove
--   Text         the normalization of texts: `normalize` of src/authorization_admin.rs,
--                `normalize_intent_id` of src/execution.rs, `validate_participant_id` of
--                src/identity.rs; Decimal, the digits of a number in a message
--   Identity     src/identity.rs: the rows of participants, their roles, states and credentials;
--                Totp is `authenticate_web_totp`, Guard the machine on one participant's row that
--                it refines, and the other files hold proofs
--   WebAuth      src/web_auth.rs: base32, the code of a TOTP step and the search for the step that a
--                code matches
--   Administration  src/authorization_admin.rs: Types, Requests (normalization), Grants and
--                Delegations (the bodies of the transactions) and Operations (the public functions:
--                the checks in front, the caller's authorization, the transaction)
--   Examples     a concrete board to which the theorems are applied
--
-- An operation takes the database and returns the next one with its result. `now` is the clock,
-- `unixepoch()`, read once for each operation. Ids and clock readings are natural numbers, since
-- SQLite numbers rows from 1 and the clock is past 1970; an `i64` that a caller sends is an integer.
-- A missing row and an explicit `InvalidQuery` are values of `DbError`; I/O errors and a busy
-- database are not modelled: they end a statement, and with it its transaction, with nothing
-- changed. Neither is the error of a statement whose table is missing, as an audit or a sweep of an
-- older database may meet; the code's own tests of the schema and of its tables are. A new row's id
-- is one more than the largest, as no statement of the program deletes rows. The loops run over
-- lists of rows and need no fuel, but for the digits of a number, whose fuel is the number, and a
-- snapshot's loop over windows, whose fuel is one more than the number of rows: each digit makes the
-- number smaller, and each window that leaves rows out has rows.
--
-- `message_request_hash`, a SHA-256 of a JSON text made by sha2 and serde_json, and HMAC-SHA1, which
-- ring computes, are parameters of which nothing is assumed.
--
-- Not modelled: transports (src/http.rs, src/mcp.rs, src/access_api.rs, src/oidc.rs,
-- src/github_webhook.rs), bearer tokens and web sessions (the rest of src/identity.rs and of
-- src/web_auth.rs), signatures of requests (src/participant_auth.rs, src/request_auth.rs), command
-- lines, start-up, and the migrations of older databases.

pub mod Common
pub mod Sql
pub mod Board
pub mod Transaction
pub mod Authorization
pub mod Channels
pub mod Identity
pub mod Messages
pub mod WebAuth
pub mod Execution
pub mod Text
pub mod Administration
pub mod Examples
