-- ===== src/Lib.antt =====
-- Memory and Soul Passport: the memory server of packages/ and apps/msp-server, whose agents keep
-- entities in vaults that the server provisions, mounts and guards, under requests that carry signed
-- grants. A write of the domain layer (packages/msp-core/src/domain) is a transaction over SQLite
-- tables: a model of it is a function of the tables to the new tables or an error, and an error
-- leaves the tables as they were.
--
-- Parts:
--   Prelude (Tests, Lists): Boolean tests, predicates on lists, rows selected by a condition.
--   Errors: the typed errors by code (packages/msp-core/src/domain/errors.mjs and
--     packages/msp-contracts/src/contracts/errors.mjs), results and guards.
--   Grant: verifySignedGrant, verifyThreadGrant and signThreadRequest of
--     packages/msp-contracts/src/contracts/signed-grant.mjs and thread-access.mjs. Verify and Sign
--     hold the proofs. What the code takes from node is the record `Crypto`, with two laws: the hex
--     text of a digest is read back, and timingSafeEqual decides equality.
--   Nonces: consumeGrantNonce of packages/msp-core/src/domain/grant-nonces.mjs over the table of
--     migrations/0013. Replay, OnceOnly and Table hold the proofs.
--   Vaults: packages/msp-core/src/domain/vault-registry.mjs. The legacy provisioners stand in Vaults,
--     the principal ones in Vaults/Principal, the access check in Vaults/Access, mountVault in
--     Vaults/Mounts; the invariant in Vaults/Keeps, every writing transaction together in
--     Vaults/Reach, and getVaultStatus, which runs up to three of them, in Vaults/Status. The unique
--     indexes are those of migrations/0011.
--   Temporal: packages/msp-core/src/domain/temporal-engine.mjs.
--   Json: stableStringify and computeSourceHash of packages/msp-core/src/domain/entity-store.mjs.
--   Entities: upsert and forget of entity-store.mjs over `entities` and `entity_history`, with the
--     check of epistemic states and the foreign key to the vaults (migrations/0003 and 0005). The
--     invariant stands in Entities/Ledger, its writes in Entities/Ledger/Writes, and sequences of
--     operations in Entities/Reach.
--   Entities/Decay: packages/msp-core/src/domain/decay-engine.mjs over the same rows. The exponential,
--     the clamp and the comparison of numbers are the record `Scores`.
--   Entities/Read: get, list, history and getById of entity-store.mjs. History, Written, Order and
--     Pages hold the proofs; Entities/Isolation says that a write of one vault leaves the others alone.
--   Links, Journal: packages/msp-core/src/domain/links.mjs and journal.mjs.
--   Guards: packages/msp-contracts/src/contracts/vault-grant-guard.mjs and vault-scope-guard.mjs;
--     Guards/Context is context-scope-guard.mjs.
--   Text: trimmed texts and optional members of a request.
--   Memory: apps/msp-server/src/transport/handlers/memory-handlers.mjs. Memory has checkAccess and
--     consumeAuthorizedGrant; the text that a grant's hash covers is a parameter, a function of the
--     members that the tool reads and of the text of the others. Memory/Tools has msp_memory_upsert,
--     Memory/Reads and Memory/Writes the other tools. Memory/Calls makes them one function of a call,
--     with sequences of calls. Its children hold the proofs: Effects what a call that succeeds has
--     checked and written, tool by tool; Owners, Once and Hidden what follows.
--   Threads: the tables of packages/msp-core/src/domain/thread-memory.mjs (migrations/0008) that the
--     compaction of a session uses, and the messages that it summarises. Threads/Compaction has
--     claimCompaction and retryCompaction, Threads/Compaction/Leases and Blocked the proofs;
--     Threads/Injections has recordInjection, Forward and Calls beneath it what the receipts
--     of model requests can become.
--   The Examples modules apply the theorems to small concrete tables.
--
-- How they interact: a tool (Memory) finds the vault of its request (Vaults), verifies the grant of the
-- request (Guards, Grant) and compares its claims with the vault; in the transaction of the write it
-- consumes the nonce (Nonces) and writes the entities (Entities), whose content hash is Json's and
-- whose times are Temporal's, or a link (Links); the journal gets a row (Journal).
--
-- Bounds: the loop over minted ids counts down from the source's limit of five retries; all other
-- recursion is on a table or a value, so no fuel is needed. Times are milliseconds since the epoch,
-- 1970 or later. Hashes, the clock and random ids are arguments.
--
-- Not modelled: the handlers other than the memory tools, msp_memory_search and the retrieval that it
-- asks, the threads but for the leases of compaction and the receipts of requests, migrations, the
-- client, and the process and network I/O around them; of the journal, `read`; of the temporal engine,
-- nextVersion. The messages of errors are left out.
pub mod Prelude
pub mod Errors
pub mod Text
pub mod Grant
pub mod Nonces
pub mod Vaults
pub mod Guards
pub mod Temporal
pub mod Json
pub mod Entities
pub mod Links
pub mod Journal
pub mod Memory
pub mod Threads
