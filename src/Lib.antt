-- ===== src/Lib.antt =====
-- The Merkle evidence vault: an API that takes evidence, gives each piece a leaf index in a log, and
-- hands out checkpoints of this log that a separate service signs.
--
-- The parts and their files
--
-- - Store.antt, Store/Memory.antt: services/vault-api/store/store.go, the interface `Store` and the
--   store in memory, memStore. An operation is a function of the state to the new state and the
--   value or error. Store/Leaves.antt has the specification, an append-only log of evidence ids.
--   Store/Current.antt has Init and Current.
-- - Store/Postgres.antt: the same file, pgStore. A `Database` has one operation for each SQL statement;
--   Store/Postgres/Documented.antt says what the code relies on of them, and Store/Postgres/Table.antt
--   is a database that has this behaviour. Store/Postgres/Race.antt runs two transactions at once.
-- - Vault.antt: services/vault-api/handler/ingest.go, the package's variables as the record
--   `VaultState`, which also holds the current store (`store.Current()`), and the roles and the
--   subject of services/vault-api/middleware/jwt.go. Vault/Ingest.antt has Ingest, GetEvidence,
--   GetProof and GetAudit; Vault/Checkpoint.antt buildLatestCheckpoint, GetCheckpointsLatest and
--   GetCheckpointsHistory; Vault/Verify.antt verifyCheckpointResponse, VerifyLatestCheckpoint and
--   VerifyCheckpointByTreeSize; Vault/Committer.antt one round of StartCommitter.
--   The handlers use a store through the record `StoreApi`; `memory_api` of Store/Memory.antt is one.
--   Vault/Steps.antt puts the handlers and the rounds of the committer in sequence.
-- - Auth.antt: services/vault-api/middleware/jwt.go, the settings and the policy that is resolved
--   from them; Auth/Startup.antt has the check at the server's start, Auth/Token.antt the checks of a
--   token, Auth/Middleware.antt the middleware itself. It puts the roles and the subject into the
--   context that the handlers of Vault.antt read.
-- - Metrics.antt: services/vault-api/middleware/metrics.go, what the middleware Metrics counts;
--   Metrics/Page.antt has MetricsHandler.
-- - Server.antt: services/vault-api/cmd/server/main.go, the table of routes, and the middlewares in
--   front of the handlers, with services/vault-api/middleware/security_headers.go, auth.go and
--   ratelimit.go. The router chi is a parameter. Server/Observed.antt runs requests one after the
--   other, with the counters of Metrics.antt, Server/Worked.antt requests and rounds of the committer
--   as the events of Vault/Steps.antt; Server/Start.antt has what main starts, and
--   services/vault-api/config/config.go.
-- - Drill.antt: services/verifier-cli/cmd/verifier/main.go, verifyDrill; Drill/Command.antt has main.
-- - Signer.antt: services/checkpoint-svc, the signers (signer/signer.go), the choice of one at start
--   and the /sign endpoint (cmd/checkpoint/main.go), and the counters (metrics/metrics.go);
--   Signer/Service.antt has the started service and the page of the counters.
-- - Verifier.antt: services/verifier-cli/verifier/crypto.go.
-- - Engine.antt: services/merkle-engine/src, in Rust, the Merkle tree (tree.rs), the inclusion proofs
--   (proof.rs) and the shim (rpc.rs). Engine/Shape.antt has their specification, the tree of RFC 6962,
--   Engine/Paths.antt its audit paths, and Digest.antt what is relied on of SHA-256.
--   Engine/Checkpoint.antt has the signed tree heads (checkpoint.rs), which Engine/Heads.antt hands to
--   the verifier of Verifier.antt, and Engine/Health.antt the health server (main.rs).
-- - Domain.antt: services/vault-api/domain, the packages evidence (types.go), bundle (format.go),
--   merkle (interface.go) and checkpoint (types.go), with services/vault-api/internal/merklerpc.
-- - CiKeys.antt: scripts/ci_jwks.go, and its tokens in front of the middleware of Auth.antt.
-- - Prelude.antt, Text.antt and Http.antt: what the program uses of Go and its packages.
--
-- How the model corresponds to the code
--
-- A handler is a function of the state, the request and the response writer to the new state and
-- the new writer. An `int64` is an integer with the wrap-around of its addition written out, a
-- `uint64` a natural number modulo 2^64. A Go map is an association list without repeated keys. The
-- order in which a `range` visits a map is an argument, a list of keys that is assumed to cover the
-- map where a theorem needs it. A Go loop walks such an order or a list, or counts the attempts to
-- load the keys down, and needs no fuel. In the engine, the loop of largest_pow2_less_than runs on 64
-- rounds, after which a shift has nothing left to double, and the recursion of subtree_hash on the
-- number of leaves, which bounds its depth.
-- The clock, fresh UUIDs, the environment, base64, ed25519, tokens and their keys, and the signing
-- service are arguments or fields of the records `Host` (the API's), `Env` and `Jwt` (the
-- middleware's) and `Platform` (the signing service's). Requests come with their bodies decoded, JSON
-- documents are trees.
-- The handlers hold a mutex for their work on the shared state, which is why they are steps one
-- after the other. buildLatestCheckpoint releases it between its three critical sections: the
-- handlers run them together, and Vault/Interleaved.antt runs those of several requests, the ingests
-- and the rounds of the committer in any order.
--
-- Not modelled: the listening servers, log entries, the stubs of services/vault-api/internal/pipeline,
-- which do nothing.
pub mod Prelude
pub mod Text
pub mod Http
pub mod Store
pub mod Vault
pub mod Verifier
pub mod Domain
pub mod Digest
pub mod Engine
pub mod CiKeys
pub mod Auth
pub mod Metrics
pub mod Server
pub mod Drill
pub mod Signer
